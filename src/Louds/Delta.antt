-- ===== src/Louds/Delta.antt =====
-- delta.rs: the buffer of the writes since the last compaction. The standard library's `BTreeMap` is
-- the list of its entries in the order of the keys, and a key of 128 bits packs a quad of ids.
pub mod Laws
pub mod Range
mod Tests
use oxigraph_nova.Prelude.{
  ℕ, suc, ◌+◌, ◌*◌, Bool, true, false, ◌&&◌, not, Option, none, some, List, [], ◌∷◌, ltb, leb, ◌==◌,
  if◌then◌else◌, length,
}
use oxigraph_nova.Dictionary.Keys.{TermId, GraphId, pack_quad}

pub record Entry : Type 0 where
  pub key : ℕ
  -- an insertion, or else a tombstone
  pub live : Bool

abbrev pub entry : ℕ → Bool → Entry
entry k v = record { key = k; live = v }

-- `BTreeMap::insert`
unfoldable pub map_insert : List Entry → ℕ → Bool → List Entry
map_insert [] k v = entry k v ∷ []
map_insert (e ∷ m) k v =
    let rest = map_insert m k v in
    if k == e.key then entry k v ∷ m else if ltb k e.key then entry k v ∷ e ∷ m else e ∷ rest

unfoldable pub new : List Entry
new = []

unfoldable pub insert_key : List Entry → ℕ → List Entry
insert_key m key = map_insert m key true

unfoldable pub tombstone_key : List Entry → ℕ → List Entry
tombstone_key m key = map_insert m key false

unfoldable pub get : List Entry → ℕ → Option Bool
get [] key = none
get (e ∷ m) key = let rest = get m key in if e.key == key then some e.live else rest

unfoldable pub delta_len : List Entry → ℕ
delta_len m = length m

unfoldable pub is_empty : List Entry → Bool
is_empty [] = true
is_empty (_ ∷ _) = false

unfoldable pub insert_count : List Entry → ℕ
insert_count [] = 0
insert_count (e ∷ m) = let rest = insert_count m in if e.live then suc rest else rest

unfoldable pub tombstone_count : List Entry → ℕ
tombstone_count [] = 0
tombstone_count (e ∷ m) = let rest = tombstone_count m in if e.live then rest else suc rest

unfoldable pub clear : List Entry → List Entry
clear m = []

abbrev pub entries_in : List Entry → ℕ → ℕ → List Entry
entries_in [] lo hi = []
entries_in (e ∷ m) lo hi =
    let rest = entries_in m lo hi in if leb lo e.key && leb e.key hi then e ∷ rest else rest

-- `BTreeMap::range` panics on a range that starts after its end.
unfoldable pub range_inclusive : List Entry → ℕ → ℕ → Option (List Entry)
range_inclusive m lo hi = if ltb hi lo then none else some (entries_in m lo hi)

-- The lower end of the keys of a graph and a subject, and of a predicate as well. No two of the
-- operands of `|` have a bit in common.
abbrev graph_base : GraphId → ℕ
graph_base g = g.raw * 1329227995784915872903807060280344576

abbrev subject_base : GraphId → TermId → ℕ
subject_base g sv = graph_base g + sv.raw * 1208925819614629174706176

abbrev predicate_base : GraphId → TermId → TermId → ℕ
predicate_base g sv pv = subject_base g sv + pv.raw * 1099511627776

unfoldable pub graph_range : GraphId → Option TermId → Option TermId → Option TermId → ℕ × ℕ
graph_range g (some sv) (some pv) (some ov) =
    let key = pack_quad (record { g = g; s = sv; p = pv; o = ov }) in (key, key)
graph_range g (some sv) (some pv) none = let lo = predicate_base g sv pv in (lo, lo + 1099511627775)
graph_range g (some sv) none o = let lo = subject_base g sv in (lo, lo + 1208925819614629174706175)
graph_range g none p o = let lo = graph_base g in (lo, lo + 1329227995784915872903807060280344575)
