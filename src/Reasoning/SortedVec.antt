-- ===== src/Reasoning/SortedVec.antt =====
-- crates/core/nova-reasoning/src/sorted_vec_trie.rs: a trie over a sorted vector of rows.
pub mod View
use oxigraph_nova.Prelude.{
  ℕ, zero, suc, ◌+◌, ◌-◌, Bool, Option, none, some, List, [], ◌∷◌, ◌&&◌, ◌||◌, true, map, ltb, leb,
  ◌==◌, if◌then◌else◌, length, get_or,
}
use oxigraph_nova.Reasoning.Row.{Row, row, cell, slice, partition_point, sort, dedup}

abbrev pub u64_max : ℕ
u64_max = 18446744073709551615

abbrev pub saturating_suc : ℕ → ℕ
saturating_suc k = if ltb k u64_max then suc k else u64_max

-- `range` is `(lo, hi)`.
pub record SortedVecTrie : Type 0 where
  pub rows : List Row
  pub lo : ℕ
  pub hi : ℕ
  pub col : ℕ
  pub pos : ℕ

-- On rows that are sorted and without duplicates.
unfoldable pub new : List Row → SortedVecTrie
new rows = record { rows = rows; lo = 0; hi = length rows; col = 0; pos = 0 }

unfoldable pub is_empty : SortedVecTrie → Bool
is_empty t = leb t.hi t.lo

-- An index out of range panics in the source; the default is not met below `hi`.
unfoldable pub val_at : SortedVecTrie → ℕ → ℕ
val_at t i = cell (get_or t.rows i (row 0 0 0)) t.col

unfoldable pub lower_bound : SortedVecTrie → ℕ → ℕ
lower_bound t target =
    t.lo + partition_point (λ r. ltb (cell r t.col) target) (slice t.rows t.lo t.hi)

unfoldable pub set_cell : ℕ → ℕ → Row
set_cell zero v = row v 0 0
set_cell (suc zero) v = row 0 v 0
set_cell (suc (suc _)) v = row 0 0 v

unfoldable pub at_column : List ℕ → ℕ → SortedVecTrie
unfolding set_cell
at_column values col =
    let rows = map (set_cell col) values in
    record { rows = rows; lo = 0; hi = length rows; col = col; pos = 0 }

unfoldable pub key : SortedVecTrie → ℕ
unfolding val_at
key t = val_at t (t.lo + t.pos)

unfoldable pub at_end : SortedVecTrie → Bool
at_end t = leb t.hi (t.lo + t.pos)

unfoldable pub seek : SortedVecTrie → ℕ → SortedVecTrie
unfolding val_at
seek t target =
    if at_end t
    then t
    else if leb target (val_at t (t.lo + t.pos))
    then t
    else record t { pos = lower_bound t target - t.lo }

unfoldable pub advance : SortedVecTrie → SortedVecTrie
advance t = if at_end t then t else seek t (saturating_suc (key t))

-- `none` is the iterator that is always exhausted.
unfoldable pub open_child : SortedVecTrie → Option SortedVecTrie
unfolding at_end key
open_child t =
    if at_end t
    then none
    else (let cur = t.lo + t.pos in
        some (record t {
          lo = cur;
          hi = cur + partition_point (λ r. cell r t.col == key t) (slice t.rows cur t.hi);
          col = t.col + 1;
          pos = 0;
        }))

-- The loop of `remaining_count`, each round of which passes at least one row.
count_from : ℕ → SortedVecTrie → ℕ → ℕ
count_from zero t i = 0
count_from (suc fuel) t i =
    let rest =
      count_from fuel t
        (i + partition_point (λ r. cell r t.col == val_at t i) (slice t.rows i t.hi)) in
    if ltb i t.hi then suc rest else 0

unfoldable pub remaining_count : SortedVecTrie → ℕ
unfolding at_end count_from val_at
remaining_count t = if at_end t then 0 else count_from (t.hi - (t.lo + t.pos)) t (t.lo + t.pos)

-- `i == target_field || bound[i].is_none_or(|v| v == row[i])`
abbrev pub field_fits : ℕ → Option ℕ → ℕ → Row → Bool
field_fits i bound target r = i == target || elim bound [ none ↦ true | some v ↦ v == cell r i ]

unfoldable pub row_fits : Option ℕ → Option ℕ → Option ℕ → ℕ → Row → Bool
row_fits s p o target r =
    field_fits 0 s target r && (field_fits 1 p target r && field_fits 2 o target r)

unfoldable pub matching : Option ℕ → Option ℕ → Option ℕ → ℕ → List Row → List ℕ
unfolding row_fits
matching s p o target [] = []
matching s p o target (r ∷ rs) =
    let rest = matching s p o target rs in
    if row_fits s p o target r then cell r target ∷ rest else rest

-- The values that `join_scan` puts into its iterator.
unfoldable pub scan_values : List Row → Option ℕ → Option ℕ → Option ℕ → ℕ → List ℕ
unfolding matching
scan_values rows s p o target = dedup (sort (matching s p o target rows))
