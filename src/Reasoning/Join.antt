-- ===== src/Reasoning/Join.antt =====
-- crates/core/nova-reasoning/src/join.rs: atoms over sources, and the leapfrog join. `none` of an
-- `Option` is a loop that has used up its fuel, or the panic of `expect("fully bound")`.
pub mod Binding
pub mod Instance
pub mod Correct
pub mod Least
pub mod Loop
pub mod Scans
pub mod Source
pub mod Sync
mod Tests
use oxigraph_nova.Prelude.{
  ℕ, zero, suc, Bool, true, false, ◌||◌, Option, none, some, List, [], ◌∷◌, ◌++◌, map, ltb, ◌==◌,
  if◌then◌else◌, get_or, set,
}
use oxigraph_nova.Reasoning.Row.{Row}
use oxigraph_nova.Reasoning.Trie.{TrieIter, exhausted, union, at_end, key, seek, advance, join_scan}

pub data AtomField : Type 0 where
  const : ℕ → AtomField
  var : ℕ → AtomField

-- A `&dyn AtomSource` is its one method, `scan`.
abbrev pub AtomSource : Type 0
AtomSource = Option ℕ → Option ℕ → Option ℕ → ℕ → TrieIter

unfoldable pub slice_source : List Row → AtomSource
slice_source rows s p o target = join_scan rows s p o target

unfoldable pub null_source : AtomSource
null_source s p o target = exhausted

unfoldable pub combined_source : AtomSource → AtomSource → AtomSource
combined_source primary secondary s p o target =
    union (primary s p o target) (secondary s p o target)

pub record Atom : Type 0 where
  pub s : AtomField
  pub p : AtomField
  pub o : AtomField
  pub source : AtomSource

abbrev pub Bindings : Type 0
Bindings = List (Option ℕ)

abbrev pub is_var : ℕ → AtomField → Bool
is_var v (const _) = false
is_var v (var w) = w == v

unfoldable pub is_active_for_var : ℕ → Atom → Bool
is_active_for_var v a = is_var v a.s || (is_var v a.p || is_var v a.o)

abbrev pub resolve : Bindings → AtomField → Option ℕ
resolve bindings (const id) = some id
resolve bindings (var v) = get_or bindings v none

-- An atom is only asked for a variable for which it is active.
abbrev pub target_field : ℕ → Atom → ℕ
target_field v a = if is_var v a.s then 0 else if is_var v a.p then 1 else 2

-- `resolve_for_var`, and the scan of the atom's source with what it gives.
unfoldable pub scan_for_var : ℕ → Bindings → Atom → TrieIter
scan_for_var v bindings a =
    a.source (resolve bindings a.s) (resolve bindings a.p) (resolve bindings a.o) (target_field v a)

abbrev pub any_at_end : List TrieIter → Bool
any_at_end [] = false
any_at_end (i ∷ is) = at_end i || any_at_end is

abbrev pub max_from : ℕ → List TrieIter → ℕ
max_from m [] = m
max_from m (i ∷ is) = max_from (if ltb m (key i) then key i else m) is

abbrev pub max_key : List TrieIter → ℕ
max_key is = max_from 0 is

-- How the inner `for` of `leapfrog_sync` ends: by a return, at its end, or by a break.
pub data Pass : Type 0 where
  ended : Pass
  aligned : List TrieIter → Pass
  behind : List TrieIter → Pass

abbrev pub pass_cons : TrieIter → Pass → Pass
pass_cons i ended = ended
pass_cons i (aligned is) = aligned (i ∷ is)
pass_cons i (behind is) = behind (i ∷ is)

unfoldable pub pass : ℕ → List TrieIter → Pass
pass max_key [] = aligned []
pass max_key (i ∷ is) =
    let rest = pass max_key is in
    if ltb (key i) max_key
    then (let i' = seek i max_key in
        if at_end i'
        then ended
        else if key i' == max_key
        then pass_cons i' rest
        else behind (i' ∷ is))
    else pass_cons i rest

abbrev pub Synced : Type 0
Synced = Option (ℕ × List TrieIter)

unfoldable pub sync_loop : ℕ → List TrieIter → Option Synced
sync_loop zero is = none
sync_loop (suc fuel) is = elim (pass (max_key is) is) [
  | ended ↦ some none
  | aligned is' ↦ some (some (max_key is, is'))
  | behind is' ↦ sync_loop fuel is'
]

unfoldable pub leapfrog_sync : ℕ → List TrieIter → Option Synced
leapfrog_sync fuel [] = some none
leapfrog_sync fuel (i ∷ is) = if any_at_end (i ∷ is) then some none else sync_loop fuel (i ∷ is)

abbrev pub Found : Type 0
Found = Option (List (List ℕ))

abbrev pub found_append : Found → Found → Found
found_append none b = none
found_append (some a) none = none
found_append (some a) (some b) = some (a ++ b)

abbrev pub advance_first : List TrieIter → List TrieIter
advance_first [] = []
advance_first (i ∷ is) = advance i ∷ is

-- `scans[0].at_end()`
abbrev pub first_at_end : List TrieIter → Bool
first_at_end [] = true
first_at_end (i ∷ is) = at_end i

-- The `loop` of `join_step`, with `next` the join of the variables behind `v`.
unfoldable pub scan_loop : ℕ → ℕ → (Bindings → Found) → ℕ → Bindings → List TrieIter → Found
scan_loop limit zero next v bindings scans = none
scan_loop limit (suc fuel) next v bindings scans = elim (leapfrog_sync limit scans) [
  | none ↦ none
  | some none ↦ some []
  | some (some (val, scans')) ↦
      found_append (next (set bindings v (some val))) (elim (first_at_end (advance_first scans')) [
        | true ↦ some []
        | false ↦ scan_loop limit fuel next v bindings (advance_first scans')
      ])
]

unfoldable pub all_bound : Bindings → Option (List ℕ)
all_bound [] = some []
all_bound (none ∷ bs) = none
all_bound (some v ∷ bs) = elim (all_bound bs) [ none ↦ none | some vs ↦ some (v ∷ vs) ]

unfoldable pub push_result : Bindings → Found
unfolding all_bound
push_result bindings = elim (all_bound bindings) [ none ↦ none | some vs ↦ some (vs ∷ []) ]

unfoldable pub active_atoms : ℕ → List Atom → List Atom
unfolding is_active_for_var
active_atoms v [] = []
active_atoms v (a ∷ atoms) =
    let rest = active_atoms v atoms in if is_active_for_var v a then a ∷ rest else rest

join_active : ℕ → (Bindings → Found) → ℕ → Bindings → List Atom → Found
unfolding scan_for_var scan_loop
join_active limit next v bindings [] = next bindings
join_active limit next v bindings (a ∷ active) =
    let scans = map (scan_for_var v bindings) (a ∷ active) in
    if any_at_end scans then some [] else scan_loop limit limit next v bindings scans

-- Each loop may take `limit` rounds.
unfoldable pub join_step : ℕ → List Atom → List ℕ → Bindings → Found
unfolding push_result join_active active_atoms
join_step limit atoms [] bindings = push_result bindings
join_step limit atoms (v ∷ remaining) bindings =
    join_active limit (join_step limit atoms remaining) v bindings (active_atoms v atoms)

-- `(0..n)` from `k` on
abbrev pub range_from : ℕ → ℕ → List ℕ
range_from k zero = []
range_from k (suc n) = k ∷ range_from (suc k) n

abbrev pub unbound : ℕ → Bindings
unbound zero = []
unbound (suc n) = none ∷ unbound n

unfoldable pub leapfrog_join : ℕ → List Atom → ℕ → Found
unfolding join_step
leapfrog_join limit atoms num_vars =
    join_step limit atoms (range_from 0 num_vars) (unbound num_vars)
