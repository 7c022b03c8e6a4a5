-- ===== src/Reasoning/Join/Tests.antt =====
-- The join at concrete inputs: the body of the rule for a transitive predicate.
use mathlib.Core.Path.{subst}
use oxigraph_nova.Prelude.{
  zero, suc, ◌⊎◌, sym, ℕ, ◌<◌, ◌≡◌, inl, inr, refl, none, some, List, [], ◌∷◌, length, arith, true,
}
use oxigraph_nova.Reasoning.Row.{Row, row, dedup, sort}
use oxigraph_nova.Reasoning.Keys.{In, drop_below}
use oxigraph_nova.Reasoning.SortedVec.{scan_values}
use oxigraph_nova.Reasoning.Trie.{key, seek, advance, join_scan}
use oxigraph_nova.Reasoning.Trie.View.{View, key-View, seek-View, advance-View}
use oxigraph_nova.Reasoning.Trie.Scan.{IsRows, join_scan-View}
use oxigraph_nova.Reasoning.Join.{
  Atom, AtomSource, const, var, is_active_for_var, slice_source, combined_source, leapfrog_sync,
  leapfrog_join,
}
use oxigraph_nova.Reasoning.Join.Least.{LeastCommon, leapfrog_sync-LeastCommon}
use oxigraph_nova.Reasoning.Join.Source.{Serves, slice_source-Serves, combined_source-Serves}
use oxigraph_nova.Reasoning.Join.Instance.{IsLinear, AllVarBelow, HasVarFrom, instance_of}
use oxigraph_nova.Reasoning.Join.Loop.{Enumerates}
use oxigraph_nova.Reasoning.Join.Correct.{leapfrog_join-Enumerates}

abbrev edges : List Row
edges = row 1 9 2 ∷ row 2 9 3 ∷ row 2 9 4 ∷ []

abbrev more_edges : List Row
more_edges = row 4 9 5 ∷ []

edges-IsRows : IsRows edges
edges-IsRows = (
  (omega arith, omega arith, omega arith),
  ((omega arith, omega arith, omega arith), ((omega arith, omega arith, omega arith), tt)),
)

more_edges-IsRows : IsRows more_edges
more_edges-IsRows = ((omega arith, omega arith, omega arith), tt)

abbrev both : AtomSource
both = combined_source (slice_source edges) (slice_source more_edges)

abbrev EdgesOf : Row → Type 0
EdgesOf r = In r edges

both-Serves : Serves both (λ r. In r edges ⊎ In r more_edges) 4
both-Serves =
    combined_source-Serves (slice_source edges) (slice_source more_edges) EdgesOf
      (λ r. In r more_edges) 3 1 (slice_source-Serves edges edges-IsRows)
      (slice_source-Serves more_edges more_edges-IsRows)

abbrev subjects : List ℕ
subjects = scan_values edges none (some 9) none 0

-- The keys of both slices, from the second on.
seek-View_example :
    View (seek (both none (some 9) none 0) 2) (drop_below 2 (both-Serves.keys none (some 9) none 0))
seek-View_example =
    seek-View (both none (some 9) none 0) (both-Serves.keys none (some 9) none 0) 2
      (both-Serves.view none (some 9) none 0)

edges-View : View (join_scan edges none (some 9) none 0) (1 ∷ 2 ∷ [])
unfolding scan_values dedup sort
edges-View = join_scan-View edges none (some 9) none 0 edges-IsRows

advance-View_example : View (advance (join_scan edges none (some 9) none 0)) (2 ∷ [])
advance-View_example = advance-View (join_scan edges none (some 9) none 0) 1 (2 ∷ []) edges-View

key-View_example : key (join_scan edges none (some 9) none 0) ≡ 1
key-View_example = key-View (join_scan edges none (some 9) none 0) 1 (2 ∷ []) edges-View

objects-View : View (join_scan edges none (some 9) none 2) (2 ∷ 3 ∷ 4 ∷ [])
unfolding scan_values dedup sort
objects-View = join_scan-View edges none (some 9) none 2 edges-IsRows

leapfrog_sync-LeastCommon_example : LeastCommon ((1 ∷ 2 ∷ []) ∷ (2 ∷ 3 ∷ 4 ∷ []) ∷ []) (
    leapfrog_sync 6
      (join_scan edges none (some 9) none 0 ∷ join_scan edges none (some 9) none 2 ∷ []))
leapfrog_sync-LeastCommon_example =
    leapfrog_sync-LeastCommon 6 (join_scan edges none (some 9) none 0)
      (join_scan edges none (some 9) none 2 ∷ []) ((1 ∷ 2 ∷ []) ∷ (2 ∷ 3 ∷ 4 ∷ []) ∷ [])
      (edges-View, (objects-View, tt)) (omega arith)

-- `?0 9 ?1`
abbrev first_edge : Atom
first_edge = record { s = var 0; p = const 9; o = var 1; source = slice_source edges }

-- `?1 9 ?2`
abbrev second_edge : Atom
second_edge = record { s = var 1; p = const 9; o = var 2; source = slice_source edges }

abbrev path : List Atom
path = first_edge ∷ second_edge ∷ []

path_serves : (a : Atom) → In a path → Serves a.source EdgesOf 3
path_serves a m = elim m [
  | inl e ↦ subst (λ x. Serves x.source EdgesOf 3) (sym e) (slice_source-Serves edges edges-IsRows)
  | inr (inl e) ↦
      subst (λ x. Serves x.source EdgesOf 3) (sym e) (slice_source-Serves edges edges-IsRows)
  | inr (inr absent) ↦ absurd absent
]

path-IsLinear : (a : Atom) → In a path → IsLinear a
path-IsLinear a m = elim m [
  | inl e ↦ subst IsLinear (sym e) (tt, (λ same. omega (arith, same)), tt)
  | inr (inl e) ↦ subst IsLinear (sym e) (tt, (λ same. omega (arith, same)), tt)
  | inr (inr absent) ↦ absurd absent
]

path-AllVarBelow : (a : Atom) → In a path → AllVarBelow 3 a
path-AllVarBelow a m = elim m [
  | inl e ↦ subst (AllVarBelow 3) (sym e) (omega arith, tt, omega arith)
  | inr (inl e) ↦ subst (AllVarBelow 3) (sym e) (omega arith, tt, omega arith)
  | inr (inr absent) ↦ absurd absent
]

path-HasVarFrom : (a : Atom) → In a path → HasVarFrom 0 a
path-HasVarFrom a m = elim m [
  | inl e ↦ subst (HasVarFrom 0) (sym e) (inl (omega arith))
  | inr (inl e) ↦ subst (HasVarFrom 0) (sym e) (inl (omega arith))
  | inr (inr absent) ↦ absurd absent
]

path_covered : (v : ℕ) → v < 3 → (a : Atom) × In a path × (is_active_for_var v a ≡ true)
unfolding is_active_for_var
path_covered zero h = (first_edge, inl refl, refl)
path_covered (suc zero) h = (first_edge, inl refl, refl)
path_covered (suc (suc zero)) h = (second_edge, inr (inl refl), refl)
path_covered (suc (suc (suc v))) h = absurd (omega arith)

leapfrog_join-Enumerates_example :
    Enumerates
      (leapfrog_join 7 path 3)
      (λ ρ. (length ρ ≡ 3) × ((a : Atom) → In a path → In (instance_of ρ a) edges))
leapfrog_join-Enumerates_example =
    leapfrog_join-Enumerates 7 path 3 (λ a. EdgesOf) 3 path_serves path-IsLinear path-AllVarBelow
      path_covered (omega arith) path-HasVarFrom

slice_source-Serves_example : Serves (slice_source edges) EdgesOf 3
slice_source-Serves_example = slice_source-Serves edges edges-IsRows

combined_source-Serves_example : Serves both (λ r. In r edges ⊎ In r more_edges) 4
combined_source-Serves_example =
    combined_source-Serves (slice_source edges) (slice_source more_edges) EdgesOf
      (λ r. In r more_edges) 3 1 (slice_source-Serves edges edges-IsRows)
      (slice_source-Serves more_edges more_edges-IsRows)
