-- ===== src/Reasoning/Fixpoint/Tests.antt =====
-- A round of the rule for a transitive predicate.
use mathlib.Core.Path.{subst}
use oxigraph_nova.Prelude.{ℕ, ◌+◌, ◌*◌, ◌<◌, inl, inr, refl, sym, List, [], ◌∷◌, length, arith}
use oxigraph_nova.Reasoning.Row.{Row, row}
use oxigraph_nova.Reasoning.Keys.{In}
use oxigraph_nova.Reasoning.Trie.Scan.{IsRows}
use oxigraph_nova.Reasoning.Join.{slice_source}
use oxigraph_nova.Reasoning.Join.Source.{Serves, slice_source-Serves}
use oxigraph_nova.Reasoning.Rule.{transitive}
use oxigraph_nova.Reasoning.SortedVec.{u64_max}
use oxigraph_nova.Reasoning.Rule.{new, Rule}
use oxigraph_nova.Reasoning.Fixpoint.Rounds.{AreSet}
use oxigraph_nova.Reasoning.Fixpoint.Derived.{Derived, Triggered}
use oxigraph_nova.Reasoning.Fixpoint.Round.{rule_instance}
use oxigraph_nova.Reasoning.Fixpoint.Grid.{OverIds}
use oxigraph_nova.Reasoning.Fixpoint.Correct.{IsRule, closure-Derived, closure_over_store-Triggered}
use oxigraph_nova.Reasoning.Fixpoint.Transitive.{
  transitive-IsJoinable, transitive-IsRule, Reached, transitive_closure-Reached,
}
use oxigraph_nova.Reasoning.Fixpoint.{
  transitive_closure, eval_rule_round, closure, closure_over_store,
}
use oxigraph_nova.Reasoning.Fixpoint.Derives.{AreRows, DerivesAt, eval_rule_round-DerivesAt}

abbrev edges : List Row
edges = row 1 9 2 ∷ row 2 9 3 ∷ []

edges-IsRows : IsRows edges
edges-IsRows =
    ((omega arith, omega arith, omega arith), ((omega arith, omega arith, omega arith), tt))

abbrev IsEdge : Row → Type 0
IsEdge r = In r edges

edges-Serves : Serves (slice_source edges) IsEdge 2
edges-Serves = slice_source-Serves edges edges-IsRows

limit_enough : length (transitive 9).body * 2 < 5
unfolding transitive
limit_enough = omega arith

eval_rule_round-DerivesAt_example :
    AreRows (eval_rule_round 5 (transitive 9) (slice_source edges) (slice_source edges)) (λ fact.
      (j : ℕ) × (j < length (transitive 9).body)
      × DerivesAt
          (slice_source edges)
          (slice_source edges)
          IsEdge
          IsEdge
          2
          edges-Serves
          edges-Serves
          5
          (transitive 9)
          (transitive-IsJoinable 9)
          limit_enough
          j
          fact)
eval_rule_round-DerivesAt_example =
    eval_rule_round-DerivesAt (slice_source edges) (slice_source edges) IsEdge IsEdge 2 edges-Serves
      edges-Serves 5 (transitive 9) (transitive-IsJoinable 9) limit_enough

abbrev edge_ids : List ℕ
edge_ids = 1 ∷ 2 ∷ 3 ∷ 9 ∷ []

nine_in : In 9 edge_ids
nine_in = inr (inr (inr (inl refl)))

edge_ids_small : (v : ℕ) → In v edge_ids → v < u64_max
edge_ids_small v m = ground arith

edges_over : (fact : Row) → In fact edges → OverIds edge_ids fact
edges_over fact m = elim m [
  | inl e ↦ subst (OverIds edge_ids) (sym e) (inl refl, inr (inr (inr (inl refl))), inr (inl refl))
  | inr (inl e) ↦
      subst (OverIds edge_ids) (sym e)
        (inr (inl refl), inr (inr (inr (inl refl))), inr (inr (inl refl)))
  | inr (inr absent) ↦ absurd absent
]

abbrev one_rule : List Rule
one_rule = transitive 9 ∷ []

one_rule-IsRule : (r : Rule) → In r one_rule → IsRule edge_ids r
one_rule-IsRule r m = elim m [
  | inl e ↦ subst (IsRule edge_ids) (sym e) (transitive-IsRule 9 edge_ids nine_in)
  | inr absent ↦ absurd absent
]

two_atoms_limit : length (transitive 9).body * (4 * (4 * 4)) < 300
unfolding transitive
two_atoms_limit = omega arith

store_two_atoms_limit : length (transitive 9).body * (2 + 4 * (4 * 4)) < 300
unfolding transitive
store_two_atoms_limit = omega arith

body_limit : (r : Rule) → In r one_rule → length r.body * (4 * (4 * 4)) < 300
body_limit r m = elim m [
  | inl e ↦ subst (λ z. length z.body * (4 * (4 * 4)) < 300) (sym e) two_atoms_limit
  | inr absent ↦ absurd absent
]

store_limit : (r : Rule) → In r one_rule → length r.body * (2 + 4 * (4 * 4)) < 300
store_limit r m = elim m [
  | inl e ↦ subst (λ z. length z.body * (2 + 4 * (4 * 4)) < 300) (sym e) store_two_atoms_limit
  | inr absent ↦ absurd absent
]

closure-Derived_example : AreSet (closure 300 66 (new one_rule) edges) (Derived one_rule edges)
closure-Derived_example =
    closure-Derived one_rule edges edge_ids 300 66 edge_ids_small edges_over one_rule-IsRule
      (omega arith) body_limit

-- The store has an edge that the seed has not.
abbrev first_edge : List Row
first_edge = row 1 9 2 ∷ []

first_edge_over : (fact : Row) → In fact first_edge → OverIds edge_ids fact
first_edge_over fact m = elim m [ inl e ↦ edges_over fact (inl e) | inr absent ↦ absurd absent ]

closure_over_store-Triggered_example :
    AreSet
      (closure_over_store 300 66 (new one_rule) (slice_source edges) first_edge)
      (Triggered one_rule IsEdge first_edge)
closure_over_store-Triggered_example =
    closure_over_store-Triggered one_rule first_edge edge_ids 300 66 edge_ids_small first_edge_over
      one_rule-IsRule (omega arith) (slice_source edges) IsEdge 2 edges-Serves
      (λ r m a i ρ s. edges_over (rule_instance ρ a) s) store_limit

transitive_closure-Reached_example :
    AreSet (transitive_closure 300 66 (transitive 9) edges) (Reached 9 edges)
transitive_closure-Reached_example =
    transitive_closure-Reached 9 edges edge_ids 300 66 edge_ids_small edges_over nine_in
      (omega arith) (omega arith)
