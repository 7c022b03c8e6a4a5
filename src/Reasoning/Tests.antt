-- ===== src/Reasoning/Tests.antt =====
-- The reasoner at concrete inputs, among them those of the tests in fixpoint.rs.
use oxigraph_nova.Prelude.{ℕ, List, [], ◌∷◌, ◌≡◌, ◌↔◌, some, get_elem?}
use oxigraph_nova.Reasoning.Row.{Row, row}
use oxigraph_nova.Reasoning.Rule
use oxigraph_nova.Reasoning.Keys.{In, Ascending}
use oxigraph_nova.Reasoning.Rule.{RuleSet, active_rules}
use oxigraph_nova.Reasoning.Rule.Active.{Matches, active_rules-Matches}
use oxigraph_nova.Reasoning.Fixpoint.{Rows, closure}

-- `multi_rule_type_propagation_through_transitive_subclass`
abbrev zoo : List Row
zoo = row 2 100 1 ∷ row 3 100 2 ∷ row 10 200 3 ∷ []

zoo_closure : Rows
unfolding closure
zoo_closure =
    closure 50 50 (Rule.new (Rule.transitive 100 ∷ Rule.type_propagation 200 100 ∷ [])) zoo

abbrev zoo_rules : List Rule.Rule
zoo_rules = Rule.transitive 100 ∷ Rule.type_propagation 200 100 ∷ []

abbrev type_fact : List Row
type_fact = row 1 200 2 ∷ []

-- `active_rules_finds_matching_predicate_only`
active_rules-Matches_example :
    Ascending (active_rules (Rule.new zoo_rules) type_fact)
    × ((idx : ℕ)
        → In idx (active_rules (Rule.new zoo_rules) type_fact)
          ↔ ((r : Rule.Rule) × (get_elem? zoo_rules idx ≡ some r) × Matches r type_fact))
active_rules-Matches_example = active_rules-Matches zoo_rules type_fact
