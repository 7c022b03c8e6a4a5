-- ===== src/Reasoning/Fixpoint/Derived.antt =====
-- What a set of rules says of a set of rows, apart from how fixpoint.rs evaluates it.
use oxigraph_nova.Prelude.{ℕ, ◌≡◌, List, length}
use oxigraph_nova.Reasoning.Row.{Row}
use oxigraph_nova.Reasoning.Keys.{In}
use oxigraph_nova.Reasoning.Trie.Scan.{IsRows}
use oxigraph_nova.Reasoning.Rule.{RuleAtom, Rule}
use oxigraph_nova.Reasoning.Fixpoint.{project_head}
use oxigraph_nova.Reasoning.Fixpoint.Round.{rule_instance}
use oxigraph_nova.Reasoning.Fixpoint.Fired.{AllIn}

-- The facts that follow from the seed by the rules.
pub data Derived (rules : List Rule) (seed : List Row) : Row → Type 0 where
  given : {fact : Row} → In fact seed → Derived rules seed fact
  by_rule :
      {fact : Row} (r : Rule) (ρ : List ℕ)
      → In r rules
      → length ρ ≡ r.num_vars
      → ((a : RuleAtom) → In a r.body → Derived rules seed (rule_instance ρ a))
      → fact ≡ project_head r.head ρ
      → Derived rules seed fact

-- The facts that follow from the seed by the rules, where a premise may also be a row of a store, but
-- not all the premises of a step: some one follows from the seed itself.
mutual
  pub data Triggered (rules : List Rule) (S : Row → Type 0) (seed : List Row) : Row → Type 0 where
    seed_fact : {fact : Row} → In fact seed → Triggered rules S seed fact
    rule_fact :
        {fact : Row} (r : Rule) (ρ : List ℕ)
        → In r rules
        → length ρ ≡ r.num_vars
        → ((a : RuleAtom) → In a r.body → Premise rules S seed (rule_instance ρ a))
        → (a : RuleAtom) → In a r.body
        → Triggered rules S seed (rule_instance ρ a)
        → fact ≡ project_head r.head ρ
        → Triggered rules S seed fact

  pub data Premise (rules : List Rule) (S : Row → Type 0) (seed : List Row) : Row → Type 0 where
    stored : {fact : Row} → S fact → Premise rules S seed fact
    triggered : {fact : Row} → Triggered rules S seed fact → Premise rules S seed fact

-- A finite set of rows that the rules do not leave.
pub record IsUniverse (rules : List Rule) (seed rows : List Row) : Type 0 where
  pub bounded : IsRows rows
  pub seeded : (fact : Row) → In fact seed → In fact rows
  pub closed :
      (r : Rule) (ρ : List ℕ)
      → In r rules
      → length ρ ≡ r.num_vars
      → AllIn rows r.body ρ
      → In (project_head r.head ρ) rows
