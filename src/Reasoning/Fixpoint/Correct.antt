-- ===== src/Reasoning/Fixpoint/Correct.antt =====
-- fixpoint.rs: `run_fixpoint`, `closure` and `closure_over_store` against what the rules derive.
use mathlib.Core.Path.{subst}
use oxigraph_nova.Prelude.{
  ℕ, ◌+◌, ◌*◌, ◌≤◌, ◌<◌, ◌≡◌, inl, inr, refl, sym, List, [], ◌∷◌, arith, length,
}
use oxigraph_nova.Reasoning.Row.{Row, set_extend}
use oxigraph_nova.Reasoning.Row.Sets.{set_extend-IsRowSet, In-set_extend}
use oxigraph_nova.Reasoning.Keys.{In}
use oxigraph_nova.Reasoning.SortedVec.{u64_max}
use oxigraph_nova.Reasoning.Join.{AtomSource, null_source}
use oxigraph_nova.Reasoning.Join.Source.{Serves, null_source-Serves}
use oxigraph_nova.Reasoning.Rule.{RuleAtom, Rule, new}
use oxigraph_nova.Reasoning.Fixpoint.{run_fixpoint, closure, closure_over_store}
use oxigraph_nova.Reasoning.Fixpoint.Round.{rule_instance, IsJoinable}
use oxigraph_nova.Reasoning.Fixpoint.Rounds.{AreSet, AreSet-iff}
use oxigraph_nova.Reasoning.Fixpoint.Derived.{
  Derived, given, by_rule, Triggered, seed_fact, rule_fact, Premise, stored, triggered, IsUniverse,
}
use oxigraph_nova.Reasoning.Fixpoint.Loop.{IsStage, rounds, fixpoint_loop-IsClosure}
use oxigraph_nova.Reasoning.Fixpoint.Grid.{
  grid, In-grid, length-grid, OverIds, HeadOver, grid-IsUniverse,
}

-- A rule that the fixpoint evaluates: its body is not empty, its joins are well-formed, and its head
-- has the rule's variables and constants among the ids.
pub record IsRule (ids : List ℕ) (r : Rule) : Type 0 where
  pub premise : 0 < length r.body
  pub joinable : IsJoinable r
  pub subject : HeadOver ids r.num_vars r.head.s
  pub predicate : HeadOver ids r.num_vars r.head.p
  pub object : HeadOver ids r.num_vars r.head.o

module _ (rules : List Rule) (S : Row → Type 0) (seed rows : List Row)
    (universe : IsUniverse rules seed rows)
    (stored_in : (r : Rule)
      → In r rules
      → (a : RuleAtom) → In a r.body
      → (ρ : List ℕ) → S (rule_instance ρ a)
      → In (rule_instance ρ a) rows) where
  rounds_le : (delta : List Row) → rounds rules S seed rows universe stored_in delta ≤ 2
  rounds_le [] = omega arith
  rounds_le (_ ∷ _) = omega arith

  first_total : (fact : Row) → In fact (set_extend [] seed) → In fact seed
  first_total fact m = elim ((In-set_extend fact [] seed).0 m) [ inl a ↦ absurd a | inr b ↦ b ]

  first-IsStage :
      IsStage rules S seed rows universe stored_in (set_extend [] seed) (set_extend [] seed)
  first-IsStage = record {
    set = set_extend-IsRowSet [] seed tt;
    delta_set = set_extend-IsRowSet [] seed tt;
    sub = λ fact m. m;
    seeds = λ fact m. (In-set_extend fact [] seed).1 (inr m);
    sound = λ fact m. seed_fact (first_total fact m);
    within = λ fact m. universe.seeded fact (first_total fact m);
    settled = λ r ρ m len all some_known. inr some_known;
  }

-- Without a store, and with a premise in every rule, these are the facts that follow.
module _ (rules : List Rule) (seed : List Row)
    (premises : (r : Rule) → In r rules → 0 < length r.body) where
  mutual
    Triggered-Derived : (fact : Row) → Triggered rules (λ _. ⊥) seed fact → Derived rules seed fact
    Triggered-Derived fact (seed_fact m) = given m
    Triggered-Derived fact (rule_fact r ρ m len known a i d e) =
        by_rule r ρ m len (λ b j. Premise-Derived (rule_instance ρ b) (known b j)) e

    Premise-Derived : (fact : Row) → Premise rules (λ _. ⊥) seed fact → Derived rules seed fact
    Premise-Derived fact (stored absent) = absurd absent
    Premise-Derived fact (triggered d) = Triggered-Derived fact d

  some_atom : (body : List RuleAtom) → 0 < length body → (a : RuleAtom) × In a body
  some_atom [] h = absurd (omega arith)
  some_atom (a ∷ body) h = (a, inl refl)

  Derived-Triggered : (fact : Row) → Derived rules seed fact → Triggered rules (λ _. ⊥) seed fact
  Derived-Triggered fact (given m) = seed_fact m
  Derived-Triggered fact (by_rule r ρ m len known e) =
      let (a, i) = some_atom r.body (premises r m) in
      rule_fact r ρ m len (λ b j. triggered (Derived-Triggered (rule_instance ρ b) (known b j))) a i
        (Derived-Triggered (rule_instance ρ a) (known a i)) e

module _ (rules : List Rule) (seed : List Row) (ids : List ℕ) (limit fuel : ℕ)
    (small : (v : ℕ) → In v ids → v < u64_max)
    (over : (fact : Row) → In fact seed → OverIds ids fact)
    (proper : (r : Rule) → In r rules → IsRule ids r)
    (rounds_enough : length ids * (length ids * length ids) + 2 ≤ fuel) where
  IsUniverse-of : IsUniverse rules seed (grid ids)
  IsUniverse-of =
      grid-IsUniverse rules seed ids small over (λ r m. (proper r m).joinable)
        (λ r m. ((proper r m).subject, (proper r m).predicate, (proper r m).object))

  run_fixpoint-Triggered :
      (store : AtomSource) (S : Row → Type 0) (size : ℕ)
      → Serves store S size
      → ((r : Rule)
          → In r rules
          → (a : RuleAtom) → In a r.body
          → (ρ : List ℕ) → S (rule_instance ρ a)
          → OverIds ids (rule_instance ρ a))
      → ((r : Rule)
          → In r rules
          → length r.body * (size + length ids * (length ids * length ids)) < limit)
      → AreSet (run_fixpoint limit fuel (new rules) seed store) (Triggered rules S seed)
  unfolding run_fixpoint
  run_fixpoint-Triggered store S size serves stored_over enough =
      let total = set_extend [] seed in
      let stored_in =
        λ (r : Rule) (m : In r rules) (a : RuleAtom) (i : In a r.body) (ρ : List ℕ)
            (s : S (rule_instance ρ a)).
          (In-grid ids (rule_instance ρ a)).1 (stored_over r m a i ρ s) in
      let stage = first-IsStage rules S seed (grid ids) IsUniverse-of stored_in in
      fixpoint_loop-IsClosure rules S seed (grid ids) IsUniverse-of stored_in limit store size
        serves (λ r m. (proper r m).joinable)
        (λ r m.
          subst (λ z. length r.body * (size + z) < limit) (sym (length-grid ids)) (enough r m))
        fuel total total stage
        (omega (
          arith,
          rounds_enough,
          length-grid ids,
          rounds_le rules S seed (grid ids) IsUniverse-of stored_in total,
        ))

  -- Let the rules be proper, over ids below the largest 64-bit number that hold the seed and every
  -- row of the store that an atom of a rule can match, and let there be more fuel than facts over
  -- the ids. Then `closure_over_store` returns, in ascending order, exactly the seed and the facts
  -- that follow from it by the rules and the rows of the store: each premise of a step is a row of
  -- the store or such a fact, and some premise is such a fact.
  pub closure_over_store-Triggered :
      (store : AtomSource) (S : Row → Type 0) (size : ℕ)
      → Serves store S size
      → ((r : Rule)
          → In r rules
          → (a : RuleAtom) → In a r.body
          → (ρ : List ℕ) → S (rule_instance ρ a)
          → OverIds ids (rule_instance ρ a))
      → ((r : Rule)
          → In r rules
          → length r.body * (size + length ids * (length ids * length ids)) < limit)
      → AreSet (closure_over_store limit fuel (new rules) store seed) (Triggered rules S seed)
  unfolding closure_over_store
  closure_over_store-Triggered store S size serves stored_over enough =
      run_fixpoint-Triggered store S size serves stored_over enough

  -- Let the rules be proper, over ids below the largest 64-bit number that hold the base triples,
  -- and let there be more fuel than facts over the ids. Then `closure` returns, in ascending order,
  -- exactly the facts that follow from the base triples by the rules.
  pub closure-Derived :
      ((r : Rule) → In r rules → length r.body * (length ids * (length ids * length ids)) < limit)
      → AreSet (closure limit fuel (new rules) seed) (Derived rules seed)
  unfolding closure
  closure-Derived enough =
      let premises = λ (r : Rule) (m : In r rules). (proper r m).premise in
      AreSet-iff _ _ _
        (λ fact.
          (Triggered-Derived rules seed premises fact, Derived-Triggered rules seed premises fact))
        (run_fixpoint-Triggered null_source (λ r. ⊥) 0 null_source-Serves
          (λ r m a i ρ absent. absurd absent)
          (λ r m.
            let z : 0 + length ids * (length ids * length ids)
                ≡ length ids * (length ids * length ids) =
              omega arith in
            subst (λ k. length r.body * k < limit) (sym z) (enough r m)))
