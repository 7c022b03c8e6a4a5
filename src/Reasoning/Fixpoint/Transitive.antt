-- ===== src/Reasoning/Fixpoint/Transitive.antt =====
-- fixpoint.rs, `transitive_closure`, with the rule `Rule::transitive` of rule.rs: reachability.
use mathlib.Core.Path.{subst}
use oxigraph_nova.Prelude.{
  ℕ, zero, suc, ◌+◌, ◌*◌, ◌≤◌, ◌<◌, ◌≡◌, ◌⊎◌, inl, inr, refl, sym, ap, ◌∙◌, List, [], ◌∷◌, arith,
  length, get_or, true,
}
use oxigraph_nova.Reasoning.Row.{Row, row}
use oxigraph_nova.Reasoning.Keys.{In}
use oxigraph_nova.Reasoning.SortedVec.{u64_max}
use oxigraph_nova.Reasoning.Join.{AtomSource, const, var, is_active_for_var}
use oxigraph_nova.Reasoning.Join.Instance.{IsLinear, AllVarBelow, HasVarFrom}
use oxigraph_nova.Reasoning.Rule.{RuleAtom, Rule, transitive}
use oxigraph_nova.Reasoning.Fixpoint.{project_head, transitive_closure}
use oxigraph_nova.Reasoning.Fixpoint.Round.{with_source, rule_instance, IsJoinable}
use oxigraph_nova.Reasoning.Fixpoint.Rounds.{AreSet, AreSet-iff}
use oxigraph_nova.Reasoning.Fixpoint.Derived.{Derived, given, by_rule}
use oxigraph_nova.Reasoning.Fixpoint.Grid.{OverIds}
use oxigraph_nova.Reasoning.Fixpoint.Correct.{IsRule, closure-Derived}

-- A path of one edge or more.
pub data Chain (p : ℕ) (seed : List Row) : ℕ → ℕ → Type 0 where
  edge : {x y : ℕ} → In (row x p y) seed → Chain p seed x y
  link : {x y z : ℕ} → Chain p seed x y → In (row y p z) seed → Chain p seed x z

module _ (p : ℕ) where
  abbrev first_atom : RuleAtom
  first_atom = record { s = var 0; p = const p; o = var 1 }

  abbrev second_atom : RuleAtom
  second_atom = record { s = var 1; p = const p; o = var 2 }

  body_cases :
      (P : RuleAtom → Type 0)
      → P first_atom
      → P second_atom
      → (a : RuleAtom) → In a (transitive p).body
      → P a
  unfolding transitive
  body_cases P f g a m = elim m [
    | inl e ↦ subst P (sym e) f
    | inr (inl e) ↦ subst P (sym e) g
    | inr (inr absent) ↦ absurd absent
  ]

  covered :
      (v : ℕ)
      → v < (transitive p).num_vars
      → (a : RuleAtom) × In a (transitive p).body
        × ((x : AtomSource) → is_active_for_var v (with_source x a) ≡ true)
  unfolding transitive is_active_for_var
  covered zero h = (first_atom, inl refl, λ x. refl)
  covered (suc zero) h = (first_atom, inl refl, λ x. refl)
  covered (suc (suc zero)) h = (second_atom, inr (inl refl), λ x. refl)
  covered (suc (suc (suc v))) h = absurd (omega arith)

  three_vars : (transitive p).num_vars ≡ 3
  unfolding transitive
  three_vars = refl

  pub transitive-IsJoinable : IsJoinable (transitive p)
  transitive-IsJoinable = record {
    linear =
        body_cases (λ a. (x : AtomSource) → IsLinear (with_source x a))
          (λ x. (tt, (λ same. omega (arith, same)), tt))
          (λ x. (tt, (λ same. omega (arith, same)), tt));
    below =
        body_cases (λ a. (x : AtomSource) → AllVarBelow (transitive p).num_vars (with_source x a))
          (λ x. (omega (arith, three_vars), tt, omega (arith, three_vars)))
          (λ x. (omega (arith, three_vars), tt, omega (arith, three_vars)));
    varied =
        body_cases (λ a. (x : AtomSource) → HasVarFrom 0 (with_source x a)) (λ x. inl (omega arith))
          (λ x. inl (omega arith));
    covered = covered;
  }

  pub transitive-IsRule : (ids : List ℕ) → In p ids → IsRule ids (transitive p)
  unfolding transitive
  transitive-IsRule ids h = record {
    premise = omega arith;
    joinable = transitive-IsJoinable;
    subject = omega arith;
    predicate = h;
    object = omega arith;
  }

  two_atoms :
      (ids : List ℕ) (limit : ℕ)
      → 2 * (length ids * (length ids * length ids)) < limit
      → length (transitive p).body * (length ids * (length ids * length ids)) < limit
  unfolding transitive
  two_atoms ids limit h = h

  module _ (seed : List Row) where
    abbrev pub Reached : Row → Type 0
    Reached fact = In fact seed ⊎ ((fact.p ≡ p) × Chain p seed fact.s fact.o)

    Chain-trans : {x y z : ℕ} → Chain p seed x y → Chain p seed y z → Chain p seed x z
    Chain-trans c (edge m) = link c m
    Chain-trans c (link d m) = link (Chain-trans c d) m

    as-Chain : (x y : ℕ) → Reached (row x p y) → Chain p seed x y
    as-Chain x y (inl m) = edge m
    as-Chain x y (inr (e, c)) = c

    head-Reached :
        (r : Rule) (ρ : List ℕ) (fact : Row)
        → r ≡ transitive p
        → ((a : RuleAtom) → In a r.body → Reached (rule_instance ρ a))
        → fact ≡ project_head r.head ρ
        → Reached fact
    unfolding transitive project_head
    head-Reached r ρ fact same premises e =
        let all =
          subst (λ (z : Rule). (a : RuleAtom) → In a z.body → Reached (rule_instance ρ a)) same
            premises in
        let made : fact ≡ row (get_or ρ 0 0) p (get_or ρ 2 0) =
          e ∙ ap (λ (z : Rule). project_head z.head ρ) same in
        let first = as-Chain (get_or ρ 0 0) (get_or ρ 1 0) (all first_atom (inl refl)) in
        let second = as-Chain (get_or ρ 1 0) (get_or ρ 2 0) (all second_atom (inr (inl refl))) in
        subst Reached (sym made) (inr (refl, Chain-trans first second))

    Derived-Reached : (fact : Row) → Derived (transitive p ∷ []) seed fact → Reached fact
    Derived-Reached fact (given m) = inl m
    Derived-Reached fact (by_rule r ρ (inl same) len premises e) =
        head-Reached r ρ fact same (λ a i. Derived-Reached (rule_instance ρ a) (premises a i)) e
    Derived-Reached fact (by_rule r ρ (inr absent) len premises e) = absurd absent

    link_lem :
        (x y z : ℕ)
        → Derived (transitive p ∷ []) seed (row x p y)
        → Derived (transitive p ∷ []) seed (row y p z)
        → Derived (transitive p ∷ []) seed (row x p z)
    unfolding transitive project_head
    link_lem x y z d e =
        by_rule (transitive p) (x ∷ y ∷ z ∷ []) (inl refl) refl
          (body_cases (λ a. Derived (transitive p ∷ []) seed (rule_instance (x ∷ y ∷ z ∷ []) a)) d
            e)
          refl

    Chain-Derived : {x y : ℕ} → Chain p seed x y → Derived (transitive p ∷ []) seed (row x p y)
    Chain-Derived (edge m) = given m
    Chain-Derived (link {x} {y} {z} c m) = link_lem x y z (Chain-Derived c) (given m)

    row_of : (q : Row) → q.p ≡ p → row q.s p q.o ≡ q
    row_of q e = rw (sym e) refl

    Reached-Derived : (fact : Row) → Reached fact → Derived (transitive p ∷ []) seed fact
    Reached-Derived fact (inl m) = given m
    Reached-Derived fact (inr (e, c)) =
        subst (Derived (transitive p ∷ []) seed) (row_of fact e) (Chain-Derived c)

    -- With the rule of a transitive predicate over ids below the largest 64-bit number, and with
    -- more fuel than facts over the ids, `transitive_closure` returns, in ascending order, exactly
    -- the base triples and the pairs that a path of the predicate's triples joins.
    pub transitive_closure-Reached :
        (ids : List ℕ) (limit fuel : ℕ)
        → ((v : ℕ) → In v ids → v < u64_max)
        → ((fact : Row) → In fact seed → OverIds ids fact)
        → In p ids
        → length ids * (length ids * length ids) + 2 ≤ fuel
        → 2 * (length ids * (length ids * length ids)) < limit
        → AreSet (transitive_closure limit fuel (transitive p) seed) Reached
    unfolding transitive_closure
    transitive_closure-Reached ids limit fuel small over mp rounds_enough enough =
        AreSet-iff _ _ _ (λ fact. (Derived-Reached fact, Reached-Derived fact))
          (closure-Derived (transitive p ∷ []) seed ids limit fuel small over
            (λ r m. elim m [
              | inl e ↦ subst (IsRule ids) (sym e) (transitive-IsRule ids mp)
              | inr absent ↦ absurd absent
            ])
            rounds_enough
            (λ r m. elim m [
              | inl e ↦
                  subst (λ z. length z.body * (length ids * (length ids * length ids)) < limit)
                    (sym e) (two_atoms ids limit enough)
              | inr absent ↦ absurd absent
            ]))
