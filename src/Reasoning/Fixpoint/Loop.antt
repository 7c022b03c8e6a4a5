-- ===== src/Reasoning/Fixpoint/Loop.antt =====
-- fixpoint.rs, the loop of `run_fixpoint`: its invariant, and that it ends.
use mathlib.Core.Path.{subst}
use oxigraph_nova.Prelude.{
  ℕ, zero, suc, ◌+◌, ◌*◌, ◌≤◌, ◌<◌, ◌≡◌, ◌⊎◌, ◌↔◌, inl, inr, refl, sym, none, some, List, [], ◌∷◌,
  arith, length,
}
use oxigraph_nova.Reasoning.Row.{Row, set_extend}
use oxigraph_nova.Reasoning.Row.Sets.{
  IsRowSet, set_extend-IsRowSet, In-set_extend, In_or_not, length-IsRowSet, length-set_extend_new,
  length-set_extend,
}
use oxigraph_nova.Reasoning.Keys.{In}
use oxigraph_nova.Reasoning.Trie.Scan.{IsRow, IsRows}
use oxigraph_nova.Reasoning.Join.{AtomSource, slice_source, combined_source}
use oxigraph_nova.Reasoning.Join.Source.{Serves}
use oxigraph_nova.Reasoning.Rule.{RuleAtom, Rule, new, active_rules}
use oxigraph_nova.Reasoning.Rule.Active.{active_rules-Matches}
use oxigraph_nova.Reasoning.Fixpoint.{
  Rows, project_head, eval_rule_round, round_facts, fixpoint_loop,
}
use oxigraph_nova.Reasoning.Fixpoint.Round.{rule_instance, IsJoinable}
use oxigraph_nova.Reasoning.Fixpoint.Derives.{AreRows}
use oxigraph_nova.Reasoning.Fixpoint.Fired.{Fired, AllKnown, SomeIn, eval_rule_round-Fired}
use oxigraph_nova.Reasoning.Fixpoint.Rounds.{AreSet, round_facts-Fired, Fired-Matches, In-get_elem?}
use oxigraph_nova.Reasoning.Fixpoint.Derived.{
  Triggered, seed_fact, rule_fact, Premise, stored, triggered, IsUniverse,
}

IsRows-In : (rows : List Row) (r : Row) → IsRows rows → In r rows → IsRow r
IsRows-In [] r h m = absurd m
IsRows-In (q ∷ qs) r h (inl e) = subst IsRow (sym e) h.0
IsRows-In (q ∷ qs) r h (inr m) = IsRows-In qs r h.1 m

pub In-IsRows : (rows : List Row) → ((r : Row) → In r rows → IsRow r) → IsRows rows
In-IsRows [] h = tt
In-IsRows (q ∷ qs) h = (h q (inl refl), In-IsRows qs (λ r m. h r (inr m)))

IsRows-sub : (rows qs : List Row) → IsRows rows → ((r : Row) → In r qs → In r rows) → IsRows qs
IsRows-sub rows qs h sub = In-IsRows qs (λ r m. IsRows-In rows r h (sub r m))

-- A body over an extended set is over the set, or meets what was added.
AllKnown-split :
    (S : Row → Type 0) (total facts : List Row) (body : List RuleAtom) (ρ : List ℕ)
    → AllKnown S (set_extend total facts) body ρ
    → AllKnown S total body ρ ⊎ SomeIn facts body ρ
AllKnown-split S total facts [] ρ all = inl (λ a m. absurd m)
AllKnown-split S total facts (b ∷ body) ρ all =
    let rest = AllKnown-split S total facts body ρ (λ a m. all a (inr m)) in
    let here : (S (rule_instance ρ b) ⊎ In (rule_instance ρ b) total)
        ⊎ In (rule_instance ρ b) facts =
      elim (all b (inl refl)) [
        | inl s ↦ inl (inl s)
        | inr m ↦ elim ((In-set_extend (rule_instance ρ b) total facts).0 m) [
          | inr added ↦ inr added
          | inl old ↦ inl (inr old)
        ]
      ] in
    elim here [
      | inr added ↦ inr (b, inl refl, added)
      | inl old ↦ elim rest [
        | inr (a, m, added) ↦ inr (a, inr m, added)
        | inl known ↦ inl (λ a m. elim m [
          | inl e ↦ subst (λ z. S (rule_instance ρ z) ⊎ In (rule_instance ρ z) total) (sym e) old
          | inr m' ↦ known a m'
        ])
      ]
    ]

SomeIn-split :
    (total facts : List Row) (body : List RuleAtom) (ρ : List ℕ)
    → SomeIn (set_extend total facts) body ρ
    → SomeIn total body ρ ⊎ SomeIn facts body ρ
SomeIn-split total facts body ρ (a, m, i) =
    elim ((In-set_extend (rule_instance ρ a) total facts).0 i) [
      | inl old ↦ inl (a, m, old)
      | inr added ↦ inr (a, m, added)
    ]

module _ (rules : List Rule) (S : Row → Type 0) (seed rows : List Row)
    (universe : IsUniverse rules seed rows)
    (stored_in : (r : Rule)
      → In r rules
      → (a : RuleAtom) → In a r.body
      → (ρ : List ℕ) → S (rule_instance ρ a)
      → In (rule_instance ρ a) rows) where
  -- What holds whenever the loop is entered.
  pub record IsStage (total delta : List Row) : Type 0 where
    pub set : IsRowSet total
    pub delta_set : IsRowSet delta
    pub sub : (fact : Row) → In fact delta → In fact total
    pub seeds : (fact : Row) → In fact seed → In fact total
    pub sound : (fact : Row) → In fact total → Triggered rules S seed fact
    pub within : (fact : Row) → In fact total → In fact rows
    pub settled :
        (r : Rule) (ρ : List ℕ)
        → In r rules
        → length ρ ≡ r.num_vars
        → AllKnown S total r.body ρ
        → SomeIn total r.body ρ
        → In (project_head r.head ρ) total ⊎ SomeIn delta r.body ρ

  -- The loop's result.
  abbrev pub IsClosure : Rows → Type 0
  IsClosure rs = AreSet rs (Triggered rules S seed)

  -- What fires is known.
  abbrev Quiet : List Row → List Row → Type 0
  Quiet total delta =
      (r : Rule) (ρ : List ℕ)
      → In r rules
      → SomeIn delta r.body ρ
      → AllKnown S total r.body ρ
      → length ρ ≡ r.num_vars
      → In (project_head r.head ρ) total

  -- Where no body meets the delta, everything derivable is there.
  mutual
    complete :
        (total delta : List Row) (fact : Row)
        → IsStage total delta
        → Quiet total delta
        → Triggered rules S seed fact
        → In fact total
    complete total delta fact stage none_new (seed_fact m) = stage.seeds fact m
    complete total delta fact stage none_new (rule_fact r ρ m len premises a i some_new e) =
        let known = λ (b : RuleAtom) (j : In b r.body).
          complete_premise total delta (rule_instance ρ b) stage none_new (premises b j) in
        let met = complete total delta (rule_instance ρ a) stage none_new some_new in
        subst (λ z. In z total) (sym e)
          (elim (stage.settled r ρ m len known (a, i, met)) [
            | inl h ↦ h
            | inr new_one ↦ none_new r ρ m new_one known len
          ])

    complete_premise :
        (total delta : List Row) (fact : Row)
        → IsStage total delta
        → Quiet total delta
        → Premise rules S seed fact
        → S fact ⊎ In fact total
    complete_premise total delta fact stage none_new (stored s) = inl s
    complete_premise total delta fact stage none_new (triggered d) =
        inr (complete total delta fact stage none_new d)

  stage-IsClosure :
      (total delta : List Row) → IsStage total delta → Quiet total delta → IsClosure (some total)
  stage-IsClosure total delta stage none_new =
      (stage.set, λ fact. (stage.sound fact, λ d. complete total delta fact stage none_new d))

  -- What a body over the total derives is there after the round.
  settled_next :
      (total delta facts : List Row)
      → IsStage total delta
      → ((fact : Row)
          → In fact facts
            ↔ ((In fact total → ⊥) × ((r : Rule) × In r rules × Fired S total delta r fact)))
      → (r : Rule) (ρ : List ℕ) → In r rules
      → length ρ ≡ r.num_vars
      → AllKnown S total r.body ρ
      → In (project_head r.head ρ) total ⊎ SomeIn delta r.body ρ
      → In (project_head r.head ρ) (set_extend total facts)
  settled_next total delta facts stage found r ρ i len old settled =
      let head = project_head r.head ρ in
      let extended = In-set_extend head total facts in
      elim settled [
        | inl h ↦ extended.1 (inl h)
        | inr met ↦ elim (In_or_not head total) [
          | inl h ↦ extended.1 (inl h)
          | inr n ↦ extended.1 (inr ((found head).1 (n, (r, i, (ρ, len, old, met, refl)))))
        ]
      ]

  -- A round keeps the invariant.
  next-IsStage :
      (total delta facts : List Row)
      → IsStage total delta
      → AreSet
          (some facts)
          (λ fact. (In fact total → ⊥) × ((r : Rule) × In r rules × Fired S total delta r fact))
      → IsStage (set_extend total facts) facts
  next-IsStage total delta facts stage (facts_set, found) = record {
    set = set_extend-IsRowSet total facts stage.set;
    delta_set = facts_set;
    sub = λ fact m. (In-set_extend fact total facts).1 (inr m);
    seeds = λ fact m. (In-set_extend fact total facts).1 (inl (stage.seeds fact m));
    sound = λ fact m. elim ((In-set_extend fact total facts).0 m) [
      | inl old ↦ stage.sound fact old
      | inr added ↦
          let (n, (r, i, (ρ, len, all, met, e))) = (found fact).0 added in
          let (b, k, d) = met in
          rule_fact r ρ i len
            (λ a j. elim (all a j) [
              | inl s ↦ stored s
              | inr m' ↦ triggered (stage.sound (rule_instance ρ a) m')
            ])
            b k (stage.sound (rule_instance ρ b) (stage.sub (rule_instance ρ b) d)) e
    ];
    within = λ fact m. elim ((In-set_extend fact total facts).0 m) [
      | inl old ↦ stage.within fact old
      | inr added ↦
          let (n, (r, i, (ρ, len, all, met, e))) = (found fact).0 added in
          subst (λ z. In z rows) (sym e)
            (universe.closed r ρ i len (λ a j. elim (all a j) [
              | inl s ↦ stored_in r i a j ρ s
              | inr m' ↦ stage.within (rule_instance ρ a) m'
            ]))
    ];
    settled = λ r ρ i len all some_known. elim (AllKnown-split S total facts r.body ρ all) [
      | inr met ↦ inr met
      | inl old ↦ elim (SomeIn-split total facts r.body ρ some_known) [
        | inr met ↦ inr met
        | inl known ↦ inl (
            settled_next total delta facts stage found r ρ i len old
              (stage.settled r ρ i len old known))
      ]
    ];
  }

  -- The rounds that a stage still needs at least.
  abbrev pub rounds : List Row → ℕ
  rounds [] = 1
  rounds (_ ∷ _) = 2

  module _ (limit : ℕ) (store : AtomSource) (size : ℕ) (serves : Serves store S size)
      (joinable : (r : Rule) → In r rules → IsJoinable r)
      (enough : (r : Rule) → In r rules → length r.body * (size + length rows) < limit) where
    evals :
        (total delta : List Row)
        → IsStage total delta
        → (r : Rule) → In r rules
        → AreRows
            (eval_rule_round limit r
              (combined_source store (slice_source total))
              (slice_source delta))
            (Fired S total delta r)
    evals total delta stage r m =
        let in_rows = λ (q : Row) (i : In q delta). stage.within q (stage.sub q i) in
        let few = length-IsRowSet total rows stage.set stage.within in
        let fewer = length-IsRowSet delta rows stage.delta_set in_rows in
        eval_rule_round-Fired limit r store S size (size + length rows) total delta serves
          (IsRows-sub rows total universe.bounded stage.within)
          (IsRows-sub rows delta universe.bounded in_rows) (omega (arith, few))
          (omega (arith, fewer)) (enough r m) (joinable r m) stage.sub

    -- No rule is active: no rule fires.
    quiet-IsClosure :
        (total delta : List Row)
        → IsStage total delta
        → active_rules (new rules) delta ≡ []
        → IsClosure (some total)
    quiet-IsClosure total delta stage e = stage-IsClosure total delta stage (λ r ρ m met all len.
        let (idx, at_idx) = In-get_elem? rules r m in
        let fires =
          Fired-Matches S total delta r (project_head r.head ρ) (ρ, len, all, met, refl) in
        let active = ((active_rules-Matches rules delta).1 idx).1 (r, at_idx, fires) in
        absurd (subst (λ z. In idx z) e active))

    spent : (delta : List Row) (u t : ℕ) → t ≤ u → u + rounds delta ≤ 0 + t → ⊥
    spent [] u t le h = omega arith
    spent (_ ∷ _) u t le h = omega arith

    -- The rest of the loop behind a round that found `facts`.
    abbrev Later : ℕ → Type 0
    Later fuel =
        (total delta : List Row)
        → IsStage total delta
        → length rows + rounds delta ≤ fuel + length total
        → IsClosure (fixpoint_loop limit fuel (new rules) store total delta)

    grown :
        (fuel : ℕ) (total : List Row) (facts : List Row)
        → ((fact : Row) → In fact facts → In fact total → ⊥)
        → length rows + 2 ≤ suc fuel + length total
        → length total ≤ length rows
        → length rows + rounds facts ≤ fuel + length (set_extend total facts)
    grown fuel total [] fresh h few = omega (arith, length-set_extend total [])
    grown fuel total (f ∷ facts) fresh h few =
        omega (arith, length-set_extend_new total f facts (fresh f (inl refl)))

    round-IsClosure :
        (fuel : ℕ) (total : List Row) (delta : List Row) (found : Rows)
        → Later fuel
        → IsStage total delta
        → length rows + 2 ≤ suc fuel + length total
        → AreSet found
            (λ fact. (In fact total → ⊥) × ((r : Rule) × In r rules × Fired S total delta r fact))
        → IsClosure (elim found [
          | none ↦ none
          | some facts ↦ fixpoint_loop limit fuel (new rules) store (set_extend total facts) facts
        ])
    round-IsClosure fuel total delta none later stage h ok = ok
    round-IsClosure fuel total delta (some facts) later stage h ok =
        later (set_extend total facts) facts (next-IsStage total delta facts stage ok) (
          grown fuel total facts (λ f m. ((ok.1 f).0 m).0) h
            (length-IsRowSet total rows stage.set stage.within))

    loop-cases :
        (fuel : ℕ) (total : List Row) (d : Row) (delta : List Row) (active : List ℕ)
        → Later fuel
        → IsStage total (d ∷ delta)
        → length rows + 2 ≤ suc fuel + length total
        → active ≡ active_rules (new rules) (d ∷ delta)
        → IsClosure (elim active [
          | [] ↦ some total
          | a ∷ rest ↦ elim (round_facts limit (new rules) store total (d ∷ delta) (a ∷ rest)) [
            | none ↦ none
            | some new_facts ↦
                fixpoint_loop limit fuel (new rules) store (set_extend total new_facts) new_facts
          ]
        ])
    loop-cases fuel total d delta [] later stage h e =
        quiet-IsClosure total (d ∷ delta) stage (sym e)
    loop-cases fuel total d delta (a ∷ rest) later stage h e =
        round-IsClosure fuel total (d ∷ delta)
          (round_facts limit (new rules) store total (d ∷ delta) (a ∷ rest)) later stage h
          (subst
            (λ z. AreSet (round_facts limit (new rules) store total (d ∷ delta) z) (λ fact.
              (In fact total → ⊥) × ((r : Rule) × In r rules × Fired S total (d ∷ delta) r fact)))
            (sym e)
            (round_facts-Fired S limit rules store total (d ∷ delta)
              (evals total (d ∷ delta) stage)))

    pub fixpoint_loop-IsClosure :
        (fuel : ℕ) (total delta : List Row)
        → IsStage total delta
        → length rows + rounds delta ≤ fuel + length total
        → IsClosure (fixpoint_loop limit fuel (new rules) store total delta)
    unfolding fixpoint_loop
    fixpoint_loop-IsClosure zero total delta stage h =
        let few = length-IsRowSet total rows stage.set stage.within in
        absurd (spent delta (length rows) (length total) few h)
    fixpoint_loop-IsClosure (suc fuel) total [] stage h =
        stage-IsClosure total [] stage (λ r ρ m (a, i, absent) all len. absurd absent)
    fixpoint_loop-IsClosure (suc fuel) total (d ∷ delta) stage h =
        loop-cases fuel total d delta (active_rules (new rules) (d ∷ delta))
          (λ t e s k. fixpoint_loop-IsClosure fuel t e s k) stage h refl
