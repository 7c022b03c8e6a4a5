-- ===== src/Reasoning/Fixpoint/Rounds.antt =====
-- fixpoint.rs, the body of the loop of `run_fixpoint`: the new facts of one round.
use mathlib.Core.Path.{subst}
use mathlib.Core.Option.{some-injective, none-ne-some}
use oxigraph_nova.Prelude.{
  true-ne-false, ℕ, zero, suc, ◌≡◌, ◌↔◌, ◌⊎◌, inl, inr, refl, sym, ap, ◌∙◌, none, some, List, [],
  ◌∷◌, get_elem?, Bool-cases,
}
use oxigraph_nova.Reasoning.Row.{Row, set_insert, set_contains}
use oxigraph_nova.Reasoning.Row.Sets.{IsRowSet, In-set_insert, set_insert-IsRowSet, In-set_contains}
use oxigraph_nova.Reasoning.Keys.{In}
use oxigraph_nova.Reasoning.Join.{AtomSource, AtomField, const, var, slice_source, combined_source}
use oxigraph_nova.Reasoning.Join.Instance.{value}
use oxigraph_nova.Reasoning.Rule.{Rule, new, active_rules}
use oxigraph_nova.Reasoning.Rule.Active.{Matches, active_rules-Matches}
use oxigraph_nova.Reasoning.Fixpoint.{Rows, eval_rule_round, add_new, run_active, round_facts}
use oxigraph_nova.Reasoning.Fixpoint.Round.{rule_instance}
use oxigraph_nova.Reasoning.Fixpoint.Derives.{AreRows}
use oxigraph_nova.Reasoning.Fixpoint.Fired.{Fired}

In-add_new :
    (total facts derived : List Row) (x : Row)
    → In x (add_new total facts derived) ↔ (In x facts ⊎ ((In x total → ⊥) × In x derived))
unfolding add_new
In-add_new total facts [] x = (λ h. inl h, λ h. elim h [ inl a ↦ a | inr b ↦ absurd b.1 ])
In-add_new total facts (d ∷ derived) x = elim (Bool-cases (set_contains d total)) [
  | inl old ↦
      let rest = In-add_new total facts derived x in
      let known = (In-set_contains d total).0 old in
      rw old (
        λ h. elim (rest.0 h) [ inl a ↦ inl a | inr (n, m) ↦ inr (n, inr m) ],
        λ h. elim h [
          | inl a ↦ rest.1 (inl a)
          | inr (n, inl e) ↦ absurd (n (subst (λ z. In z total) (sym e) known))
          | inr (n, inr m) ↦ rest.1 (inr (n, m))
        ],
      )
  | inr fresh ↦
      let rest = In-add_new total (set_insert d facts) derived x in
      let here = In-set_insert x d facts in
      let unknown : In d total → ⊥ =
        λ m. true-ne-false (sym ((In-set_contains d total).1 m) ∙ fresh) in
      rw fresh (
        λ h. elim (rest.0 h) [
          | inl a ↦ elim (here.0 a) [
            | inl e ↦ inr ((λ m. unknown (subst (λ z. In z total) e m)), inl e)
            | inr m ↦ inl m
          ]
          | inr (n, m) ↦ inr (n, inr m)
        ],
        λ h. elim h [
          | inl a ↦ rest.1 (inl (here.1 (inr a)))
          | inr (n, inl e) ↦ rest.1 (inl (here.1 (inl e)))
          | inr (n, inr m) ↦ rest.1 (inr (n, m))
        ],
      )
]

add_new-IsRowSet :
    (total facts derived : List Row) → IsRowSet facts → IsRowSet (add_new total facts derived)
unfolding add_new
add_new-IsRowSet total facts [] h = h
add_new-IsRowSet total facts (d ∷ derived) h = elim (Bool-cases (set_contains d total)) [
  | inl old ↦ rw old (add_new-IsRowSet total facts derived h)
  | inr fresh ↦
      rw fresh (add_new-IsRowSet total (set_insert d facts) derived (set_insert-IsRowSet d facts h))
]

-- The rows are a set, and exactly those of the predicate.
abbrev pub AreSet : Rows → (Row → Type 0) → Type 0
AreSet none P = ⊥
AreSet (some rs) P = IsRowSet rs × ((fact : Row) → In fact rs ↔ P fact)

pub AreSet-iff :
    (rs : Rows) (P Q : Row → Type 0) → ((fact : Row) → P fact ↔ Q fact) → AreSet rs P → AreSet rs Q
AreSet-iff none P Q e h = h
AreSet-iff (some rs) P Q e (set, h) =
    (set, λ x. (λ m. (e x).0 ((h x).0 m), λ q. (h x).1 ((e x).1 q)))

module _ (S : Row → Type 0) (limit : ℕ) (rules : List Rule) (total delta : List Row)
    (total_src delta_src : AtomSource)
    (evals : (idx : ℕ) (r : Rule)
      → get_elem? rules idx ≡ some r
      → AreRows (eval_rule_round limit r total_src delta_src) (Fired S total delta r)) where
  -- Some rule of the places fires, with a fact that is not yet known.
  abbrev FiresAmong : List ℕ → Row → Type 0
  FiresAmong active fact =
      (In fact total → ⊥)
      × ((idx : ℕ) × In idx active
          × ((r : Rule) × (get_elem? rules idx ≡ some r) × Fired S total delta r fact))

  -- What one rule adds before the others run.
  rule-AreSet :
      (idx : ℕ) (active : List ℕ) (facts : List Row) (r : Rule) (derived : Rows)
      → get_elem? rules idx ≡ some r
      → IsRowSet facts
      → ((facts' : List Row)
          → IsRowSet facts'
          → AreSet
              (run_active limit rules total total_src delta_src active facts')
              (λ fact. In fact facts' ⊎ FiresAmong active fact))
      → AreRows derived (Fired S total delta r)
      → AreSet
          (elim derived [
            | none ↦ none
            | some ds ↦
                run_active limit rules total total_src delta_src active (add_new total facts ds)
          ])
          (λ fact. In fact facts ⊎ FiresAmong (idx ∷ active) fact)
  rule-AreSet idx active facts r none at_idx set ih h = h
  rule-AreSet idx active facts r (some ds) at_idx set ih h =
      AreSet-iff _ _ _
        (λ fact.
          let step = In-add_new total facts ds fact in
          (
            λ m. elim m [
              | inl a ↦ elim (step.0 a) [
                | inl b ↦ inl b
                | inr (n, d) ↦ inr (n, (idx, inl refl, (r, at_idx, (h fact).0 d)))
              ]
              | inr (n, (j, i, w)) ↦ inr (n, (j, inr i, w))
            ],
            λ m. elim m [
              | inl b ↦ inl (step.1 (inl b))
              | inr (n, (j, inl e, (q, at_j, f))) ↦
                  let same = some-injective q r (sym at_j ∙ ap (get_elem? rules) e ∙ at_idx) in
                  inl
                    (step.1 (inr (n, (h fact).1 (subst (λ z. Fired S total delta z fact) same f))))
              | inr (n, (j, inr i, w)) ↦ inr (n, (j, i, w))
            ],
          ))
        (ih (add_new total facts ds) (add_new-IsRowSet total facts ds set))

  run_active-cons :
      (idx : ℕ) (active : List ℕ) (facts : List Row) (r : Rule)
      → get_elem? rules idx ≡ some r
      → run_active limit rules total total_src delta_src (idx ∷ active) facts
        ≡ elim (eval_rule_round limit r total_src delta_src) [
          | none ↦ none
          | some ds ↦
              run_active limit rules total total_src delta_src active (add_new total facts ds)
        ]
  unfolding run_active
  run_active-cons idx active facts r e = rw (run_active, e) refl

  run_active-AreSet :
      (active : List ℕ) (facts : List Row)
      → ((idx : ℕ) → In idx active → (r : Rule) × (get_elem? rules idx ≡ some r))
      → IsRowSet facts
      → AreSet
          (run_active limit rules total total_src delta_src active facts)
          (λ fact. In fact facts ⊎ FiresAmong active fact)
  unfolding run_active
  run_active-AreSet [] facts places set =
      (set, λ fact. (λ m. inl m, λ m. elim m [ inl a ↦ a | inr (n, (j, i, w)) ↦ absurd i ]))
  run_active-AreSet (idx ∷ active) facts places set =
      let (r, at_idx) = places idx (inl refl) in
      subst (λ z. AreSet z (λ fact. In fact facts ⊎ FiresAmong (idx ∷ active) fact))
        (sym (run_active-cons idx active facts r at_idx))
        (rule-AreSet idx active facts r (eval_rule_round limit r total_src delta_src) at_idx set
          (λ facts' set'. run_active-AreSet active facts' (λ j m. places j (inr m)) set')
          (evals idx r at_idx))

pub In-get_elem? :
    {A : Type 0} → (xs : List A) (x : A) → In x xs → (i : ℕ) × (get_elem? xs i ≡ some x)
In-get_elem? [] x h = absurd h
In-get_elem? (y ∷ ys) x (inl e) = (0, ap some (sym e))
In-get_elem? (y ∷ ys) x (inr m) = let (i, e) = In-get_elem? ys x m in (suc i, e)

pub get_elem?-In : {A : Type 0} → (xs : List A) (i : ℕ) (x : A) → get_elem? xs i ≡ some x → In x xs
get_elem?-In [] i x h = absurd (none-ne-some x h)
get_elem?-In (y ∷ ys) zero x h = inl (sym (some-injective y x h))
get_elem?-In (y ∷ ys) (suc i) x h = inr (get_elem?-In ys i x h)

predicate-case : (f : AtomField) (ρ : List ℕ) → ((v : ℕ) × (f ≡ var v)) ⊎ (f ≡ const (value ρ f))
predicate-case (const c) ρ = inr refl
predicate-case (var v) ρ = inl (v, refl)

-- A rule that fires is active.
pub Fired-Matches :
    (S : Row → Type 0) (total delta : List Row) (r : Rule) (fact : Row)
    → Fired S total delta r fact
    → Matches r delta
Fired-Matches S total delta r fact (ρ, len, all, (a, m, d), e) =
    (a, m, elim (predicate-case a.p ρ) [ inl v ↦ inl v | inr c ↦ inr (rule_instance ρ a, d, c) ])

-- A round runs the active rules, and finds the unknown facts that any rule fires.
pub round_facts-Fired :
    (S : Row → Type 0) (limit : ℕ) (rules : List Rule) (store : AtomSource) (total delta : List Row)
    → ((r : Rule)
        → In r rules
        → AreRows
            (eval_rule_round limit r
              (combined_source store (slice_source total))
              (slice_source delta))
            (Fired S total delta r))
    → AreSet
        (round_facts limit (new rules) store total delta (active_rules (new rules) delta))
        (λ fact. (In fact total → ⊥) × ((r : Rule) × In r rules × Fired S total delta r fact))
unfolding round_facts new
round_facts-Fired S limit rules store total delta evals =
    let active = active_rules (new rules) delta in
    let listed = (active_rules-Matches rules delta).1 in
    AreSet-iff _ _ _
      (λ fact. (
        λ m. elim m [
          | inl none_yet ↦ absurd none_yet
          | inr (n, (idx, i, (r, at_idx, f))) ↦ (n, (r, get_elem?-In rules idx r at_idx, f))
        ],
        λ (n, (r, m, f)).
            let (idx, at_idx) = In-get_elem? rules r m in
            inr (
              n,
              (
                idx,
                (listed idx).1 (r, at_idx, Fired-Matches S total delta r fact f),
                (r, at_idx, f),
              ),
            ),
      ))
      (run_active-AreSet S limit rules total delta (combined_source store (slice_source total))
        (slice_source delta) (λ idx r e. evals r (get_elem?-In rules idx r e)) active []
        (λ idx m. let (r, e, w) = (listed idx).0 m in (r, e)) tt)
