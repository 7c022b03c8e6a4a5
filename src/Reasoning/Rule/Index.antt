-- ===== src/Reasoning/Rule/Index.antt =====
-- rule.rs, `RuleSet::new`: what the index of rules by predicate has.
use mathlib.Core.Path.{subst}
use oxigraph_nova.Prelude.{
  false-ne-true, ℕ, suc, ◌≡◌, ◌↔◌, ◌⊎◌, inl, inr, refl, sym, ap, ◌∙◌, List, [], ◌∷◌, ◌++◌, true,
  false, arith, Bool-cases,
}
use oxigraph_nova.Reasoning.Row.{Row}
use oxigraph_nova.Reasoning.Keys.{In}
use oxigraph_nova.Reasoning.Rule.{
  Rule, RuleSet, Index, push_at, has, index_rule, index_rules, wildcards, index_insert,
  index_extend, activate, body_predicates, has_variable_predicate,
}
use oxigraph_nova.Reasoning.Rule.Predicates.{}

-- The rule stands at the place, counted from `k`.
abbrev pub At : ℕ → List Rule → ℕ → Rule → Type 0
At k [] x r = ⊥
At k (q ∷ qs) x r = ((x ≡ k) × (r ≡ q)) ⊎ At (suc k) qs x r

In-index_insert : (x v : ℕ) (ws : List ℕ) → In x (index_insert v ws) ↔ ((x ≡ v) ⊎ In x ws)
unfolding index_insert
In-index_insert x v [] = (λ h. h, λ h. h)
In-index_insert x v (w ∷ ws) = ground (arith, In-index_insert x v ws)

pub In-index_extend : (x : ℕ) (set vs : List ℕ) → In x (index_extend set vs) ↔ (In x set ⊎ In x vs)
unfolding index_extend
In-index_extend x set [] = ground arith
In-index_extend x set (v ∷ vs) =
    ground (arith, In-index_extend x (index_insert v set) vs, In-index_insert x v set)

-- An index is activated by some row of the delta.
abbrev pub Activated : RuleSet → List Row → ℕ → Type 0
Activated rs delta x = (row : Row) × In row delta × In x (rs.by_predicate row.p)

pub In-activate :
    (rs : RuleSet) (delta : List Row) (active : List ℕ) (x : ℕ)
    → In x (activate rs delta active) ↔ (In x active ⊎ Activated rs delta x)
unfolding activate
In-activate rs [] active x = (λ h. inl h, λ h. elim h [ inl a ↦ a | inr (r, m, i) ↦ absurd m ])
In-activate rs (q ∷ delta) active x =
    let rest = In-activate rs delta (index_extend active (rs.by_predicate q.p)) x in
    let here = In-index_extend x active (rs.by_predicate q.p) in
    (
      λ h. elim (rest.0 h) [
        | inl a ↦ elim (here.0 a) [ inl b ↦ inl b | inr b ↦ inr (q, inl refl, b) ]
        | inr (r, m, i) ↦ inr (r, inr m, i)
      ],
      λ h. elim h [
        | inl a ↦ rest.1 (inl (here.1 (inl a)))
        | inr (r, inl e, i) ↦
            rest.1 (inl (here.1 (inr (subst (λ z. In x (rs.by_predicate z.p)) e i))))
        | inr (r, inr m, i) ↦ rest.1 (inr (r, m, i))
      ],
    )

In-snoc : (x : ℕ) (xs : List ℕ) (y : ℕ) → In x (xs ++ y ∷ []) ↔ (In x xs ⊎ (x ≡ y))
In-snoc x [] y = ground arith
In-snoc x (z ∷ xs) y = ground (arith, In-snoc x xs y)

has-nil : (j : ℕ) → has j [] ≡ false
unfolding has
has-nil j = refl

In-push_at :
    (m : Index) (k idx j x : ℕ) → In x (push_at m k idx j) ↔ (In x (m j) ⊎ ((x ≡ idx) × (j ≡ k)))
In-push_at m k idx j x = ground (arith, In-snoc x (m j) idx)

In-index_rule :
    (idx : ℕ) (seen preds : List ℕ) (m : Index) (j x : ℕ)
    → In x (index_rule idx seen preds m j)
      ↔ (In x (m j) ⊎ ((x ≡ idx) × In j preds × (has j seen ≡ false)))
unfolding index_rule has
In-index_rule idx seen [] m j x = ground arith
In-index_rule idx seen (k ∷ preds) m j x =
    let push = In-push_at m k idx j x in
    elim (Bool-cases (has k seen)) [
      | inl old ↦
          let rest = In-index_rule idx (k ∷ seen) preds m j x in
          let same : (j ≡ k) → has j seen ≡ true = λ e. ap (λ z. has z seen) e ∙ old in
          rw old (ground (arith, rest, same))
      | inr fresh ↦
          let rest = In-index_rule idx (k ∷ seen) preds (push_at m k idx) j x in
          let same : (j ≡ k) → has j seen ≡ false = λ e. ap (λ z. has z seen) e ∙ fresh in
          rw fresh (ground (arith, rest, same, push))
    ]

-- Some rule with the predicate stands at the place.
abbrev pub Indexed : ℕ → List Rule → ℕ → ℕ → Type 0
Indexed k rules j x = (r : Rule) × At k rules x r × In j (body_predicates r.body)

pub In-index_rules :
    (k : ℕ) (rules : List Rule) (m : Index) (j x : ℕ)
    → In x (index_rules k rules m j) ↔ (In x (m j) ⊎ Indexed k rules j x)
unfolding index_rules
In-index_rules k [] m j x = (λ h. inl h, λ h. elim h [ inl a ↦ a | inr (r, i, b) ↦ absurd i ])
In-index_rules k (q ∷ rules) m j x =
    let rest = In-index_rules (suc k) rules (index_rule k [] (body_predicates q.body) m) j x in
    let here = In-index_rule k [] (body_predicates q.body) m j x in
    (
      λ h. elim (rest.0 h) [
        | inl a ↦ elim (here.0 a) [ inl b ↦ inl b | inr (e, i, f) ↦ inr (q, inl (e, refl), i) ]
        | inr (r, i, b) ↦ inr (r, inr i, b)
      ],
      λ h. elim h [
        | inl a ↦ rest.1 (inl (here.1 (inl a)))
        | inr (r, inl (e, g), b) ↦
            rest.1
              (inl (here.1 (inr (e, subst (λ z. In j (body_predicates z.body)) g b, has-nil j))))
        | inr (r, inr i, b) ↦ rest.1 (inr (r, i, b))
      ],
    )

pub In-wildcards :
    (k : ℕ) (rules : List Rule) (x : ℕ)
    → In x (wildcards k rules)
      ↔ ((r : Rule) × At k rules x r × (has_variable_predicate r.body ≡ true))
unfolding wildcards
In-wildcards k [] x = (λ h. absurd h, λ (r, i, b). absurd i)
In-wildcards k (q ∷ rules) x =
    let rest = In-wildcards (suc k) rules x in
    elim (Bool-cases (has_variable_predicate q.body)) [
      | inl open_pred ↦ rw open_pred (
        λ h. elim h [
          | inl e ↦ (q, inl (e, refl), open_pred)
          | inr m ↦ let (r, i, b) = rest.0 m in (r, inr i, b)
        ],
        λ (r, i, b). elim i [ inl (e, g) ↦ inl e | inr i' ↦ inr (rest.1 (r, i', b)) ],
      )
      | inr closed ↦ rw closed (
        λ m. let (r, i, b) = rest.0 m in (r, inr i, b),
        λ (r, i, b). elim i [
          | inl (e, g) ↦
              absurd (false-ne-true (sym (ap (λ z. has_variable_predicate z.body) g ∙ closed) ∙ b))
          | inr i' ↦ rest.1 (r, i', b)
        ],
      )
    ]
