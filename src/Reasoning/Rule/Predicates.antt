-- ===== src/Reasoning/Rule/Predicates.antt =====
-- rule.rs: the predicates of a rule's body.
use oxigraph_nova.Prelude.{
  false-ne-true, ℕ, suc, ◌≡◌, ◌↔◌, ◌⊎◌, inl, inr, refl, sym, ap, ◌∙◌, List, [], ◌∷◌, true, false,
  arith,
}
use oxigraph_nova.Reasoning.Keys.{In}
use oxigraph_nova.Reasoning.Join.{AtomField, const, var}
use oxigraph_nova.Reasoning.Rule.{RuleAtom, body_predicates, has_variable_predicate}

field-cases : (f : AtomField) → ((c : ℕ) × (f ≡ const c)) ⊎ ((v : ℕ) × (f ≡ var v))
field-cases (const c) = inl (c, refl)
field-cases (var v) = inr (v, refl)

constant_of : AtomField → ℕ
constant_of (const c) = suc c
constant_of (var v) = 0

const-injective : {c d : ℕ} → const c ≡ const d → c ≡ d
unfolding constant_of
const-injective e = let f = ap constant_of e in omega (arith, f)

const-var : {c v : ℕ} → const c ≡ var v → ⊥
unfolding constant_of
const-var e = let f = ap constant_of e in omega (arith, f)

body_predicates-const :
    (b : RuleAtom) (body : List RuleAtom) (c : ℕ)
    → b.p ≡ const c
    → body_predicates (b ∷ body) ≡ c ∷ body_predicates body
unfolding body_predicates
body_predicates-const b body c e = rw e refl

body_predicates-var :
    (b : RuleAtom) (body : List RuleAtom) (v : ℕ)
    → b.p ≡ var v
    → body_predicates (b ∷ body) ≡ body_predicates body
unfolding body_predicates
body_predicates-var b body v e = rw e refl

has_variable_predicate-const :
    (b : RuleAtom) (body : List RuleAtom) (c : ℕ)
    → b.p ≡ const c
    → has_variable_predicate (b ∷ body) ≡ has_variable_predicate body
unfolding has_variable_predicate
has_variable_predicate-const b body c e = rw e refl

has_variable_predicate-here :
    (b : RuleAtom) (body : List RuleAtom) (v : ℕ)
    → b.p ≡ var v
    → has_variable_predicate (b ∷ body) ≡ true
unfolding has_variable_predicate
has_variable_predicate-here b body v e = rw e refl

body_predicates-nil : body_predicates [] ≡ []
unfolding body_predicates
body_predicates-nil = refl

has_variable_predicate-nil : has_variable_predicate [] ≡ false
unfolding has_variable_predicate
has_variable_predicate-nil = refl

pub In-body_predicates :
    (j : ℕ) (body : List RuleAtom)
    → In j (body_predicates body) ↔ ((a : RuleAtom) × In a body × (a.p ≡ const j))
In-body_predicates j [] = rw body_predicates-nil (λ h. absurd h, λ (a, m, e). absurd m)
In-body_predicates j (b ∷ body) =
    let rest = In-body_predicates j body in
    elim (field-cases b.p) [
      | inl (c, e) ↦ rw (body_predicates-const b body c e) (
        λ h. elim h [
          | inl g ↦ (b, inl refl, e ∙ ap const (sym g))
          | inr m ↦ let (a, i, f) = rest.0 m in (a, inr i, f)
        ],
        λ (a, i, f). elim i [
          | inl g ↦ inl (const-injective (sym f ∙ ap (λ z. z.p) g ∙ e))
          | inr i' ↦ inr (rest.1 (a, i', f))
        ],
      )
      | inr (v, e) ↦ rw (body_predicates-var b body v e) (
        λ m. let (a, i, f) = rest.0 m in (a, inr i, f),
        λ (a, i, f). elim i [
          | inl g ↦ absurd (const-var (sym f ∙ ap (λ z. z.p) g ∙ e))
          | inr i' ↦ rest.1 (a, i', f)
        ],
      )
    ]

pub has_variable_predicate-var :
    (body : List RuleAtom)
    → (has_variable_predicate body ≡ true)
      ↔ ((a : RuleAtom) × In a body × ((v : ℕ) × (a.p ≡ var v)))
has_variable_predicate-var [] =
    rw has_variable_predicate-nil (λ h. absurd (false-ne-true h), λ (a, m, e). absurd m)
has_variable_predicate-var (b ∷ body) =
    let rest = has_variable_predicate-var body in
    elim (field-cases b.p) [
      | inl (c, e) ↦ rw (has_variable_predicate-const b body c e) (
        λ h. let (a, i, f) = rest.0 h in (a, inr i, f),
        λ (a, i, f). elim i [
          | inl g ↦ absurd (const-var (sym e ∙ ap (λ z. z.p) (sym g) ∙ f.1))
          | inr i' ↦ rest.1 (a, i', f)
        ],
      )
      | inr (v, e) ↦
          rw (has_variable_predicate-here b body v e) (λ h. (b, inl refl, (v, e)), λ h. refl)
    ]
