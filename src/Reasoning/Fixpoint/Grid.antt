-- ===== src/Reasoning/Fixpoint/Grid.antt =====
-- A universe for a set of rules: all rows over a list of ids.
use mathlib.Core.Path.{subst}
use native.Mathlib.Nat.{suc-mul}
use oxigraph_nova.Prelude.{
  ℕ, suc, ◌*◌, ◌<◌, ◌≡◌, ◌↔◌, inl, inr, refl, sym, ap, true, Bool-cases, List, [], ◌∷◌, ◌++◌, arith,
  length, length-append, get_or,
}
use oxigraph_nova.Reasoning.Row.{Row, row}
use oxigraph_nova.Reasoning.Keys.{In}
use oxigraph_nova.Reasoning.SortedVec.{u64_max}
use oxigraph_nova.Reasoning.Trie.Scan.{IsRow}
use oxigraph_nova.Reasoning.Join.{AtomField, const, var, is_var, is_active_for_var, null_source}
use oxigraph_nova.Reasoning.Join.Instance.{value}
use oxigraph_nova.Reasoning.Join.Loop.{In-append}
use oxigraph_nova.Reasoning.Rule.{Rule}
use oxigraph_nova.Reasoning.Fixpoint.{project_head, resolve_head}
use oxigraph_nova.Reasoning.Fixpoint.Round.{rule_instance, IsJoinable}
use oxigraph_nova.Reasoning.Fixpoint.Fired.{AllIn}
use oxigraph_nova.Reasoning.Fixpoint.Derived.{IsUniverse}
use oxigraph_nova.Reasoning.Fixpoint.Loop.{In-IsRows}

abbrev pub OverIds : List ℕ → Row → Type 0
OverIds ids r = In r.s ids × In r.p ids × In r.o ids

row_of : (q : Row) (x y z : ℕ) → q.s ≡ x → q.p ≡ y → q.o ≡ z → q ≡ row x y z
row_of q x y z e f g = rw (sym e, sym f, sym g) refl

with_object : ℕ → ℕ → List ℕ → List Row
with_object s p [] = []
with_object s p (o ∷ os) = row s p o ∷ with_object s p os

with_predicate : ℕ → List ℕ → List ℕ → List Row
unfolding with_object
with_predicate s [] os = []
with_predicate s (p ∷ ps) os = with_object s p os ++ with_predicate s ps os

with_subject : List ℕ → List ℕ → List ℕ → List Row
unfolding with_predicate
with_subject [] ps os = []
with_subject (s ∷ ss) ps os = with_predicate s ps os ++ with_subject ss ps os

pub grid : List ℕ → List Row
unfolding with_subject
grid ids = with_subject ids ids ids

In-with_object :
    (s p : ℕ) (os : List ℕ) (r : Row)
    → In r (with_object s p os) ↔ ((r.s ≡ s) × (r.p ≡ p) × In r.o os)
unfolding with_object
In-with_object s p [] r = (λ h. absurd h, λ h. absurd h.2)
In-with_object s p (o ∷ os) r =
    let rest = In-with_object s p os r in
    (
      λ h. elim h [
        | inl e ↦ (ap (λ z. z.s) e, ap (λ z. z.p) e, inl (ap (λ z. z.o) e))
        | inr m ↦ let (a, b, c) = rest.0 m in (a, b, inr c)
      ],
      λ (a, b, c). elim c [ inl e ↦ inl (row_of r s p o a b e) | inr m ↦ inr (rest.1 (a, b, m)) ],
    )

In-with_predicate :
    (s : ℕ) (ps os : List ℕ) (r : Row)
    → In r (with_predicate s ps os) ↔ ((r.s ≡ s) × In r.p ps × In r.o os)
unfolding with_predicate
In-with_predicate s [] os r = (λ h. absurd h, λ h. absurd h.1)
In-with_predicate s (p ∷ ps) os r =
    let rest = In-with_predicate s ps os r in
    let here = In-with_object s p os r in
    let split = In-append r (with_object s p os) (with_predicate s ps os) in
    (
      λ h. elim (split.0 h) [
        | inl m ↦ let (a, b, c) = here.0 m in (a, inl b, c)
        | inr m ↦ let (a, b, c) = rest.0 m in (a, inr b, c)
      ],
      λ (a, b, c). elim b [
        | inl e ↦ split.1 (inl (here.1 (a, e, c)))
        | inr m ↦ split.1 (inr (rest.1 (a, m, c)))
      ],
    )

In-with_subject :
    (ss ps os : List ℕ) (r : Row)
    → In r (with_subject ss ps os) ↔ (In r.s ss × In r.p ps × In r.o os)
unfolding with_subject
In-with_subject [] ps os r = (λ h. absurd h, λ h. absurd h.0)
In-with_subject (s ∷ ss) ps os r =
    let rest = In-with_subject ss ps os r in
    let here = In-with_predicate s ps os r in
    let split = In-append r (with_predicate s ps os) (with_subject ss ps os) in
    (
      λ h. elim (split.0 h) [
        | inl m ↦ let (a, b, c) = here.0 m in (inl a, b, c)
        | inr m ↦ let (a, b, c) = rest.0 m in (inr a, b, c)
      ],
      λ (a, b, c). elim a [
        | inl e ↦ split.1 (inl (here.1 (e, b, c)))
        | inr m ↦ split.1 (inr (rest.1 (m, b, c)))
      ],
    )

pub In-grid : (ids : List ℕ) (r : Row) → In r (grid ids) ↔ OverIds ids r
unfolding grid
In-grid ids r = In-with_subject ids ids ids r

length-with_object : (s p : ℕ) (os : List ℕ) → length (with_object s p os) ≡ length os
unfolding with_object
length-with_object s p [] = refl
length-with_object s p (o ∷ os) = ap suc (length-with_object s p os)

length-with_predicate :
    (s : ℕ) (ps os : List ℕ) → length (with_predicate s ps os) ≡ length ps * length os
unfolding with_predicate
length-with_predicate s [] os = omega arith
length-with_predicate s (p ∷ ps) os = omega (
  arith,
  length-append (with_object s p os) (with_predicate s ps os),
  length-with_object s p os,
  length-with_predicate s ps os,
  suc-mul (length ps) (length os),
)

length-with_subject :
    (ss ps os : List ℕ) → length (with_subject ss ps os) ≡ length ss * (length ps * length os)
unfolding with_subject
length-with_subject [] ps os = omega arith
length-with_subject (s ∷ ss) ps os = omega (
  arith,
  length-append (with_predicate s ps os) (with_subject ss ps os),
  length-with_predicate s ps os,
  length-with_subject ss ps os,
  suc-mul (length ss) (length ps * length os),
)

pub length-grid : (ids : List ℕ) → length (grid ids) ≡ length ids * (length ids * length ids)
unfolding grid
length-grid ids = length-with_subject ids ids ids

-- A head's constant is one of the ids, and its variables are those of the rule.
abbrev pub HeadOver : List ℕ → ℕ → AtomField → Type 0
HeadOver ids n (const c) = In c ids
HeadOver ids n (var v) = v < n

is_var-value : (v : ℕ) (f : AtomField) (ρ : List ℕ) → is_var v f ≡ true → value ρ f ≡ get_or ρ v 0
is_var-value v (const c) ρ h = ground arith
is_var-value v (var w) ρ h = let e : w ≡ v = ground arith in ap (λ z. get_or ρ z 0) e

module _ (ids : List ℕ) (r : Rule) (joinable : IsJoinable r) where
  -- A variable's value is an id, by the atom that has it.
  var-In : (ρ : List ℕ) (v : ℕ) → AllIn (grid ids) r.body ρ → v < r.num_vars → In (get_or ρ v 0) ids
  unfolding is_active_for_var
  var-In ρ v all lt =
      let (a, m, active) = joinable.covered v lt in
      let (hs, hp, ho) = (In-grid ids (rule_instance ρ a)).0 (all a m) in
      let on = active null_source in
      elim (Bool-cases (is_var v a.s)) [
        | inl s ↦ subst (λ z. In z ids) (is_var-value v a.s ρ s) hs
        | inr not_s ↦ elim (Bool-cases (is_var v a.p)) [
          | inl p ↦ subst (λ z. In z ids) (is_var-value v a.p ρ p) hp
          | inr not_p ↦ subst (λ z. In z ids) (is_var-value v a.o ρ (rw (not_s, not_p) at on)) ho
        ]
      ]

  head-In :
      (ρ : List ℕ) (f : AtomField)
      → AllIn (grid ids) r.body ρ
      → HeadOver ids r.num_vars f
      → In (resolve_head ρ f) ids
  head-In ρ (const c) all h = h
  head-In ρ (var v) all h = var-In ρ v all h

IsRow-OverIds :
    (ids : List ℕ) (r : Row) → ((v : ℕ) → In v ids → v < u64_max) → OverIds ids r → IsRow r
IsRow-OverIds ids r small (s, p, o) = (small r.s s, small r.p p, small r.o o)

pub grid-IsUniverse :
    (rules : List Rule) (seed : List Row) (ids : List ℕ)
    → ((v : ℕ) → In v ids → v < u64_max)
    → ((fact : Row) → In fact seed → OverIds ids fact)
    → ((r : Rule) → In r rules → IsJoinable r)
    → ((r : Rule)
        → In r rules
        → HeadOver ids r.num_vars r.head.s
          × HeadOver ids r.num_vars r.head.p
          × HeadOver ids r.num_vars r.head.o)
    → IsUniverse rules seed (grid ids)
unfolding project_head
grid-IsUniverse rules seed ids small over joinable heads = record {
  bounded = In-IsRows (grid ids) (λ q m. IsRow-OverIds ids q small ((In-grid ids q).0 m));
  seeded = λ fact m. (In-grid ids fact).1 (over fact m);
  closed = λ r ρ m len all.
      let (hs, hp, ho) = heads r m in
      (In-grid ids (project_head r.head ρ)).1 (
        head-In ids r (joinable r m) ρ r.head.s all hs,
        head-In ids r (joinable r m) ρ r.head.p all hp,
        head-In ids r (joinable r m) ρ r.head.o all ho,
      );
}
