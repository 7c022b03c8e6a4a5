-- ===== src/Reasoning/Fixpoint/Derives.antt =====
-- fixpoint.rs, `eval_rule_round`: the facts that one rule derives, against what it says.
use mathlib.Core.Path.{subst}
use oxigraph_nova.Prelude.{
  ℕ, zero, suc, ◌+◌, ◌*◌, ◌≤◌, ◌<◌, ◌≡◌, ◌↔◌, ◌⊎◌, inl, inr, refl, sym, ap, ◌∙◌, none, some, List,
  [], ◌∷◌, arith, length,
}
use oxigraph_nova.Reasoning.Row.{Row}
use oxigraph_nova.Reasoning.Keys.{In}
use oxigraph_nova.Reasoning.Join.{Atom, AtomSource, Found, leapfrog_join}
use oxigraph_nova.Reasoning.Join.Source.{Serves}
use oxigraph_nova.Reasoning.Join.Loop.{Enumerates, Enumerates-iff, In-append}
use oxigraph_nova.Reasoning.Join.Instance.{instance_of, IsLinear, AllVarBelow, HasVarFrom}
use oxigraph_nova.Reasoning.Join.Correct.{leapfrog_join-Enumerates}
use oxigraph_nova.Reasoning.Rule.{RuleAtom, Rule}
use oxigraph_nova.Reasoning.Fixpoint.{
  lift_atoms, project_head, project_all, Rows, then_append, projected, positions, eval_rule_round,
}
use oxigraph_nova.Reasoning.Fixpoint.Round.{
  Scanned, Scanned-Serves, Serves-Scanned, with_source, rule_instance, IsJoinable, FiresAt,
  lift_atoms-cases, In-lift_atoms, lift_atoms-In, length-lift_atoms,
}

-- The rows are exactly those of the predicate.
abbrev pub AreRows : Rows → (Row → Type 0) → Type 0
AreRows none P = ⊥
AreRows (some rs) P = (fact : Row) → In fact rs ↔ P fact

pub AreRows-iff :
    (rs : Rows) (P Q : Row → Type 0)
    → ((fact : Row) → P fact ↔ Q fact)
    → AreRows rs P
    → AreRows rs Q
AreRows-iff none P Q e h = h
AreRows-iff (some rs) P Q e h = λ x. (λ m. (e x).0 ((h x).0 m), λ q. (h x).1 ((e x).1 q))

AreRows-append :
    (f g : Rows) (P Q : Row → Type 0)
    → AreRows f P
    → AreRows g Q
    → AreRows (then_append f g) (λ x. P x ⊎ Q x)
AreRows-append none g P Q a b = a
AreRows-append (some rs) none P Q a b = b
AreRows-append (some rs) (some qs) P Q a b = λ x.
    let (split, join) = In-append x rs qs in
    (
      λ m. elim (split m) [ inl y ↦ inl ((a x).0 y) | inr y ↦ inr ((b x).0 y) ],
      λ m. join (elim m [ inl y ↦ inl ((a x).1 y) | inr y ↦ inr ((b x).1 y) ]),
    )

In-project_all :
    (head : RuleAtom) (bs : List (List ℕ)) (fact : Row)
    → In fact (project_all head bs) ↔ ((ρ : List ℕ) × In ρ bs × (fact ≡ project_head head ρ))
In-project_all head [] fact = (λ h. absurd h, λ (ρ, m, e). absurd m)
In-project_all head (b ∷ bs) fact =
    let rest = In-project_all head bs fact in
    (
      λ h. elim h [ inl e ↦ (b, inl refl, e) | inr m ↦ let (ρ, i, e) = rest.0 m in (ρ, inr i, e) ],
      λ (ρ, m, e). elim m [
        | inl g ↦ inl (e ∙ ap (project_head head) g)
        | inr i ↦ inr (rest.1 (ρ, i, e))
      ],
    )

first_or_later : (k j m : ℕ) → k ≤ j → j < k + suc m → (j ≡ k) ⊎ ((suc k ≤ j) × (j < suc k + m))
first_or_later k j m lo hi = ground arith

module _ (total delta : AtomSource) (T D : Row → Type 0) (n : ℕ) (st : Serves total T n)
    (sd : Serves delta D n) where
  AllScanned : List Atom → List ℕ → Type 0
  AllScanned atoms ρ = (a : Atom) → In a atoms → Scanned a.source (instance_of ρ a)

  AllScanned-cons :
      (x : Atom) (atoms : List Atom) (ρ : List ℕ)
      → AllScanned (x ∷ atoms) ρ ↔ (Scanned x.source (instance_of ρ x) × AllScanned atoms ρ)
  unfolding AllScanned
  AllScanned-cons x atoms ρ = (
    λ h. (h x (inl refl), λ a m. h a (inr m)),
    λ (h, rest) a m. elim m [
      | inl e ↦ subst (λ z. Scanned z.source (instance_of ρ z)) (sym e) h
      | inr m' ↦ rest a m'
    ],
  )

  no_atoms : (ρ : List ℕ) → AllScanned [] ρ
  unfolding AllScanned
  no_atoms ρ a m = absurd m

  AllScanned-FiresAt :
      (k i : ℕ) (body : List RuleAtom) (ρ : List ℕ)
      → AllScanned (lift_atoms total delta k i body) ρ ↔ FiresAt T D k i body ρ
  unfolding lift_atoms
  AllScanned-FiresAt k i [] ρ = (λ h. tt, λ h. no_atoms ρ)
  AllScanned-FiresAt k i (ra ∷ body) ρ =
      let rest = AllScanned-FiresAt k (suc i) body ρ in
      elim (lift_atoms-cases total delta k i ra body) [
        | inl (e, f) ↦
            let here = Scanned-Serves delta D n (rule_instance ρ ra) sd in
            let split =
              AllScanned-cons (with_source delta ra) (lift_atoms total delta k (suc i) body) ρ in
            (
              λ h.
                  let (x, xs) = split.0 (subst (λ z. AllScanned z ρ) f h) in
                  (inl (e, here.0 x), rest.0 xs),
              λ (x, xs). elim x [
                | inl (g, d) ↦ subst (λ z. AllScanned z ρ) (sym f) (split.1 (here.1 d, rest.1 xs))
                | inr (g, d) ↦ absurd (g e)
              ],
            )
        | inr (e, f) ↦
            let here = Scanned-Serves total T n (rule_instance ρ ra) st in
            let split =
              AllScanned-cons (with_source total ra) (lift_atoms total delta k (suc i) body) ρ in
            (
              λ h.
                  let (x, xs) = split.0 (subst (λ z. AllScanned z ρ) f h) in
                  (inr (e, here.0 x), rest.0 xs),
              λ (x, xs). elim x [
                | inl (g, d) ↦ absurd (e g)
                | inr (g, d) ↦ subst (λ z. AllScanned z ρ) (sym f) (split.1 (here.1 d, rest.1 xs))
              ],
            )
      ]

  module _ (limit : ℕ) (r : Rule) (joinable : IsJoinable r)
      (enough : length r.body * n < limit) where
    lifted_serves :
        (k : ℕ) (a : Atom)
        → In a (lift_atoms total delta k 0 r.body)
        → Serves a.source (Scanned a.source) n
    lifted_serves k a m =
        let (ra, j, w) = In-lift_atoms total delta k 0 r.body a m in
        elim w [
          | inl e ↦
              subst (λ z. Serves z.source (Scanned z.source) n) (sym e)
                (Serves-Scanned delta D n sd)
          | inr e ↦
              subst (λ z. Serves z.source (Scanned z.source) n) (sym e)
                (Serves-Scanned total T n st)
        ]

    -- A property of the rule's atoms holds of the lifted ones.
    of_lifted :
        (k : ℕ) (P : Atom → Type 0)
        → ((ra : RuleAtom) → In ra r.body → (x : AtomSource) → P (with_source x ra))
        → (a : Atom) → In a (lift_atoms total delta k 0 r.body)
        → P a
    of_lifted k P h a m =
        let (ra, j, w) = In-lift_atoms total delta k 0 r.body a m in
        elim w [ inl e ↦ subst P (sym e) (h ra j delta) | inr e ↦ subst P (sym e) (h ra j total) ]

    -- The bindings under which the rule fires with the delta at place `k`.
    join-Enumerates :
        (k : ℕ)
        → Enumerates
            (leapfrog_join limit (lift_atoms total delta k 0 r.body) r.num_vars)
            (λ ρ. (length ρ ≡ r.num_vars) × FiresAt T D k 0 r.body ρ)
    unfolding AllScanned
    join-Enumerates k =
        let atoms = lift_atoms total delta k 0 r.body in
        Enumerates-iff _ (λ ρ. (length ρ ≡ r.num_vars) × AllScanned atoms ρ) _
          (λ ρ.
            let same = AllScanned-FiresAt k 0 r.body ρ in
            (λ (e, h). (e, same.0 h), λ (e, h). (e, same.1 h)))
          (leapfrog_join-Enumerates limit atoms r.num_vars (λ a. Scanned a.source) n
            (lifted_serves k) (of_lifted k IsLinear joinable.linear)
            (of_lifted k (AllVarBelow r.num_vars) joinable.below)
            (λ v lt.
              let (ra, m, active) = joinable.covered v lt in
              let (x, h) = lift_atoms-In total delta k 0 r.body ra m in
              (with_source x ra, h, active x))
            (rw (length-lift_atoms total delta k 0 r.body) enough)
            (of_lifted k (HasVarFrom 0) joinable.varied))

    -- The rule derives the fact from some row of the delta at place `k`.
    abbrev pub DerivesAt : ℕ → Row → Type 0
    DerivesAt k fact =
        (ρ : List ℕ) × (length ρ ≡ r.num_vars)
        × FiresAt T D k 0 r.body ρ
        × (fact ≡ project_head r.head ρ)

    projected-DerivesAt :
        (k : ℕ) (f : Found)
        → Enumerates f (λ ρ. (length ρ ≡ r.num_vars) × FiresAt T D k 0 r.body ρ)
        → AreRows (projected r.head f) (DerivesAt k)
    projected-DerivesAt k none h = h
    projected-DerivesAt k (some bs) h = λ fact. (
      λ m.
          let (ρ, i, e) = (In-project_all r.head bs fact).0 m in
          let (len, fires) = (h ρ).0 i in (ρ, len, fires, e),
      λ (ρ, len, fires, e). (In-project_all r.head bs fact).1 (ρ, (h ρ).1 (len, fires), e),
    )

    positions-DerivesAt :
        (m k : ℕ)
        → AreRows
            (positions limit r total delta k m)
            (λ fact. (j : ℕ) × (k ≤ j) × (j < k + m) × DerivesAt j fact)
    unfolding positions
    positions-DerivesAt zero k =
        λ fact. (λ h. absurd h, λ (j, lo, hi, d). absurd (omega (arith, lo, hi)))
    positions-DerivesAt (suc m) k =
        AreRows-iff _ _ _
          (λ fact. (
            λ h. elim h [
              | inl d ↦ (k, omega arith, omega arith, d)
              | inr (j, lo, hi, d) ↦ (j, omega (arith, lo), omega (arith, hi), d)
            ],
            λ (j, lo, hi, d). elim (first_or_later k j m lo hi) [
              | inl e ↦ inl (subst (λ z. DerivesAt z fact) e d)
              | inr (lo', hi') ↦ inr (j, lo', hi', d)
            ],
          ))
          (AreRows-append
            (projected r.head (leapfrog_join limit (lift_atoms total delta k 0 r.body) r.num_vars))
            (positions limit r total delta (suc k) m) (DerivesAt k) _
            (projected-DerivesAt k
              (leapfrog_join limit (lift_atoms total delta k 0 r.body) r.num_vars)
              (join-Enumerates k))
            (positions-DerivesAt m (suc k)))

    -- For a rule whose atoms have no repeated variable and each some variable, all variables of the
    -- rule among them, over sources that serve the sets of the total and the delta, and with more
    -- fuel than the scans can have keys, `eval_rule_round` returns, and derives exactly the heads
    -- under the assignments that make the atom at some place of the body a row of the delta and the
    -- others rows of the total.
    pub eval_rule_round-DerivesAt :
        AreRows
          (eval_rule_round limit r total delta)
          (λ fact. (j : ℕ) × (j < length r.body) × DerivesAt j fact)
    unfolding eval_rule_round
    eval_rule_round-DerivesAt =
        AreRows-iff _ _ _
          (λ fact. (
            λ (j, lo, hi, d). (j, omega (arith, hi), d),
            λ (j, hi, d). (j, omega arith, omega (arith, hi), d),
          ))
          (positions-DerivesAt (length r.body) 0)
