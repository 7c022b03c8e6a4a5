-- ===== src/Reasoning/Fixpoint/Round.antt =====
-- fixpoint.rs, `eval_rule_round`: what one rule derives in a semi-naive round.
use mathlib.Core.Path.{subst}
use oxigraph_nova.Prelude.{
  ℕ, suc, ◌<◌, ◌≡◌, ◌↔◌, ◌⊎◌, inl, inr, refl, sym, ap, none, some, List, [], ◌∷◌, true, ◌==◌, arith,
  Bool-cases, length,
}
use oxigraph_nova.Reasoning.Row.{Row, row, cell}
use oxigraph_nova.Reasoning.Keys.{In}
use oxigraph_nova.Reasoning.Trie.Scan.{HasBound}
use oxigraph_nova.Reasoning.Trie.{TrieIter, exhausted, sorted_vec, union}
use oxigraph_nova.Reasoning.Trie.View.{View}
use oxigraph_nova.Reasoning.Join.{Atom, AtomSource, is_active_for_var}
use oxigraph_nova.Reasoning.Join.Source.{Serves}
use oxigraph_nova.Reasoning.Join.Instance.{instance_of, IsLinear, AllVarBelow, HasVarFrom}
use oxigraph_nova.Reasoning.Rule.{RuleAtom, Rule}
use oxigraph_nova.Reasoning.Fixpoint.{lift_atoms}

-- Two lists of keys in front of one iterator have the same keys.
In-View : (i : TrieIter) (ks ls : List ℕ) (v : ℕ) → View i ks → View i ls → In v ks → In v ls
In-View exhausted ks ls v a b h = absurd (subst (λ z. In v z) a h)
In-View (sorted_vec t) ks ls v a b h = (b.members v).1 ((a.members v).0 h)
In-View (union x y) ks ls v (ka, kb, va, vb, u) (la, lb, wa, wb, w) h =
    (w.members v).1 (elim ((u.members v).0 h) [
      | inl p ↦ inl (In-View x ka la v va wa p)
      | inr q ↦ inr (In-View y kb lb v vb wb q)
    ])

-- A scan of the source for the object, with subject and predicate bound, meets the row.
abbrev pub Scanned : AtomSource → Row → Type 0
Scanned source r = (ks : List ℕ) × View (source (some r.s) (some r.p) none 2) ks × In r.o ks

row_of : (q : Row) (x y z : ℕ) → q.s ≡ x → q.p ≡ y → q.o ≡ z → q ≡ row x y z
row_of q x y z e f g = rw (sym e, sym f, sym g) refl

same_row : (r q : Row) → HasBound (some r.s) (some r.p) none 2 q → r.o ≡ cell q 2 → q ≡ r
same_row r q (f0, f1, f2) e =
    let es : q.s ≡ r.s = elim f0 [ inl n ↦ absurd (omega (arith, n)) | inr s ↦ s ] in
    let ep : q.p ≡ r.p = elim f1 [ inl n ↦ absurd (omega (arith, n)) | inr p ↦ p ] in
    row_of q r.s r.p r.o es ep (sym e)

pub Scanned-Serves :
    (source : AtomSource) (N : Row → Type 0) (n : ℕ) (r : Row)
    → Serves source N n
    → Scanned source r ↔ N r
Scanned-Serves source N n r s = (
  λ (ks, v, m).
      let keys = s.keys (some r.s) (some r.p) none 2 in
      let met =
        In-View (source (some r.s) (some r.p) none 2) ks keys r.o v
          (s.view (some r.s) (some r.p) none 2) m in
      let (q, w, f, e) = (s.members (some r.s) (some r.p) none 2 r.o).0 met in
      subst N (same_row r q f e) w,
  λ w. (
    s.keys (some r.s) (some r.p) none 2,
    s.view (some r.s) (some r.p) none 2,
    (s.members (some r.s) (some r.p) none 2 r.o).1 (r, w, (inr refl, inr refl, tt), refl),
  ),
)

pub Serves-Scanned :
    (source : AtomSource) (N : Row → Type 0) (n : ℕ)
    → Serves source N n
    → Serves source (Scanned source) n
Serves-Scanned source N n s = record {
  keys = s.keys;
  view = s.view;
  small = s.small;
  members = λ a b c f v. (
    λ h.
        let (r, w, e, q) = (s.members a b c f v).0 h in
        (r, (Scanned-Serves source N n r s).1 w, e, q),
    λ (r, w, e, q). (s.members a b c f v).1 (r, (Scanned-Serves source N n r s).0 w, e, q),
  );
}

abbrev pub with_source : AtomSource → RuleAtom → Atom
with_source source ra = record { s = ra.s; p = ra.p; o = ra.o; source = source }

abbrev pub rule_instance : List ℕ → RuleAtom → Row
rule_instance ρ ra = instance_of ρ (with_source (λ s p o f. exhausted) ra)

-- No variable stands twice in an atom, every atom has a variable and every variable an atom.
pub record IsJoinable (r : Rule) : Type 0 where
  pub linear : (a : RuleAtom) → In a r.body → (x : AtomSource) → IsLinear (with_source x a)
  pub below :
      (a : RuleAtom) → In a r.body → (x : AtomSource) → AllVarBelow r.num_vars (with_source x a)
  pub varied : (a : RuleAtom) → In a r.body → (x : AtomSource) → HasVarFrom 0 (with_source x a)
  pub covered :
      (v : ℕ)
      → v < r.num_vars
      → (a : RuleAtom) × In a r.body
        × ((x : AtomSource) → is_active_for_var v (with_source x a) ≡ true)

-- The atom at place `k` is a row of `D`, and the others, counted from `i`, are rows of `T`.
abbrev pub FiresAt : (Row → Type 0) → (Row → Type 0) → ℕ → ℕ → List RuleAtom → List ℕ → Type 0
FiresAt T D k i [] ρ = Unit
FiresAt T D k i (a ∷ body) ρ =
    (((i ≡ k) × D (rule_instance ρ a)) ⊎ ((i ≡ k → ⊥) × T (rule_instance ρ a)))
    × FiresAt T D k (suc i) body ρ

module _ (total delta : AtomSource) (k : ℕ) where
  pub lift_atoms-cases :
      (i : ℕ) (ra : RuleAtom) (body : List RuleAtom)
      → ((i ≡ k)
          × (lift_atoms total delta k i (ra ∷ body)
              ≡ with_source delta ra ∷ lift_atoms total delta k (suc i) body))
        ⊎ ((i ≡ k → ⊥)
            × (lift_atoms total delta k i (ra ∷ body)
                ≡ with_source total ra ∷ lift_atoms total delta k (suc i) body))
  unfolding lift_atoms
  lift_atoms-cases i ra body = elim (Bool-cases (i == k)) [
    | inl same ↦ inl (ground arith, rw same refl)
    | inr other ↦ inr (ground arith, rw other refl)
  ]

  -- Every lifted atom is one of the rule's, over one of the two sources.
  pub In-lift_atoms :
      (i : ℕ) (body : List RuleAtom) (a : Atom)
      → In a (lift_atoms total delta k i body)
      → (ra : RuleAtom) × In ra body × ((a ≡ with_source delta ra) ⊎ (a ≡ with_source total ra))
  unfolding lift_atoms
  In-lift_atoms i [] a h = absurd h
  In-lift_atoms i (ra ∷ body) a h = elim (lift_atoms-cases i ra body) [
    | inl (n, e) ↦ elim (subst (λ z. In a z) e h) [
      | inl here ↦ (ra, inl refl, inl here)
      | inr m ↦ let (rb, j, w) = In-lift_atoms (suc i) body a m in (rb, inr j, w)
    ]
    | inr (n, e) ↦ elim (subst (λ z. In a z) e h) [
      | inl here ↦ (ra, inl refl, inr here)
      | inr m ↦ let (rb, j, w) = In-lift_atoms (suc i) body a m in (rb, inr j, w)
    ]
  ]

  pub lift_atoms-In :
      (i : ℕ) (body : List RuleAtom) (ra : RuleAtom)
      → In ra body
      → (x : AtomSource) × In (with_source x ra) (lift_atoms total delta k i body)
  lift_atoms-In i [] ra h = absurd h
  lift_atoms-In i (rb ∷ body) ra (inl e) = elim (lift_atoms-cases i rb body) [
    | inl (n, f) ↦
        (delta, subst (λ z. In (with_source delta ra) z) (sym f) (inl (ap (with_source delta) e)))
    | inr (n, f) ↦
        (total, subst (λ z. In (with_source total ra) z) (sym f) (inl (ap (with_source total) e)))
  ]
  lift_atoms-In i (rb ∷ body) ra (inr m) =
      let (x, h) = lift_atoms-In (suc i) body ra m in
      elim (lift_atoms-cases i rb body) [
        | inl (n, f) ↦ (x, subst (λ z. In (with_source x ra) z) (sym f) (inr h))
        | inr (n, f) ↦ (x, subst (λ z. In (with_source x ra) z) (sym f) (inr h))
      ]

  pub length-lift_atoms :
      (i : ℕ) (body : List RuleAtom) → length (lift_atoms total delta k i body) ≡ length body
  unfolding lift_atoms
  length-lift_atoms i [] = refl
  length-lift_atoms i (ra ∷ body) = ap suc (length-lift_atoms (suc i) body)
