-- ===== src/Reasoning/Fixpoint/Fired.antt =====
-- fixpoint.rs, `eval_rule_round` in a run of the fixpoint: the rows that a rule derives from the
-- total with some row of the delta.
use mathlib.Core.Path.{subst}
use oxigraph_nova.Prelude.{
  ℕ, suc, ◌+◌, ◌*◌, ◌≤◌, ◌<◌, ◌≡◌, ◌≢◌, ◌⊎◌, inl, inr, refl, sym, List, [], ◌∷◌, arith, length,
}
use oxigraph_nova.Reasoning.Row.{Row}
use oxigraph_nova.Reasoning.Keys.{In}
use oxigraph_nova.Reasoning.Trie.Scan.{IsRows}
use oxigraph_nova.Reasoning.Join.{AtomSource, slice_source, combined_source}
use oxigraph_nova.Reasoning.Join.Source.{Serves, slice_source-Serves, combined_source-Serves}
use oxigraph_nova.Reasoning.Rule.{RuleAtom, Rule}
use oxigraph_nova.Reasoning.Fixpoint.{project_head, eval_rule_round}
use oxigraph_nova.Reasoning.Fixpoint.Round.{rule_instance, IsJoinable, FiresAt}
use oxigraph_nova.Reasoning.Fixpoint.Derives.{AreRows, AreRows-iff, eval_rule_round-DerivesAt}

abbrev pub AllIn : List Row → List RuleAtom → List ℕ → Type 0
AllIn rows body ρ = (a : RuleAtom) → In a body → In (rule_instance ρ a) rows

abbrev pub SomeIn : List Row → List RuleAtom → List ℕ → Type 0
SomeIn rows body ρ = (a : RuleAtom) × In a body × In (rule_instance ρ a) rows

-- Every premise is a row of the store or of the rows.
abbrev pub AllKnown : (Row → Type 0) → List Row → List RuleAtom → List ℕ → Type 0
AllKnown S rows body ρ =
    (a : RuleAtom) → In a body → S (rule_instance ρ a) ⊎ In (rule_instance ρ a) rows

-- The rule derives the fact from the store and the total, with some premise in the delta.
abbrev pub Fired : (Row → Type 0) → List Row → List Row → Rule → Row → Type 0
Fired S total delta r fact =
    (ρ : List ℕ) × (length ρ ≡ r.num_vars)
    × AllKnown S total r.body ρ
    × SomeIn delta r.body ρ
    × (fact ≡ project_head r.head ρ)

module _ (S : Row → Type 0) (total delta : List Row) where
  abbrev OfTotal : Row → Type 0
  OfTotal q = S q ⊎ In q total

  abbrev OfDelta : Row → Type 0
  OfDelta q = In q delta

  FiresAt-AllKnown :
      (k i : ℕ) (body : List RuleAtom) (ρ : List ℕ)
      → ((q : Row) → In q delta → In q total)
      → FiresAt OfTotal OfDelta k i body ρ
      → AllKnown S total body ρ
  FiresAt-AllKnown k i [] ρ sub f a m = absurd m
  FiresAt-AllKnown k i (b ∷ body) ρ sub (here, rest) a (inl e) =
      subst (λ z. S (rule_instance ρ z) ⊎ In (rule_instance ρ z) total) (sym e)
        (elim here [ inl (g, d) ↦ inr (sub (rule_instance ρ b) d) | inr (g, t) ↦ t ])
  FiresAt-AllKnown k i (b ∷ body) ρ sub (here, rest) a (inr m) =
      FiresAt-AllKnown k (suc i) body ρ sub rest a m

  FiresAt-SomeIn :
      (k i : ℕ) (body : List RuleAtom) (ρ : List ℕ)
      → i ≤ k
      → k < i + length body
      → FiresAt OfTotal OfDelta k i body ρ
      → SomeIn delta body ρ
  FiresAt-SomeIn k i [] ρ lo hi f = absurd (omega arith)
  FiresAt-SomeIn k i (b ∷ body) ρ lo hi (inl (g, d), rest) = (b, inl refl, d)
  FiresAt-SomeIn k i (b ∷ body) ρ lo hi (inr (g, t), rest) =
      let ne : i ≢ k = g in
      let (a, m, d) = FiresAt-SomeIn k (suc i) body ρ (omega (arith, ne)) (omega arith) rest in
      (a, inr m, d)

  -- Behind the delta's place every atom scans the total.
  AllKnown-FiresAt :
      (k i : ℕ) (body : List RuleAtom) (ρ : List ℕ)
      → k < i
      → AllKnown S total body ρ
      → FiresAt OfTotal OfDelta k i body ρ
  AllKnown-FiresAt k i [] ρ lt all = tt
  AllKnown-FiresAt k i (b ∷ body) ρ lt all = (
    inr ((λ e. omega (arith, e)), all b (inl refl)),
    AllKnown-FiresAt k (suc i) body ρ (omega arith) (λ a m. all a (inr m)),
  )

  SomeIn-FiresAt :
      (i : ℕ) (body : List RuleAtom) (ρ : List ℕ)
      → AllKnown S total body ρ
      → SomeIn delta body ρ
      → (k : ℕ) × (i ≤ k) × (k < i + length body) × FiresAt OfTotal OfDelta k i body ρ
  SomeIn-FiresAt i [] ρ all (a, m, d) = absurd m
  SomeIn-FiresAt i (b ∷ body) ρ all (a, inl e, d) = (
    i,
    omega arith,
    omega arith,
    (
      inl (refl, subst (λ z. In (rule_instance ρ z) delta) e d),
      AllKnown-FiresAt i (suc i) body ρ (omega arith) (λ c m. all c (inr m)),
    ),
  )
  SomeIn-FiresAt i (b ∷ body) ρ all (a, inr m, d) =
      let (k, lo, hi, f) = SomeIn-FiresAt (suc i) body ρ (λ c j. all c (inr j)) (a, m, d) in
      (
        k,
        omega (arith, lo),
        omega (arith, hi),
        (inr ((λ e. omega (arith, e, lo)), all b (inl refl)), f),
      )

Serves-le :
    (source : AtomSource) (M : Row → Type 0) (m n : ℕ)
    → m ≤ n
    → Serves source M m
    → Serves source M n
Serves-le source M m n le s = record {
  keys = s.keys;
  view = s.view;
  small = λ a b c f. omega (arith, s.small a b c f);
  members = s.members;
}

-- With enough fuel a rule's round returns, and derives what the rule fires.
pub eval_rule_round-Fired :
    (limit : ℕ) (r : Rule) (store : AtomSource) (S : Row → Type 0) (stored n : ℕ)
    (total delta : List Row)
    → Serves store S stored
    → IsRows total
    → IsRows delta
    → stored + length total ≤ n
    → length delta ≤ n
    → length r.body * n < limit
    → IsJoinable r
    → ((q : Row) → In q delta → In q total)
    → AreRows
        (eval_rule_round limit r (combined_source store (slice_source total)) (slice_source delta))
        (Fired S total delta r)
eval_rule_round-Fired limit r store S stored n total delta serves rt rd lt ld enough joinable sub =
    let T = OfTotal S total delta in
    let D = OfDelta S total delta in
    let both = combined_source store (slice_source total) in
    let st = Serves-le both T (stored + length total) n lt (
      combined_source-Serves store (slice_source total) S (λ q. In q total) stored (length total)
        serves (slice_source-Serves total rt)) in
    let sd = Serves-le (slice_source delta) D (length delta) n ld (slice_source-Serves delta rd) in
    AreRows-iff _ _ _
      (λ fact. (
        λ (j, hi, (ρ, len, fires, e)). (
          ρ,
          len,
          FiresAt-AllKnown S total delta j 0 r.body ρ sub fires,
          FiresAt-SomeIn S total delta j 0 r.body ρ (omega arith) (omega (arith, hi)) fires,
          e,
        ),
        λ (ρ, len, all, some_new, e).
            let (j, lo, hi, fires) = SomeIn-FiresAt S total delta 0 r.body ρ all some_new in
            (j, omega (arith, hi), (ρ, len, fires, e)),
      ))
      (eval_rule_round-DerivesAt both (slice_source delta) T D n st sd limit r joinable enough)
