-- ===== src/Reasoning/Join/Loop.antt =====
-- join.rs, the loop of `join_step`: it runs the rest of the join at every key that the scans have
-- in common.
use mathlib.Core.Path.{subst}
use oxigraph_nova.Prelude.{
  ℕ, zero, suc, ◌<◌, ◌≡◌, ◌↔◌, ◌⊎◌, inl, inr, refl, sym, Option, none, some, List, [], ◌∷◌, ◌++◌,
  true, false, arith, set,
}
use oxigraph_nova.Reasoning.Keys.{In, AllBelow}
use oxigraph_nova.Reasoning.SortedVec.{u64_max}
use oxigraph_nova.Reasoning.Trie.{TrieIter, advance}
use oxigraph_nova.Reasoning.Trie.View.{View, View-AllBelow, at_end-View, advance-View}
use oxigraph_nova.Reasoning.Join.{
  Synced, leapfrog_sync, Found, Bindings, found_append, advance_first, first_at_end, scan_loop,
}
use oxigraph_nova.Reasoning.Join.Sync.{Views, Common, total, AllStart}
use oxigraph_nova.Reasoning.Join.Least.{LeastCommon, AllStart-Common, leapfrog_sync-LeastCommon}

-- The search has come to its end, and its results are exactly those of the predicate.
abbrev pub Enumerates : Found → (List ℕ → Type 0) → Type 0
Enumerates none P = ⊥
Enumerates (some rs) P = (ρ : List ℕ) → In ρ rs ↔ P ρ

pub Enumerates-iff :
    (f : Found) (P Q : List ℕ → Type 0)
    → ((ρ : List ℕ) → P ρ ↔ Q ρ)
    → Enumerates f P
    → Enumerates f Q
Enumerates-iff none P Q e h = h
Enumerates-iff (some rs) P Q e h = λ ρ. (λ m. (e ρ).0 ((h ρ).0 m), λ q. (h ρ).1 ((e ρ).1 q))

pub In-append : {A : Type 0} → (x : A) (xs ys : List A) → In x (xs ++ ys) ↔ (In x xs ⊎ In x ys)
In-append x [] ys = (λ h. inr h, λ h. elim h [ inl a ↦ absurd a | inr b ↦ b ])
In-append x (y ∷ xs) ys = ground (arith, In-append x xs ys)

Enumerates-append :
    (f g : Found) (P Q : List ℕ → Type 0)
    → Enumerates f P
    → Enumerates g Q
    → Enumerates (found_append f g) (λ ρ. P ρ ⊎ Q ρ)
Enumerates-append none g P Q a b = a
Enumerates-append (some rs) none P Q a b = b
Enumerates-append (some rs) (some qs) P Q a b = λ ρ.
    let (split, join) = In-append ρ rs qs in
    (
      λ m. elim (split m) [ inl x ↦ inl ((a ρ).0 x) | inr y ↦ inr ((b ρ).0 y) ],
      λ m. join (elim m [ inl x ↦ inl ((a ρ).1 x) | inr y ↦ inr ((b ρ).1 y) ]),
    )

pub AllBelow-In : (n : ℕ) (ks : List ℕ) (v : ℕ) → AllBelow n ks → In v ks → v < n
AllBelow-In n [] v a h = absurd h
AllBelow-In n (k ∷ ks) v a h = ground (arith, AllBelow-In n ks v)

not-Common :
    (i : TrieIter) (is : List TrieIter) (kss : List (List ℕ))
    → Views (i ∷ is) kss
    → Common u64_max kss
    → ⊥
not-Common i is [] vs c = absurd vs
not-Common i is (ks ∷ kss) vs c =
    let lt = AllBelow-In u64_max ks u64_max (View-AllBelow i ks vs.0) c.0 in omega (arith, lt)

-- What the first iterator loses when it leaves the key `d`.
Common-advance :
    (d v : ℕ) (ds : List ℕ) (dss : List (List ℕ))
    → AllStart d dss
    → Common v ((d ∷ ds) ∷ dss) ↔ ((v ≡ d) ⊎ Common v (ds ∷ dss))
Common-advance d v ds dss start = (
  λ (m, c). elim m [ inl e ↦ inl e | inr h ↦ inr (h, c) ],
  λ m. elim m [
    | inl e ↦ (inl e, subst (λ x. Common x dss) (sym e) (AllStart-Common d dss start))
    | inr (h, c) ↦ (inr h, c)
  ],
)

module _ (limit : ℕ) (next : Bindings → Found) (v : ℕ) (b : Bindings) (Sat : ℕ → List ℕ → Type 0)
    (rest_ok : (val : ℕ) → Enumerates (next (set b v (some val))) (Sat val)) where
  -- Some key of the lists, with what the rest of the join finds there.
  abbrev pub AtCommon : List (List ℕ) → List ℕ → Type 0
  AtCommon kss ρ = (val : ℕ) × Common val kss × Sat val ρ

  AtCommon-split :
      (d : ℕ) (ds : List ℕ) (kss dss : List (List ℕ)) (ρ : List ℕ)
      → AllStart d dss
      → ((w : ℕ) → Common w kss ↔ Common w ((d ∷ ds) ∷ dss))
      → (Sat d ρ ⊎ AtCommon (ds ∷ dss) ρ) ↔ AtCommon kss ρ
  AtCommon-split d ds kss dss ρ start same = (
    λ m. elim m [
      | inl s ↦ (d, (same d).1 ((Common-advance d d ds dss start).1 (inl refl)), s)
      | inr (w, c, s) ↦ (w, (same w).1 ((Common-advance d w ds dss start).1 (inr c)), s)
    ],
    λ (w, c, s). elim ((Common-advance d w ds dss start).0 ((same w).0 c)) [
      | inl e ↦ inl (subst (λ x. Sat x ρ) e s)
      | inr c' ↦ inr (w, c', s)
    ],
  )

  -- The rounds after the first, from the iterators as they are after `advance`.
  abbrev Later : ℕ → Type 0
  Later fuel =
      (i : TrieIter) (is : List TrieIter) (kss : List (List ℕ))
      → Views (i ∷ is) kss
      → total kss < limit
      → total kss < fuel
      → Enumerates (scan_loop limit fuel next v b (i ∷ is)) (AtCommon kss)

  Later-Enumerates :
      (fuel : ℕ) (i : TrieIter) (is : List TrieIter) (ds : List ℕ) (dss : List (List ℕ))
      → Later fuel
      → View i ds
      → Views is dss
      → total (ds ∷ dss) < limit
      → total (ds ∷ dss) < fuel
      → Enumerates
          (elim (first_at_end (i ∷ is)) [
            | true ↦ some []
            | false ↦ scan_loop limit fuel next v b (i ∷ is)
          ])
          (AtCommon (ds ∷ dss))
  Later-Enumerates fuel i is [] dss ih u vs l f =
      rw (at_end-View i [] u) (λ ρ. (λ h. absurd h, λ (w, c, s). absurd c.0))
  Later-Enumerates fuel i is (d ∷ ds) dss ih u vs l f =
      rw (at_end-View i (d ∷ ds) u) (ih i is ((d ∷ ds) ∷ dss) (u, vs) l f)

  round-Enumerates :
      (fuel : ℕ) (kss : List (List ℕ)) (r : Option Synced)
      → Later fuel
      → (Common u64_max kss → ⊥)
      → total kss < limit
      → total kss < suc fuel
      → LeastCommon kss r
      → Enumerates
          (elim r [
            | none ↦ none
            | some none ↦ some []
            | some (some (val, scans')) ↦
                found_append
                  (next (set b v (some val)))
                  (elim (first_at_end (advance_first scans')) [
                    | true ↦ some []
                    | false ↦ scan_loop limit fuel next v b (advance_first scans')
                  ])
          ])
          (AtCommon kss)
  round-Enumerates fuel kss none ih miss l f ok = ok
  round-Enumerates fuel kss (some none) ih miss l f ok =
      λ ρ. (λ h. absurd h, λ (w, c, s). absurd (ok w c))
  round-Enumerates fuel kss (some (some (m, []))) ih miss l f
        (here, low, ([], vs, start, same, le)) =
      absurd (miss ((same u64_max).1 tt))
  round-Enumerates fuel kss (some (some (m, []))) ih miss l f
        (here, low, (ds ∷ dss, vs, start, same, le)) =
      absurd vs
  round-Enumerates fuel kss (some (some (m, i ∷ is))) ih miss l f
        (here, low, ([], vs, start, same, le)) =
      absurd vs
  round-Enumerates fuel kss (some (some (m, i ∷ is))) ih miss l f
        (here, low, ([] ∷ dss, vs, start, same, le)) =
      absurd start
  round-Enumerates fuel kss (some (some (m, i ∷ is))) ih miss l f
        (here, low, ((d ∷ ds) ∷ dss, (u, vs), (e, start), same, le)) =
      let same' : (w : ℕ) → Common w kss ↔ Common w ((m ∷ ds) ∷ dss) = rw e at same in
      Enumerates-iff _ (λ ρ. Sat m ρ ⊎ AtCommon (ds ∷ dss) ρ) (AtCommon kss)
        (λ ρ. AtCommon-split m ds kss dss ρ start same')
        (Enumerates-append (next (set b v (some m))) _ (Sat m) (AtCommon (ds ∷ dss)) (rest_ok m) (
          Later-Enumerates fuel (advance i) is ds dss ih (advance-View i d ds u) vs
            (omega (arith, le)) (omega (arith, le))))

  -- With more fuel than the scans have keys, the loop ends, and its results are those of the rest
  -- of the join at the common keys.
  pub scan_loop-Enumerates :
      (fuel : ℕ) (i : TrieIter) (is : List TrieIter) (kss : List (List ℕ))
      → Views (i ∷ is) kss
      → total kss < limit
      → total kss < fuel
      → Enumerates (scan_loop limit fuel next v b (i ∷ is)) (AtCommon kss)
  unfolding scan_loop
  scan_loop-Enumerates zero i is kss vs l f = absurd (omega arith)
  scan_loop-Enumerates (suc fuel) i is kss vs l f =
      round-Enumerates fuel kss (leapfrog_sync limit (i ∷ is))
        (λ i' is' kss' vs' l' f'. scan_loop-Enumerates fuel i' is' kss' vs' l' f')
        (not-Common i is kss vs) l f (leapfrog_sync-LeastCommon limit i is kss vs l)
