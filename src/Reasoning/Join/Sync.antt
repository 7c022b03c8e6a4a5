-- ===== src/Reasoning/Join/Sync.antt =====
-- join.rs, `leapfrog_sync`: on several iterators, the least key that they have in common.
use oxigraph_nova.Prelude.{
  ℕ, ◌+◌, ◌≤◌, ◌<◌, ◌≡◌, inl, inr, refl, List, [], ◌∷◌, ltb, ◌==◌, if◌then◌else◌, arith, Bool-cases,
  length,
}
use oxigraph_nova.Reasoning.Keys.{In, Ascending, drop_below, In-drop_below, length-drop_below}
use oxigraph_nova.Reasoning.Trie.{TrieIter, at_end, key, seek}
use oxigraph_nova.Reasoning.Trie.View.{View, View-Ascending, at_end-View, key-View, seek-View}
use oxigraph_nova.Reasoning.Join.{Pass, ended, aligned, behind, pass, pass_cons}

-- The keys in front of each iterator.
abbrev pub Views : List TrieIter → List (List ℕ) → Type 0
Views [] [] = Unit
Views [] (ks ∷ kss) = ⊥
Views (i ∷ is) [] = ⊥
Views (i ∷ is) (ks ∷ kss) = View i ks × Views is kss

abbrev pub Common : ℕ → List (List ℕ) → Type 0
Common v [] = Unit
Common v (ks ∷ kss) = In v ks × Common v kss

abbrev pub total : List (List ℕ) → ℕ
total [] = 0
total (ks ∷ kss) = length ks + total kss

-- Every list has a first key.
abbrev pub NonEmpty : List (List ℕ) → Type 0
NonEmpty [] = Unit
NonEmpty ([] ∷ kss) = ⊥
NonEmpty ((k ∷ ks) ∷ kss) = NonEmpty kss

-- Every list has a first key, at most `m`.
abbrev pub Bounded : ℕ → List (List ℕ) → Type 0
Bounded m [] = Unit
Bounded m ([] ∷ kss) = ⊥
Bounded m ((k ∷ ks) ∷ kss) = (k ≤ m) × Bounded m kss

-- Every list has the first key `m`.
abbrev pub AllStart : ℕ → List (List ℕ) → Type 0
AllStart m [] = Unit
AllStart m ([] ∷ kss) = ⊥
AllStart m ((k ∷ ks) ∷ kss) = (k ≡ m) × AllStart m kss

-- Only keys below `m` are gone.
abbrev Kept : ℕ → List ℕ → List ℕ → Type 0
Kept m ks ds =
    ((v : ℕ) → In v ds → In v ks) × ((v : ℕ) → m ≤ v → In v ks → In v ds) × (length ds ≤ length ks)

abbrev pub AllKept : ℕ → List (List ℕ) → List (List ℕ) → Type 0
AllKept m kss dss =
    ((v : ℕ) → Common v dss → Common v kss)
    × ((v : ℕ) → m ≤ v → Common v kss → Common v dss)
    × (total dss ≤ total kss)

-- What a pass of the inner loop establishes, with the greatest key `m`.
abbrev pub PassOk : ℕ → List (List ℕ) → Pass → Type 0
PassOk m kss ended = (v : ℕ) → m ≤ v → Common v kss → ⊥
PassOk m kss (aligned is) =
    (dss : List (List ℕ)) × Views is dss × AllStart m dss × AllKept m kss dss
PassOk m kss (behind is) =
    (dss : List (List ℕ)) × Views is dss
    × NonEmpty dss
    × AllKept m kss dss
    × (total dss < total kss)

Bounded-NonEmpty : (m : ℕ) (kss : List (List ℕ)) → Bounded m kss → NonEmpty kss
Bounded-NonEmpty m [] b = tt
Bounded-NonEmpty m ([] ∷ kss) b = b
Bounded-NonEmpty m ((k ∷ ks) ∷ kss) b = Bounded-NonEmpty m kss b.1

AllKept-cons :
    (m : ℕ) (ks ds : List ℕ) (kss dss : List (List ℕ))
    → Kept m ks ds
    → AllKept m kss dss
    → AllKept m (ks ∷ kss) (ds ∷ dss)
AllKept-cons m ks ds kss dss (back, on, small) (backs, ons, smalls) =
    (λ v (a, b). (back v a, backs v b), λ v h (a, b). (on v h a, ons v h b), omega arith)

AllKept-same : (m : ℕ) (kss : List (List ℕ)) → AllKept m kss kss
AllKept-same m kss = (λ v c. c, λ v h c. c, omega arith)

Kept-drop_below : (m : ℕ) (ks : List ℕ) → Ascending ks → Kept m ks (drop_below m ks)
Kept-drop_below m ks a = (
  λ v h. ((In-drop_below m ks v a).0 h).0,
  λ v h i. (In-drop_below m ks v a).1 (i, h),
  length-drop_below m ks,
)

-- An iterator that stands at `m` before the rest of the pass.
PassOk-cons :
    (m : ℕ) (ks ds : List ℕ) (kss : List (List ℕ)) (i : TrieIter) (rest : Pass)
    → View i (m ∷ ds)
    → Kept m ks (m ∷ ds)
    → PassOk m kss rest
    → PassOk m (ks ∷ kss) (pass_cons i rest)
PassOk-cons m ks ds kss i ended v kept ok = λ w h c. ok w h c.1
PassOk-cons m ks ds kss i (aligned is) v kept (dss, vs, start, all) =
    ((m ∷ ds) ∷ dss, (v, vs), (refl, start), AllKept-cons m ks (m ∷ ds) kss dss kept all)
PassOk-cons m ks ds kss i (behind is) v kept (dss, vs, full, all, less) = (
  (m ∷ ds) ∷ dss,
  (v, vs),
  full,
  AllKept-cons m ks (m ∷ ds) kss dss kept all,
  omega (arith, kept.2, less),
)

-- One iterator that was moved to what is left from `m` on.
PassOk-moved :
    (m : ℕ) (ks ds : List ℕ) (kss : List (List ℕ)) (is : List TrieIter) (i : TrieIter) (rest : Pass)
    → View i ds
    → Kept m ks ds
    → length ds < length ks
    → NonEmpty kss
    → Views is kss
    → PassOk m kss rest
    → PassOk m
        (ks ∷ kss)
        (if at_end i then ended else if key i == m then pass_cons i rest else behind (i ∷ is))
PassOk-moved m ks [] kss is i rest v kept less full vs ok =
    rw (at_end-View i [] v) (λ w h c. kept.1 w h c.0)
PassOk-moved m ks (d ∷ ds) kss is i rest v kept less full vs ok =
    rw (at_end-View i (d ∷ ds) v, key-View i d ds v)
      (elim (Bool-cases (d == m)) [
        | inl same ↦
            let e : d ≡ m = ground arith in
            rw same (PassOk-cons m ks ds kss i rest (rw e at v) (rw e at kept) ok)
        | inr other ↦ rw other (
          (d ∷ ds) ∷ kss,
          (v, vs),
          full,
          AllKept-cons m ks (d ∷ ds) kss kss kept (AllKept-same m kss),
          omega (arith, less),
        )
      ])

pub pass-PassOk :
    (m : ℕ) (is : List TrieIter) (kss : List (List ℕ))
    → Views is kss
    → Bounded m kss
    → PassOk m kss (pass m is)
unfolding pass
pass-PassOk m [] [] vs b = ([], tt, tt, AllKept-same m [])
pass-PassOk m [] (ks ∷ kss) vs b = absurd vs
pass-PassOk m (i ∷ is) [] vs b = absurd vs
pass-PassOk m (i ∷ is) ([] ∷ kss) vs b = absurd b
pass-PassOk m (i ∷ is) ((k ∷ ks) ∷ kss) (v, vs) (le, b) =
    let rest = pass-PassOk m is kss vs b in
    rw (key-View i k ks v) (elim (Bool-cases (ltb k m)) [
      | inl below ↦ rw below (
          PassOk-moved m (k ∷ ks) (drop_below m (k ∷ ks)) kss is (seek i m) (pass m is)
            (seek-View i (k ∷ ks) m v) (Kept-drop_below m (k ∷ ks) (View-Ascending i (k ∷ ks) v))
            (rw below (omega (arith, length-drop_below m ks))) (Bounded-NonEmpty m kss b) vs rest)
      | inr here ↦
          let e : k ≡ m = ground arith in
          rw here (
            PassOk-cons m (k ∷ ks) ks kss i (pass m is) (rw e at v)
              (rw e (λ w h. h, λ w h c. c, omega arith)) rest)
    ])
