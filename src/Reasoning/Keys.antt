-- ===== src/Reasoning/Keys.antt =====
-- Ascending lists of keys: what an iterator still has in front of it.
use oxigraph_nova.Prelude.{
  ℕ, suc, ◌≤◌, ◌<◌, ◌≡◌, ◌↔◌, ◌⊎◌, inl, inr, refl, List, [], ◌∷◌, ltb, ◌==◌, if◌then◌else◌, arith,
  length, Bool-cases,
}
use oxigraph_nova.Reasoning.Row.{sorted_insert, sort, dedup, dedup_from}

-- Membership by recursion.
abbrev pub In : {A : Type 0} → A → List A → Type 0
In a [] = ⊥
In a (x ∷ xs) = (a ≡ x) ⊎ In a xs

abbrev pub Above : ℕ → List ℕ → Type 0
Above k [] = Unit
Above k (x ∷ xs) = (k < x) × Above k xs

abbrev pub Ascending : List ℕ → Type 0
Ascending [] = Unit
Ascending (k ∷ ks) = Above k ks × Ascending ks

abbrev pub AllBelow : ℕ → List ℕ → Type 0
AllBelow n [] = Unit
AllBelow n (x ∷ xs) = (x < n) × AllBelow n xs

-- What `seek` leaves.
abbrev pub drop_below : ℕ → List ℕ → List ℕ
drop_below t [] = []
drop_below t (k ∷ ks) = if ltb k t then drop_below t ks else k ∷ ks

pub Above-In : (k : ℕ) (ks : List ℕ) (v : ℕ) → Above k ks → In v ks → k < v
Above-In k [] v a h = absurd h
Above-In k (x ∷ xs) v a h = ground (arith, Above-In k xs v)

pub Above-le : (j k : ℕ) (ks : List ℕ) → j ≤ k → Above k ks → Above j ks
Above-le j k [] h a = tt
Above-le j k (x ∷ xs) h a = (omega arith, Above-le j k xs h a.1)

pub In-drop_below :
    (t : ℕ) (ks : List ℕ) (v : ℕ) → Ascending ks → In v (drop_below t ks) ↔ (In v ks × (t ≤ v))
In-drop_below t [] v a = (λ h. absurd h, λ h. absurd h.0)
In-drop_below t (k ∷ ks) v a = ground (arith, In-drop_below t ks v, Above-In k ks v)

pub Above-drop_below : (k t : ℕ) (ks : List ℕ) → Above k ks → Above k (drop_below t ks)
Above-drop_below k t [] a = tt
Above-drop_below k t (x ∷ xs) a = ground (arith, Above-drop_below k t xs)

pub Ascending-drop_below : (t : ℕ) (ks : List ℕ) → Ascending ks → Ascending (drop_below t ks)
Ascending-drop_below t [] a = tt
Ascending-drop_below t (x ∷ xs) a = ground (arith, Ascending-drop_below t xs)

pub AllBelow-drop_below : (n t : ℕ) (ks : List ℕ) → AllBelow n ks → AllBelow n (drop_below t ks)
AllBelow-drop_below n t [] a = tt
AllBelow-drop_below n t (x ∷ xs) a = ground (arith, AllBelow-drop_below n t xs)

pub drop_below-Above : (k : ℕ) (ks : List ℕ) → Above k ks → drop_below (suc k) ks ≡ ks
drop_below-Above k [] a = refl
drop_below-Above k (x ∷ xs) a = ground arith

pub length-drop_below : (t : ℕ) (ks : List ℕ) → length (drop_below t ks) ≤ length ks
length-drop_below t [] = omega arith
length-drop_below t (x ∷ xs) = ground (arith, length-drop_below t xs)

-- The first key is the least.
pub first_le : (k : ℕ) (ks : List ℕ) (v : ℕ) → Ascending (k ∷ ks) → In v (k ∷ ks) → k ≤ v
first_le k ks v a h = ground (arith, Above-In k ks v)

-- Lists that do not descend, as `sort` leaves them.
abbrev pub AtLeast : ℕ → List ℕ → Type 0
AtLeast k [] = Unit
AtLeast k (x ∷ xs) = (k ≤ x) × AtLeast k xs

abbrev pub Sorted : List ℕ → Type 0
Sorted [] = Unit
Sorted (k ∷ ks) = AtLeast k ks × Sorted ks

AtLeast-sorted_insert :
    (k v : ℕ) (ws : List ℕ) → k ≤ v → AtLeast k ws → AtLeast k (sorted_insert v ws)
unfolding sorted_insert
AtLeast-sorted_insert k v [] h a = (h, tt)
AtLeast-sorted_insert k v (w ∷ ws) h a = ground (arith, AtLeast-sorted_insert k v ws)

AtLeast-le : (j k : ℕ) (ks : List ℕ) → j ≤ k → AtLeast k ks → AtLeast j ks
AtLeast-le j k [] h a = tt
AtLeast-le j k (x ∷ xs) h a = (omega arith, AtLeast-le j k xs h a.1)

Sorted-sorted_insert : (v : ℕ) (ws : List ℕ) → Sorted ws → Sorted (sorted_insert v ws)
unfolding sorted_insert
Sorted-sorted_insert v [] a = (tt, tt)
Sorted-sorted_insert v (w ∷ ws) a =
    ground (arith, Sorted-sorted_insert v ws, AtLeast-sorted_insert w v ws, AtLeast-le v w ws)

pub Sorted-sort : (vs : List ℕ) → Sorted (sort vs)
unfolding sort
Sorted-sort [] = tt
Sorted-sort (v ∷ vs) = Sorted-sorted_insert v (sort vs) (Sorted-sort vs)

In-sorted_insert : (x v : ℕ) (ws : List ℕ) → In x (sorted_insert v ws) ↔ ((x ≡ v) ⊎ In x ws)
unfolding sorted_insert
In-sorted_insert x v [] = (λ h. h, λ h. h)
In-sorted_insert x v (w ∷ ws) = ground (arith, In-sorted_insert x v ws)

pub In-sort : (x : ℕ) (vs : List ℕ) → In x (sort vs) ↔ In x vs
unfolding sort
In-sort x [] = (λ h. h, λ h. h)
In-sort x (v ∷ vs) = ground (arith, In-sort x vs, In-sorted_insert x v (sort vs))

Above-dedup_from :
    (j v : ℕ) (ws : List ℕ) → j < v → AtLeast v ws → Sorted ws → Above j (dedup_from v ws)
unfolding dedup_from
Above-dedup_from j v [] h a s = tt
Above-dedup_from j v (w ∷ ws) h a s = ground (arith, Above-dedup_from j w ws)

Above-dedup_from_self : (v : ℕ) (ws : List ℕ) → AtLeast v ws → Sorted ws → Above v (dedup_from v ws)
unfolding dedup_from
Above-dedup_from_self v [] a s = tt
Above-dedup_from_self v (w ∷ ws) a s = elim (Bool-cases (v == w)) [
  | inl same ↦ let e : w ≡ v = ground arith in rw same (rw e (Above-dedup_from_self v ws a.1 s.1))
  | inr differ ↦ rw differ (ground arith, Above-dedup_from v w ws (ground arith) s.0 s.1)
]

Ascending-dedup_from :
    (v : ℕ) (ws : List ℕ) → AtLeast v ws → Sorted ws → Ascending (dedup_from v ws)
unfolding dedup_from
Ascending-dedup_from v [] a s = tt
Ascending-dedup_from v (w ∷ ws) a s =
    ground (arith, Ascending-dedup_from w ws, Above-dedup_from_self w ws)

pub Ascending-dedup : (vs : List ℕ) → Sorted vs → Ascending (dedup vs)
unfolding dedup
Ascending-dedup [] s = tt
Ascending-dedup (v ∷ vs) s = (Above-dedup_from_self v vs s.0 s.1, Ascending-dedup_from v vs s.0 s.1)

In-dedup_from : (x v : ℕ) (ws : List ℕ) → ((x ≡ v) ⊎ In x (dedup_from v ws)) ↔ ((x ≡ v) ⊎ In x ws)
unfolding dedup_from
In-dedup_from x v [] = (λ h. h, λ h. h)
In-dedup_from x v (w ∷ ws) = ground (arith, In-dedup_from x w ws)

pub In-dedup : (x : ℕ) (vs : List ℕ) → In x (dedup vs) ↔ In x vs
unfolding dedup
In-dedup x [] = (λ h. h, λ h. h)
In-dedup x (v ∷ vs) = In-dedup_from x v vs
