-- ===== src/Louds/Delta/Laws.antt =====
-- The buffer as a map, and the number of its entries.
use mathlib.Core.Option.{some-injective, none-ne-some}
use oxigraph_nova.Prelude.{
  true-ne-false, ap, ==_iff, ℕ, ◌≤◌, ◌<◌, ◌≡◌, ◌↔◌, ◌⊎◌, inl, inr, refl, sym, ◌∙◌, Bool, true,
  false, none, some, List, [], ◌∷◌, ltb, ◌==◌, if◌then◌else◌, arith, Bool-cases,
}
use oxigraph_nova.Reasoning.Keys.{In}
use oxigraph_nova.Dictionary.Keys.{QuadKey, IsKey, pack_quad}
use oxigraph_nova.Louds.Delta.{Entry, entry, map_insert, get}

abbrev pub AboveKey : ℕ → List Entry → Type 0
AboveKey k [] = Unit
AboveKey k (e ∷ m) = (k < e.key) × AboveKey k m

-- In the order of the keys, each key once.
abbrev pub IsSorted : List Entry → Type 0
IsSorted [] = Unit
IsSorted (e ∷ m) = AboveKey e.key m × IsSorted m

-- A buffer whose keys are in order, once each, and pack quads.
pub record IsDelta (m : List Entry) : Type 0 where
  pub sorted : IsSorted m
  pub keyed : (n : ℕ) (v : Bool) → In (entry n v) m → (k : QuadKey) × IsKey k × (n ≡ pack_quad k)

pub get-map_insert :
    (m : List Entry) (k : ℕ) (v : Bool) (j : ℕ)
    → get (map_insert m k v) j ≡ (if k == j then some v else get m j)
unfolding get map_insert
get-map_insert [] k v j = refl
get-map_insert (e ∷ m) k v j = ground (arith, get-map_insert m k v j)

AboveKey-lt : (i k : ℕ) (m : List Entry) → i < k → AboveKey k m → AboveKey i m
AboveKey-lt i k [] h a = tt
AboveKey-lt i k (e ∷ m) h a = (omega arith, AboveKey-lt i k m h a.1)

AboveKey-map_insert :
    (i : ℕ) (m : List Entry) (k : ℕ) (v : Bool)
    → AboveKey i m
    → i < k
    → AboveKey i (map_insert m k v)
unfolding map_insert
AboveKey-map_insert i [] k v a h = (h, tt)
AboveKey-map_insert i (e ∷ m) k v a h = ground (arith, AboveKey-map_insert i m k v)

pub map_insert-IsSorted :
    (m : List Entry) (k : ℕ) (v : Bool) → IsSorted m → IsSorted (map_insert m k v)
unfolding map_insert
map_insert-IsSorted [] k v s = (tt, tt)
map_insert-IsSorted (e ∷ m) k v s =
    ground
      (arith, map_insert-IsSorted m k v, AboveKey-map_insert e.key m k v, AboveKey-lt k e.key m)

pub get-AboveKey : (k j : ℕ) (m : List Entry) → AboveKey k m → j ≤ k → get m j ≡ none
unfolding get
get-AboveKey k j [] a h = refl
get-AboveKey k j (e ∷ m) a h = ground (arith, get-AboveKey k j m)

entry_eta : (e : Entry) (k : ℕ) (v : Bool) → e.key ≡ k → e.live ≡ v → entry k v ≡ e
entry_eta e k v h g = rw (h, g) refl

-- The entries are what `get` finds.
pub get-In :
    (m : List Entry) (k : ℕ) (v : Bool) → IsSorted m → In (entry k v) m ↔ (get m k ≡ some v)
unfolding get
get-In [] k v s = (λ i. absurd i, λ e. absurd (none-ne-some v e))
get-In (e ∷ m) k v s = elim (Bool-cases (e.key == k)) [
  | inl same ↦
      let here : e.key ≡ k = (==_iff e.key k).0 same in
      let past = get-AboveKey e.key k m s.0 (omega (arith, here)) in
      rw same (
        λ i. elim i [
          | inl g ↦ ap some (ap (λ (z : Entry). z.live) (sym g))
          | inr j ↦ absurd (none-ne-some v (sym past ∙ (get-In m k v s.1).0 j))
        ],
        λ g. inl (entry_eta e k v here (some-injective e.live v g)),
      )
  | inr other ↦
      let away : e.key ≡ k → ⊥ = λ g. true-ne-false (sym ((==_iff e.key k).1 g) ∙ other) in
      rw other (
        λ i. elim i [
          | inl g ↦ absurd (away (ap (λ (z : Entry). z.key) (sym g)))
          | inr j ↦ (get-In m k v s.1).0 j
        ],
        λ g. inr ((get-In m k v s.1).1 g),
      )
]

-- The three outcomes of setting a key before, at or after the first entry.
set_first :
    (e : Entry) (m : List Entry) (k : ℕ) (v : Bool) (n : ℕ) (b same before : Bool)
    → In
        (entry n b)
        (if same then entry k v ∷ m else if before then entry k v ∷ e ∷ m else e ∷ map_insert m k v)
    → (In (entry n b) (map_insert m k v) → (n ≡ k) ⊎ In (entry n b) m)
    → (n ≡ k) ⊎ In (entry n b) (e ∷ m)
set_first e m k v n b true before i rest = elim i [
  | inl here ↦ inl (ap (λ (z : Entry). z.key) here)
  | inr j ↦ inr (inr j)
]
set_first e m k v n b false true i rest = elim i [
  | inl here ↦ inl (ap (λ (z : Entry). z.key) here)
  | inr j ↦ inr j
]
set_first e m k v n b false false i rest = elim i [
  | inl here ↦ inr (inl here)
  | inr j ↦ elim (rest j) [ inl at_k ↦ inl at_k | inr old ↦ inr (inr old) ]
]

pub In-map_insert :
    (m : List Entry) (k : ℕ) (v : Bool) (n : ℕ) (b : Bool)
    → In (entry n b) (map_insert m k v)
    → (n ≡ k) ⊎ In (entry n b) m
unfolding map_insert
In-map_insert [] k v n b i = elim i [ inl e ↦ inl (ap (λ (z : Entry). z.key) e) | inr j ↦ absurd j ]
In-map_insert (e ∷ m) k v n b i =
    set_first e m k v n b (k == e.key) (ltb k e.key) i (In-map_insert m k v n b)
