-- ===== src/Store/Vec.antt =====
-- The standard library's `Vec` methods that the stores call: `contains`, `position` and
-- `swap_remove`, over a type with decidable equality.
use mathlib.Core.Path.{subst}
use mathlib.Core.Option.{some-injective, none-ne-some}
use oxigraph_nova.Prelude.{
  false-ne-true, ℕ, zero, suc, ◌≡◌, ◌↔◌, ◌⊎◌, inl, inr, refl, sym, ap, ◌∙◌, Option, none, some,
  List, [], ◌∷◌, ◌++◌, Bool, true, false, arith, length, get_elem?,
}
use oxigraph_nova.Reasoning.Keys.{In}

-- No element twice.
abbrev pub Nodup : {A : Type 0} → List A → Type 0
Nodup [] = Unit
Nodup (x ∷ xs) = (In x xs → ⊥) × Nodup xs

-- The last element before the others.
unfoldable pub last_first : {A : Type 0} → List A → List A
last_first [] = []
last_first (x ∷ xs) = elim (last_first xs) [ [] ↦ x ∷ [] | l ∷ rest ↦ l ∷ x ∷ rest ]

-- An index out of range panics in the source; the list is left alone here.
unfoldable pub swap_remove : {A : Type 0} → List A → ℕ → List A
unfolding last_first
swap_remove [] i = []
swap_remove (x ∷ xs) zero = last_first xs
swap_remove (x ∷ xs) (suc i) = x ∷ swap_remove xs i

abbrev pub next_place : Option ℕ → Option ℕ
next_place none = none
next_place (some i) = some (suc i)

next_place-none : (p : Option ℕ) → next_place p ≡ none → p ≡ none
next_place-none none h = refl
next_place-none (some i) h = absurd (none-ne-some (suc i) (sym h))

next_place-some :
    (p : Option ℕ) (i : ℕ) → next_place p ≡ some i → (j : ℕ) × (p ≡ some j) × (i ≡ suc j)
next_place-some none i h = absurd (none-ne-some i h)
next_place-some (some j) i h = (j, refl, sym (some-injective (suc j) i h))

module _ {A : Type 0} (eq : (a b : A) → Dec (a ≡ b)) where
  unfoldable pub contains : List A → A → Bool
  contains [] a = false
  contains (x ∷ xs) a = let rest = contains xs a in elim (eq x a) [ yes _ ↦ true | no _ ↦ rest ]

  unfoldable pub position : List A → A → Option ℕ
  position [] a = none
  position (x ∷ xs) a =
      let rest = position xs a in elim (eq x a) [ yes _ ↦ some 0 | no _ ↦ next_place rest ]

  contains-cons :
      (x : A) (xs : List A) (a : A)
      → ((x ≡ a) × (contains (x ∷ xs) a ≡ true))
        ⊎ ((x ≡ a → ⊥) × (contains (x ∷ xs) a ≡ contains xs a))
  unfolding contains
  contains-cons x xs a =
      elim (eq x a)
        as (λ d.
          ((x ≡ a) × (elim d [ yes _ ↦ true | no _ ↦ contains xs a ] ≡ true))
          ⊎ ((x ≡ a → ⊥) × (elim d [ yes _ ↦ true | no _ ↦ contains xs a ] ≡ contains xs a))) [
            | yes e ↦ inl (e, refl)
            | no n ↦ inr (n, refl)
          ]

  position-cons :
      (x : A) (xs : List A) (a : A)
      → ((x ≡ a) × (position (x ∷ xs) a ≡ some 0))
        ⊎ ((x ≡ a → ⊥) × (position (x ∷ xs) a ≡ next_place (position xs a)))
  unfolding position
  position-cons x xs a =
      elim (eq x a)
        as (λ d.
          ((x ≡ a) × (elim d [ yes _ ↦ some 0 | no _ ↦ next_place (position xs a) ] ≡ some 0))
          ⊎ ((x ≡ a → ⊥)
              × (elim d [ yes _ ↦ some 0 | no _ ↦ next_place (position xs a) ]
                  ≡ next_place (position xs a)))) [ yes e ↦ inl (e, refl) | no n ↦ inr (n, refl) ]

  pub In-contains : (xs : List A) (a : A) → (contains xs a ≡ true) ↔ In a xs
  unfolding contains
  In-contains [] a = (λ h. absurd (false-ne-true h), λ h. absurd h)
  In-contains (x ∷ xs) a =
      let rest = In-contains xs a in
      elim (contains-cons x xs a) [
        | inl (e, c) ↦ (λ h. inl (sym e), λ h. c)
        | inr (n, c) ↦ (
          λ h. inr (rest.0 (sym c ∙ h)),
          λ h. elim h [ inl e ↦ absurd (n (sym e)) | inr m ↦ c ∙ rest.1 m ],
        )
      ]

  pub position-none : (xs : List A) (a : A) → position xs a ≡ none → In a xs → ⊥
  position-none [] a h m = m
  position-none (x ∷ xs) a h m = elim (position-cons x xs a) [
    | inl (e, c) ↦ none-ne-some 0 (sym h ∙ c)
    | inr (n, c) ↦ elim m [
      | inl e ↦ n (sym e)
      | inr m' ↦ position-none xs a (next_place-none (position xs a) (sym c ∙ h)) m'
    ]
  ]

  pub position-some :
      (xs : List A) (a : A) (i : ℕ) → position xs a ≡ some i → get_elem? xs i ≡ some a
  unfolding position
  position-some [] a i h = absurd (none-ne-some i h)
  position-some (x ∷ xs) a i h = elim (position-cons x xs a) [
    | inl (e, c) ↦
        let z = some-injective 0 i (sym c ∙ h) in
        subst (λ k. get_elem? (x ∷ xs) k ≡ some a) z (ap some e)
    | inr (n, c) ↦
        let (j, e, z) = next_place-some (position xs a) i (sym c ∙ h) in
        subst (λ k. get_elem? (x ∷ xs) k ≡ some a) (sym z) (position-some xs a j e)
  ]

  -- An element added at the end is found there, if it was not there before.
  pub position-snoc_new :
      (xs : List A) (a : A) → position xs a ≡ none → position (xs ++ a ∷ []) a ≡ some (length xs)
  position-snoc_new [] a h = elim (position-cons a [] a) [
    | inl (e, c) ↦ c
    | inr (n, c) ↦ absurd (n refl)
  ]
  position-snoc_new (x ∷ xs) a h = elim (position-cons x xs a) [
    | inl (e, c) ↦ absurd (none-ne-some 0 (sym h ∙ c))
    | inr (n, c) ↦ elim (position-cons x (xs ++ a ∷ []) a) [
      | inl (e, c') ↦ absurd (n e)
      | inr (n', c') ↦
          c' ∙ ap next_place (position-snoc_new xs a (next_place-none (position xs a) (sym c ∙ h)))
    ]
  ]

  pub position-snoc_old :
      (xs : List A) (a b : A) (i : ℕ) → position xs a ≡ some i → position (xs ++ b ∷ []) a ≡ some i
  unfolding position
  position-snoc_old [] a b i h = absurd (none-ne-some i h)
  position-snoc_old (x ∷ xs) a b i h = elim (position-cons x xs a) [
    | inl (e, c) ↦ elim (position-cons x (xs ++ b ∷ []) a) [
      | inl (e', c') ↦ c' ∙ sym c ∙ h
      | inr (n, c') ↦ absurd (n e)
    ]
    | inr (n, c) ↦ elim (position-cons x (xs ++ b ∷ []) a) [
      | inl (e, c') ↦ absurd (n e)
      | inr (n', c') ↦
          let (j, e, z) = next_place-some (position xs a) i (sym c ∙ h) in
          c' ∙ ap next_place (position-snoc_old xs a b j e) ∙ ap some (sym z)
    ]
  ]

module _ {A : Type 0} where
  pub get_elem?-In : (xs : List A) (i : ℕ) (x : A) → get_elem? xs i ≡ some x → In x xs
  get_elem?-In [] i x h = absurd (none-ne-some x h)
  get_elem?-In (y ∷ ys) zero x h = inl (sym (some-injective y x h))
  get_elem?-In (y ∷ ys) (suc i) x h = inr (get_elem?-In ys i x h)

  at_nil : (v : A) → In v (last_first []) ↔ In v []
  unfolding last_first
  at_nil v = (λ h. h, λ h. h)

  split :
      (x : A) (ys : List A)
      → ((ys ≡ []) × (elim ys [ [] ↦ x ∷ [] | l ∷ rest ↦ l ∷ x ∷ rest ] ≡ x ∷ []))
        ⊎ ((l : A) × (rest : List A) × (ys ≡ l ∷ rest)
            × (elim ys [ [] ↦ x ∷ [] | l ∷ rest ↦ l ∷ x ∷ rest ] ≡ l ∷ x ∷ rest))
  split x [] = inl (refl, refl)
  split x (l ∷ rest) = inr (l, rest, refl, refl)

  last_first-cases :
      (x : A) (xs : List A)
      → ((last_first xs ≡ []) × (last_first (x ∷ xs) ≡ x ∷ []))
        ⊎ ((l : A) × (rest : List A) × (last_first xs ≡ l ∷ rest)
            × (last_first (x ∷ xs) ≡ l ∷ x ∷ rest))
  unfolding last_first
  last_first-cases x xs = split x (last_first xs)

  In-last_first : (v : A) (xs : List A) → In v (last_first xs) ↔ In v xs
  In-last_first v [] = at_nil v
  In-last_first v (x ∷ xs) =
      let rest = In-last_first v xs in
      elim (last_first-cases x xs) [
        | inl (e, f) ↦ (
          λ m. elim (subst (λ z. In v z) f m) [ inl a ↦ inl a | inr b ↦ absurd b ],
          λ m. elim m [
            | inl a ↦ subst (λ z. In v z) (sym f) (inl a)
            | inr b ↦ absurd (subst (λ z. In v z) e (rest.1 b))
          ],
        )
        | inr (l, rs, e, f) ↦ (
          λ m. elim (subst (λ z. In v z) f m) [
            | inl a ↦ inr (rest.0 (subst (λ z. In v z) (sym e) (inl a)))
            | inr (inl a) ↦ inl a
            | inr (inr b) ↦ inr (rest.0 (subst (λ z. In v z) (sym e) (inr b)))
          ],
          λ m.
              subst (λ z. In v z) (sym f)
                (elim m [
                  | inl a ↦ inr (inl a)
                  | inr b ↦ elim (subst (λ z. In v z) e (rest.1 b)) [
                    | inl c ↦ inl c
                    | inr d ↦ inr (inr d)
                  ]
                ]),
        )
      ]

  length-last_first : (xs : List A) → length (last_first xs) ≡ length xs
  unfolding last_first
  length-last_first [] = refl
  length-last_first (x ∷ xs) = elim (last_first-cases x xs) [
    | inl (e, f) ↦ omega (arith, ap length f, ap length e, length-last_first xs)
    | inr (l, rs, e, f) ↦ omega (arith, ap length f, ap length e, length-last_first xs)
  ]

  last_first-Nodup : (xs : List A) → Nodup xs → Nodup (last_first xs)
  unfolding last_first
  last_first-Nodup [] h = tt
  last_first-Nodup (x ∷ xs) h = elim (last_first-cases x xs) [
    | inl (e, f) ↦ subst Nodup (sym f) ((λ m. m), tt)
    | inr (l, rs, e, f) ↦
        let tail = subst Nodup e (last_first-Nodup xs h.1) in
        let absent =
          λ (m : In x (l ∷ rs)). h.0 ((In-last_first x xs).0 (subst (λ z. In x z) (sym e) m)) in
        subst Nodup (sym f) (
          (λ m. elim m [ inl a ↦ absent (inl (sym a)) | inr b ↦ tail.0 b ]),
          ((λ m. absent (inr m)), tail.1),
        )
  ]

  -- On a list with no element twice, `swap_remove` takes out the one at its place.
  pub In-swap_remove :
      (xs : List A) (i : ℕ) (a v : A)
      → Nodup xs
      → get_elem? xs i ≡ some a
      → In v (swap_remove xs i) ↔ (In v xs × (v ≡ a → ⊥))
  unfolding swap_remove
  In-swap_remove [] i a v h e = absurd (none-ne-some a e)
  In-swap_remove (x ∷ xs) zero a v h e =
      let same = some-injective x a e in
      let front = In-last_first v xs in
      (
        λ m. (inr (front.0 m), (λ g. h.0 (subst (λ z. In z xs) (g ∙ sym same) (front.0 m)))),
        λ (m, n). elim m [ inl g ↦ absurd (n (g ∙ same)) | inr m' ↦ front.1 m' ],
      )
  In-swap_remove (x ∷ xs) (suc i) a v h e =
      let rest = In-swap_remove xs i a v h.1 e in
      (
        λ m. elim m [
          | inl g ↦
              (inl g, (λ k. h.0 (subst (λ z. In z xs) (sym (sym g ∙ k)) (get_elem?-In xs i a e))))
          | inr m' ↦ (inr (rest.0 m').0, (rest.0 m').1)
        ],
        λ (m, n). elim m [ inl g ↦ inl g | inr m' ↦ inr (rest.1 (m', n)) ],
      )

  pub swap_remove-Nodup :
      (xs : List A) (i : ℕ) (a : A) → Nodup xs → get_elem? xs i ≡ some a → Nodup (swap_remove xs i)
  unfolding swap_remove
  swap_remove-Nodup [] i a h e = tt
  swap_remove-Nodup (x ∷ xs) zero a h e = last_first-Nodup xs h.1
  swap_remove-Nodup (x ∷ xs) (suc i) a h e =
      ((λ m. h.0 ((In-swap_remove xs i a x h.1 e).0 m).0), swap_remove-Nodup xs i a h.1 e)

  pub length-swap_remove :
      (xs : List A) (i : ℕ) (a : A)
      → get_elem? xs i ≡ some a
      → suc (length (swap_remove xs i)) ≡ length xs
  unfolding swap_remove
  length-swap_remove [] i a e = absurd (none-ne-some a e)
  length-swap_remove (x ∷ xs) zero a e = ap suc (length-last_first xs)
  length-swap_remove (x ∷ xs) (suc i) a e = ap suc (length-swap_remove xs i a e)

  pub In-snoc : (v : A) (xs : List A) (a : A) → In v (xs ++ a ∷ []) ↔ ((v ≡ a) ⊎ In v xs)
  In-snoc v [] a = (
    λ h. elim h [ inl e ↦ inl e | inr m ↦ absurd m ],
    λ h. elim h [ inl e ↦ inl e | inr m ↦ absurd m ],
  )
  In-snoc v (x ∷ xs) a =
      let rest = In-snoc v xs a in
      (
        λ h. elim h [
          | inl e ↦ inr (inl e)
          | inr m ↦ elim (rest.0 m) [ inl e ↦ inl e | inr n ↦ inr (inr n) ]
        ],
        λ h. elim h [
          | inl e ↦ inr (rest.1 (inl e))
          | inr (inl e) ↦ inl e
          | inr (inr n) ↦ inr (rest.1 (inr n))
        ],
      )

  pub Nodup-snoc : (xs : List A) (a : A) → Nodup xs → (In a xs → ⊥) → Nodup (xs ++ a ∷ [])
  Nodup-snoc [] a h n = ((λ m. m), tt)
  Nodup-snoc (x ∷ xs) a h n = (
    (λ m. elim ((In-snoc x xs a).0 m) [ inl e ↦ n (inl (sym e)) | inr m' ↦ h.0 m' ]),
    Nodup-snoc xs a h.1 (λ m. n (inr m)),
  )
