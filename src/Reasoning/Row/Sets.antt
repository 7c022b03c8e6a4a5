-- ===== src/Reasoning/Row/Sets.antt =====
-- A `BTreeSet` of rows, as the ascending list of its elements.
use mathlib.Core.Path.{subst}
use oxigraph_nova.Prelude.{
  true-ne-false, ℕ, suc, ◌≤◌, ◌<◌, ◌≡◌, ◌↔◌, ◌⊎◌, inl, inr, refl, sym, ap, ◌∙◌, List, [], ◌∷◌, true,
  false, if◌then◌else◌, arith, Bool-cases, length,
}
use oxigraph_nova.Reasoning.Row.{Row, row, row_lt, row_eq, set_insert, set_contains, set_extend}
use oxigraph_nova.Reasoning.Keys.{In}

-- Lexicographic order.
abbrev Less : Row → Row → Type 0
Less a b = (a.s < b.s) ⊎ ((a.s ≡ b.s) × ((a.p < b.p) ⊎ ((a.p ≡ b.p) × (a.o < b.o))))

row_lt-Less : (a b : Row) → row_lt a b ≡ true → Less a b
unfolding row_lt
row_lt-Less a b h = ground arith

Less-trans : (a b c : Row) → Less a b → Less b c → Less a c
Less-trans a b c h k = ground arith

Less-irrefl : (a : Row) → Less a a → ⊥
Less-irrefl a h = ground arith

row_of : (q : Row) (x y z : ℕ) → q.s ≡ x → q.p ≡ y → q.o ≡ z → q ≡ row x y z
row_of q x y z e f g = rw (sym e, sym f, sym g) refl

pub row_eq-eq : (a b : Row) → row_eq a b ≡ true → a ≡ b
unfolding row_eq
row_eq-eq a b h = row_of a b.s b.p b.o (ground arith) (ground arith) (ground arith)

row_eq_refl : (a : Row) → row_eq a a ≡ true
unfolding row_eq
row_eq_refl a = ground arith

Less-flip : (a b : Row) → row_lt a b ≡ false → row_eq a b ≡ false → Less b a
unfolding row_lt row_eq
Less-flip a b h k = ground arith

abbrev Above : Row → List Row → Type 0
Above r [] = Unit
Above r (q ∷ qs) = Less r q × Above r qs

-- The elements ascend.
abbrev pub IsRowSet : List Row → Type 0
IsRowSet [] = Unit
IsRowSet (r ∷ rs) = Above r rs × IsRowSet rs

Above-Less : (a b : Row) (rs : List Row) → Less a b → Above b rs → Above a rs
Above-Less a b [] h k = tt
Above-Less a b (r ∷ rs) h k = (Less-trans a b r h k.0, Above-Less a b rs h k.1)

Above-set_insert : (a r : Row) (qs : List Row) → Less a r → Above a qs → Above a (set_insert r qs)
unfolding set_insert
Above-set_insert a r [] h k = (h, tt)
Above-set_insert a r (q ∷ qs) h k = elim (Bool-cases (row_lt r q)) [
  | inl lt ↦ rw lt (h, k)
  | inr ge ↦ elim (Bool-cases (row_eq r q)) [
    | inl same ↦ rw (ge, same) k
    | inr other ↦ rw (ge, other) (k.0, Above-set_insert a r qs h k.1)
  ]
]

pub set_insert-IsRowSet : (r : Row) (qs : List Row) → IsRowSet qs → IsRowSet (set_insert r qs)
unfolding set_insert
set_insert-IsRowSet r [] h = (tt, tt)
set_insert-IsRowSet r (q ∷ qs) h = elim (Bool-cases (row_lt r q)) [
  | inl lt ↦ rw lt ((row_lt-Less r q lt, Above-Less r q qs (row_lt-Less r q lt) h.0), h)
  | inr ge ↦ elim (Bool-cases (row_eq r q)) [
    | inl same ↦ rw (ge, same) h
    | inr other ↦
        rw (ge, other)
          (Above-set_insert q r qs (Less-flip r q ge other) h.0, set_insert-IsRowSet r qs h.1)
  ]
]

pub In-set_insert : (x r : Row) (qs : List Row) → In x (set_insert r qs) ↔ ((x ≡ r) ⊎ In x qs)
unfolding set_insert
In-set_insert x r [] = (λ h. h, λ h. h)
In-set_insert x r (q ∷ qs) = elim (Bool-cases (row_lt r q)) [
  | inl lt ↦ rw lt (λ h. h, λ h. h)
  | inr ge ↦ elim (Bool-cases (row_eq r q)) [
    | inl same ↦
        rw (ge, same) (λ h. inr h, λ h. elim h [ inl e ↦ inl (e ∙ row_eq-eq r q same) | inr m ↦ m ])
    | inr other ↦
        let rest = In-set_insert x r qs in
        rw (ge, other)
          (
            λ h. elim h [
              | inl e ↦ inr (inl e)
              | inr m ↦ elim (rest.0 m) [ inl e ↦ inl e | inr n ↦ inr (inr n) ]
            ],
            λ h. elim h [
              | inl e ↦ inr (rest.1 (inl e))
              | inr (inl e) ↦ inl e
              | inr (inr m) ↦ inr (rest.1 (inr m))
            ],
          )
  ]
]

pub set_extend-IsRowSet : (set rs : List Row) → IsRowSet set → IsRowSet (set_extend set rs)
unfolding set_extend
set_extend-IsRowSet set [] h = h
set_extend-IsRowSet set (r ∷ rs) h =
    set_extend-IsRowSet (set_insert r set) rs (set_insert-IsRowSet r set h)

pub In-set_extend : (x : Row) (set rs : List Row) → In x (set_extend set rs) ↔ (In x set ⊎ In x rs)
unfolding set_extend
In-set_extend x set [] = (λ h. inl h, λ h. elim h [ inl a ↦ a | inr b ↦ absurd b ])
In-set_extend x set (r ∷ rs) =
    let rest = In-set_extend x (set_insert r set) rs in
    let here = In-set_insert x r set in
    (
      λ h. elim (rest.0 h) [
        | inl a ↦ elim (here.0 a) [ inl e ↦ inr (inl e) | inr m ↦ inl m ]
        | inr b ↦ inr (inr b)
      ],
      λ h. elim h [
        | inl a ↦ rest.1 (inl (here.1 (inr a)))
        | inr (inl e) ↦ rest.1 (inl (here.1 (inl e)))
        | inr (inr b) ↦ rest.1 (inr b)
      ],
    )

pub In-set_contains : (x : Row) (qs : List Row) → (set_contains x qs ≡ true) ↔ In x qs
unfolding set_contains
In-set_contains x [] = (λ h. ground arith, λ h. absurd h)
In-set_contains x (q ∷ qs) =
    let rest = In-set_contains x qs in
    elim (Bool-cases (row_eq x q)) [
      | inl same ↦ rw same (λ h. inl (row_eq-eq x q same), λ h. refl)
      | inr other ↦ rw other (
        λ h. inr (rest.0 h),
        λ h. elim h [
          | inl e ↦
              absurd
                (true-ne-false (sym (subst (λ z. row_eq x z ≡ true) e (row_eq_refl x)) ∙ other))
          | inr m ↦ rest.1 m
        ],
      )
    ]

pub In_or_not : (x : Row) (qs : List Row) → In x qs ⊎ (In x qs → ⊥)
In_or_not x qs = elim (Bool-cases (set_contains x qs)) [
  | inl yes_in ↦ inl ((In-set_contains x qs).0 yes_in)
  | inr not_in ↦ inr (λ h. true-ne-false (sym ((In-set_contains x qs).1 h) ∙ not_in))
]

-- The list with the first occurrence of the row left out.
remove : Row → List Row → List Row
remove x [] = []
remove x (q ∷ qs) = let rest = remove x qs in if row_eq x q then qs else q ∷ rest

length-remove : (x : Row) (qs : List Row) → In x qs → length qs ≡ suc (length (remove x qs))
unfolding remove
length-remove x [] h = absurd h
length-remove x (q ∷ qs) h = elim (Bool-cases (row_eq x q)) [
  | inl same ↦ rw same refl
  | inr other ↦ rw other (elim h [
    | inl e ↦
        absurd (true-ne-false (sym (subst (λ z. row_eq x z ≡ true) e (row_eq_refl x)) ∙ other))
    | inr m ↦ ap suc (length-remove x qs m)
  ])
]

In-remove : (x y : Row) (qs : List Row) → (x ≡ y → ⊥) → In y qs → In y (remove x qs)
unfolding remove
In-remove x y [] n h = h
In-remove x y (q ∷ qs) n h = elim (Bool-cases (row_eq x q)) [
  | inl same ↦ rw same (elim h [ inl e ↦ absurd (n (row_eq-eq x q same ∙ sym e)) | inr m ↦ m ])
  | inr other ↦ rw other (elim h [ inl e ↦ inl e | inr m ↦ inr (In-remove x y qs n m) ])
]

Above-In : (r x : Row) (qs : List Row) → Above r qs → In x qs → Less r x
Above-In r x [] a h = absurd h
Above-In r x (q ∷ qs) a (inl e) = subst (λ z. Less r z) (sym e) a.0
Above-In r x (q ∷ qs) a (inr m) = Above-In r x qs a.1 m

-- A set inside a list is no longer than it.
pub length-IsRowSet :
    (set qs : List Row) → IsRowSet set → ((x : Row) → In x set → In x qs) → length set ≤ length qs
length-IsRowSet [] qs h sub = omega arith
length-IsRowSet (r ∷ rs) qs h sub =
    let shorter = length-IsRowSet rs (remove r qs) h.1 (λ x m.
      In-remove r x qs (λ e. Less-irrefl r (subst (λ z. Less r z) (sym e) (Above-In r x rs h.0 m)))
        (sub x (inr m))) in
    omega (arith, shorter, length-remove r qs (sub r (inl refl)))

-- A set with a further element is longer.
pub length-set_insert_new :
    (r : Row) (set : List Row) → (In r set → ⊥) → length (set_insert r set) ≡ suc (length set)
unfolding set_insert
length-set_insert_new r [] n = refl
length-set_insert_new r (q ∷ qs) n = elim (Bool-cases (row_lt r q)) [
  | inl lt ↦ rw lt refl
  | inr ge ↦ elim (Bool-cases (row_eq r q)) [
    | inl same ↦ absurd (n (inl (row_eq-eq r q same)))
    | inr other ↦ rw (ge, other) (ap suc (length-set_insert_new r qs (λ m. n (inr m))))
  ]
]

length-set_insert : (r : Row) (set : List Row) → length set ≤ length (set_insert r set)
unfolding set_insert
length-set_insert r [] = omega arith
length-set_insert r (q ∷ qs) = elim (Bool-cases (row_lt r q)) [
  | inl lt ↦ rw lt (omega arith)
  | inr ge ↦ elim (Bool-cases (row_eq r q)) [
    | inl same ↦ rw (ge, same) (omega arith)
    | inr other ↦ rw (ge, other) (omega (arith, length-set_insert r qs))
  ]
]

pub length-set_extend : (set rs : List Row) → length set ≤ length (set_extend set rs)
unfolding set_extend
length-set_extend set [] = omega arith
length-set_extend set (r ∷ rs) =
    omega (arith, length-set_insert r set, length-set_extend (set_insert r set) rs)

pub length-set_extend_new :
    (set : List Row) (r : Row) (rs : List Row)
    → (In r set → ⊥)
    → length set < length (set_extend set (r ∷ rs))
unfolding set_extend
length-set_extend_new set r rs n =
    omega (arith, length-set_insert_new r set n, length-set_extend (set_insert r set) rs)
