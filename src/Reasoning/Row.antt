-- ===== src/Reasoning/Row.antt =====
-- Triples of term ids, `[u64; 3]`, and what the code calls of the standard library on them:
-- `sort_unstable`, `dedup`, `partition_point` and `BTreeSet::insert`.
pub mod Sets
use oxigraph_nova.Prelude.{
  ℕ, zero, suc, ◌-◌, Bool, false, ◌||◌, ◌&&◌, List, [], ◌∷◌, ltb, leb, ◌==◌, if◌then◌else◌, take,
  drop,
}

pub record Row : Type 0 where
  pub s : ℕ
  pub p : ℕ
  pub o : ℕ

abbrev pub row : ℕ → ℕ → ℕ → Row
row a b c = record { s = a; p = b; o = c }

-- `row[i]`. There is no fourth element: an index past the third panics, and is not met.
abbrev pub cell : Row → ℕ → ℕ
cell r zero = r.s
cell r (suc zero) = r.p
cell r (suc (suc _)) = r.o

-- The order of arrays is lexicographic.
unfoldable pub row_lt : Row → Row → Bool
row_lt a b = ltb a.s b.s || (a.s == b.s && (ltb a.p b.p || (a.p == b.p && ltb a.o b.o)))

unfoldable pub row_eq : Row → Row → Bool
row_eq a b = a.s == b.s && (a.p == b.p && a.o == b.o)

-- `BTreeSet::insert`, on the set's elements in ascending order.
unfoldable pub set_insert : Row → List Row → List Row
unfolding row_lt row_eq
set_insert r [] = r ∷ []
set_insert r (q ∷ qs) =
    if row_lt r q then r ∷ q ∷ qs else if row_eq r q then q ∷ qs else q ∷ set_insert r qs

unfoldable pub set_contains : Row → List Row → Bool
unfolding row_eq
set_contains r [] = false
set_contains r (q ∷ qs) = row_eq r q || set_contains r qs

-- `extend` and `collect`
unfoldable pub set_extend : List Row → List Row → List Row
unfolding set_insert
set_extend set [] = set
set_extend set (r ∷ rs) = set_extend (set_insert r set) rs

unfoldable pub sorted_insert : ℕ → List ℕ → List ℕ
sorted_insert v [] = v ∷ []
sorted_insert v (w ∷ ws) = if leb v w then v ∷ w ∷ ws else w ∷ sorted_insert v ws

unfoldable pub sort : List ℕ → List ℕ
unfolding sorted_insert
sort [] = []
sort (v ∷ vs) = sorted_insert v (sort vs)

unfoldable pub dedup_from : ℕ → List ℕ → List ℕ
dedup_from v [] = []
dedup_from v (w ∷ ws) = let rest = dedup_from w ws in if v == w then rest else w ∷ rest

-- `dedup` drops each element that equals the one before it.
unfoldable pub dedup : List ℕ → List ℕ
unfolding dedup_from
dedup [] = []
dedup (v ∷ vs) = v ∷ dedup_from v vs

-- `xs[lo..hi]`
abbrev pub slice {ℓ} : {A : Type ℓ} → List A → ℕ → ℕ → List A
slice xs lo hi = take (hi - lo) (drop lo xs)

-- The length of the first part, on which the test holds.
abbrev pub partition_point {ℓ} : {A : Type ℓ} → (A → Bool) → List A → ℕ
partition_point test [] = 0
partition_point test (x ∷ xs) = if test x then suc (partition_point test xs) else 0
