-- ===== src/Reasoning/Trie/Scan.antt =====
-- sorted_vec_trie.rs: the iterator that `join_scan` makes over a slice of rows.
use oxigraph_nova.Prelude.{
  ℕ, zero, suc, ◌-◌, ◌<◌, ◌≡◌, ◌↔◌, ◌⊎◌, ◌&&◌, both_true, inl, inr, refl, sym, ap, ◌∙◌, Option,
  none, some, List, [], ◌∷◌, true, arith, Bool-cases, map, length, take,
}
use oxigraph_nova.Reasoning.Row.{Row, cell, sort}
use oxigraph_nova.Reasoning.Keys.{
  In, Ascending, AllBelow, Sorted, AtLeast, Sorted-sort, In-sort, Ascending-dedup, In-dedup, Above,
}
use oxigraph_nova.Reasoning.SortedVec.{
  u64_max, row_fits, field_fits, matching, scan_values, at_column, set_cell,
}
use oxigraph_nova.Reasoning.SortedVec.View as Vec
use oxigraph_nova.Reasoning.Trie.{join_scan, from_values}
use oxigraph_nova.Reasoning.Trie.View.{View}

-- Every id of the row is a key, below the largest number.
abbrev pub IsRow : Row → Type 0
IsRow r = (r.s < u64_max) × (r.p < u64_max) × (r.o < u64_max)

abbrev pub IsRows : List Row → Type 0
IsRows [] = Unit
IsRows (r ∷ rs) = IsRow r × IsRows rs

-- The row has the bound id in this place, unless nothing is bound there or it is the target's.
abbrev pub CellFits : ℕ → Option ℕ → ℕ → Row → Type 0
CellFits i none target r = Unit
CellFits i (some v) target r = (i ≡ target) ⊎ (cell r i ≡ v)

-- The row has the bound ids in the places other than the target's.
abbrev pub HasBound : Option ℕ → Option ℕ → Option ℕ → ℕ → Row → Type 0
HasBound s p o target r = CellFits 0 s target r × CellFits 1 p target r × CellFits 2 o target r

field_fits-CellFits :
    (i : ℕ) (bound : Option ℕ) (target : ℕ) (r : Row)
    → (field_fits i bound target r ≡ true) ↔ CellFits i bound target r
field_fits-CellFits i none target r = (λ h. tt, λ h. ground arith)
field_fits-CellFits i (some v) target r = ground arith

pub row_fits-HasBound :
    (s p o : Option ℕ) (target : ℕ) (r : Row)
    → (row_fits s p o target r ≡ true) ↔ HasBound s p o target r
unfolding row_fits
row_fits-HasBound s p o target r =
    let subject = field_fits-CellFits 0 s target r in
    let predicate = field_fits-CellFits 1 p target r in
    let object = field_fits-CellFits 2 o target r in
    let outer =
      both_true (field_fits 0 s target r) (field_fits 1 p target r && field_fits 2 o target r) in
    let inner = both_true (field_fits 1 p target r) (field_fits 2 o target r) in
    (
      λ h.
          let tail = inner.0 (outer.0 h).1 in
          (subject.0 (outer.0 h).0, predicate.0 tail.0, object.0 tail.1),
      λ (a, b, c). outer.1 (subject.1 a, inner.1 (predicate.1 b, object.1 c)),
    )

-- A row of the slice with the bound ids, and `v` in the target's place.
abbrev pub Witnessed : List Row → Option ℕ → Option ℕ → Option ℕ → ℕ → ℕ → Type 0
Witnessed rows s p o target v =
    (r : Row) × In r rows × (row_fits s p o target r ≡ true) × (v ≡ cell r target)

cell_lt : (r : Row) (i : ℕ) → IsRow r → cell r i < u64_max
cell_lt r zero h = h.0
cell_lt r (suc zero) h = h.1
cell_lt r (suc (suc i)) h = h.2

pub In-AllBelow : (n : ℕ) (ks : List ℕ) → ((v : ℕ) → In v ks → v < n) → AllBelow n ks
In-AllBelow n [] h = tt
In-AllBelow n (k ∷ ks) h = (h k (inl refl), In-AllBelow n ks (λ v m. h v (inr m)))

module _ (s p o : Option ℕ) (target : ℕ) where
  In-matching :
      (rows : List Row) (v : ℕ) → In v (matching s p o target rows) → Witnessed rows s p o target v
  unfolding matching
  In-matching [] v h = absurd h
  In-matching (r ∷ rs) v h = elim (Bool-cases (row_fits s p o target r)) [
    | inl fits ↦ elim (rw fits at h) [
      | inl here ↦ (r, inl refl, fits, here)
      | inr rest ↦ let (q, m, f, e) = In-matching rs v rest in (q, inr m, f, e)
    ]
    | inr other ↦ let (q, m, f, e) = In-matching rs v (rw other at h) in (q, inr m, f, e)
  ]

  matching-In :
      (rows : List Row) (v : ℕ) → Witnessed rows s p o target v → In v (matching s p o target rows)
  unfolding matching
  matching-In [] v (r, m, f, e) = absurd m
  matching-In (q ∷ qs) v (r, inl m, f, e) =
      let fits : row_fits s p o target q ≡ true = ap (row_fits s p o target) (sym m) ∙ f in
      rw fits (inl (e ∙ ap (λ x. cell x target) m))
  matching-In (q ∷ qs) v (r, inr m, f, e) =
      let rest = matching-In qs v (r, m, f, e) in
      elim (Bool-cases (row_fits s p o target q)) [
        | inl fits ↦ rw fits (inr rest)
        | inr other ↦ rw other rest
      ]

  -- The keys of the scan are the ids that the rows with the bound ids have in the target's place.
  pub In-scan_values :
      (rows : List Row) (v : ℕ)
      → In v (scan_values rows s p o target) ↔ Witnessed rows s p o target v
  unfolding scan_values
  In-scan_values rows v =
      let values = matching s p o target rows in
      let d = In-dedup v (sort values) in
      let w = In-sort v values in
      (λ h. In-matching rows v (w.0 (d.0 h)), λ h. d.1 (w.1 (matching-In rows v h)))

  Ascending-scan_values : (rows : List Row) → Ascending (scan_values rows s p o target)
  unfolding scan_values
  Ascending-scan_values rows =
      Ascending-dedup (sort (matching s p o target rows)) (Sorted-sort (matching s p o target rows))

lt-Witnessed :
    (rows : List Row) (s p o : Option ℕ) (target v : ℕ)
    → IsRows rows
    → Witnessed rows s p o target v
    → v < u64_max
lt-Witnessed [] s p o target v h (r, m, f, e) = absurd m
lt-Witnessed (q ∷ qs) s p o target v h (r, inl m, f, e) = rw e (rw m (cell_lt q target h.0))
lt-Witnessed (q ∷ qs) s p o target v h (r, inr m, f, e) =
    lt-Witnessed qs s p o target v h.1 (r, m, f, e)

cell-set_cell : (target v : ℕ) → cell (set_cell target v) target ≡ v
unfolding set_cell
cell-set_cell zero v = refl
cell-set_cell (suc zero) v = refl
cell-set_cell (suc (suc i)) v = refl

take-length : {A : Type 0} → (xs : List A) → take (length xs) xs ≡ xs
take-length [] = refl
take-length (x ∷ xs) = ap (λ t. x ∷ t) (take-length xs)

map_cells : (target : ℕ) (vs : List ℕ) → map (λ r. cell r target) (map (set_cell target) vs) ≡ vs
map_cells target [] = refl
map_cells target (v ∷ vs) = rw (cell-set_cell target v, map_cells target vs)

cells-at_column : (target : ℕ) (vs : List ℕ) → Vec.cells (at_column vs target) ≡ vs
unfolding at_column
cells-at_column target vs =
    let n : length (map (set_cell target) vs) - 0 ≡ length (map (set_cell target) vs) =
      omega arith in
    ap (λ k. map (λ r. cell r target) (take k (map (set_cell target) vs))) n
    ∙ ap (map (λ r. cell r target)) (take-length (map (set_cell target) vs))
    ∙ map_cells target vs

Above-AtLeast : (k : ℕ) (ks : List ℕ) → Above k ks → AtLeast k ks
Above-AtLeast k [] h = tt
Above-AtLeast k (x ∷ xs) h = (omega arith, Above-AtLeast k xs h.1)

Ascending-Sorted : (ks : List ℕ) → Ascending ks → Sorted ks
Ascending-Sorted [] h = tt
Ascending-Sorted (k ∷ ks) h = (Above-AtLeast k ks h.0, Ascending-Sorted ks h.1)

at_column-View :
    (vs : List ℕ) (target : ℕ)
    → Ascending vs
    → AllBelow u64_max vs
    → Vec.View (at_column vs target) vs
unfolding at_column
at_column-View vs target a b = record {
  hi_le = omega arith;
  pos_le = omega arith;
  sorted = rw (cells-at_column target vs) (Ascending-Sorted vs a);
  ascending = a;
  below = b;
  members = λ v. rw (cells-at_column target vs) (λ h. h, λ h. h);
}

from_values-View :
    (vs : List ℕ) (target : ℕ)
    → Ascending vs
    → AllBelow u64_max vs
    → View (from_values vs target) vs
unfolding from_values
from_values-View [] target a b = refl
from_values-View (v ∷ vs) target a b = at_column-View (v ∷ vs) target a b

-- A scan starts with all its keys in front of it.
pub join_scan-View :
    (rows : List Row) (s p o : Option ℕ) (target : ℕ)
    → IsRows rows
    → View (join_scan rows s p o target) (scan_values rows s p o target)
unfolding join_scan
join_scan-View rows s p o target h =
    from_values-View (scan_values rows s p o target) target
      (Ascending-scan_values s p o target rows)
      (In-AllBelow u64_max (scan_values rows s p o target)
        (λ v m. lt-Witnessed rows s p o target v h ((In-scan_values s p o target rows v).0 m)))
