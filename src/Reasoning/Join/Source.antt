-- ===== src/Reasoning/Join/Source.antt =====
-- join.rs, `AtomSource`: what the join relies on, for the sources that the code has.
use oxigraph_nova.Prelude.{
  ℕ, suc, ◌+◌, ◌≤◌, ◌≡◌, ◌↔◌, ◌⊎◌, inl, inr, refl, Option, List, [], ◌∷◌, ◌++◌, arith, Bool-cases,
  length, length-append,
}
use oxigraph_nova.Reasoning.Row.{Row, cell, sorted_insert, sort, dedup, dedup_from}
use oxigraph_nova.Reasoning.Keys.{In, AllBelow, Sorted-sort, In-sort, Ascending-dedup, In-dedup}
use oxigraph_nova.Reasoning.SortedVec.{u64_max, row_fits, scan_values, matching}
use oxigraph_nova.Reasoning.Trie.View.{View, UnionOf, View-AllBelow}
use oxigraph_nova.Reasoning.Trie.Scan.{
  HasBound, row_fits-HasBound, IsRows, In-scan_values, join_scan-View, In-AllBelow,
}
use oxigraph_nova.Reasoning.Join.{AtomSource, slice_source, null_source, combined_source}
use oxigraph_nova.Reasoning.Join.Loop.{AllBelow-In}

-- A row of the set with the bound ids in the other places, and `v` in the target's place.
abbrev pub Offered : (Row → Type 0) → Option ℕ → Option ℕ → Option ℕ → ℕ → ℕ → Type 0
Offered M s p o target v = (r : Row) × M r × HasBound s p o target r × (v ≡ cell r target)

-- The scans of a source go over the rows of the set, and meet `n` keys at most.
pub record Serves (source : AtomSource) (M : Row → Type 0) (n : ℕ) : Type 0 where
  pub keys : Option ℕ → Option ℕ → Option ℕ → ℕ → List ℕ
  pub view : (s p o : Option ℕ) (f : ℕ) → View (source s p o f) (keys s p o f)
  pub small : (s p o : Option ℕ) (f : ℕ) → length (keys s p o f) ≤ n
  pub members : (s p o : Option ℕ) (f v : ℕ) → In v (keys s p o f) ↔ Offered M s p o f v

length-sorted_insert : (v : ℕ) (ws : List ℕ) → length (sorted_insert v ws) ≡ suc (length ws)
unfolding sorted_insert
length-sorted_insert v [] = refl
length-sorted_insert v (w ∷ ws) = ground (arith, length-sorted_insert v ws)

length-sort : (vs : List ℕ) → length (sort vs) ≡ length vs
unfolding sort
length-sort [] = refl
length-sort (v ∷ vs) = omega (arith, length-sorted_insert v (sort vs), length-sort vs)

length-dedup_from : (v : ℕ) (ws : List ℕ) → length (dedup_from v ws) ≤ length ws
unfolding dedup_from
length-dedup_from v [] = omega arith
length-dedup_from v (w ∷ ws) = ground (arith, length-dedup_from w ws)

length-dedup : (vs : List ℕ) → length (dedup vs) ≤ length vs
unfolding dedup
length-dedup [] = omega arith
length-dedup (v ∷ vs) = omega (arith, length-dedup_from v vs)

length-matching :
    (s p o : Option ℕ) (f : ℕ) (rows : List Row) → length (matching s p o f rows) ≤ length rows
unfolding matching
length-matching s p o f [] = omega arith
length-matching s p o f (r ∷ rows) = elim (Bool-cases (row_fits s p o f r)) [
  | inl fits ↦ rw fits (omega (arith, length-matching s p o f rows))
  | inr other ↦ rw other (omega (arith, length-matching s p o f rows))
]

length-scan_values :
    (rows : List Row) (s p o : Option ℕ) (f : ℕ) → length (scan_values rows s p o f) ≤ length rows
unfolding scan_values
length-scan_values rows s p o f = omega (
  arith,
  length-dedup (sort (matching s p o f rows)),
  length-sort (matching s p o f rows),
  length-matching s p o f rows,
)

-- A `SliceSource` over rows of ids below the largest 64-bit number serves the set of these rows: a
-- scan meets, in ascending order and once each, the ids that the rows with the bound ids have in the
-- target's place, at most as many as there are rows.
pub slice_source-Serves :
    (rows : List Row) → IsRows rows → Serves (slice_source rows) (λ r. In r rows) (length rows)
unfolding slice_source
slice_source-Serves rows h = record {
  keys = λ s p o f. scan_values rows s p o f;
  view = λ s p o f. join_scan-View rows s p o f h;
  small = λ s p o f. length-scan_values rows s p o f;
  members = λ s p o f v.
      let found = In-scan_values s p o f rows v in
      (
        λ h. let (r, m, e, q) = found.0 h in (r, m, (row_fits-HasBound s p o f r).0 e, q),
        λ (r, m, e, q). found.1 (r, m, (row_fits-HasBound s p o f r).1 e, q),
      );
}

pub null_source-Serves : Serves null_source (λ r. ⊥) 0
unfolding null_source
null_source-Serves = record {
  keys = λ s p o f. [];
  view = λ s p o f. refl;
  small = λ s p o f. omega arith;
  members = λ s p o f v. (λ h. absurd h, λ h. absurd h.1);
}

In-append : (v : ℕ) (xs ys : List ℕ) → In v (xs ++ ys) ↔ (In v xs ⊎ In v ys)
In-append v [] ys = ground arith
In-append v (x ∷ xs) ys = ground (arith, In-append v xs ys)

-- The keys of two iterators, merged.
merged : List ℕ → List ℕ → List ℕ
merged ka kb = dedup (sort (ka ++ kb))

In-merged : (v : ℕ) (ka kb : List ℕ) → In v (merged ka kb) ↔ (In v ka ⊎ In v kb)
unfolding merged
In-merged v ka kb =
    let d = In-dedup v (sort (ka ++ kb)) in
    let s = In-sort v (ka ++ kb) in
    let a = In-append v ka kb in (λ h. a.0 (s.0 (d.0 h)), λ h. d.1 (s.1 (a.1 h)))

merged-UnionOf :
    (ka kb : List ℕ) → AllBelow u64_max ka → AllBelow u64_max kb → UnionOf ka kb (merged ka kb)
unfolding merged
merged-UnionOf ka kb a b = record {
  ascending = Ascending-dedup (sort (ka ++ kb)) (Sorted-sort (ka ++ kb));
  below = In-AllBelow u64_max (merged ka kb) (λ v h. elim ((In-merged v ka kb).0 h) [
    | inl x ↦ AllBelow-In u64_max ka v a x
    | inr y ↦ AllBelow-In u64_max kb v b y
  ]);
  members = λ v. In-merged v ka kb;
}

length-merged : (ka kb : List ℕ) → length (merged ka kb) ≤ length ka + length kb
unfolding merged
length-merged ka kb =
    omega (arith, length-dedup (sort (ka ++ kb)), length-sort (ka ++ kb), length-append ka kb)

-- Where two sources serve two sets of rows, with at most m and n keys in a scan, their
-- `CombinedSource` serves the union of the sets, with at most m + n keys.
pub combined_source-Serves :
    (a b : AtomSource) (M N : Row → Type 0) (m n : ℕ)
    → Serves a M m
    → Serves b N n
    → Serves (combined_source a b) (λ r. M r ⊎ N r) (m + n)
unfolding combined_source
combined_source-Serves a b M N m n x y = record {
  keys = λ s p o f. merged (x.keys s p o f) (y.keys s p o f);
  view = λ s p o f.
      let ka = x.keys s p o f in
      let kb = y.keys s p o f in
      (
        ka,
        kb,
        x.view s p o f,
        y.view s p o f,
        merged-UnionOf ka kb (View-AllBelow (a s p o f) ka (x.view s p o f))
            (View-AllBelow (b s p o f) kb (y.view s p o f)),
      );
  small = λ s p o f.
      omega
        (arith, length-merged (x.keys s p o f) (y.keys s p o f), x.small s p o f, y.small s p o f);
  members = λ s p o f v.
      let both = In-merged v (x.keys s p o f) (y.keys s p o f) in
      (
        λ h. elim (both.0 h) [
          | inl h' ↦ let (r, w, e, q) = (x.members s p o f v).0 h' in (r, inl w, e, q)
          | inr h' ↦ let (r, w, e, q) = (y.members s p o f v).0 h' in (r, inr w, e, q)
        ],
        λ (r, w, e, q). elim w [
          | inl w' ↦ both.1 (inl ((x.members s p o f v).1 (r, w', e, q)))
          | inr w' ↦ both.1 (inr ((y.members s p o f v).1 (r, w', e, q)))
        ],
      );
}
