-- ===== src/Reasoning/SortedVec/View.antt =====
-- sorted_vec_trie.rs: the keys that a `SortedVecTrie` has in front of it, at any depth, and what its
-- operations do to them.
use oxigraph_nova.Prelude.{
  ℕ, zero, suc, ◌+◌, ◌-◌, ◌≤◌, ◌<◌, ◌≡◌, ◌↔◌, ◌⊎◌, inl, inr, refl, ap, ◌∙◌, List, [], ◌∷◌, Bool,
  true, false, ltb, leb, arith, drop, length, map, Bool-cases, length-map, length-take_le,
  length-drop, get_or-drop, get_or-take, get_or-map, drop-cons,
}
use oxigraph_nova.Reasoning.Row.{Row, row, cell, slice, partition_point}
use oxigraph_nova.Reasoning.Keys.{
  drop_below-Above, In, Ascending, AllBelow, drop_below, Sorted, AtLeast, In-drop_below,
  Ascending-drop_below, AllBelow-drop_below, first_le,
}
use oxigraph_nova.Reasoning.SortedVec.{
  SortedVecTrie, u64_max, val_at, lower_bound, key, at_end, seek, advance,
}

-- The column's values in the rows of the range.
abbrev pub cells : SortedVecTrie → List ℕ
cells t = map (λ r. cell r t.col) (slice t.rows t.lo t.hi)

pub record View (t : SortedVecTrie) (ks : List ℕ) : Type 0 where
  pub hi_le : t.hi ≤ length t.rows
  pub pos_le : t.lo + t.pos ≤ t.hi
  pub sorted : Sorted (cells t)
  pub ascending : Ascending ks
  pub below : AllBelow u64_max ks
  pub members : (v : ℕ) → In v ks ↔ In v (drop t.pos (cells t))

AtLeast-In : (k : ℕ) (vs : List ℕ) (v : ℕ) → AtLeast k vs → In v vs → k ≤ v
AtLeast-In k [] v a h = absurd h
AtLeast-In k (x ∷ xs) v a h = ground (arith, AtLeast-In k xs v)

In-drop : (p : ℕ) (vs : List ℕ) (v : ℕ) → In v (drop p vs) → In v vs
In-drop zero vs v h = h
In-drop (suc p) [] v h = h
In-drop (suc p) (x ∷ xs) v h = inr (In-drop p xs v h)

Sorted-drop : (p : ℕ) (vs : List ℕ) → Sorted vs → Sorted (drop p vs)
Sorted-drop zero vs s = s
Sorted-drop (suc p) [] s = s
Sorted-drop (suc p) (x ∷ xs) s = Sorted-drop p xs s.1

-- What stands before a position is at most what stands behind it.
In_or_le :
    (p : ℕ) (vs : List ℕ) (v w : ℕ)
    → Sorted vs
    → In v vs
    → In w (drop p vs)
    → In v (drop p vs) ⊎ (v ≤ w)
In_or_le zero vs v w s h k = inl h
In_or_le (suc p) [] v w s h k = absurd h
In_or_le (suc p) (x ∷ xs) v w s h k =
    ground (arith, In_or_le p xs v w, In-drop p xs w k, AtLeast-In x xs w)

In-drop_below-Sorted :
    (t : ℕ) (vs : List ℕ) (v : ℕ) → Sorted vs → In v (drop_below t vs) ↔ (In v vs × (t ≤ v))
In-drop_below-Sorted t [] v s = (λ h. absurd h, λ h. absurd h.0)
In-drop_below-Sorted t (x ∷ xs) v s = ground (arith, In-drop_below-Sorted t xs v, AtLeast-In x xs v)

drop-partition_point :
    (t : ℕ) (rows : List Row) (f : Row → ℕ)
    → drop (partition_point (λ r. ltb (f r) t) rows) (map f rows) ≡ drop_below t (map f rows)
drop-partition_point t [] f = refl
drop-partition_point t (r ∷ rows) f = ground (arith, drop-partition_point t rows f)

partition_point-le : (p : Row → Bool) (rows : List Row) → partition_point p rows ≤ length rows
partition_point-le p [] = omega arith
partition_point-le p (r ∷ rows) = ground (arith, partition_point-le p rows)

pos_lt : (p : ℕ) (vs : List ℕ) (v : ℕ) → In v (drop p vs) → p < length vs
pos_lt zero [] v h = absurd h
pos_lt zero (x ∷ vs) v h = omega arith
pos_lt (suc p) [] v h = absurd h
pos_lt (suc p) (x ∷ vs) v h = omega (arith, pos_lt p vs v h)

module _ (t : SortedVecTrie) {ks : List ℕ} (view : View t ks) where
  open view use {hi_le, pos_le, sorted, ascending, below, members}

  length-slice : length (slice t.rows t.lo t.hi) ≡ t.hi - t.lo
  length-slice =
      length-take_le (t.hi - t.lo) (drop t.lo t.rows) (omega (arith, length-drop t.lo t.rows))

  length-cells : length (cells t) ≡ t.hi - t.lo
  length-cells = length-map (slice t.rows t.lo t.hi) (λ r. cell r t.col) ∙ length-slice

  -- The value under the cursor heads what is left.
  remaining_lem : t.lo + t.pos < t.hi → drop t.pos (cells t) ≡ key t ∷ drop (suc t.pos) (cells t)
  unfolding key
  remaining_lem h =
      let col = λ (r : Row). cell r t.col in
      let none_row = row 0 0 0 in
      drop-cons t.pos (cells t) (col none_row) (omega (arith, length-cells))
      ∙ ap (λ k. k ∷ drop (suc t.pos) (cells t))
          (get_or-map col t.pos (slice t.rows t.lo t.hi) none_row
            ∙ ap col (
                get_or-take (t.hi - t.lo) t.pos (drop t.lo t.rows) none_row (omega arith)
                ∙ get_or-drop t.lo t.pos t.rows none_row))

  In-key : t.lo + t.pos < t.hi → In (key t) ks
  In-key h = (members (key t)).1 (rw (remaining_lem h) (inl refl))

  in_range : (v : ℕ) → In v ks → t.lo + t.pos < t.hi
  in_range v h = omega (arith, pos_lt t.pos (cells t) v ((members v).0 h), length-cells)

  key_le : (v : ℕ) → In v ks → key t ≤ v
  key_le v h =
      let s = rw (remaining_lem (in_range v h)) at (Sorted-drop t.pos (cells t) sorted) in
      let m = rw (remaining_lem (in_range v h)) at ((members v).0 h) in
      ground (arith, AtLeast-In (key t) (drop (suc t.pos) (cells t)) v)

pub at_end-View :
    (t : SortedVecTrie) (ks : List ℕ) → View t ks → at_end t ≡ elim ks [ [] ↦ true | _ ∷ _ ↦ false ]
unfolding at_end
at_end-View t [] view = ground (arith, In-key t view)
at_end-View t (k ∷ ks) view = ground (arith, in_range t view k (inl refl))

pub key-View : (t : SortedVecTrie) (k : ℕ) (ks : List ℕ) → View t (k ∷ ks) → key t ≡ k
key-View t k ks view = omega (
  arith,
  key_le t view k (inl refl),
  first_le k ks (key t) view.ascending (In-key t view (in_range t view k (inl refl))),
)

module _ (t : SortedVecTrie) (k : ℕ) (ks : List ℕ) (target : ℕ) (view : View t (k ∷ ks)) where
  moved_pos :
      lower_bound t target - t.lo
      ≡ partition_point (λ r. ltb (cell r t.col) target) (slice t.rows t.lo t.hi)
  unfolding lower_bound
  moved_pos = omega arith

  moved_members :
      k < target → (v : ℕ) → In v (drop_below target (k ∷ ks)) ↔ In v (drop_below target (cells t))
  moved_members h v =
      let keys = In-drop_below target (k ∷ ks) v view.ascending in
      let all = In-drop_below-Sorted target (cells t) v view.sorted in
      let here = view.members v in
      let first = (view.members k).0 (inl refl) in
      ground (
        arith,
        keys.0,
        keys.1,
        all.0,
        all.1,
        here.0,
        here.1,
        In-drop t.pos (cells t) v,
        λ (m : In v (cells t)). In_or_le t.pos (cells t) v k view.sorted m first,
      )

  moved :
      k < target
      → View (record t { pos = lower_bound t target - t.lo }) (drop_below target (k ∷ ks))
  moved h = rw moved_pos (record {
    hi_le = view.hi_le;
    pos_le = omega (
      arith,
      view.pos_le,
      partition_point-le (λ r. ltb (cell r t.col) target) (slice t.rows t.lo t.hi),
      length-slice t view,
    );
    sorted = view.sorted;
    ascending = Ascending-drop_below target (k ∷ ks) view.ascending;
    below = AllBelow-drop_below u64_max target (k ∷ ks) view.below;
    members = λ v.
        rw (drop-partition_point target (slice t.rows t.lo t.hi) (λ r. cell r t.col))
          (moved_members h v);
  })

-- `seek` drops the keys below its target, and nothing else.
pub seek-View :
    (t : SortedVecTrie) (ks : List ℕ) (target : ℕ)
    → View t ks
    → View (seek t target) (drop_below target ks)
unfolding seek
seek-View t [] target view = rw (at_end-View t [] view) view
seek-View t (k ∷ ks) target view =
    let e : val_at t (t.lo + t.pos) ≡ k = unfold key in key-View t k ks view in
    rw (at_end-View t (k ∷ ks) view, e)
      (elim (Bool-cases (leb target k)) [
        | inl stay ↦ let n : ltb k target ≡ false = ground arith in rw (stay, n) view
        | inr move ↦ rw move (moved t k ks target view (ground arith))
      ])

-- `advance` drops the first key.
pub advance-View : (t : SortedVecTrie) (k : ℕ) (ks : List ℕ) → View t (k ∷ ks) → View (advance t) ks
unfolding advance
advance-View t k ks view =
    let n : ltb k u64_max ≡ true = ground arith in
    let b : ltb k (suc k) ≡ true = ground arith in
    let moved_on = seek-View t (k ∷ ks) (suc k) view in
    rw (at_end-View t (k ∷ ks) view, key-View t k ks view, n)
      (rw (b, drop_below-Above k ks view.ascending.0) at moved_on)
