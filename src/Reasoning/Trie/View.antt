-- ===== src/Reasoning/Trie/View.antt =====
-- The contract of `TrieIterator` (crates/core/nova-core/src/trie.rs) for every iterator that the
-- reasoner makes: which keys it still has, and what each operation does to them.
use oxigraph_nova.Prelude.{
  ℕ, suc, ◌≡◌, ◌↔◌, ◌⊎◌, inl, inr, refl, ap, List, [], ◌∷◌, Bool, true, false, ltb, ◌&&◌,
  if◌then◌else◌, arith, min,
}
use oxigraph_nova.Reasoning.Keys.{
  In, Ascending, AllBelow, drop_below, drop_below-Above, In-drop_below, Ascending-drop_below,
  AllBelow-drop_below, first_le,
}
use oxigraph_nova.Reasoning.SortedVec.{u64_max}
use oxigraph_nova.Reasoning.SortedVec.View as Vec
use oxigraph_nova.Reasoning.Trie.{
  TrieIter, exhausted, sorted_vec, union, at_end, key, seek, advance,
}

abbrev pub is_nil : {A : Type 0} → List A → Bool
is_nil [] = true
is_nil (_ ∷ _) = false

-- `ks` has the keys of both lists, each once, in order.
pub record UnionOf (ka kb ks : List ℕ) : Type 0 where
  pub ascending : Ascending ks
  pub below : AllBelow u64_max ks
  pub members : (v : ℕ) → In v ks ↔ (In v ka ⊎ In v kb)

-- The keys that an iterator has in front of it, all below the largest 64-bit number.
abbrev pub View : TrieIter → List ℕ → Type 0
View exhausted ks = ks ≡ []
View (sorted_vec t) ks = Vec.View t ks
View (union a b) ks = (ka : List ℕ) × (kb : List ℕ) × View a ka × View b kb × UnionOf ka kb ks

pub View-Ascending : (i : TrieIter) (ks : List ℕ) → View i ks → Ascending ks
View-Ascending exhausted ks v = rw v tt
View-Ascending (sorted_vec t) ks v = v.ascending
View-Ascending (union a b) ks v = v.4.ascending

pub View-AllBelow : (i : TrieIter) (ks : List ℕ) → View i ks → AllBelow u64_max ks
View-AllBelow exhausted ks v = rw v tt
View-AllBelow (sorted_vec t) ks v = v.below
View-AllBelow (union a b) ks v = v.4.below

is_nil-UnionOf : (ka kb ks : List ℕ) → UnionOf ka kb ks → (is_nil ka && is_nil kb) ≡ is_nil ks
is_nil-UnionOf [] [] [] u = refl
is_nil-UnionOf [] [] (k ∷ ks) u = ground (arith, u.members k)
is_nil-UnionOf [] (b ∷ kb) [] u = ground (arith, u.members b)
is_nil-UnionOf [] (b ∷ kb) (k ∷ ks) u = refl
is_nil-UnionOf (a ∷ ka) kb [] u = ground (arith, u.members a)
is_nil-UnionOf (a ∷ ka) kb (k ∷ ks) u = refl

pub at_end-View : (i : TrieIter) (ks : List ℕ) → View i ks → at_end i ≡ is_nil ks
unfolding at_end
at_end-View exhausted ks v = rw v
at_end-View (sorted_vec t) [] v = Vec.at_end-View t [] v
at_end-View (sorted_vec t) (k ∷ ks) v = Vec.at_end-View t (k ∷ ks) v
at_end-View (union a b) ks (ka, kb, va, vb, u) =
    rw (at_end-View a ka va, at_end-View b kb vb) (is_nil-UnionOf ka kb ks u)

-- The least key of a union is the lesser of the two first keys.
key-UnionOf :
    (ka kb : List ℕ) (k : ℕ) (ks : List ℕ) (x y : ℕ)
    → UnionOf ka kb (k ∷ ks)
    → Ascending ka
    → Ascending kb
    → ((a : ℕ) (rest : List ℕ) → ka ≡ a ∷ rest → x ≡ a)
    → ((b : ℕ) (rest : List ℕ) → kb ≡ b ∷ rest → y ≡ b)
    → (if is_nil ka then (if is_nil kb then 0 else y) else (if is_nil kb then x else min x y)) ≡ k
key-UnionOf [] [] k ks x y u sa sb ha hb = ground (arith, u.members k)
key-UnionOf [] (b ∷ kb) k ks x y u sa sb ha hb =
    let first = first_le k ks b u.ascending in
    let other = first_le b kb k sb in
    ground (arith, hb b kb refl, u.members k, u.members b, first, other)
key-UnionOf (a ∷ ka) [] k ks x y u sa sb ha hb =
    let first = first_le k ks a u.ascending in
    let other = first_le a ka k sa in
    ground (arith, ha a ka refl, u.members k, u.members a, first, other)
key-UnionOf (a ∷ ka) (b ∷ kb) k ks x y u sa sb ha hb =
    let below_a = first_le k ks a u.ascending ((u.members a).1 (inl (inl refl))) in
    let below_b = first_le k ks b u.ascending ((u.members b).1 (inr (inl refl))) in
    let from_a = first_le a ka k sa in
    let from_b = first_le b kb k sb in
    elim ((u.members k).0 (inl refl)) [
      | inl ina ↦ rw (ha a ka refl, hb b kb refl) (omega (arith, below_a, below_b, from_a ina))
      | inr inb ↦ rw (ha a ka refl, hb b kb refl) (omega (arith, below_a, below_b, from_b inb))
    ]

-- For every iterator that has a key in front of it, and only keys below the largest 64-bit number,
-- `key` is the first of these, which for a union is the lesser of its sides' keys.
pub key-View : (i : TrieIter) (k : ℕ) (ks : List ℕ) → View i (k ∷ ks) → key i ≡ k
unfolding key
key-View exhausted k ks v = ground (arith, ap is_nil v)
key-View (sorted_vec t) k ks v = Vec.key-View t k ks v
key-View (union a b) k ks (ka, kb, va, vb, u) =
    rw (at_end-View a ka va, at_end-View b kb vb)
      (key-UnionOf ka kb k ks (key a) (key b) u (View-Ascending a ka va) (View-Ascending b kb vb)
        (λ x rest e. key-View a x rest (rw e at va)) (λ x rest e. key-View b x rest (rw e at vb)))

UnionOf-drop_below :
    (ka kb ks : List ℕ) (target : ℕ)
    → Ascending ka
    → Ascending kb
    → UnionOf ka kb ks
    → UnionOf (drop_below target ka) (drop_below target kb) (drop_below target ks)
UnionOf-drop_below ka kb ks target sa sb u = record {
  ascending = Ascending-drop_below target ks u.ascending;
  below = AllBelow-drop_below u64_max target ks u.below;
  members = λ v.
      let left = In-drop_below target ka v sa in
      let right = In-drop_below target kb v sb in
      let whole = In-drop_below target ks v u.ascending in
      ground (arith, left, right, whole, u.members v);
}

-- An iterator at its end is not moved.
stay_or_move :
    (i moved : TrieIter) (ks : List ℕ) (target : ℕ)
    → View i ks
    → View moved (drop_below target ks)
    → View (if at_end i then i else moved) (drop_below target ks)
stay_or_move i moved [] target v m = rw (at_end-View i [] v) v
stay_or_move i moved (k ∷ ks) target v m = rw (at_end-View i (k ∷ ks) v) m

-- For every iterator and every list of the keys that it has in front of it, all below the largest
-- 64-bit number, `seek` leaves exactly the keys from its target on.
pub seek-View :
    (i : TrieIter) (ks : List ℕ) (target : ℕ)
    → View i ks
    → View (seek i target) (drop_below target ks)
unfolding seek
seek-View exhausted ks target v = rw v refl
seek-View (sorted_vec t) ks target v = Vec.seek-View t ks target v
seek-View (union a b) ks target (ka, kb, va, vb, u) = (
  drop_below target ka,
  drop_below target kb,
  stay_or_move a (seek a target) ka target va (seek-View a ka target va),
  stay_or_move b (seek b target) kb target vb (seek-View b kb target vb),
  UnionOf-drop_below ka kb ks target (View-Ascending a ka va) (View-Ascending b kb vb) u,
)

-- For every iterator that has a key in front of it, and only keys below the largest 64-bit number,
-- `advance` drops the first key and keeps the others.
pub advance-View : (i : TrieIter) (k : ℕ) (ks : List ℕ) → View i (k ∷ ks) → View (advance i) ks
unfolding advance
advance-View exhausted k ks v = ground (arith, ap is_nil v)
advance-View (sorted_vec t) k ks v = Vec.advance-View t k ks v
advance-View (union a b) k ks v =
    let small : ltb k u64_max ≡ true = ground (arith, View-AllBelow (union a b) (k ∷ ks) v) in
    let n : ltb k (suc k) ≡ true = ground arith in
    let moved = seek-View (union a b) (k ∷ ks) (suc k) v in
    rw (at_end-View (union a b) (k ∷ ks) v, key-View (union a b) k ks v, small)
      (rw (n, drop_below-Above k ks (View-Ascending (union a b) (k ∷ ks) v).0) at moved)
