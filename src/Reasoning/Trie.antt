-- ===== src/Reasoning/Trie.antt =====
-- The `TrieIterator` trait (crates/core/nova-core/src/trie.rs) with the implementations that the
-- reasoner makes: `EmptyTrieIter`, `SortedVecTrie` and `UnionTrieIter`. A boxed iterator is a value
-- of `TrieIter`.
pub mod Scan
pub mod View
use oxigraph_nova.Prelude.{
  ℕ, Bool, true, false, not, ◌&&◌, Option, none, some, List, [], ◌∷◌, ◌==◌, if◌then◌else◌, min,
}
use oxigraph_nova.Reasoning.Row.{Row}
use oxigraph_nova.Reasoning.SortedVec
use oxigraph_nova.Reasoning.SortedVec.{
  SortedVecTrie, u64_max, saturating_suc, at_column, scan_values,
}

pub data TrieIter : Type 0 where
  exhausted : TrieIter
  sorted_vec : SortedVecTrie → TrieIter
  union : TrieIter → TrieIter → TrieIter

unfoldable pub at_end : TrieIter → Bool
at_end exhausted = true
at_end (sorted_vec t) = SortedVec.at_end t
at_end (union a b) = at_end a && at_end b

unfoldable pub key : TrieIter → ℕ
unfolding at_end
key exhausted = 0
key (sorted_vec t) = SortedVec.key t
key (union a b) =
    let ka = key a in
    let kb = key b in
    if at_end a then (if at_end b then 0 else kb) else (if at_end b then ka else min ka kb)

unfoldable pub seek : TrieIter → ℕ → TrieIter
unfolding at_end
seek exhausted target = exhausted
seek (sorted_vec t) target = sorted_vec (SortedVec.seek t target)
seek (union a b) target =
    let a' = seek a target in
    let b' = seek b target in union (if at_end a then a else a') (if at_end b then b else b')

-- The trait's default is that of an exhausted iterator, whose `seek` does nothing.
unfoldable pub advance : TrieIter → TrieIter
unfolding at_end key seek
advance exhausted = exhausted
advance (sorted_vec t) = sorted_vec (SortedVec.advance t)
advance (union a b) =
    if at_end (union a b) then union a b else seek (union a b) (saturating_suc (key (union a b)))

boxed : Option SortedVecTrie → TrieIter
boxed none = exhausted
boxed (some t) = sorted_vec t

-- With neither side at the current key the source panics; the key is that of a side that is not
-- at its end, so this does not happen.
unfoldable pub open_child : TrieIter → TrieIter
unfolding at_end key boxed
open_child exhausted = exhausted
open_child (sorted_vec t) = boxed (SortedVec.open_child t)
open_child (union a b) =
    let ca = open_child a in
    let cb = open_child b in
    let cur = key (union a b) in
    if at_end (union a b)
    then exhausted
    else if not (at_end a) && (key a == cur)
    then (if not (at_end b) && (key b == cur) then union ca cb else ca)
    else cb

unfoldable pub remaining_count : TrieIter → ℕ
remaining_count exhausted = 0
remaining_count (sorted_vec t) = SortedVec.remaining_count t
remaining_count (union a b) = u64_max

unfoldable pub from_values : List ℕ → ℕ → TrieIter
from_values [] target = exhausted
from_values (v ∷ vs) target = sorted_vec (at_column (v ∷ vs) target)

-- `join_scan` of sorted_vec_trie.rs
unfoldable pub join_scan : List Row → Option ℕ → Option ℕ → Option ℕ → ℕ → TrieIter
unfolding from_values
join_scan rows s p o target = from_values (scan_values rows s p o target) target
