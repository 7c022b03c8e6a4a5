-- ===== src/Reasoning/Join/Least.antt =====
-- join.rs, `leapfrog_sync` and the loop of `join_step`: the keys at which the iterators agree.
use oxigraph_nova.Prelude.{
  ℕ, zero, suc, ◌≤◌, ◌<◌, ◌≡◌, ◌↔◌, inl, inr, sym, Option, none, some, List, [], ◌∷◌, true, false,
  ltb, if◌then◌else◌, arith, Bool-cases,
}
use oxigraph_nova.Reasoning.Keys.{first_le}
use oxigraph_nova.Reasoning.Trie.{TrieIter, key}
use oxigraph_nova.Reasoning.Trie.View.{View-Ascending, at_end-View, key-View}
use oxigraph_nova.Reasoning.Join.{
  Pass, ended, aligned, behind, pass, Synced, sync_loop, max_from, max_key, leapfrog_sync,
  any_at_end,
}
use oxigraph_nova.Reasoning.Join.Sync.{
  Views, Common, total, NonEmpty, Bounded, AllStart, PassOk, pass-PassOk,
}

-- The iterators stand at the least key that they have in common, or there is none.
abbrev pub LeastCommon : List (List ℕ) → Option Synced → Type 0
LeastCommon kss none = ⊥
LeastCommon kss (some none) = (v : ℕ) → Common v kss → ⊥
LeastCommon kss (some (some (m, is))) =
    Common m kss
    × ((v : ℕ) → Common v kss → m ≤ v)
    × ((dss : List (List ℕ)) × Views is dss
        × AllStart m dss
        × ((v : ℕ) → Common v kss ↔ Common v dss)
        × (total dss ≤ total kss))

Bounded-le : (m n : ℕ) (kss : List (List ℕ)) → m ≤ n → Bounded m kss → Bounded n kss
Bounded-le m n [] h b = tt
Bounded-le m n ([] ∷ kss) h b = b
Bounded-le m n ((k ∷ ks) ∷ kss) h b = (omega (arith, b.0), Bounded-le m n kss h b.1)

max_from_ge : (m : ℕ) (is : List TrieIter) → m ≤ max_from m is
max_from_ge m [] = omega arith
max_from_ge m (i ∷ is) = ground (arith, max_from_ge (if ltb m (key i) then key i else m) is)

max_from-Bounded :
    (m : ℕ) (is : List TrieIter) (kss : List (List ℕ))
    → Views is kss
    → NonEmpty kss
    → Bounded (max_from m is) kss
max_from-Bounded m [] [] vs n = tt
max_from-Bounded m [] (ks ∷ kss) vs n = absurd vs
max_from-Bounded m (i ∷ is) [] vs n = absurd vs
max_from-Bounded m (i ∷ is) ([] ∷ kss) vs n = absurd n
max_from-Bounded m (i ∷ is) ((k ∷ ks) ∷ kss) (v, vs) n =
    let m' = if ltb m (key i) then key i else m in
    let first : k ≤ m' = ground (arith, key-View i k ks v) in
    (omega (arith, first, max_from_ge m' is), max_from-Bounded m' is kss vs n)

max_from_le :
    (m : ℕ) (is : List TrieIter) (kss : List (List ℕ)) (w : ℕ)
    → Views is kss
    → NonEmpty kss
    → Common w kss
    → m ≤ w
    → max_from m is ≤ w
max_from_le m [] [] w vs n c h = h
max_from_le m [] (ks ∷ kss) w vs n c h = absurd vs
max_from_le m (i ∷ is) [] w vs n c h = absurd vs
max_from_le m (i ∷ is) ([] ∷ kss) w vs n c h = absurd n
max_from_le m (i ∷ is) ((k ∷ ks) ∷ kss) w (v, vs) n (here, c) h =
    let m' = if ltb m (key i) then key i else m in
    let le = first_le k ks w (View-Ascending i (k ∷ ks) v) here in
    max_from_le m' is kss w vs n c (ground (arith, le, key-View i k ks v))

pub AllStart-Common : (m : ℕ) (kss : List (List ℕ)) → AllStart m kss → Common m kss
AllStart-Common m [] a = tt
AllStart-Common m ([] ∷ kss) a = absurd a
AllStart-Common m ((k ∷ ks) ∷ kss) a = (inl (sym a.0), AllStart-Common m kss a.1)

LeastCommon-smaller :
    (kss dss : List (List ℕ)) (r : Option Synced)
    → ((v : ℕ) → Common v kss ↔ Common v dss)
    → total dss ≤ total kss
    → LeastCommon dss r
    → LeastCommon kss r
LeastCommon-smaller kss dss none e le l = l
LeastCommon-smaller kss dss (some none) e le l = λ v c. l v ((e v).0 c)
LeastCommon-smaller kss dss (some (some (m, is))) e le
      (here, least, (ess, vs, start, same, small)) =
    (
      (e m).1 here,
      λ v c. least v ((e v).0 c),
      (
        ess,
        vs,
        start,
        λ v. (λ c. (same v).0 ((e v).0 c), λ c. (e v).1 ((same v).1 c)),
        omega arith,
      ),
    )

-- The round of `sync_loop` that ends with `r`.
round-LeastCommon :
    (fuel m : ℕ) (is : List TrieIter) (kss : List (List ℕ)) (r : Pass)
    → ((is' : List TrieIter) (dss : List (List ℕ))
        → Views is' dss
        → NonEmpty dss
        → total dss < fuel
        → LeastCommon dss (sync_loop fuel is'))
    → ((v : ℕ) → Common v kss → m ≤ v)
    → total kss < suc fuel
    → PassOk m kss r
    → LeastCommon kss (elim r [
      | ended ↦ some none
      | aligned is' ↦ some (some (m, is'))
      | behind is' ↦ sync_loop fuel is'
    ])
round-LeastCommon fuel m is kss ended ih low h ok = λ v c. ok v (low v c) c
round-LeastCommon fuel m is kss (aligned is') ih low h (dss, vs, start, (back, on, le)) = (
  back m (AllStart-Common m dss start),
  low,
  (dss, vs, start, λ v. (λ c. on v (low v c) c, back v), le),
)
round-LeastCommon fuel m is kss (behind is') ih low h (dss, vs, full, (back, on, le), less) =
    LeastCommon-smaller kss dss (sync_loop fuel is') (λ v. (λ c. on v (low v c) c, back v)) le
      (ih is' dss vs full (omega arith))

sync_loop-LeastCommon :
    (fuel : ℕ) (is : List TrieIter) (kss : List (List ℕ))
    → Views is kss
    → NonEmpty kss
    → total kss < fuel
    → LeastCommon kss (sync_loop fuel is)
unfolding sync_loop
sync_loop-LeastCommon zero is kss vs n h = absurd (omega arith)
sync_loop-LeastCommon (suc fuel) is kss vs n h =
    round-LeastCommon fuel (max_key is) is kss (pass (max_key is) is)
      (λ is' dss v full le. sync_loop-LeastCommon fuel is' dss v full le)
      (λ v c. max_from_le 0 is kss v vs n c (omega arith)) h
      (pass-PassOk (max_key is) is kss vs (max_from-Bounded 0 is kss vs n))

pub any_at_end-Common :
    (is : List TrieIter) (kss : List (List ℕ)) (v : ℕ)
    → Views is kss
    → any_at_end is ≡ true
    → Common v kss
    → ⊥
any_at_end-Common [] [] v vs e c = ground arith
any_at_end-Common [] (ks ∷ kss) v vs e c = absurd vs
any_at_end-Common (i ∷ is) [] v vs e c = absurd vs
any_at_end-Common (i ∷ is) ([] ∷ kss) v vs e c = absurd c.0
any_at_end-Common (i ∷ is) ((k ∷ ks) ∷ kss) v (u, vs) e c =
    any_at_end-Common is kss v vs (rw (at_end-View i (k ∷ ks) u) at e) c.1

any_at_end-NonEmpty :
    (is : List TrieIter) (kss : List (List ℕ)) → Views is kss → any_at_end is ≡ false → NonEmpty kss
any_at_end-NonEmpty [] [] vs e = tt
any_at_end-NonEmpty [] (ks ∷ kss) vs e = absurd vs
any_at_end-NonEmpty (i ∷ is) [] vs e = absurd vs
any_at_end-NonEmpty (i ∷ is) ([] ∷ kss) (u, vs) e = ground (arith, rw (at_end-View i [] u) at e)
any_at_end-NonEmpty (i ∷ is) ((k ∷ ks) ∷ kss) (u, vs) e =
    any_at_end-NonEmpty is kss vs (rw (at_end-View i (k ∷ ks) u) at e)

-- On one iterator or more, and with more fuel than keys are left, `leapfrog_sync` returns; it
-- stops at the least key that all have in common and loses none of these keys, or there is none.
pub leapfrog_sync-LeastCommon :
    (fuel : ℕ) (i : TrieIter) (is : List TrieIter) (kss : List (List ℕ))
    → Views (i ∷ is) kss
    → total kss < fuel
    → LeastCommon kss (leapfrog_sync fuel (i ∷ is))
unfolding leapfrog_sync
leapfrog_sync-LeastCommon fuel i is kss vs h = elim (Bool-cases (any_at_end (i ∷ is))) [
  | inl done ↦ rw done (λ v c. any_at_end-Common (i ∷ is) kss v vs done c)
  | inr more ↦
      rw more
        (sync_loop-LeastCommon fuel (i ∷ is) kss vs (any_at_end-NonEmpty (i ∷ is) kss vs more) h)
]
