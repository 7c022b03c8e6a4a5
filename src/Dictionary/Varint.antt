-- ===== src/Dictionary/Varint.antt =====
-- crates/core/nova-core/src/dict_compact.rs: numbers of 64 bits in bytes of seven bits each.
use native.Mathlib.Nat.{mul-add, mul_assoc, mul_comm}
use oxigraph_nova.Prelude.{
  ℕ, zero, suc, ◌+◌, ◌*◌, ◌/◌, ◌%◌, ◌^◌, ◌≤◌, ◌<◌, ◌≡◌, refl, ap, ◌∙◌, inl, inr, false, Option,
  none, some, List, [], ◌∷◌, ◌++◌, ltb, ==_iff, lt→ltb, ◌==◌, if◌then◌else◌, length, arith,
  Bool-cases,
}

abbrev pub prepend : ℕ → Option (List ℕ) → Option (List ℕ)
prepend b none = none
prepend b (some bs) = some (b ∷ bs)

-- The bytes that the loop pushes, for the fuel of a byte each.
unfoldable pub write_loop : ℕ → ℕ → Option (List ℕ)
write_loop zero v = none
write_loop (suc n) v =
    let rest = write_loop n (v / 128) in
    if v / 128 == 0 then some (v % 128 ∷ []) else prepend (v % 128 + 128) rest

unfoldable pub write_varint : ℕ → Option (List ℕ)
unfolding write_loop
write_varint v = write_loop 10 v

-- The loop with the weight `1 << shift`. Reading past the end panics, and so does a shift by all bits,
-- in a build with checks.
unfoldable pub read_loop : List ℕ → ℕ → ℕ → Option (ℕ × List ℕ)
read_loop [] weight result = none
read_loop (b ∷ bs) weight result =
    let next = result + b % 128 * weight % 18446744073709551616 in
    let rest = read_loop bs (weight * 128) next in
    if ltb weight 18446744073709551616 then (if ltb b 128 then some (next, bs) else rest) else none

unfoldable pub read_varint : List ℕ → Option (ℕ × List ℕ)
unfolding read_loop
read_varint bs = read_loop bs 1 0

parts : (v w : ℕ) → v * w ≡ v / 128 * (w * 128) + v % 128 * w
parts v w =
    let q = v / 128 in
    let m = v % 128 in
    let whole : v ≡ 128 * q + m = omega arith in
    let spread : w * (128 * q + m) ≡ w * (128 * q) + w * m = mul-add w (128 * q) m in
    let a : v * w ≡ w * (128 * q + m) = mul_comm v w ∙ ap (λ z. w * z) whole in
    let b : q * (w * 128) ≡ w * (128 * q) = mul_comm q (w * 128) ∙ mul_assoc w 128 q in
    omega (arith, a, b, spread, mul_comm w m)

le-mul : (q x : ℕ) → (q ≡ 0 → ⊥) → x ≤ q * x
le-mul zero x n = absurd (n refl)
le-mul (suc q) x n = omega arith

-- What the loop writes for a number, read behind what was read before.
abbrev Written : ℕ → ℕ → ℕ → ℕ → List ℕ → Type 0
Written n v w r rest =
    (bs : List ℕ) × (write_loop n v ≡ some bs)
    × (length bs ≤ n)
    × (read_loop (bs ++ rest) w r ≡ some (r + v * w, rest))

last_byte :
    (n v w r : ℕ) (rest : List ℕ)
    → v / 128 ≡ 0
    → w < 18446744073709551616
    → v * w < 18446744073709551616
    → Written (suc n) v w r rest
unfolding write_loop read_loop
last_byte n v w r rest none_left small fits =
    let done = (==_iff (v / 128) 0).1 none_left in
    let is_byte : v % 128 ≡ v = omega (arith, none_left) in
    let in_byte = lt→ltb v 128 (omega (arith, none_left)) in
    let in_word = lt→ltb w 18446744073709551616 small in
    let no_wrap : v * w % 18446744073709551616 ≡ v * w = omega (arith, fits) in
    (
      v ∷ [],
      rw (done, is_byte, write_loop) refl,
      omega arith,
      rw (in_word, in_byte, is_byte, no_wrap, read_loop) refl,
    )

more_bytes :
    (n v w r : ℕ) (rest : List ℕ)
    → (v / 128 ≡ 0 → ⊥)
    → w < 18446744073709551616
    → v * w < 18446744073709551616
    → Written n (v / 128) (w * 128) (r + v % 128 * w) rest
    → Written (suc n) v w r rest
unfolding write_loop read_loop
more_bytes n v w r rest left small fits (bs, wrote, short, back) =
    let again : v / 128 == 0 ≡ false = ground (arith, left) in
    let in_word = lt→ltb w 18446744073709551616 small in
    let large : ltb (v % 128 + 128) 128 ≡ false = ground arith in
    let low : (v % 128 + 128) % 128 ≡ v % 128 = omega arith in
    let no_wrap : v % 128 * w % 18446744073709551616 ≡ v % 128 * w =
      omega (arith, fits, parts v w) in
    let sum : r + v % 128 * w + v / 128 * (w * 128) ≡ r + v * w = omega (arith, parts v w) in
    (
      (v % 128 + 128) ∷ bs,
      rw (again, wrote, write_loop) refl,
      omega (arith, short),
      rw (in_word, large, low, no_wrap, read_loop) (back ∙ ap (λ z. some (z, rest)) sum),
    )

written :
    (n v w r : ℕ) (rest : List ℕ)
    → v < 128 ^ suc n
    → w < 18446744073709551616
    → v * w < 18446744073709551616
    → Written (suc n) v w r rest
written zero v w r rest lt small fits = last_byte zero v w r rest (omega (arith, lt)) small fits
written (suc n) v w r rest lt small fits = elim (Bool-cases (v / 128 == 0)) [
  | inl done ↦ last_byte (suc n) v w r rest ((==_iff (v / 128) 0).0 done) small fits
  | inr again ↦
      let left : v / 128 ≡ 0 → ⊥ = ground (arith, again) in
      let grown = le-mul (v / 128) (w * 128) left in
      let whole = parts v w in
      let power : 128 ^ suc (suc n) ≡ 128 ^ suc n * 128 = omega arith in
      more_bytes (suc n) v w r rest left small fits (
        written n (v / 128) (w * 128) (r + v % 128 * w) rest (omega (arith, lt, power))
          (omega (arith, fits, grown, whole)) (omega (arith, fits, whole)))
]

-- Every number of 64 bits is written in at most ten bytes, which `read_varint` reads back, and it
-- stops behind them.
pub read_varint-write_varint :
    (v : ℕ) (rest : List ℕ)
    → v < 18446744073709551616
    → (bs : List ℕ) × (write_varint v ≡ some bs)
      × (length bs ≤ 10)
      × (read_varint (bs ++ rest) ≡ some (v, rest))
unfolding write_varint read_varint
read_varint-write_varint v rest lt =
    let (bs, w, short, r) =
      written 9 v 1 0 rest (omega (arith, lt)) (omega arith) (omega (arith, lt)) in
    let same : 0 + v * 1 ≡ v = omega arith in (bs, w, short, r ∙ ap (λ z. some (z, rest)) same)
