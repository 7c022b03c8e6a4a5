-- ===== src/Prelude/Bytes.antt =====
-- Byte sequences: `u32::to_le_bytes`, `u32::from_le_bytes`, and the test of `str::from_utf8`.
use Prim.Native.Nat.{ℕ, zero, suc, ◌+◌, ◌*◌, ◌/◌, ◌%◌, ◌<◌}
use mathlib.Core.Path.{◌≡◌}
use mathlib.Core.Bool.{Bool, false, ◌&&◌}
use mathlib.Core.Option.{Option, none, some}
use mathlib.Core.List.{List, [], ◌∷◌}
use native.Mathlib.Omega.{arith}
use oxigraph_nova.Prelude.Tests.{ltb, leb, if◌then◌else◌}

abbrev pub Bytes : Type 0
Bytes = List ℕ

abbrev pub u32_mod : ℕ
u32_mod = 4294967296

abbrev pub le32 : ℕ → Bytes
le32 n = n % 256 ∷ n / 256 % 256 ∷ n / 65536 % 256 ∷ n / 16777216 % 256 ∷ []

-- Fewer than four bytes do not occur: every caller has tested the length.
abbrev pub of_le32 : Bytes → ℕ
of_le32 [] = 0
of_le32 (b ∷ bs) = b + 256 * of_le32 bs

pub of_le32-le32 : (n : ℕ) → n < u32_mod → of_le32 (le32 n) ≡ n
of_le32-le32 n h = omega arith

-- What may follow inside a UTF-8 sequence: the continuation bytes left, and the range of the next.
pub record Pending : Type 0 where
  pub left : ℕ
  pub lo : ℕ
  pub hi : ℕ

abbrev next : ℕ → ℕ → ℕ → Pending
next n a b = record { left = n; lo = a; hi = b }

abbrev boundary : Pending
boundary = next 0 0 127

-- The well-formed sequences of the Unicode standard: no overlong form, no surrogate, at most
-- U+10FFFF.
lead : ℕ → Option Pending
lead b =
    if leb b 127
    then some boundary
    else if ltb b 194
    then none
    else if leb b 223
    then some (next 1 128 191)
    else if leb b 239
    then some
        (next 2 (if leb b 224 then 160 else 128) (if leb b 237 && leb 237 b then 159 else 191))
    else if leb b 244
    then some (next 3 (if leb b 240 then 144 else 128) (if leb 244 b then 143 else 191))
    else none

utf8_step : Pending → ℕ → Option Pending
utf8_step p b = elim p.left [
  | zero ↦ lead b
  | suc n ↦
      if leb p.lo b && leb b p.hi
      then some (elim n [ zero ↦ boundary | suc m ↦ next (suc m) 128 191 ])
      else none
]

utf8_scan : Option Pending → Bytes → Bool
utf8_scan none bs = false
utf8_scan (some p) [] = leb p.left 0
utf8_scan (some p) (b ∷ bs) = utf8_scan (utf8_step p b) bs

unfoldable pub is_utf8 : Bytes → Bool
unfolding utf8_scan utf8_step lead
is_utf8 bs = utf8_scan (some boundary) bs
