-- ===== src/Morton/Masks.antt =====
-- The bitwise operations of src/core/morton.hpp, and the masks of the low levels.
use Prim.Native.Nat.{bit_and, bit_or, bit_xor}
use native.Mathlib.Nat.{pow-le-pow_right, one-le-pow}
use dewfall.Prelude.{
  ℕ, ◌+◌, ◌-◌, ◌*◌, ◌/◌, ◌%◌, ◌^◌, ◌≤◌, ◌<◌, ◌≡◌, Option, none, some, ltb, ◌==◌, if◌then◌else◌,
  arith, Bool-cases, inl, inr, ap,
}
use dewfall.Morton.{
  Kind, Morton, m32, m64, m128, m192, u64_max, value, morton_msb, morton_lod_from_bit_index,
}
use dewfall.Morton.Arithmetic.{pow-add}

unfoldable pub morton_xor : {k : Kind} → Morton k → Morton k → Morton k
morton_xor (m32 a) (m32 b) = m32 (bit_xor a b)
morton_xor (m64 a) (m64 b) = m64 (bit_xor a b)
morton_xor (m128 a0 a1) (m128 b0 b1) = m128 (bit_xor a0 b0) (bit_xor a1 b1)
morton_xor (m192 a0 a1 a2) (m192 b0 b1 b2) = m192 (bit_xor a0 b0) (bit_xor a1 b1) (bit_xor a2 b2)

unfoldable pub morton_or : {k : Kind} → Morton k → Morton k → Morton k
morton_or (m32 a) (m32 b) = m32 (bit_or a b)
morton_or (m64 a) (m64 b) = m64 (bit_or a b)
morton_or (m128 a0 a1) (m128 b0 b1) = m128 (bit_or a0 b0) (bit_or a1 b1)
morton_or (m192 a0 a1 a2) (m192 b0 b1 b2) = m192 (bit_or a0 b0) (bit_or a1 b1) (bit_or a2 b2)

unfoldable pub morton_and : {k : Kind} → Morton k → Morton k → Morton k
morton_and (m32 a) (m32 b) = m32 (bit_and a b)
morton_and (m64 a) (m64 b) = m64 (bit_and a b)
morton_and (m128 a0 a1) (m128 b0 b1) = m128 (bit_and a0 b0) (bit_and a1 b1)
morton_and (m192 a0 a1 a2) (m192 b0 b1 b2) = m192 (bit_and a0 b0) (bit_and a1 b1) (bit_and a2 b2)

-- `(word >> index) & 0x7`
abbrev pub three_bits : ℕ → ℕ → ℕ
three_bits word index = bit_and (word / 2 ^ index) 7

-- `none` where the source reads a word that the code does not have.
unfoldable pub morton_get_child_mask : {k : Kind} → ℕ → Morton k → Option ℕ
morton_get_child_mask lod (m32 a) =
    let index = lod * 3 in if ltb index 32 then some (three_bits a index) else none
morton_get_child_mask lod (m64 a) =
    let index = lod * 3 in
    if ltb index 64 then if index == 63 then none else some (three_bits a index) else none
morton_get_child_mask lod (m128 a0 a1) =
    let index = lod * 3 in
    if ltb index 64
    then some (
        if index == 63
        then bit_or (three_bits a0 index) (bit_and a1 3 * 2)
        else three_bits a0 index)
    else if ltb index (64 * 2)
    then if index - 64 == 62 then none else some (three_bits a1 (index - 64))
    else none
morton_get_child_mask lod (m192 a0 a1 a2) =
    let index = lod * 3 in
    some (
      if ltb index 64
      then if index == 63
        then bit_or (three_bits a0 index) (bit_and a1 3 * 2)
        else three_bits a0 index
      else if ltb index (64 * 2)
      then if index - 64 == 62
        then bit_or (three_bits a1 (index - 64)) (bit_and a2 1 * 4)
        else three_bits a1 (index - 64)
      else three_bits a2 (index - 64 * 2))

-- `level` is at most 4.
unfoldable pub morton_get_name : ℕ → ℕ → ℕ → ℕ
morton_get_name parent level child_index =
    bit_or parent (child_index % 2 ^ 16 * 2 ^ ((4 - level) * 3)) % 2 ^ 16

-- `(T(1) << index) - 1` on a word of `bits` bits
abbrev pub low_bits : ℕ → ℕ → ℕ
low_bits bits index = (2 ^ index % 2 ^ bits + 2 ^ bits - 1) % 2 ^ bits

-- A level of detail is not negative here, so that `index` is above 0.
unfoldable pub morton_mask_create : (k : Kind) → ℕ → Morton k
morton_mask_create Kind.k32 lod = m32 (low_bits 32 (lod * 3 + 3))
morton_mask_create Kind.k64 lod = m64 (low_bits 64 (lod * 3 + 3))
morton_mask_create Kind.k128 lod =
    let index = lod * 3 + 3 in
    if ltb 63 index then m128 u64_max (low_bits 64 (index % 64)) else m128 (low_bits 64 index) 0
morton_mask_create Kind.k192 lod =
    let index = lod * 3 + 3 in
    if ltb 63 index
    then if ltb (63 * 2) index
      then m192 u64_max u64_max (low_bits 64 (index % 64))
      else m192 u64_max (low_bits 64 (index % 64)) 0
    else m192 (low_bits 64 index) 0 0

unfoldable pub morton_lod : {k : Kind} → Morton k → Morton k → ℕ
morton_lod a b = morton_lod_from_bit_index (morton_msb (morton_xor a b))

-- the bits of a code
abbrev pub width : Kind → ℕ
width Kind.k32 = 32
width Kind.k64 = 64
width Kind.k128 = 128
width Kind.k192 = 192

low_bits_lem : (index : ℕ) → index ≤ 63 → low_bits 64 index + 1 ≡ 2 ^ index
low_bits_lem index h =
    let fits : 2 ^ index ≤ 2 ^ 63 = pow-le-pow_right {n = 2} (omega arith) h in
    omega (arith, fits, one-le-pow index 2 (omega arith))

low_bits_32 : (index : ℕ) → index ≤ 31 → low_bits 32 index + 1 ≡ 2 ^ index
low_bits_32 index h =
    let fits : 2 ^ index ≤ 2 ^ 31 = pow-le-pow_right {n = 2} (omega arith) h in
    omega (arith, fits, one-le-pow index 2 (omega arith))

-- The mask of a level of detail, in a code that has the next level too, is the number of which
-- exactly the bits up to the level are set, in whichever word they end.
pub morton_mask_create_lem :
    (k : Kind) (lod : ℕ)
    → lod * 3 + 3 < width k
    → value (morton_mask_create k lod) + 1 ≡ 2 ^ (lod * 3 + 3)
unfolding morton_mask_create
morton_mask_create_lem Kind.k32 lod h = low_bits_32 (lod * 3 + 3) (omega arith)
morton_mask_create_lem Kind.k64 lod h = low_bits_lem (lod * 3 + 3) (omega arith)
morton_mask_create_lem Kind.k128 lod h = elim (Bool-cases (ltb 63 (lod * 3 + 3))) [
  | inl e ↦
      let r = (lod * 3 + 3) % 64 in
      let split : lod * 3 + 3 ≡ 64 + r = ground arith in
      rw e (omega (arith, low_bits_lem r (omega arith), ap (λ n. 2 ^ n) split, pow-add 64 r))
  | inr e ↦ rw e (omega (arith, low_bits_lem (lod * 3 + 3) (ground arith)))
]
morton_mask_create_lem Kind.k192 lod h = elim (Bool-cases (ltb 63 (lod * 3 + 3))) [
  | inl e ↦
      let r = (lod * 3 + 3) % 64 in
      elim (Bool-cases (ltb (63 * 2) (lod * 3 + 3))) [
        | inl f ↦
            let split : lod * 3 + 3 ≡ 128 + r = ground arith in
            rw e (
              rw f
                (omega (arith, low_bits_lem r (omega arith), ap (λ n. 2 ^ n) split, pow-add 128 r)))
        | inr f ↦
            let split : lod * 3 + 3 ≡ 64 + r = ground arith in
            rw e (
              rw f
                (omega (arith, low_bits_lem r (omega arith), ap (λ n. 2 ^ n) split, pow-add 64 r)))
      ]
  | inr e ↦ rw e (omega (arith, low_bits_lem (lod * 3 + 3) (ground arith)))
]
