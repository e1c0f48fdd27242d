-- ===== src/Morton.antt =====
-- src/core/morton.hpp: the four Morton code types, word by word, and the arithmetic of levels.
-- `encode` and `decode`, which rest on libmorton, and the casts are not modelled.
pub mod Order
pub mod Arithmetic
pub mod Levels
pub mod Masks
mod Tests
use dewfall.Prelude.{
  ℕ, zero, suc, ◌+◌, ◌-◌, ◌*◌, ◌/◌, ◌%◌, ◌^◌, ◌<◌, Bool, true, false, not, ◌&&◌, ◌||◌, ltb, leb,
  ◌==◌, if◌then◌else◌,
}

-- `morton32_t`, `morton64_t`, `morton128_t` and `morton192_t`
pub data Kind : Type 0 where
  k32 k64 k128 k192 : Kind

-- `morton_t<T, C>`: `data[0]` is the least significant word.
pub data Morton : Kind → Type 0 where
  m32 : ℕ → Morton Kind.k32
  m64 : ℕ → Morton Kind.k64
  m128 : ℕ → ℕ → Morton Kind.k128
  m192 : ℕ → ℕ → ℕ → Morton Kind.k192

-- `~T(0)`
abbrev pub u32_max : ℕ
u32_max = 2 ^ 32 - 1

abbrev pub u64_max : ℕ
u64_max = 2 ^ 64 - 1

-- `operator==`: `memcmp` of all words
unfoldable pub morton_eq : {k : Kind} → Morton k → Morton k → Bool
morton_eq (m32 a) (m32 b) = a == b
morton_eq (m64 a) (m64 b) = a == b
morton_eq (m128 a0 a1) (m128 b0 b1) = a0 == b0 && a1 == b1
morton_eq (m192 a0 a1 a2) (m192 b0 b1 b2) = a0 == b0 && (a1 == b1 && a2 == b2)

-- `operator<`
unfoldable pub morton_lt : {k : Kind} → Morton k → Morton k → Bool
morton_lt (m32 a) (m32 b) = ltb a b
morton_lt (m64 a) (m64 b) = ltb a b
morton_lt (m128 a0 a1) (m128 b0 b1) = if not (a1 == b1) then ltb a1 b1 else ltb a0 b0
morton_lt (m192 a0 a1 a2) (m192 b0 b1 b2) =
    if not (a2 == b2) then ltb a2 b2 else if not (a1 == b1) then ltb a1 b1 else ltb a0 b0

-- `operator<=`
unfoldable pub morton_le : {k : Kind} → Morton k → Morton k → Bool
morton_le (m32 a) (m32 b) = leb a b
morton_le (m64 a) (m64 b) = leb a b
morton_le (m128 a0 a1) (m128 b0 b1) = if not (a1 == b1) then ltb a1 b1 else leb a0 b0
morton_le (m192 a0 a1 a2) (m192 b0 b1 b2) =
    if not (a2 == b2) then ltb a2 b2 else if not (a1 == b1) then ltb a1 b1 else leb a0 b0

-- `operator>`
unfoldable pub morton_gt : {k : Kind} → Morton k → Morton k → Bool
morton_gt (m32 a) (m32 b) = ltb b a
morton_gt (m64 a) (m64 b) = ltb b a
morton_gt (m128 a0 a1) (m128 b0 b1) = if not (a1 == b1) then ltb b1 a1 else ltb b0 a0
morton_gt (m192 a0 a1 a2) (m192 b0 b1 b2) =
    if not (a2 == b2) then ltb b2 a2 else if not (a1 == b1) then ltb b1 a1 else ltb b0 a0

-- `operator>=`
unfoldable pub morton_ge : {k : Kind} → Morton k → Morton k → Bool
morton_ge (m32 a) (m32 b) = leb b a
morton_ge (m64 a) (m64 b) = leb b a
morton_ge (m128 a0 a1) (m128 b0 b1) = if not (a1 == b1) then ltb b1 a1 else leb b0 a0
morton_ge (m192 a0 a1 a2) (m192 b0 b1 b2) =
    if not (a2 == b2) then ltb b2 a2 else if not (a1 == b1) then ltb b1 a1 else leb b0 a0

unfoldable pub morton_init_min : {k : Kind} → Morton k → Morton k
morton_init_min (m32 a) = m32 0
morton_init_min (m64 a) = m64 0
morton_init_min (m128 a0 a1) = m128 0 0
morton_init_min (m192 a0 a1 a2) = m192 0 0 0

unfoldable pub morton_init_max : {k : Kind} → Morton k → Morton k
morton_init_max (m32 a) = m32 u32_max
morton_init_max (m64 a) = m64 u64_max
morton_init_max (m128 a0 a1) = m128 u64_max u64_max
morton_init_max (m192 a0 a1 a2) = m192 u64_max u64_max u64_max

unfoldable pub morton_is_null : {k : Kind} → Morton k → Bool
morton_is_null (m32 a) = a == 0
morton_is_null (m64 a) = a == 0
morton_is_null (m128 a0 a1) = a0 == 0 && a1 == 0
morton_is_null (m192 a0 a1 a2) = (a0 == 0 && a1 == 0) && a2 == 0

unfoldable pub morton_is_set : {k : Kind} → Morton k → Bool
morton_is_set (m32 a) = not (a == 0)
morton_is_set (m64 a) = not (a == 0)
morton_is_set (m128 a0 a1) = not (a0 == 0) || not (a1 == 0)
morton_is_set (m192 a0 a1 a2) = (not (a0 == 0) || not (a1 == 0)) || not (a2 == 0)

-- `~x` on a word
abbrev pub not32 : ℕ → ℕ
not32 a = u32_max - a

abbrev pub not64 : ℕ → ℕ
not64 a = u64_max - a

unfoldable pub morton_negate : {k : Kind} → Morton k → Morton k
morton_negate (m32 a) = m32 (not32 a)
morton_negate (m64 a) = m64 (not64 a)
morton_negate (m128 a0 a1) = m128 (not64 a0) (not64 a1)
morton_negate (m192 a0 a1 a2) = m192 (not64 a0) (not64 a1) (not64 a2)

-- Unsigned words wrap.
abbrev pub add32 : ℕ → ℕ → ℕ
add32 a b = (a + b) % 2 ^ 32

abbrev pub add64 : ℕ → ℕ → ℕ
add64 a b = (a + b) % 2 ^ 64

unfoldable pub morton_add_one : {k : Kind} → Morton k → Morton k
morton_add_one (m32 a) = if a == u32_max then m32 0 else m32 (add32 a 1)
morton_add_one (m64 a) = if a == u64_max then m64 0 else m64 (add64 a 1)
morton_add_one (m128 a0 a1) =
    if a0 == u64_max
    then if a1 == u64_max then m128 0 0 else m128 0 (add64 a1 1)
    else m128 (add64 a0 1) a1
morton_add_one (m192 a0 a1 a2) =
    if a0 == u64_max
    then if a1 == u64_max then m192 0 0 (add64 a2 1) else m192 0 (add64 a1 1) a2
    else m192 (add64 a0 1) a1 a2

unfoldable pub morton_add : {k : Kind} → Morton k → Morton k → Morton k
morton_add (m32 a) (m32 b) = m32 (add32 a b)
morton_add (m64 a) (m64 b) = m64 (add64 a b)
morton_add (m128 a0 a1) (m128 b0 b1) =
    let r0 = add64 a0 b0 in
    let carry : ℕ = if ltb r0 a0 then 1 else 0 in m128 r0 (add64 (add64 a1 b1) carry)
morton_add (m192 a0 a1 a2) (m192 b0 b1 b2) =
    let r0 = add64 a0 b0 in
    let carry : ℕ = if ltb r0 a0 then 1 else 0 in
    let r1 = add64 (add64 a1 b1) carry in
    let carry' : ℕ = if ltb r1 a1 then 1 else 0 in m192 r0 r1 (add64 (add64 a2 b2) carry')

-- `bit_scan_reverse`: the index of the highest bit that is set. A word has at most 64 bits, so 64
-- rounds are enough.
unfoldable pub bit_scan : ℕ → ℕ → ℕ
bit_scan zero a = 0
bit_scan (suc rounds) a = let rest = bit_scan rounds (a / 2) in if ltb a 2 then 0 else suc rest

unfoldable pub bit_scan_reverse : ℕ → ℕ
bit_scan_reverse a = bit_scan 64 a

unfoldable pub morton_msb : {k : Kind} → Morton k → ℕ
morton_msb (m32 a) = if not (a == 0) then 64 * 0 + bit_scan_reverse a else 0
morton_msb (m64 a) = if not (a == 0) then 64 * 0 + bit_scan_reverse a else 0
morton_msb (m128 a0 a1) =
    if not (a1 == 0)
    then 64 * 1 + bit_scan_reverse a1
    else if not (a0 == 0)
    then 64 * 0 + bit_scan_reverse a0
    else 0
morton_msb (m192 a0 a1 a2) =
    if not (a2 == 0)
    then 64 * 2 + bit_scan_reverse a2
    else if not (a1 == 0)
    then 64 * 1 + bit_scan_reverse a1
    else if not (a0 == 0)
    then 64 * 0 + bit_scan_reverse a0
    else 0

-- The level of detail of a bit, the magnitude of a tree of five levels, and back. `uint16_t` wraps.
unfoldable pub morton_lod_from_bit_index : ℕ → ℕ
morton_lod_from_bit_index index = index / 3

unfoldable pub morton_magnitude_from_bit_index : ℕ → ℕ
unfolding morton_lod_from_bit_index
morton_magnitude_from_bit_index index = morton_lod_from_bit_index index / 5

unfoldable pub morton_magnitude_from_lod : ℕ → ℕ
morton_magnitude_from_lod lod = lod / 5

unfoldable pub morton_magnitude_to_lod : ℕ → ℕ
morton_magnitude_to_lod magnitude = (magnitude % 2 ^ 16 * 5 + 4) % 2 ^ 16

unfoldable pub morton_tree_level_to_lod : ℕ → ℕ → ℕ
unfolding morton_magnitude_to_lod
morton_tree_level_to_lod magnitude level_in_tree =
    (morton_magnitude_to_lod magnitude + 2 ^ 16 - level_in_tree % 2 ^ 16) % 2 ^ 16

-- the number that a code stands for
abbrev pub value : {k : Kind} → Morton k → ℕ
value (m32 a) = a
value (m64 a) = a
value (m128 a0 a1) = a0 + 2 ^ 64 * a1
value (m192 a0 a1 a2) = a0 + 2 ^ 64 * a1 + 2 ^ 128 * a2

abbrev pub modulus : Kind → ℕ
modulus Kind.k32 = 2 ^ 32
modulus Kind.k64 = 2 ^ 64
modulus Kind.k128 = 2 ^ 128
modulus Kind.k192 = 2 ^ 192

-- Every word fits its type.
abbrev pub Fits : {k : Kind} → Morton k → Type 0
Fits (m32 a) = a < 2 ^ 32
Fits (m64 a) = a < 2 ^ 64
Fits (m128 a0 a1) = (a0 < 2 ^ 64) × (a1 < 2 ^ 64)
Fits (m192 a0 a1 a2) = (a0 < 2 ^ 64) × (a1 < 2 ^ 64) × (a2 < 2 ^ 64)
