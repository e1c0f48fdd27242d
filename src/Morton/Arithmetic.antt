-- ===== src/Morton/Arithmetic.antt =====
-- Negation, successor, addition and the highest bit, against the numbers.
use dewfall.Prelude.{
  ℕ, zero, suc, ◌+◌, ◌*◌, ◌/◌, ◌%◌, ◌^◌, ◌≤◌, ◌<◌, ◌≡◌, false, ◌&&◌, ltb, leb, ◌==◌, arith,
  if◌then◌else◌, pow-suc, ap, inl, inr, Bool-cases,
}
use dewfall.Morton.{
  Kind, Morton, m32, m64, m128, m192, morton_negate, morton_add_one, morton_add, value, modulus,
  Fits, u64_max, bit_scan, bit_scan_reverse, morton_msb,
}

-- `morton_negate` is the complement: a code and its negation sum to the greatest code.
-- `morton_add_one` adds one modulo the width: the carry passes through every word.
pub morton_negate-add_one :
    {k : Kind} (a : Morton k)
    → Fits a
    → (value (morton_negate a) + value a + 1 ≡ modulus k)
      × Fits (morton_add_one a)
      × (value (morton_add_one a) ≡ (value a + 1) % modulus k)
unfolding morton_negate morton_add_one
morton_negate-add_one (m32 a) h = ground arith
morton_negate-add_one (m64 a) h = ground arith
morton_negate-add_one (m128 a0 a1) h = ground arith
morton_negate-add_one (m192 a0 a1 a2) h = ground arith

-- 2 ^ 128 where the low words of two codes of 192 bits carry and the middle word of the second is
-- all ones.
abbrev pub lost : {k : Kind} → Morton k → Morton k → ℕ
lost (m32 a) (m32 b) = 0
lost (m64 a) (m64 b) = 0
lost (m128 a0 a1) (m128 b0 b1) = 0
lost (m192 a0 a1 a2) (m192 b0 b1 b2) =
    if leb (2 ^ 64) (a0 + b0) && b1 == u64_max then 2 ^ 128 else 0

-- `morton_add` adds modulo the width of the code, but for codes of 192 bits where the low words
-- carry and the middle word of the second summand is all ones: then the carry into the high word is
-- lost, and the result falls short of the sum by 2 ^ 128.
pub morton_add_lem :
    {k : Kind} (a b : Morton k)
    → Fits a
    → Fits b
    → Fits (morton_add a b)
      × ((value (morton_add a b) + lost a b) % modulus k ≡ (value a + value b) % modulus k)
unfolding morton_add
morton_add_lem (m32 a) (m32 b) h k = ground arith
morton_add_lem (m64 a) (m64 b) h k = ground arith
morton_add_lem (m128 a0 a1) (m128 b0 b1) h k = ground arith
morton_add_lem (m192 a0 a1 a2) (m192 b0 b1 b2) h k = ground arith

bit_scan_bounds :
    (rounds a : ℕ)
    → 0 < a
    → a < 2 ^ rounds
    → (2 ^ bit_scan rounds a ≤ a) × (a < 2 ^ suc (bit_scan rounds a))
unfolding bit_scan
bit_scan_bounds zero a h k = absurd (omega arith)
bit_scan_bounds (suc rounds) a h k = elim (Bool-cases (ltb a 2)) [
  | inl small ↦ rw small (ground arith)
  | inr large ↦
      let n = bit_scan rounds (a / 2) in
      let (low, high) =
        bit_scan_bounds rounds (a / 2) (ground arith) (omega (arith, pow-suc 2 rounds)) in
      rw large (omega (arith, pow-suc 2 n, pow-suc 2 (suc n)))
]

pub pow-add : (a n : ℕ) → 2 ^ (a + n) ≡ 2 ^ a * 2 ^ n
pow-add zero n = let e : zero + n ≡ n = omega arith in rw e (omega arith)
pow-add (suc a) n =
    let e : suc a + n ≡ suc (a + n) = omega arith in
    rw e (
      omega (
        arith,
        pow-suc 2 (a + n),
        pow-suc 2 a,
        pow-add a n,
        ap (λ (t : ℕ). t * 2 ^ n) (pow-suc 2 a),
      ))

word_bounds :
    (a : ℕ) → 0 < a → a < 2 ^ 64 → (2 ^ bit_scan_reverse a ≤ a) × (a < 2 ^ suc (bit_scan_reverse a))
unfolding bit_scan_reverse
word_bounds a h k = bit_scan_bounds 64 a h k

word_msb :
    (a : ℕ)
    → 0 < a
    → a < 2 ^ 64
    → (2 ^ (64 * 0 + bit_scan_reverse a) ≤ a) × (a < 2 ^ (64 * 0 + bit_scan_reverse a + 1))
word_msb a h k =
    let m = bit_scan_reverse a in
    let e : 64 * 0 + m ≡ m = omega arith in
    let f : m + 1 ≡ suc m = omega arith in rw (e, f) (word_bounds a h k)

middle_msb :
    (a low : ℕ)
    → 0 < a
    → a < 2 ^ 64
    → low < 2 ^ 64
    → (2 ^ (64 * 1 + bit_scan_reverse a) ≤ low + 2 ^ 64 * a)
      × (low + 2 ^ 64 * a < 2 ^ (64 * 1 + bit_scan_reverse a + 1))
middle_msb a low h k l =
    let m = bit_scan_reverse a in
    let f : 64 * 1 + m + 1 ≡ 64 + suc m = omega arith in
    rw f (omega (arith, word_bounds a h k, pow-add 64 m, pow-add 64 (suc m)))

high_msb :
    (a low : ℕ)
    → 0 < a
    → a < 2 ^ 64
    → low < 2 ^ 128
    → (2 ^ (64 * 2 + bit_scan_reverse a) ≤ low + 2 ^ 128 * a)
      × (low + 2 ^ 128 * a < 2 ^ (64 * 2 + bit_scan_reverse a + 1))
high_msb a low h k l =
    let m = bit_scan_reverse a in
    let f : 64 * 2 + m + 1 ≡ 128 + suc m = omega arith in
    rw f (omega (arith, word_bounds a h k, pow-add 128 m, pow-add 128 (suc m)))

-- `morton_msb` is the index of the highest bit of the number that is set.
pub morton_msb_bounds :
    {k : Kind} (a : Morton k)
    → Fits a
    → 0 < value a
    → (2 ^ morton_msb a ≤ value a) × (value a < 2 ^ (morton_msb a + 1))
unfolding morton_msb
morton_msb_bounds (m32 a) h p = elim (Bool-cases (a == 0)) [
  | inl z ↦ absurd (ground arith)
  | inr n ↦ rw n (word_msb a p (omega arith))
]
morton_msb_bounds (m64 a) h p = elim (Bool-cases (a == 0)) [
  | inl z ↦ absurd (ground arith)
  | inr n ↦ rw n (word_msb a p h)
]
morton_msb_bounds (m128 a0 a1) h p = elim (Bool-cases (a1 == 0)) [
  | inl z ↦
      let e : a1 ≡ 0 = ground arith in
      let n : (a0 == 0) ≡ false = ground arith in
      rw (z, n) (omega (arith, e, word_msb a0 (omega arith) h.0))
  | inr n ↦ rw n (middle_msb a1 a0 (ground arith) h.1 h.0)
]
morton_msb_bounds (m192 a0 a1 a2) h p = elim (Bool-cases (a2 == 0)) [
  | inl z ↦
      let e : a2 ≡ 0 = ground arith in
      elim (Bool-cases (a1 == 0)) [
        | inl z' ↦
            let e' : a1 ≡ 0 = ground arith in
            let n : (a0 == 0) ≡ false = ground arith in
            rw (z, z', n) (omega (arith, word_msb a0 (omega arith) h.0))
        | inr n ↦ rw (z, n) (omega (arith, middle_msb a1 a0 (ground arith) h.1 h.0))
      ]
  | inr n ↦ rw n (high_msb a2 (a0 + 2 ^ 64 * a1) (ground arith) h.2 (omega arith))
]
