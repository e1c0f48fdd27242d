-- ===== src/Preprocess/Bands/Bits.antt =====
-- Setting a bit above those that are set.
use native.Mathlib.Nat.{pow-suc, div-div-eq-div-mul}
use dewfall.Prelude.{
  ℕ, zero, suc, ◌+◌, ◌/◌, ◌%◌, ◌^◌, ◌<◌, ◌≡◌, refl, true, false, ◌==◌, arith, ap, ◌∙◌, sym,
}
use dewfall.Preprocess.Bands.{test_bit, set_bit, popcount}

div_half : (m i : ℕ) → m / 2 ^ suc i ≡ m / 2 / 2 ^ i
div_half m i =
    ap (λ (t : ℕ). m / t) (omega (arith, pow-suc 2 i)) ∙ sym (div-div-eq-div-mul m 2 (2 ^ i))

test_half : (m i : ℕ) → test_bit m (suc i) ≡ test_bit (m / 2) i
test_half m i = ap (λ (t : ℕ). t % 2 == 1) (div_half m i)

half_add : (m k : ℕ) → ((m + 2 ^ suc k) / 2 ≡ m / 2 + 2 ^ k) × ((m + 2 ^ suc k) % 2 ≡ m % 2)
half_add m k = (omega (arith, pow-suc 2 k), omega (arith, pow-suc 2 k))

pub test_above : (m k : ℕ) → m < 2 ^ k → test_bit m k ≡ false
test_above m zero h = ground (arith)
test_above m (suc k) h = test_half m k ∙ test_above (m / 2) k (omega (arith, pow-suc 2 k))

pub set_bit_lem : (m k : ℕ) → m < 2 ^ k → set_bit m k ≡ m + 2 ^ k
set_bit_lem m k h = rw (test_above m k h) refl

pub test_bit_new : (m k : ℕ) → m < 2 ^ k → test_bit (m + 2 ^ k) k ≡ true
test_bit_new m zero h = ground arith
test_bit_new m (suc k) h =
    test_half (m + 2 ^ suc k) k
    ∙ rw ((half_add m k).0) (test_bit_new (m / 2) k (omega (arith, pow-suc 2 k)))

pub test_bit_old : (m k i : ℕ) → m < 2 ^ k → i < k → test_bit (m + 2 ^ k) i ≡ test_bit m i
test_bit_old m zero i h l = absurd (omega arith)
test_bit_old m (suc k) zero h l = ground (arith, pow-suc 2 k)
test_bit_old m (suc k) (suc i) h l =
    test_half (m + 2 ^ suc k) i
    ∙ rw ((half_add m k).0)
        (test_bit_old (m / 2) k i (omega (arith, pow-suc 2 k)) (omega arith) ∙ sym (test_half m i))

pub popcount_new :
    (bits m k : ℕ) → m < 2 ^ k → k < bits → popcount bits (m + 2 ^ k) ≡ popcount bits m + 1
unfolding popcount
popcount_new zero m k h l = absurd (omega arith)
popcount_new (suc bits) zero zero h l = omega arith
popcount_new (suc bits) (suc m) zero h l = absurd (omega arith)
popcount_new (suc bits) m (suc k) h l =
    rw ((half_add m k).0, (half_add m k).1)
      (omega (arith, popcount_new bits (m / 2) k (omega (arith, pow-suc 2 k)) (omega arith)))

pub popcount_zero : (bits : ℕ) → popcount bits 0 ≡ 0
unfolding popcount
popcount_zero zero = refl
popcount_zero (suc bits) = omega (arith, popcount_zero bits)
