-- ===== src/Prelude/Buffers.antt =====
-- Buffers, read and written by index: the laws of a write, `memcpy` and `memset` into a buffer, and
-- loops of which one round writes a given index.
use Prim.Native.Nat.{ℕ, zero, suc, ◌+◌, ◌-◌, ◌≤◌, ◌<◌}
use mathlib.Core.Path.{◌≡◌, refl, ap₂, ◌∙◌}
use mathlib.Core.Logic.{◌≢◌, inl, inr}
use mathlib.Core.Bool.{◌&&◌}
use mathlib.Core.List.{List, [], ◌∷◌}
use native.Mathlib.Omega.{arith}
use dewfall.Prelude.Tests.{ltb, leb, ◌==◌, if◌then◌else◌, Bool-cases}
use dewfall.Prelude.Lists.{length, get_or, set, length-set}
use dewfall.Prelude.Loops.{for_below}

-- The byte at an index; a read past the end gives 0.
abbrev pub byte_at : List ℕ → ℕ → ℕ
byte_at buf i = get_or buf i 0

pub byte_at-set :
    (buf : List ℕ) (i v q : ℕ)
    → i < length buf
    → byte_at (set buf i v) q ≡ (if i == q then v else byte_at buf q)
byte_at-set [] i v q h = absurd (omega arith)
byte_at-set (x ∷ xs) zero v zero h = refl
byte_at-set (x ∷ xs) zero v (suc q) h = ground arith
byte_at-set (x ∷ xs) (suc i) v zero h = ground arith
byte_at-set (x ∷ xs) (suc i) v (suc q) h = ground (arith, byte_at-set xs i v q)

pub buffer_ext :
    (xs ys : List ℕ)
    → length xs ≡ length ys
    → ((i : ℕ) → i < length xs → byte_at xs i ≡ byte_at ys i)
    → xs ≡ ys
buffer_ext [] [] e h = refl
buffer_ext [] (y ∷ ys) e h = absurd (omega arith)
buffer_ext (x ∷ xs) [] e h = absurd (omega arith)
buffer_ext (x ∷ xs) (y ∷ ys) e h =
    ap₂ ◌∷◌ (h 0 (omega arith)) (buffer_ext xs ys (omega arith) (λ i k. h (suc i) (omega arith)))

-- `memcpy(dst + d, src + s, n)`
unfoldable pub copy : ℕ → List ℕ → ℕ → List ℕ → ℕ → List ℕ
copy n dst d src s = for_below n (λ i buf. set buf (d + i) (byte_at src (s + i))) dst

-- `memset(dst + d, v, n)`
unfoldable pub fill : ℕ → List ℕ → ℕ → ℕ → List ℕ
fill n dst d v = for_below n (λ i buf. set buf (d + i) v) dst

pub length-for_below :
    (n : ℕ) (body : ℕ → List ℕ → List ℕ)
    → ((i : ℕ) (b : List ℕ) → length (body i b) ≡ length b)
    → (buf : List ℕ) → length (for_below n body buf) ≡ length buf
unfolding for_below
length-for_below zero body keep buf = refl
length-for_below (suc n) body keep buf =
    keep n (for_below n body buf) ∙ length-for_below n body keep buf

pub length-copy :
    (n : ℕ) (dst : List ℕ) (d : ℕ) (src : List ℕ) (s : ℕ) → length (copy n dst d src s) ≡ length dst
unfolding copy
length-copy n dst d src s = length-for_below n _ (λ i b. length-set b (d + i) _) dst

pub length-fill : (n : ℕ) (dst : List ℕ) (d v : ℕ) → length (fill n dst d v) ≡ length dst
unfolding fill
length-fill n dst d v = length-for_below n _ (λ i b. length-set b (d + i) v) dst

pub byte_at-copy :
    (n : ℕ) (dst : List ℕ) (d : ℕ) (src : List ℕ) (s q : ℕ)
    → d + n ≤ length dst
    → byte_at (copy n dst d src s) q
      ≡ (if leb d q && ltb q (d + n) then byte_at src (s + (q - d)) else byte_at dst q)
unfolding copy for_below
byte_at-copy zero dst d src s q h = ground arith
byte_at-copy (suc n) dst d src s q h =
    let before = copy n dst d src s in
    let room : d + n < length before = omega (arith, length-copy n dst d src s) in
    byte_at-set before (d + n) (byte_at src (s + n)) q room ∙ elim (Bool-cases (d + n == q)) [
      | inl e ↦ let same : q - d ≡ n = ground arith in rw (e, same) (ground arith)
      | inr e ↦ rw e (ground (arith, byte_at-copy n dst d src s q))
    ]

pub byte_at-fill :
    (n : ℕ) (dst : List ℕ) (d v q : ℕ)
    → d + n ≤ length dst
    → byte_at (fill n dst d v) q ≡ (if leb d q && ltb q (d + n) then v else byte_at dst q)
unfolding fill for_below
byte_at-fill zero dst d v q h = ground arith
byte_at-fill (suc n) dst d v q h =
    let before = fill n dst d v in
    let room : d + n < length before = omega (arith, length-fill n dst d v) in
    byte_at-set before (d + n) v q room ∙ ground (arith, byte_at-fill n dst d v q)

-- A loop of whose rounds at most `hit` writes the index `q`.
module _ (body : ℕ → List ℕ → List ℕ) (len q : ℕ)
    (keep : (i : ℕ) (b : List ℕ) → length (body i b) ≡ length b) where
  pub for_below_frame :
      (n : ℕ) (buf : List ℕ)
      → length buf ≡ len
      → ((i : ℕ) (b : List ℕ) → i < n → length b ≡ len → byte_at (body i b) q ≡ byte_at b q)
      → byte_at (for_below n body buf) q ≡ byte_at buf q
  unfolding for_below
  for_below_frame zero buf e h = refl
  for_below_frame (suc n) buf e h =
      h n (for_below n body buf) (omega arith) (length-for_below n body keep buf ∙ e)
      ∙ for_below_frame n buf e (λ i b k. h i b (omega arith))

  pub for_below_hit :
      (n hit v : ℕ) (buf : List ℕ)
      → length buf ≡ len
      → hit < n
      → ((b : List ℕ) → length b ≡ len → byte_at (body hit b) q ≡ v)
      → ((i : ℕ) (b : List ℕ)
          → i < n
          → i ≢ hit
          → length b ≡ len
          → byte_at (body i b) q ≡ byte_at b q)
      → byte_at (for_below n body buf) q ≡ v
  unfolding for_below
  for_below_hit zero hit v buf e k write frame = absurd (omega arith)
  for_below_hit (suc n) hit v buf e k write frame =
      let e' = length-for_below n body keep buf ∙ e in
      elim (Bool-cases (n == hit)) [
        | inl same ↦
            let here : n ≡ hit = ground arith in
            rw here (write (for_below hit body buf) (length-for_below hit body keep buf ∙ e))
        | inr other ↦
            frame n (for_below n body buf) (omega arith) (ground arith) e'
            ∙ for_below_hit n hit v buf e (ground arith) write (λ i b k'. frame i b (omega arith))
      ]
