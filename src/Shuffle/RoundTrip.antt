-- ===== src/Shuffle/RoundTrip.antt =====
-- Unshuffling gives back what was shuffled.
use dewfall.Prelude.{
  ℕ, zero, suc, ◌+◌, ◌-◌, ◌*◌, ◌/◌, ◌%◌, ◌^◌, ◌≤◌, ◌<◌, ◌≡◌, ◌||◌, ◌&&◌, refl, true, List, length,
  byte_at, copy, length-copy, byte_at-copy, buffer_ext, arith, element_before, inl, inr, Bool-cases,
  ltb, leb, ◌==◌, if◌then◌else◌, ◌∙◌, sym, ap,
}
use native.Mathlib.Nat.{mul_comm}
use dewfall.Shuffle.{move_bytes, in_point, in_band, byte_shuffle, byte_unshuffle}
use dewfall.Shuffle.Loop.{split_unique, length-move_bytes, move_bytes_hit}

pub div_below : (j n w : ℕ) → j < n * w → j / w < n
div_below j n w h = grind arith

pub mod_small : (n w : ℕ) → n < w → n % w ≡ n
mod_small n w h = grind arith

pub mod_parts : (j w : ℕ) → 0 < w → (j ≡ j / w * w + j % w) × (j % w < w)
mod_parts j w h = grind arith

-- the buffer after the loops and the copy of the remainder
module _ (n cc ts stride total : ℕ) (same : stride ≡ cc * ts) (to from : ℕ → ℕ → ℕ → ℕ)
    (src dst : List ℕ) (whole : length dst ≡ total) (parts : total ≡ stride * n + total % stride)
    (below : (i c b : ℕ) → i < n → c < cc → b < ts → to i c b < stride * n)
    (one : (i c b i' c' b' : ℕ)
      → i < n
      → c < cc
      → b < ts
      → i' < n
      → c' < cc
      → b' < ts
      → to i c b ≡ to i' c' b'
      → (i ≡ i') × (c ≡ c') × (b ≡ b')) where
  abbrev moved : List ℕ
  moved = move_bytes n cc ts to from src dst

  abbrev finished : List ℕ
  finished =
      if ltb 0 (total % stride)
      then copy (total % stride) moved (stride * n) src (stride * n)
      else moved

  room : (i c b : ℕ) → i < n → c < cc → b < ts → to i c b < length dst
  room i c b hi hc hb = omega (arith, below i c b hi hc hb)

  length-finished : length finished ≡ total
  length-finished = ground (
    arith,
    length-copy (total % stride) moved (stride * n) src (stride * n),
    length-move_bytes n cc ts to from src dst,
  )

  finished_tail : (q : ℕ) → stride * n ≤ q → q < total → byte_at finished q ≡ byte_at src q
  finished_tail q low top =
      let fits : stride * n + total % stride ≤ length moved =
        omega (arith, length-move_bytes n cc ts to from src dst) in
      let some_left : ltb 0 (total % stride) ≡ true = ground arith in
      let place : stride * n + (q - stride * n) ≡ q = omega arith in
      let copied = byte_at-copy (total % stride) moved (stride * n) src (stride * n) q fits in
      let inside : (leb (stride * n) q && ltb q (stride * n + total % stride)) ≡ true =
        ground arith in
      rw some_left (copied ∙ rw inside (ap (byte_at src) place))

  finished_hit :
      (i c b : ℕ) → i < n → c < cc → b < ts → byte_at finished (to i c b) ≡ byte_at src (from i c b)
  finished_hit i c b hi hc hb =
      let fits : stride * n + total % stride ≤ length moved =
        omega (arith, length-move_bytes n cc ts to from src dst) in
      let q = to i c b in
      let hit =
        move_bytes_hit n cc ts to from src dst q room i c b hi hc hb refl
          (λ i' c' b' hi' hc' hb' e. one i' c' b' i c b hi' hc' hb' hi hc hb e) in
      ground (
        arith,
        hit,
        below i c b hi hc hb,
        byte_at-copy (total % stride) moved (stride * n) src (stride * n) q fits,
      )

module _ (n cc ts : ℕ) where
  in_stride : (c b : ℕ) → c < cc → b < ts → c * ts + b < cc * ts
  in_stride c b hc hb = omega (arith, element_before c cc ts hc)

  in_band_below : (i c b : ℕ) → i < n → c < cc → b < ts → in_band n ts i c b < cc * ts * n
  in_band_below i c b hi hc hb =
      omega (arith, element_before (c * ts + b) (cc * ts) n (in_stride c b hc hb))

  in_band_one :
      (i c b i' c' b' : ℕ)
      → i < n
      → c < cc
      → b < ts
      → i' < n
      → c' < cc
      → b' < ts
      → in_band n ts i c b ≡ in_band n ts i' c' b'
      → (i ≡ i') × (c ≡ c') × (b ≡ b')
  in_band_one i c b i' c' b' hi hc hb hi' hc' hb' e =
      let (k, same) = split_unique (c * ts + b) (c' * ts + b') n i i' hi hi' e in
      let (kc, kb) = split_unique c c' ts b b' hb hb' k in (same, kc, kb)

  in_point_below : (i c b : ℕ) → i < n → c < cc → b < ts → in_point (cc * ts) ts i c b < cc * ts * n
  in_point_below i c b hi hc hb =
      omega (arith, in_stride c b hc hb, element_before i n (cc * ts) hi)

  in_point_one :
      (i c b i' c' b' : ℕ)
      → i < n
      → c < cc
      → b < ts
      → i' < n
      → c' < cc
      → b' < ts
      → in_point (cc * ts) ts i c b ≡ in_point (cc * ts) ts i' c' b'
      → (i ≡ i') × (c ≡ c') × (b ≡ b')
  in_point_one i c b i' c' b' hi hc hb hi' hc' hb' e =
      let (same, k) =
        split_unique i i' (cc * ts) (c * ts + b) (c' * ts + b') (in_stride c b hc hb)
          (in_stride c' b' hc' hb') e in
      let (kc, kb) = split_unique c c' ts b b' hb hb' k in (same, kc, kb)

pub copy_all : (src dst : List ℕ) → length dst ≡ length src → copy (length src) dst 0 src 0 ≡ src
copy_all src dst e =
    buffer_ext (copy (length src) dst 0 src 0) src (length-copy (length src) dst 0 src 0 ∙ e)
      (λ q h.
        ground
          (arith, byte_at-copy (length src) dst 0 src 0 q, length-copy (length src) dst 0 src 0))

factor_pos : (cc ts : ℕ) → 0 < cc * ts → 0 < ts
factor_pos cc zero h = absurd (omega arith)
factor_pos cc (suc ts) h = omega arith

-- the two directions, with the stride as a product in the order of the loops
module _ (n cc ts : ℕ) (src dst dst' : List ℕ) (some_byte : 0 < cc * ts)
    (count : n ≡ length src / (cc * ts)) (whole : length dst ≡ length src)
    (whole' : length dst' ≡ length src) where
  abbrev stride : ℕ
  stride = cc * ts

  parts : length src ≡ stride * n + length src % stride
  parts = grind (arith, mod_parts (length src) stride some_byte)

  abbrev shuffled : List ℕ
  shuffled =
      finished n cc ts stride (length src) refl (in_band n ts) (in_point stride ts) src dst whole
        parts (in_band_below n cc ts) (in_band_one n cc ts)

  length-shuffled : length shuffled ≡ length src
  length-shuffled =
      length-finished n cc ts stride (length src) refl (in_band n ts) (in_point stride ts) src dst
        whole parts (in_band_below n cc ts) (in_band_one n cc ts)

  abbrev unshuffled : List ℕ
  unshuffled =
      finished n cc ts stride (length src) refl (in_point stride ts) (in_band n ts) shuffled dst'
        whole' parts (in_point_below n cc ts) (in_point_one n cc ts)

  unshuffled_point : (j : ℕ) → j < stride * n → byte_at unshuffled j ≡ byte_at src j
  unshuffled_point j h =
      let some_type : 0 < ts = factor_pos cc ts some_byte in
      let i = j / stride in
      let k = j % stride in
      let (whole_j, in_k) = mod_parts j stride some_byte in
      let (whole_k, in_b) = mod_parts k ts some_type in
      let hi : i < n = div_below j n stride (omega arith) in
      let hc : k / ts < cc = div_below k cc ts in_k in
      let here : in_point stride ts i (k / ts) (k % ts) ≡ j = omega arith in
      let back =
        finished_hit n cc ts stride (length src) refl (in_point stride ts) (in_band n ts) shuffled
          dst' whole' parts (in_point_below n cc ts) (in_point_one n cc ts) i (k / ts) (k % ts) hi
          hc in_b in
      let forth =
        finished_hit n cc ts stride (length src) refl (in_band n ts) (in_point stride ts) src dst
          whole parts (in_band_below n cc ts) (in_band_one n cc ts) i (k / ts) (k % ts) hi hc
          in_b in
      ap (byte_at unshuffled) (sym here) ∙ back ∙ forth ∙ ap (byte_at src) here

  unshuffled_lem : unshuffled ≡ src
  unshuffled_lem =
      let len =
        length-finished n cc ts stride (length src) refl (in_point stride ts) (in_band n ts)
          shuffled dst' whole' parts (in_point_below n cc ts) (in_point_one n cc ts) in
      buffer_ext unshuffled src len (λ j h. elim (Bool-cases (ltb j (stride * n))) [
        | inl e ↦ unshuffled_point j (ground arith)
        | inr e ↦
            finished_tail n cc ts stride (length src) refl (in_point stride ts) (in_band n ts)
              shuffled dst' whole' parts (in_point_below n cc ts) (in_point_one n cc ts) j
              (ground arith) (omega (arith, len))
            ∙ finished_tail n cc ts stride (length src) refl (in_band n ts) (in_point stride ts) src
                dst whole parts (in_band_below n cc ts) (in_band_one n cc ts) j (ground arith)
                (omega (arith, len))
      ])

-- `byte_unshuffle`, into a buffer of its own, gives back the whole of the bytes that `byte_shuffle`
-- was given, the remainder behind the last whole point included, for every type size and number of
-- components whose product fits the 32 bits of the stride.
pub byte_unshuffle-byte_shuffle :
    (src dst dst' : List ℕ) (typesize component_count : ℕ)
    → length dst ≡ length src
    → length dst' ≡ length src
    → typesize * component_count < 2 ^ 32
    → byte_unshuffle
        (byte_shuffle src dst (length src) typesize component_count)
        dst'
        (length src)
        typesize
        component_count
      ≡ src
unfolding byte_shuffle byte_unshuffle
byte_unshuffle-byte_shuffle src dst dst' ts cc e e' room =
    let order : (ts * cc) % 2 ^ 32 ≡ cc * ts = mod_small (ts * cc) (2 ^ 32) room ∙ mul_comm ts cc in
    rw order (elim (Bool-cases (leb (cc * ts) 1 || length src == 0)) [
      | inl plain ↦ rw plain (rw (copy_all src dst e) (copy_all src dst' e'))
      | inr banded ↦
          rw banded
            (unshuffled_lem (length src / (cc * ts)) cc ts src dst dst' (ground arith) refl e e')
    ])

pub length-byte_shuffle :
    (src dst : List ℕ) (size typesize component_count : ℕ)
    → length (byte_shuffle src dst size typesize component_count) ≡ length dst
unfolding byte_shuffle
length-byte_shuffle src dst size ts cc =
    let stride = (ts * cc) % 2 ^ 32 in
    let n = size / stride in
    let r = size % stride in
    let moved = move_bytes n cc ts (in_band n ts) (in_point stride ts) src dst in
    let moved_lem = length-move_bytes n cc ts (in_band n ts) (in_point stride ts) src dst in
    elim (Bool-cases (leb stride 1 || size == 0)) [
      | inl plain ↦ rw plain (length-copy size dst 0 src 0)
      | inr banded ↦ elim (Bool-cases (ltb 0 r)) [
        | inl some_left ↦
            rw banded (rw some_left (length-copy r moved (stride * n) src (stride * n) ∙ moved_lem))
        | inr whole ↦ rw banded (rw whole moved_lem)
      ]
    ]
