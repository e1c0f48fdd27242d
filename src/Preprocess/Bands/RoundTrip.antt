-- ===== src/Preprocess/Bands/RoundTrip.antt =====
-- Restoring gives back what was compacted.
use dewfall.Prelude.{
  ℕ, zero, suc, ◌+◌, ◌-◌, ◌*◌, ◌/◌, ◌%◌, ◌^◌, ◌≤◌, ◌<◌, ◌≡◌, ◌⊎◌, pow-suc, refl, true, false, List,
  [], ltb, leb, ◌==◌, ◌&&◌, ◌||◌, if◌then◌else◌, arith, ap, sym, subst, ◌∙◌, Bool-cases, inl, inr,
  length, byte_at, copy, fill, length-copy, length-fill, byte_at-copy, byte_at-fill, for_below,
  for_below_ind, element_before, buffer_ext,
}
use dewfall.Shuffle.RoundTrip.{copy_all, mod_parts}
use dewfall.Preprocess.Bands.{
  zeroed, assigned, test_bit, is_constant, popcount, popcount32, compact_band, compact, scan_band,
  restore_band, restore_constant_bands, detect_constant_bands, BandCompactResult,
}
use dewfall.Preprocess.Bands.Scan.{
  is_constant_lem, constants, kept, constants-kept, kept_grows, Scanned, scan_lem, Compacted,
  compact_loop,
}

pub length-zeroed : (n : ℕ) → length (zeroed n) ≡ n
length-zeroed zero = refl
length-zeroed (suc n) = ap suc (length-zeroed n)

pub assigned_lem : (src : List ℕ) → assigned src (length src) ≡ src
unfolding assigned
assigned_lem src = copy_all src (zeroed (length src)) (length-zeroed (length src))

-- The remainder is at the end of the compacted data, and the bands before it are as the loop left them.
module _ (src : List ℕ) (n r count mask : ℕ)
    (bits : (i : ℕ) → i < count → test_bit mask i ≡ is_constant src n i)
    (ones : popcount32 mask ≡ constants src n count) where
  abbrev size : ℕ
  size = kept src n count * n + r

  left_over : count - popcount32 mask ≡ kept src n count
  left_over = omega (arith, ones, constants-kept src n count)

  abbrev looped : List ℕ × ℕ
  looped = for_below count (compact_band src n mask) (zeroed size, 0)

  looped_lem : Compacted src n size count looped
  looped_lem =
      compact_loop src n size mask count (zeroed size) (length-zeroed size) (omega arith) bits

  pub compact_eq :
      compact src n r count mask
      ≡ (if ltb 0 r then copy r looped.0 (kept src n count * n) src (count * n) else looped.0)
  unfolding compact
  compact_eq = rw left_over (rw (looped_lem.1) refl)

  pub length-compact : length (compact src n r count mask) ≡ size
  length-compact =
      rw compact_eq (
        ground (arith, looped_lem.0, length-copy r looped.0 (kept src n count * n) src (count * n)))

  fits : kept src n count * n + r ≤ length looped.0
  fits = omega (arith, looped_lem.0)

  pub compact_band_lem :
      (i t : ℕ)
      → i < count
      → is_constant src n i ≡ false
      → t < n
      → byte_at (compact src n r count mask) (kept src n i * n + t) ≡ byte_at src (i * n + t)
  compact_band_lem i t h c l =
      let grows = kept_grows src n i count h c in
      let below = element_before (kept src n i) (kept src n count) n (omega arith) in
      let q = kept src n i * n + t in
      let old = looped_lem.2 i t h c l in
      let copied = byte_at-copy r looped.0 (kept src n count * n) src (count * n) q fits in
      rw compact_eq (ground arith)

  pub compact_rest :
      (t : ℕ)
      → t < r
      → byte_at (compact src n r count mask) (kept src n count * n + t)
        ≡ byte_at src (count * n + t)
  compact_rest t l =
      let q = kept src n count * n + t in
      let back : q - kept src n count * n ≡ t = omega arith in
      let some_left : ltb 0 r ≡ true = ground arith in
      let inside : (leb (kept src n count * n) q && ltb q (kept src n count * n + r)) ≡ true =
        ground arith in
      rw compact_eq (
        rw some_left (
          byte_at-copy r looped.0 (kept src n count * n) src (count * n) q fits
          ∙ rw (inside, back) refl))

module _ (src : List ℕ) (n r count mask : ℕ) (values compacted : List ℕ)
    (whole : length src ≡ count * n + r)
    (bits : (i : ℕ) → i < count → test_bit mask i ≡ is_constant src n i)
    (vals : (i : ℕ)
      → i < count
      → is_constant src n i ≡ true
      → byte_at values (constants src n i) ≡ byte_at src (i * n))
    (bands : (i t : ℕ)
      → i < count
      → is_constant src n i ≡ false
      → t < n
      → byte_at compacted (kept src n i * n + t) ≡ byte_at src (i * n + t))
    (rest : (t : ℕ)
      → t < r
      → byte_at compacted (kept src n count * n + t) ≡ byte_at src (count * n + t)) where
  -- the state of the restoring loop after `k` bands
  abbrev Restored : ℕ → List ℕ × ℕ × ℕ → Type 0
  Restored k (dst, src_offset, const_idx) =
      (length dst ≡ count * n + r)
      × (src_offset ≡ kept src n k * n)
      × (const_idx ≡ constants src n k)
      × ((q : ℕ) → q < k * n → byte_at dst q ≡ byte_at src q)

  restore_constant :
      (k : ℕ) (dst : List ℕ) (off ci : ℕ)
      → k < count
      → Restored k (dst, off, ci)
      → is_constant src n k ≡ true
      → Restored (suc k) (fill n dst (k * n) (byte_at values ci), off, ci + 1)
  restore_constant k dst off ci l (len, place, next, done) e =
      let room = element_before k count n l in
      let v = byte_at values ci in
      let value : v ≡ byte_at src (k * n) = ap (byte_at values) next ∙ vals k l e in
      let filled = λ (q : ℕ). byte_at-fill n dst (k * n) v q (omega arith) in
      (
        length-fill n dst (k * n) v ∙ len,
        ground (arith, place, e),
        ground (arith, next, e),
        λ q h. elim (Bool-cases (ltb q (k * n))) [
          | inl before ↦ ground (arith, filled q, done q)
          | inr here ↦
              let t = q - k * n in
              let same : k * n + t ≡ q = ground arith in
              let inside : (leb (k * n) q && ltb q (k * n + n)) ≡ true = ground arith in
              filled q
              ∙ rw inside (
                  value ∙ (sym (is_constant_lem src n k t e (omega arith)) ∙ ap (byte_at src) same))
        ],
      )

  restore_kept :
      (k : ℕ) (dst : List ℕ) (off ci : ℕ)
      → k < count
      → Restored k (dst, off, ci)
      → is_constant src n k ≡ false
      → Restored (suc k) (copy n dst (k * n) compacted off, off + n, ci)
  restore_kept k dst off ci l (len, place, next, done) e =
      let room = element_before k count n l in
      let copied = λ (q : ℕ). byte_at-copy n dst (k * n) compacted off q (omega arith) in
      (
        length-copy n dst (k * n) compacted off ∙ len,
        ground (arith, place, e),
        ground (arith, next, e),
        λ q h. elim (Bool-cases (ltb q (k * n))) [
          | inl before ↦ ground (arith, copied q, done q)
          | inr here ↦
              let t = q - k * n in
              let same : k * n + t ≡ q = ground arith in
              let inside : (leb (k * n) q && ltb q (k * n + n)) ≡ true = ground arith in
              copied q
              ∙ rw inside (
                  ap (λ d. byte_at compacted (d + t)) place
                  ∙ (bands k t l e (omega arith) ∙ ap (byte_at src) same))
        ],
      )

  restore_step :
      (k : ℕ) (s : List ℕ × ℕ × ℕ)
      → k < count
      → Restored k s
      → Restored (suc k) (restore_band compacted n mask values k s)
  restore_step k (dst, off, ci) l p = elim (Bool-cases (is_constant src n k)) [
    | inl e ↦
        let next : restore_band compacted n mask values k (dst, off, ci)
            ≡ (fill n dst (k * n) (byte_at values ci), off, ci + 1) =
          unfold restore_band in rw (bits k l ∙ e) refl in
        subst (Restored (suc k)) (sym next) (restore_constant k dst off ci l p e)
    | inr e ↦
        let next : restore_band compacted n mask values k (dst, off, ci)
            ≡ (copy n dst (k * n) compacted off, off + n, ci) =
          unfold restore_band in rw (bits k l ∙ e) refl in
        subst (Restored (suc k)) (sym next) (restore_kept k dst off ci l p e)
  ]

  module _ (dst : List ℕ) (same_length : length dst ≡ length src) where
    abbrev back : List ℕ × ℕ × ℕ
    back = for_below count (restore_band compacted n mask values) (dst, 0, 0)

    back_lem : Restored count back
    back_lem =
        for_below_ind Restored (restore_band compacted n mask values) count
          (λ k s h p. restore_step k s h p) count (dst, 0, 0) (omega arith)
          (same_length ∙ whole, omega arith, omega arith, λ q h. absurd (omega arith))

    pub restored : (if ltb 0 r then copy r back.0 (count * n) compacted back.1 else back.0) ≡ src
    restored =
        let (len, place, next, done) = back_lem in
        let copied =
          λ (q : ℕ). byte_at-copy r back.0 (count * n) compacted back.1 q (omega arith) in
        elim (Bool-cases (ltb 0 r)) [
          | inr none_left ↦ rw none_left (
              buffer_ext back.0 src (omega (arith, whole, len))
                (λ q h. done q (ground (arith, len))))
          | inl some_left ↦ rw some_left (
              buffer_ext (copy r back.0 (count * n) compacted back.1) src
                (length-copy r back.0 (count * n) compacted back.1 ∙ (len ∙ sym whole))
                (λ q h. elim (Bool-cases (ltb q (count * n))) [
                  | inl before ↦ ground (arith, copied q, done q)
                  | inr here ↦
                      let low : count * n ≤ q = ground arith in
                      let t = q - count * n in
                      let top : t < r =
                        omega (arith, length-copy r back.0 (count * n) compacted back.1, len) in
                      let same : count * n + t ≡ q = ground arith in
                      let inside : (leb (count * n) q && ltb q (count * n + r)) ≡ true =
                        ground arith in
                      copied q
                      ∙ rw inside (
                          ap (λ d. byte_at compacted (d + t)) place
                          ∙ (rest t top ∙ ap (byte_at src) same))
                ]))
        ]

-- What detecting has to find: a buffer without constant bands as it is, or else data from which
-- `restore_constant_bands` makes the buffer, of the sizes that a reader computes from the mask.
abbrev pub BandsRestored : List ℕ → List ℕ → ℕ → ℕ → BandCompactResult → Type 0
BandsRestored src dst type_size component_count result =
    if result.band_mask == 0
    then result.compacted_data ≡ src
    else ((restore_constant_bands result.compacted_data dst (length src) result.band_mask
            result.constant_values type_size component_count
          ≡ src)
        × (length result.constant_values ≡ popcount32 result.band_mask)
        × (length result.compacted_data
            ≡ (type_size * component_count - popcount32 result.band_mask)
                * (length src / (type_size * component_count))
              + length src % (type_size * component_count)))

found :
    (src dst : List ℕ) (ts cc mask : ℕ) (values : List ℕ)
    → 0 < ts * cc
    → 0 < length src
    → ts * cc ≤ 32
    → Scanned src (length src / (ts * cc)) (ts * cc) (mask, values)
    → length dst ≡ length src
    → (restore_constant_bands
          (compact src (length src / (ts * cc)) (length src % (ts * cc)) (ts * cc) mask)
          dst
          (length src)
          mask
          values
          ts
          cc
        ≡ src)
      × (length values ≡ popcount32 mask)
      × (length (compact src (length src / (ts * cc)) (length src % (ts * cc)) (ts * cc) mask)
          ≡ (ts * cc - popcount32 mask) * (length src / (ts * cc)) + length src % (ts * cc))
unfolding restore_constant_bands popcount32
found src dst ts cc mask values some_band some_byte few (small, bits, len, vals, pop) e =
    let count = ts * cc in
    let n = length src / count in
    let r = length src % count in
    let ones : popcount 32 mask ≡ constants src n count = pop few in
    let whole : length src ≡ count * n + r =
      grind (arith, mod_parts (length src) count some_band) in
    let left : count - popcount 32 mask ≡ kept src n count =
      omega (arith, ones, constants-kept src n count) in
    let guard : (count == 0 || length src == 0) ≡ false = ground arith in
    (
      rw guard (
          restored src n r count mask values (compact src n r count mask) whole bits vals
            (compact_band_lem src n r count mask bits ones)
            (compact_rest src n r count mask bits ones) dst e),
      len ∙ sym ones,
      length-compact src n r count mask bits ones ∙ ap (λ d. d * n + r) (sym left),
    )

-- The constant bands that `detect_constant_bands` takes out of a buffer are put back by
-- `restore_constant_bands`: where bands were found, the whole buffer comes back, the remainder
-- included, and the compacted data and the constants have the sizes that a reader computes from the
-- mask; where none were, the data is the buffer itself.
pub restore_constant_bands-detect_constant_bands :
    (src dst : List ℕ) (type_size component_count : ℕ)
    → length dst ≡ length src
    → BandsRestored src dst type_size component_count
        (detect_constant_bands src (length src) type_size component_count)
unfolding detect_constant_bands
restore_constant_bands-detect_constant_bands src dst ts cc same =
    let n = length src / (ts * cc) in
    let scanned = for_below (ts * cc) (scan_band src n) (0, []) in
    elim (Bool-cases (ts * cc == 0 || length src == 0)) [
      | inl e ↦ rw e (assigned_lem src)
      | inr e ↦ elim (Bool-cases (ltb 32 (ts * cc) || n == 0)) [
        | inl f ↦ rw e (rw f (assigned_lem src))
        | inr f ↦ elim (Bool-cases (scanned.0 == 0)) [
          | inl g ↦ rw e (rw f (rw g (assigned_lem src)))
          | inr g ↦ rw e (
              rw f (
                rw g (
                  rw g (
                    found src dst ts cc scanned.0 scanned.1 (ground arith) (ground arith)
                      (ground arith) (scan_lem src n (ts * cc)) same))))
        ]
      ]
    ]

pow_le : (a b : ℕ) → a ≤ b → 2 ^ a ≤ 2 ^ b
pow_le a zero l = ground arith
pow_le a (suc b) l = elim (Bool-cases (leb a b)) [
  | inl e ↦ omega (arith, pow-suc 2 b, pow_le a b (ground arith))
  | inr e ↦ let same : a ≡ suc b = ground arith in rw same (omega arith)
]

-- The mask of the bands that are found fits 32 bits, and there are bands.
pub detect_constant_bands_mask :
    (src : List ℕ) (ts count size : ℕ)
    → (((detect_constant_bands src size ts count).band_mask == 0) ≡ true)
      ⊎ ((0 < ts * count) × ((detect_constant_bands src size ts count).band_mask < 2 ^ 32))
unfolding detect_constant_bands
detect_constant_bands_mask src ts count size =
    let n = size / (ts * count) in
    let scanned = for_below (ts * count) (scan_band src n) (0, []) in
    elim (Bool-cases (ts * count == 0 || size == 0)) [
      | inl e ↦ rw e (inl refl)
      | inr e ↦ elim (Bool-cases (ltb 32 (ts * count) || n == 0)) [
        | inl f ↦ rw e (rw f (inl refl))
        | inr f ↦ elim (Bool-cases (scanned.0 == 0)) [
          | inl g ↦ rw e (rw f (rw g (inl refl)))
          | inr g ↦
              let few : ts * count ≤ 32 = ground arith in
              rw e (
                rw f (
                  rw g (
                    inr (
                      ground arith,
                      omega (arith, (scan_lem src n (ts * count)).0, pow_le (ts * count) 32 few),
                    ))))
        ]
      ]
    ]
