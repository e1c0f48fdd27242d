-- ===== src/Preprocess/Bands/Scan.antt =====
-- What the scan finds, and where the compaction puts the bands that are kept.
use dewfall.Prelude.{
  ℕ, zero, suc, ◌+◌, ◌-◌, ◌*◌, ◌^◌, ◌≤◌, ◌<◌, ◌≡◌, refl, true, false, List, [], ◌∷◌, ◌++◌, ltb, leb,
  ◌==◌, ◌&&◌, if◌then◌else◌, arith, ap, sym, subst, ◌∙◌, Bool-cases, inl, inr, length,
  length-append, byte_at, copy, length-copy, byte_at-copy, for_below, for_below_ind, element_before,
  pow-suc,
}
use dewfall.Preprocess.Bands.{test_bit, popcount, same_from, is_constant, scan_band, compact_band}
use dewfall.Preprocess.Bands.Bits.{
  set_bit_lem, test_above, test_bit_new, test_bit_old, popcount_new, popcount_zero,
}

pub same_from_lem :
    (src : List ℕ) (start first i rounds t : ℕ)
    → same_from src start first i rounds ≡ true
    → i ≤ t
    → t < i + rounds
    → byte_at src (start + t) ≡ first
unfolding same_from
same_from_lem src start first i zero t h low top = absurd (omega arith)
same_from_lem src start first i (suc rounds) t h low top = elim (Bool-cases (i == t)) [
  | inl e ↦ ground arith
  | inr e ↦
      same_from_lem src start first (i + 1) rounds t (ground arith) (ground arith) (omega arith)
]

-- Every byte of a constant band is its first.
pub is_constant_lem :
    (src : List ℕ) (n b t : ℕ)
    → is_constant src n b ≡ true
    → t < n
    → byte_at src (b * n + t) ≡ byte_at src (b * n)
unfolding is_constant
is_constant_lem src n b zero h l = ap (byte_at src) (omega arith)
is_constant_lem src n b (suc t) h l =
    same_from_lem src (b * n) (byte_at src (b * n)) 1 (n - 1) (suc t) h (omega arith) (omega arith)

module _ (src : List ℕ) (n : ℕ) where
  -- how many of the bands before `b` are constant, and how many are kept
  abbrev pub constants : ℕ → ℕ
  constants zero = 0
  constants (suc b) = constants b + (if is_constant src n b then 1 else 0)

  abbrev pub kept : ℕ → ℕ
  kept zero = 0
  kept (suc b) = kept b + (if is_constant src n b then 0 else 1)

  pub constants-kept : (b : ℕ) → constants b + kept b ≡ b
  constants-kept zero = refl
  constants-kept (suc b) = elim (Bool-cases (is_constant src n b)) [
    | inl e ↦ rw e (omega (arith, constants-kept b))
    | inr e ↦ rw e (omega (arith, constants-kept b))
  ]

  pub kept_grows : (b c : ℕ) → b < c → is_constant src n b ≡ false → kept b + 1 ≤ kept c
  kept_grows b zero l e = absurd (omega arith)
  kept_grows b (suc c) l e = elim (Bool-cases (b == c)) [
    | inl same ↦
        let here : b ≡ c = ground arith in
        let e' : is_constant src n c ≡ false = ap (λ d. is_constant src n d) (sym here) ∙ e in
        rw e' (omega (arith, ap kept here))
    | inr other ↦ ground (arith, kept_grows b c (ground arith) e)
  ]

  -- the state of the scan after `k` bands
  abbrev pub Scanned : ℕ → ℕ × List ℕ → Type 0
  Scanned k (mask, values) =
      (mask < 2 ^ k)
      × ((i : ℕ) → i < k → test_bit mask i ≡ is_constant src n i)
      × (length values ≡ constants k)
      × ((i : ℕ)
          → i < k
          → is_constant src n i ≡ true
          → byte_at values (constants i) ≡ byte_at src (i * n))
      × (k ≤ 32 → popcount 32 mask ≡ constants k)

  constants_grows : (b c : ℕ) → b < c → is_constant src n b ≡ true → constants b < constants c
  constants_grows b zero l e = absurd (omega arith)
  constants_grows b (suc c) l e = elim (Bool-cases (b == c)) [
    | inl same ↦
        let here : b ≡ c = ground arith in
        let e' : is_constant src n c ≡ true = ap (λ d. is_constant src n d) (sym here) ∙ e in
        rw e' (omega (arith, ap constants here))
    | inr other ↦ ground (arith, constants_grows b c (ground arith) e)
  ]

  byte_at-append :
      (l : List ℕ) (v i : ℕ)
      → byte_at (l ++ (v ∷ [])) i ≡ (if i == length l then v else byte_at l i)
  byte_at-append [] v zero = refl
  byte_at-append [] v (suc i) = ground arith
  byte_at-append (x ∷ l) v zero = ground arith
  byte_at-append (x ∷ l) v (suc i) = ground (arith, byte_at-append l v i)

  scan_constant :
      (k mask : ℕ) (values : List ℕ)
      → Scanned k (mask, values)
      → is_constant src n k ≡ true
      → Scanned (suc k) (mask + 2 ^ k, values ++ (byte_at src (k * n) ∷ []))
  scan_constant k mask values (small, bits, len, vals, pop) e = (
    omega (arith, pow-suc 2 k),
    λ i h. elim (Bool-cases (i == k)) [
      | inl same ↦
          let here : i ≡ k = ground arith in
          ap (test_bit (mask + 2 ^ k)) here
          ∙ (test_bit_new mask k small ∙ (sym e ∙ ap (is_constant src n) (sym here)))
      | inr other ↦ test_bit_old mask k i small (ground arith) ∙ bits i (ground arith)
    ],
    ground (arith, length-append {0} values (byte_at src (k * n) ∷ []), len, e),
    λ i h c. elim (Bool-cases (i == k)) [
      | inl same ↦
          let here : i ≡ k = ground arith in
          let last : byte_at (values ++ (byte_at src (k * n) ∷ [])) (constants k)
              ≡ byte_at src (k * n) =
            ground (arith, byte_at-append values (byte_at src (k * n)) (constants k)) in
          ap (λ d. byte_at (values ++ (byte_at src (k * n) ∷ [])) (constants d)) here
          ∙ (last ∙ ap (λ d. byte_at src (d * n)) (sym here))
      | inr other ↦
          let before = constants_grows i k (ground arith) c in
          let old = vals i (ground arith) c in
          ground (arith, byte_at-append values (byte_at src (k * n)) (constants i))
    ],
    λ h. ground (arith, popcount_new 32 mask k small h, pop (omega arith), e),
  )

  scan_kept :
      (k mask : ℕ) (values : List ℕ)
      → Scanned k (mask, values)
      → is_constant src n k ≡ false
      → Scanned (suc k) (mask, values)
  scan_kept k mask values (small, bits, len, vals, pop) e = (
    omega (arith, pow-suc 2 k),
    λ i h. elim (Bool-cases (i == k)) [
      | inl same ↦
          let here : i ≡ k = ground arith in
          ap (test_bit mask) here
          ∙ (test_above mask k small ∙ (sym e ∙ ap (is_constant src n) (sym here)))
      | inr other ↦ bits i (ground arith)
    ],
    ground (arith, len, e),
    λ i h c. elim (Bool-cases (i == k)) [
      | inl same ↦
          let here : i ≡ k = ground arith in
          let clash : true ≡ false = sym c ∙ (ap (is_constant src n) here ∙ e) in
          absurd (ground arith)
      | inr other ↦ vals i (ground arith) c
    ],
    λ h. ground (arith, pop (omega arith), e),
  )

  scan_step : (k : ℕ) (s : ℕ × List ℕ) → Scanned k s → Scanned (suc k) (scan_band src n k s)
  scan_step k (mask, values) sc = elim (Bool-cases (is_constant src n k)) [
    | inl e ↦
        let next : scan_band src n k (mask, values)
            ≡ (mask + 2 ^ k, values ++ (byte_at src (k * n) ∷ [])) =
          unfold scan_band in rw e (rw (set_bit_lem mask k sc.0) refl) in
        subst (Scanned (suc k)) (sym next) (scan_constant k mask values sc e)
    | inr e ↦
        let next : scan_band src n k (mask, values) ≡ (mask, values) =
          unfold scan_band in rw e refl in
        subst (Scanned (suc k)) (sym next) (scan_kept k mask values sc e)
  ]

  pub scan_lem : (k : ℕ) → Scanned k (for_below k (scan_band src n) (0, []))
  scan_lem k =
      for_below_ind Scanned (scan_band src n) k (λ i s h sc. scan_step i s sc) k (0, [])
        (omega arith)
        (
          omega arith,
          λ i h. absurd (omega arith),
          omega arith,
          λ i h c. absurd (omega arith),
          λ h. popcount_zero 32,
        )

  -- the state of the compaction after `k` bands
  abbrev pub Compacted : ℕ → ℕ → List ℕ × ℕ → Type 0
  Compacted total k (dst, dst_offset) =
      (length dst ≡ total)
      × (dst_offset ≡ kept k * n)
      × ((i t : ℕ)
          → i < k
          → is_constant src n i ≡ false
          → t < n
          → byte_at dst (kept i * n + t) ≡ byte_at src (i * n + t))

  compact_constant :
      (total k : ℕ) (dst : List ℕ) (off : ℕ)
      → Compacted total k (dst, off)
      → is_constant src n k ≡ true
      → Compacted total (suc k) (dst, off)
  compact_constant total k dst off (len, place, done) e = (
    len,
    ground (arith, place, e),
    λ i t h c l. elim (Bool-cases (i == k)) [
      | inl same ↦
          let here : i ≡ k = ground arith in
          let clash : true ≡ false = sym e ∙ (ap (is_constant src n) (sym here) ∙ c) in
          absurd (ground arith)
      | inr other ↦ done i t (ground arith) c l
    ],
  )

  compact_kept :
      (total k : ℕ) (dst : List ℕ) (off : ℕ)
      → off + n ≤ total
      → Compacted total k (dst, off)
      → is_constant src n k ≡ false
      → Compacted total (suc k) (copy n dst off src (k * n), off + n)
  compact_kept total k dst off room (len, place, done) e =
      let fits : off + n ≤ length dst = omega arith in
      let copied = λ (q : ℕ). byte_at-copy n dst off src (k * n) q fits in
      (
        length-copy n dst off src (k * n) ∙ len,
        rw e (omega (arith, place)),
        λ i t h c l. elim (Bool-cases (i == k)) [
          | inl same ↦
              let here : i ≡ k = ground arith in
              let moved : byte_at (copy n dst off src (k * n)) (kept k * n + t)
                  ≡ byte_at src (k * n + t) =
                let back : kept k * n + t - off ≡ t = omega arith in
                let inside : (leb off (kept k * n + t) && ltb (kept k * n + t) (off + n)) ≡ true =
                  ground arith in
                copied (kept k * n + t) ∙ rw (inside, back) refl in
              subst
                (λ d.
                  byte_at (copy n dst off src (k * n)) (kept d * n + t) ≡ byte_at src (d * n + t))
                (sym here) moved
          | inr other ↦
              let before = kept_grows i k (ground arith) c in
              let below = element_before (kept i) (kept k) n (omega arith) in
              let old = done i t (ground arith) c l in ground (arith, copied (kept i * n + t))
        ],
      )

  compact_step :
      (total mask count k : ℕ) (s : List ℕ × ℕ)
      → k < count
      → kept count * n ≤ total
      → test_bit mask k ≡ is_constant src n k
      → Compacted total k s
      → Compacted total (suc k) (compact_band src n mask k s)
  compact_step total mask count k (dst, off) l room bit c =
      elim (Bool-cases (is_constant src n k)) [
        | inl e ↦
            let next : compact_band src n mask k (dst, off) ≡ (dst, off) =
              unfold compact_band in rw (bit ∙ e) refl in
            subst (Compacted total (suc k)) (sym next) (compact_constant total k dst off c e)
        | inr e ↦
            let next : compact_band src n mask k (dst, off)
                ≡ (copy n dst off src (k * n), off + n) =
              unfold compact_band in rw (bit ∙ e) refl in
            let grows = kept_grows k count l e in
            let fits = element_before (kept k) (kept count) n (omega arith) in
            subst (Compacted total (suc k)) (sym next)
              (compact_kept total k dst off (omega (arith, c.1)) c e)
      ]

  pub compact_loop :
      (total mask count : ℕ) (dst : List ℕ)
      → length dst ≡ total
      → kept count * n ≤ total
      → ((i : ℕ) → i < count → test_bit mask i ≡ is_constant src n i)
      → Compacted total count (for_below count (compact_band src n mask) (dst, 0))
  compact_loop total mask count dst len room bits =
      for_below_ind (Compacted total) (compact_band src n mask) count
        (λ k s h c. compact_step total mask count k s h room (bits k h) c) count (dst, 0)
        (omega arith) (len, omega arith, λ i t h. absurd (omega arith))
