-- ===== src/Preprocess/MortonDelta/Accepts.antt =====
-- Which blocks the encoder accepts, and the elements that it stores.
use dewfall.Prelude.{
  ℕ, zero, suc, ◌+◌, ◌-◌, ◌*◌, ◌/◌, ◌%◌, ◌^◌, ◌≤◌, ◌<◌, ◌≡◌, refl, ◌⊎◌, inl, inr, ◌↔◌, true, false,
  ◌||◌, some, List, ltb, ◌==◌, arith, for_down, element_fits, element_before, length, ap, ◌∙◌,
  ==_iff, Bool-cases,
}
use dewfall.Bytes.{AllBytes, load, load-lt}
use dewfall.Preprocess.Differences.{IsBuffer, load-sub_at_self, load-sub_at_other}
use dewfall.Preprocess.Words.{MortonOps, get_morton_ops, ops_u32, ops_u64, ops_u128, ops_u192}
use dewfall.Preprocess.WordLaws.{IsWide, get_morton_ops-IsWide}
use dewfall.Preprocess.MortonDelta.{monotone, encode_round, delta_encode_morton}
use dewfall.Preprocess.MortonDelta.RoundTrip.{
  encoded_parts, encode_round-sub_at, encode_round-IsBuffer,
}

-- The elements of the block, read as numbers of `w` bytes, do not decrease.
abbrev pub NonDecreasing : ℕ → List ℕ → ℕ → Type 0
NonDecreasing w buf count =
    (k : ℕ) → 1 ≤ k → k < count → load w buf ((k - 1) * w) ≤ load w buf (k * w)

module _ (ops : MortonOps) (w : ℕ) (wide : IsWide w ops) (buf : List ℕ) (ok : AllBytes buf) where
  abbrev Below : ℕ → Type 0
  Below k = load w buf ((k - 1) * w) ≤ load w buf (k * w)

  monotone_sound :
      (rounds i : ℕ)
      → monotone ops buf w rounds i ≡ true
      → (k : ℕ) → i ≤ k
      → k < i + rounds
      → Below k
  unfolding monotone
  monotone_sound zero i h k lo hi = absurd (omega arith)
  monotone_sound (suc rounds) i h k lo hi = elim (Bool-cases (i == k)) [
    | inl here ↦ ground (arith, wide.less_wide buf (i * w) ((i - 1) * w) ok)
    | inr later ↦ monotone_sound rounds (i + 1) (ground arith) k (ground arith) (omega arith)
  ]

  monotone_complete :
      (rounds i : ℕ)
      → ((k : ℕ) → i ≤ k → k < i + rounds → Below k)
      → monotone ops buf w rounds i ≡ true
  unfolding monotone
  monotone_complete zero i h = refl
  monotone_complete (suc rounds) i h = ground (
    arith,
    wide.less_wide buf (i * w) ((i - 1) * w) ok,
    h i (omega arith) (omega arith),
    monotone_complete rounds (i + 1) (λ k lo hi. h k (omega arith) (omega arith)),
  )

abbrev pub IsWidth : ℕ → Type 0
IsWidth w = (w ≡ 4) ⊎ (w ≡ 8) ⊎ (w ≡ 16) ⊎ (w ≡ 24)

get_morton_ops-IsWidth : (w : ℕ) (ops : MortonOps) → get_morton_ops w ≡ some ops → IsWidth w
unfolding get_morton_ops
get_morton_ops-IsWidth w ops h = ground arith

get_morton_ops_total : (w : ℕ) → IsWidth w → (ops : MortonOps) × (get_morton_ops w ≡ some ops)
unfolding get_morton_ops
get_morton_ops_total w (inl e) = (ops_u32, rw e)
get_morton_ops_total w (inr (inl e)) = (ops_u64, rw e)
get_morton_ops_total w (inr (inr (inl e))) = (ops_u128, rw e)
get_morton_ops_total w (inr (inr (inr e))) = (ops_u192, rw e)

-- A refused block is left as it was.
pub delta_encode_morton_refused :
    (buf : List ℕ) (size w : ℕ)
    → (delta_encode_morton buf size w).0 ≡ false
    → (delta_encode_morton buf size w).1 ≡ buf
unfolding delta_encode_morton
delta_encode_morton_refused buf size w h = ground arith

module _ (buf : List ℕ) (size w : ℕ) (ok : AllBytes buf) where
  tested :
      (ops : MortonOps)
      → (w == 0 || ltb size w) ≡ false
      → get_morton_ops w ≡ some ops
      → (delta_encode_morton buf size w).0 ≡ true
      → (size / w ≤ 1) ⊎ (monotone ops buf w (size / w - 1) 1 ≡ true)
  unfolding delta_encode_morton
  tested ops sane found h = ground arith

  accepted_sound :
      (delta_encode_morton buf size w).0 ≡ true
      → IsWidth w × (w ≤ size) × NonDecreasing w buf (size / w)
  accepted_sound h =
      let (ops, found, long, sane, e) =
        encoded_parts buf size w {out = (delta_encode_morton buf size w).1} (ground arith) in
      let wide = get_morton_ops-IsWide w ops found in
      (
        get_morton_ops-IsWidth w ops found,
        ground arith,
        λ k lo hi. elim (tested ops sane found h) [
          | inl short ↦ absurd (omega arith)
          | inr passed ↦ monotone_sound ops w wide buf ok (size / w - 1) 1 passed k lo (omega arith)
        ],
      )

  accepted_complete :
      IsWidth w
      → w ≤ size
      → NonDecreasing w buf (size / w)
      → (delta_encode_morton buf size w).0 ≡ true
  unfolding delta_encode_morton
  accepted_complete width fits sorted =
      let (ops, found) = get_morton_ops_total w width in
      let rounds : monotone ops buf w (size / w - 1) 1 ≡ true =
        monotone_complete ops w (get_morton_ops-IsWide w ops found) buf ok (size / w - 1) 1
          (λ k lo hi. sorted k lo (omega arith)) in
      ground arith

  -- `delta_encode_morton` succeeds exactly when the element size is 4, 8, 16 or 24, the block holds
  -- an element, and the elements, read as unsigned integers, do not decrease.
  pub delta_encode_morton_accepts :
      ((delta_encode_morton buf size w).0 ≡ true)
      ↔ (IsWidth w × (w ≤ size) × NonDecreasing w buf (size / w))
  delta_encode_morton_accepts = (accepted_sound, λ parts. accepted_complete parts.0 parts.1 parts.2)

module _ (ops : MortonOps) (w size : ℕ) (wide : IsWide w ops) (long : 1 ≤ size / w) where
  -- The rounds left leave the elements above alone.
  load-for_down_above :
      (i k : ℕ) (buf : List ℕ)
      → i ≤ size / w - 1
      → IsBuffer size buf
      → (i < k) ⊎ (k ≡ 0)
      → load w (for_down i (encode_round ops w) buf) (k * w) ≡ load w buf (k * w)
  unfolding for_down
  load-for_down_above zero k buf h ok above = refl
  load-for_down_above (suc i) k buf h ok above =
      load-for_down_above i k _ (omega arith)
        (encode_round-IsBuffer ops w size wide long (suc i) buf h ok) (omega arith)
      ∙ rw (encode_round-sub_at ops w size wide long (suc i) buf ok.0)
          (load-sub_at_other w buf (suc i * w) ((suc i - 1) * w) (k * w) (apart above))
    where
      apart : (suc i < k) ⊎ (k ≡ 0) → (k * w + w ≤ suc i * w) ⊎ (suc i * w + w ≤ k * w)
      apart (inl lt) = inr (element_before (suc i) k w lt)
      apart (inr e) = inl (element_before k (suc i) w (omega arith))

  load-for_down_difference :
      (i k : ℕ) (buf : List ℕ)
      → i ≤ size / w - 1
      → IsBuffer size buf
      → 1 ≤ k
      → k ≤ i
      → load w (for_down i (encode_round ops w) buf) (k * w)
        ≡ (load w buf (k * w) + 256 ^ w - load w buf ((k - 1) * w)) % 256 ^ w
  unfolding for_down
  load-for_down_difference zero k buf h ok lo hi = absurd (omega arith)
  load-for_down_difference (suc i) k buf h ok lo hi = elim (Bool-cases (k == suc i)) [
    | inl e ↦ rw ((==_iff k (suc i)).0 e) here
    | inr ne ↦
        load-for_down_difference i k _ (omega arith)
          (encode_round-IsBuffer ops w size wide long (suc i) buf h ok) lo (ground arith)
        ∙ rw (same k (ground arith), same (k - 1) (ground arith))
  ]
    where
      same :
          (j : ℕ) → j < suc i → load w (encode_round ops w (suc i) buf) (j * w) ≡ load w buf (j * w)
      same j lt =
          rw (encode_round-sub_at ops w size wide long (suc i) buf ok.0)
            (load-sub_at_other w buf _ _ (j * w) (inl (element_before j (suc i) w lt)))

      here :
          load w (for_down i (encode_round ops w) (encode_round ops w (suc i) buf)) (suc i * w)
          ≡ (load w buf (suc i * w) + 256 ^ w - load w buf ((suc i - 1) * w)) % 256 ^ w
      here =
          load-for_down_above i (suc i) _ (omega arith)
            (encode_round-IsBuffer ops w size wide long (suc i) buf h ok) (omega arith)
          ∙ rw (encode_round-sub_at ops w size wide long (suc i) buf ok.0) (
              load-sub_at_self w buf (suc i * w) ((suc i - 1) * w) ok.0
                (omega (arith, element_fits (suc i) size w (omega arith), ok.1)))

no_wrap : (c p m d : ℕ) → p ≤ c → c < m → d ≡ (c + m - p) % m → d + p ≡ c
no_wrap c p m d h k e = grind arith

-- After a success the first element stands as it was, and every other holds its exact difference
-- from the element that stood before it: no subtraction has wrapped.
pub delta_encode_morton_differences :
    (buf : List ℕ) (size w : ℕ) (out : List ℕ)
    → AllBytes buf
    → size ≤ length buf
    → delta_encode_morton buf size w ≡ (true, out)
    → (load w out 0 ≡ load w buf 0)
      × ((k : ℕ)
          → 1 ≤ k
          → k < size / w
          → load w out (k * w) + load w buf ((k - 1) * w) ≡ load w buf (k * w))
delta_encode_morton_differences buf size w out ok fits h =
    let (ops, found, long, sane, e) = encoded_parts buf size w h in
    let wide = get_morton_ops-IsWide w ops found in
    let first : 0 * w ≡ 0 = omega arith in
    let sorted = (accepted_sound buf size w ok (ap (λ r. r.0) h)).2 in
    (
      rw e (
          rw first at (
            load-for_down_above ops w size wide long (size / w - 1) 0 buf (omega arith) (ok, fits)
              (inr refl))),
      λ k lo hi. no_wrap _ _ _ _ (sorted k lo hi) (load-lt w buf (k * w) ok) (
          rw e (
            load-for_down_difference ops w size wide long (size / w - 1) k buf (omega arith)
              (ok, fits) lo (omega arith))),
    )
