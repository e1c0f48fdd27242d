-- ===== src/Preprocess/Tests.antt =====
-- Runs of the transforms, and the theorems at inputs that meet their hypotheses.
use dewfall.Prelude.{
  ℕ, ◌+◌, ◌-◌, ◌*◌, ◌/◌, ◌%◌, ◌^◌, ◌≤◌, ◌<◌, ◌≡◌, refl, ◌↔◌, true, List, [], ◌∷◌, arith, ltb,
  for_down, for_below,
}
use dewfall.Bytes.{load, store}
use dewfall.Preprocess.Words.{
  get_morton_ops, less_than_u32, sub_u32, less_than_u192, sub_u192, add_u192,
}
use dewfall.Preprocess.WordLaws.{less_than_u192_lem, sub_u192_lem, add_u192_lem}
use dewfall.Preprocess.Differences.{sub_at}
use dewfall.Preprocess.MortonDelta.{
  monotone, encode_round, delta_encode_morton, delta_decode_morton,
}
use dewfall.Preprocess.MortonDelta.RoundTrip.{delta_decode_morton-delta_encode_morton}
use dewfall.Preprocess.MortonDelta.Accepts.{
  IsWidth, NonDecreasing, delta_encode_morton_accepts, delta_encode_morton_differences,
}
use dewfall.Preprocess.Single.{
  delta_encode_single, delta_decode_single, delta_decode_single-delta_encode_single,
}
use dewfall.Preprocess.Channels.{
  decorrelate_u16x3, correlate_u16x3, delta_encode_u16x3, delta_decode_u16x3, decorrelate_element,
}
use dewfall.Preprocess.Channels.Delta.{delta_decode_u16x3-delta_encode_u16x3}
use dewfall.Preprocess.Channels.Colour.{correlate_u16x3-decorrelate_u16x3}
use dewfall.Preprocess.Bands.{zeroed, detect_constant_bands}
use dewfall.Preprocess.Bands.RoundTrip.{BandsRestored, restore_constant_bands-detect_constant_bands}

-- Three codes of four bytes, 1, 259 and 260, and a byte behind them.
abbrev codes : List ℕ
codes = 1 ∷ 0 ∷ 0 ∷ 0 ∷ 3 ∷ 1 ∷ 0 ∷ 0 ∷ 4 ∷ 1 ∷ 0 ∷ 0 ∷ 77 ∷ []

abbrev encoded : List ℕ
encoded = 1 ∷ 0 ∷ 0 ∷ 0 ∷ 2 ∷ 1 ∷ 0 ∷ 0 ∷ 1 ∷ 0 ∷ 0 ∷ 0 ∷ 77 ∷ []

encode_runs : delta_encode_morton codes 13 4 ≡ (true, encoded)
unfolding delta_encode_morton get_morton_ops monotone encode_round for_down less_than_u32 sub_u32
    load store
encode_runs = refl

delta_decode_morton-delta_encode_morton_example : delta_decode_morton encoded 13 4 ≡ codes
delta_decode_morton-delta_encode_morton_example =
    delta_decode_morton-delta_encode_morton codes 13 4 encoded (omega arith) (omega arith)
      encode_runs

delta_encode_morton_accepts_example :
    ((delta_encode_morton codes 13 4).0 ≡ true)
    ↔ (IsWidth 4 × (4 ≤ 13) × NonDecreasing 4 codes (13 / 4))
delta_encode_morton_accepts_example = delta_encode_morton_accepts codes 13 4 (omega arith)

delta_encode_morton_differences_example :
    (load 4 encoded 0 ≡ load 4 codes 0)
    × ((k : ℕ)
        → 1 ≤ k
        → k < 13 / 4
        → load 4 encoded (k * 4) + load 4 codes ((k - 1) * 4) ≡ load 4 codes (k * 4))
delta_encode_morton_differences_example =
    delta_encode_morton_differences codes 13 4 encoded (omega arith) (omega arith) encode_runs

delta_decode_single-delta_encode_single_example :
    (delta_decode_single (delta_encode_single codes 13 2) 13 2 ≡ codes)
    × (delta_encode_single (delta_decode_single codes 13 2) 13 2 ≡ codes)
delta_decode_single-delta_encode_single_example =
    delta_decode_single-delta_encode_single codes 13 2 (omega arith) (omega arith) (omega arith)

delta_decode_u16x3-delta_encode_u16x3_example :
    (delta_decode_u16x3 (delta_encode_u16x3 codes 13) 13 ≡ codes)
    × (delta_encode_u16x3 (delta_decode_u16x3 codes 13) 13 ≡ codes)
delta_decode_u16x3-delta_encode_u16x3_example =
    delta_decode_u16x3-delta_encode_u16x3 codes 13 (omega arith) (omega arith)

correlate_u16x3-decorrelate_u16x3_example :
    (correlate_u16x3 (decorrelate_u16x3 codes 13) 13 ≡ codes)
    × (decorrelate_u16x3 (correlate_u16x3 codes 13) 13 ≡ codes)
correlate_u16x3-decorrelate_u16x3_example =
    correlate_u16x3-decorrelate_u16x3 codes 13 (omega arith) (omega arith)

decorrelate_runs : decorrelate_u16x3 (5 ∷ 0 ∷ 7 ∷ 0 ∷ 8 ∷ 0 ∷ []) 6 ≡ 7 ∷ 0 ∷ 254 ∷ 255 ∷ 1 ∷ 0 ∷ []
unfolding decorrelate_u16x3 decorrelate_element for_below load store
decorrelate_runs = refl

single_runs : delta_encode_single (9 ∷ 4 ∷ 5 ∷ []) 3 1 ≡ 9 ∷ 251 ∷ 1 ∷ []
unfolding delta_encode_single for_down sub_at load store
single_runs = refl

-- Two numbers of 24 bytes: 2 ^ 128 and 1.
abbrev wide : List ℕ
wide =
    0 ∷ 0 ∷ 0 ∷ 0 ∷ 0 ∷ 0 ∷ 0 ∷ 0 ∷ 0 ∷ 0 ∷ 0 ∷ 0 ∷ 0 ∷ 0 ∷ 0 ∷ 0 ∷ 1 ∷ 0 ∷ 0 ∷ 0 ∷ 0 ∷ 0 ∷ 0 ∷ 0
    ∷ 1 ∷ 0 ∷ 0 ∷ 0 ∷ 0 ∷ 0 ∷ 0 ∷ 0 ∷ 0 ∷ 0 ∷ 0 ∷ 0 ∷ 0 ∷ 0 ∷ 0 ∷ 0 ∷ 0 ∷ 0 ∷ 0 ∷ 0 ∷ 0 ∷ 0 ∷ 0 ∷ 0
    ∷ []

less_than_u192_lem_example : less_than_u192 wide 24 0 ≡ ltb (load 24 wide 24) (load 24 wide 0)
less_than_u192_lem_example = less_than_u192_lem wide 24 0 (omega arith)

sub_u192_lem_example :
    sub_u192 wide 0 24 0 ≡ store 24 wide 0 ((load 24 wide 0 + 2 ^ 192 - load 24 wide 24) % 2 ^ 192)
sub_u192_lem_example = sub_u192_lem wide 0 24 (omega arith) 0

add_u192_lem_example :
    add_u192 wide 0 24 0 ≡ store 24 wide 0 ((load 24 wide 0 + load 24 wide 24) % 2 ^ 192)
add_u192_lem_example = add_u192_lem wide 0 24 (omega arith) 0

-- Two bands of two bytes, the second constant, and a byte behind them.
abbrev banded : List ℕ
banded = 1 ∷ 2 ∷ 9 ∷ 9 ∷ 5 ∷ []

restore_constant_bands-detect_constant_bands_example :
    BandsRestored banded (zeroed 5) 2 1 (detect_constant_bands banded 5 2 1)
restore_constant_bands-detect_constant_bands_example =
    restore_constant_bands-detect_constant_bands banded (zeroed 5) 2 1 refl
