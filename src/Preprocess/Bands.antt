-- ===== src/Preprocess/Bands.antt =====
-- `detect_constant_bands` and `restore_constant_bands` of src/core/compression_preprocess.cpp, on
-- shuffled data. A vector is the list of its bytes.
mod Bits
mod Scan
pub mod RoundTrip
use dewfall.Prelude.{
  ℕ, zero, suc, ◌+◌, ◌-◌, ◌*◌, ◌/◌, ◌%◌, ◌^◌, Bool, true, false, not, ◌||◌, List, [], ◌∷◌, ◌++◌,
  ltb, ◌==◌, if◌then◌else◌, byte_at, copy, fill, for_below, length,
}

-- `std::vector<uint8_t>(n)`
abbrev pub zeroed : ℕ → List ℕ
zeroed zero = []
zeroed (suc n) = 0 ∷ zeroed n

-- `vector.assign(data, data + n)`
unfoldable pub assigned : List ℕ → ℕ → List ℕ
assigned src n = copy n (zeroed n) 0 src 0

-- `mask & (1u << b)`, tested, and `mask |= 1u << b`
abbrev pub test_bit : ℕ → ℕ → Bool
test_bit mask b = mask / 2 ^ b % 2 == 1

abbrev pub set_bit : ℕ → ℕ → ℕ
set_bit mask b = if test_bit mask b then mask else mask + 2 ^ b

-- the bits that are set among the lowest
unfoldable pub popcount : ℕ → ℕ → ℕ
popcount zero mask = 0
popcount (suc bits) mask = mask % 2 + popcount bits (mask / 2)

unfoldable pub popcount32 : ℕ → ℕ
unfolding popcount
popcount32 mask = popcount 32 mask

-- `band_compact_result_t`
pub record BandCompactResult : Type 0 where
  pub compacted_data : List ℕ
  pub band_mask : ℕ
  pub constant_values : List ℕ

-- The loop over the bytes of a band from `i` on.
unfoldable pub same_from : List ℕ → ℕ → ℕ → ℕ → ℕ → Bool
same_from src start first_val i zero = true
same_from src start first_val i (suc rounds) =
    if not (byte_at src (start + i) == first_val)
    then false
    else same_from src start first_val (i + 1) rounds

unfoldable pub is_constant : List ℕ → ℕ → ℕ → Bool
is_constant src element_count b =
    let band_start = b * element_count in
    same_from src band_start (byte_at src band_start) 1 (element_count - 1)

-- one round of the scan: the mask, and the values of the constant bands
unfoldable pub scan_band : List ℕ → ℕ → ℕ → ℕ × List ℕ → ℕ × List ℕ
scan_band src element_count b (mask, values) =
    if is_constant src element_count b
    then (set_bit mask b, values ++ (byte_at src (b * element_count) ∷ []))
    else (mask, values)

-- one round of the compaction: the compacted data, and the offset in it
unfoldable pub compact_band : List ℕ → ℕ → ℕ → ℕ → List ℕ × ℕ → List ℕ × ℕ
compact_band src element_count mask b (dst, dst_offset) =
    if test_bit mask b
    then (dst, dst_offset)
    else (copy element_count dst dst_offset src (b * element_count), dst_offset + element_count)

-- the compacted data, the remainder included
unfoldable pub compact : List ℕ → ℕ → ℕ → ℕ → ℕ → List ℕ
compact src element_count remainder band_count mask =
    let non_constant_bands = band_count - popcount32 mask in
    let compacted_size = non_constant_bands * element_count + remainder in
    let (dst, dst_offset) =
      for_below band_count (compact_band src element_count mask) (zeroed compacted_size, 0) in
    if ltb 0 remainder then copy remainder dst dst_offset src (band_count * element_count) else dst

unfoldable pub detect_constant_bands : List ℕ → ℕ → ℕ → ℕ → BandCompactResult
detect_constant_bands shuffled size type_size component_count =
    let stride = type_size * component_count in
    let plain : BandCompactResult = record {
      compacted_data = assigned shuffled size;
      band_mask = 0;
      constant_values = [];
    } in
    let element_count = size / stride in
    let remainder = size % stride in
    if stride == 0 || size == 0
    then plain
    else if ltb 32 stride || element_count == 0
    then plain
    else let (mask, values) = for_below stride (scan_band shuffled element_count) (0, []) in
      if mask == 0 then plain else record {
        compacted_data = compact shuffled element_count remainder stride mask;
        band_mask = mask;
        constant_values = values;
      }

-- one round of the restoring loop: the data, the offset in the compacted data, and the next constant
unfoldable pub restore_band : List ℕ → ℕ → ℕ → List ℕ → ℕ → List ℕ × ℕ × ℕ → List ℕ × ℕ × ℕ
restore_band compacted element_count mask values b (dst, src_offset, const_idx) =
    if test_bit mask b
    then (
      fill element_count dst (b * element_count) (byte_at values const_idx),
      src_offset,
      const_idx + 1,
    )
    else (
      copy element_count dst (b * element_count) compacted src_offset,
      src_offset + element_count,
      const_idx,
    )

unfoldable pub restore_constant_bands : List ℕ → List ℕ → ℕ → ℕ → List ℕ → ℕ → ℕ → List ℕ
restore_constant_bands compacted shuffled shuffled_size mask values type_size component_count =
    let stride = type_size * component_count in
    let element_count = shuffled_size / stride in
    let remainder = shuffled_size % stride in
    if stride == 0 || shuffled_size == 0
    then shuffled
    else let (dst, src_offset, const_idx) =
        for_below stride (restore_band compacted element_count mask values) (shuffled, 0, 0) in
      if ltb 0 remainder
      then copy remainder dst (stride * element_count) compacted src_offset
      else dst
