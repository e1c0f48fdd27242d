-- ===== src/Compressor/Ans/Decompress.antt =====
-- `compressor_ans_t::decompress` of src/core/compressor_ans.cpp.
use dewfall.Prelude.{
  ℕ, zero, suc, ◌+◌, ◌-◌, ◌*◌, ◌/◌, ◌%◌, ◌^◌, not, ◌&&◌, Option, none, some, List, [], ◌∷◌, ◌++◌,
  ltb, ◌==◌, if◌then◌else◌, length, take, drop, for_below, copy,
}
use dewfall.Bytes.{load, store}
use dewfall.Shuffle.{byte_unshuffle}
use dewfall.Preprocess.MortonDelta.{delta_decode_morton}
use dewfall.Preprocess.Single.{delta_decode_single}
use dewfall.Preprocess.Channels.{correlate_u16x3, delta_decode_u16x3}
use dewfall.Preprocess.Bands.{zeroed, assigned, test_bit, popcount32, restore_constant_bands}
use dewfall.Compressor.{
  CompressionHeader, CompressionResult, failed, produced, read_header, header_size, method_none,
}
use dewfall.Compressor.Ans.{
  Fse, fse_decompress_data, flag_delta_encoded, flag_constant_bands, flag_offset_subtracted,
  flag_sort_permutation, flag_decorrelated, flag_component_delta, flag_element_delta,
}

-- The metadata in front of the packed bytes, and what is left.
pub record Metadata : Type 0 where
  pub min_value : ℕ
  pub permutation : List ℕ
  pub data_offset : ℕ
  pub band_mask : ℕ
  pub constant_values : List ℕ
  pub meta_size : ℕ
  pub rest : List ℕ

-- the entries of a permutation, of `width` bytes
unfoldable pub entries : ℕ → List ℕ → ℕ → ℕ → List ℕ
entries width bytes i zero = []
entries width bytes i (suc n) = load width bytes (i * width) ∷ entries width bytes (i + 1) n

module _ (fse : Fse) where
  -- the permutation: the entries, and what is behind them
  unfoldable pub read_permutation : ℕ → List ℕ → Option (List ℕ × ℕ × List ℕ)
  read_permutation uncompressed_size src =
      let perm_compressed_size = load 4 src 0 in
      let src' = drop 4 src in
      let f64_count = uncompressed_size / 8 in
      let width : ℕ = if ltb 65535 f64_count then 4 else 2 in
      elim (fse_decompress_data fse (take perm_compressed_size src') (f64_count * width)) [
        | none ↦ none
        | some bytes ↦ some (
          entries width bytes 0 f64_count,
          4 + perm_compressed_size,
          drop perm_compressed_size src',
        )
      ]

  -- the delta and the bands, behind the offset and the permutation
  unfoldable pub read_bands : ℕ → ℕ → List ℕ → ℕ → List ℕ → Metadata
  read_bands flags min_value permutation meta_size src =
      let has_delta = test_bit flags flag_delta_encoded in
      let data_offset : ℕ = if has_delta then load 4 src 0 else 0 in
      let src1 = if has_delta then drop 4 src else src in
      let delta_meta_size : ℕ = if has_delta then 4 else 0 in
      let has_bands = test_bit flags flag_constant_bands in
      let band_mask : ℕ = if has_bands then load 4 src1 0 else 0 in
      let src2 = if has_bands then drop 4 src1 else src1 in
      let num_constants : ℕ = if has_bands then popcount32 band_mask else 0 in
      record {
        min_value = min_value;
        permutation = permutation;
        data_offset = data_offset;
        band_mask = band_mask;
        constant_values = take num_constants src2;
        meta_size = meta_size + delta_meta_size + (if has_bands then 4 + num_constants else 0);
        rest = drop num_constants src2;
      }

  unfoldable pub read_metadata : CompressionHeader → List ℕ → Option Metadata
  read_metadata header src =
      let has_offset = test_bit header.flags flag_offset_subtracted in
      let min_value : ℕ = if has_offset then load 8 src 0 else 0 in
      let src1 = if has_offset then drop 8 src else src in
      let offset_meta_size : ℕ = if has_offset then 8 else 0 in
      if test_bit header.flags flag_sort_permutation
      then elim (read_permutation header.uncompressed_size src1) [
        | none ↦ none
        | some (permutation, perm_meta_size, src2) ↦
            some (
              read_bands header.flags min_value permutation (offset_meta_size + perm_meta_size)
                src2)
      ]
      else some (read_bands header.flags min_value [] offset_meta_size src1)

  -- The packed bytes, with the constant bands put back.
  unfoldable pub unpack : CompressionHeader → Metadata → Option (List ℕ)
  unpack header meta =
      let size = header.uncompressed_size in
      let stride = header.type_size * header.component_count in
      let compacted_size =
        if not (meta.band_mask == 0) && ltb 0 stride
        then (stride - popcount32 meta.band_mask) * (size / stride) + size % stride
        else size in
      let payload_size = (header.compressed_size + 2 ^ 32 - meta.meta_size) % 2 ^ 32 in
      elim (fse_decompress_data fse (take payload_size meta.rest) compacted_size) [
        | none ↦ none
        | some compacted ↦
            if not (meta.band_mask == 0)
            then some (
                restore_constant_bands compacted (zeroed size) size meta.band_mask
                  meta.constant_values header.type_size header.component_count)
            else some (assigned compacted size)
      ]

-- The loop of `unsort_with_permutation_f64` from the entry `i` on: an entry out of range is skipped.
unfoldable pub unsort_values : List ℕ → ℕ → List ℕ → ℕ → List ℕ → List ℕ
unsort_values buf count [] i restored = restored
unsort_values buf count (p ∷ l) i restored =
    unsort_values buf count l (i + 1)
      (if ltb p count then store 8 restored (p * 8) (load 8 buf (i * 8)) else restored)

unfoldable pub unsort_with_permutation : List ℕ → ℕ → List ℕ → List ℕ
unsort_with_permutation buf size perm =
    let count = size / 8 in
    if count == 0
    then buf
    else copy (count * 8) buf 0 (unsort_values buf count perm 0 (zeroed (count * 8))) 0

-- `offset_restore_f64`
unfoldable pub offset_restore_f64 : (ℕ → ℕ → ℕ) → List ℕ → ℕ → ℕ → List ℕ
offset_restore_f64 add buf size min_value =
    for_below (size / 8) (λ i b. store 8 b (i * 8) (add (load 8 b (i * 8)) min_value)) buf

-- What undoes the preprocessing, in the order of the source.
unfoldable pub undo_element_delta : CompressionHeader → List ℕ → List ℕ
undo_element_delta header buf =
    if test_bit header.flags flag_element_delta
    then delta_decode_single buf header.uncompressed_size header.type_size
    else buf

unfoldable pub undo_component_delta : CompressionHeader → List ℕ → List ℕ
undo_component_delta header buf =
    if test_bit header.flags flag_component_delta
    then delta_decode_u16x3 buf header.uncompressed_size
    else buf

unfoldable pub undo_decorrelation : CompressionHeader → List ℕ → List ℕ
undo_decorrelation header buf =
    if test_bit header.flags flag_decorrelated
    then correlate_u16x3 buf header.uncompressed_size
    else buf

unfoldable pub undo_morton_delta : CompressionHeader → Metadata → List ℕ → List ℕ
undo_morton_delta header meta buf =
    let size = header.uncompressed_size in
    if not (test_bit header.flags flag_delta_encoded)
    then buf
    else if test_bit header.flags flag_sort_permutation
    then delta_decode_morton buf size 8
    else take meta.data_offset buf
      ++ delta_decode_morton (drop meta.data_offset buf)
          ((size + 2 ^ 32 - meta.data_offset) % 2 ^ 32)
          (header.type_size * header.component_count % 2 ^ 8)

unfoldable pub undo_sort : CompressionHeader → Metadata → List ℕ → List ℕ
undo_sort header meta buf =
    if test_bit header.flags flag_sort_permutation
    then unsort_with_permutation buf header.uncompressed_size meta.permutation
    else buf

unfoldable pub undo_offset : (ℕ → ℕ → ℕ) → CompressionHeader → Metadata → List ℕ → List ℕ
undo_offset f64_add header meta buf =
    if test_bit header.flags flag_offset_subtracted
    then offset_restore_f64 f64_add buf header.uncompressed_size meta.min_value
    else buf

unfoldable pub undo_preprocessing : (ℕ → ℕ → ℕ) → CompressionHeader → Metadata → List ℕ → List ℕ
undo_preprocessing f64_add header meta shuffled =
    let output =
      byte_unshuffle shuffled (zeroed header.uncompressed_size) header.uncompressed_size
        header.type_size header.component_count in
    undo_offset f64_add header meta (
      undo_sort header meta (
        undo_morton_delta header meta (
          undo_decorrelation header
            (undo_component_delta header (undo_element_delta header output)))))

-- `decompress` behind the header
unfoldable pub decompress_payload :
    Fse → (ℕ → ℕ → ℕ) → CompressionHeader → List ℕ → CompressionResult
decompress_payload fse f64_add header src =
    if header.method == method_none
    then produced (assigned src header.uncompressed_size)
    else elim (read_metadata fse header src) [
      | none ↦ failed
      | some meta ↦ elim (unpack fse header meta) [
        | none ↦ failed
        | some shuffled ↦ produced (undo_preprocessing f64_add header meta shuffled)
      ]
    ]

-- The addition of two `double`s, by their bit patterns, is a parameter.
unfoldable pub decompress : Fse → (ℕ → ℕ → ℕ) → List ℕ → CompressionResult
decompress fse f64_add buf =
    if ltb (length buf) header_size
    then failed
    else decompress_payload fse f64_add (read_header buf) (drop header_size buf)
