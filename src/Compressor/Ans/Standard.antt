-- ===== src/Compressor/Ans/Standard.antt =====
-- `fse_compress_standard` and `compressor_ans_t::compress` of src/core/compressor_ans.cpp. The
-- branch of `compress` for one `double` per point is a parameter, since it rests on floating point.
use dewfall.Prelude.{
  ℕ, ◌+◌, ◌-◌, ◌*◌, ◌%◌, ◌^◌, Bool, true, false, not, ◌&&◌, ◌||◌, List, [], ◌∷◌, ◌++◌, ltb, leb,
  ◌==◌, if◌then◌else◌, length, take, drop,
}
use dewfall.Shuffle.{byte_shuffle}
use dewfall.Preprocess.MortonDelta.{delta_encode_morton}
use dewfall.Preprocess.Single.{delta_encode_single}
use dewfall.Preprocess.Channels.{decorrelate_u16x3, delta_encode_u16x3}
use dewfall.Preprocess.Bands.{BandCompactResult, zeroed, test_bit, set_bit, detect_constant_bands}
use dewfall.Bytes.{le}
use dewfall.Compressor.{
  DewType, PointFormat, size_for_format, CompressionResult, failed, empty, produced, write_header,
  method_none, method_ans,
}
use dewfall.Compressor.Ans.{
  Fse, FseCompressResult, fse_error, incompressible, packed, packed_size, fse_compress_data,
  flag_delta_encoded, flag_constant_bands,
}

-- The preprocessing of `fse_compress_standard`: what it puts into the frame, and the shuffled bytes.
pub record Prepared : Type 0 where
  pub type_size : ℕ
  pub component_count : ℕ
  pub flags : ℕ
  pub data_offset : ℕ
  pub shuffled : List ℕ

-- `typesize`, and `element_stride` as a `uint8_t`
abbrev pub type_size_of : PointFormat → ℕ
type_size_of format = if size_for_format format.type == 0 then 1 else size_for_format format.type

abbrev pub element_stride : PointFormat → ℕ
element_stride format = type_size_of format * format.components % 2 ^ 8

abbrev pub data_bytes_of : PointFormat → ℕ → ℕ
data_bytes_of format point_count = point_count * element_stride format % 2 ^ 32

-- The morton delta of the bytes from `data_offset` on, where there are points. Where `data_bytes`
-- exceeds the bytes there are, the source reads and writes outside its working copy; the theorems
-- exclude such points.
unfoldable pub delta_encode_points : List ℕ → ℕ → ℕ → ℕ → Bool × List ℕ
delta_encode_points working data_offset data_bytes stride =
    let (ok, encoded) = delta_encode_morton (drop data_offset working) data_bytes stride in
    if ltb 0 data_bytes then (ok, take data_offset working ++ encoded) else (false, working)

-- The working copy, or the input where the caller gave none.
unfoldable pub working_or_input : List ℕ → List ℕ → List ℕ
working_or_input [] input = input
working_or_input (x ∷ l) input = x ∷ l

unfoldable pub prepare : List ℕ → PointFormat → ℕ → ℕ → List ℕ → Prepared
prepare input format point_count flags_in working =
    let size = length input in
    let data_bytes = data_bytes_of format point_count in
    let data_offset = if ltb 0 data_bytes && leb data_bytes size then size - data_bytes else 0 in
    let working' = working_or_input working input in
    let (ok, encoded) =
      delta_encode_points working' data_offset data_bytes (element_stride format) in
    record {
      type_size = type_size_of format;
      component_count = format.components;
      flags = if ok then set_bit flags_in flag_delta_encoded else flags_in;
      data_offset = data_offset;
      shuffled = byte_shuffle encoded (zeroed size) size (type_size_of format) format.components;
    }

-- the metadata in front of the packed bytes
abbrev pub delta_meta : Prepared → List ℕ
delta_meta p = if test_bit p.flags flag_delta_encoded then le 4 p.data_offset else []

abbrev pub band_meta : BandCompactResult → List ℕ
band_meta r = le 4 r.band_mask ++ r.constant_values

-- The output buffer of `total` bytes, a `uint32_t` that wraps, filled from its start. A total that
-- has wrapped is too small for what the source copies into it; the theorems exclude such sizes.
unfoldable pub filled : ℕ → List ℕ → List ℕ
filled total l = take (total % 2 ^ 32) l

-- The frame around a payload, or around the input where the payload is no shorter.
unfoldable pub frame : List ℕ → Prepared → ℕ → List ℕ → CompressionResult
frame input p flags payload =
    let size = length input in
    if leb size (length payload)
    then produced (
        filled (16 + size) (
          write_header (record {
            method = method_none;
            type_size = p.type_size;
            component_count = p.component_count;
            flags = 0;
            uncompressed_size = size;
            compressed_size = size;
          })
          ++ input))
    else produced (
        filled (16 + length payload) (
          write_header (record {
            method = method_ans;
            type_size = p.type_size;
            component_count = p.component_count;
            flags = flags;
            uncompressed_size = size;
            compressed_size = length payload;
          })
          ++ payload))

-- The choice without the bands: the packed bytes, or the input, which is its own size.
unfoldable pub frame_full : List ℕ → Prepared → FseCompressResult → CompressionResult
frame_full input p fse_error = failed
frame_full input p incompressible = frame input p 0 input
frame_full input p (packed full) =
    if ltb 0 (length full)
    then frame input p p.flags (delta_meta p ++ full)
    else frame input p 0 input

-- The choice between the packed bytes and the packed bytes without the constant bands.
unfoldable pub frame_smaller :
    List ℕ
    → Prepared
    → BandCompactResult
    → FseCompressResult
    → FseCompressResult
    → CompressionResult
frame_smaller input p r full fse_error = frame_full input p full
frame_smaller input p r full incompressible = frame_full input p full
frame_smaller input p r full (packed compacted) =
    let without_bands = if ltb 0 (packed_size full) then packed_size full else length input in
    if ltb 0 (length compacted)
      && ltb (length (delta_meta p) + length (band_meta r) + length compacted)
          (length (delta_meta p) + without_bands)
    then frame input p (set_bit p.flags flag_constant_bands)
        (delta_meta p ++ (band_meta r ++ compacted))
    else frame_full input p full

module _ (fse : Fse) where
  unfoldable pub compress_prepared : List ℕ → Prepared → CompressionResult
  compress_prepared input p =
      let full = fse_compress_data fse p.shuffled in
      let r = detect_constant_bands p.shuffled (length input) p.type_size p.component_count in
      elim full [
        | fse_error ↦ failed
        | incompressible ↦
            if r.band_mask == 0
            then frame_full input p incompressible
            else frame_smaller input p r incompressible (fse_compress_data fse r.compacted_data)
        | packed l ↦
            if r.band_mask == 0
            then frame_full input p (packed l)
            else frame_smaller input p r (packed l) (fse_compress_data fse r.compacted_data)
      ]

  unfoldable pub fse_compress_standard : List ℕ → PointFormat → ℕ → ℕ → List ℕ → CompressionResult
  fse_compress_standard input format point_count flags_in working =
      compress_prepared input (prepare input format point_count flags_in working)

-- `if (other.data && other.size < result.size) result = std::move(other)`
abbrev pub result_size : CompressionResult → ℕ
result_size failed = 0
result_size empty = 0
result_size (produced l) = length l

unfoldable pub pick_smaller : CompressionResult → CompressionResult → CompressionResult
pick_smaller result failed = result
pick_smaller result empty = result
pick_smaller result (produced l) =
    if ltb (length l) (result_size result) then produced l else result

abbrev pub is_morton : DewType → Bool
is_morton t = elim t [
  | DewType.type_m32 ↦ true
  | DewType.type_m64 ↦ true
  | DewType.type_m128 ↦ true
  | DewType.type_m192 ↦ true
  | _ ↦ false
]

abbrev pub is_r64 : PointFormat → Bool
is_r64 format = elim format.type [ DewType.type_r64 ↦ format.components == 1 | _ ↦ false ]

abbrev pub is_u16x3 : PointFormat → Bool
is_u16x3 format = elim format.type [ DewType.type_u16 ↦ format.components == 3 | _ ↦ false ]

-- one integer of 1, 2, 4 or 8 bytes
abbrev pub is_single : PointFormat → Bool
is_single format =
    let elem_size = size_for_format format.type in
    format.components == 1
    && (not (is_morton format.type)
        && (not (is_r64 format)
            && (elem_size == 1 || (elem_size == 2 || (elem_size == 4 || elem_size == 8)))))

module _ (fse : Fse) where
  -- the branch for three 16-bit colours
  unfoldable pub compress_u16x3 : List ℕ → PointFormat → ℕ → CompressionResult
  compress_u16x3 input format point_count =
      let size = length input in
      let working_b = decorrelate_u16x3 input size in
      let working_c = delta_encode_u16x3 input size in
      let working_d = delta_encode_u16x3 (decorrelate_u16x3 input size) size in
      let result_a = fse_compress_standard fse input format point_count 0 [] in
      let result_b = fse_compress_standard fse working_b format point_count (2 ^ 4) working_b in
      let result_c = fse_compress_standard fse working_c format point_count (2 ^ 5) working_c in
      let result_d =
        fse_compress_standard fse working_d format point_count (2 ^ 4 + 2 ^ 5) working_d in
      pick_smaller (pick_smaller (pick_smaller result_a result_b) result_c) result_d

  -- the branch for one integer
  unfoldable pub compress_single : List ℕ → PointFormat → ℕ → CompressionResult
  compress_single input format point_count =
      let size = length input in
      let working_b = delta_encode_single input size (size_for_format format.type) in
      let result_a = fse_compress_standard fse input format point_count 0 [] in
      let result_b = fse_compress_standard fse working_b format point_count (2 ^ 6) working_b in
      pick_smaller result_a result_b

  unfoldable pub compress :
      (List ℕ → PointFormat → ℕ → CompressionResult) → List ℕ → PointFormat → ℕ → CompressionResult
  compress compress_r64 input format point_count =
      if is_r64 format && leb 8 (length input)
      then compress_r64 input format point_count
      else if is_u16x3 format && leb 6 (length input)
      then compress_u16x3 input format point_count
      else if is_single format
      then compress_single input format point_count
      else fse_compress_standard fse input format point_count 0 []
