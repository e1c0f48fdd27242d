-- ===== src/Compressor.antt =====
-- src/core/compressor.hpp, compressor.cpp and format_util.hpp: the frame of a compressed blob, the
-- compression of a constant buffer, and the choice of the decompressor by the frame. A buffer is the
-- list of its bytes.
pub mod Header
pub mod Constant
pub mod Ans
pub mod Stats
mod Tests
use dewfall.Prelude.{
  ℕ, zero, suc, ◌+◌, ◌-◌, ◌*◌, ◌/◌, ◌%◌, ◌^◌, Bool, true, false, not, ◌&&◌, ◌||◌, Option, none,
  some, List, [], ◌∷◌, ◌++◌, ltb, leb, ◌==◌, if◌then◌else◌, length, byte_at, take, drop, copy,
}
use mathlib.Core.Option
use dewfall.Bytes.{load, le}
use dewfall.Preprocess.Bands.{zeroed, assigned}

-- `dew_type_t`
pub data DewType : Type 0 where
  type_u8 type_i8 type_u16 type_i16 type_u32 type_i32 type_m32 type_r32 type_u64 type_i64 type_m64
        type_r64 type_m128 type_m192 :
      DewType

-- `point_format_t`: the components are the number of their enumerator, 1 to 5.
pub record PointFormat : Type 0 where
  pub type : DewType
  pub components : ℕ

unfoldable pub size_for_format : DewType → ℕ
size_for_format DewType.type_u8 = 1
size_for_format DewType.type_i8 = 1
size_for_format DewType.type_u16 = 2
size_for_format DewType.type_i16 = 2
size_for_format DewType.type_u32 = 4
size_for_format DewType.type_i32 = 4
size_for_format DewType.type_m32 = 4
size_for_format DewType.type_r32 = 4
size_for_format DewType.type_u64 = 8
size_for_format DewType.type_i64 = 8
size_for_format DewType.type_m64 = 8
size_for_format DewType.type_r64 = 8
size_for_format DewType.type_m128 = 16
size_for_format DewType.type_m192 = 24

-- `compression_method_t`, by the numbers of its enumerators
abbrev pub method_none : ℕ
method_none = 0

abbrev pub method_zstd : ℕ
method_zstd = 2

abbrev pub method_huff0 : ℕ
method_huff0 = 3

abbrev pub method_constant : ℕ
method_constant = 4

abbrev pub method_ans : ℕ
method_ans = 5

-- `compression_header_t`, behind its magic number
pub record CompressionHeader : Type 0 where
  pub method : ℕ
  pub type_size : ℕ
  pub component_count : ℕ
  pub flags : ℕ
  pub uncompressed_size : ℕ
  pub compressed_size : ℕ

abbrev pub magic : List ℕ
magic = 80 ∷ 67 ∷ 77 ∷ 1 ∷ []

-- `memcpy(output, &header, sizeof(header))`
unfoldable pub write_header : CompressionHeader → List ℕ
write_header h =
    magic
    ++ ((h.method % 256)
        ∷ (h.type_size % 256)
        ∷ (h.component_count % 256)
        ∷ (h.flags % 256)
        ∷ (le 4 h.uncompressed_size ++ le 4 h.compressed_size))

-- `memcpy(&header, data, sizeof(header))`
unfoldable pub read_header : List ℕ → CompressionHeader
read_header buf = record {
  method = byte_at buf 4;
  type_size = byte_at buf 5;
  component_count = byte_at buf 6;
  flags = byte_at buf 7;
  uncompressed_size = load 4 buf 8;
  compressed_size = load 4 buf 12;
}

abbrev pub header_size : ℕ
header_size = 16

-- `compression_result_t`: an error, nothing, or the bytes
pub data CompressionResult : Type 0 where
  failed : CompressionResult
  empty : CompressionResult
  produced : List ℕ → CompressionResult

unfoldable pub has_compression_magic : List ℕ → Bool
has_compression_magic buf =
    not (ltb (length buf) header_size)
    && (byte_at buf 0 == 80 && (byte_at buf 1 == 67 && (byte_at buf 2 == 77 && byte_at buf 3 == 1)))

-- `memcmp(data + a, data + b, n) == 0`
unfoldable pub same_bytes : List ℕ → ℕ → ℕ → ℕ → Bool
same_bytes buf a b zero = true
same_bytes buf a b (suc n) = byte_at buf a == byte_at buf b && same_bytes buf (a + 1) (b + 1) n

-- The loop of `try_compress_constant`, from `offset` on, whose `uint32_t` wraps: `none` where the fuel
-- runs out. Where `size` is within one element of 4 GiB, the source's offset wraps, and its loop goes
-- on over a constant buffer for ever; the theorem excludes such sizes.
unfoldable pub all_same : List ℕ → ℕ → ℕ → ℕ → ℕ → Option Bool
all_same buf size element_size offset zero = none
all_same buf size element_size offset (suc fuel) =
    let next = (offset + element_size) % 2 ^ 32 in
    let rest = all_same buf size element_size next fuel in
    if ltb size next
    then some true
    else if not (same_bytes buf 0 offset element_size)
    then some false
    else rest

-- Of the fuel, each round of a loop whose offset does not wrap takes one.
unfoldable pub try_compress_constant : List ℕ → PointFormat → Option CompressionResult
try_compress_constant buf format =
    let size = length buf in
    let element_size = size_for_format format.type * format.components in
    if element_size == 0 || ltb size element_size
    then some empty
    else Option.map
        (λ constant.
          if not constant
          then empty
          else produced (
              write_header (record {
                method = method_constant;
                type_size = size_for_format format.type;
                component_count = format.components;
                flags = 0;
                uncompressed_size = size;
                compressed_size = element_size;
              })
              ++ take element_size buf))
        (all_same buf size element_size element_size (size + 1))

-- The loop of the case `constant` of `decompress_any`, with the same wrapping offset: the element
-- `src` is copied to every whole place of `dst`.
unfoldable pub copy_elements : List ℕ → ℕ → ℕ → ℕ → List ℕ → ℕ → Option (List ℕ)
copy_elements src size element_size offset dst zero = none
copy_elements src size element_size offset dst (suc fuel) =
    let next = (offset + element_size) % 2 ^ 32 in
    let rest = copy_elements src size element_size next (copy element_size dst offset src 0) fuel in
    if ltb size next then some dst else rest

-- The case `constant` of `decompress_any`.
unfoldable pub decompress_constant : List ℕ → CompressionHeader → Option CompressionResult
decompress_constant src header =
    let element_size = header.type_size * header.component_count in
    let size = header.uncompressed_size in
    if element_size == 0 || not (header.compressed_size == element_size)
    then some failed
    else Option.map produced (copy_elements src size element_size 0 (zeroed size) (size + 1))

-- The decompressors are given the whole blob. `none` is a loop that has not ended.
unfoldable pub decompress_any :
    (List ℕ → CompressionResult)
    → (List ℕ → CompressionResult)
    → (List ℕ → CompressionResult)
    → List ℕ
    → Option CompressionResult
decompress_any zstd huff0 ans buf =
    let header = read_header buf in
    if ltb (length buf) header_size
    then some failed
    else if not (has_compression_magic buf)
    then some failed
    else if header.method == method_none
    then some (produced (assigned (drop header_size buf) header.uncompressed_size))
    else if header.method == method_zstd
    then some (zstd buf)
    else if header.method == method_huff0
    then some (huff0 buf)
    else if header.method == method_ans
    then some (ans buf)
    else if header.method == method_constant
    then decompress_constant (drop header_size buf) header
    else some failed
