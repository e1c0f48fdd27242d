-- ===== src/Compressor/Stats.antt =====
-- `compression_stats_t::accumulate` and `subtract_source` of src/core/compressor.cpp. A name is the
-- list of its characters; a `double` is a number of its own order, by the comparison `less`.
pub mod Balance
mod Tests
use dewfall.Prelude.{
  ℕ, zero, suc, ◌+◌, ◌-◌, ◌*◌, ◌/◌, ◌%◌, ◌^◌, Bool, true, false, not, ◌&&◌, ◌||◌, List, [], ◌∷◌,
  ltb, leb, ◌==◌, if◌then◌else◌,
}
use dewfall.Preprocess.Bands.{test_bit}
use dewfall.Compressor.{DewType, PointFormat, size_for_format}
use dewfall.Compressor.Ans.{flag_decorrelated, flag_component_delta}

-- `attribute_compression_stats_t`; the path counts are by the index of the path.
pub record AttributeStats : Type 0 where
  pub name : List ℕ
  pub format : PointFormat
  pub buffer_count : ℕ
  pub uncompressed_bytes : ℕ
  pub compressed_bytes : ℕ
  pub min_value : ℕ
  pub max_value : ℕ
  pub path_counts : ℕ → ℕ
  pub lod_buffer_count : ℕ
  pub lod_uncompressed_bytes : ℕ
  pub lod_compressed_bytes : ℕ

-- the fields of `compression_stats_t` that the two methods use
pub record CompressionStats : Type 0 where
  pub total_buffer_count : ℕ
  pub lod_buffer_count : ℕ
  pub per_attribute : List AttributeStats

-- the arguments of `accumulate`
pub record Buffer : Type 0 where
  pub name : List ℕ
  pub format : PointFormat
  pub uncompressed : ℕ
  pub compressed : ℕ
  pub min_val : ℕ
  pub max_val : ℕ
  pub flags : ℕ
  pub is_lod : Bool

abbrev pub wrap32 : ℕ → ℕ
wrap32 n = n % 2 ^ 32

abbrev pub wrap64 : ℕ → ℕ
wrap64 n = n % 2 ^ 64

unfoldable pub same_name : List ℕ → List ℕ → Bool
same_name [] [] = true
same_name [] (y ∷ b) = false
same_name (x ∷ a) [] = false
same_name (x ∷ a) (y ∷ b) = x == y && same_name a b

-- the number of an enumerator
abbrev pub type_number : DewType → ℕ
type_number t = elim t [
  | DewType.type_u8 ↦ 0
  | DewType.type_i8 ↦ 1
  | DewType.type_u16 ↦ 2
  | DewType.type_i16 ↦ 3
  | DewType.type_u32 ↦ 4
  | DewType.type_i32 ↦ 5
  | DewType.type_m32 ↦ 6
  | DewType.type_r32 ↦ 7
  | DewType.type_u64 ↦ 8
  | DewType.type_i64 ↦ 9
  | DewType.type_m64 ↦ 10
  | DewType.type_r64 ↦ 11
  | DewType.type_m128 ↦ 12
  | DewType.type_m192 ↦ 13
]

abbrev pub same_format : PointFormat → PointFormat → Bool
same_format a b = type_number a.type == type_number b.type && a.components == b.components

abbrev pub matches : List ℕ → PointFormat → AttributeStats → Bool
matches name format attr = same_name attr.name name && same_format attr.format format

-- `path_idx`
abbrev pub path_idx : ℕ → ℕ
path_idx flags =
    (if test_bit flags flag_decorrelated then 1 else 0)
    + (if test_bit flags flag_component_delta then 2 else 0)

unfoldable pub count_path : ℕ → (ℕ → ℕ) → ℕ → ℕ
count_path idx counts i = if i == idx then wrap64 (counts i + 1) else counts i

module _ (less : ℕ → ℕ → Bool) where
  -- the body of the loop, at the attribute that matches
  unfoldable pub add_buffer : Buffer → AttributeStats → AttributeStats
  add_buffer b attr = record attr {
    buffer_count = wrap64 (attr.buffer_count + 1);
    uncompressed_bytes = wrap64 (attr.uncompressed_bytes + b.uncompressed);
    compressed_bytes = wrap64 (attr.compressed_bytes + b.compressed);
    min_value = if less b.min_val attr.min_value then b.min_val else attr.min_value;
    max_value = if less attr.max_value b.max_val then b.max_val else attr.max_value;
    path_counts = count_path (path_idx b.flags) attr.path_counts;
    lod_buffer_count =
        if b.is_lod then wrap64 (attr.lod_buffer_count + 1) else attr.lod_buffer_count;
    lod_uncompressed_bytes =
        if b.is_lod
        then wrap64 (attr.lod_uncompressed_bytes + b.uncompressed)
        else attr.lod_uncompressed_bytes;
    lod_compressed_bytes =
        if b.is_lod
        then wrap64 (attr.lod_compressed_bytes + b.compressed)
        else attr.lod_compressed_bytes;
  }

  -- what `emplace_back` and the assignments behind the loop make
  unfoldable pub new_attribute : Buffer → AttributeStats
  new_attribute b = record {
    name = b.name;
    format = b.format;
    buffer_count = 1;
    uncompressed_bytes = b.uncompressed;
    compressed_bytes = b.compressed;
    min_value = b.min_val;
    max_value = b.max_val;
    path_counts = λ i. if i == path_idx b.flags then 1 else 0;
    lod_buffer_count = if b.is_lod then 1 else 0;
    lod_uncompressed_bytes = if b.is_lod then b.uncompressed else 0;
    lod_compressed_bytes = if b.is_lod then b.compressed else 0;
  }

  unfoldable pub accumulate_in : Buffer → List AttributeStats → List AttributeStats
  accumulate_in b [] = new_attribute b ∷ []
  accumulate_in b (attr ∷ l) =
      if matches b.name b.format attr then add_buffer b attr ∷ l else attr ∷ accumulate_in b l

  unfoldable pub accumulate : Buffer → CompressionStats → CompressionStats
  accumulate b stats = record {
    total_buffer_count = wrap32 (stats.total_buffer_count + 1);
    lod_buffer_count =
        if b.is_lod then wrap32 (stats.lod_buffer_count + 1) else stats.lod_buffer_count;
    per_attribute = accumulate_in b stats.per_attribute;
  }

-- the subtractions at `match`
unfoldable pub subtract_buffer : ℕ → ℕ → ℕ → AttributeStats → AttributeStats
subtract_buffer point_count extra_uncompressed compressed attr =
    let element_size = size_for_format attr.format.type * attr.format.components in
    let uncompressed = wrap64 (point_count * element_size + extra_uncompressed) in
    record attr {
      buffer_count = attr.buffer_count - 1;
      uncompressed_bytes = attr.uncompressed_bytes - uncompressed;
      compressed_bytes = attr.compressed_bytes - compressed;
    }

unfoldable pub any_of : (AttributeStats → Bool) → List AttributeStats → Bool
any_of test [] = false
any_of test (attr ∷ l) = test attr || any_of test l

unfoldable pub update_first :
    (AttributeStats → Bool)
    → (AttributeStats → AttributeStats)
    → List AttributeStats
    → List AttributeStats
update_first test f [] = []
update_first test f (attr ∷ l) = if test attr then f attr ∷ l else attr ∷ update_first test f l

-- The match is the first of the name and the format, or else the first of the name.
unfoldable pub subtract_source :
    List ℕ → PointFormat → ℕ → ℕ → ℕ → CompressionStats → CompressionStats
subtract_source name format point_count extra_uncompressed compressed stats =
    let l = stats.per_attribute in
    let f = subtract_buffer point_count extra_uncompressed compressed in
    let named : AttributeStats → Bool = λ attr. same_name attr.name name in
    if not (any_of named l) then stats else record stats {
      total_buffer_count = stats.total_buffer_count - 1;
      per_attribute =
          if any_of (matches name format) l
          then update_first (matches name format) f l
          else update_first named f l;
    }
