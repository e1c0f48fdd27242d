-- ===== src/Compressor/Ans.antt =====
-- src/core/compressor_ans.cpp. The functions of the FSE library are parameters; so are the IEEE
-- operations on `double`, by their bit patterns, and `std::sort`.
pub mod Standard
pub mod Decompress
pub mod Unpack
pub mod Frames
pub mod Decodes
pub mod Points
pub mod Undone
pub mod RoundTrip
pub mod Paths
pub mod Colours
pub mod SingleInteger
pub mod Lossless
pub mod Outcome
use dewfall.Prelude.{
  ℕ, zero, suc, ◌+◌, ◌-◌, ◌*◌, ◌/◌, ◌%◌, ◌^◌, Bool, true, false, not, ◌&&◌, ◌||◌, Option, none,
  some, List, [], ◌∷◌, ◌++◌, ltb, leb, ◌==◌, if◌then◌else◌, length, take, drop,
}
use dewfall.Preprocess.Bands.{test_bit, set_bit}

-- The FSE library: `none` is an error code.
pub record Fse : Type 0 where
  -- the counts and the greatest symbol
  pub hist_count_wksp : List ℕ → Option (List ℕ × ℕ)
  pub optimal_table_log : ℕ → ℕ → ℕ
  -- table_log, counts, source size, greatest symbol
  pub normalize_count : ℕ → List ℕ → ℕ → ℕ → Option (List ℕ × ℕ)
  pub compress_bound : ℕ → ℕ
  -- capacity, normalized counts, greatest symbol, table_log
  pub write_ncount : ℕ → List ℕ → ℕ → ℕ → Option (List ℕ)
  pub build_ctable : List ℕ → ℕ → ℕ → Option (List ℕ)
  -- capacity, source, table
  pub compress_using_ctable : ℕ → List ℕ → List ℕ → Option (List ℕ)
  -- destination size, source
  pub decompress_wksp : ℕ → List ℕ → Option (List ℕ)

-- `fse_compress_result_t`: an error, size 0 for incompressible data, or the packed bytes
pub data FseCompressResult : Type 0 where
  fse_error : FseCompressResult
  incompressible : FseCompressResult
  packed : List ℕ → FseCompressResult

module _ (fse : Fse) where
  -- the part of `fse_compress_data` behind the normalized counts
  unfoldable pub fse_encode : List ℕ → List ℕ → ℕ → ℕ → FseCompressResult
  fse_encode src normalized max_symbol table_log =
      let max_output = fse.compress_bound (length src) in
      elim (fse.write_ncount max_output normalized max_symbol table_log) [
        | none ↦ fse_error
        | some header ↦ elim (fse.build_ctable normalized max_symbol table_log) [
          | none ↦ fse_error
          | some ct ↦ elim (fse.compress_using_ctable (max_output - length header) src ct) [
            | none ↦ fse_error
            | some [] ↦ incompressible
            | some (x ∷ l) ↦ packed (header ++ (x ∷ l))
          ]
        ]
      ]

  unfoldable pub fse_compress_data : List ℕ → FseCompressResult
  fse_compress_data [] = incompressible
  fse_compress_data (x ∷ src) = elim (fse.hist_count_wksp (x ∷ src)) [
    | none ↦ fse_error
    | some (count, max_symbol) ↦
        let table_log = fse.optimal_table_log (length (x ∷ src)) max_symbol in
        elim (fse.normalize_count table_log count (length (x ∷ src)) max_symbol) [
          | none ↦ fse_error
          | some (normalized, norm_result) ↦
              if norm_result == 0
              then incompressible
              else fse_encode (x ∷ src) normalized max_symbol table_log
        ]
  ]

  unfoldable pub fse_decompress_data : List ℕ → ℕ → Option (List ℕ)
  fse_decompress_data src dst_size = fse.decompress_wksp dst_size src

-- the bytes of a result, and `size`
abbrev pub packed_size : FseCompressResult → ℕ
packed_size (packed l) = length l
packed_size incompressible = 0
packed_size fse_error = 0

-- The bits of `flags`: `compression_flag_delta_encoded` and its kin
abbrev pub flag_delta_encoded : ℕ
flag_delta_encoded = 0

abbrev pub flag_constant_bands : ℕ
flag_constant_bands = 1

abbrev pub flag_offset_subtracted : ℕ
flag_offset_subtracted = 2

abbrev pub flag_sort_permutation : ℕ
flag_sort_permutation = 3

abbrev pub flag_decorrelated : ℕ
flag_decorrelated = 4

abbrev pub flag_component_delta : ℕ
flag_component_delta = 5

abbrev pub flag_element_delta : ℕ
flag_element_delta = 6
