-- ===== src/Compressor/Ans/Undone.antt =====
-- What `fse_compress_standard` prepares is unshuffled, and the flags say what is left to undo.
use dewfall.Prelude.{
  ℕ, zero, suc, ◌+◌, ◌-◌, ◌^◌, ◌≤◌, ◌<◌, ◌≡◌, ◌⊎◌, refl, Bool, true, false, ◌&&◌, List, [], ◌∷◌,
  ltb, leb, arith, ap, ◌∙◌, Bool-cases, inl, inr, if◌then◌else◌, length, element_before, ◌*◌,
}
use dewfall.Preprocess.Sizes.{IsSized}
use dewfall.Preprocess.Bands.{zeroed, test_bit, set_bit}
use dewfall.Preprocess.Bands.RoundTrip.{length-zeroed}
use dewfall.Shuffle.{byte_shuffle}
use dewfall.Shuffle.RoundTrip.{length-byte_shuffle}
use dewfall.Compressor.{DewType, PointFormat, size_for_format}
use dewfall.Compressor.Ans.{flag_delta_encoded}
use dewfall.Compressor.Ans.Standard.{
  Prepared, type_size_of, element_stride, data_bytes_of, delta_encode_points, working_or_input,
  prepare,
}
use dewfall.Compressor.Ans.Decodes.{IsPrepared}
use dewfall.Compressor.Ans.Points.{length-delta_encode_points}

pub size_for_format_bounds : (t : DewType) → (1 ≤ size_for_format t) × (size_for_format t ≤ 24)
unfolding size_for_format
size_for_format_bounds t = grind arith

pub type_size_of_lem : (format : PointFormat) → type_size_of format ≡ size_for_format format.type
type_size_of_lem format = ground (arith, size_for_format_bounds format.type)

-- The flags that the caller of `fse_compress_standard` sets: neither the delta nor what
-- `decompress` takes out of the metadata.
pub record IsCallerFlags (flags : ℕ) : Type 0 where
  pub bound : flags < 128
  pub no_delta : test_bit flags 0 ≡ false
  pub no_bands : test_bit flags 1 ≡ false
  pub no_offset : test_bit flags 2 ≡ false
  pub no_sort : test_bit flags 3 ≡ false

-- Setting the lowest bit leaves the others.
next_bit :
    (flags k : ℕ)
    → test_bit flags 0 ≡ false
    → 0 < k
    → k < 7
    → test_bit (flags + 1) k ≡ test_bit flags k
next_bit flags zero h low l = absurd (omega arith)
next_bit flags (suc zero) h low l = ground arith
next_bit flags (suc (suc zero)) h low l = ground arith
next_bit flags (suc (suc (suc zero))) h low l = ground arith
next_bit flags (suc (suc (suc (suc zero)))) h low l = ground arith
next_bit flags (suc (suc (suc (suc (suc zero))))) h low l = ground arith
next_bit flags (suc (suc (suc (suc (suc (suc zero)))))) h low l = ground arith
next_bit flags (suc (suc (suc (suc (suc (suc (suc k))))))) h low l = absurd (omega arith)

working_lem :
    (working input : List ℕ)
    → (working ≡ []) ⊎ (working ≡ input)
    → working_or_input working input ≡ input
unfolding working_or_input
working_lem [] input same = refl
working_lem (x ∷ l) input (inl same) = absurd (ground arith)
working_lem (x ∷ l) input (inr same) = same

-- What the callers of `fse_compress_standard` give it: bytes that fit 4 GiB together with a header,
-- points that lie in them, and a working copy that is what they give as the input.
pub record IsCall (input : List ℕ) (format : PointFormat) (point_count flags_in : ℕ)
    (working : List ℕ) : Type 0 where
  pub sized : IsSized (length input) input
  pub small : 16 + length input < 2 ^ 32
  pub components : format.components < 256
  pub inside : data_bytes_of format point_count ≤ length input
  pub caller : IsCallerFlags flags_in
  pub same : (working ≡ []) ⊎ (working ≡ input)

module _ (input : List ℕ) (format : PointFormat) (point_count flags_in : ℕ) (working : List ℕ)
    (call : IsCall input format point_count flags_in working) where
  abbrev pub n : ℕ
  n = length input

  abbrev pub coded : Bool × List ℕ
  coded =
      delta_encode_points input (n - data_bytes_of format point_count)
        (data_bytes_of format point_count) (element_stride format)

  -- the stride of the shuffle does not wrap
  pub small_stride : type_size_of format * format.components < 2 ^ 32
  small_stride = omega (
    arith,
    element_before (type_size_of format) 25 format.components
        (omega (arith, type_size_of_lem format, size_for_format_bounds format.type)),
    call.components,
  )

  abbrev pub prepared : Prepared
  prepared = prepare input format point_count flags_in working

  -- The points are counted from the end, also where there are none.
  points_lem :
      delta_encode_points input
        (if ltb 0 (data_bytes_of format point_count) && leb (data_bytes_of format point_count) n
          then n - data_bytes_of format point_count
          else 0)
        (data_bytes_of format point_count)
        (element_stride format)
      ≡ coded
  unfolding delta_encode_points
  points_lem = elim (Bool-cases (ltb 0 (data_bytes_of format point_count))) [
    | inl some_point ↦
        let fits : leb (data_bytes_of format point_count) n ≡ true = ground arith in
        rw some_point (rw fits refl)
    | inr no_point ↦ rw no_point refl
  ]

  pub prepared_lem : prepared ≡ record {
    type_size = type_size_of format;
    component_count = format.components;
    flags = if coded.0 then set_bit flags_in flag_delta_encoded else flags_in;
    data_offset =
        if ltb 0 (data_bytes_of format point_count) && leb (data_bytes_of format point_count) n
        then n - data_bytes_of format point_count
        else 0;
    shuffled = byte_shuffle coded.1 (zeroed n) n (type_size_of format) format.components;
  }
  unfolding prepare
  prepared_lem = rw (working_lem working input call.same) (rw points_lem refl)

  flags_lem : prepared.flags ≡ (if coded.0 then flags_in + 1 else flags_in)
  flags_lem = ap (λ p. p.flags) prepared_lem ∙ rw call.caller.no_delta refl

  -- the bits that the caller has set
  pub kept_bits : (k : ℕ) → 0 < k → k < 7 → test_bit prepared.flags k ≡ test_bit flags_in k
  kept_bits k low l = ap (λ f. test_bit f k) flags_lem ∙ elim (Bool-cases coded.0) [
    | inl done ↦ rw done (next_bit flags_in k call.caller.no_delta low l)
    | inr refused ↦ rw refused refl
  ]

  pub delta_bit : test_bit prepared.flags 0 ≡ coded.0
  delta_bit = ap (λ f. test_bit f 0) flags_lem ∙ elim (Bool-cases coded.0) [
    | inl done ↦ rw done (ground (arith, call.caller.no_delta))
    | inr refused ↦ rw refused call.caller.no_delta
  ]

  pub coded_size : length coded.1 ≡ n
  coded_size =
      length-delta_encode_points input n (data_bytes_of format point_count) (element_stride format)
        call.sized call.inside

  pub prepared_ok : IsPrepared n prepared
  prepared_ok = record {
    size_bound = call.small;
    size_lem =
        ap (λ p. length p.shuffled) prepared_lem
        ∙ (length-byte_shuffle coded.1 (zeroed n) n (type_size_of format) format.components
            ∙ length-zeroed n);
    offset_bound = ground (arith, ap (λ p. p.data_offset) prepared_lem, call.small);
    type_bound = ground (
      arith,
      ap (λ p. p.type_size) prepared_lem,
      type_size_of_lem format,
      size_for_format_bounds format.type,
    );
    component_bound = ground (arith, ap (λ p. p.component_count) prepared_lem, call.components);
    flags_bound = ground (arith, flags_lem, call.caller.bound, call.caller.no_delta);
    no_bands = kept_bits 1 (omega arith) (omega arith) ∙ call.caller.no_bands;
    no_offset = kept_bits 2 (omega arith) (omega arith) ∙ call.caller.no_offset;
    no_sort = kept_bits 3 (omega arith) (omega arith) ∙ call.caller.no_sort;
  }
