-- ===== src/Compressor/Ans/Colours.antt =====
-- The branch of `compress` for three 16-bit colours.
use dewfall.Prelude.{
  ℕ, ◌+◌, ◌^◌, ◌≤◌, ◌<◌, ◌≡◌, refl, true, false, List, [], arith, ap, ◌∙◌, Bool-cases, inl, inr,
  if◌then◌else◌, length, none,
}
use dewfall.Bytes.{AllBytes}
use dewfall.Preprocess.Sizes.{IsSized, decorrelate_u16x3-IsSized, delta_encode_u16x3-IsSized}
use dewfall.Preprocess.Bands.{test_bit}
use dewfall.Preprocess.Words.{get_morton_ops}
use dewfall.Preprocess.Channels.{
  decorrelate_u16x3, correlate_u16x3, delta_encode_u16x3, delta_decode_u16x3,
}
use dewfall.Preprocess.Channels.Delta.{delta_decode_u16x3-delta_encode_u16x3}
use dewfall.Preprocess.Channels.Colour.{correlate_u16x3-decorrelate_u16x3}
use dewfall.Compressor.{PointFormat, size_for_format}
use dewfall.Compressor.Ans.{Fse}
use dewfall.Compressor.Ans.Standard.{
  element_stride, data_bytes_of, fse_compress_standard, compress_u16x3, is_u16x3,
}
use dewfall.Compressor.Ans.Unpack.{FseDecodes}
use dewfall.Compressor.Ans.Undone.{IsCall, IsCallerFlags, coded, type_size_of_lem}
use dewfall.Compressor.Ans.Points.{delta_encode_points_refused}
use dewfall.Compressor.Ans.RoundTrip.{undo_morton_delta_plain}
use dewfall.Compressor.Ans.Points.{delta_encode_points_ops}
use dewfall.Compressor.Ans.Paths.{
  plain_flags, IsGood, IsCandidate, pick_smaller-IsGood, plain-IsGood, candidate_lem,
}

-- What `compress` is given: bytes that fit 4 GiB together with a header, fewer than 256 components,
-- and points that lie in the bytes.
pub record IsInput (input : List ℕ) (format : PointFormat) (point_count : ℕ) : Type 0 where
  pub bytes : AllBytes input
  pub small : 16 + length input < 2 ^ 32
  pub components : format.components < 256
  pub inside : data_bytes_of format point_count ≤ length input

flags_16 : IsCallerFlags 16
flags_16 = record {
  bound = omega arith;
  no_delta = refl;
  no_bands = refl;
  no_offset = refl;
  no_sort = refl;
}

flags_32 : IsCallerFlags 32
flags_32 = record {
  bound = omega arith;
  no_delta = refl;
  no_bands = refl;
  no_offset = refl;
  no_sort = refl;
}

flags_48 : IsCallerFlags 48
flags_48 = record {
  bound = omega arith;
  no_delta = refl;
  no_bands = refl;
  no_offset = refl;
  no_sort = refl;
}

u16x3_parts :
    (format : PointFormat)
    → is_u16x3 format ≡ true
    → (size_for_format format.type ≡ 2) × (format.components ≡ 3)
unfolding size_for_format
u16x3_parts format h = grind arith

-- Elements of 6 bytes have no morton delta.
no_ops :
    (format : PointFormat) → is_u16x3 format ≡ true → get_morton_ops (element_stride format) ≡ none
unfolding get_morton_ops
no_ops format h =
    let (two, three) = u16x3_parts format h in
    let six : element_stride format ≡ 6 = ground (arith, type_size_of_lem format, two, three) in
    rw six refl

module _ (input : List ℕ) (format : PointFormat) (point_count : ℕ)
    (ok : IsInput input format point_count) where
  abbrev n : ℕ
  n = length input

  pub call_plain : IsCall input format point_count 0 []
  call_plain = record {
    sized = (ok.bytes, refl);
    small = ok.small;
    components = ok.components;
    inside = ok.inside;
    caller = plain_flags;
    same = inl refl;
  }

  pub call_working :
      (working : List ℕ) (flags : ℕ)
      → IsSized n working
      → IsCallerFlags flags
      → IsCall working format point_count flags working
  call_working working flags sized caller = record {
    sized = (sized.0, refl);
    small = omega (arith, ok.small, sized.1);
    components = ok.components;
    inside = omega (arith, ok.inside, sized.1);
    caller = caller;
    same = inr refl;
  }

  module _ (fse : Fse) (f64_add : ℕ → ℕ → ℕ) (law : FseDecodes fse) where
    -- a candidate of three 16-bit colours, by what undoes it
    colours-IsCandidate :
        (colours : is_u16x3 format ≡ true) (working : List ℕ) (flags : ℕ)
        (sized : IsSized n working)
        → (caller : IsCallerFlags flags) → test_bit flags 6 ≡ false
        → (let after : List ℕ =
              if test_bit flags 5 then delta_decode_u16x3 working n else working in
            if test_bit flags 4 then correlate_u16x3 after n else after)
          ≡ input
        → IsCandidate fse f64_add law input
            (fse_compress_standard fse working format point_count flags working)
    colours-IsCandidate colours working flags sized caller no_element reach =
        let call = call_working working flags sized caller in
        let bytes = data_bytes_of format point_count in
        let delta = coded working format point_count flags working call in
        let refused : delta.0 ≡ false = elim (Bool-cases delta.0) [
          | inl done ↦
              let (ops, found) =
                delta_encode_points_ops working (length working) bytes (element_stride format)
                  call.sized call.inside done in
              absurd (ground (arith, no_ops format colours, found))
          | inr refused ↦ refused
        ] in
        candidate_lem fse f64_add law input working format point_count flags sized.1 call (λ out fr.
          undo_morton_delta_plain working format point_count flags working call fse f64_add out fr _
            refused
          ∙ rw
              (delta_encode_points_refused working (length working) bytes (element_stride format)
                call.sized call.inside refused)
              (rw no_element (rw sized.1 reach)))

    pub colours-IsGood :
        is_u16x3 format ≡ true
        → IsGood fse f64_add law input (compress_u16x3 fse input format point_count)
    unfolding compress_u16x3
    colours-IsGood colours =
        let start : IsSized n input = (ok.bytes, refl) in
        let fits : n ≤ length input = omega arith in
        let base = plain-IsGood fse f64_add law input format point_count call_plain in
        let sized_b = decorrelate_u16x3-IsSized n input n start in
        let sized_c = delta_encode_u16x3-IsSized n input n start in
        let sized_d = delta_encode_u16x3-IsSized n (decorrelate_u16x3 input n) n sized_b in
        let fits_b : n ≤ length (decorrelate_u16x3 input n) = omega (arith, sized_b.1) in
        let colour = (correlate_u16x3-decorrelate_u16x3 input n ok.bytes fits).0 in
        let delta = (delta_decode_u16x3-delta_encode_u16x3 input n ok.bytes fits).0 in
        let both =
          ap (λ b. correlate_u16x3 b n)
            (delta_decode_u16x3-delta_encode_u16x3 (decorrelate_u16x3 input n) n sized_b.0 fits_b).0
          ∙ colour in
        pick_smaller-IsGood fse f64_add law input _ _
          (pick_smaller-IsGood fse f64_add law input _ _
            (pick_smaller-IsGood fse f64_add law input _ _ base (
              colours-IsCandidate colours (decorrelate_u16x3 input n) (2 ^ 4) sized_b flags_16 refl
                colour))
            (colours-IsCandidate colours (delta_encode_u16x3 input n) (2 ^ 5) sized_c flags_32 refl
              delta))
          (colours-IsCandidate colours (delta_encode_u16x3 (decorrelate_u16x3 input n) n)
            (2 ^ 4 + 2 ^ 5) sized_d flags_48 refl both)
