-- ===== src/Compressor/Ans/SingleInteger.antt =====
-- The branch of `compress` for one integer.
use dewfall.Prelude.{
  ℕ, ◌-◌, ◌≡◌, ◌⊎◌, refl, Bool, true, List, arith, ap, sym, ◌∙◌, Bool-cases, inl, inr, length,
}
use dewfall.Bytes.{AllBytes}
use dewfall.Preprocess.Sizes.{IsSized, delta_encode_single-IsSized}
use dewfall.Preprocess.Single.{
  delta_encode_single, delta_decode_single, delta_decode_single-delta_encode_single,
}
use dewfall.Compressor.{PointFormat, size_for_format}
use dewfall.Compressor.Ans.{Fse}
use dewfall.Compressor.Ans.Standard.{
  type_size_of, element_stride, data_bytes_of, prepare, compress_single, is_single,
}
use dewfall.Compressor.Ans.Decompress.{undo_morton_delta}
use dewfall.Compressor.Ans.Unpack.{FseDecodes}
use dewfall.Compressor.Ans.Decodes.{Framed}
use dewfall.Compressor.Ans.Undone.{
  size_for_format_bounds, IsCall, IsCallerFlags, coded, type_size_of_lem,
}
use dewfall.Compressor.Ans.Points.{delta_encode_points_refused, delta_encode_points_undone}
use dewfall.Compressor.Ans.RoundTrip.{
  undo_morton_delta_lem, undo_morton_delta_plain, undo_morton_delta_points,
}
use dewfall.Preprocess.Agree.{delta_decode_morton-delta_decode_single}
use dewfall.Preprocess.Single.{has_case}
use dewfall.Compressor.Ans.Points.{delta_encode_points_ops, delta_encode_points-AllBytes}
use dewfall.Compressor.Ans.Paths.{IsGood, pick_smaller-IsGood, plain-IsGood, candidate_lem}
use dewfall.Compressor.Ans.Colours.{IsInput, call_plain, call_working}

flags_64 : IsCallerFlags 64
flags_64 = record {
  bound = omega arith;
  no_delta = refl;
  no_bands = refl;
  no_offset = refl;
  no_sort = refl;
}

-- The sizes of one integer are cases of the delta, and the stride is the size.
single_parts :
    (format : PointFormat)
    → is_single format ≡ true
    → (has_case (size_for_format format.type) ≡ true)
      × (element_stride format ≡ size_for_format format.type)
single_parts format h =
    let t = size_for_format format.type in
    let one : format.components ≡ 1 = ground arith in
    let known : has_case t ≡ true = ground arith in
    (known, ground (arith, type_size_of_lem format, one, known))

module _ (input : List ℕ) (format : PointFormat) (point_count : ℕ)
    (ok : IsInput input format point_count) (single : is_single format ≡ true)
    (all : (data_bytes_of format point_count ≡ 0)
      ⊎ (data_bytes_of format point_count ≡ length input))
    (fse : Fse) (f64_add : ℕ → ℕ → ℕ) (law : FseDecodes fse) where
  abbrev ts : ℕ
  ts = size_for_format format.type

  abbrev working : List ℕ
  working = delta_encode_single input (length input) ts

  sized : IsSized (length input) working
  sized = delta_encode_single-IsSized (length input) input (length input) ts (ok.bytes, refl)

  call : IsCall working format point_count 64 working
  call = call_working input format point_count ok working 64 sized flags_64

  abbrev delta : Bool × List ℕ
  delta = coded working format point_count 64 working call

  -- the element delta undone gives the input
  element_undone : delta_decode_single working (length working) ts ≡ input
  element_undone =
      rw sized.1
        (delta_decode_single-delta_encode_single input (length input) ts ok.bytes (omega arith)
          (omega (arith, size_for_format_bounds format.type))).0

  module _ (out : List ℕ)
      (fr : Framed fse f64_add
        (length working)
        (prepare working format point_count 64 working)
        out) where
    abbrev undo : List ℕ → List ℕ
    undo = undo_morton_delta fr.header fr.meta

    -- Where a morton delta was taken too, undoing it is undoing the element delta.
    undo_lem :
        (buf : List ℕ)
        → delta.0 ≡ true
        → AllBytes buf
        → undo buf ≡ delta_decode_single buf (length working) ts
    undo_lem buf done bytes =
        let (known, stride) = single_parts format single in
        let data_bytes = data_bytes_of format point_count in
        let parts =
          delta_encode_points_ops working (length working) data_bytes (element_stride format)
            call.sized call.inside done in
        let some_point =
          (delta_encode_points_undone working (length working) data_bytes (element_stride format)
            call.sized call.inside done).0 in
        let whole : data_bytes ≡ length working = omega (arith, all, some_point, sized.1) in
        let start : length working - data_bytes ≡ 0 = omega arith in
        undo_morton_delta_points working format point_count 64 working call fse f64_add out fr buf
          done
        ∙ rw start (
            rw whole (
              rw stride (
                delta_decode_morton-delta_decode_single buf (length working) ts parts.0 known
                  (rw⁻¹ stride parts.1) bytes)))

    reach : undo (delta_decode_single delta.1 (length working) (type_size_of format)) ≡ input
    reach =
        ap (λ w. undo (delta_decode_single delta.1 (length working) w)) (type_size_of_lem format)
        ∙ elim (Bool-cases delta.0) [
          | inl done ↦
              let bytes =
                delta_encode_points-AllBytes working (length working)
                  (data_bytes_of format point_count) (element_stride format) call.sized
                  call.inside in
              let back =
                undo_morton_delta_lem working format point_count 64 working call fse f64_add out
                  fr in
              ap undo (sym (undo_lem delta.1 done bytes) ∙ back)
              ∙ undo_lem working done sized.0
              ∙ element_undone
          | inr refused ↦
              undo_morton_delta_plain working format point_count 64 working call fse f64_add out fr
                _ refused
              ∙ rw
                  (delta_encode_points_refused working (length working)
                    (data_bytes_of format point_count) (element_stride format) call.sized
                    call.inside refused)
                  element_undone
        ]

  pub single-IsGood : IsGood fse f64_add law input (compress_single fse input format point_count)
  unfolding compress_single
  single-IsGood =
      pick_smaller-IsGood fse f64_add law input _ _
        (plain-IsGood fse f64_add law input format point_count
          (call_plain input format point_count ok))
        (candidate_lem fse f64_add law input working format point_count 64 sized.1 call reach)
