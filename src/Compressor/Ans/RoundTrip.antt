-- ===== src/Compressor/Ans/RoundTrip.antt =====
-- The frames of `fse_compress_standard` are decoded to what was compressed.
use dewfall.Prelude.{
  ℕ, ◌+◌, ◌-◌, ◌*◌, ◌%◌, ◌^◌, ◌<◌, ◌≡◌, refl, Bool, true, false, ◌&&◌, List, ◌++◌, ltb, leb, arith,
  ap, subst, ◌∙◌, Bool-cases, inl, inr, if◌then◌else◌, length, take, drop,
}
use dewfall.Preprocess.Bands.{zeroed, test_bit}
use dewfall.Preprocess.Bands.RoundTrip.{length-zeroed}
use dewfall.Shuffle.{byte_shuffle, byte_unshuffle}
use dewfall.Shuffle.RoundTrip.{byte_unshuffle-byte_shuffle}
use dewfall.Preprocess.MortonDelta.{delta_decode_morton}
use dewfall.Preprocess.Single.{delta_decode_single}
use dewfall.Preprocess.Channels.{correlate_u16x3, delta_decode_u16x3}
use dewfall.Compressor.{PointFormat, produced}
use dewfall.Compressor.Ans.{Fse}
use dewfall.Compressor.Ans.Standard.{Prepared, type_size_of, element_stride, data_bytes_of, prepare}
use dewfall.Compressor.Ans.Decompress.{
  decompress, undo_element_delta, undo_component_delta, undo_decorrelation, undo_morton_delta,
  undo_sort, undo_offset, undo_preprocessing,
}
use dewfall.Compressor.Ans.Decodes.{Framed}
use dewfall.Compressor.Ans.Points.{delta_encode_points_refused, delta_encode_points_undone}
use dewfall.Compressor.Ans.Undone.{
  IsCall, coded, prepared_lem, coded_size, kept_bits, delta_bit, small_stride,
}

module _ (input : List ℕ) (format : PointFormat) (point_count flags_in : ℕ) (working : List ℕ)
    (call : IsCall input format point_count flags_in working) (fse : Fse) (f64_add : ℕ → ℕ → ℕ)
    (out : List ℕ)
    (fr : Framed fse f64_add
      (length input)
      (prepare input format point_count flags_in working)
      out) where
  abbrev prepared : Prepared
  prepared = prepare input format point_count flags_in working

  -- the buffer that was shuffled, and whether it holds a morton delta
  abbrev pub points : Bool × List ℕ
  points = coded input format point_count flags_in working call

  unshuffled :
      byte_unshuffle prepared.shuffled
        (zeroed fr.header.uncompressed_size)
        fr.header.uncompressed_size
        fr.header.type_size
        fr.header.component_count
      ≡ points.1
  unshuffled = rw fr.uncompressed_size (
      rw fr.type_size (
        rw fr.component_count (
          rw (prepared_lem input format point_count flags_in working call) (
            subst
              (λ k.
                byte_unshuffle
                  (byte_shuffle points.1 (zeroed k) k (type_size_of format) format.components)
                  (zeroed k) k (type_size_of format) format.components
                ≡ points.1)
              (coded_size input format point_count flags_in working call)
              (byte_unshuffle-byte_shuffle points.1 (zeroed (length points.1))
                (zeroed (length points.1)) (type_size_of format) format.components
                (length-zeroed (length points.1)) (length-zeroed (length points.1))
                (small_stride input format point_count flags_in working call))))))

  header_bit : (k : ℕ) → 1 < k → k < 7 → test_bit fr.header.flags k ≡ test_bit flags_in k
  header_bit k low l =
      fr.bits k l (omega arith)
      ∙ kept_bits input format point_count flags_in working call k (omega arith) l

  delta_header_bit : test_bit fr.header.flags 0 ≡ points.0
  delta_header_bit =
      fr.bits 0 (omega arith) (omega arith)
      ∙ delta_bit input format point_count flags_in working call

  stride_lem : fr.header.type_size * fr.header.component_count % 2 ^ 8 ≡ element_stride format
  stride_lem = rw fr.type_size (
      rw fr.component_count (rw (prepared_lem input format point_count flags_in working call) refl))

  offset_lem :
      points.0 ≡ true → fr.meta.data_offset ≡ length input - data_bytes_of format point_count
  offset_lem done =
      let (some_point, undone) =
        delta_encode_points_undone input (length input) (data_bytes_of format point_count)
          (element_stride format) call.sized call.inside done in
      let some_point' : (ltb 0 (data_bytes_of format point_count)
            && leb (data_bytes_of format point_count) (length input))
          ≡ true =
        ground (arith, call.inside) in
      fr.offset
      ∙ rw (delta_bit input format point_count flags_in working call ∙ done) (
          ap (λ p. p.data_offset) (prepared_lem input format point_count flags_in working call)
          ∙ rw some_point' refl)

  -- Undoing the morton delta, of any buffer: nothing where none was taken.
  pub undo_morton_delta_plain :
      (buf : List ℕ) → points.0 ≡ false → undo_morton_delta fr.header fr.meta buf ≡ buf
  unfolding undo_morton_delta
  undo_morton_delta_plain buf refused = rw (delta_header_bit ∙ refused) refl

  pub undo_morton_delta_points :
      (buf : List ℕ)
      → points.0 ≡ true
      → undo_morton_delta fr.header fr.meta buf
        ≡ take (length input - data_bytes_of format point_count) buf
          ++ delta_decode_morton
              (drop (length input - data_bytes_of format point_count) buf)
              (data_bytes_of format point_count)
              (element_stride format)
  unfolding undo_morton_delta
  undo_morton_delta_points buf done =
      let left : (length input + 2 ^ 32 - (length input - data_bytes_of format point_count))
            % 2 ^ 32
          ≡ data_bytes_of format point_count =
        omega (arith, call.inside, call.small) in
      rw (delta_header_bit ∙ done) (
        rw (header_bit 3 (omega arith) (omega arith) ∙ call.caller.no_sort)
          (rw stride_lem (rw (offset_lem done) (rw fr.uncompressed_size (rw left refl)))))

  pub undo_morton_delta_lem : undo_morton_delta fr.header fr.meta points.1 ≡ input
  undo_morton_delta_lem = elim (Bool-cases points.0) [
    | inl done ↦
        undo_morton_delta_points points.1 done
        ∙ (delta_encode_points_undone input (length input) (data_bytes_of format point_count)
            (element_stride format) call.sized call.inside done).1
    | inr refused ↦
        undo_morton_delta_plain points.1 refused
        ∙ delta_encode_points_refused input (length input) (data_bytes_of format point_count)
            (element_stride format) call.sized call.inside refused
  ]

  -- What `decompress` returns, with the permutation and the offset left out.
  undo_preprocessing_lem :
      undo_preprocessing f64_add fr.header fr.meta prepared.shuffled
      ≡ undo_morton_delta fr.header fr.meta (
          undo_decorrelation fr.header
            (undo_component_delta fr.header (undo_element_delta fr.header points.1)))
  unfolding undo_preprocessing undo_offset undo_sort
  undo_preprocessing_lem =
      rw (header_bit 2 (omega arith) (omega arith) ∙ call.caller.no_offset)
        (rw (header_bit 3 (omega arith) (omega arith) ∙ call.caller.no_sort) (rw unshuffled refl))

  -- No bit of the caller, nothing else to undo.
  flag_lem : (k : ℕ) → 3 < k → k < 7 → test_bit fr.header.flags k ≡ test_bit flags_in k
  flag_lem k low l = header_bit k (omega arith) l

  undo_element_delta_lem :
      (buf : List ℕ)
      → undo_element_delta fr.header buf ≡ (
          if test_bit flags_in 6
          then delta_decode_single buf (length input) (type_size_of format)
          else buf)
  unfolding undo_element_delta
  undo_element_delta_lem buf = rw (flag_lem 6 (omega arith) (omega arith)) (
      rw fr.uncompressed_size
        (rw fr.type_size (rw (prepared_lem input format point_count flags_in working call) refl)))

  undo_component_delta_lem :
      (buf : List ℕ)
      → undo_component_delta fr.header buf
        ≡ (if test_bit flags_in 5 then delta_decode_u16x3 buf (length input) else buf)
  unfolding undo_component_delta
  undo_component_delta_lem buf =
      rw (flag_lem 5 (omega arith) (omega arith)) (rw fr.uncompressed_size refl)

  undo_decorrelation_lem :
      (buf : List ℕ)
      → undo_decorrelation fr.header buf
        ≡ (if test_bit flags_in 4 then correlate_u16x3 buf (length input) else buf)
  unfolding undo_decorrelation
  undo_decorrelation_lem buf =
      rw (flag_lem 4 (omega arith) (omega arith)) (rw fr.uncompressed_size refl)

  -- what undoes the other preprocessing
  abbrev pub undone : List ℕ → List ℕ
  undone buf =
      let after_element : List ℕ =
        if test_bit flags_in 6
        then delta_decode_single buf (length input) (type_size_of format)
        else buf in
      let after_component : List ℕ =
        if test_bit flags_in 5
        then delta_decode_u16x3 after_element (length input)
        else after_element in
      if test_bit flags_in 4
      then correlate_u16x3 after_component (length input)
      else after_component

  -- What the blob is decoded to.
  pub decoded_lem :
      decompress fse f64_add out ≡ produced (undo_morton_delta fr.header fr.meta (undone points.1))
  decoded_lem =
      fr.decoded
      ∙ ap produced (
          undo_preprocessing_lem
          ∙ ap (undo_morton_delta fr.header fr.meta) (
              undo_decorrelation_lem _
              ∙ ap (λ b. if test_bit flags_in 4 then correlate_u16x3 b (length input) else b)
                  (undo_component_delta_lem _
                    ∙ ap
                        (λ b.
                          if test_bit flags_in 5 then delta_decode_u16x3 b (length input) else b)
                        (undo_element_delta_lem points.1))))
