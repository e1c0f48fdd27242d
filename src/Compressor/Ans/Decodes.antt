-- ===== src/Compressor/Ans/Decodes.antt =====
-- What `decompress` makes of what `fse_compress_standard` produces.
use dewfall.Prelude.{
  ℕ, suc, ◌+◌, ◌*◌, ◌%◌, ◌^◌, ◌≤◌, ◌<◌, ◌≡◌, ◌≢◌, ◌⊎◌, refl, true, false, ◌&&◌, List, [], ◌∷◌, ◌++◌,
  ltb, leb, ◌==◌, if◌then◌else◌, length, length-append, arith, ap, sym, subst, ◌∙◌, Bool-cases, inl,
  inr,
}
use dewfall.Preprocess.Bands.{BandCompactResult, zeroed, test_bit, set_bit, detect_constant_bands}
use dewfall.Preprocess.Bands.RoundTrip.{
  BandsRestored, restore_constant_bands-detect_constant_bands, assigned_lem, length-zeroed,
}
use dewfall.Bytes.{le}
use dewfall.Shuffle.RoundTrip.{mod_small}
use dewfall.Compressor.{
  CompressionHeader, CompressionResult, produced, write_header, header_size, method_none,
  method_ans,
}
use dewfall.Compressor.Header.{
  FitsHeader, length-write_header, drop-write_header, read_header-write_header,
}
use dewfall.Compressor.Ans.{
  Fse, FseCompressResult, fse_error, incompressible, packed, packed_size, fse_compress_data,
  flag_delta_encoded, flag_constant_bands, flag_offset_subtracted, flag_sort_permutation,
}
use dewfall.Compressor.Ans.Standard.{
  Prepared, delta_meta, band_meta, filled, frame, frame_full, frame_smaller, compress_prepared,
}
use dewfall.Compressor.Ans.Decompress.{Metadata, decompress, decompress_payload, undo_preprocessing}
use dewfall.Compressor.Ans.Unpack.{FseDecodes}
use dewfall.Preprocess.Bands.RoundTrip.{detect_constant_bands_mask}
use dewfall.Compressor.Ans.Frames.{
  Unpacks, delta_offset, take_all, Unpacks-full, Unpacks-compacted, set_bands, bands_bit,
}

-- the header of a frame around a payload, and around the input itself
abbrev ans_header : ℕ → Prepared → ℕ → ℕ → CompressionHeader
ans_header size p flags payload_size = record {
  method = method_ans;
  type_size = p.type_size;
  component_count = p.component_count;
  flags = flags;
  uncompressed_size = size;
  compressed_size = payload_size;
}

abbrev stored_header : ℕ → Prepared → CompressionHeader
stored_header size p = record {
  method = method_none;
  type_size = p.type_size;
  component_count = p.component_count;
  flags = 0;
  uncompressed_size = size;
  compressed_size = size;
}

-- The bounds of what `fse_compress_standard` has prepared from an input of `size` bytes.
pub record IsPrepared (size : ℕ) (p : Prepared) : Type 0 where
  pub size_bound : 16 + size < 2 ^ 32
  pub size_lem : length p.shuffled ≡ size
  pub offset_bound : p.data_offset < 2 ^ 32
  pub type_bound : p.type_size < 256
  pub component_bound : p.component_count < 256
  pub flags_bound : p.flags < 128
  pub no_bands : test_bit p.flags flag_constant_bands ≡ false
  pub no_offset : test_bit p.flags flag_offset_subtracted ≡ false
  pub no_sort : test_bit p.flags flag_sort_permutation ≡ false

-- What a frame is decoded to: the shuffled bytes that were prepared, under a header and metadata that
-- say how they were prepared.
pub record Framed (fse : Fse) (f64_add : ℕ → ℕ → ℕ) (size : ℕ) (p : Prepared) (out : List ℕ)
    : Type 0 where
  pub header : CompressionHeader
  pub meta : Metadata
  pub smaller : length out < 16 + size
  pub decoded :
      decompress fse f64_add out ≡ produced (undo_preprocessing f64_add header meta p.shuffled)
  pub type_size : header.type_size ≡ p.type_size
  pub component_count : header.component_count ≡ p.component_count
  pub uncompressed_size : header.uncompressed_size ≡ size
  pub bits : (k : ℕ) → k < 7 → k ≢ 1 → test_bit header.flags k ≡ test_bit p.flags k
  pub offset : meta.data_offset ≡ delta_offset p.flags p.data_offset

-- An input is stored as it is, or framed.
abbrev pub Decodes : Fse → (ℕ → ℕ → ℕ) → List ℕ → Prepared → List ℕ → Type 0
Decodes fse f64_add input p out =
    ((length out ≡ 16 + length input) × (decompress fse f64_add out ≡ produced input))
    ⊎ Framed fse f64_add (length input) p out

-- Behind a header, `decompress` goes on with that header and the bytes that follow it.
decompress-write_header :
    (fse : Fse) (f64_add : ℕ → ℕ → ℕ) (h : CompressionHeader) (rest : List ℕ)
    → FitsHeader h
    → decompress fse f64_add (write_header h ++ rest) ≡ decompress_payload fse f64_add h rest
unfolding decompress
decompress-write_header fse f64_add h rest fits =
    let long : ltb (length (write_header h ++ rest)) header_size ≡ false =
      ground (arith, length-append (write_header h) rest, length-write_header h) in
    rw long (rw (read_header-write_header h rest fits) (rw (drop-write_header h rest) refl))

decompress_stored :
    (fse : Fse) (f64_add : ℕ → ℕ → ℕ) (p : Prepared) (input : List ℕ)
    → IsPrepared (length input) p
    → decompress fse f64_add (write_header (stored_header (length input) p) ++ input)
      ≡ produced input
unfolding decompress_payload
decompress_stored fse f64_add p input ok =
    decompress-write_header fse f64_add (stored_header (length input) p) input (record {
      method = ground arith;
      type_size = ok.type_bound;
      component_count = ok.component_bound;
      flags = ground arith;
      uncompressed_size = omega (arith, ok.size_bound);
      compressed_size = omega (arith, ok.size_bound);
    })
    ∙ ap produced (assigned_lem input)

decompress_framed :
    (fse : Fse) (f64_add : ℕ → ℕ → ℕ) (h : CompressionHeader) (payload shuffled : List ℕ) (d : ℕ)
    → FitsHeader h
    → (h.method == method_none) ≡ false
    → (u : Unpacks fse h payload shuffled d)
    → decompress fse f64_add (write_header h ++ payload)
      ≡ produced (undo_preprocessing f64_add h u.meta shuffled)
unfolding decompress_payload
decompress_framed fse f64_add h payload shuffled d fits method u =
    decompress-write_header fse f64_add h payload fits
    ∙ rw (method, decompress_payload)
        (rw (u.read, decompress_payload) (rw (u.values, decompress_payload) refl))

pub result_cases :
    (r : FseCompressResult)
    → (r ≡ fse_error) ⊎ ((r ≡ incompressible) ⊎ ((l : List ℕ) × (r ≡ packed l)))
result_cases fse_error = inl refl
result_cases incompressible = inr (inl refl)
result_cases (packed l) = inr (inr (l, refl))

module _ (fse : Fse) (f64_add : ℕ → ℕ → ℕ) (input : List ℕ) (p : Prepared)
    (ok : IsPrepared (length input) p) where
  abbrev Result : CompressionResult → Type 0
  Result r = (out : List ℕ) → r ≡ produced out → Decodes fse f64_add input p out

  -- the flags of a frame keep all bits but that of the bands
  abbrev SameBits : ℕ → Type 0
  SameBits flags = (k : ℕ) → k < 7 → k ≢ 1 → test_bit flags k ≡ test_bit p.flags k

  fits_header :
      (flags payload_size : ℕ)
      → flags < 256
      → payload_size < length input
      → FitsHeader (ans_header (length input) p flags payload_size)
  fits_header flags payload_size flags_small shorter = record {
    method = ground arith;
    type_size = ok.type_bound;
    component_count = ok.component_bound;
    flags = flags_small;
    uncompressed_size = omega (arith, ok.size_bound);
    compressed_size = omega (arith, ok.size_bound);
  }

  -- The output has room for the header and what follows it.
  filled_lem :
      (h : CompressionHeader) (rest : List ℕ)
      → length rest ≤ length input
      → filled (16 + length rest) (write_header h ++ rest) ≡ write_header h ++ rest
  unfolding filled
  filled_lem h rest fits =
      let whole : length (write_header h ++ rest) ≡ 16 + length rest =
        omega (arith, length-append (write_header h) rest, length-write_header h) in
      let total : (16 + length rest) % 2 ^ 32 ≡ length (write_header h ++ rest) =
        mod_small (16 + length rest) (2 ^ 32) (omega (arith, ok.size_bound)) ∙ sym whole in
      rw total (take_all (write_header h ++ rest))

  -- A frame around a payload that is read back.
  frame_lem :
      (flags : ℕ) (payload : List ℕ)
      → flags < 256
      → (length payload < length input → SameBits flags)
      → (length payload < length input
          → Unpacks fse
              (ans_header (length input) p flags (length payload))
              payload
              p.shuffled
              (delta_offset p.flags p.data_offset))
      → Result (frame input p flags payload)
  unfolding frame
  frame_lem flags payload flags_small bits reads out e =
      elim (Bool-cases (leb (length input) (length payload))) [
        | inl long ↦
            let same : write_header (stored_header (length input) p) ++ input ≡ out =
              sym (filled_lem (stored_header (length input) p) input (omega arith))
              ∙ ground (arith, long, e) in
            inl (
              sym (ap length same)
                  ∙ omega (
                    arith,
                    length-append (write_header (stored_header (length input) p)) input,
                    length-write_header (stored_header (length input) p),
                  ),
              ap (decompress fse f64_add) (sym same) ∙ decompress_stored fse f64_add p input ok,
            )
        | inr short ↦
            let h = ans_header (length input) p flags (length payload) in
            let shorter : length payload < length input = ground arith in
            let same : write_header h ++ payload ≡ out =
              sym (filled_lem h payload (omega arith)) ∙ ground (arith, short, e) in
            let u = reads shorter in
            inr (record {
              header = h;
              meta = u.meta;
              smaller = omega (
                arith,
                ap length same,
                length-append (write_header h) payload,
                length-write_header h,
                shorter,
              );
              decoded =
                  ap (decompress fse f64_add) (sym same)
                  ∙ decompress_framed fse f64_add h payload p.shuffled
                      (delta_offset p.flags p.data_offset)
                      (fits_header flags (length payload) flags_small shorter) (ground arith) u;
              type_size = refl;
              component_count = refl;
              uncompressed_size = refl;
              bits = bits shorter;
              offset = u.offset;
            })
      ]

  frame_itself : Result (frame input p 0 input)
  frame_itself =
      frame_lem 0 input (ground arith) (λ h. absurd (omega arith)) (λ h. absurd (omega arith))

  frame_full_lem :
      FseDecodes fse
      → (full : FseCompressResult) → fse_compress_data fse p.shuffled ≡ full
      → Result (frame_full input p full)
  unfolding frame_full
  frame_full_lem law fse_error e out written = absurd (ground arith)
  frame_full_lem law incompressible e out written = frame_itself out written
  frame_full_lem law (packed []) e out written = frame_itself out written
  frame_full_lem law (packed (x ∷ l)) e out written =
      let some_byte : ltb 0 (suc (length l)) ≡ true = ground arith in
      let opened : frame_full input p (packed (x ∷ l))
          ≡ frame input p p.flags (delta_meta p ++ (x ∷ l)) =
        rw some_byte refl in
      frame_lem p.flags (delta_meta p ++ (x ∷ l)) (omega (arith, ok.flags_bound))
        (λ h k small other. refl)
        (λ shorter.
          Unpacks-full fse law
            (ans_header (length input) p p.flags (length (delta_meta p ++ (x ∷ l)))) p.shuffled
            (x ∷ l) p.data_offset ok.no_bands ok.no_offset ok.no_sort ok.offset_bound
            (sym ok.size_lem) refl (omega (arith, ok.size_bound, shorter)) e)
        out (sym opened ∙ written)

  same_bits : SameBits (p.flags + 2)
  same_bits k small other =
      let no : (k == 1) ≡ false = ground arith in bands_bit p.flags k ok.no_bands small ∙ rw no refl

  Unpacks-bands :
      FseDecodes fse
      → (r : BandCompactResult) (compacted : List ℕ) → (r.band_mask == 0) ≡ false
      → 0 < p.type_size * p.component_count
      → r.band_mask < 2 ^ 32
      → BandsRestored p.shuffled (zeroed (length p.shuffled)) p.type_size p.component_count r
      → fse_compress_data fse r.compacted_data ≡ packed compacted
      → length (delta_meta p ++ (band_meta r ++ compacted)) < length input
      → Unpacks fse
          (ans_header
            (length input)
            p
            (p.flags + 2)
            (length (delta_meta p ++ (band_meta r ++ compacted))))
          (delta_meta p ++ (band_meta r ++ compacted))
          p.shuffled
          (delta_offset p.flags p.data_offset)
  Unpacks-bands law r compacted found stride small restored e shorter =
      let h =
        ans_header (length input) p (p.flags + 2)
          (length (delta_meta p ++ (band_meta r ++ compacted))) in
      let delta : test_bit (p.flags + 2) flag_delta_encoded ≡ test_bit p.flags flag_delta_encoded =
        same_bits 0 (omega arith) (ground arith) in
      subst
        (λ b.
          Unpacks fse h ((if b then le 4 p.data_offset else []) ++ (band_meta r ++ compacted))
            p.shuffled (if b then p.data_offset else 0))
        delta
        (Unpacks-compacted fse law h p.shuffled compacted p.data_offset r
          (bands_bit p.flags 1 ok.no_bands (omega arith))
          (same_bits 2 (omega arith) (ground arith) ∙ ok.no_offset)
          (same_bits 3 (omega arith) (ground arith) ∙ ok.no_sort) ok.offset_bound small found stride
          restored (sym ok.size_lem) (rw delta refl) (omega (arith, ok.size_bound, shorter)) e)

  frame_compacted :
      FseDecodes fse
      → (r : BandCompactResult) (compacted : List ℕ) → (r.band_mask == 0) ≡ false
      → 0 < p.type_size * p.component_count
      → r.band_mask < 2 ^ 32
      → BandsRestored p.shuffled (zeroed (length p.shuffled)) p.type_size p.component_count r
      → fse_compress_data fse r.compacted_data ≡ packed compacted
      → Result (
          frame input p
            (set_bit p.flags flag_constant_bands)
            (delta_meta p ++ (band_meta r ++ compacted)))
  frame_compacted law r compacted found stride small restored e =
      let flags_lem = set_bands p.flags ok.no_bands in
      rw flags_lem (
        frame_lem (p.flags + 2) (delta_meta p ++ (band_meta r ++ compacted))
          (omega (arith, ok.flags_bound)) (λ h. same_bits)
          (λ shorter. Unpacks-bands law r compacted found stride small restored e shorter))

  frame_smaller_lem :
      FseDecodes fse
      → (r : BandCompactResult) (full smaller : FseCompressResult) → (r.band_mask == 0) ≡ false
      → 0 < p.type_size * p.component_count
      → r.band_mask < 2 ^ 32
      → BandsRestored p.shuffled (zeroed (length p.shuffled)) p.type_size p.component_count r
      → fse_compress_data fse p.shuffled ≡ full
      → fse_compress_data fse r.compacted_data ≡ smaller
      → Result (frame_smaller input p r full smaller)
  unfolding frame_smaller
  frame_smaller_lem law r full fse_error found stride small restored e e' =
      frame_full_lem law full e
  frame_smaller_lem law r full incompressible found stride small restored e e' =
      frame_full_lem law full e
  frame_smaller_lem law r full (packed compacted) found stride small restored e e' =
      let without_bands = if ltb 0 (packed_size full) then packed_size full else length input in
      elim (Bool-cases (
        ltb 0 (length compacted)
        && ltb (length (delta_meta p) + length (band_meta r) + length compacted)
            (length (delta_meta p) + without_bands))) [
              | inl better ↦
                  rw better (frame_compacted law r compacted found stride small restored e')
              | inr worse ↦ rw worse (frame_full_lem law full e)
            ]

  bands_lem :
      FseDecodes fse
      → (full : FseCompressResult) → fse_compress_data fse p.shuffled ≡ full
      → let r = detect_constant_bands p.shuffled (length input) p.type_size p.component_count in
        Result (
          if r.band_mask == 0
          then frame_full input p full
          else frame_smaller input p r full (fse_compress_data fse r.compacted_data))
  bands_lem law full e =
      let r = detect_constant_bands p.shuffled (length input) p.type_size p.component_count in
      let restored : BandsRestored p.shuffled (zeroed (length p.shuffled)) p.type_size
          p.component_count r =
        subst
          (λ n.
            BandsRestored p.shuffled (zeroed (length p.shuffled)) p.type_size p.component_count
              (detect_constant_bands p.shuffled n p.type_size p.component_count))
          ok.size_lem
          (restore_constant_bands-detect_constant_bands p.shuffled (zeroed (length p.shuffled))
            p.type_size p.component_count (length-zeroed (length p.shuffled))) in
      elim (Bool-cases (r.band_mask == 0)) [
        | inl plain ↦ rw plain (frame_full_lem law full e)
        | inr found ↦
            elim (detect_constant_bands_mask p.shuffled p.type_size p.component_count
              (length input)) [
                | inl plain ↦ absurd (ground arith)
                | inr (stride, small) ↦ rw found (
                    frame_smaller_lem law r full (fse_compress_data fse r.compacted_data) found
                      stride small restored e refl)
              ]
      ]

  pub compress_prepared_lem : FseDecodes fse → Result (compress_prepared fse input p)
  unfolding compress_prepared
  compress_prepared_lem law = elim (result_cases (fse_compress_data fse p.shuffled)) [
    | inl error ↦ λ out e. absurd (ground (arith, error, e))
    | inr (inl none_packed) ↦
        rw (none_packed, compress_prepared) (bands_lem law incompressible none_packed)
    | inr (inr (l, some_packed)) ↦
        rw (some_packed, compress_prepared) (bands_lem law (packed l) some_packed)
  ]
