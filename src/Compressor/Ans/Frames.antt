-- ===== src/Compressor/Ans/Frames.antt =====
-- What `decompress` reads out of a frame that `fse_compress_standard` wrote.
use dewfall.Prelude.{
  ℕ, zero, suc, ◌+◌, ◌-◌, ◌*◌, ◌/◌, ◌%◌, ◌^◌, ◌<◌, ◌≡◌, refl, true, false, some, List, [], ◌∷◌,
  ◌++◌, ltb, ◌==◌, if◌then◌else◌, length, take, take-append, drop-append, length-append, arith, ap,
  sym, subst, ◌∙◌, Bool-cases, inl, inr,
}
use dewfall.Preprocess.Bands.{
  BandCompactResult, zeroed, assigned, test_bit, set_bit, popcount32, restore_constant_bands,
}
use dewfall.Preprocess.Bands.RoundTrip.{BandsRestored, assigned_lem}
use dewfall.Bytes.{le}
use dewfall.Compressor.{CompressionHeader}
use dewfall.Compressor.Header.{load-le}
use dewfall.Compressor.Ans.{
  Fse, packed, fse_compress_data, fse_decompress_data, flag_delta_encoded, flag_constant_bands,
  flag_offset_subtracted, flag_sort_permutation,
}
use dewfall.Compressor.Ans.Standard.{band_meta}
use dewfall.Compressor.Ans.Decompress.{Metadata, read_bands, read_metadata, unpack}
use dewfall.Compressor.Ans.Unpack.{FseDecodes, fse_decompress_data-fse_compress_data}

-- The bits of the flags, where that of the constant bands is added to them.
pub set_bands :
    (flags : ℕ)
    → test_bit flags flag_constant_bands ≡ false
    → (set_bit flags flag_constant_bands ≡ flags + 2)
set_bands flags h = rw h refl

pub bands_bit :
    (flags k : ℕ)
    → test_bit flags flag_constant_bands ≡ false
    → k < 7
    → test_bit (flags + 2) k ≡ (if k == 1 then true else test_bit flags k)
bands_bit flags zero h l = ground arith
bands_bit flags (suc zero) h l = ground arith
bands_bit flags (suc (suc zero)) h l = ground arith
bands_bit flags (suc (suc (suc zero))) h l = ground arith
bands_bit flags (suc (suc (suc (suc zero)))) h l = ground arith
bands_bit flags (suc (suc (suc (suc (suc zero))))) h l = ground arith
bands_bit flags (suc (suc (suc (suc (suc (suc zero)))))) h l = ground arith
bands_bit flags (suc (suc (suc (suc (suc (suc (suc k))))))) h l = absurd (omega arith)

-- What a reader of the metadata and the packed bytes `src` behind a header gets.
pub record Unpacks (fse : Fse) (h : CompressionHeader) (src shuffled : List ℕ) (data_offset : ℕ)
    : Type 0 where
  pub meta : Metadata
  pub read : read_metadata fse h src ≡ some meta
  pub values : unpack fse h meta ≡ some shuffled
  pub offset : meta.data_offset ≡ data_offset

abbrev pub delta_front : ℕ → ℕ → List ℕ
delta_front flags d = if test_bit flags flag_delta_encoded then le 4 d else []

abbrev pub delta_offset : ℕ → ℕ → ℕ
delta_offset flags d = if test_bit flags flag_delta_encoded then d else 0

-- the metadata without and with constant bands
abbrev plain_meta : ℕ → ℕ → List ℕ → Metadata
plain_meta flags d full = record {
  min_value = 0;
  permutation = [];
  data_offset = delta_offset flags d;
  band_mask = 0;
  constant_values = [];
  meta_size = length (delta_front flags d);
  rest = full;
}

abbrev bands_meta : ℕ → ℕ → ℕ → List ℕ → List ℕ → Metadata
bands_meta flags d mask values compacted = record {
  min_value = 0;
  permutation = [];
  data_offset = delta_offset flags d;
  band_mask = mask;
  constant_values = values;
  meta_size = length (delta_front flags d) + (4 + length values);
  rest = compacted;
}

read_metadata_lem :
    (fse : Fse) (h : CompressionHeader) (src : List ℕ)
    → test_bit h.flags flag_offset_subtracted ≡ false
    → test_bit h.flags flag_sort_permutation ≡ false
    → read_metadata fse h src ≡ some (read_bands fse h.flags 0 [] 0 src)
unfolding read_metadata
read_metadata_lem fse h src no_offset no_sort = rw no_offset (rw no_sort refl)

read_bands_full :
    (fse : Fse) (flags d : ℕ) (full : List ℕ)
    → test_bit flags flag_constant_bands ≡ false
    → d < 2 ^ 32
    → read_bands fse flags 0 [] 0 (delta_front flags d ++ full) ≡ plain_meta flags d full
unfolding read_bands
read_bands_full fse flags d full no_bands small =
    elim (Bool-cases (test_bit flags flag_delta_encoded)) [
      | inl e ↦ rw no_bands (rw e (rw (load-le d full small) refl))
      | inr e ↦ rw no_bands (rw e refl)
    ]

read_bands_compacted :
    (fse : Fse) (flags d mask : ℕ) (values compacted : List ℕ)
    → test_bit flags flag_constant_bands ≡ true
    → d < 2 ^ 32
    → mask < 2 ^ 32
    → length values ≡ popcount32 mask
    → read_bands fse flags 0 [] 0 (delta_front flags d ++ (le 4 mask ++ (values ++ compacted)))
      ≡ bands_meta flags d mask values compacted
unfolding read_bands
read_bands_compacted fse flags d mask values compacted bands small_d small_mask len =
    elim (Bool-cases (test_bit flags flag_delta_encoded)) [
      | inl e ↦ rw bands (
          rw e (
            rw (load-le d (le 4 mask ++ (values ++ compacted)) small_d) (
              rw (load-le mask (values ++ compacted) small_mask) (
                rw (sym len)
                  (rw (take-append values compacted) (rw (drop-append values compacted) refl))))))
      | inr e ↦ rw bands (
          rw e (
            rw (load-le mask (values ++ compacted) small_mask) (
              rw (sym len)
                (rw (take-append values compacted) (rw (drop-append values compacted) refl)))))
    ]

pub take_all : (l : List ℕ) → take (length l) l ≡ l
take_all [] = refl
take_all (x ∷ l) = ap (λ y. x ∷ y) (take_all l)

payload_lem : (a b c : ℕ) → c ≡ a + b → c < 2 ^ 32 → (c + 2 ^ 32 - a) % 2 ^ 32 ≡ b
payload_lem a b c e small = omega arith

-- the restored buffer, and the two sizes, where bands were found
restored_parts :
    (src dst : List ℕ) (ts count : ℕ) (r : BandCompactResult)
    → (r.band_mask == 0) ≡ false
    → BandsRestored src dst ts count r
    → (restore_constant_bands r.compacted_data dst
          (length src)
          r.band_mask
          r.constant_values
          ts
          count
        ≡ src)
      × (length r.constant_values ≡ popcount32 r.band_mask)
      × (length r.compacted_data
          ≡ (ts * count - popcount32 r.band_mask) * (length src / (ts * count))
            + length src % (ts * count))
restored_parts src dst ts count r bands restored =
    subst
      (λ b.
        if b
        then r.compacted_data ≡ src
        else ((restore_constant_bands r.compacted_data dst (length src) r.band_mask
                r.constant_values ts count
              ≡ src)
            × (length r.constant_values ≡ popcount32 r.band_mask)
            × (length r.compacted_data
                ≡ (ts * count - popcount32 r.band_mask) * (length src / (ts * count))
                  + length src % (ts * count))))
      bands restored

length_parts :
    (flags d : ℕ) (r : BandCompactResult) (compacted : List ℕ)
    → length (delta_front flags d ++ (band_meta r ++ compacted))
      ≡ length (delta_front flags d) + (4 + length r.constant_values) + length compacted
length_parts flags d r compacted = omega (
  arith,
  length-append (delta_front flags d) (band_meta r ++ compacted),
  length-append r.constant_values compacted,
)

-- What the packed bytes unpack to, without and with the constant bands.
unpack_plain :
    (fse : Fse) (h : CompressionHeader) (meta : Metadata) (l : List ℕ)
    → (meta.band_mask == 0) ≡ true
    → fse_decompress_data fse
        (take ((h.compressed_size + 2 ^ 32 - meta.meta_size) % 2 ^ 32) meta.rest)
        h.uncompressed_size
      ≡ some l
    → unpack fse h meta ≡ some (assigned l h.uncompressed_size)
unfolding unpack
unpack_plain fse h meta l no_bands e =
    rw (no_bands, unpack) (rw (e, unpack) (rw (no_bands, unpack) refl))

unpack_bands :
    (fse : Fse) (h : CompressionHeader) (meta : Metadata) (l : List ℕ)
    → (meta.band_mask == 0) ≡ false
    → 0 < h.type_size * h.component_count
    → fse_decompress_data fse
        (take ((h.compressed_size + 2 ^ 32 - meta.meta_size) % 2 ^ 32) meta.rest)
        ((h.type_size * h.component_count - popcount32 meta.band_mask)
            * (h.uncompressed_size / (h.type_size * h.component_count))
          + h.uncompressed_size % (h.type_size * h.component_count))
      ≡ some l
    → unpack fse h meta
      ≡ some (
          restore_constant_bands l
            (zeroed h.uncompressed_size)
            h.uncompressed_size
            meta.band_mask
            meta.constant_values
            h.type_size
            h.component_count)
unfolding unpack
unpack_bands fse h meta l bands stride e =
    let some_stride : ltb 0 (h.type_size * h.component_count) ≡ true = ground arith in
    rw (bands, unpack) (rw (some_stride, unpack) (rw (e, unpack) (rw (bands, unpack) refl)))

module _ (fse : Fse) (law : FseDecodes fse) where
  pub Unpacks-full :
      (h : CompressionHeader) (shuffled full : List ℕ) (d : ℕ)
      → test_bit h.flags flag_constant_bands ≡ false
      → test_bit h.flags flag_offset_subtracted ≡ false
      → test_bit h.flags flag_sort_permutation ≡ false
      → d < 2 ^ 32
      → h.uncompressed_size ≡ length shuffled
      → h.compressed_size ≡ length (delta_front h.flags d ++ full)
      → h.compressed_size < 2 ^ 32
      → fse_compress_data fse shuffled ≡ packed full
      → Unpacks fse h (delta_front h.flags d ++ full) shuffled (delta_offset h.flags d)
  unfolding unpack
  Unpacks-full h shuffled full d no_bands no_offset no_sort small_d size csize small e =
      let payload =
        payload_lem (length (delta_front h.flags d)) (length full) h.compressed_size
          (csize ∙ length-append (delta_front h.flags d) full) small in
      record {
        meta = plain_meta h.flags d full;
        read =
            read_metadata_lem fse h (delta_front h.flags d ++ full) no_offset no_sort
            ∙ ap some (read_bands_full fse h.flags d full no_bands small_d);
        values =
            let unpacked : fse_decompress_data fse
                  (take ((h.compressed_size + 2 ^ 32 - length (delta_front h.flags d)) % 2 ^ 32)
                    full)
                  h.uncompressed_size
                ≡ some shuffled =
              rw payload (
                rw (take_all full)
                  (rw size (fse_decompress_data-fse_compress_data fse law shuffled full e))) in
            unpack_plain fse h (plain_meta h.flags d full) shuffled refl unpacked
            ∙ ap some (ap (assigned shuffled) size ∙ assigned_lem shuffled);
        offset = refl;
      }

  pub Unpacks-compacted :
      (h : CompressionHeader) (shuffled compacted : List ℕ) (d : ℕ) (r : BandCompactResult)
      → test_bit h.flags flag_constant_bands ≡ true
      → test_bit h.flags flag_offset_subtracted ≡ false
      → test_bit h.flags flag_sort_permutation ≡ false
      → d < 2 ^ 32
      → r.band_mask < 2 ^ 32
      → (r.band_mask == 0) ≡ false
      → 0 < h.type_size * h.component_count
      → BandsRestored shuffled (zeroed (length shuffled)) h.type_size h.component_count r
      → h.uncompressed_size ≡ length shuffled
      → h.compressed_size ≡ length (delta_front h.flags d ++ (band_meta r ++ compacted))
      → h.compressed_size < 2 ^ 32
      → fse_compress_data fse r.compacted_data ≡ packed compacted
      → Unpacks fse h
          (delta_front h.flags d ++ (band_meta r ++ compacted))
          shuffled
          (delta_offset h.flags d)
  unfolding unpack
  Unpacks-compacted h shuffled compacted d r bands no_offset no_sort small_d small_mask some_mask
        some_stride restored size csize small e =
      let found =
        restored_parts shuffled (zeroed (length shuffled)) h.type_size h.component_count r some_mask
          restored in
      let payload =
        payload_lem (length (delta_front h.flags d) + (4 + length r.constant_values))
          (length compacted) h.compressed_size (csize ∙ length_parts h.flags d r compacted) small in
      record {
        meta = bands_meta h.flags d r.band_mask r.constant_values compacted;
        read =
            read_metadata_lem fse h (delta_front h.flags d ++ (band_meta r ++ compacted)) no_offset
              no_sort
            ∙ ap some (
                read_bands_compacted fse h.flags d r.band_mask r.constant_values compacted bands
                  small_d small_mask found.1);
        values =
            let unpacked : fse_decompress_data fse
                  (take
                    ((h.compressed_size
                        + 2 ^ 32
                        - (length (delta_front h.flags d) + (4 + length r.constant_values)))
                      % 2 ^ 32)
                    compacted)
                  ((h.type_size * h.component_count - popcount32 r.band_mask)
                      * (h.uncompressed_size / (h.type_size * h.component_count))
                    + h.uncompressed_size % (h.type_size * h.component_count))
                ≡ some r.compacted_data =
              rw payload (
                rw (take_all compacted) (
                  rw size (
                    rw (sym found.2) (
                      fse_decompress_data-fse_compress_data fse law r.compacted_data compacted
                        e)))) in
            unpack_bands fse h (bands_meta h.flags d r.band_mask r.constant_values compacted)
              r.compacted_data some_mask some_stride unpacked
            ∙ ap some (rw size (found.0));
        offset = refl;
      }
