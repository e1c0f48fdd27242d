-- ===== src/Compressor/Constant.antt =====
-- A constant buffer, compressed and decompressed.
pub mod Loops
use dewfall.Prelude.{
  ℕ, zero, suc, ◌+◌, ◌-◌, ◌*◌, ◌/◌, ◌%◌, ◌^◌, ◌≤◌, ◌<◌, ◌≡◌, ◌≢◌, ◌⊎◌, some, refl, true, false, not,
  ◌&&◌, ◌||◌, List, [], ◌∷◌, ◌++◌, ltb, leb, ◌==◌, if◌then◌else◌, arith, ap, sym, subst, ◌∙◌,
  Bool-cases, inl, inr, length, byte_at, take, copy, byte_at-copy, length-copy, buffer_ext,
  length-append, length-take,
}
use mathlib.Core.Option
use dewfall.Shuffle.RoundTrip.{mod_small}
use dewfall.Preprocess.Bands.{zeroed}
use dewfall.Preprocess.Bands.RoundTrip.{length-zeroed}
use dewfall.Compressor.{
  DewType, PointFormat, size_for_format, CompressionHeader, CompressionResult, produced,
  write_header, header_size, same_bytes, all_same, try_compress_constant, decompress_constant,
  decompress_any, method_constant, copy_elements, empty,
}
use dewfall.Compressor.Header.{
  FitsHeader, length-write_header, drop-write_header, read_header-write_header,
  has_compression_magic-write_header,
}
use dewfall.Compressor.Constant.Loops.{
  Differs, SameFrom, all_same_lem, byte_at-zeroed, byte_at-take, byte_at-append, copied_lem,
}

-- the element of `try_compress_constant`, and what comes back of a buffer: the whole elements, and
-- zeros for the rest
abbrev pub element_size_of : PointFormat → ℕ
element_size_of format = size_for_format format.type * format.components

abbrev pub whole_elements : List ℕ → ℕ → List ℕ
whole_elements buf es = take (length buf / es * es) buf ++ zeroed (length buf % es)

-- the header that `try_compress_constant` writes
abbrev constant_header : PointFormat → ℕ → CompressionHeader
constant_header format size = record {
  method = method_constant;
  type_size = size_for_format format.type;
  component_count = format.components;
  flags = 0;
  uncompressed_size = size;
  compressed_size = element_size_of format;
}

fuel_enough : (size es k : ℕ) → 0 < es → size / es < k + (size + 1)
fuel_enough size es k h = grind arith

some_element : (size es : ℕ) → 0 < es → es ≤ size → 1 ≤ size / es
some_element size es h fits = grind arith

module _ (buf : List ℕ) (es : ℕ) (some_byte : 0 < es) (fits : es ≤ length buf)
    (room : length buf + es < 2 ^ 32) (same : SameFrom buf es some_byte room 1) where
  first_lem :
      (k : ℕ)
      → k < length buf / es
      → (j : ℕ) → j < es
      → byte_at (take es buf) j ≡ byte_at buf (k * es + j)
  first_lem zero h j l = byte_at-take es buf j l ∙ ap (byte_at buf) (sym (omega arith))
  first_lem (suc k) h j l = byte_at-take es buf j l ∙ same (suc k) (omega arith) h j l

  restored_lem :
      copy_elements (take es buf) (length buf) es 0 (zeroed (length buf)) (length buf + 1)
      ≡ some (whole_elements buf es)
  restored_lem =
      let n = length buf / es * es in
      let (s, ends, (len, bytes)) =
        copied_lem buf (take es buf) es (length buf) first_lem some_byte room (length buf + 1) 0 0
          (zeroed (length buf)) (omega arith) (omega arith) (omega arith)
          (fuel_enough (length buf) es 0 some_byte)
          (length-zeroed (length buf), λ q. byte_at-zeroed (length buf) q ∙ ground arith) in
      let below : n ≤ length buf = grind arith in
      let parts : n + length buf % es ≡ length buf = grind arith in
      let front_size = length-take n buf below in
      ends
      ∙ ap some (
          buffer_ext s (whole_elements buf es)
            (len
              ∙ omega (
                arith,
                length-append (take n buf) (zeroed (length buf % es)),
                front_size,
                length-zeroed (length buf % es),
                parts,
              ))
            (λ q h.
              bytes q
              ∙ sym (
                  byte_at-append (take n buf) (zeroed (length buf % es)) q
                  ∙ rw front_size (elim (Bool-cases (ltb q n)) [
                    | inl low ↦ rw low (byte_at-take n buf q (ground arith))
                    | inr high ↦ rw high (byte_at-zeroed (length buf % es) (q - n))
                  ]))))

type_small : (t : DewType) → size_for_format t < 256
unfolding size_for_format
type_small t = grind arith

-- `decompress_any` of a constant frame
any_constant :
    (zstd huff0 ans : List ℕ → CompressionResult) (h : CompressionHeader) (rest : List ℕ)
    → FitsHeader h
    → h.method ≡ method_constant
    → decompress_any zstd huff0 ans (write_header h ++ rest) ≡ decompress_constant rest h
unfolding decompress_any
any_constant zstd huff0 ans h rest fits method =
    let long : ltb (length (write_header h ++ rest)) header_size ≡ false =
      ground (arith, length-append (write_header h) rest, length-write_header h) in
    rw long (
      rw (has_compression_magic-write_header h rest) (
        rw (read_header-write_header h rest fits) (rw (drop-write_header h rest) (rw method refl))))

module _ (zstd huff0 ans : List ℕ → CompressionResult) (buf : List ℕ) (format : PointFormat)
    (components_small : format.components < 256)
    (room : length buf + element_size_of format < 2 ^ 32) where
  abbrev es : ℕ
  es = element_size_of format

  abbrev packed : List ℕ
  packed = write_header (constant_header format (length buf)) ++ take es buf

  unpacked_lem :
      (some_byte : 0 < es)
      → es ≤ length buf
      → SameFrom buf es some_byte room 1
      → decompress_any zstd huff0 ans packed ≡ some (produced (whole_elements buf es))
  unfolding decompress_constant
  unpacked_lem some_byte fits same =
      let h = constant_header format (length buf) in
      let fits_header : FitsHeader h = record {
        method = omega arith;
        type_size = type_small format.type;
        component_count = components_small;
        flags = omega arith;
        uncompressed_size = omega (arith, room);
        compressed_size = omega (arith, room);
      } in
      let sane : (es == 0 || not (es == es)) ≡ false = ground arith in
      any_constant zstd huff0 ans h (take es buf) fits_header refl
      ∙ rw sane (ap (Option.map produced) (restored_lem buf es some_byte fits room same))

-- `try_compress_constant` ends. Either it gives nothing, and the element has no byte, the buffer is
-- shorter than one element, or some whole element differs from the first; or it gives a header and
-- one element, which `decompress_any`, whose loop ends too, unpacks to the whole elements of the
-- buffer, with zeros for the bytes behind the last of them. The element has fewer than 256
-- components, and the sizes of the buffer and of one element together are below 4 GiB.
pub decompress_any-try_compress_constant :
    (zstd huff0 ans : List ℕ → CompressionResult) (buf : List ℕ) (format : PointFormat)
    → format.components < 256
    → length buf + size_for_format format.type * format.components < 2 ^ 32
    → ((try_compress_constant buf format ≡ some empty)
        × ((size_for_format format.type * format.components ≡ 0)
            ⊎ ((length buf < size_for_format format.type * format.components)
                ⊎ Differs buf (size_for_format format.type * format.components))))
      ⊎ ((out : List ℕ) × (try_compress_constant buf format ≡ some (produced out))
          × (length out ≡ 16 + size_for_format format.type * format.components)
          × (decompress_any zstd huff0 ans out
              ≡ some (
                  produced (
                    take
                      (length buf
                        / (size_for_format format.type * format.components)
                        * (size_for_format format.type * format.components))
                      buf
                    ++ zeroed (length buf % (size_for_format format.type * format.components))))))
unfolding try_compress_constant
decompress_any-try_compress_constant zstd huff0 ans buf format components_small room =
    let es = element_size_of format in
    elim (Bool-cases (es == 0)) [
      | inl none_there ↦ inl (rw none_there refl, inl (ground arith))
      | inr there ↦ elim (Bool-cases (ltb (length buf) es)) [
        | inl short ↦ inl (rw there (rw short refl), inr (inl (ground arith)))
        | inr long ↦
            let some_byte : 0 < es = ground arith in
            let fits : es ≤ length buf = ground arith in
            elim (all_same_lem buf es some_byte room (length buf + 1) 1 es (omega arith)
              (omega arith) (some_element (length buf) es some_byte fits)
              (fuel_enough (length buf) es 1 some_byte)) [
                | inl (ends, same) ↦ inr (
                  write_header (constant_header format (length buf)) ++ take es buf,
                  rw there (rw long (rw ends refl)),
                  omega (
                    arith,
                    length-append (write_header (constant_header format (length buf)))
                        (take es buf),
                    length-write_header (constant_header format (length buf)),
                    length-take es buf fits,
                  ),
                  unpacked_lem zstd huff0 ans buf format components_small room some_byte fits same,
                )
                | inr (ends, differ) ↦ inl (rw there (rw long (rw ends refl)), inr (inr differ))
              ]
      ]
    ]
