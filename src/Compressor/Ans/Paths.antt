-- ===== src/Compressor/Ans/Paths.antt =====
-- The candidates of `compress`, and the choice of the smallest.
use dewfall.Prelude.{
  ℕ, ◌+◌, ◌≤◌, ◌<◌, ◌≡◌, refl, List, [], ltb, arith, ap, subst, ◌∙◌, Bool-cases, inl, inr, length,
}
use dewfall.Compressor.{PointFormat, CompressionResult, failed, empty, produced}
use dewfall.Compressor.Ans.{Fse}
use dewfall.Compressor.Ans.Standard.{prepare, fse_compress_standard, result_size, pick_smaller}
use dewfall.Compressor.Ans.Decompress.{decompress, undo_morton_delta}
use dewfall.Compressor.Ans.Unpack.{FseDecodes}
use dewfall.Compressor.Ans.Decodes.{Framed, Decodes, compress_prepared_lem}
use dewfall.Compressor.Ans.Undone.{IsCall, IsCallerFlags, coded, prepared_ok}
use dewfall.Compressor.Ans.RoundTrip.{undone, decoded_lem, undo_morton_delta_lem}

pub plain_flags : IsCallerFlags 0
plain_flags = record {
  bound = omega arith;
  no_delta = refl;
  no_bands = refl;
  no_offset = refl;
  no_sort = refl;
}

module _ (fse : Fse) (f64_add : ℕ → ℕ → ℕ) (law : FseDecodes fse) where
  standard_lem :
      (input : List ℕ) (format : PointFormat) (point_count flags_in : ℕ) (working : List ℕ)
      → IsCall input format point_count flags_in working
      → (out : List ℕ)
      → fse_compress_standard fse input format point_count flags_in working ≡ produced out
      → Decodes fse f64_add input (prepare input format point_count flags_in working) out
  unfolding fse_compress_standard
  standard_lem input format point_count flags_in working call =
      compress_prepared_lem fse f64_add input (prepare input format point_count flags_in working)
        (prepared_ok input format point_count flags_in working call) law

  module _ (input : List ℕ) where
    -- A blob that is decoded to `input`, no longer than the input with its header.
    abbrev pub IsGood : CompressionResult → Type 0
    IsGood r =
        (out : List ℕ)
        → r ≡ produced out
        → (length out ≤ 16 + length input) × (decompress fse f64_add out ≡ produced input)

    -- A candidate that is decoded to `input` where it is shorter than the input with its header.
    abbrev pub IsCandidate : CompressionResult → Type 0
    IsCandidate r =
        (out : List ℕ)
        → r ≡ produced out
        → length out < 16 + length input
        → decompress fse f64_add out ≡ produced input

    size-IsGood : (r : CompressionResult) → IsGood r → result_size r ≤ 16 + length input
    size-IsGood failed good = omega arith
    size-IsGood empty good = omega arith
    size-IsGood (produced l) good = (good l refl).0

    pub pick_smaller-IsGood :
        (r other : CompressionResult) → IsGood r → IsCandidate other → IsGood (pick_smaller r other)
    unfolding pick_smaller
    pick_smaller-IsGood r failed good candidate out e = good out e
    pick_smaller-IsGood r empty good candidate out e = good out e
    pick_smaller-IsGood r (produced l) good candidate out e =
        elim (Bool-cases (ltb (length l) (result_size r))) [
          | inl shorter ↦
              let same : produced l ≡ produced out = ground (arith, shorter, e) in
              let below : length l < 16 + length input = ground (arith, size-IsGood r good) in
              let same' : l ≡ out = ground (arith, same) in
              (
                subst (λ o. length o ≤ 16 + length input) same' (omega (arith, below)),
                subst (λ o. decompress fse f64_add o ≡ produced input) same'
                    (candidate l refl below),
              )
          | inr longer ↦ good out (ground (arith, longer, e))
        ]

  -- Without any other preprocessing the input comes back.
  pub plain-IsGood :
      (input : List ℕ) (format : PointFormat) (point_count : ℕ)
      → IsCall input format point_count 0 []
      → IsGood input (fse_compress_standard fse input format point_count 0 [])
  plain-IsGood input format point_count call out e =
      elim (standard_lem input format point_count 0 [] call out e) [
        | inl (size, decoded) ↦ (omega (arith, size), decoded)
        | inr fr ↦ (
          omega (arith, fr.smaller),
          decoded_lem input format point_count 0 [] call fse f64_add out fr
              ∙ ap produced
                  (undo_morton_delta_lem input format point_count 0 [] call fse f64_add out fr),
        )
      ]

  -- A working copy is a candidate for the buffer that undoing its flags and its delta reaches.
  pub candidate_lem :
      (input working : List ℕ) (format : PointFormat) (point_count flags_in : ℕ)
      → length working ≡ length input
      → (call : IsCall working format point_count flags_in working)
      → ((out : List ℕ)
          → (fr : Framed fse f64_add
              (length working)
              (prepare working format point_count flags_in working)
              out)
          → undo_morton_delta fr.header fr.meta (
              undone working format point_count flags_in working call fse f64_add out fr
                (coded working format point_count flags_in working call).1)
            ≡ input)
      → IsCandidate input (fse_compress_standard fse working format point_count flags_in working)
  candidate_lem input working format point_count flags_in size call reach out e shorter =
      elim (standard_lem working format point_count flags_in working call out e) [
        | inl (long, decoded) ↦ absurd (omega (arith, long, size, shorter))
        | inr fr ↦
            decoded_lem working format point_count flags_in working call fse f64_add out fr
            ∙ ap produced (reach out fr)
      ]
