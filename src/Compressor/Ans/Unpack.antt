-- ===== src/Compressor/Ans/Unpack.antt =====
-- `fse_compress_data` and `fse_decompress_data`: what is packed is unpacked.
use dewfall.Prelude.{
  ℕ, ◌-◌, ◌<◌, ◌≡◌, some, List, [], ◌∷◌, ◌++◌, ◌==◌, length, arith, subst, Bool-cases, Option-cases,
  inl, inr,
}
use dewfall.Compressor.Ans.{Fse, packed, fse_compress_data, fse_encode, fse_decompress_data}

-- What the FSE library promises: the bytes of the counts and those of the body, one after the other,
-- are decoded to the source, where no function gave an error and the body is not empty.
abbrev pub FseDecodes : Fse → Type 0
FseDecodes fse =
    (src counts normalized header ct body : List ℕ) (max_symbol norm_result : ℕ)
    → fse.hist_count_wksp src ≡ some (counts, max_symbol)
    → fse.normalize_count (fse.optimal_table_log (length src) max_symbol) counts (length src)
        max_symbol
      ≡ some (normalized, norm_result)
    → fse.write_ncount (fse.compress_bound (length src)) normalized max_symbol
        (fse.optimal_table_log (length src) max_symbol)
      ≡ some header
    → fse.build_ctable normalized max_symbol (fse.optimal_table_log (length src) max_symbol)
      ≡ some ct
    → fse.compress_using_ctable (fse.compress_bound (length src) - length header) src ct ≡ some body
    → 0 < length body
    → fse.decompress_wksp (length src) (header ++ body) ≡ some src

module _ (fse : Fse) (law : FseDecodes fse) where
  encode_decodes :
      (src counts normalized d : List ℕ) (max_symbol norm_result : ℕ)
      → fse.hist_count_wksp src ≡ some (counts, max_symbol)
      → fse.normalize_count
          (fse.optimal_table_log (length src) max_symbol)
          counts
          (length src)
          max_symbol
        ≡ some (normalized, norm_result)
      → fse_encode fse src normalized max_symbol (fse.optimal_table_log (length src) max_symbol)
        ≡ packed d
      → fse.decompress_wksp (length src) d ≡ some src
  unfolding fse_encode
  encode_decodes src counts normalized d m r hist norm e =
      let t = fse.optimal_table_log (length src) m in
      let bound = fse.compress_bound (length src) in
      elim (Option-cases (fse.write_ncount bound normalized m t)) [
        | inl a ↦ absurd (ground arith)
        | inr (header, a) ↦ elim (Option-cases (fse.build_ctable normalized m t)) [
          | inl b ↦ absurd (ground arith)
          | inr (ct, b) ↦
              elim (Option-cases (fse.compress_using_ctable (bound - length header) src ct)) [
                | inl c ↦ absurd (ground arith)
                | inr ([], c) ↦ absurd (ground arith)
                | inr (x ∷ l, c) ↦
                    let same : header ++ (x ∷ l) ≡ d = ground arith in
                    subst (λ y. fse.decompress_wksp (length src) y ≡ some src) same
                      (law src counts normalized header ct (x ∷ l) m r hist norm a b c
                        (omega arith))
              ]
        ]
      ]

  pub fse_decompress_data-fse_compress_data :
      (src d : List ℕ)
      → fse_compress_data fse src ≡ packed d
      → fse_decompress_data fse d (length src) ≡ some src
  unfolding fse_compress_data fse_decompress_data
  fse_decompress_data-fse_compress_data [] d e = absurd (ground arith)
  fse_decompress_data-fse_compress_data (x ∷ l) d e =
      let src = x ∷ l in
      elim (Option-cases (fse.hist_count_wksp src)) [
        | inl a ↦ absurd (ground arith)
        | inr ((counts, m), a) ↦
            let t = fse.optimal_table_log (length src) m in
            elim (Option-cases (fse.normalize_count t counts (length src) m)) [
              | inl b ↦ absurd (ground arith)
              | inr ((normalized, r), b) ↦ elim (Bool-cases (r == 0)) [
                | inl zero_result ↦ absurd (ground arith)
                | inr some_result ↦
                    let e' : fse_encode fse src normalized m t ≡ packed d = ground arith in
                    encode_decodes src counts normalized d m r a b e'
              ]
            ]
      ]
