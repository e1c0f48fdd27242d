-- ===== src/Preprocess/Sizes.antt =====
-- What src/core/compression_preprocess.cpp writes over a buffer of bytes is a buffer of bytes of the
-- same length.
use dewfall.Prelude.{
  ℕ, ◌-◌, ◌*◌, ◌/◌, ◌≡◌, inl, inr, List, leb, arith, length, ◌∙◌, sym, subst, for_below,
  for_down_inv, for_below_ind, Bool-cases,
}
use dewfall.Bytes.{AllBytes, store, length-store, store-AllBytes}
use dewfall.Preprocess.Differences.{sub_at, length-sub_at, sub_at-AllBytes}
use dewfall.Preprocess.WordLaws.{get_morton_ops-IsWide}
use dewfall.Preprocess.MortonDelta.{encode_round, delta_encode_morton}
use dewfall.Preprocess.MortonDelta.RoundTrip.{encoded_parts, encode_round-sub_at}
use dewfall.Preprocess.MortonDelta.Accepts.{delta_encode_morton_refused}
use dewfall.Preprocess.Single.{has_case, encode_element, delta_encode_single}
use dewfall.Preprocess.Channels.{
  decorrelate_element, decorrelate_u16x3, encode_channels, delta_encode_u16x3,
}

-- `n` bytes
abbrev pub IsSized : ℕ → List ℕ → Type 0
IsSized n buf = AllBytes buf × (length buf ≡ n)

module _ (n : ℕ) where
  store-IsSized : (w : ℕ) (buf : List ℕ) (off v : ℕ) → IsSized n buf → IsSized n (store w buf off v)
  store-IsSized w buf off v (ok, e) = (store-AllBytes w buf off v ok, length-store w buf off v ∙ e)

  sub_at-IsSized : (w : ℕ) (buf : List ℕ) (a b : ℕ) → IsSized n buf → IsSized n (sub_at w buf a b)
  sub_at-IsSized w buf a b (ok, e) = (sub_at-AllBytes w buf a b ok, length-sub_at w buf a b ∙ e)

  pub delta_encode_morton-IsSized :
      (buf : List ℕ) (size w : ℕ) → IsSized n buf → IsSized n (delta_encode_morton buf size w).1
  delta_encode_morton-IsSized buf size w ok = elim (Bool-cases (delta_encode_morton buf size w).0) [
    | inl done ↦
        let (ops, found, long, sane, e) =
          encoded_parts buf size w {out = (delta_encode_morton buf size w).1} (ground arith) in
        subst (IsSized n) (sym e) (
          for_down_inv (IsSized n) (encode_round ops w) (size / w - 1)
            (λ i s h p.
              subst (IsSized n)
                (sym
                  (encode_round-sub_at ops w size (get_morton_ops-IsWide w ops found) long i s p.0))
                (sub_at-IsSized w s _ _ p))
            (size / w - 1) buf (omega arith) ok)
    | inr refused ↦ subst (IsSized n) (sym (delta_encode_morton_refused buf size w refused)) ok
  ]

  pub delta_encode_single-IsSized :
      (buf : List ℕ) (size w : ℕ) → IsSized n buf → IsSized n (delta_encode_single buf size w)
  unfolding delta_encode_single
  delta_encode_single-IsSized buf size w ok =
      let coded =
        for_down_inv (IsSized n) (encode_element w) (size / w - 1)
          (λ i s h p. sub_at-IsSized w s (i * w) ((i - 1) * w) p) (size / w - 1) buf (omega arith)
          ok in
      elim (Bool-cases (leb (size / w) 1)) [
        | inl few ↦ rw few ok
        | inr many ↦ elim (Bool-cases (has_case w)) [
          | inl known ↦ rw many (rw known coded)
          | inr unknown ↦ rw many (rw unknown ok)
        ]
      ]

  pub decorrelate_u16x3-IsSized :
      (buf : List ℕ) (size : ℕ) → IsSized n buf → IsSized n (decorrelate_u16x3 buf size)
  unfolding decorrelate_u16x3 decorrelate_element
  decorrelate_u16x3-IsSized buf size ok =
      for_below_ind (λ i s. IsSized n s) (λ i s. decorrelate_element s (i * 6)) (size / 6)
        (λ i s h p. store-IsSized 2 _ _ _ (store-IsSized 2 _ _ _ (store-IsSized 2 s _ _ p)))
        (size / 6) buf (omega arith) ok

  pub delta_encode_u16x3-IsSized :
      (buf : List ℕ) (size : ℕ) → IsSized n buf → IsSized n (delta_encode_u16x3 buf size)
  unfolding delta_encode_u16x3 sub_at for_below
  delta_encode_u16x3-IsSized buf size ok =
      let coded =
        for_down_inv (IsSized n) encode_channels (size / 6 - 1)
          (λ i s h p. sub_at-IsSized 2 _ _ _ (sub_at-IsSized 2 _ _ _ (sub_at-IsSized 2 s _ _ p)))
          (size / 6 - 1) buf (omega arith) ok in
      elim (Bool-cases (leb (size / 6) 1)) [ inl few ↦ rw few ok | inr many ↦ rw many coded ]
