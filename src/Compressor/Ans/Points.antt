-- ===== src/Compressor/Ans/Points.antt =====
-- The morton delta behind a prefix of the buffer, and its undoing.
use dewfall.Prelude.{
  ℕ, zero, suc, ◌-◌, ◌≤◌, ◌<◌, ◌≡◌, refl, Bool, true, false, List, [], ◌∷◌, ◌++◌, ltb, arith, ap,
  subst, ◌∙◌, Bool-cases, inl, inr, length, length-append, take, drop, take-append, drop-append,
  take-drop, some, length-take, length-drop,
}
use dewfall.Bytes.{AllBytes}
use dewfall.Preprocess.Sizes.{IsSized, delta_encode_morton-IsSized}
use dewfall.Preprocess.MortonDelta.{delta_encode_morton, delta_decode_morton}
use dewfall.Preprocess.Words.{MortonOps, get_morton_ops}
use dewfall.Preprocess.MortonDelta.RoundTrip.{
  encoded_parts, delta_decode_morton-delta_encode_morton,
}
use dewfall.Preprocess.MortonDelta.Accepts.{delta_encode_morton_refused}
use dewfall.Compressor.Ans.Standard.{delta_encode_points}

drop-AllBytes : (n : ℕ) (l : List ℕ) → AllBytes l → AllBytes (drop n l)
drop-AllBytes zero l ok = ok
drop-AllBytes (suc n) [] ok = ok
drop-AllBytes (suc n) (x ∷ l) ok = drop-AllBytes n l ok.1

take-AllBytes : (n : ℕ) (l : List ℕ) → AllBytes l → AllBytes (take n l)
take-AllBytes zero l ok = tt
take-AllBytes (suc n) [] ok = tt
take-AllBytes (suc n) (x ∷ l) ok = (ok.0, take-AllBytes n l ok.1)

append-AllBytes : (a b : List ℕ) → AllBytes a → AllBytes b → AllBytes (a ++ b)
append-AllBytes [] b h k = k
append-AllBytes (x ∷ a) b h k = (h.0, append-AllBytes a b h.1 k)

-- the prefix and the rest of a buffer whose length is given
front : (n : ℕ) (a b : List ℕ) → length a ≡ n → take n (a ++ b) ≡ a
front n a b e = subst (λ k. take k (a ++ b) ≡ a) e (take-append a b)

back : (n : ℕ) (a b : List ℕ) → length a ≡ n → drop n (a ++ b) ≡ b
back n a b e = subst (λ k. drop k (a ++ b) ≡ b) e (drop-append a b)

module _ (w : List ℕ) (size data_bytes stride : ℕ) (ok : IsSized size w)
    (inside : data_bytes ≤ size) where
  abbrev coded : Bool × List ℕ
  coded = delta_encode_points w (size - data_bytes) data_bytes stride

  abbrev points : List ℕ
  points = drop (size - data_bytes) w

  points-IsSized : IsSized data_bytes points
  points-IsSized = (
    drop-AllBytes (size - data_bytes) w ok.0,
    omega (arith, length-drop (size - data_bytes) w (omega (arith, ok.1)), ok.1),
  )

  length-prefix : length (take (size - data_bytes) w) ≡ size - data_bytes
  length-prefix = length-take (size - data_bytes) w (omega (arith, ok.1))

  -- The bytes keep their number.
  pub length-delta_encode_points : length coded.1 ≡ size
  unfolding delta_encode_points
  length-delta_encode_points = elim (Bool-cases (ltb 0 data_bytes)) [
    | inl some_point ↦ rw some_point (
        omega (
          arith,
          length-append (take (size - data_bytes) w)
              (delta_encode_morton points data_bytes stride).1,
          length-prefix,
          (delta_encode_morton-IsSized data_bytes points data_bytes stride points-IsSized).1,
        ))
    | inr no_point ↦ rw no_point ok.1
  ]

  -- A refusal leaves the bytes as they were.
  pub delta_encode_points_refused : coded.0 ≡ false → coded.1 ≡ w
  unfolding delta_encode_points
  delta_encode_points_refused refused = elim (Bool-cases (ltb 0 data_bytes)) [
    | inl some_point ↦
        let refused' : (delta_encode_morton points data_bytes stride).0 ≡ false = ground arith in
        rw some_point (
          ap (λ l. take (size - data_bytes) w ++ l)
            (delta_encode_morton_refused points data_bytes stride refused')
          ∙ take-drop (size - data_bytes) w)
    | inr no_point ↦ rw no_point refl
  ]

  -- A delta that was taken is undone behind the same prefix.
  pub delta_encode_points_undone :
      coded.0 ≡ true
      → (0 < data_bytes)
        × (take (size - data_bytes) coded.1
              ++ delta_decode_morton (drop (size - data_bytes) coded.1) data_bytes stride
            ≡ w)
  unfolding delta_encode_points
  delta_encode_points_undone done = elim (Bool-cases (ltb 0 data_bytes)) [
    | inl some_point ↦
        let encoded = (delta_encode_morton points data_bytes stride).1 in
        let done' : delta_encode_morton points data_bytes stride ≡ (true, encoded) = ground arith in
        let prefix = take (size - data_bytes) w in
        (
          ground arith,
          rw some_point (
              rw (front (size - data_bytes) prefix encoded length-prefix) (
                rw (back (size - data_bytes) prefix encoded length-prefix) (
                  ap (λ l. prefix ++ l)
                    (delta_decode_morton-delta_encode_morton points data_bytes stride encoded
                      points-IsSized.0 (omega (arith, points-IsSized.1)) done')
                  ∙ take-drop (size - data_bytes) w))),
        )
    | inr no_point ↦ absurd (ground arith)
  ]

  -- Only elements of 4, 8, 16 or 24 bytes have a morton delta.
  pub delta_encode_points_ops :
      coded.0 ≡ true → (ops : MortonOps) × (get_morton_ops stride ≡ some ops)
  unfolding delta_encode_points
  delta_encode_points_ops done = elim (Bool-cases (ltb 0 data_bytes)) [
    | inl some_point ↦
        let encoded = (delta_encode_morton points data_bytes stride).1 in
        let done' : delta_encode_morton points data_bytes stride ≡ (true, encoded) = ground arith in
        let parts = encoded_parts points data_bytes stride {out = encoded} done' in
        (parts.0, parts.1)
    | inr no_point ↦ absurd (ground arith)
  ]

  pub delta_encode_points-AllBytes : AllBytes coded.1
  unfolding delta_encode_points
  delta_encode_points-AllBytes = elim (Bool-cases (ltb 0 data_bytes)) [
    | inl some_point ↦ rw some_point (
        append-AllBytes (take (size - data_bytes) w) _ (take-AllBytes (size - data_bytes) w ok.0)
          (delta_encode_morton-IsSized data_bytes points data_bytes stride points-IsSized).0)
    | inr no_point ↦ rw no_point ok.0
  ]
