-- ===== src/Preprocess/MortonDelta/RoundTrip.antt =====
-- Decoding undoes encoding.
use dewfall.Prelude.{
  ℕ, suc, ◌-◌, ◌*◌, ◌/◌, ◌≤◌, ◌≡◌, inl, inr, true, false, ◌||◌, some, List, ltb, ◌==◌, arith,
  for_up, for_down, for_up-for_down, element_fits, element_before, length, ◌∙◌, Bool-cases,
  Option-cases,
}
use dewfall.Bytes.{AllBytes}
use dewfall.Preprocess.Differences.{sub_at, add_at, IsBuffer, sub_at-IsBuffer, add_at-sub_at}
use dewfall.Preprocess.Words.{MortonOps, get_morton_ops}
use dewfall.Preprocess.WordLaws.{IsWide, get_morton_ops-IsWide}
use dewfall.Preprocess.MortonDelta.{
  encode_round, decode_round, delta_encode_morton, delta_decode_morton,
}

module _ (ops : MortonOps) (w size : ℕ) (wide : IsWide w ops) (fits : 1 ≤ size / w) where
  abbrev pub last : ℕ
  last = size / w - 1

  pub encode_round-sub_at :
      (i : ℕ) (buf : List ℕ)
      → AllBytes buf
      → encode_round ops w i buf ≡ sub_at w buf (i * w) ((i - 1) * w)
  unfolding encode_round
  encode_round-sub_at i buf ok = wide.sub_wide buf _ _ ok

  decode_round-add_at :
      (i : ℕ) (buf : List ℕ)
      → AllBytes buf
      → decode_round ops w i buf ≡ add_at w buf (i * w) ((i - 1) * w)
  unfolding decode_round
  decode_round-add_at i buf ok = wide.add_wide buf _ _ ok

  pub encode_round-IsBuffer :
      (i : ℕ) (buf : List ℕ)
      → i ≤ last
      → IsBuffer size buf
      → IsBuffer size (encode_round ops w i buf)
  encode_round-IsBuffer i buf h ok =
      rw (encode_round-sub_at i buf ok.0) (sub_at-IsBuffer w buf _ _ size ok)

  decode_round-encode_round :
      (i : ℕ) (buf : List ℕ)
      → suc i ≤ last
      → IsBuffer size buf
      → decode_round ops w (suc i) (encode_round ops w (suc i) buf) ≡ buf
  decode_round-encode_round i buf h ok =
      decode_round-add_at (suc i) _ (encode_round-IsBuffer (suc i) buf h ok).0
      ∙ rw (encode_round-sub_at (suc i) buf ok.0) (
          add_at-sub_at w buf (suc i * w) ((suc i - 1) * w) ok.0
            (omega (arith, element_fits (suc i) size w (omega arith), ok.1))
            (inl (element_before (suc i - 1) (suc i) w (omega arith))))

  decode-encode :
      (buf : List ℕ)
      → IsBuffer size buf
      → for_up last (decode_round ops w) (for_down last (encode_round ops w) buf) ≡ buf
  decode-encode buf ok =
      for_up-for_down (IsBuffer size) (encode_round ops w) (decode_round ops w) last
        encode_round-IsBuffer decode_round-encode_round last buf (omega arith) ok

pub some_element : (size w : ℕ) → (w == 0 || ltb size w) ≡ false → 1 ≤ size / w
some_element size w h = grind arith

encoded_loop :
    (ops : MortonOps) (buf : List ℕ) (size w : ℕ) {out : List ℕ}
    → (w == 0 || ltb size w) ≡ false
    → get_morton_ops w ≡ some ops
    → delta_encode_morton buf size w ≡ (true, out)
    → out ≡ for_down (size / w - 1) (encode_round ops w) buf
unfolding delta_encode_morton for_down
encoded_loop ops buf size w sane found h = ground arith

-- What a successful call has found and done.
pub encoded_parts :
    (buf : List ℕ) (size w : ℕ) {out : List ℕ}
    → delta_encode_morton buf size w ≡ (true, out)
    → (ops : MortonOps) × (get_morton_ops w ≡ some ops)
      × (1 ≤ size / w)
      × ((w == 0 || ltb size w) ≡ false)
      × (out ≡ for_down (size / w - 1) (encode_round ops w) buf)
unfolding delta_encode_morton
encoded_parts buf size w h = elim (Bool-cases (w == 0 || ltb size w)) [
  | inl bad ↦ absurd (ground arith)
  | inr sane ↦ elim (Option-cases (get_morton_ops w)) [
    | inl missing ↦ absurd (ground arith)
    | inr (ops, found) ↦
        (ops, found, some_element size w sane, sane, encoded_loop ops buf size w sane found h)
  ]
]

-- A block that `delta_encode_morton` accepts comes back whole from `delta_decode_morton`, at every
-- element size, the bytes after the last whole element and after the block included.
pub delta_decode_morton-delta_encode_morton :
    (buf : List ℕ) (size type_size : ℕ) (out : List ℕ)
    → AllBytes buf
    → size ≤ length buf
    → delta_encode_morton buf size type_size ≡ (true, out)
    → delta_decode_morton out size type_size ≡ buf
unfolding delta_decode_morton
delta_decode_morton-delta_encode_morton buf size w out ok fits h =
    let (ops, found, long, sane, e) = encoded_parts buf size w h in
    rw (sane, found, e)
      (decode-encode ops w size (get_morton_ops-IsWide w ops found) long buf (ok, fits))
