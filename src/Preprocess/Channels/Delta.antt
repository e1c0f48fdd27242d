-- ===== src/Preprocess/Channels/Delta.antt =====
-- The deltas of the three channels are undone.
use dewfall.Prelude.{
  ℕ, suc, ◌+◌, ◌-◌, ◌*◌, ◌/◌, ◌%◌, ◌^◌, ◌≤◌, ◌≡◌, inl, inr, List, arith, length, for_up, for_down,
  for_below, for_up-for_down, for_down-for_up, for_below-for_below,
}
use dewfall.Bytes.{AllBytes}
use dewfall.Preprocess.Differences.{
  sub_at, add_at, IsBuffer, sub_at-IsBuffer, add_at-IsBuffer, add_at-sub_at, sub_at-add_at,
  modify_comm,
}
use dewfall.Preprocess.Channels.{
  encode_channels, decode_channels, delta_encode_u16x3, delta_decode_u16x3,
}

abbrev minus : ℕ → ℕ → ℕ
minus x y = (x + 256 ^ 2 - y) % 256 ^ 2

abbrev plus : ℕ → ℕ → ℕ
plus x y = (x + y) % 256 ^ 2

module _ (i size : ℕ) (h : suc i ≤ size / 6 - 1) where
  abbrev sub_channel : ℕ → List ℕ → List ℕ
  sub_channel c s = sub_at 2 s (suc i * 6 + c * 2) ((suc i - 1) * 6 + c * 2)

  abbrev add_channel : ℕ → List ℕ → List ℕ
  add_channel c s = add_at 2 s (suc i * 6 + c * 2) ((suc i - 1) * 6 + c * 2)

  decode_channels-encode_channels :
      (buf : List ℕ)
      → IsBuffer size buf
      → decode_channels (suc i) (encode_channels (suc i) buf) ≡ buf
  decode_channels-encode_channels buf ok =
      for_below-for_below (IsBuffer size) sub_channel add_channel 3
        (λ c s _ p. sub_at-IsBuffer 2 s _ _ size p) (λ c s _ p. add_at-IsBuffer 2 s _ _ size p)
        (λ c s lt p. add_at-sub_at 2 s _ _ p.0 (omega (arith, p.1)) (inl (omega arith)))
        (λ c d s lt lt' p.
          unfold sub_at add_at in
          modify_comm 2 plus minus s _ _ _ _ (inl (omega arith)) (inr (omega arith))
            (inr (omega arith)))
        3 buf (omega arith) ok

  encode_channels-decode_channels :
      (buf : List ℕ)
      → IsBuffer size buf
      → encode_channels (suc i) (decode_channels (suc i) buf) ≡ buf
  encode_channels-decode_channels buf ok =
      for_below-for_below (IsBuffer size) add_channel sub_channel 3
        (λ c s _ p. add_at-IsBuffer 2 s _ _ size p) (λ c s _ p. sub_at-IsBuffer 2 s _ _ size p)
        (λ c s lt p. sub_at-add_at 2 s _ _ p.0 (omega (arith, p.1)) (inl (omega arith)))
        (λ c d s lt lt' p.
          unfold sub_at add_at in
          modify_comm 2 minus plus s _ _ _ _ (inl (omega arith)) (inr (omega arith))
            (inr (omega arith)))
        3 buf (omega arith) ok

module _ (size : ℕ) where
  keep_encode :
      (i : ℕ) (s : List ℕ)
      → i ≤ size / 6 - 1
      → IsBuffer size s
      → IsBuffer size (encode_channels i s)
  unfolding for_below
  keep_encode i s h p =
      sub_at-IsBuffer 2 _ _ _ size (sub_at-IsBuffer 2 _ _ _ size (sub_at-IsBuffer 2 s _ _ size p))

  keep_decode :
      (i : ℕ) (s : List ℕ)
      → i ≤ size / 6 - 1
      → IsBuffer size s
      → IsBuffer size (decode_channels i s)
  unfolding for_below
  keep_decode i s h p =
      add_at-IsBuffer 2 _ _ _ size (add_at-IsBuffer 2 _ _ _ size (add_at-IsBuffer 2 s _ _ size p))

  loops_undo :
      (buf : List ℕ)
      → IsBuffer size buf
      → (for_up (size / 6 - 1) decode_channels (for_down (size / 6 - 1) encode_channels buf) ≡ buf)
        × (for_down (size / 6 - 1) encode_channels (for_up (size / 6 - 1) decode_channels buf)
            ≡ buf)
  loops_undo buf ok = (
    for_up-for_down (IsBuffer size) encode_channels decode_channels (size / 6 - 1) keep_encode
        (λ i s h p. decode_channels-encode_channels i size h s p) (size / 6 - 1) buf (omega arith)
        ok,
    for_down-for_up (IsBuffer size) encode_channels decode_channels (size / 6 - 1) keep_decode
        (λ i s h p. encode_channels-decode_channels i size h s p) (size / 6 - 1) buf (omega arith)
        ok,
  )

-- `delta_decode_u16x3` undoes `delta_encode_u16x3`, and the other way round, on every buffer.
pub delta_decode_u16x3-delta_encode_u16x3 :
    (buf : List ℕ) (size : ℕ)
    → AllBytes buf
    → size ≤ length buf
    → (delta_decode_u16x3 (delta_encode_u16x3 buf size) size ≡ buf)
      × (delta_encode_u16x3 (delta_decode_u16x3 buf size) size ≡ buf)
unfolding delta_encode_u16x3 delta_decode_u16x3
delta_decode_u16x3-delta_encode_u16x3 buf size ok fits =
    (ground (arith, loops_undo size buf (ok, fits)), ground (arith, loops_undo size buf (ok, fits)))
