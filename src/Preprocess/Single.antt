-- ===== src/Preprocess/Single.antt =====
-- `delta_encode_single` and `delta_decode_single` of src/core/compression_preprocess.cpp: elements
-- of 1, 2, 4 or 8 bytes, with differences that wrap. The source divides by `element_size`
-- before it looks at it, so an `element_size` of 0 is undefined behaviour there; the theorem below
-- excludes it.
use dewfall.Prelude.{
  ℕ, suc, ◌-◌, ◌*◌, ◌/◌, ◌≤◌, ◌<◌, ◌≡◌, inl, Bool, ◌||◌, List, leb, ◌==◌, if◌then◌else◌, arith,
  length, for_up, for_down, for_up-for_down, for_down-for_up, element_fits, element_before,
}
use dewfall.Bytes.{AllBytes}
use dewfall.Preprocess.Differences.{
  sub_at, add_at, IsBuffer, sub_at-IsBuffer, add_at-IsBuffer, add_at-sub_at, sub_at-add_at,
}

-- the labels of the `switch`
abbrev pub has_case : ℕ → Bool
has_case element_size =
    element_size == 1 || (element_size == 2 || (element_size == 4 || element_size == 8))

-- the body of the loop of the case `w`
abbrev pub encode_element : ℕ → ℕ → List ℕ → List ℕ
encode_element w i buf = sub_at w buf (i * w) ((i - 1) * w)

abbrev pub decode_element : ℕ → ℕ → List ℕ → List ℕ
decode_element w i buf = add_at w buf (i * w) ((i - 1) * w)

unfoldable pub delta_encode_single : List ℕ → ℕ → ℕ → List ℕ
delta_encode_single buf size element_size =
    let count = size / element_size in
    if leb count 1
    then buf
    else if has_case element_size
    then for_down (count - 1) (encode_element element_size) buf
    else buf

unfoldable pub delta_decode_single : List ℕ → ℕ → ℕ → List ℕ
delta_decode_single buf size element_size =
    let count = size / element_size in
    if leb count 1
    then buf
    else if has_case element_size
    then for_up (count - 1) (decode_element element_size) buf
    else buf

module _ (size w : ℕ) where
  undo_sub :
      (i : ℕ) (buf : List ℕ)
      → suc i ≤ size / w - 1
      → IsBuffer size buf
      → decode_element w (suc i) (encode_element w (suc i) buf) ≡ buf
  undo_sub i buf h ok =
      add_at-sub_at w buf (suc i * w) ((suc i - 1) * w) ok.0
        (omega (arith, element_fits (suc i) size w (omega arith), ok.1))
        (inl (element_before (suc i - 1) (suc i) w (omega arith)))

  undo_add :
      (i : ℕ) (buf : List ℕ)
      → suc i ≤ size / w - 1
      → IsBuffer size buf
      → encode_element w (suc i) (decode_element w (suc i) buf) ≡ buf
  undo_add i buf h ok =
      sub_at-add_at w buf (suc i * w) ((suc i - 1) * w) ok.0
        (omega (arith, element_fits (suc i) size w (omega arith), ok.1))
        (inl (element_before (suc i - 1) (suc i) w (omega arith)))

  decode-encode :
      (buf : List ℕ)
      → IsBuffer size buf
      → for_up (size / w - 1) (decode_element w) (for_down (size / w - 1) (encode_element w) buf)
        ≡ buf
  decode-encode buf ok =
      for_up-for_down (IsBuffer size) (encode_element w) (decode_element w) (size / w - 1)
        (λ i s _ p. sub_at-IsBuffer w s (i * w) ((i - 1) * w) size p) undo_sub (size / w - 1) buf
        (omega arith) ok

  encode-decode :
      (buf : List ℕ)
      → IsBuffer size buf
      → for_down (size / w - 1) (encode_element w) (for_up (size / w - 1) (decode_element w) buf)
        ≡ buf
  encode-decode buf ok =
      for_down-for_up (IsBuffer size) (encode_element w) (decode_element w) (size / w - 1)
        (λ i s _ p. add_at-IsBuffer w s (i * w) ((i - 1) * w) size p) undo_add (size / w - 1) buf
        (omega arith) ok

-- At every element size but 0, supported or not, `delta_decode_single` undoes `delta_encode_single` and
-- `delta_encode_single` undoes `delta_decode_single`.
pub delta_decode_single-delta_encode_single :
    (buf : List ℕ) (size element_size : ℕ)
    → AllBytes buf
    → size ≤ length buf
    → 0 < element_size
    → (delta_decode_single (delta_encode_single buf size element_size) size element_size ≡ buf)
      × (delta_encode_single (delta_decode_single buf size element_size) size element_size ≡ buf)
unfolding delta_encode_single delta_decode_single
delta_decode_single-delta_encode_single buf size w ok fits some_size = (
  ground (arith, decode-encode size w buf (ok, fits)),
  ground (arith, encode-decode size w buf (ok, fits)),
)
