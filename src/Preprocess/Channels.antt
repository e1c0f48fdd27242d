-- ===== src/Preprocess/Channels.antt =====
-- `decorrelate_u16x3`, `correlate_u16x3`, `delta_encode_u16x3` and `delta_decode_u16x3` of
-- src/core/compression_preprocess.cpp: elements of three `uint16_t` channels.
pub mod Delta
pub mod Colour
use dewfall.Prelude.{
  ℕ, zero, suc, ◌+◌, ◌-◌, ◌*◌, ◌/◌, ◌%◌, ◌^◌, List, leb, if◌then◌else◌, for_up, for_down, for_below,
}
use dewfall.Bytes.{load, store}
use dewfall.Preprocess.Differences.{sub_at, add_at}

-- one round of `decorrelate_u16x3`, at `elem`
unfoldable pub decorrelate_element : List ℕ → ℕ → List ℕ
decorrelate_element buf elem =
    let r = load 2 buf elem in
    let g = load 2 buf (elem + 2) in
    let b = load 2 buf (elem + 4) in
    let dr = (r + 2 ^ 16 - g) % 2 ^ 16 in
    let db = (b + 2 ^ 16 - g) % 2 ^ 16 in
    store 2 (store 2 (store 2 buf elem g) (elem + 2) dr) (elem + 4) db

unfoldable pub decorrelate_u16x3 : List ℕ → ℕ → List ℕ
decorrelate_u16x3 buf size = for_below (size / 6) (λ i block. decorrelate_element block (i * 6)) buf

-- one round of `correlate_u16x3`, at `elem`
unfoldable pub correlate_element : List ℕ → ℕ → List ℕ
correlate_element buf elem =
    let g = load 2 buf elem in
    let dr = load 2 buf (elem + 2) in
    let db = load 2 buf (elem + 4) in
    let r = (dr + g) % 2 ^ 16 in
    let b = (db + g) % 2 ^ 16 in store 2 (store 2 (store 2 buf elem r) (elem + 2) g) (elem + 4) b

unfoldable pub correlate_u16x3 : List ℕ → ℕ → List ℕ
correlate_u16x3 buf size = for_below (size / 6) (λ i block. correlate_element block (i * 6)) buf

-- the loop over the channels `c` of one element
abbrev pub encode_channels : ℕ → List ℕ → List ℕ
encode_channels i buf =
    for_below 3 (λ c block. sub_at 2 block (i * 6 + c * 2) ((i - 1) * 6 + c * 2)) buf

abbrev pub decode_channels : ℕ → List ℕ → List ℕ
decode_channels i buf =
    for_below 3 (λ c block. add_at 2 block (i * 6 + c * 2) ((i - 1) * 6 + c * 2)) buf

unfoldable pub delta_encode_u16x3 : List ℕ → ℕ → List ℕ
delta_encode_u16x3 buf size =
    let count = size / 6 in if leb count 1 then buf else for_down (count - 1) encode_channels buf

unfoldable pub delta_decode_u16x3 : List ℕ → ℕ → List ℕ
delta_decode_u16x3 buf size =
    let count = size / 6 in if leb count 1 then buf else for_up (count - 1) decode_channels buf
