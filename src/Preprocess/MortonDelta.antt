-- ===== src/Preprocess/MortonDelta.antt =====
-- `delta_encode_morton` and `delta_decode_morton` of src/core/compression_preprocess.cpp.
-- `i * type_size` stays below `size`, a `uint32_t`, so it is written with no wrap-around.
pub mod RoundTrip
pub mod Accepts
use dewfall.Prelude.{
  ℕ, zero, suc, ◌+◌, ◌-◌, ◌*◌, ◌/◌, Bool, true, false, ◌||◌, Option, none, some, List, ltb, leb,
  ◌==◌, if◌then◌else◌, for_up, for_down,
}
use dewfall.Preprocess.Words.{MortonOps, get_morton_ops}

-- The verification loop: `rounds` elements are left, `i` is the next.
unfoldable pub monotone : MortonOps → List ℕ → ℕ → ℕ → ℕ → Bool
monotone ops buf type_size zero i = true
monotone ops buf type_size (suc rounds) i =
    if ops.less buf (i * type_size) ((i - 1) * type_size)
    then false
    else monotone ops buf type_size rounds (i + 1)

unfoldable pub encode_round : MortonOps → ℕ → ℕ → List ℕ → List ℕ
encode_round ops type_size i buf =
    let curr = i * type_size in let prev = (i - 1) * type_size in ops.sub buf curr prev curr

unfoldable pub delta_encode_morton : List ℕ → ℕ → ℕ → Bool × List ℕ
delta_encode_morton buf size type_size =
    if type_size == 0 || ltb size type_size then (false, buf) else elim (get_morton_ops type_size) [
      | none ↦ (false, buf)
      | some ops ↦
          let count = size / type_size in
          if leb count 1
          then (true, buf)
          else if monotone ops buf type_size (count - 1) 1
          then (true, for_down (count - 1) (encode_round ops type_size) buf)
          else (false, buf)
    ]

unfoldable pub decode_round : MortonOps → ℕ → ℕ → List ℕ → List ℕ
decode_round ops type_size i buf =
    let curr = i * type_size in let prev = (i - 1) * type_size in ops.add buf curr prev curr

unfoldable pub delta_decode_morton : List ℕ → ℕ → ℕ → List ℕ
delta_decode_morton buf size type_size =
    if type_size == 0 || ltb size type_size then buf else elim (get_morton_ops type_size) [
      | none ↦ buf
      | some ops ↦
          let count = size / type_size in for_up (count - 1) (decode_round ops type_size) buf
    ]
