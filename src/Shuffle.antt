-- ===== src/Shuffle.antt =====
-- src/core/byte_shuffle.cpp: the bytes of every component are gathered into bands. `src` and `dst`
-- are two buffers. The stride is a `uint32_t` and wraps; where it does not, the products with the
-- point counts stay below the size of a buffer.
mod Loop
pub mod RoundTrip
mod Tests
use dewfall.Prelude.{
  ℕ, ◌+◌, ◌*◌, ◌/◌, ◌%◌, ◌^◌, ◌||◌, List, leb, ltb, ◌==◌, if◌then◌else◌, set, byte_at, copy,
  for_below,
}

-- The three loops, over points, components and the bytes of a component: each round copies the byte
-- at `from` to `to`.
unfoldable pub move_bytes : ℕ → ℕ → ℕ → (ℕ → ℕ → ℕ → ℕ) → (ℕ → ℕ → ℕ → ℕ) → List ℕ → List ℕ → List ℕ
move_bytes element_count component_count typesize to from src dst =
    for_below element_count
      (λ i.
        for_below component_count
          (λ c. for_below typesize (λ b buf. set buf (to i c b) (byte_at src (from i c b)))))
      dst

-- the byte of a point, and its place in its band
abbrev pub in_point : ℕ → ℕ → ℕ → ℕ → ℕ → ℕ
in_point stride typesize i c b = i * stride + (c * typesize + b)

abbrev pub in_band : ℕ → ℕ → ℕ → ℕ → ℕ → ℕ
in_band element_count typesize i c b = (c * typesize + b) * element_count + i

unfoldable pub byte_shuffle : List ℕ → List ℕ → ℕ → ℕ → ℕ → List ℕ
byte_shuffle src dst total_size typesize component_count =
    let stride = (typesize * component_count) % 2 ^ 32 in
    if leb stride 1 || total_size == 0
    then copy total_size dst 0 src 0
    else let element_count = total_size / stride in
      let remainder = total_size % stride in
      let moved =
        move_bytes element_count component_count typesize (in_band element_count typesize)
          (in_point stride typesize) src dst in
      if ltb 0 remainder
      then copy remainder moved (stride * element_count) src (stride * element_count)
      else moved

unfoldable pub byte_unshuffle : List ℕ → List ℕ → ℕ → ℕ → ℕ → List ℕ
byte_unshuffle src dst total_size typesize component_count =
    let stride = (typesize * component_count) % 2 ^ 32 in
    if leb stride 1 || total_size == 0
    then copy total_size dst 0 src 0
    else let element_count = total_size / stride in
      let remainder = total_size % stride in
      let moved =
        move_bytes element_count component_count typesize (in_point stride typesize)
          (in_band element_count typesize) src dst in
      if ltb 0 remainder
      then copy remainder moved (stride * element_count) src (stride * element_count)
      else moved
