-- ===== src/Memory.antt =====
-- src/core/memory_writer.hpp: writing values into a buffer up to its end, and reading them back. A
-- value is its bytes.
pub mod Laws
use dewfall.Prelude.{
  ℕ, ◌+◌, ◌-◌, Bool, true, false, List, [], ◌∷◌, ◌++◌, ltb, if◌then◌else◌, length, drop,
}
use dewfall.Bytes.{load}

-- `ptr` and `end`: what is written before `ptr`, and the bytes left
pub record Writer : Type 0 where
  pub written : List ℕ
  pub room : ℕ

-- the writer behind some bytes more
abbrev pub advance : Writer → List ℕ → Writer
advance w bytes = record { written = w.written ++ bytes; room = w.room - length bytes }

unfoldable pub write_memory : Writer → List ℕ → Bool × Writer
write_memory w value = if ltb w.room (length value) then (false, w) else (true, advance w value)

unfoldable pub write_vec_type : Writer → List ℕ → Bool × Writer
write_vec_type w [] = (true, w)
write_vec_type w (x ∷ bytes) =
    if ltb w.room (length (x ∷ bytes)) then (false, w) else (true, advance w (x ∷ bytes))

-- `if (!write(ptr, end, ...)) return {false, ptr};`
unfoldable pub and_then : Bool × Writer → (Writer → Bool × Writer) → Bool × Writer
and_then (true, w) next = next w
and_then (false, w) next = (false, w)

-- A value and the bytes from `ptr` on, or the bytes from which nothing more could be read.
pub data Read {ℓ} (A : Type ℓ) : Type ℓ where
  stopped : List ℕ → Read A
  got : A → List ℕ → Read A

-- an unsigned integer of `width` bytes
unfoldable pub read_memory : ℕ → List ℕ → Read ℕ
read_memory width ptr =
    if ltb (length ptr) width then stopped ptr else got (load width ptr 0) (drop width ptr)
