-- ===== src/Shuffle/Tests.antt =====
-- A run, and the theorem at an input that meets its hypotheses.
use dewfall.Prelude.{◌≡◌, refl, ℕ, List, [], ◌∷◌, length, copy, for_below, arith}
use dewfall.Shuffle.{byte_shuffle, byte_unshuffle, move_bytes}
use dewfall.Shuffle.RoundTrip.{byte_unshuffle-byte_shuffle}

-- two points of two components of two bytes, and one byte more
abbrev points : List ℕ
points = 1 ∷ 2 ∷ 3 ∷ 4 ∷ 5 ∷ 6 ∷ 7 ∷ 8 ∷ 9 ∷ []

abbrev zeros : List ℕ
zeros = 0 ∷ 0 ∷ 0 ∷ 0 ∷ 0 ∷ 0 ∷ 0 ∷ 0 ∷ 0 ∷ []

shuffle_runs : byte_shuffle points zeros 9 2 2 ≡ 1 ∷ 5 ∷ 2 ∷ 6 ∷ 3 ∷ 7 ∷ 4 ∷ 8 ∷ 9 ∷ []
unfolding byte_shuffle move_bytes copy for_below
shuffle_runs = refl

byte_unshuffle-byte_shuffle_example :
    byte_unshuffle (byte_shuffle points zeros (length points) 2 2) zeros (length points) 2 2
    ≡ points
byte_unshuffle-byte_shuffle_example =
    byte_unshuffle-byte_shuffle points zeros zeros 2 2 (omega arith) (omega arith) (omega arith)
