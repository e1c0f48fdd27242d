-- ===== src/Compressor/Tests.antt =====
-- Runs of the compressor, with a run-length code in place of the FSE library.
use dewfall.Prelude.{
  ℕ, zero, suc, ◌+◌, ◌*◌, ◌<◌, ◌≡◌, ◌⊎◌, refl, Bool, true, ◌&&◌, Option, none, some, List, [], ◌∷◌,
  ◌++◌, ◌==◌, if◌then◌else◌, arith, length, for_down, take, drop, for_up,
}
use dewfall.Compressor.{
  DewType, PointFormat, failed, empty, produced, size_for_format, write_header,
  try_compress_constant, all_same, same_bytes, decompress_any,
}
use dewfall.Compressor.Ans.{Fse}
use dewfall.Compressor.Ans.Standard.{delta_encode_points}
use dewfall.Preprocess.Single.{delta_encode_single, delta_decode_single}
use dewfall.Preprocess.Differences.{sub_at, add_at}
use dewfall.Bytes.{store, load}
use dewfall.Preprocess.MortonDelta.{
  delta_encode_morton, delta_decode_morton, monotone, encode_round, decode_round,
}
use dewfall.Preprocess.Words.{get_morton_ops, less_than_u32, sub_u32, add_u32}
use dewfall.Compressor.Constant.{decompress_any-try_compress_constant}
use dewfall.Compressor.Constant.Loops.{Differs}

abbrev run_of : ℕ → ℕ → List ℕ
run_of zero x = []
run_of (suc n) x = x ∷ run_of n x

abbrev is_run : ℕ → List ℕ → Bool
is_run x [] = true
is_run x (y ∷ l) = y == x && is_run x l

-- a run is one byte, and nothing else is compressible
abbrev encode_run : List ℕ → List ℕ
encode_run [] = []
encode_run (x ∷ l) = if is_run x l then x ∷ [] else []

abbrev decode_run : ℕ → List ℕ → Option (List ℕ)
decode_run n [] = none
decode_run n (x ∷ l) = some (run_of n x)

abbrev run_length : Fse
run_length = record {
  hist_count_wksp = λ src. some ([], 0);
  optimal_table_log = λ size max_symbol. 5;
  normalize_count = λ table_log counts size max_symbol. some ([], 1);
  compress_bound = λ size. size + 512;
  write_ncount = λ capacity normalized max_symbol table_log. some [];
  build_ctable = λ normalized max_symbol table_log. some [];
  compress_using_ctable = λ capacity src ct. some (encode_run src);
  decompress_wksp = decode_run;
}

abbrev counting : List ℕ
counting = 1 ∷ 2 ∷ 3 ∷ []

abbrev one_byte : PointFormat
one_byte = record { type = DewType.type_u8; components = 1 }

-- the header with the flag of the element delta, and the one byte of the run
abbrev packed_counting : List ℕ
packed_counting = 80 ∷ 67 ∷ 77 ∷ 1 ∷ 5 ∷ 1 ∷ 1 ∷ 64 ∷ 3 ∷ 0 ∷ 0 ∷ 0 ∷ 1 ∷ 0 ∷ 0 ∷ 0 ∷ 1 ∷ []

-- Two elements of two bytes, and a byte behind them.
abbrev twice : List ℕ
twice = 7 ∷ 8 ∷ 7 ∷ 8 ∷ 9 ∷ []

abbrev two_bytes : PointFormat
two_bytes = record { type = DewType.type_u16; components = 1 }

abbrev packed_twice : List ℕ
packed_twice = 80 ∷ 67 ∷ 77 ∷ 1 ∷ 4 ∷ 2 ∷ 1 ∷ 0 ∷ 5 ∷ 0 ∷ 0 ∷ 0 ∷ 2 ∷ 0 ∷ 0 ∷ 0 ∷ 7 ∷ 8 ∷ []

twice_packed : try_compress_constant twice two_bytes ≡ some (produced packed_twice)
unfolding try_compress_constant all_same same_bytes write_header size_for_format
twice_packed = refl

-- The byte behind the two elements is lost.
decompress_any-try_compress_constant_example :
    ((try_compress_constant twice two_bytes ≡ some empty)
      × ((size_for_format two_bytes.type * two_bytes.components ≡ 0)
          ⊎ ((length twice < size_for_format two_bytes.type * two_bytes.components)
              ⊎ Differs twice (size_for_format two_bytes.type * two_bytes.components))))
    ⊎ ((out : List ℕ) × (try_compress_constant twice two_bytes ≡ some (produced out))
        × (length out ≡ 16 + size_for_format two_bytes.type * two_bytes.components)
        × (decompress_any (λ b. failed) (λ b. failed) (λ b. failed) out
            ≡ some (produced (7 ∷ 8 ∷ 7 ∷ 8 ∷ 0 ∷ []))))
unfolding size_for_format
decompress_any-try_compress_constant_example =
    decompress_any-try_compress_constant (λ b. failed) (λ b. failed) (λ b. failed) twice two_bytes
      (omega arith) (omega arith)

-- Four elements of four bytes, 1, 2, 3 and 5, of which the last three are points: what `decompress`
-- undoes, in its order, is not what `compress` has done.
abbrev partial : List ℕ
partial = 1 ∷ 0 ∷ 0 ∷ 0 ∷ 2 ∷ 0 ∷ 0 ∷ 0 ∷ 3 ∷ 0 ∷ 0 ∷ 0 ∷ 5 ∷ 0 ∷ 0 ∷ 0 ∷ []

partial_points_differ :
    (let decoded =
        delta_decode_single
          (delta_encode_points (delta_encode_single partial 16 4) 4 12 4).1
          16
          4 in
      take 4 decoded ++ delta_decode_morton (drop 4 decoded) 12 4)
    ≡ 1 ∷ 0 ∷ 0 ∷ 0 ∷ 2 ∷ 0 ∷ 0 ∷ 0 ∷ 4 ∷ 0 ∷ 0 ∷ 0 ∷ 7 ∷ 0 ∷ 0 ∷ 0 ∷ []
unfolding delta_encode_points delta_decode_single delta_encode_single delta_decode_morton
    delta_encode_morton for_up for_down sub_at add_at load store get_morton_ops monotone
    encode_round decode_round less_than_u32 sub_u32 add_u32
partial_points_differ = refl
