-- ===== src/Compressor/Stats/Tests.antt =====
-- The theorem at a buffer of ten points of six bytes behind a header of 16.
use dewfall.Prelude.{◌+◌, ◌*◌, ◌≡◌, refl, arith, [], ◌∷◌, false, ltb}
use dewfall.Compressor.{DewType, size_for_format}
use dewfall.Compressor.Stats.{AttributeStats, CompressionStats, Buffer, accumulate, subtract_source}
use dewfall.Compressor.Stats.Balance.{HasRoom, taken_back, subtract_source-accumulate}

abbrev colours : Buffer
colours = record {
  name = 114 ∷ 103 ∷ 98 ∷ [];
  format = record { type = DewType.type_u16; components = 3 };
  uncompressed = 76;
  compressed = 30;
  min_val = 1;
  max_val = 9;
  flags = 16;
  is_lod = false;
}

abbrev counted : AttributeStats
counted = record {
  name = 114 ∷ 103 ∷ 98 ∷ [];
  format = record { type = DewType.type_u16; components = 3 };
  buffer_count = 2;
  uncompressed_bytes = 500;
  compressed_bytes = 200;
  min_value = 0;
  max_value = 20;
  path_counts = λ i. 1;
  lod_buffer_count = 0;
  lod_uncompressed_bytes = 0;
  lod_compressed_bytes = 0;
}

abbrev stats : CompressionStats
stats = record { total_buffer_count = 2; lod_buffer_count = 0; per_attribute = counted ∷ [] }

bytes_of_points : 76 ≡ 10 * (size_for_format DewType.type_u16 * 3) + 16
unfolding size_for_format
bytes_of_points = refl

subtract_source-accumulate_example :
    subtract_source
      (114 ∷ 103 ∷ 98 ∷ [])
      (record { type = DewType.type_u16; components = 3 })
      10
      16
      30
      (accumulate ltb colours stats)
    ≡ record {
      total_buffer_count = 2;
      lod_buffer_count = (accumulate ltb colours stats).lod_buffer_count;
      per_attribute = taken_back ltb colours 10 16 bytes_of_points (counted ∷ []);
    }
unfolding HasRoom
subtract_source-accumulate_example =
    subtract_source-accumulate ltb colours 10 16 bytes_of_points stats (omega arith)
      ((omega arith, omega arith, omega arith), (omega arith, omega arith))
