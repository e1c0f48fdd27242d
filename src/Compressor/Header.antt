-- ===== src/Compressor/Header.antt =====
-- A frame that is written is read back.
use dewfall.Prelude.{
  ℕ, zero, suc, ◌/◌, ◌^◌, ◌<◌, ◌≡◌, refl, true, List, ◌++◌, arith, length, drop, ap,
}
use dewfall.Bytes.{load, le}
use dewfall.Compressor.{
  CompressionHeader, write_header, read_header, header_size, has_compression_magic,
}

-- Every field fits its type.
pub record FitsHeader (h : CompressionHeader) : Type 0 where
  pub method : h.method < 256
  pub type_size : h.type_size < 256
  pub component_count : h.component_count < 256
  pub flags : h.flags < 256
  pub uncompressed_size : h.uncompressed_size < 2 ^ 32
  pub compressed_size : h.compressed_size < 2 ^ 32

pub length-le : (w v : ℕ) → length (le w v) ≡ w
length-le zero v = refl
length-le (suc w) v = ap suc (length-le w (v / 256))

pub length-write_header : (h : CompressionHeader) → length (write_header h) ≡ 16
unfolding write_header
length-write_header h = refl

pub drop-write_header :
    (h : CompressionHeader) (rest : List ℕ) → drop header_size (write_header h ++ rest) ≡ rest
unfolding write_header
drop-write_header h rest = refl

pub read_header-write_header :
    (h : CompressionHeader) (rest : List ℕ)
    → FitsHeader h
    → read_header (write_header h ++ rest) ≡ h
unfolding read_header write_header load
read_header-write_header h rest fits = ground arith

pub has_compression_magic-write_header :
    (h : CompressionHeader) (rest : List ℕ) → has_compression_magic (write_header h ++ rest) ≡ true
unfolding has_compression_magic write_header
has_compression_magic-write_header h rest = ground arith

-- an integer at the front of a buffer
pub load-le : (v : ℕ) (rest : List ℕ) → v < 2 ^ 32 → load 4 (le 4 v ++ rest) 0 ≡ v
unfolding load
load-le v rest h = ground arith

pub drop-le : (w v : ℕ) (rest : List ℕ) → drop w (le w v ++ rest) ≡ rest
drop-le zero v rest = refl
drop-le (suc w) v rest = drop-le w (v / 256) rest
