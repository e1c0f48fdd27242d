-- ===== src/Compressor/Ans/Outcome.antt =====
-- When `compress` fails.
use dewfall.Prelude.{ℕ, ◌≡◌, ◌≢◌, ◌⊎◌, List}
use dewfall.Compressor.{CompressionResult, failed, produced}
use dewfall.Compressor.Ans.{FseCompressResult, fse_error}

abbrev Produces : CompressionResult → Type 0
Produces r = (out : List ℕ) × (r ≡ produced out)

-- A result that fails exactly with the FSE code of the bytes it rests on.
abbrev FailsWith : FseCompressResult → CompressionResult → Type 0
FailsWith full r = ((full ≡ fse_error) × (r ≡ failed)) ⊎ ((full ≢ fse_error) × Produces r)
