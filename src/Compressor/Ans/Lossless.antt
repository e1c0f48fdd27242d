-- ===== src/Compressor/Ans/Lossless.antt =====
-- `compress` and `decompress`, of every format but one `double` per point.
