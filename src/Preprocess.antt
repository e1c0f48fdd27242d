-- ===== src/Preprocess.antt =====
-- src/core/compression_preprocess.cpp: the reversible transforms that run before a blob is
-- compressed, over a byte buffer that they change in place.
pub mod Words
pub mod WordLaws
pub mod Differences
pub mod MortonDelta
pub mod Single
pub mod Channels
pub mod Bands
pub mod Sizes
pub mod Agree
mod Tests
