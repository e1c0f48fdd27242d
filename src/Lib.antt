-- ===== src/Lib.antt =====
-- dewfall converts point clouds into a Morton-ordered octree whose blobs are preprocessed,
-- compressed and stored at offsets of one file or as objects, and streams them back. This library
-- models the parts of its core that other parts rely on for data integrity.
--
-- Bytes: the `memcpy` of little-endian integers out of and into a byte buffer.
-- Preprocess: src/core/compression_preprocess.cpp. The multi-word operations and their table
-- (`get_morton_ops`) are in Preprocess/Words, the Morton deltas in Preprocess/MortonDelta, the
-- single-channel deltas in Preprocess/Single, the three-channel transforms in Preprocess/Channels.
-- A pointer is an offset into the one buffer, so that aliasing and write order are those of the
-- source. Loops over elements are counted loops (Prelude/Loops); sizes are `uint32_t` and offsets
-- stay below them.
-- Preprocess/Bands has the constant bands, Preprocess/Sizes the lengths that the transforms keep. The
-- sorting and the subtraction of an offset rest on floating point and are not modelled.
-- Shuffle: src/core/byte_shuffle.cpp, the two routines over two buffers.
-- Compressor: src/core/compressor.cpp and compressor_ans.cpp. The header and the constant buffers are
-- in Compressor itself, the FSE library's calls, which are parameters of the model (`Fse`), in
-- Compressor/Ans, `compress` in Ans/Standard and `decompress` in Ans/Decompress. The branch of
-- `compress` for one `double` per point is a parameter, and so is the addition of `double`s. Where the
-- source passes its working copy as the input too, the input is that copy before the morton delta: it
-- is written out only in a frame that is as long as the input, which is never the smallest. The
-- loops over the elements of a constant buffer have a `uint32_t` offset that wraps; they run on
-- fuel, one more than the bytes, which is enough where it does not wrap, since an element has a
-- byte.
-- Compressor/Stats has `accumulate` and `subtract_source` of the compression statistics, with the
-- comparison of two `double`s as a parameter; their serialization is not modelled.
-- LruCache: src/core/lru_cache.hpp. Nodes of the list have an identity, which stands for the
-- iterators in the hash map; the eviction loop has the list's length as fuel, which is enough because
-- each round drops a node (`evict_lem`). The mutex makes each call one step: LruCache/Operations
-- runs lists of calls.
-- Morton: src/core/morton.hpp. A code is its words, by type (`Morton`); `bit_scan` has 64 rounds as
-- fuel, the bits of a word. Morton/Masks has the bitwise operations and the masks. The writing of a
-- child mask, the casts, and `encode` and `decode`, which rest on libmorton, are not modelled.
-- StorageMap: src/core/input_storage_map.cpp. The map is an association list; code behind an assertion
-- runs on a missing id as a release build does. StorageMap/Serialize writes and reads the map by
-- Memory, which is src/core/memory_writer.hpp.
-- BlobManager: src/core/blob_manager.cpp. Free sections by page; the map is the list of its entries in
-- the order in which ankerl::unordered_dense keeps them. BlobManager/Release frees a range in a page,
-- BlobManager/Unregister in all pages and at the end of the file, BlobManager/Register models
-- `register_blob` and BlobManager/Claim `claim_blob`. The page loop of `unregister_blob` has one
-- unit of fuel more than the range has pages, which is enough where its `uint32_t` page does not
-- wrap; that of `claim_blob` has as many rounds as the range has pages, `shrink` as many as there
-- are pages, and `consume` walks down on the page number.
-- BlobManager/Serialize writes and reads the free sections; the padding of a section is a parameter.
-- BlobManager/Tests has a run of `register_blob` that hands out bytes in use.
--
-- Residency: src/core/blob_residency.cpp. The slab is a list of entries, whose links of recency are
-- indices as in the source; Residency/Operations has the operations. The walk of `pick_evict_victim`
-- has the length of the slab as fuel, since an entry is at most once in the list of recency.
-- Serialization is not modelled.
--
-- Not modelled: the octree and the conversion pipeline (threads and event loops), the zstd and huff0
-- coders (third-party libraries), storage backends (input and output), rendering (floating point,
-- graphics).
pub mod Prelude
pub mod Bytes
pub mod Preprocess
pub mod LruCache
pub mod Morton
pub mod StorageMap
pub mod BlobManager
pub mod Residency
pub mod Shuffle
pub mod Compressor
pub mod Memory
