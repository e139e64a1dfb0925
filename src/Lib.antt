-- ===== src/Lib.antt =====
-- SNII, a segment-level inverted index: what its encodings and its container metadata promise.
--
-- The program writes an index as one container: a bootstrap header, posting and dictionary regions, a tail
-- meta region and a tail pointer at the end. Its sections are byte strings that a ByteSink collects and a
-- ByteSource reads, most of them framed with a type, a length and a CRC-32C. A reader starts at the tail pointer,
-- opens the tail meta region, finds the meta block of a logical index there, and finds in it statistics, the
-- sampled term index, the directory of dictionary blocks and the references of the other regions. Queries
-- combine ascending lists of document ids. While an index is built, the postings of each term grow in a pool
-- of byte slices; when one is read, byte ranges are fetched in batches and a bloom filter is asked for absent
-- terms.
--
-- Which file models what (paths from the repository's root):
-- Common/Status: core/include/snii/common/status.h. A function that returns Status and fills out-parameters
--   returns a Result; SNII_RETURN_IF_ERROR is its bind.
-- Encoding/Varint, Zigzag: core/src/encoding/varint.cpp and core/include/snii/encoding/varint.h. A pointer
--   range is the list of its bytes. An int64 is its two's complement in 64 bits.
-- Encoding/Sink, Source: byte_sink.cpp and byte_source.cpp of core/src/encoding, with
--   core/include/snii/common/slice.h. A sink is its buffer, a Put is a call on it; a Get is a read that takes
--   the cursor and returns a value and the new cursor, or the failure.
-- Encoding/Crc32c: core/src/encoding/crc32c.cpp, the table-driven path.
-- Encoding/Framer: core/src/encoding/section_framer.cpp.
-- Encoding/Codec: no code of the repository; how writers and readers of runs of bytes are put together, on
--   which the round trips of all sections rest. `Reads g bs a` says that g reads a off bs, wherever bs
--   stands in a slice and whatever is behind it.
-- Format/Constants: core/include/snii/format/format_constants.h.
-- Format/Stats, Bootstrap, TailPointer, Norms, DictDirectory, IndexDirectory, SampledIndex, PerIndexMeta,
--   TailMeta: stats_block, bootstrap_header, tail_pointer, norms_pod, dict_block_directory,
--   logical_index_directory, sampled_term_index, per_index_meta and tail_meta_region of core/src/format.
-- Format/DictEntry, FrqRegion: core/src/format/dict_entry.cpp, and the region metadata of
--   core/include/snii/format/frq_pod.h; `stats` is whether the tier stores statistics, and the front coding is
--   that of Format/SampledIndex, which the source has twice.
-- Format/DictBlock: core/src/format/dict_block.cpp; the loops over a segment run on as many rounds as the
--   segment has bytes and one more, and each entry takes a byte at least.
-- Format/Bsbf: core/src/format/bsbf.cpp, with the scalar kernels; the 64-bit hash of a term and the
--   operations on doubles are parameters.
-- Encoding/Pfor: bits_for and choose_width of core/src/encoding/pfor.cpp.
-- Query/DocidSet: core/src/query/docid_set_ops.cpp; a priority queue is the list of its entries.
-- Writer/PostingPool: core/src/writer/compact_posting_pool.cpp; the blocks are one memory by absolute offset,
--   and a call that throws returns none. A trace of calls is run beside the same trace on byte sequences.
-- Io/BatchRangeFetcher: core/src/io/batch_range_fetcher.cpp; std::sort and FileReader::read_batch are
--   parameters.
-- Query/Wildcard: the matcher of core/src/query/wildcard_query.cpp.
--
-- Numbers are natural numbers, and the wrap-around of an unsigned type is written out as a remainder. A byte
-- is a number below 256. Where a theorem needs a field to fit its type, it has that as a hypothesis, IsU64
-- or IsU32, or in the record of what a well-formed value is.
-- Loops run over lists, or on a number of rounds: ten for the encoder of a varint, for 64 bits in groups of
-- seven; 32 for the bits of a uint32 and
-- for the doubling of a filter's size; for the loop over the sections of a per-index meta
-- block as many as the block has bytes, of which each section takes six at least. Should those rounds run
-- out, the answer is a failure of its own.
--
-- Not modelled: null checks on pointers, since there is no null here; the hardware CRC-32C and the AVX2
-- kernels, compiler intrinsics; files, object stores, timers and benchmarks; zstd, roaring bitmaps and RE2, which are other
-- projects' libraries; the posting formats, the writers and readers of whole indexes and the queries over them.
pub mod Common
pub mod Encoding
pub mod Format
pub mod Query
pub mod Writer
pub mod Io
