-- ===== src/Writer.antt =====
-- core/src/writer: what builds the sections of an index.
pub mod PostingPool
mod Tests
