-- ===== src/Query.antt =====
-- core/src/query: how answers are put together.
pub mod DocidSet
pub mod Wildcard
mod Tests
