-- ===== src/Io.antt =====
-- core/src/io: how bytes are fetched.
pub mod BatchRangeFetcher
mod Tests
