-- ===== src/Encoding.antt =====
-- core/src/encoding: the primitives that every section of a container is written and read with.
pub mod Varint
pub mod Zigzag
pub mod Sink
pub mod Source
pub mod Codec
pub mod Crc32c
pub mod Pfor
pub mod Framer
mod Tests
