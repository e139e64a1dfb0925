-- ===== src/Format.antt =====
-- core/src/format: the sections of a container.
pub mod Constants
pub mod Bootstrap
pub mod TailPointer
pub mod Stats
pub mod Norms
pub mod DictDirectory
pub mod IndexDirectory
pub mod SampledIndex
pub mod PerIndexMeta
pub mod TailMeta
pub mod FrqRegion
pub mod DictEntry
pub mod DictBlock
pub mod Bsbf
mod Tests
mod MetaTests
