-- ===== src/Format/DictEntry.antt =====
-- core/include/snii/format/dict_entry.h, core/src/format/dict_entry.cpp
pub mod Entry
pub mod Encode
pub mod Decode
pub mod Region
pub mod Locator
pub mod RoundTrip
mod Tests
