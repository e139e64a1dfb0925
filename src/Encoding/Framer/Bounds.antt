-- ===== src/Encoding/Framer/Bounds.antt =====
-- SectionFramer::read of core/src/encoding/section_framer.cpp and the cursor.
