-- ===== src/Common.antt =====
-- The firmware's common folder (src/common).
pub mod RingBuffer
pub mod AssertHandler
pub mod EnumToString
pub mod Trace
mod Tests
