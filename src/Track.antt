-- ===== src/Track.antt =====
-- Ranges of 64-bit offsets and the two trackers of what was seen: received data, opened streams.
pub mod Range
pub mod Gaptr
pub mod Idtr
pub mod Ringbuf
pub mod Acktr
pub mod Map
pub mod Tests
