-- ===== src/Pkt.antt =====
-- lib/ngtcp2_pkt.c: packet headers, frames and packet numbers.
pub mod Cursor
pub mod Frame
pub mod Decode
pub mod Encode
pub mod Hd
pub mod Special
pub mod AckRange
pub mod Num
pub mod RoundTrip
pub mod Safety
