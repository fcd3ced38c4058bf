-- ===== src/Strm.antt =====
-- The streams: lib/ngtcp2_strm.c, and lib/ngtcp2_rob.c, the buffer that puts their data in order.
pub mod Rob
pub mod State
