-- ===== src/Pkt/Hd/Safety.antt =====
-- The decoders of packet headers on arbitrary packets.
use ngtcp.Pkt.Cursor.{has_bit}
use ngtcp.Base.{Bool-cases, drop, length-drop, ℕ, inl, inr, List, [], ◌∷◌, arith}
use ngtcp.Conv.{peek, get_uint64, get_uint32, get_uint16}
use ngtcp.Conv.Read.{get_be_lem, peek_lem}
use ngtcp.Pkt.Hd.{
  long_type, decode_hd_long, pkt_num_len, short_conn_id, short_pkt_num, decode_hd_short, decode_hd,
}
use ngtcp.Pkt.Safety.Step.{InPayload}

hd_long_safe : (b : ℕ) (p : List ℕ) → InPayload (b ∷ p) (decode_hd_long (b ∷ p))
unfolding decode_hd_long long_type peek get_uint32 get_uint64
hd_long_safe b p = ground (
  arith,
  get_be_lem 4 0 (drop 8 p),
  get_be_lem 8 0 p,
  get_be_lem 4 0 (drop 12 p),
  length-drop 8 p,
  length-drop 12 p,
)

hd_short_safe : (b : ℕ) (p : List ℕ) → InPayload (b ∷ p) (decode_hd_short (b ∷ p))
unfolding decode_hd_short pkt_num_len short_conn_id short_pkt_num peek get_uint32 get_uint64
    get_uint16
hd_short_safe b p = ground (
  arith,
  peek_lem p,
  peek_lem (drop 8 p),
  get_be_lem 2 0 p,
  get_be_lem 2 0 (drop 8 p),
  get_be_lem 4 0 p,
  get_be_lem 4 0 (drop 8 p),
  get_be_lem 8 0 p,
  length-drop 8 p,
)

-- On any packet `decode_hd` reads no byte outside the packet: it answers an error code, or a
-- header with its length, which is positive and at most the packet's.
pub decode_hd_safe : (pkt : List ℕ) → InPayload pkt (decode_hd pkt)
unfolding decode_hd
decode_hd_safe [] = tt
decode_hd_safe (b ∷ p) = elim (Bool-cases (has_bit b 0x80)) [
  | inl e ↦ rw e (hd_long_safe b p)
  | inr e ↦ rw e (hd_short_safe b p)
]
