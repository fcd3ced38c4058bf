-- ===== src/Pkt/Hd.antt =====
-- lib/ngtcp2_pkt.c: packet headers.
pub mod RoundTrip
pub mod Short
pub mod Safety
use ngtcp.Base.{
  leb, ◌==◌, if◌then◌else◌, length, drop, LibError, invalid_argument, unknown_pkt_type, Result, ok,
  err, fault, ◌>>=◌, ◌>>◌, guard, ℕ, ◌+◌, ◌%◌, bit_and, bit_or, Bool, true, false, not, ◌||◌, List,
  [], ◌∷◌, ◌++◌,
}
use ngtcp.Conv.{peek, get_uint64, get_uint32, get_uint16, put_uint16be, put_uint32be, put_uint64be}
use ngtcp.Pkt.Cursor.{check_out, encoded, has_bit}

-- `ngtcp2_pkt_hd`
pub record PktHd : Type 0 where
  pub flags : ℕ
  pub type : ℕ
  pub conn_id : ℕ
  pub pkt_num : ℕ
  pub version : ℕ

unfoldable pub pkt_hd_init : ℕ → ℕ → ℕ → ℕ → ℕ → PktHd
pkt_hd_init flags type conn_id pkt_num version = record {
  flags = flags;
  type = type;
  conn_id = conn_id;
  pkt_num = pkt_num;
  version = version;
}

-- The `switch` on the type of a long header: 0 is NGTCP2_PKT_VERSION_NEGOTIATION.
unfoldable pub long_type : ℕ → ℕ → Result ℕ
long_type type version =
    if type == 0x7f || type == 0x7e || type == 0x7d || type == 0x7c
    then ok type
    else if version == 0
    then ok 0
    else err unknown_pkt_type

-- The header and the number of bytes that it takes.
unfoldable pub decode_hd_long : List ℕ → Result (PktHd × ℕ)
decode_hd_long pkt = do
  guard (leb 17 (length pkt)) invalid_argument
  b ← peek pkt
  guard (has_bit b 0x80) invalid_argument
  version ← get_uint32 (drop 9 pkt)
  type ← long_type (bit_and b 0x7f) version
  conn_id ← get_uint64 (drop 1 pkt)
  pkt_num ← get_uint32 (drop 13 pkt)
  ok (pkt_hd_init 0x01 type conn_id pkt_num version, 17)

-- The length of the packet number by the type of a short header.
unfoldable pub pkt_num_len : ℕ → LibError → Result ℕ
pkt_num_len type e =
    if type == 0x1f
    then ok 1
    else if type == 0x1e
    then ok 2
    else if type == 0x1d
    then ok 4
    else err e

-- `NGTCP2_PKT_FLAG_OMIT_CONN_ID` and `NGTCP2_PKT_FLAG_KEY_PHASE`
unfoldable pub short_flags : Bool → Bool → ℕ
short_flags omit_conn_id key_phase =
    bit_or (if omit_conn_id then 0x02 else 0x00) (if key_phase then 0x04 else 0x00)

-- The connection ID, if there is one, and what follows it.
unfoldable pub short_conn_id : Bool → List ℕ → Result (ℕ × List ℕ)
short_conn_id true p = ok (0, p)
short_conn_id false p = do conn_id ← get_uint64 p; ok (conn_id, drop 8 p)

-- The last `switch`: one byte, or two or four in network byte order.
unfoldable pub short_pkt_num : ℕ → List ℕ → Result ℕ
short_pkt_num type p =
    if type == 0x1f then peek p else if type == 0x1e then get_uint16 p else get_uint32 p

unfoldable pub decode_hd_short : List ℕ → Result (PktHd × ℕ)
decode_hd_short pkt = do
  b ← peek pkt
  guard (not (has_bit b 0x80)) invalid_argument
  let omit = has_bit b 0x40
  let type = bit_and b 0x1f
  n ← pkt_num_len type unknown_pkt_type
  let len = (if omit then 1 else 1 + 8) + n
  guard (leb len (length pkt)) invalid_argument
  (conn_id, p) ← short_conn_id omit (drop 1 pkt)
  pkt_num ← short_pkt_num type p
  ok (pkt_hd_init (short_flags omit (has_bit b 0x20)) type conn_id pkt_num 0, len)

unfoldable pub decode_hd : List ℕ → Result (PktHd × ℕ)
decode_hd [] = err invalid_argument
decode_hd (b ∷ p) = if has_bit b 0x80 then decode_hd_long (b ∷ p) else decode_hd_short (b ∷ p)

-- The bytes that are written from `out` on. `(uint32_t)` cuts the packet number.
unfoldable pub encode_hd_long : ℕ → PktHd → Result (List ℕ)
encode_hd_long outlen hd = do
  check_out outlen 17
  encoded 17 (
      bit_or 0x80 hd.type
      ∷ (put_uint64be hd.conn_id
          ++ (put_uint32be hd.version ++ put_uint32be (hd.pkt_num % 4294967296))))

unfoldable pub put_short_pkt_num : ℕ → ℕ → Result (List ℕ)
put_short_pkt_num type pkt_num =
    if type == 0x1f
    then ok ((pkt_num % 256) ∷ [])
    else if type == 0x1e
    then ok (put_uint16be (pkt_num % 65536))
    else if type == 0x1d
    then ok (put_uint32be (pkt_num % 4294967296))
    else fault

-- The first byte: the type, and the bits for a connection ID left out and for the key phase.
unfoldable pub short_first : ℕ → Bool → Bool → ℕ
short_first type omit key_phase =
    let b = if omit then bit_or type 0x40 else type in if key_phase then bit_or b 0x20 else b

unfoldable pub encode_hd_short : ℕ → PktHd → Result (List ℕ)
encode_hd_short outlen hd = do
  let omit = has_bit hd.flags 0x02
  n ← pkt_num_len hd.type invalid_argument
  let len = (if omit then 1 else 1 + 8) + n
  check_out outlen len
  p ← put_short_pkt_num hd.type hd.pkt_num
  encoded len (
      short_first hd.type omit (has_bit hd.flags 0x04)
      ∷ ((if omit then [] else put_uint64be hd.conn_id) ++ p))
