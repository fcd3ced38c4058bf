-- ===== src/Pkt/Decode/Data.antt =====
-- lib/ngtcp2_pkt.c: the decoders of STREAM and ACK frames.
use ngtcp.Base.{
  length, drop, Result, ok, ◌>>=◌, ◌>>◌, ℕ, zero, suc, ◌+◌, ◌-◌, ◌*◌, min, bit_and, Bool, true,
  false, List, [], ◌∷◌,
}
use ngtcp.Conv.{peek, get_varint_len, get_varint}
use ngtcp.Pkt.Cursor.{add_size, check, skip_varint, take_varint, take_bytes, decoded, has_bit}
use ngtcp.Pkt.Frame.{Stream, AckBlk, Ack}

-- The optional offset: `++len`, the check, and the varint.
unfoldable pub skip_offset : Bool → ℕ → ℕ → List ℕ → Result (ℕ × List ℕ)
skip_offset false payloadlen len p = ok (len, p)
skip_offset true payloadlen len p = do
  check payloadlen (len + 1)
  skip_varint payloadlen (len + 1) p

-- The optional length: as for the offset, and the data is added to `len`.
unfoldable pub skip_content : Bool → ℕ → ℕ → List ℕ → Result ℕ
skip_content false payloadlen len p = ok len
skip_content true payloadlen len p = do
  check payloadlen (len + 1)
  (len, _) ← skip_varint payloadlen (len + 1) p
  (datalen, _) ← get_varint p
  let len = add_size len datalen
  check payloadlen len
  ok len

unfoldable pub take_offset : Bool → List ℕ → Result (ℕ × List ℕ)
take_offset false p = ok (0, p)
take_offset true p = take_varint p

-- Without a length the data reaches to the end of the payload.
unfoldable pub take_content : Bool → List ℕ → List ℕ → ℕ → (List ℕ → Stream) → Result (Stream × ℕ)
take_content true payload p len fr = do
  (datalen, p) ← take_varint p
  (content, p) ← take_bytes datalen p
  decoded payload p len (fr content)
take_content false payload p len fr = ok (fr p, length payload)

-- The body behind the first check, with the two bits that steer it.
unfoldable pub decode_stream_fields : Bool → Bool → ℕ → List ℕ → Result (Stream × ℕ)
decode_stream_fields has_offset has_len type payload = do
  let payloadlen = length payload
  (len, p) ← skip_varint payloadlen 2 (drop 1 payload)
  (len, p) ← skip_offset has_offset payloadlen len p
  len ← skip_content has_len payloadlen len p
  (stream_id, p) ← take_varint (drop 1 payload)
  (offset, p) ← take_offset has_offset p
  take_content has_len payload p len (λ content. record {
    flags = bit_and type 0xef;
    fin = has_bit type 0x01;
    stream_id = stream_id;
    offset = offset;
    content = content;
  })

unfoldable pub decode_stream_frame : List ℕ → Result (Stream × ℕ)
decode_stream_frame payload = do
  check (length payload) 2
  type ← peek payload
  decode_stream_fields (has_bit type 0x04) (has_bit type 0x02) type payload

-- The loop over `i < num_blks` with its two rounds of `j`.
unfoldable pub skip_blks : ℕ → ℕ → ℕ → List ℕ → Result (ℕ × List ℕ)
skip_blks zero payloadlen len p = ok (len, p)
skip_blks (suc k) payloadlen len p = do
  (len, p) ← skip_varint payloadlen len p
  (len, p) ← skip_varint payloadlen len p
  skip_blks k payloadlen len p

-- The loop over `i < max_num_blks`.
unfoldable pub take_blks : ℕ → List ℕ → Result (List AckBlk × List ℕ)
take_blks zero p = ok ([], p)
take_blks (suc k) p = do
  (gap, p) ← take_varint p
  (blklen, p) ← take_varint p
  (blks, p) ← take_blks k p
  ok (record { gap = gap; blklen = blklen } ∷ blks, p)

-- `p += ngtcp2_get_varint_len(p);`
unfoldable pub pass_varint : List ℕ → Result (List ℕ)
pass_varint p = do n ← get_varint_len p; ok (drop n p)

-- The loop from `max_num_blks` to `num_blks`.
unfoldable pub pass_blks : ℕ → List ℕ → Result (List ℕ)
pass_blks zero p = ok p
pass_blks (suc k) p = do p ← pass_varint p; p ← pass_varint p; pass_blks k p

abbrev pub max_ack_blks : ℕ
max_ack_blks = 255

-- The first pass, up to `max_num_blks`: `num_blks` and `len`.
unfoldable pub scan_ack_frame : List ℕ → Result (ℕ × ℕ)
scan_ack_frame payload = do
  let payloadlen = length payload
  check payloadlen 5
  (len, p) ← skip_varint payloadlen 5 (drop 1 payload)
  (len, p) ← skip_varint payloadlen len p
  (len, q) ← skip_varint payloadlen len p
  (num_blks, _) ← get_varint p
  let len = add_size len (num_blks * 2)
  check payloadlen len
  (len, p) ← skip_varint payloadlen len q
  (len, _) ← skip_blks num_blks payloadlen len p
  ok (num_blks, len)

-- The second pass reads the fields; at most 255 blocks are kept.
unfoldable pub read_ack_frame : ℕ → ℕ → List ℕ → Result (Ack × ℕ)
read_ack_frame num_blks len payload = do
  let max_num_blks = min max_ack_blks num_blks
  (largest_ack, p) ← take_varint (drop 1 payload)
  (ack_delay, p) ← take_varint p
  p ← pass_varint p
  (first_ack_blklen, p) ← take_varint p
  (blks, p) ← take_blks max_num_blks p
  p ← pass_blks (num_blks - max_num_blks) p
  decoded payload p len (record {
    largest_ack = largest_ack;
    ack_delay = ack_delay;
    first_ack_blklen = first_ack_blklen;
    blks = blks;
  })

unfoldable pub decode_ack_frame : List ℕ → Result (Ack × ℕ)
decode_ack_frame payload = do
  (num_blks, len) ← scan_ack_frame payload
  read_ack_frame num_blks len payload
