-- ===== src/Pkt/Encode/Data.antt =====
-- lib/ngtcp2_pkt.c: the encoders of STREAM and ACK frames.
use ngtcp.Base.{
  ◌==◌, if◌then◌else◌, length, Result, ok, ◌>>=◌, ◌>>◌, ℕ, ◌+◌, bit_or, Bool, not, List, [], ◌∷◌,
  ◌++◌,
}
use ngtcp.Conv.{put_varint, put_varint_len}
use ngtcp.Pkt.Cursor.{check_out, encoded}
use ngtcp.Pkt.Frame.{Stream, AckBlk, Ack}

-- `flags`: the length bit, the bit for `fin`, and the bit for an offset that is not 0.
unfoldable pub flags_of : Bool → Bool → ℕ
flags_of fin has_offset =
    bit_or (if fin then bit_or 0x02 0x01 else 0x02) (if has_offset then 0x04 else 0x00)

unfoldable pub stream_flags : Stream → ℕ
stream_flags fr = flags_of fr.fin (not (fr.offset == 0))

-- `if (fr->offset)` guards the offset's length and its bytes.
unfoldable pub offset_len : ℕ → Result ℕ
offset_len offset = if offset == 0 then ok 0 else put_varint_len offset

unfoldable pub put_offset : ℕ → Result (List ℕ)
put_offset offset = if offset == 0 then ok [] else put_varint offset

-- The bytes, and the frame with its `flags` set.
unfoldable pub encode_stream_frame : ℕ → Stream → Result (List ℕ × Stream)
encode_stream_frame outlen fr = do
  n0 ← offset_len fr.offset
  n1 ← put_varint_len fr.stream_id
  n2 ← put_varint_len (length fr.content)
  let len = 1 + n0 + n1 + n2 + length fr.content
  check_out outlen len
  p0 ← put_varint fr.stream_id
  p1 ← put_offset fr.offset
  p2 ← put_varint (length fr.content)
  out ← encoded len (bit_or (stream_flags fr) 0x10 ∷ (p0 ++ (p1 ++ (p2 ++ fr.content))))
  ok (out, record fr { flags = stream_flags fr })

-- The loop that adds up the lengths of the blocks.
unfoldable pub blks_len : List AckBlk → Result ℕ
blks_len [] = ok 0
blks_len (blk ∷ blks) = do
  n0 ← put_varint_len blk.gap
  n1 ← put_varint_len blk.blklen
  n ← blks_len blks
  ok (n0 + n1 + n)

-- The loop that writes them.
unfoldable pub put_blks : List AckBlk → Result (List ℕ)
put_blks [] = ok []
put_blks (blk ∷ blks) = do
  p0 ← put_varint blk.gap
  p1 ← put_varint blk.blklen
  p ← put_blks blks
  ok (p0 ++ (p1 ++ p))

unfoldable pub encode_ack_frame : ℕ → Ack → Result (List ℕ)
encode_ack_frame outlen fr = do
  n0 ← put_varint_len fr.largest_ack
  n1 ← put_varint_len fr.ack_delay
  n2 ← put_varint_len (length fr.blks)
  n3 ← put_varint_len fr.first_ack_blklen
  n ← blks_len fr.blks
  let len = 1 + n0 + n1 + n2 + n3 + n
  check_out outlen len
  p0 ← put_varint fr.largest_ack
  p1 ← put_varint fr.ack_delay
  p2 ← put_varint (length fr.blks)
  p3 ← put_varint fr.first_ack_blklen
  p ← put_blks fr.blks
  encoded len (0x0e ∷ (p0 ++ (p1 ++ (p2 ++ (p3 ++ p)))))
