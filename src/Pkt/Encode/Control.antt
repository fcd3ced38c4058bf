-- ===== src/Pkt/Encode/Control.antt =====
-- lib/ngtcp2_pkt.c: the encoders of the control frames. Each returns the bytes that it writes from
-- `out` on; their number is the C function's result.
use ngtcp.Base.{length, take, replicate, Result, ok, ◌>>=◌, ◌>>◌, ℕ, ◌+◌, ◌%◌, List, ◌∷◌, ◌++◌}
use ngtcp.Conv.{put_uint16be, put_uint64be, put_varint, put_varint_len}
use ngtcp.Pkt.Cursor.{check_out, encoded}
use ngtcp.Pkt.Frame.{
  Padding, RstStream, ConnectionClose, ApplicationClose, MaxData, MaxStreamData, MaxStreamId, Ping,
  Blocked, StreamBlocked, StreamIdBlocked, NewConnectionId, StopSending, Pong,
}

-- `memset(out, 0, fr->len)`
unfoldable pub encode_padding_frame : ℕ → Padding → Result (List ℕ)
encode_padding_frame outlen fr = do check_out outlen fr.len; ok (replicate fr.len 0)

unfoldable pub encode_rst_stream_frame : ℕ → RstStream → Result (List ℕ)
encode_rst_stream_frame outlen fr = do
  n0 ← put_varint_len fr.stream_id
  n1 ← put_varint_len fr.final_offset
  let len = 1 + n0 + 2 + n1
  check_out outlen len
  p0 ← put_varint fr.stream_id
  p1 ← put_varint fr.final_offset
  encoded len (0x01 ∷ p0 ++ (put_uint16be fr.app_error_code ++ p1))

unfoldable pub encode_connection_close_frame : ℕ → ConnectionClose → Result (List ℕ)
encode_connection_close_frame outlen fr = do
  n0 ← put_varint_len (length fr.reason)
  let len = 1 + 2 + n0 + length fr.reason
  check_out outlen len
  p0 ← put_varint (length fr.reason)
  encoded len (0x02 ∷ (put_uint16be fr.error_code ++ (p0 ++ fr.reason)))

unfoldable pub encode_application_close_frame : ℕ → ApplicationClose → Result (List ℕ)
encode_application_close_frame outlen fr = do
  n0 ← put_varint_len (length fr.reason)
  let len = 1 + 2 + n0 + length fr.reason
  check_out outlen len
  p0 ← put_varint (length fr.reason)
  encoded len (0x03 ∷ (put_uint16be fr.app_error_code ++ (p0 ++ fr.reason)))

unfoldable pub encode_max_data_frame : ℕ → MaxData → Result (List ℕ)
encode_max_data_frame outlen fr = do
  n0 ← put_varint_len fr.max_data
  let len = 1 + n0
  check_out outlen len
  p0 ← put_varint fr.max_data
  encoded len (0x04 ∷ p0)

unfoldable pub encode_max_stream_data_frame : ℕ → MaxStreamData → Result (List ℕ)
encode_max_stream_data_frame outlen fr = do
  n0 ← put_varint_len fr.stream_id
  n1 ← put_varint_len fr.max_stream_data
  let len = 1 + n0 + n1
  check_out outlen len
  p0 ← put_varint fr.stream_id
  p1 ← put_varint fr.max_stream_data
  encoded len (0x05 ∷ p0 ++ p1)

unfoldable pub encode_max_stream_id_frame : ℕ → MaxStreamId → Result (List ℕ)
encode_max_stream_id_frame outlen fr = do
  n0 ← put_varint_len fr.max_stream_id
  let len = 1 + n0
  check_out outlen len
  p0 ← put_varint fr.max_stream_id
  encoded len (0x06 ∷ p0)

-- `(uint8_t)` cuts the length.
unfoldable pub encode_ping_frame : ℕ → Ping → Result (List ℕ)
encode_ping_frame outlen fr = do
  let len = 1 + 1 + length fr.content
  check_out outlen len
  encoded len (0x07 ∷ ((length fr.content % 256) ∷ fr.content))

unfoldable pub encode_blocked_frame : ℕ → Blocked → Result (List ℕ)
encode_blocked_frame outlen fr = do
  n0 ← put_varint_len fr.offset
  let len = 1 + n0
  check_out outlen len
  p0 ← put_varint fr.offset
  encoded len (0x08 ∷ p0)

unfoldable pub encode_stream_blocked_frame : ℕ → StreamBlocked → Result (List ℕ)
encode_stream_blocked_frame outlen fr = do
  n0 ← put_varint_len fr.stream_id
  n1 ← put_varint_len fr.offset
  let len = 1 + n0 + n1
  check_out outlen len
  p0 ← put_varint fr.stream_id
  p1 ← put_varint fr.offset
  encoded len (0x09 ∷ p0 ++ p1)

unfoldable pub encode_stream_id_blocked_frame : ℕ → StreamIdBlocked → Result (List ℕ)
encode_stream_id_blocked_frame outlen fr = do
  n0 ← put_varint_len fr.stream_id
  let len = 1 + n0
  check_out outlen len
  p0 ← put_varint fr.stream_id
  encoded len (0x0a ∷ p0)

-- `ngtcp2_cpymem` copies the 16 bytes of the token.
unfoldable pub encode_new_connection_id_frame : ℕ → NewConnectionId → Result (List ℕ)
encode_new_connection_id_frame outlen fr = do
  n0 ← put_varint_len fr.seq
  let len = 1 + n0 + 8 + 16
  check_out outlen len
  p0 ← put_varint fr.seq
  encoded len (0x0b ∷ p0 ++ (put_uint64be fr.conn_id ++ take 16 fr.stateless_reset_token))

unfoldable pub encode_stop_sending_frame : ℕ → StopSending → Result (List ℕ)
encode_stop_sending_frame outlen fr = do
  n0 ← put_varint_len fr.stream_id
  let len = 1 + n0 + 2
  check_out outlen len
  p0 ← put_varint fr.stream_id
  encoded len (0x0c ∷ p0 ++ put_uint16be fr.app_error_code)

unfoldable pub encode_pong_frame : ℕ → Pong → Result (List ℕ)
encode_pong_frame outlen fr = do
  let len = 1 + 1 + length fr.content
  check_out outlen len
  encoded len (0x0d ∷ ((length fr.content % 256) ∷ fr.content))
