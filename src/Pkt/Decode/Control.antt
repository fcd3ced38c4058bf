-- ===== src/Pkt/Decode/Control.antt =====
-- lib/ngtcp2_pkt.c: the decoders of the control frames. Each returns the frame and the number of
-- bytes read.
use ngtcp.Base.{
  ltb, ◌==◌, if◌then◌else◌, length, drop, Result, ok, ◌>>=◌, ◌>>◌, assert, ℕ, ◌+◌, ◌-◌, ◌%◌, List,
  [], ◌∷◌,
}
use ngtcp.Conv.{peek, get_uint64, get_varint}
use ngtcp.Pkt.Cursor.{add_size, check, skip_varint, take_varint, take_uint16, take_bytes, decoded}
use ngtcp.Pkt.Frame.{
  Padding, RstStream, ConnectionClose, ApplicationClose, MaxData, MaxStreamData, MaxStreamId, Ping,
  Blocked, StreamBlocked, StreamIdBlocked, NewConnectionId, StopSending, Pong,
}

-- `for (; p != ep && *p == NGTCP2_FRAME_PADDING; ++p);`
unfoldable pub zero_run : List ℕ → List ℕ
zero_run [] = []
zero_run (b ∷ p) = if b == 0 then zero_run p else b ∷ p

unfoldable pub decode_padding_frame : List ℕ → Result (Padding × ℕ)
decode_padding_frame payload = do
  assert (ltb 0 (length payload))
  let p = zero_run (drop 1 payload)
  let n = length payload - length p
  ok (record { len = n }, n)

unfoldable pub decode_rst_stream_frame : List ℕ → Result (RstStream × ℕ)
decode_rst_stream_frame payload = do
  let payloadlen = length payload
  check payloadlen 5
  (len, p) ← skip_varint payloadlen 5 (drop 1 payload)
  (len, p) ← skip_varint payloadlen len (drop 2 p)
  (stream_id, p) ← take_varint (drop 1 payload)
  (app_error_code, p) ← take_uint16 p
  (final_offset, p) ← take_varint p
  decoded payload p len (record {
    stream_id = stream_id;
    app_error_code = app_error_code;
    final_offset = final_offset;
  })

-- The two close frames differ in their tag and in the name of the code.
unfoldable pub decode_close : List ℕ → Result ((ℕ × List ℕ) × ℕ)
decode_close payload = do
  let payloadlen = length payload
  check payloadlen 4
  (len, _) ← skip_varint payloadlen 4 (drop 3 payload)
  (reasonlen, n) ← get_varint (drop 3 payload)
  let len = add_size len reasonlen
  check payloadlen len
  (error_code, p) ← take_uint16 (drop 1 payload)
  (reason, p) ← take_bytes reasonlen (drop n p)
  decoded payload p len (error_code, reason)

unfoldable pub decode_connection_close_frame : List ℕ → Result (ConnectionClose × ℕ)
decode_connection_close_frame payload = do
  ((error_code, reason), len) ← decode_close payload
  ok (record { error_code = error_code; reason = reason }, len)

unfoldable pub decode_application_close_frame : List ℕ → Result (ApplicationClose × ℕ)
decode_application_close_frame payload = do
  ((error_code, reason), len) ← decode_close payload
  ok (record { app_error_code = error_code; reason = reason }, len)

unfoldable pub decode_max_data_frame : List ℕ → Result (MaxData × ℕ)
decode_max_data_frame payload = do
  let payloadlen = length payload
  check payloadlen 2
  (len, _) ← skip_varint payloadlen 2 (drop 1 payload)
  (v, p) ← take_varint (drop 1 payload)
  decoded payload p len (record { max_data = v })

unfoldable pub decode_max_stream_data_frame : List ℕ → Result (MaxStreamData × ℕ)
decode_max_stream_data_frame payload = do
  let payloadlen = length payload
  check payloadlen 3
  (len, p) ← skip_varint payloadlen 3 (drop 1 payload)
  (len, p) ← skip_varint payloadlen len p
  (stream_id, p) ← take_varint (drop 1 payload)
  (v, p) ← take_varint p
  decoded payload p len (record { stream_id = stream_id; max_stream_data = v })

unfoldable pub decode_max_stream_id_frame : List ℕ → Result (MaxStreamId × ℕ)
decode_max_stream_id_frame payload = do
  let payloadlen = length payload
  check payloadlen 2
  (len, _) ← skip_varint payloadlen 2 (drop 1 payload)
  (v, p) ← take_varint (drop 1 payload)
  decoded payload p len (record { max_stream_id = v })

unfoldable pub decode_ping_frame : List ℕ → Result (Ping × ℕ)
decode_ping_frame payload = do
  let payloadlen = length payload
  check payloadlen 2
  datalen ← peek (drop 1 payload)
  check payloadlen (2 + datalen)
  (content, p) ← take_bytes datalen (drop 2 payload)
  decoded payload p (2 + datalen) (record { content = content })

unfoldable pub decode_blocked_frame : List ℕ → Result (Blocked × ℕ)
decode_blocked_frame payload = do
  let payloadlen = length payload
  check payloadlen 2
  (len, _) ← skip_varint payloadlen 2 (drop 1 payload)
  (offset, p) ← take_varint (drop 1 payload)
  decoded payload p len (record { offset = offset })

unfoldable pub decode_stream_blocked_frame : List ℕ → Result (StreamBlocked × ℕ)
decode_stream_blocked_frame payload = do
  let payloadlen = length payload
  check payloadlen 3
  (len, p) ← skip_varint payloadlen 3 (drop 1 payload)
  (len, p) ← skip_varint payloadlen len p
  (stream_id, p) ← take_varint (drop 1 payload)
  (offset, p) ← take_varint p
  decoded payload p len (record { stream_id = stream_id; offset = offset })

unfoldable pub decode_stream_id_blocked_frame : List ℕ → Result (StreamIdBlocked × ℕ)
decode_stream_id_blocked_frame payload = do
  let payloadlen = length payload
  check payloadlen 2
  (len, _) ← skip_varint payloadlen 2 (drop 1 payload)
  (stream_id, p) ← take_varint (drop 1 payload)
  decoded payload p len (record { stream_id = stream_id })

-- `(uint16_t)` cuts the sequence number.
unfoldable pub decode_new_connection_id_frame : List ℕ → Result (NewConnectionId × ℕ)
decode_new_connection_id_frame payload = do
  let payloadlen = length payload
  check payloadlen 26
  (len, _) ← skip_varint payloadlen 26 (drop 1 payload)
  (seq, p) ← take_varint (drop 1 payload)
  conn_id ← get_uint64 p
  (token, p) ← take_bytes 16 (drop 8 p)
  decoded payload p len
      (record { seq = seq % 65536; conn_id = conn_id; stateless_reset_token = token })

unfoldable pub decode_stop_sending_frame : List ℕ → Result (StopSending × ℕ)
decode_stop_sending_frame payload = do
  let payloadlen = length payload
  check payloadlen 4
  (len, _) ← skip_varint payloadlen 4 (drop 1 payload)
  (stream_id, p) ← take_varint (drop 1 payload)
  (app_error_code, p) ← take_uint16 p
  decoded payload p len (record { stream_id = stream_id; app_error_code = app_error_code })

unfoldable pub decode_pong_frame : List ℕ → Result (Pong × ℕ)
decode_pong_frame payload = do
  let payloadlen = length payload
  check payloadlen 2
  datalen ← peek (drop 1 payload)
  check payloadlen (2 + datalen)
  (content, p) ← take_bytes datalen (drop 2 payload)
  decoded payload p (2 + datalen) (record { content = content })
