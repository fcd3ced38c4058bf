-- ===== src/Pkt/Decode.antt =====
-- lib/ngtcp2_pkt.c: `ngtcp2_pkt_decode_frame` chooses the decoder by the first byte.
pub mod Control
pub mod Data
use ngtcp.Base.{
  ◌==◌, if◌then◌else◌, frame_format, Result, ok, err, ◌>>=◌, ◌>>◌, ℕ, bit_and, Bool, Option, none,
  some, List, [], ◌∷◌,
}
use ngtcp.Pkt.Frame.{
  Frame, stream, ack, padding, rst_stream, connection_close, application_close, max_data,
  max_stream_data, max_stream_id, ping, blocked, stream_blocked, stream_id_blocked,
  new_connection_id, stop_sending, pong,
}
use Control.{
  decode_padding_frame, decode_rst_stream_frame, decode_connection_close_frame,
  decode_application_close_frame, decode_max_data_frame, decode_max_stream_data_frame,
  decode_max_stream_id_frame, decode_ping_frame, decode_blocked_frame, decode_stream_blocked_frame,
  decode_stream_id_blocked_frame, decode_new_connection_id_frame, decode_stop_sending_frame,
  decode_pong_frame,
}
use Data.{decode_stream_frame, decode_ack_frame}

unfoldable pub has_mask : ℕ → ℕ → Bool
has_mask b mask = bit_and b mask == mask

-- The decoded frame as a member of the union.
abbrev pub as_frame {ℓ} : {A : Type ℓ} → (A → Frame) → Result (A × ℕ) → Result (Frame × ℕ)
as_frame f r = do (fr, len) ← r; ok (f fr, len)

-- The `switch` on the type.
unfoldable pub decode_typed_frame : ℕ → List ℕ → Result (Frame × ℕ)
decode_typed_frame type payload =
    if type == 0x00
    then as_frame padding (decode_padding_frame payload)
    else if type == 0x01
    then as_frame rst_stream (decode_rst_stream_frame payload)
    else if type == 0x02
    then as_frame connection_close (decode_connection_close_frame payload)
    else if type == 0x03
    then as_frame application_close (decode_application_close_frame payload)
    else if type == 0x04
    then as_frame max_data (decode_max_data_frame payload)
    else if type == 0x05
    then as_frame max_stream_data (decode_max_stream_data_frame payload)
    else if type == 0x06
    then as_frame max_stream_id (decode_max_stream_id_frame payload)
    else if type == 0x07
    then as_frame ping (decode_ping_frame payload)
    else if type == 0x08
    then as_frame blocked (decode_blocked_frame payload)
    else if type == 0x09
    then as_frame stream_blocked (decode_stream_blocked_frame payload)
    else if type == 0x0a
    then as_frame stream_id_blocked (decode_stream_id_blocked_frame payload)
    else if type == 0x0b
    then as_frame new_connection_id (decode_new_connection_id_frame payload)
    else if type == 0x0c
    then as_frame stop_sending (decode_stop_sending_frame payload)
    else if type == 0x0d
    then as_frame pong (decode_pong_frame payload)
    else err frame_format

-- The choice between STREAM, ACK and the `switch`.
unfoldable pub decode_tagged_frame : ℕ → List ℕ → Result (Frame × ℕ)
decode_tagged_frame type rest =
    if has_mask type 0x10
    then as_frame stream (decode_stream_frame (type ∷ rest))
    else if has_mask type 0x0e
    then as_frame ack (decode_ack_frame (type ∷ rest))
    else decode_typed_frame type (type ∷ rest)

-- An empty payload holds no frame: 0 bytes are read.
unfoldable pub decode_frame : List ℕ → Result (Option Frame × ℕ)
decode_frame [] = ok (none, 0)
decode_frame (type ∷ rest) = do (fr, len) ← decode_tagged_frame type rest; ok (some fr, len)
