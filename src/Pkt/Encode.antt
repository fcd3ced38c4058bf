-- ===== src/Pkt/Encode.antt =====
-- lib/ngtcp2_pkt.c: `ngtcp2_pkt_encode_frame` chooses the encoder by the type. Its `default` is
-- for a tag that no frame has.
pub mod Control
pub mod Data
use ngtcp.Base.{Result, ok, ◌>>=◌, ◌>>◌, ℕ, List}
use ngtcp.Pkt.Frame.{
  Frame, stream, ack, padding, rst_stream, connection_close, application_close, max_data,
  max_stream_data, max_stream_id, ping, blocked, stream_blocked, stream_id_blocked,
  new_connection_id, stop_sending, pong,
}
use Control.{
  encode_padding_frame, encode_rst_stream_frame, encode_connection_close_frame,
  encode_application_close_frame, encode_max_data_frame, encode_max_stream_data_frame,
  encode_max_stream_id_frame, encode_ping_frame, encode_blocked_frame, encode_stream_blocked_frame,
  encode_stream_id_blocked_frame, encode_new_connection_id_frame, encode_stop_sending_frame,
  encode_pong_frame,
}
use Data.{encode_stream_frame, encode_ack_frame}

-- An encoder that leaves its frame as it is.
abbrev pub kept : Frame → Result (List ℕ) → Result (List ℕ × Frame)
kept fr r = do out ← r; ok (out, fr)

unfoldable pub encode_frame : ℕ → Frame → Result (List ℕ × Frame)
encode_frame outlen (stream fr) = do
  (out, fr') ← encode_stream_frame outlen fr
  ok (out, stream fr')
encode_frame outlen (ack fr) = kept (ack fr) (encode_ack_frame outlen fr)
encode_frame outlen (padding fr) = kept (padding fr) (encode_padding_frame outlen fr)
encode_frame outlen (rst_stream fr) = kept (rst_stream fr) (encode_rst_stream_frame outlen fr)
encode_frame outlen (connection_close fr) =
    kept (connection_close fr) (encode_connection_close_frame outlen fr)
encode_frame outlen (application_close fr) =
    kept (application_close fr) (encode_application_close_frame outlen fr)
encode_frame outlen (max_data fr) = kept (max_data fr) (encode_max_data_frame outlen fr)
encode_frame outlen (max_stream_data fr) =
    kept (max_stream_data fr) (encode_max_stream_data_frame outlen fr)
encode_frame outlen (max_stream_id fr) =
    kept (max_stream_id fr) (encode_max_stream_id_frame outlen fr)
encode_frame outlen (ping fr) = kept (ping fr) (encode_ping_frame outlen fr)
encode_frame outlen (blocked fr) = kept (blocked fr) (encode_blocked_frame outlen fr)
encode_frame outlen (stream_blocked fr) =
    kept (stream_blocked fr) (encode_stream_blocked_frame outlen fr)
encode_frame outlen (stream_id_blocked fr) =
    kept (stream_id_blocked fr) (encode_stream_id_blocked_frame outlen fr)
encode_frame outlen (new_connection_id fr) =
    kept (new_connection_id fr) (encode_new_connection_id_frame outlen fr)
encode_frame outlen (stop_sending fr) = kept (stop_sending fr) (encode_stop_sending_frame outlen fr)
encode_frame outlen (pong fr) = kept (pong fr) (encode_pong_frame outlen fr)
