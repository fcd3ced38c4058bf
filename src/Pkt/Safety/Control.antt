-- ===== src/Pkt/Safety/Control.antt =====
-- The decoders of the control frames stay inside the payload.
use ngtcp.Base.{length, drop, length-drop, ℕ, ◌+◌, ◌-◌, ◌^◌, ◌≤◌, ◌<◌, List, [], ◌∷◌, arith}
use ngtcp.Conv.{peek, get_uint64}
use ngtcp.Conv.Read.{IsBytes, drop-IsBytes, get_be_lem, vlen, varint_value, next, varint_value_lt}
use ngtcp.Pkt.Cursor.{decoded}
use ngtcp.Pkt.Decode.Control.{
  zero_run, decode_padding_frame, decode_rst_stream_frame, decode_close,
  decode_connection_close_frame, decode_application_close_frame, decode_max_data_frame,
  decode_max_stream_data_frame, decode_max_stream_id_frame, decode_ping_frame, decode_blocked_frame,
  decode_stream_blocked_frame, decode_stream_id_blocked_frame, decode_new_connection_id_frame,
  decode_stop_sending_frame, decode_pong_frame,
}
use ngtcp.Pkt.Safety.Step.{skip_varint_lem, take_uint16_lem, take_bytes_lem, varint_at, InPayload}

pub decode_max_data_frame_safe :
    (payload : List ℕ) → InPayload payload (decode_max_data_frame payload)
unfolding decode_max_data_frame decoded
decode_max_data_frame_safe payload =
    let p = drop 1 payload in
    ground (arith, length-drop 1 payload, skip_varint_lem (length payload) 2 p, varint_at p)

pub decode_max_stream_id_frame_safe :
    (payload : List ℕ) → InPayload payload (decode_max_stream_id_frame payload)
unfolding decode_max_stream_id_frame decoded
decode_max_stream_id_frame_safe payload =
    let p = drop 1 payload in
    ground (arith, length-drop 1 payload, skip_varint_lem (length payload) 2 p, varint_at p)

pub decode_blocked_frame_safe :
    (payload : List ℕ) → InPayload payload (decode_blocked_frame payload)
unfolding decode_blocked_frame decoded
decode_blocked_frame_safe payload =
    let p = drop 1 payload in
    ground (arith, length-drop 1 payload, skip_varint_lem (length payload) 2 p, varint_at p)

pub decode_stream_id_blocked_frame_safe :
    (payload : List ℕ) → InPayload payload (decode_stream_id_blocked_frame payload)
unfolding decode_stream_id_blocked_frame decoded
decode_stream_id_blocked_frame_safe payload =
    let p = drop 1 payload in
    ground (arith, length-drop 1 payload, skip_varint_lem (length payload) 2 p, varint_at p)

pub decode_max_stream_data_frame_safe :
    (payload : List ℕ) → InPayload payload (decode_max_stream_data_frame payload)
unfolding decode_max_stream_data_frame decoded
decode_max_stream_data_frame_safe payload =
    let p = drop 1 payload in
    ground (
      arith,
      length-drop 1 payload,
      skip_varint_lem (length payload) 3 p,
      varint_at p,
      skip_varint_lem (length payload) (3 + vlen p - 1) (next p),
      varint_at (next p),
    )

pub decode_stream_blocked_frame_safe :
    (payload : List ℕ) → InPayload payload (decode_stream_blocked_frame payload)
unfolding decode_stream_blocked_frame decoded
decode_stream_blocked_frame_safe payload =
    let p = drop 1 payload in
    ground (
      arith,
      length-drop 1 payload,
      skip_varint_lem (length payload) 3 p,
      varint_at p,
      skip_varint_lem (length payload) (3 + vlen p - 1) (next p),
      varint_at (next p),
    )

pub decode_stop_sending_frame_safe :
    (payload : List ℕ) → InPayload payload (decode_stop_sending_frame payload)
unfolding decode_stop_sending_frame decoded
decode_stop_sending_frame_safe payload =
    let p = drop 1 payload in
    ground (
      arith,
      length-drop 1 payload,
      skip_varint_lem (length payload) 4 p,
      varint_at p,
      take_uint16_lem (next p),
      length-drop 2 (next p),
    )

pub decode_new_connection_id_frame_safe :
    (payload : List ℕ) → InPayload payload (decode_new_connection_id_frame payload)
unfolding decode_new_connection_id_frame decoded get_uint64
decode_new_connection_id_frame_safe payload =
    let p = drop 1 payload in
    ground (
      arith,
      length-drop 1 payload,
      skip_varint_lem (length payload) 26 p,
      varint_at p,
      get_be_lem 8 0 (next p),
      length-drop 8 (next p),
      take_bytes_lem 16 (drop 8 (next p)),
      length-drop 16 (drop 8 (next p)),
    )

pub decode_rst_stream_frame_safe :
    (payload : List ℕ) → InPayload payload (decode_rst_stream_frame payload)
unfolding decode_rst_stream_frame decoded
decode_rst_stream_frame_safe payload =
    let p = drop 1 payload in
    ground (
      arith,
      length-drop 1 payload,
      skip_varint_lem (length payload) 5 p,
      varint_at p,
      length-drop 2 (next p),
      skip_varint_lem (length payload) (5 + vlen p - 1) (drop 2 (next p)),
      take_uint16_lem (next p),
      varint_at (drop 2 (next p)),
    )

pub decode_ping_frame_safe : (payload : List ℕ) → InPayload payload (decode_ping_frame payload)
unfolding decode_ping_frame decoded peek
decode_ping_frame_safe [] = ground arith
decode_ping_frame_safe (type ∷ []) = ground arith
decode_ping_frame_safe (type ∷ datalen ∷ p) =
    ground (arith, take_bytes_lem datalen p, length-drop datalen p)

pub decode_pong_frame_safe : (payload : List ℕ) → InPayload payload (decode_pong_frame payload)
unfolding decode_pong_frame decoded peek
decode_pong_frame_safe [] = ground arith
decode_pong_frame_safe (type ∷ []) = ground arith
decode_pong_frame_safe (type ∷ datalen ∷ p) =
    ground (arith, take_bytes_lem datalen p, length-drop datalen p)

-- A length that the peer chose does not wrap.
decode_close_safe :
    (payload : List ℕ)
    → IsBytes payload
    → length payload < 2 ^ 63
    → InPayload payload (decode_close payload)
unfolding decode_close decoded
decode_close_safe payload h small =
    let p = drop 3 payload in
    let q = drop 2 (drop 1 payload) in
    ground (
      arith,
      length-drop 1 payload,
      length-drop 3 payload,
      skip_varint_lem (length payload) 4 p,
      varint_at p,
      varint_value_lt p (drop-IsBytes 3 payload h),
      take_uint16_lem (drop 1 payload),
      length-drop 2 (drop 1 payload),
      length-drop (vlen p) q,
      take_bytes_lem (varint_value p) (drop (vlen p) q),
      length-drop (varint_value p) (drop (vlen p) q),
    )

pub decode_connection_close_frame_safe :
    (payload : List ℕ)
    → IsBytes payload
    → length payload < 2 ^ 63
    → InPayload payload (decode_connection_close_frame payload)
unfolding decode_connection_close_frame
decode_connection_close_frame_safe payload h small =
    ground (arith, decode_close_safe payload h small)

pub decode_application_close_frame_safe :
    (payload : List ℕ)
    → IsBytes payload
    → length payload < 2 ^ 63
    → InPayload payload (decode_application_close_frame payload)
unfolding decode_application_close_frame
decode_application_close_frame_safe payload h small =
    ground (arith, decode_close_safe payload h small)

pub length-zero_run : (p : List ℕ) → length (zero_run p) ≤ length p
unfolding zero_run
length-zero_run [] = omega arith
length-zero_run (b ∷ p) = ground (arith, length-zero_run p)

pub decode_padding_frame_safe :
    (b : ℕ) (p : List ℕ) → InPayload (b ∷ p) (decode_padding_frame (b ∷ p))
unfolding decode_padding_frame
decode_padding_frame_safe b p = ground (arith, length-zero_run p)
