-- ===== src/Pkt/RoundTrip.antt =====
-- What the encoders of lib/ngtcp2_pkt.c write, the decoders read back.
pub mod Step
pub mod Control
pub mod Fixed
pub mod Close
pub mod Data
pub mod Blocks
pub mod AckBlocks
use ngtcp.Pkt.Decode.Control.{decode_padding_frame}
use ngtcp.Pkt.Decode.Data.{decode_stream_frame}
use ngtcp.Base.{
  leb, ◌==◌, if◌then◌else◌, length, replicate, nobuf, Result, ok, err, ◌>>=◌, ℕ, zero, suc, ◌^◌,
  ◌<◌, ◌≡◌, refl, ◌∙◌, Bool, true, false, not, some, List, ◌∷◌, ◌++◌, arith,
}
use ngtcp.Conv.{put_uint16be, put_uint64be}
use ngtcp.Conv.RoundTrip.{varint, IsVarint}
use ngtcp.Pkt.Frame.{
  Frame, stream, ack, padding, rst_stream, connection_close, application_close, max_data,
  max_stream_data, max_stream_id, ping, blocked, stream_blocked, stream_id_blocked,
  new_connection_id, stop_sending, pong,
}
use ngtcp.Pkt.Encode.{kept, encode_frame}
use ngtcp.Pkt.Decode.{has_mask, as_frame, decode_typed_frame, decode_tagged_frame, decode_frame}
use Close.{close_bytes, connection_close-Written, application_close-Written}
use Control.{
  max_data-Written, max_stream_id-Written, blocked-Written, stream_id_blocked-Written,
  max_stream_data-Written, stream_blocked-Written, ping-Written, pong-Written,
}
use Fixed.{
  stop_sending-Written, rst_stream-Written, new_connection_id-Written, NoZeroFirst,
  encode_padding_written, decode_padding_written,
}
use Data.{
  stream_type, flagged, stream_bytes, encode_stream_written, decode_stream_written,
  stream_type_mask,
}
use AckBlocks.{ack_bytes, AckFits, encode_ack_written, decode_ack_written}

-- The frames whose fields fit the wire format: integers below 2 ^ 62, codes below 2 ^ 16, at most
-- 255 ACK blocks and 255 bytes of PING and PONG, a reset token of 16 bytes, some PADDING.
abbrev pub IsEncodable : Frame → Type 0
IsEncodable (stream fr) = IsVarint fr.stream_id × IsVarint fr.offset × (length fr.content < 2 ^ 61)
IsEncodable (ack fr) = AckFits fr
IsEncodable (padding fr) = 0 < fr.len
IsEncodable (rst_stream fr) =
    IsVarint fr.stream_id × (fr.app_error_code < 65536) × IsVarint fr.final_offset
IsEncodable (connection_close fr) = (fr.error_code < 65536) × (length fr.reason < 2 ^ 61)
IsEncodable (application_close fr) = (fr.app_error_code < 65536) × (length fr.reason < 2 ^ 61)
IsEncodable (max_data fr) = IsVarint fr.max_data
IsEncodable (max_stream_data fr) = IsVarint fr.stream_id × IsVarint fr.max_stream_data
IsEncodable (max_stream_id fr) = IsVarint fr.max_stream_id
IsEncodable (ping fr) = length fr.content < 256
IsEncodable (blocked fr) = IsVarint fr.offset
IsEncodable (stream_blocked fr) = IsVarint fr.stream_id × IsVarint fr.offset
IsEncodable (stream_id_blocked fr) = IsVarint fr.stream_id
IsEncodable (new_connection_id fr) =
    (fr.seq < 65536) × (fr.conn_id < 2 ^ 64) × (length fr.stateless_reset_token ≡ 16)
IsEncodable (stop_sending fr) = IsVarint fr.stream_id × (fr.app_error_code < 65536)
IsEncodable (pong fr) = length fr.content < 256

-- The bytes of a frame.
pub frame_bytes : Frame → List ℕ
frame_bytes (stream fr) = stream_bytes fr
frame_bytes (ack fr) = ack_bytes fr
frame_bytes (padding fr) = replicate fr.len 0
frame_bytes (rst_stream fr) =
    0x01 ∷ (varint fr.stream_id ++ (put_uint16be fr.app_error_code ++ varint fr.final_offset))
frame_bytes (connection_close fr) = close_bytes fr.error_code fr.reason 0x02
frame_bytes (application_close fr) = close_bytes fr.app_error_code fr.reason 0x03
frame_bytes (max_data fr) = 0x04 ∷ varint fr.max_data
frame_bytes (max_stream_data fr) = 0x05 ∷ (varint fr.stream_id ++ varint fr.max_stream_data)
frame_bytes (max_stream_id fr) = 0x06 ∷ varint fr.max_stream_id
frame_bytes (ping fr) = 0x07 ∷ length fr.content ∷ fr.content
frame_bytes (blocked fr) = 0x08 ∷ varint fr.offset
frame_bytes (stream_blocked fr) = 0x09 ∷ (varint fr.stream_id ++ varint fr.offset)
frame_bytes (stream_id_blocked fr) = 0x0a ∷ varint fr.stream_id
frame_bytes (new_connection_id fr) =
    0x0b ∷ (varint fr.seq ++ (put_uint64be fr.conn_id ++ fr.stateless_reset_token))
frame_bytes (stop_sending fr) = 0x0c ∷ (varint fr.stream_id ++ put_uint16be fr.app_error_code)
frame_bytes (pong fr) = 0x0d ∷ length fr.content ∷ fr.content

-- The frame as the encoder leaves it: only the flags of a STREAM frame are set.
pub encoded_frame : Frame → Frame
encoded_frame (stream fr) = stream (flagged fr)
encoded_frame (ack fr) = ack fr
encoded_frame fr = fr

-- A PADDING frame is read as far as the zeros go.
abbrev pub CanFollow : Frame → List ℕ → Type 0
CanFollow (padding fr) rest = NoZeroFirst rest
CanFollow fr rest = Unit {0}

kept_if :
    (fr : Frame) (r : Result (List ℕ)) (b : Bool) (out : List ℕ)
    → r ≡ (if b then ok out else err nobuf)
    → kept fr r ≡ (if b then ok (out, fr) else err nobuf)
kept_if fr r true out e = rw e
kept_if fr r false out e = rw e

encode_frame_written :
    (fr : Frame) (outlen : ℕ)
    → IsEncodable fr
    → encode_frame outlen fr ≡ (
        if leb (length (frame_bytes fr)) outlen
        then ok (frame_bytes fr, encoded_frame fr)
        else err nobuf)
unfolding encode_frame frame_bytes encoded_frame
encode_frame_written (stream fr) outlen h =
    ground (arith, encode_stream_written fr h.0 h.1 h.2 outlen)
encode_frame_written (ack fr) outlen h = kept_if (ack fr) _ _ _ (encode_ack_written fr h outlen)
encode_frame_written (padding fr) outlen h =
    kept_if (padding fr) _ _ _ (encode_padding_written fr outlen)
encode_frame_written (rst_stream fr) outlen h =
    kept_if (rst_stream fr) _ _ _ ((rst_stream-Written fr h.0 h.1 h.2).0 outlen)
encode_frame_written (connection_close fr) outlen h =
    kept_if (connection_close fr) _ _ _ ((connection_close-Written fr h.0 h.1).0 outlen)
encode_frame_written (application_close fr) outlen h =
    kept_if (application_close fr) _ _ _ ((application_close-Written fr h.0 h.1).0 outlen)
encode_frame_written (max_data fr) outlen h =
    kept_if (max_data fr) _ _ _ ((max_data-Written fr h).0 outlen)
encode_frame_written (max_stream_data fr) outlen h =
    kept_if (max_stream_data fr) _ _ _ ((max_stream_data-Written fr h.0 h.1).0 outlen)
encode_frame_written (max_stream_id fr) outlen h =
    kept_if (max_stream_id fr) _ _ _ ((max_stream_id-Written fr h).0 outlen)
encode_frame_written (ping fr) outlen h = kept_if (ping fr) _ _ _ ((ping-Written fr h).0 outlen)
encode_frame_written (blocked fr) outlen h =
    kept_if (blocked fr) _ _ _ ((blocked-Written fr h).0 outlen)
encode_frame_written (stream_blocked fr) outlen h =
    kept_if (stream_blocked fr) _ _ _ ((stream_blocked-Written fr h.0 h.1).0 outlen)
encode_frame_written (stream_id_blocked fr) outlen h =
    kept_if (stream_id_blocked fr) _ _ _ ((stream_id_blocked-Written fr h).0 outlen)
encode_frame_written (new_connection_id fr) outlen h =
    kept_if (new_connection_id fr) _ _ _ ((new_connection_id-Written fr h.0 h.1 h.2).0 outlen)
encode_frame_written (stop_sending fr) outlen h =
    kept_if (stop_sending fr) _ _ _ ((stop_sending-Written fr h.0 h.1).0 outlen)
encode_frame_written (pong fr) outlen h = kept_if (pong fr) _ _ _ ((pong-Written fr h).0 outlen)

decode_padding_tag :
    (n : ℕ) (rest : List ℕ)
    → 0 < n
    → decode_frame (replicate n 0 ++ rest) ≡ (
        as_frame padding (decode_padding_frame (replicate n 0 ++ rest)) >>= λ a. ok (some a.0, a.1))
unfolding decode_frame decode_tagged_frame decode_typed_frame has_mask
decode_padding_tag zero rest pos = absurd (omega arith)
decode_padding_tag (suc n) rest pos = refl

decode_stream_tag :
    (fin has_offset : Bool) (rest : List ℕ)
    → decode_frame (stream_type fin has_offset ∷ rest) ≡ (
        as_frame stream (decode_stream_frame (stream_type fin has_offset ∷ rest)) >>= λ a.
        ok (some a.0, a.1))
unfolding decode_frame decode_tagged_frame has_mask
decode_stream_tag fin has_offset rest = rw (stream_type_mask fin has_offset)

decode_frame_written :
    (fr : Frame) (rest : List ℕ)
    → IsEncodable fr
    → CanFollow fr rest
    → decode_frame (frame_bytes fr ++ rest) ≡ ok (some (encoded_frame fr), length (frame_bytes fr))
unfolding decode_frame decode_tagged_frame decode_typed_frame has_mask frame_bytes encoded_frame
    ack_bytes stream_bytes
decode_frame_written (stream fr) rest h k =
    decode_stream_tag fr.fin (not (fr.offset == 0)) _
    ∙ rw (decode_stream_written fr h.0 h.1 h.2 rest)
decode_frame_written (ack fr) rest h k = rw (decode_ack_written fr rest h)
decode_frame_written (padding fr) rest h k =
    rw (decode_padding_tag fr.len rest h, decode_padding_written fr rest h k)
decode_frame_written (rst_stream fr) rest h k = rw ((rst_stream-Written fr h.0 h.1 h.2).1 rest)
decode_frame_written (connection_close fr) rest h k =
    rw ((connection_close-Written fr h.0 h.1).1 rest)
decode_frame_written (application_close fr) rest h k =
    rw ((application_close-Written fr h.0 h.1).1 rest)
decode_frame_written (max_data fr) rest h k = rw ((max_data-Written fr h).1 rest)
decode_frame_written (max_stream_data fr) rest h k =
    rw ((max_stream_data-Written fr h.0 h.1).1 rest)
decode_frame_written (max_stream_id fr) rest h k = rw ((max_stream_id-Written fr h).1 rest)
decode_frame_written (ping fr) rest h k = rw ((ping-Written fr h).1 rest)
decode_frame_written (blocked fr) rest h k = rw ((blocked-Written fr h).1 rest)
decode_frame_written (stream_blocked fr) rest h k = rw ((stream_blocked-Written fr h.0 h.1).1 rest)
decode_frame_written (stream_id_blocked fr) rest h k = rw ((stream_id_blocked-Written fr h).1 rest)
decode_frame_written (new_connection_id fr) rest h k =
    rw ((new_connection_id-Written fr h.0 h.1 h.2).1 rest)
decode_frame_written (stop_sending fr) rest h k = rw ((stop_sending-Written fr h.0 h.1).1 rest)
decode_frame_written (pong fr) rest h k = rw ((pong-Written fr h).1 rest)

-- For a frame whose fields fit the wire format, the encoder writes the bytes of the frame if the
-- buffer holds them, and answers NGTCP2_ERR_NOBUF if it does not; and from these bytes the decoder
-- reads the frame back and counts just them, whatever payload follows (behind PADDING, one that does
-- not begin with a zero). Of a STREAM frame, `flags` is as the encoder sets it; everything else is
-- as it was.
pub decode_frame-encode_frame :
    (fr : Frame) (outlen : ℕ) (rest : List ℕ)
    → IsEncodable fr
    → CanFollow fr rest
    → (encode_frame outlen fr ≡ (
        if leb (length (frame_bytes fr)) outlen
        then ok (frame_bytes fr, encoded_frame fr)
        else err nobuf))
      × (decode_frame (frame_bytes fr ++ rest)
          ≡ ok (some (encoded_frame fr), length (frame_bytes fr)))
decode_frame-encode_frame fr outlen rest h k =
    (encode_frame_written fr outlen h, decode_frame_written fr rest h k)
