-- ===== src/Pkt/RoundTrip/Control.antt =====
-- The control frames: what the encoder writes into a buffer that is long enough, and that the
-- decoder reads the frame back, whatever follows it.
use ngtcp.Base.{
  length, length-append, drop-append, take-append, suc, ◌+◌, ◌-◌, ◌<◌, refl, ◌∷◌, ◌++◌,
  append_assoc, arith,
}
use ngtcp.Conv.{peek}
use ngtcp.Conv.RoundTrip.{varint_size, varint, IsVarint}
use ngtcp.Pkt.Cursor.{take_bytes, decoded, encoded}
use ngtcp.Pkt.Frame.{
  MaxData, MaxStreamData, MaxStreamId, Ping, Blocked, StreamBlocked, StreamIdBlocked, Pong,
}
use ngtcp.Pkt.Encode.Control.{
  encode_max_data_frame, encode_max_stream_data_frame, encode_max_stream_id_frame,
  encode_ping_frame, encode_blocked_frame, encode_stream_blocked_frame,
  encode_stream_id_blocked_frame, encode_pong_frame,
}
use ngtcp.Pkt.Decode.Control.{
  decode_max_data_frame, decode_max_stream_data_frame, decode_max_stream_id_frame,
  decode_ping_frame, decode_blocked_frame, decode_stream_blocked_frame,
  decode_stream_id_blocked_frame, decode_pong_frame,
}
use ngtcp.Pkt.RoundTrip.Step.{skip_varint-varint, take_varint-varint, written, Written}

pub max_data-Written :
    (fr : MaxData)
    → IsVarint fr.max_data
    → Written encode_max_data_frame decode_max_data_frame fr (0x04 ∷ varint fr.max_data)
unfolding encode_max_data_frame decode_max_data_frame encoded decoded
max_data-Written fr h = (
  λ outlen. ground (arith, written fr.max_data h),
  λ rest. ground (
    arith,
    written fr.max_data h,
    length-append (varint fr.max_data) rest,
    skip_varint-varint (suc (length (varint fr.max_data ++ rest))) 2 fr.max_data rest h,
    take_varint-varint fr.max_data rest h,
  ),
)

pub max_stream_id-Written :
    (fr : MaxStreamId)
    → IsVarint fr.max_stream_id
    → Written encode_max_stream_id_frame decode_max_stream_id_frame fr
        (0x06 ∷ varint fr.max_stream_id)
unfolding encode_max_stream_id_frame decode_max_stream_id_frame encoded decoded
max_stream_id-Written fr h = (
  λ outlen. ground (arith, written fr.max_stream_id h),
  λ rest. ground (
    arith,
    written fr.max_stream_id h,
    length-append (varint fr.max_stream_id) rest,
    skip_varint-varint (suc (length (varint fr.max_stream_id ++ rest))) 2 fr.max_stream_id rest h,
    take_varint-varint fr.max_stream_id rest h,
  ),
)

pub blocked-Written :
    (fr : Blocked)
    → IsVarint fr.offset
    → Written encode_blocked_frame decode_blocked_frame fr (0x08 ∷ varint fr.offset)
unfolding encode_blocked_frame decode_blocked_frame encoded decoded
blocked-Written fr h = (
  λ outlen. ground (arith, written fr.offset h),
  λ rest. ground (
    arith,
    written fr.offset h,
    length-append (varint fr.offset) rest,
    skip_varint-varint (suc (length (varint fr.offset ++ rest))) 2 fr.offset rest h,
    take_varint-varint fr.offset rest h,
  ),
)

pub stream_id_blocked-Written :
    (fr : StreamIdBlocked)
    → IsVarint fr.stream_id
    → Written encode_stream_id_blocked_frame decode_stream_id_blocked_frame fr
        (0x0a ∷ varint fr.stream_id)
unfolding encode_stream_id_blocked_frame decode_stream_id_blocked_frame encoded decoded
stream_id_blocked-Written fr h = (
  λ outlen. ground (arith, written fr.stream_id h),
  λ rest. ground (
    arith,
    written fr.stream_id h,
    length-append (varint fr.stream_id) rest,
    skip_varint-varint (suc (length (varint fr.stream_id ++ rest))) 2 fr.stream_id rest h,
    take_varint-varint fr.stream_id rest h,
  ),
)

pub max_stream_data-Written :
    (fr : MaxStreamData)
    → IsVarint fr.stream_id
    → IsVarint fr.max_stream_data
    → Written encode_max_stream_data_frame decode_max_stream_data_frame fr
        (0x05 ∷ (varint fr.stream_id ++ varint fr.max_stream_data))
unfolding encode_max_stream_data_frame decode_max_stream_data_frame encoded decoded
max_stream_data-Written fr h k =
    let a = fr.stream_id in
    let b = fr.max_stream_data in
    (
      λ outlen. ground (arith, written a h, written b k, length-append (varint a) (varint b)),
      λ rest.
          let q = varint b ++ rest in
          rw append_assoc (
            ground (
              arith,
              written a h,
              written b k,
              length-append (varint a) (varint b),
              length-append (varint a) q,
              length-append (varint b) rest,
              skip_varint-varint (suc (length (varint a ++ q))) 3 a q h,
              skip_varint-varint (suc (length (varint a ++ q))) (3 + varint_size a - 1) b rest k,
              take_varint-varint a q h,
              take_varint-varint b rest k,
            )),
    )

pub stream_blocked-Written :
    (fr : StreamBlocked)
    → IsVarint fr.stream_id
    → IsVarint fr.offset
    → Written encode_stream_blocked_frame decode_stream_blocked_frame fr
        (0x09 ∷ (varint fr.stream_id ++ varint fr.offset))
unfolding encode_stream_blocked_frame decode_stream_blocked_frame encoded decoded
stream_blocked-Written fr h k =
    let a = fr.stream_id in
    let b = fr.offset in
    (
      λ outlen. ground (arith, written a h, written b k, length-append (varint a) (varint b)),
      λ rest.
          let q = varint b ++ rest in
          rw append_assoc (
            ground (
              arith,
              written a h,
              written b k,
              length-append (varint a) (varint b),
              length-append (varint a) q,
              length-append (varint b) rest,
              skip_varint-varint (suc (length (varint a ++ q))) 3 a q h,
              skip_varint-varint (suc (length (varint a ++ q))) (3 + varint_size a - 1) b rest k,
              take_varint-varint a q h,
              take_varint-varint b rest k,
            )),
    )

pub ping-Written :
    (fr : Ping)
    → length fr.content < 256
    → Written encode_ping_frame decode_ping_frame fr (0x07 ∷ length fr.content ∷ fr.content)
unfolding encode_ping_frame decode_ping_frame encoded decoded peek take_bytes
ping-Written fr h =
    let n = length fr.content in
    (
      λ outlen. ground arith,
      λ rest. ground (
        arith,
        length-append fr.content rest,
        take-append n fr.content rest refl,
        drop-append n fr.content rest refl,
      ),
    )

pub pong-Written :
    (fr : Pong)
    → length fr.content < 256
    → Written encode_pong_frame decode_pong_frame fr (0x0d ∷ length fr.content ∷ fr.content)
unfolding encode_pong_frame decode_pong_frame encoded decoded peek take_bytes
pong-Written fr h =
    let n = length fr.content in
    (
      λ outlen. ground arith,
      λ rest. ground (
        arith,
        length-append fr.content rest,
        take-append n fr.content rest refl,
        drop-append n fr.content rest refl,
      ),
    )
