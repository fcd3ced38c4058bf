-- ===== src/Pkt/Safety/Data.antt =====
-- The decoders of STREAM and ACK frames stay inside the payload.
use ngtcp.Pkt.Cursor.{decoded, has_bit}
use ngtcp.Base.{
  length, drop, length-drop, ℕ, ◌+◌, ◌-◌, ◌^◌, ◌≤◌, ◌<◌, Bool, true, false, List, [], ◌∷◌, arith,
}
use ngtcp.Conv.{peek}
use ngtcp.Conv.Read.{IsBytes, drop-IsBytes, vlen, varint_value, next, varint_value_lt}
use ngtcp.Pkt.Cursor.{decoded, has_bit}
use ngtcp.Pkt.Decode.Data.{
  skip_offset, skip_content, take_offset, take_content, decode_stream_fields, decode_stream_frame,
}
use ngtcp.Pkt.Safety.Step.{skip_varint_lem, take_bytes_lem, varint_at, InPayload}

fields_safe :
    (has_offset has_len : Bool) (type : ℕ) (payload : List ℕ)
    → 2 ≤ length payload
    → IsBytes payload
    → length payload < 2 ^ 63
    → InPayload payload (decode_stream_fields has_offset has_len type payload)
unfolding decode_stream_fields decoded skip_offset skip_content take_offset take_content
fields_safe false false type payload two h small =
    let p = drop 1 payload in
    ground (arith, length-drop 1 payload, skip_varint_lem (length payload) 2 p, varint_at p)
fields_safe true false type payload two h small =
    let p = drop 1 payload in
    ground (
      arith,
      length-drop 1 payload,
      skip_varint_lem (length payload) 2 p,
      skip_varint_lem (length payload) (2 + vlen p - 1 + 1) (next p),
      varint_at p,
      varint_at (next p),
    )
fields_safe false true type payload two h small =
    let p = drop 1 payload in
    let q = next p in
    ground (
      arith,
      length-drop 1 payload,
      skip_varint_lem (length payload) 2 p,
      skip_varint_lem (length payload) (2 + vlen p - 1 + 1) q,
      varint_at p,
      varint_at q,
      varint_value_lt q (drop-IsBytes (vlen p) p (drop-IsBytes 1 payload h)),
      take_bytes_lem (varint_value q) (next q),
      length-drop (varint_value q) (next q),
    )
fields_safe true true type payload two h small =
    let p = drop 1 payload in
    let o = next p in
    let q = next o in
    ground (
      arith,
      length-drop 1 payload,
      skip_varint_lem (length payload) 2 p,
      skip_varint_lem (length payload) (2 + vlen p - 1 + 1) o,
      skip_varint_lem (length payload) (2 + vlen p - 1 + 1 + vlen o - 1 + 1) q,
      varint_at p,
      varint_at o,
      varint_at q,
      varint_value_lt q
          (drop-IsBytes (vlen o) o (drop-IsBytes (vlen p) p (drop-IsBytes 1 payload h))),
      take_bytes_lem (varint_value q) (next q),
      length-drop (varint_value q) (next q),
    )

pub decode_stream_frame_safe :
    (payload : List ℕ)
    → IsBytes payload
    → length payload < 2 ^ 63
    → InPayload payload (decode_stream_frame payload)
unfolding decode_stream_frame peek
decode_stream_frame_safe [] h small = ground arith
decode_stream_frame_safe (type ∷ p) h small =
    ground (arith, fields_safe (has_bit type 0x04) (has_bit type 0x02) type (type ∷ p))
