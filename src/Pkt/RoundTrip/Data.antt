-- ===== src/Pkt/RoundTrip/Data.antt =====
-- STREAM frames: what the encoder writes, and that the decoder reads it back.
use ngtcp.Pkt.Cursor.{take_bytes, decoded, encoded, has_bit}
use ngtcp.Conv.RoundTrip.{
  varint_size, varint, IsVarint, varint_size_bounds, length-varint, get_varint-varint,
}
use ngtcp.Conv.{peek}
use ngtcp.Base.{
  leb, ◌==◌, if◌then◌else◌, Bool-cases, length, length-append, drop-append, take-append, nobuf, ok,
  err, ℕ, suc, ◌+◌, ◌-◌, ◌^◌, ◌<◌, bit_and, bit_or, ◌≡◌, refl, inl, inr, Bool, true, false, not,
  List, [], ◌∷◌, ◌++◌, append_assoc, arith,
}
use ngtcp.Conv.RoundTrip.{
  varint_size, varint, IsVarint, varint_size_bounds, length-varint, get_varint-varint,
}
use ngtcp.Pkt.Cursor.{take_bytes, decoded, encoded, has_bit}
use ngtcp.Pkt.Frame.{Stream}
use ngtcp.Pkt.Encode.Data.{flags_of, stream_flags, offset_len, put_offset, encode_stream_frame}
use ngtcp.Pkt.Decode.Data.{
  skip_offset, skip_content, take_offset, take_content, decode_stream_fields, decode_stream_frame,
}
use ngtcp.Pkt.RoundTrip.Step.{skip_varint-varint, take_varint-varint, written}

-- The first byte carries the flags.
pub stream_type : Bool → Bool → ℕ
stream_type fin has_offset = bit_or (flags_of fin has_offset) 0x10

stream_type_bits :
    (fin has_offset : Bool)
    → (has_bit (stream_type fin has_offset) 0x01 ≡ fin)
      × (has_bit (stream_type fin has_offset) 0x02 ≡ true)
      × (has_bit (stream_type fin has_offset) 0x04 ≡ has_offset)
      × (bit_and (stream_type fin has_offset) 0xef ≡ flags_of fin has_offset)
unfolding has_bit stream_type flags_of
stream_type_bits false false = (refl, refl, refl, refl)
stream_type_bits false true = (refl, refl, refl, refl)
stream_type_bits true false = (refl, refl, refl, refl)
stream_type_bits true true = (refl, refl, refl, refl)

offset_bytes : Bool → ℕ → List ℕ
offset_bytes false offset = []
offset_bytes true offset = varint offset

pub stream_body : Bool → Stream → List ℕ
stream_body has_offset fr =
    varint fr.stream_id
    ++ (offset_bytes has_offset fr.offset ++ (varint (length fr.content) ++ fr.content))

-- What `decode_stream_fields` reads from a body that follows the type.
module _ (fr : Stream) (hs : IsVarint fr.stream_id) (ho : IsVarint fr.offset)
    (hc : length fr.content < 2 ^ 61) where
  fields_written :
      (has_offset : Bool) (type : ℕ) (rest : List ℕ)
      → fr.offset ≡ (if has_offset then fr.offset else 0)
      → decode_stream_fields has_offset true type (type ∷ (stream_body has_offset fr ++ rest))
        ≡ ok (
          record fr { flags = bit_and type 0xef; fin = has_bit type 0x01 },
          suc (length (stream_body has_offset fr)),
        )
  unfolding decode_stream_fields decoded skip_offset skip_content take_offset take_content
      take_bytes stream_body offset_bytes
  fields_written false type rest e =
      let a = fr.stream_id in
      let n = length fr.content in
      let r = fr.content ++ rest in
      let q = varint n ++ r in
      let all = suc (length (varint a ++ q)) in
      rw
        (
          append_assoc (varint a) (varint n ++ fr.content) rest,
          append_assoc (varint n) fr.content rest,
        )
        (ground (
          arith,
          written a hs,
          written n (omega arith),
          length-append (varint a) (varint n ++ fr.content),
          length-append (varint n) fr.content,
          length-append (varint a) q,
          length-append (varint n) r,
          length-append fr.content rest,
          skip_varint-varint all 2 a q hs,
          skip_varint-varint all (2 + varint_size a - 1 + 1) n r (omega arith),
          get_varint-varint n r (omega arith),
          take_varint-varint a q hs,
          take_varint-varint n r (omega arith),
          take-append n fr.content rest refl,
          drop-append n fr.content rest refl,
        ))
  fields_written true type rest e =
      let a = fr.stream_id in
      let o = fr.offset in
      let n = length fr.content in
      let body = varint n ++ fr.content in
      let r = fr.content ++ rest in
      let q = varint n ++ r in
      let p = varint o ++ q in
      let all = suc (length (varint a ++ p)) in
      rw
        (
          append_assoc (varint a) (varint o ++ body) rest,
          append_assoc (varint o) body rest,
          append_assoc (varint n) fr.content rest,
        )
        (ground (
          arith,
          written a hs,
          written o ho,
          written n (omega arith),
          length-append (varint a) (varint o ++ body),
          length-append (varint o) body,
          length-append (varint n) fr.content,
          length-append (varint a) p,
          length-append (varint o) q,
          length-append (varint n) r,
          length-append fr.content rest,
          skip_varint-varint all 2 a p hs,
          skip_varint-varint all (2 + varint_size a - 1 + 1) o q ho,
          skip_varint-varint all (2 + varint_size a - 1 + 1 + varint_size o - 1 + 1) n r
              (omega arith),
          get_varint-varint n r (omega arith),
          take_varint-varint a p hs,
          take_varint-varint o q ho,
          take_varint-varint n r (omega arith),
          take-append n fr.content rest refl,
          drop-append n fr.content rest refl,
        ))

stream_body_pos : (has_offset : Bool) (fr : Stream) → 0 < length (stream_body has_offset fr)
unfolding stream_body
stream_body_pos has_offset fr =
    let rest = offset_bytes has_offset fr.offset ++ (varint (length fr.content) ++ fr.content) in
    omega (
      arith,
      length-append (varint fr.stream_id) rest,
      length-varint fr.stream_id,
      varint_size_bounds fr.stream_id,
    )

-- The frame as the encoder leaves it, and the bytes that it writes.
pub flagged : Stream → Stream
flagged fr = record fr { flags = stream_flags fr }

unfoldable pub stream_bytes : Stream → List ℕ
stream_bytes fr =
    let has_offset = not (fr.offset == 0) in
    stream_type fr.fin has_offset ∷ stream_body has_offset fr

module _ (fr : Stream) (hs : IsVarint fr.stream_id) (ho : IsVarint fr.offset)
    (hc : length fr.content < 2 ^ 61) where
  pub encode_stream_written :
      (outlen : ℕ)
      → encode_stream_frame outlen fr ≡ (
          if leb (length (stream_bytes fr)) outlen
          then ok (stream_bytes fr, flagged fr)
          else err nobuf)
  unfolding encode_stream_frame encoded stream_bytes stream_body flagged stream_type stream_flags
      offset_bytes offset_len put_offset
  encode_stream_written outlen =
      let a = fr.stream_id in
      let o = fr.offset in
      let n = length fr.content in
      let body = varint n ++ fr.content in
      elim (Bool-cases (o == 0)) [
        | inl z ↦ rw z (
            ground (
              arith,
              written a hs,
              written n (omega arith),
              length-append (varint a) body,
              length-append (varint n) fr.content,
            ))
        | inr z ↦ rw z (
            ground (
              arith,
              written a hs,
              written o ho,
              written n (omega arith),
              length-append (varint a) (varint o ++ body),
              length-append (varint o) body,
              length-append (varint n) fr.content,
            ))
      ]

  pub decode_stream_written :
      (rest : List ℕ)
      → decode_stream_frame (stream_bytes fr ++ rest) ≡ ok (flagged fr, length (stream_bytes fr))
  unfolding decode_stream_frame peek stream_bytes flagged stream_flags
  decode_stream_written rest =
      let b = not (fr.offset == 0) in
      let body = stream_body b fr in
      ground (
        arith,
        stream_type_bits fr.fin b,
        fields_written fr hs ho hc b (stream_type fr.fin b) rest,
        stream_body_pos b fr,
        length-append body rest,
      )

-- The first byte is that of a STREAM frame.
pub stream_type_mask : (fin has_offset : Bool) → bit_and (stream_type fin has_offset) 0x10 ≡ 0x10
unfolding stream_type flags_of
stream_type_mask false false = refl
stream_type_mask false true = refl
stream_type_mask true false = refl
stream_type_mask true true = refl
