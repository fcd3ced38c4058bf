-- ===== src/Pkt/RoundTrip/Fixed.antt =====
-- The frames with fixed-width fields or a text, and PADDING: what the encoder writes, and that the
-- decoder reads it back.
use ngtcp.Pkt.Cursor.{take_bytes, decoded, encoded}
use ngtcp.Conv.RoundTrip.{
  get_uint64-put_uint64be, varint_size, varint, IsVarint, length-put_uint16be, length-put_uint64be,
}
use ngtcp.Conv.RoundTrip.{
  get_uint64-put_uint64be, varint_size, varint, IsVarint, length-put_uint16be, length-put_uint64be,
}
use ngtcp.Base.{
  leb, if◌then◌else◌, length, take, replicate, length-append, length-replicate, drop-append,
  take-append, nobuf, ok, err, ℕ, zero, suc, ◌+◌, ◌-◌, ◌<◌, ◌≡◌, refl, sym, ap, ◌≢◌, List, [], ◌∷◌,
  ◌++◌, append_assoc, arith,
}
use ngtcp.Conv.{put_uint16be, put_uint64be}
use ngtcp.Conv.RoundTrip.{
  get_uint64-put_uint64be, varint_size, varint, IsVarint, length-put_uint16be, length-put_uint64be,
}
use ngtcp.Pkt.Cursor.{take_bytes, decoded, encoded}
use ngtcp.Pkt.Frame.{Padding, RstStream, NewConnectionId, StopSending}
use ngtcp.Pkt.Encode.Control.{
  encode_padding_frame, encode_rst_stream_frame, encode_new_connection_id_frame,
  encode_stop_sending_frame,
}
use ngtcp.Pkt.Decode.Control.{
  zero_run, decode_padding_frame, decode_rst_stream_frame, decode_new_connection_id_frame,
  decode_stop_sending_frame,
}
use ngtcp.Pkt.RoundTrip.Step.{
  skip_varint-varint, take_varint-varint, take_uint16-put_uint16be, written, Written,
}

pub stop_sending-Written :
    (fr : StopSending)
    → IsVarint fr.stream_id
    → fr.app_error_code < 65536
    → Written encode_stop_sending_frame decode_stop_sending_frame fr
        (0x0c ∷ (varint fr.stream_id ++ put_uint16be fr.app_error_code))
unfolding encode_stop_sending_frame decode_stop_sending_frame encoded decoded
stop_sending-Written fr h k =
    let a = fr.stream_id in
    let b = put_uint16be fr.app_error_code in
    let lb = length-put_uint16be fr.app_error_code in
    (
      λ outlen. ground (arith, written a h, length-append (varint a) b),
      λ rest. rw append_assoc (
          ground (
            arith,
            written a h,
            length-append (varint a) b,
            length-append (varint a) (b ++ rest),
            length-append b rest,
            skip_varint-varint (suc (length (varint a ++ (b ++ rest)))) 4 a (b ++ rest) h,
            take_varint-varint a (b ++ rest) h,
            take_uint16-put_uint16be fr.app_error_code rest k,
          )),
    )

pub rst_stream-Written :
    (fr : RstStream)
    → IsVarint fr.stream_id
    → fr.app_error_code < 65536
    → IsVarint fr.final_offset
    → Written encode_rst_stream_frame decode_rst_stream_frame fr
        (0x01 ∷ (varint fr.stream_id ++ (put_uint16be fr.app_error_code ++ varint fr.final_offset)))
unfolding encode_rst_stream_frame decode_rst_stream_frame encoded decoded
rst_stream-Written fr h k o =
    let a = fr.stream_id in
    let b = put_uint16be fr.app_error_code in
    let c = fr.final_offset in
    let lb = length-put_uint16be fr.app_error_code in
    let lw = length-append b (varint c) in
    let lv = length-append (varint a) (b ++ varint c) in
    (
      λ outlen. ground (arith, written a h, written c o),
      λ rest.
          let r = varint c ++ rest in
          let q = b ++ r in
          rw (append_assoc, append_assoc)
            (ground (
              arith,
              written a h,
              written c o,
              length-append (varint a) q,
              length-append b r,
              length-append (varint c) rest,
              skip_varint-varint (suc (length (varint a ++ q))) 5 a q h,
              drop-append 2 b r (sym lb),
              skip_varint-varint (suc (length (varint a ++ q))) (5 + varint_size a - 1) c rest o,
              take_varint-varint a q h,
              take_uint16-put_uint16be fr.app_error_code r k,
              take_varint-varint c rest o,
            )),
    )

take_all : (n : ℕ) (xs : List ℕ) → length xs ≡ n → take n xs ≡ xs
take_all zero [] h = refl
take_all zero (x ∷ xs) h = absurd (omega arith)
take_all (suc n) [] h = refl
take_all (suc n) (x ∷ xs) h = ap (λ t. x ∷ t) (take_all n xs (omega arith))

pub new_connection_id-Written :
    (fr : NewConnectionId)
    → fr.seq < 65536
    → fr.conn_id < 18446744073709551616
    → length fr.stateless_reset_token ≡ 16
    → Written encode_new_connection_id_frame decode_new_connection_id_frame fr
        (0x0b ∷ (varint fr.seq ++ (put_uint64be fr.conn_id ++ fr.stateless_reset_token)))
unfolding encode_new_connection_id_frame decode_new_connection_id_frame encoded decoded take_bytes
new_connection_id-Written fr h k t =
    let a = fr.seq in
    let b = put_uint64be fr.conn_id in
    let c = fr.stateless_reset_token in
    let lb = length-put_uint64be fr.conn_id in
    let lw = length-append b c in
    let lv = length-append (varint a) (b ++ c) in
    let ha : IsVarint a = omega arith in
    (
      λ outlen. ground (arith, written a ha, take_all 16 c t),
      λ rest.
          let r = c ++ rest in
          let q = b ++ r in
          rw (append_assoc, append_assoc)
            (ground (
              arith,
              written a ha,
              length-append (varint a) q,
              length-append b r,
              length-append c rest,
              skip_varint-varint (suc (length (varint a ++ q))) 26 a q ha,
              take_varint-varint a q ha,
              get_uint64-put_uint64be fr.conn_id r k,
              drop-append 8 b r (sym lb),
              take-append 16 c rest (sym t),
              drop-append 16 c rest (sym t),
            )),
    )

-- A payload that PADDING does not run into.
abbrev pub NoZeroFirst : List ℕ → Type 0
NoZeroFirst [] = Unit {0}
NoZeroFirst (b ∷ p) = b ≢ 0

zero_run_written :
    (n : ℕ) (rest : List ℕ) → NoZeroFirst rest → zero_run (replicate n 0 ++ rest) ≡ rest
unfolding zero_run
zero_run_written zero [] h = refl
zero_run_written zero (b ∷ rest) h = ground arith
zero_run_written (suc n) rest h = zero_run_written n rest h

pub encode_padding_written :
    (fr : Padding) (outlen : ℕ)
    → encode_padding_frame outlen fr ≡ (
        if leb (length (replicate {A = ℕ} fr.len 0)) outlen
        then ok (replicate fr.len 0)
        else err nobuf)
unfolding encode_padding_frame
encode_padding_written fr outlen = ground (arith, length-replicate {A = ℕ} fr.len 0)

padding_written :
    (n len : ℕ) (rest : List ℕ)
    → n ≡ len
    → 0 < n
    → NoZeroFirst rest
    → decode_padding_frame (replicate n 0 ++ rest)
      ≡ ok (record { len = len }, length (replicate {A = ℕ} n 0))
unfolding decode_padding_frame
padding_written zero len rest e pos h = absurd (omega arith)
padding_written (suc n) len rest e pos h =
    rw (zero_run_written n rest h)
      (ground (arith, length-append (replicate n 0) rest, length-replicate {A = ℕ} n 0))

pub decode_padding_written :
    (fr : Padding) (rest : List ℕ)
    → 0 < fr.len
    → NoZeroFirst rest
    → decode_padding_frame (replicate fr.len 0 ++ rest)
      ≡ ok (fr, length (replicate {A = ℕ} fr.len 0))
decode_padding_written fr rest pos h = padding_written fr.len fr.len rest refl pos h
