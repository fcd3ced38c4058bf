-- ===== src/Tests.antt =====
-- Concrete runs, and the theorems at concrete inputs.
use ngtcp.Conv.{
  peek, get_be, varintlen_def, get_varint_len, mask_first, get_varint, put_varint, put_varint_len,
}
use ngtcp.Conv.Laws.{get_varint-put_varint, put_varint_len_minimal}
use ngtcp.Pkt.Special.{
  write_version_negotiation, decode_version_negotiation, decode_stateless_reset,
  write_stateless_reset,
}
use ngtcp.Pkt.Special.Versions.{
  decode_version_negotiation-write_version_negotiation, decode_version_negotiation_total,
}
use ngtcp.Pkt.Special.Reset.{short_len, decode_stateless_reset-write_stateless_reset}
use ngtcp.Pkt.Num.{distance, high_mask, adjust_pkt_num, adjust_pkt_num_lem}
use ngtcp.Pkt.AckRange.{validate_ack, reach, validate_ack_lem}
use ngtcp.Base.{
  leb, if◌then◌else◌, length, take, drop, replicate, nobuf, ack_frame, ok, err, ℕ, ◌+◌, ◌-◌, ◌*◌,
  ◌^◌, ◌≤◌, ◌<◌, ◌≡◌, refl, inl, inr, true, false, some, List, [], ◌∷◌, ◌++◌, arith,
}
use ngtcp.Pkt.Frame.{Ack, RstStream, rst_stream}
use ngtcp.Pkt.Decode.{decode_frame}
use ngtcp.Pkt.Encode.{encode_frame}
use ngtcp.Pkt.Safety.{Decodes, decode_frame_safe}
use ngtcp.Pkt.Safety.Step.{InPayload}
use ngtcp.Pkt.RoundTrip.{frame_bytes, encoded_frame, decode_frame-encode_frame}
use ngtcp.Pkt.Hd.{PktHd, short_flags, decode_hd, encode_hd_long, encode_hd_short}
use ngtcp.Pkt.Hd.Safety.{decode_hd_safe}
use ngtcp.Pkt.Hd.RoundTrip.{LongFits, decode_hd-encode_hd_long}
use ngtcp.Pkt.Hd.Short.{ShortFits, decode_hd-encode_hd_short}

-- A STREAM frame with FIN, an offset and a length, three bytes, and a PADDING frame behind it.
abbrev payload : List ℕ
payload = 0x17 ∷ 0x04 ∷ 0x40 ∷ 0x80 ∷ 0x02 ∷ 0xaa ∷ 0xbb ∷ 0x00 ∷ []

decode_frame_safe_example : Decodes payload (decode_frame payload)
decode_frame_safe_example = decode_frame_safe payload (omega arith) (omega arith)

abbrev reset : RstStream
reset = record { stream_id = 300; app_error_code = 7; final_offset = 70000 }

decode_frame-encode_frame_example :
    (encode_frame 64 (rst_stream reset) ≡ (
      if leb (length (frame_bytes (rst_stream reset))) 64
      then ok (frame_bytes (rst_stream reset), encoded_frame (rst_stream reset))
      else err nobuf))
    × (decode_frame (frame_bytes (rst_stream reset) ++ (1 ∷ []))
        ≡ ok (some (encoded_frame (rst_stream reset)), length (frame_bytes (rst_stream reset))))
decode_frame-encode_frame_example =
    decode_frame-encode_frame (rst_stream reset) 64 (1 ∷ []) (omega arith) tt

abbrev short_pkt : List ℕ
short_pkt = 0x5e ∷ 0x12 ∷ 0x34 ∷ []

decode_hd_safe_example : InPayload short_pkt (decode_hd short_pkt)
decode_hd_safe_example = decode_hd_safe short_pkt

abbrev long_hd : PktHd
long_hd = record { flags = 1; type = 0x7d; conn_id = 77; pkt_num = 5; version = 9 }

long_hd-LongFits : LongFits long_hd
long_hd-LongFits = record {
  form = refl;
  kind = inr (inr (inl refl));
  id = omega arith;
  num = omega arith;
  ver = omega arith;
}

decode_hd-encode_hd_long_example :
    (out : List ℕ) × (length out ≡ 17)
    × ((outlen : ℕ) → encode_hd_long outlen long_hd ≡ (if leb 17 outlen then ok out else err nobuf))
    × ((rest : List ℕ) → decode_hd (out ++ rest) ≡ ok (long_hd, 17))
decode_hd-encode_hd_long_example = decode_hd-encode_hd_long long_hd long_hd-LongFits

abbrev short_hd : PktHd
short_hd = record { flags = 4; type = 0x1e; conn_id = 77; pkt_num = 500; version = 0 }

short_hd-ShortFits : ShortFits short_hd false true 2
unfolding short_flags
short_hd-ShortFits = record {
  form = refl;
  kind = inr (inl (refl, refl, omega arith));
  id = omega arith;
  ver = refl;
}

decode_hd-encode_hd_short_example :
    (out : List ℕ) × (length out ≡ 9 + 2)
    × ((outlen : ℕ)
        → encode_hd_short outlen short_hd ≡ (if leb (length out) outlen then ok out else err nobuf))
    × ((rest : List ℕ) → decode_hd (out ++ rest) ≡ ok (short_hd, length out))
decode_hd-encode_hd_short_example =
    decode_hd-encode_hd_short short_hd false true 2 short_hd-ShortFits

get_varint-put_varint_example :
    (out : List ℕ) × (put_varint 15293 ≡ ok out)
    × (put_varint_len 15293 ≡ ok (length out))
    × ((rest : List ℕ)
        → (get_varint (out ++ rest) ≡ ok (15293, length out))
          × (get_varint_len (out ++ rest) ≡ ok (length out)))
get_varint-put_varint_example = get_varint-put_varint 15293 (omega arith)

-- 37 in two bytes, which `put_varint` writes in one
abbrev wide_varint : List ℕ
wide_varint = 0x40 ∷ 0x25 ∷ []

get_wide_varint : get_varint wide_varint ≡ ok (37, 2)
unfolding get_varint peek varintlen_def mask_first get_be
get_wide_varint = refl

put_varint_len_minimal_example :
    (size : ℕ) × (put_varint_len 37 ≡ ok size) × (size ≤ 2) × (37 < 2 ^ 62)
put_varint_len_minimal_example =
    put_varint_len_minimal wide_varint 37 2 (omega arith) get_wide_varint

abbrev some_ack : Ack
some_ack = record {
  largest_ack = 250;
  ack_delay = 0;
  first_ack_blklen = 1;
  blks = record { gap = 248; blklen = 0 } ∷ [];
}

validate_ack_example : validate_ack some_ack ≡ (
    if leb (some_ack.first_ack_blklen + reach some_ack.blks) some_ack.largest_ack
    then ok tt
    else err ack_frame)
validate_ack_example = validate_ack_lem some_ack (omega arith)

decode_version_negotiation-write_version_negotiation_example :
    (out : List ℕ) × ((destlen : ℕ)
      → write_version_negotiation destlen 133 77 (4 ∷ 5 ∷ [])
        ≡ (if leb (length out) destlen then ok out else err nobuf))
    × ((hd : PktHd) × (decode_hd out ≡ ok (hd, 17)) × (hd.version ≡ 0) × (hd.conn_id ≡ 77))
    × (decode_version_negotiation (drop 13 out) ≡ ok (4 ∷ 5 ∷ [], 2))
decode_version_negotiation-write_version_negotiation_example =
    decode_version_negotiation-write_version_negotiation 133 77 4 (5 ∷ []) (omega arith)
      (omega arith) (omega arith)

abbrev token : List ℕ
token = replicate 16 0xaa

decode_stateless_reset-write_stateless_reset_example :
    (out : List ℕ) × (write_stateless_reset 30 short_hd token (1 ∷ 2 ∷ 3 ∷ 4 ∷ []) ≡ ok out)
    × (length out ≤ 30)
    × (decode_hd out ≡ ok (short_hd, short_len false 2))
    × (decode_stateless_reset (drop (short_len false 2) out)
        ≡ ok record {
          stateless_reset_token = token;
          rand = take (30 - short_len false 2 - 16) (1 ∷ 2 ∷ 3 ∷ 4 ∷ []);
        })
decode_stateless_reset-write_stateless_reset_example =
    decode_stateless_reset-write_stateless_reset 30 short_hd false true 2 token (1 ∷ 2 ∷ 3 ∷ 4 ∷ [])
      short_hd-ShortFits refl (omega arith)

-- With no candidate below the window of the number expected, packet 0xffff that comes after packet
-- 0x10000 is taken for packet 0x1ffff.
late_packet : adjust_pkt_num 0x10000 0xffff 16 ≡ 0x1ffff
unfolding adjust_pkt_num high_mask distance
late_packet = refl

near_packet : 2 * distance (0xaa82f30e + 1) 0xaa831f94 < 2 ^ 16
unfolding distance
near_packet = omega arith

adjust_pkt_num_example : adjust_pkt_num 0xaa82f30e 0x1f94 16 ≡ 0xaa831f94
adjust_pkt_num_example =
    adjust_pkt_num_lem 0xaa82f30e 0xaa831f94 0x1f94 16 48 0xaa82 refl (omega arith) (omega arith)
      (omega arith) (omega arith) (inr refl) near_packet

decode_version_negotiation_total_example :
    (sv : List ℕ) × (decode_version_negotiation (1 ∷ 2 ∷ 3 ∷ 4 ∷ []) ≡ ok (sv, length sv))
    × (length sv * 4 ≡ 4)
decode_version_negotiation_total_example =
    decode_version_negotiation_total (1 ∷ 2 ∷ 3 ∷ 4 ∷ []) refl
