-- ===== src/Pkt/RoundTrip/Close.antt =====
-- CONNECTION_CLOSE and APPLICATION_CLOSE frames: what is written is read back.
use ngtcp.Pkt.Cursor.{take_bytes, decoded, encoded}
use ngtcp.Conv.RoundTrip.{varint_size, varint, length-varint, get_varint-varint}
use ngtcp.Conv.RoundTrip.{varint_size, varint, length-varint, get_varint-varint}
use ngtcp.Base.{
  length, length-append, drop-append, take-append, ok, ℕ, suc, ◌+◌, ◌^◌, ◌<◌, ◌≡◌, refl, List, ◌∷◌,
  ◌++◌, append_assoc, arith,
}
use ngtcp.Conv.{put_uint16be}
use ngtcp.Conv.RoundTrip.{varint_size, varint, length-varint, get_varint-varint}
use ngtcp.Pkt.Cursor.{take_bytes, decoded, encoded}
use ngtcp.Pkt.Frame.{ConnectionClose, ApplicationClose}
use ngtcp.Pkt.Encode.Control.{encode_connection_close_frame, encode_application_close_frame}
use ngtcp.Pkt.Decode.Control.{
  decode_close, decode_connection_close_frame, decode_application_close_frame,
}
use ngtcp.Pkt.RoundTrip.Step.{
  drop-varint, skip_varint-varint, take_uint16-put_uint16be, written, Written,
}

-- The two close frames: a code and a text.
abbrev pub close_bytes : ℕ → List ℕ → ℕ → List ℕ
close_bytes code reason tag = tag ∷ (put_uint16be code ++ (varint (length reason) ++ reason))

module _ (code : ℕ) (reason : List ℕ) (h : code < 65536) (k : length reason < 2 ^ 61) where
  length-close_bytes :
      (tag : ℕ)
      → length (close_bytes code reason tag) ≡ 3 + varint_size (length reason) + length reason
  unfolding put_uint16be
  length-close_bytes tag =
      omega (arith, length-append (varint (length reason)) reason, length-varint (length reason))

  decode_close_written :
      (tag : ℕ) (rest : List ℕ)
      → decode_close (close_bytes code reason tag ++ rest)
        ≡ ok ((code, reason), length (close_bytes code reason tag))
  unfolding decode_close decoded take_bytes put_uint16be
  decode_close_written tag rest =
      let n = length reason in
      let q = varint n ++ (reason ++ rest) in
      rw (append_assoc (varint n) reason rest) (
        ground (
          arith,
          written n (omega arith),
          length-append (varint n) reason,
          length-append (varint n) (reason ++ rest),
          length-append reason rest,
          skip_varint-varint (suc (suc (suc (length q)))) 4 n (reason ++ rest) (omega arith),
          get_varint-varint n (reason ++ rest) (omega arith),
          take_uint16-put_uint16be code q h,
          drop-varint n (reason ++ rest),
          take-append n reason rest refl,
          drop-append n reason rest refl,
        ))

pub connection_close-Written :
    (fr : ConnectionClose)
    → fr.error_code < 65536
    → length fr.reason < 2 ^ 61
    → Written encode_connection_close_frame decode_connection_close_frame fr
        (close_bytes fr.error_code fr.reason 0x02)
unfolding encode_connection_close_frame decode_connection_close_frame encoded
connection_close-Written fr h k = (
  λ outlen. ground (
    arith,
    written (length fr.reason) (omega arith),
    length-close_bytes fr.error_code fr.reason h k 0x02,
  ),
  λ rest. rw (decode_close_written fr.error_code fr.reason h k 0x02 rest),
)

pub application_close-Written :
    (fr : ApplicationClose)
    → fr.app_error_code < 65536
    → length fr.reason < 2 ^ 61
    → Written encode_application_close_frame decode_application_close_frame fr
        (close_bytes fr.app_error_code fr.reason 0x03)
unfolding encode_application_close_frame decode_application_close_frame encoded
application_close-Written fr h k = (
  λ outlen. ground (
    arith,
    written (length fr.reason) (omega arith),
    length-close_bytes fr.app_error_code fr.reason h k 0x03,
  ),
  λ rest. rw (decode_close_written fr.app_error_code fr.reason h k 0x03 rest),
)
