-- ===== src/Pkt/Hd/RoundTrip.antt =====
-- What the header encoders write, the decoders read back.
use native.Mathlib.Nat.{mod-eq_of_lt}
use ngtcp.Conv.RoundTrip.{get_uint32-put_uint32be, get_uint64-put_uint64be}
use ngtcp.Base.{
  leb, if◌then◌else◌, length, nobuf, ok, err, ℕ, ◌<◌, bit_and, bit_or, ◌≡◌, refl, ◌⊎◌, inl, inr,
  true, List, ◌∷◌, ◌++◌, arith,
}
use ngtcp.Conv.{peek, put_uint16be, put_uint24be, put_uint32be, put_uint48be, put_uint64be}
use ngtcp.Pkt.Cursor.{has_bit}
use ngtcp.Pkt.Hd.{PktHd, pkt_hd_init, long_type, decode_hd_long, decode_hd, encode_hd_long}
use ngtcp.Pkt.RoundTrip.Step.{encoded_if_len}

-- A long header whose fields fit.
pub record LongFits (hd : PktHd) : Type 0 where
  pub form : hd.flags ≡ 0x01
  pub kind : (hd.type ≡ 0x7f) ⊎ (hd.type ≡ 0x7e) ⊎ (hd.type ≡ 0x7d) ⊎ (hd.type ≡ 0x7c)
  pub id : hd.conn_id < 18446744073709551616
  pub num : hd.pkt_num < 4294967296
  pub ver : hd.version < 4294967296

long_first :
    (type version : ℕ)
    → (type ≡ 0x7f) ⊎ (type ≡ 0x7e) ⊎ (type ≡ 0x7d) ⊎ (type ≡ 0x7c)
    → (has_bit (bit_or 0x80 type) 0x80 ≡ true)
      × (long_type (bit_and (bit_or 0x80 type) 0x7f) version ≡ ok type)
unfolding has_bit long_type
long_first type version (inl e) = rw e (refl, refl)
long_first type version (inr (inl e)) = rw e (refl, refl)
long_first type version (inr (inr (inl e))) = rw e (refl, refl)
long_first type version (inr (inr (inr e))) = rw e (refl, refl)

long_bytes : PktHd → List ℕ
long_bytes hd =
    bit_or 0x80 hd.type
    ∷ (put_uint64be hd.conn_id ++ (put_uint32be hd.version ++ put_uint32be hd.pkt_num))

length-long_bytes : (hd : PktHd) → length (long_bytes hd) ≡ 17
unfolding long_bytes put_uint64be put_uint48be put_uint32be put_uint24be put_uint16be
length-long_bytes hd = refl

module _ (hd : PktHd) (f : LongFits hd) where
  encode_long_written :
      (outlen : ℕ)
      → encode_hd_long outlen hd ≡ (if leb 17 outlen then ok (long_bytes hd) else err nobuf)
  unfolding encode_hd_long long_bytes
  encode_long_written outlen =
      rw (mod-eq_of_lt f.num) (encoded_if_len outlen 17 (long_bytes hd) (length-long_bytes hd))

  decode_long_written : (rest : List ℕ) → decode_hd (long_bytes hd ++ rest) ≡ ok (hd, 17)
  unfolding decode_hd decode_hd_long long_bytes peek pkt_hd_init put_uint64be put_uint48be
      put_uint32be put_uint24be put_uint16be
  decode_long_written rest =
      let ver = put_uint32be hd.version in
      let num = put_uint32be hd.pkt_num in
      ground (
        arith,
        long_first hd.type hd.version f.kind,
        get_uint64-put_uint64be hd.conn_id (ver ++ (num ++ rest)) f.id,
        get_uint32-put_uint32be hd.version (num ++ rest) f.ver,
        get_uint32-put_uint32be hd.pkt_num rest f.num,
        f.form,
      )

-- For a long header whose fields fit there are 17 bytes such that `encode_hd_long` writes exactly
-- these if the buffer holds them and answers NGTCP2_ERR_NOBUF if not, and `decode_hd` reads the same
-- header and its length back from them, whatever follows.
pub decode_hd-encode_hd_long :
    (hd : PktHd)
    → LongFits hd
    → (out : List ℕ) × (length out ≡ 17)
      × ((outlen : ℕ) → encode_hd_long outlen hd ≡ (if leb 17 outlen then ok out else err nobuf))
      × ((rest : List ℕ) → decode_hd (out ++ rest) ≡ ok (hd, 17))
decode_hd-encode_hd_long hd f =
    (long_bytes hd, length-long_bytes hd, encode_long_written hd f, decode_long_written hd f)
