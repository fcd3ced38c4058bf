-- ===== src/Pkt/Cursor.antt =====
-- Steps that the decoders and encoders of lib/ngtcp2_pkt.c repeat. A pointer `p` into a payload is
-- the list of the bytes from it to the payload's end, so `p - payload` is a difference of lengths.
-- `len` never passes `payloadlen` by more than 8 before it is compared with it, and an object has
-- fewer than 2 ^ 63 bytes, so `size_t` cannot wrap there; where a length that the peer chose is
-- added to `len`, the wrap-around is written out (`add_size`).
use ngtcp.Base.{
  leb, ◌==◌, length, take, drop, nobuf, frame_format, Result, ok, ◌>>=◌, ◌>>◌, guard, assert, ℕ,
  ◌+◌, ◌-◌, ◌%◌, bit_and, Bool, not, List,
}
use ngtcp.Conv.{get_uint16, get_varint_len, get_varint}

-- `size_t` addition
abbrev pub add_size : ℕ → ℕ → ℕ
add_size a b = (a + b) % 18446744073709551616

-- `if (payloadlen < len) { return NGTCP2_ERR_FRAME_FORMAT; }`
abbrev pub check : ℕ → ℕ → Result (Unit {0})
check payloadlen len = guard (leb len payloadlen) frame_format

-- `n = ngtcp2_get_varint_len(p); len += n - 1; if (payloadlen < len) { return
-- NGTCP2_ERR_FRAME_FORMAT; } p += n;`
unfoldable pub skip_varint : ℕ → ℕ → List ℕ → Result (ℕ × List ℕ)
skip_varint payloadlen len p = do
  n ← get_varint_len p
  check payloadlen (len + n - 1)
  ok (len + n - 1, drop n p)

-- `x = ngtcp2_get_varint(&n, p); p += n;`
unfoldable pub take_varint : List ℕ → Result (ℕ × List ℕ)
take_varint p = do (v, n) ← get_varint p; ok (v, drop n p)

-- `x = ngtcp2_get_uint16(p); p += 2;`
unfoldable pub take_uint16 : List ℕ → Result (ℕ × List ℕ)
take_uint16 p = do v ← get_uint16 p; ok (v, drop 2 p)

-- `x = p; p += n;` for bytes `p[0..n)` that the caller reads
unfoldable pub take_bytes : ℕ → List ℕ → Result (List ℕ × List ℕ)
take_bytes n p = do assert (leb n (length p)); ok (take n p, drop n p)

-- `assert((size_t)(p - payload) == len); return (ssize_t)len;`
unfoldable pub decoded {ℓ} : {A : Type ℓ} → List ℕ → List ℕ → ℕ → A → Result (A × ℕ)
decoded payload p len fr = do assert (length payload - length p == len); ok (fr, len)

-- `if (outlen < len) { return NGTCP2_ERR_NOBUF; }`
abbrev pub check_out : ℕ → ℕ → Result (Unit {0})
check_out outlen len = guard (leb len outlen) nobuf

-- `assert((size_t)(p - out) == len); return (ssize_t)len;` with the bytes written from `out` on
unfoldable pub encoded : ℕ → List ℕ → Result (List ℕ)
encoded len out = do assert (length out == len); ok out

-- `b & mask`, as a test
unfoldable pub has_bit : ℕ → ℕ → Bool
has_bit b mask = not (bit_and b mask == 0)
