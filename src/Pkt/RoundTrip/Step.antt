-- ===== src/Pkt/RoundTrip/Step.antt =====
-- One step of a decoder over what an encoder wrote.
use ngtcp.Base.{
  leb, if◌then◌else◌, le→leb, eq→==, length, drop, drop-append, nobuf, Result, ok, err, ◌>>◌, ℕ,
  ◌+◌, ◌-◌, ◌≤◌, ◌<◌, ◌≡◌, refl, sym, List, ◌++◌, arith,
}
use ngtcp.Conv.{put_uint16be, put_varint, put_varint_len}
use ngtcp.Conv.RoundTrip.{
  get_uint16-put_uint16be, varint_size, varint, IsVarint, varint_size_bounds, put_varint_len_lem,
  length-varint, put_varint_lem, get_varint_len-varint, get_varint-varint,
}
use ngtcp.Pkt.Cursor.{skip_varint, take_varint, take_uint16, check_out, encoded}

pub drop-varint : (n : ℕ) (rest : List ℕ) → drop (varint_size n) (varint n ++ rest) ≡ rest
drop-varint n rest = drop-append (varint_size n) (varint n) rest (sym (length-varint n))

pub skip_varint-varint :
    (payloadlen len n : ℕ) (rest : List ℕ)
    → IsVarint n
    → len + varint_size n - 1 ≤ payloadlen
    → skip_varint payloadlen len (varint n ++ rest) ≡ ok (len + varint_size n - 1, rest)
unfolding skip_varint
skip_varint-varint payloadlen len n rest h fits =
    rw (get_varint_len-varint n rest h, le→leb _ _ fits, drop-varint n rest)

pub take_varint-varint :
    (n : ℕ) (rest : List ℕ) → IsVarint n → take_varint (varint n ++ rest) ≡ ok (n, rest)
unfolding take_varint
take_varint-varint n rest h = rw (get_varint-varint n rest h, drop-varint n rest)

pub take_uint16-put_uint16be :
    (n : ℕ) (rest : List ℕ) → n < 65536 → take_uint16 (put_uint16be n ++ rest) ≡ ok (n, rest)
unfolding take_uint16
take_uint16-put_uint16be n rest h =
    rw (get_uint16-put_uint16be n rest h) (unfold put_uint16be in refl)

-- All about one varint that is written.
pub written :
    (n : ℕ)
    → IsVarint n
    → (put_varint_len n ≡ ok (varint_size n))
      × (put_varint n ≡ ok (varint n))
      × (length (varint n) ≡ varint_size n)
      × (1 ≤ varint_size n)
      × (varint_size n ≤ 8)
written n h =
    let (lo, hi) = varint_size_bounds n in
    (put_varint_len_lem n h, put_varint_lem n h, length-varint n, lo, hi)

-- `out` is what the encoder writes, and the decoder reads `fr` back from it.
abbrev pub Written :
    {A : Type 0} → (ℕ → A → Result (List ℕ)) → (List ℕ → Result (A × ℕ)) → A → List ℕ → Type 0
Written encode decode fr out =
    ((outlen : ℕ) → encode outlen fr ≡ (if leb (length out) outlen then ok out else err nobuf))
    × ((rest : List ℕ) → decode (out ++ rest) ≡ ok (fr, length out))

-- The check of the buffer and the assertion behind it come down to the first.
pub encoded_if :
    (outlen len : ℕ) (out : List ℕ)
    → length out ≡ len
    → (check_out outlen len >> encoded len out)
      ≡ (if leb (length out) outlen then ok out else err nobuf)
unfolding encoded
encoded_if outlen len out e = rw (eq→== (length out) len e, e) (ground arith)

-- The same, with the length as a number.
pub encoded_if_len :
    (outlen len : ℕ) (out : List ℕ)
    → length out ≡ len
    → (check_out outlen len >> encoded len out) ≡ (if leb len outlen then ok out else err nobuf)
unfolding encoded
encoded_if_len outlen len out e = rw (eq→== (length out) len e) (ground arith)
