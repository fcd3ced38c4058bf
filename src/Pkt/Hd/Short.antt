-- ===== src/Pkt/Hd/Short.antt =====
-- What `encode_hd_short` writes, `decode_hd` reads back.
use native.Mathlib.Nat.{mod-eq_of_lt}
use ngtcp.Conv.{peek, put_uint16be, put_uint24be, put_uint32be, put_uint48be, put_uint64be}
use ngtcp.Conv.RoundTrip.{
  get_uint16-put_uint16be, get_uint32-put_uint32be, get_uint64-put_uint64be, length-put_uint64be,
}
use ngtcp.Base.{
  leb, ◌==◌, if◌then◌else◌, le→leb, length, length-append, drop-append, LibError, invalid_argument,
  unknown_pkt_type, nobuf, ok, err, ℕ, ◌+◌, ◌<◌, bit_and, ◌≡◌, refl, sym, ◌⊎◌, inl, inr, Bool, true,
  false, List, [], ◌∷◌, ◌++◌, append_assoc, arith,
}
use Prim.Native.Nat.{suc, ◌≤◌}
use ngtcp.Pkt.Cursor.{has_bit}
use ngtcp.Pkt.Hd.{
  PktHd, pkt_hd_init, pkt_num_len, short_flags, short_conn_id, short_pkt_num, decode_hd_short,
  decode_hd, put_short_pkt_num, short_first, encode_hd_short,
}
use ngtcp.Pkt.RoundTrip.Step.{encoded_if}

-- The type of a short header, the length of its packet number, and the bound on it.
abbrev pub ShortKind : ℕ → ℕ → ℕ → Type 0
ShortKind type n pkt_num =
    ((type ≡ 0x1f) × (n ≡ 1) × (pkt_num < 256))
    ⊎ ((type ≡ 0x1e) × (n ≡ 2) × (pkt_num < 65536))
    ⊎ ((type ≡ 0x1d) × (n ≡ 4) × (pkt_num < 4294967296))

-- A short header whose fields fit.
pub record ShortFits (hd : PktHd) (omit key : Bool) (n : ℕ) : Type 0 where
  pub form : hd.flags ≡ short_flags omit key
  pub kind : ShortKind hd.type n hd.pkt_num
  pub id : if omit then hd.conn_id ≡ 0 else (hd.conn_id < 18446744073709551616)
  pub ver : hd.version ≡ 0

-- All bits of the first byte.
FirstBits : ℕ → Bool → Bool → Type 0
FirstBits type omit key =
    (has_bit (short_first type omit key) 0x80 ≡ false)
    × (has_bit (short_first type omit key) 0x40 ≡ omit)
    × (has_bit (short_first type omit key) 0x20 ≡ key)
    × (bit_and (short_first type omit key) 0x1f ≡ type)

first_bits :
    (type n pkt_num : ℕ) (omit key : Bool) → ShortKind type n pkt_num → FirstBits type omit key
unfolding FirstBits has_bit short_first
first_bits type n pkt_num false false (inl e) = rw e.0 (refl, refl, refl, refl)
first_bits type n pkt_num false false (inr (inl e)) = rw e.0 (refl, refl, refl, refl)
first_bits type n pkt_num false false (inr (inr e)) = rw e.0 (refl, refl, refl, refl)
first_bits type n pkt_num false true (inl e) = rw e.0 (refl, refl, refl, refl)
first_bits type n pkt_num false true (inr (inl e)) = rw e.0 (refl, refl, refl, refl)
first_bits type n pkt_num false true (inr (inr e)) = rw e.0 (refl, refl, refl, refl)
first_bits type n pkt_num true false (inl e) = rw e.0 (refl, refl, refl, refl)
first_bits type n pkt_num true false (inr (inl e)) = rw e.0 (refl, refl, refl, refl)
first_bits type n pkt_num true false (inr (inr e)) = rw e.0 (refl, refl, refl, refl)
first_bits type n pkt_num true true (inl e) = rw e.0 (refl, refl, refl, refl)
first_bits type n pkt_num true true (inr (inl e)) = rw e.0 (refl, refl, refl, refl)
first_bits type n pkt_num true true (inr (inr e)) = rw e.0 (refl, refl, refl, refl)

flag_bits :
    (omit key : Bool)
    → (has_bit (short_flags omit key) 0x02 ≡ omit) × (has_bit (short_flags omit key) 0x04 ≡ key)
unfolding has_bit short_flags
flag_bits false false = (refl, refl)
flag_bits false true = (refl, refl)
flag_bits true false = (refl, refl)
flag_bits true true = (refl, refl)

-- The bytes of the packet number.
num_bytes : ℕ → ℕ → List ℕ
num_bytes type pkt_num =
    if type == 0x1f
    then pkt_num ∷ []
    else if type == 0x1e
    then put_uint16be pkt_num
    else put_uint32be pkt_num

num_written :
    (type n pkt_num : ℕ) (e : LibError) (rest : List ℕ)
    → ShortKind type n pkt_num
    → (pkt_num_len type e ≡ ok n)
      × (length (num_bytes type pkt_num) ≡ n)
      × (put_short_pkt_num type pkt_num ≡ ok (num_bytes type pkt_num))
      × (short_pkt_num type (num_bytes type pkt_num ++ rest) ≡ ok pkt_num)
unfolding pkt_num_len num_bytes put_short_pkt_num short_pkt_num peek put_uint32be put_uint24be
    put_uint16be
num_written type n pkt_num e rest k = ground (
  arith,
  get_uint16-put_uint16be pkt_num rest,
  get_uint32-put_uint32be pkt_num rest,
  mod-eq_of_lt {n = pkt_num} {m = 256},
  mod-eq_of_lt {n = pkt_num} {m = 65536},
  mod-eq_of_lt {n = pkt_num} {m = 4294967296},
)

id_bytes : Bool → ℕ → List ℕ
id_bytes omit conn_id = if omit then [] else put_uint64be conn_id

short_bytes : PktHd → Bool → Bool → List ℕ
short_bytes hd omit key =
    short_first hd.type omit key ∷ (id_bytes omit hd.conn_id ++ num_bytes hd.type hd.pkt_num)

length-short_bytes :
    (hd : PktHd) (omit key : Bool) (n : ℕ)
    → ShortFits hd omit key n
    → length (short_bytes hd omit key) ≡ (if omit then 1 else 9) + n
unfolding short_bytes id_bytes put_uint64be put_uint48be put_uint32be put_uint24be put_uint16be
length-short_bytes hd true key n f = omega (arith, num_written hd.type n hd.pkt_num nobuf [] f.kind)
length-short_bytes hd false key n f =
    omega (arith, num_written hd.type n hd.pkt_num nobuf [] f.kind)

encode_short_written :
    (hd : PktHd) (omit key : Bool) (n : ℕ)
    → ShortFits hd omit key n
    → (outlen : ℕ)
    → encode_hd_short outlen hd ≡ (
        if leb (length (short_bytes hd omit key)) outlen
        then ok (short_bytes hd omit key)
        else err nobuf)
unfolding encode_hd_short short_bytes id_bytes
encode_short_written hd omit key n f outlen =
    let w = num_written hd.type n hd.pkt_num invalid_argument [] f.kind in
    rw (f.form, (flag_bits omit key).0, (flag_bits omit key).1, w.0, w.2)
      (encoded_if outlen _ (short_bytes hd omit key) (length-short_bytes hd omit key n f))

conn_id_written :
    (omit : Bool) (conn_id : ℕ) (rest : List ℕ)
    → (if omit then conn_id ≡ 0 else (conn_id < 18446744073709551616))
    → short_conn_id omit (id_bytes omit conn_id ++ rest) ≡ ok (conn_id, rest)
unfolding short_conn_id id_bytes
conn_id_written true conn_id rest f = rw f refl
conn_id_written false conn_id rest f =
    rw
      (
        get_uint64-put_uint64be conn_id rest f,
        drop-append 8 (put_uint64be conn_id) rest (sym (length-put_uint64be conn_id)),
      )
      refl

short_len :
    (omit : Bool) (conn_id n : ℕ) (num : List ℕ)
    → length num ≡ n
    → suc (length (id_bytes omit conn_id ++ num)) ≡ (if omit then 1 else 9) + n
unfolding id_bytes
short_len true conn_id n num e = omega arith
short_len false conn_id n num e =
    omega (arith, length-append (put_uint64be conn_id) num, length-put_uint64be conn_id)

long_enough :
    (omit : Bool) (conn_id n : ℕ) (num rest : List ℕ)
    → length num ≡ n
    → (if omit then 1 else 9) + n ≤ suc (length (id_bytes omit conn_id ++ (num ++ rest)))
long_enough omit conn_id n num rest e = omega (
  arith,
  short_len omit conn_id n num e,
  length-append (id_bytes omit conn_id) num,
  length-append (id_bytes omit conn_id) (num ++ rest),
  length-append num rest,
)

decode_short_written :
    (hd : PktHd) (omit key : Bool) (n : ℕ)
    → ShortFits hd omit key n
    → (rest : List ℕ)
    → decode_hd (short_bytes hd omit key ++ rest) ≡ ok (hd, length (short_bytes hd omit key))
unfolding decode_hd decode_hd_short short_bytes pkt_hd_init FirstBits peek id_bytes
decode_short_written hd omit key n f rest =
    let id = id_bytes omit hd.conn_id in
    let num = num_bytes hd.type hd.pkt_num in
    let fb = first_bits hd.type n hd.pkt_num omit key f.kind in
    let nw = num_written hd.type n hd.pkt_num unknown_pkt_type rest f.kind in
    rw
      (
        append_assoc id num rest,
        fb.0,
        fb.1,
        fb.2,
        fb.3,
        nw.0,
        le→leb _ _ (long_enough omit hd.conn_id n num rest nw.1),
        conn_id_written omit hd.conn_id (num ++ rest) f.id,
        nw.3,
        sym f.form,
        sym f.ver,
        short_len omit hd.conn_id n num nw.1,
      )
      refl

-- For a short header whose fields fit there are bytes, 1 for the first byte, 8 for a connection ID
-- that is not left out, and 1, 2 or 4 for the packet number, such that `encode_hd_short` writes
-- exactly these if the buffer holds them and answers NGTCP2_ERR_NOBUF if not, and `decode_hd` reads
-- the same header and its length back from them, whatever follows.
pub decode_hd-encode_hd_short :
    (hd : PktHd) (omit key : Bool) (n : ℕ)
    → ShortFits hd omit key n
    → (out : List ℕ) × (length out ≡ (if omit then 1 else 9) + n)
      × ((outlen : ℕ)
          → encode_hd_short outlen hd ≡ (if leb (length out) outlen then ok out else err nobuf))
      × ((rest : List ℕ) → decode_hd (out ++ rest) ≡ ok (hd, length out))
decode_hd-encode_hd_short hd omit key n f = (
  short_bytes hd omit key,
  length-short_bytes hd omit key n f,
  encode_short_written hd omit key n f,
  decode_short_written hd omit key n f,
)
