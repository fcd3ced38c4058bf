-- ===== src/Pkt/Special/Reset.antt =====
-- What is written into a Stateless Reset packet is read back.
use ngtcp.Base.{
  leb, if◌then◌else◌, le→leb, length, take, drop, length-append, length-take, drop-append,
  take-append, nobuf, ok, err, ℕ, zero, suc, ◌+◌, ◌-◌, ◌≤◌, ◌<◌, min, ◌≡◌, refl, sym, ap, ◌∙◌, Bool,
  true, List, [], ◌∷◌, ◌++◌, arith,
}
use ngtcp.Pkt.Hd.{PktHd, decode_hd, encode_hd_short}
use ngtcp.Pkt.Hd.Short.{ShortFits, decode_hd-encode_hd_short}
use ngtcp.Pkt.Special.{decode_stateless_reset, write_stateless_reset}

-- The length of a short header.
abbrev pub short_len : Bool → ℕ → ℕ
short_len omit n = (if omit then 1 else 9) + n

-- `decode_stateless_reset` splits a payload of at least 16 bytes into random bytes and a token of
-- 16 bytes, and refuses a shorter one with NGTCP2_ERR_INVALID_ARGUMENT.
pub decode_stateless_reset_split :
    (rand token : List ℕ)
    → length token ≡ 16
    → decode_stateless_reset (rand ++ token)
      ≡ ok record { stateless_reset_token = token; rand = rand }
unfolding decode_stateless_reset
decode_stateless_reset_split rand token h =
    let e : length (rand ++ token) - 16 ≡ length rand = omega (arith, length-append rand token) in
    let f : leb 16 (length (rand ++ token)) ≡ true =
      le→leb _ _ (omega (arith, length-append rand token)) in
    rw (f, e, drop-append (length rand) rand token refl, take-append (length rand) rand token refl)
      refl

take_long : (m : ℕ) (xs : List ℕ) → length xs ≤ m → take m xs ≡ xs
take_long zero [] h = refl
take_long zero (x ∷ xs) h = absurd (omega arith)
take_long (suc m) [] h = refl
take_long (suc m) (x ∷ xs) h = ap (λ t. x ∷ t) (take_long m xs (omega arith))

take-min : (m : ℕ) (xs : List ℕ) → take (min m (length xs)) xs ≡ take m xs
take-min zero xs = let e : min 0 (length xs) ≡ 0 = omega arith in rw e refl
take-min (suc m) [] = let e : min (suc m) 0 ≡ 0 = omega arith in rw e refl
take-min (suc m) (x ∷ xs) =
    let e : min (suc m) (suc (length xs)) ≡ suc (min m (length xs)) = omega arith in
    rw e (ap (λ t. x ∷ t) (take-min m xs))

reset_enough :
    (destlen : ℕ) (hd : PktHd) (p token rand : List ℕ)
    → length p + 16 ≤ destlen
    → length token ≡ 16
    → encode_hd_short destlen hd ≡ (if leb (length p) destlen then ok p else err nobuf)
    → write_stateless_reset destlen hd token rand
      ≡ ok (p ++ (take (destlen - length p - 16) rand ++ token))
unfolding write_stateless_reset
reset_enough destlen hd p token rand big h e =
    rw
      (
        e,
        le→leb (length p) destlen (omega arith),
        le→leb 16 (destlen - length p) (omega arith),
        take-min (destlen - length p - 16) rand,
        take_long 16 token (omega arith),
      )
      refl

reset_short :
    (destlen : ℕ) (hd : PktHd) (p token rand : List ℕ)
    → destlen < length p + 16
    → encode_hd_short destlen hd ≡ (if leb (length p) destlen then ok p else err nobuf)
    → write_stateless_reset destlen hd token rand ≡ err nobuf
unfolding write_stateless_reset
reset_short destlen hd p token rand small e = ground arith

-- For a short header that fits and a token of 16 bytes, if the buffer holds the header and the
-- token: `write_stateless_reset` writes at most `destlen` bytes, `decode_hd` reads the header from
-- them, and `decode_stateless_reset` reads, from what follows the header, the token and as many of
-- the random bytes as the buffer left room for.
pub decode_stateless_reset-write_stateless_reset :
    (destlen : ℕ) (hd : PktHd) (omit key : Bool) (n : ℕ) (token rand : List ℕ)
    → ShortFits hd omit key n
    → length token ≡ 16
    → short_len omit n + 16 ≤ destlen
    → (out : List ℕ) × (write_stateless_reset destlen hd token rand ≡ ok out)
      × (length out ≤ destlen)
      × (decode_hd out ≡ ok (hd, short_len omit n))
      × (decode_stateless_reset (drop (short_len omit n) out)
          ≡ ok record {
            stateless_reset_token = token;
            rand = take (destlen - short_len omit n - 16) rand;
          })
decode_stateless_reset-write_stateless_reset destlen hd omit key n token rand f h big =
    let (p, lp, enc, dec) = decode_hd-encode_hd_short hd omit key n f in
    let room = take (destlen - short_len omit n - 16) rand in
    (
      p ++ (room ++ token),
      rw (sym lp) (reset_enough destlen hd p token rand (omega arith) h (enc destlen)),
      omega (
        arith,
        length-append p (room ++ token),
        length-append room token,
        length-take (destlen - short_len omit n - 16) rand,
      ),
      dec (room ++ token) ∙ ap (λ (l : ℕ). ok (hd, l)) lp,
      rw (drop-append (short_len omit n) p (room ++ token) (sym lp))
          (decode_stateless_reset_split room token h),
    )

-- For a short header that fits, if the buffer does not hold the header and 16 bytes,
-- `write_stateless_reset` answers NGTCP2_ERR_NOBUF.
pub write_stateless_reset_nobuf :
    (destlen : ℕ) (hd : PktHd) (omit key : Bool) (n : ℕ) (token rand : List ℕ)
    → ShortFits hd omit key n
    → destlen < short_len omit n + 16
    → write_stateless_reset destlen hd token rand ≡ err nobuf
write_stateless_reset_nobuf destlen hd omit key n token rand f small =
    let (p, lp, enc, dec) = decode_hd-encode_hd_short hd omit key n f in
    reset_short destlen hd p token rand (omega arith) (enc destlen)
