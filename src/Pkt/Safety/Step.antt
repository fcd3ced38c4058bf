-- ===== src/Pkt/Safety/Step.antt =====
-- One step of a decoder over bytes that are known to be there.
use ngtcp.Base.{
  leb, if◌then◌else◌, leb→le, le→leb, eq→==, Bool-cases, length, take, drop, length-drop, LibError,
  frame_format, Result, ok, err, fault, ◌>>=◌, ◌>>◌, guard, Ensures, ℕ, ◌+◌, ◌-◌, ◌≤◌, ◌<◌, ◌≡◌,
  refl, inl, inr, Bool, true, false, List, arith,
}
use ngtcp.Conv.{get_uint16, get_varint}
use ngtcp.Conv.Read.{
  be_value, get_be_lem, vlen, varint_value, next, vlen_bounds, get_varint_len_lem, get_varint_lem,
}
use ngtcp.Pkt.Cursor.{check, skip_varint, take_varint, take_uint16, take_bytes, decoded}

pub length-next : (p : List ℕ) → length (next p) ≡ length p - vlen p
length-next p = length-drop (vlen p) p

pub skip_varint_lem :
    (payloadlen len : ℕ) (p : List ℕ)
    → 0 < length p
    → skip_varint payloadlen len p ≡ (
        if leb (len + vlen p - 1) payloadlen
        then ok (len + vlen p - 1, next p)
        else err frame_format)
unfolding skip_varint
skip_varint_lem payloadlen len p h = rw (get_varint_len_lem p h) (ground arith)

pub take_varint_lem : (p : List ℕ) → vlen p ≤ length p → take_varint p ≡ ok (varint_value p, next p)
unfolding take_varint
take_varint_lem p h = rw (get_varint_lem p h)

pub take_uint16_lem : (p : List ℕ) → 2 ≤ length p → take_uint16 p ≡ ok (be_value 2 0 p, drop 2 p)
unfolding take_uint16 get_uint16
take_uint16_lem p h = rw (get_be_lem 2 0 p h)

pub take_bytes_lem : (n : ℕ) (p : List ℕ) → n ≤ length p → take_bytes n p ≡ ok (take n p, drop n p)
unfolding take_bytes
take_bytes_lem n p h = rw (le→leb n (length p) h)

-- All about one varint at `p`.
pub varint_at :
    (p : List ℕ)
    → (1 ≤ vlen p)
      × (vlen p ≤ 8)
      × (length (next p) ≡ length p - vlen p)
      × (vlen p ≤ length p → take_varint p ≡ ok (varint_value p, next p))
      × (vlen p ≤ length p → get_varint p ≡ ok (varint_value p, vlen p))
varint_at p =
    ((vlen_bounds p).0, (vlen_bounds p).1, length-next p, take_varint_lem p, get_varint_lem p)

-- What holds of a decoder's answer: it reads at least one byte, and none behind the payload.
abbrev pub InPayload {ℓ} : {A : Type ℓ} → List ℕ → Result (A × ℕ) → Type 0
InPayload payload r = Ensures (λ a. (0 < a.1) × (a.1 ≤ length payload)) r

pub decoded_safe {ℓ} :
    {A : Type ℓ} (payload p : List ℕ) (len : ℕ) (fr : A)
    → 0 < len
    → len + length p ≡ length payload
    → InPayload payload (decoded payload p len fr)
unfolding decoded
decoded_safe payload p len fr pos h =
    rw (eq→== (length payload - length p) len (omega arith)) (pos, omega arith)

-- The rules by which a decoder's answer is followed step by step.
module _ {B : Type 0} (Q : B → Type 0) where
  pub Ensures-bind :
      {A : Type 0} (P : A → Type 0) (m : Result A) (f : A → Result B)
      → Ensures P m
      → ((a : A) → P a → Ensures Q (f a))
      → Ensures Q (m >>= f)
  Ensures-bind P (ok a) f h k = k a h
  Ensures-bind P (err e) f h k = tt
  Ensures-bind P fault f h k = elim h [ ]

  pub check_bind :
      (payloadlen len : ℕ) (r : Result B)
      → (len ≤ payloadlen → Ensures Q r)
      → Ensures Q (check payloadlen len >> r)
  check_bind payloadlen len r k = elim (Bool-cases (leb len payloadlen)) [
    | inl e ↦ rw e (k (leb→le _ _ e))
    | inr e ↦ rw e tt
  ]

  pub skip_bind :
      (payloadlen len : ℕ) (p : List ℕ) (f : ℕ × List ℕ → Result B)
      → 0 < length p
      → (len + vlen p - 1 ≤ payloadlen → Ensures Q (f (len + vlen p - 1, next p)))
      → Ensures Q (skip_varint payloadlen len p >>= f)
  skip_bind payloadlen len p f h k = elim (Bool-cases (leb (len + vlen p - 1) payloadlen)) [
    | inl e ↦ rw (skip_varint_lem payloadlen len p h, e) (k (leb→le _ _ e))
    | inr e ↦ rw (skip_varint_lem payloadlen len p h, e) tt
  ]

  pub Ensures-if :
      (b : Bool) (r s : Result B)
      → (b ≡ true → Ensures Q r)
      → Ensures Q s
      → Ensures Q (if b then r else s)
  Ensures-if true r s h k = h refl
  Ensures-if false r s h k = k

  pub guard_bind :
      (b : Bool) (e : LibError) (r : Result B)
      → (b ≡ true → Ensures Q r)
      → Ensures Q (guard b e >> r)
  guard_bind true e r k = k refl
  guard_bind false e r k = tt
