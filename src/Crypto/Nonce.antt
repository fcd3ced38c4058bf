-- ===== src/Crypto/Nonce.antt =====
-- `ngtcp2_crypto_km` and `ngtcp2_crypto_create_nonce`.
use ngtcp.Conv.RoundTrip.{get_uint64-put_uint64be, length-put_uint64be}
use ngtcp.Conv.Read.{IsBytes, drop-IsBytes}
use Prim.Native.Nat.{bit_xor}
use ngtcp.Base.{
  leb, le→leb, length, take, drop, length-append, length-take, length-drop, drop-append, nomem,
  Result, ok, ◌>>◌, guard, assert, xor_twice, ℕ, suc, ◌-◌, ◌^◌, ◌≤◌, ◌<◌, ◌≡◌, refl, sym, ap, ◌∙◌,
  ◌≢◌, Bool, List, [], ◌∷◌, ◌++◌, arith,
}
use ngtcp.Conv.{get_uint64, put_uint16be, put_uint24be, put_uint32be, put_uint48be, put_uint64be}

-- A key and an IV, each with its length.
pub record CryptoKm : Type 0 where
  pub key : List ℕ
  pub iv : List ℕ

-- `allocated` says whether the allocation succeeds.
unfoldable pub crypto_km_new : Bool → List ℕ → List ℕ → Result CryptoKm
crypto_km_new allocated key iv = do guard allocated nomem; ok record { key = key; iv = iv }

-- `dest[i] ^= src[i]`, for the bytes of `src`
unfoldable pub xor_bytes : List ℕ → List ℕ → List ℕ
xor_bytes [] src = []
xor_bytes (b ∷ dest) [] = b ∷ dest
xor_bytes (b ∷ dest) (c ∷ src) = bit_xor b c ∷ xor_bytes dest src

-- The bytes of `bswap64(pkt_num)` in memory are those of `pkt_num` in network byte order. An IV of
-- fewer than 8 bytes makes `ivlen - 8 + i` point outside `dest`.
unfoldable pub create_nonce : List ℕ → ℕ → Result (List ℕ)
create_nonce iv pkt_num = do
  assert (leb 8 (length iv))
  ok (take (length iv - 8) iv ++ xor_bytes (drop (length iv - 8) iv) (put_uint64be pkt_num))

xor_bytes_twice :
    (dest src : List ℕ)
    → IsBytes dest
    → IsBytes src
    → length src ≡ length dest
    → xor_bytes dest (xor_bytes dest src) ≡ src
unfolding xor_bytes
xor_bytes_twice [] [] h k e = refl
xor_bytes_twice [] (c ∷ src) h k e = absurd (omega arith)
xor_bytes_twice (b ∷ dest) [] h k e = absurd (omega arith)
xor_bytes_twice (b ∷ dest) (c ∷ src) h k e =
    rw ((xor_twice 8 b c h.0 k.0).0, xor_bytes_twice dest src h.1 k.1 (omega arith)) refl

length-xor_bytes : (dest src : List ℕ) → length (xor_bytes dest src) ≡ length dest
unfolding xor_bytes
length-xor_bytes [] src = refl
length-xor_bytes (b ∷ dest) [] = refl
length-xor_bytes (b ∷ dest) (c ∷ src) = ap suc (length-xor_bytes dest src)

put_uint64be-IsBytes : (n : ℕ) → IsBytes (put_uint64be n)
unfolding put_uint64be put_uint48be put_uint32be put_uint24be put_uint16be
put_uint64be-IsBytes n = omega arith

-- The part of the IV that is changed.
abbrev tail : List ℕ → List ℕ
tail iv = drop (length iv - 8) iv

nonce_bytes : List ℕ → ℕ → List ℕ
nonce_bytes iv pkt_num = take (length iv - 8) iv ++ xor_bytes (tail iv) (put_uint64be pkt_num)

create_nonce_written :
    (iv : List ℕ) (pkt_num : ℕ)
    → 8 ≤ length iv
    → create_nonce iv pkt_num ≡ ok (nonce_bytes iv pkt_num)
unfolding create_nonce nonce_bytes
create_nonce_written iv pkt_num h = rw (le→leb _ _ h) refl

length-head : (iv : List ℕ) → 8 ≤ length iv → length iv - 8 ≡ length (take (length iv - 8) iv)
length-head iv h = omega (arith, length-take (length iv - 8) iv)

-- The packet number is found in the nonce by the IV.
recover :
    (iv : List ℕ) (pkt_num : ℕ)
    → IsBytes iv
    → 8 ≤ length iv
    → xor_bytes (tail iv) (drop (length iv - 8) (nonce_bytes iv pkt_num)) ≡ put_uint64be pkt_num
unfolding nonce_bytes
recover iv pkt_num h k =
    let head = take (length iv - 8) iv in
    rw
      (drop-append (length iv - 8) head (xor_bytes (tail iv) (put_uint64be pkt_num))
        (length-head iv k))
      (xor_bytes_twice (tail iv) (put_uint64be pkt_num) (drop-IsBytes (length iv - 8) iv h)
        (put_uint64be-IsBytes pkt_num)
        (omega (arith, length-put_uint64be pkt_num, length-drop (length iv - 8) iv)))

length-nonce_bytes :
    (iv : List ℕ) (pkt_num : ℕ) → 8 ≤ length iv → length (nonce_bytes iv pkt_num) ≡ length iv
unfolding nonce_bytes
length-nonce_bytes iv pkt_num k =
    let head = take (length iv - 8) iv in
    omega (
      arith,
      length-append head (xor_bytes (tail iv) (put_uint64be pkt_num)),
      length-xor_bytes (tail iv) (put_uint64be pkt_num),
      length-take (length iv - 8) iv,
      length-drop (length iv - 8) iv,
    )

read_back : (n : ℕ) → n < 2 ^ 64 → get_uint64 (put_uint64be n) ≡ ok n
unfolding put_uint64be put_uint48be put_uint32be put_uint24be put_uint16be
read_back n h = get_uint64-put_uint64be n [] h

-- From an IV of at least 8 bytes `create_nonce` makes a nonce as long as the IV, and never the same
-- nonce from two packet numbers below 2 ^ 64.
pub create_nonce_distinct :
    (iv : List ℕ) (a b : ℕ)
    → IsBytes iv
    → 8 ≤ length iv
    → a < 2 ^ 64
    → b < 2 ^ 64
    → a ≢ b
    → (x : List ℕ) × (y : List ℕ) × (create_nonce iv a ≡ ok x)
      × (create_nonce iv b ≡ ok y)
      × (length x ≡ length iv)
      × (length y ≡ length iv)
      × (x ≢ y)
create_nonce_distinct iv a b h k ha hb ne = (
  nonce_bytes iv a,
  nonce_bytes iv b,
  create_nonce_written iv a k,
  create_nonce_written iv b k,
  length-nonce_bytes iv a k,
  length-nonce_bytes iv b k,
  λ same.
      let e : put_uint64be a ≡ put_uint64be b =
        sym (recover iv a h k)
        ∙ ap (λ n. xor_bytes (tail iv) (drop (length iv - 8) n)) same
        ∙ recover iv b h k in
      let f : ok a ≡ ok b = sym (read_back a ha) ∙ ap get_uint64 e ∙ read_back b hb in ne (cc),
)
