-- ===== src/Pkt/Special.antt =====
-- lib/ngtcp2_pkt.c: Version Negotiation and Stateless Reset, and the check of an ACK frame.
pub mod Versions
pub mod Reset
use ngtcp.Base.{
  leb, ◌==◌, length, take, drop, invalid_argument, nobuf, Result, ok, fault, ◌>>=◌, ◌>>◌, guard,
  assert, ℕ, zero, suc, ◌+◌, ◌-◌, ◌*◌, ◌/◌, ◌%◌, min, bit_or, List, [], ◌∷◌, ◌++◌,
}
use ngtcp.Conv.{get_uint32, put_uint32be, put_uint64be}
use ngtcp.Pkt.Cursor.{check_out, encoded}
use ngtcp.Pkt.Hd.{PktHd, encode_hd_short}

-- The loop over `sv`.
unfoldable pub put_versions : List ℕ → List ℕ
put_versions [] = []
put_versions (v ∷ sv) = put_uint32be v ++ put_versions sv

-- `sv` is the array with its length `nsv`; the bytes are those written from `dest` on.
unfoldable pub write_version_negotiation : ℕ → ℕ → ℕ → List ℕ → Result (List ℕ)
write_version_negotiation destlen unused_random conn_id sv = do
  let len = 1 + 8 + 4 + length sv * 4
  check_out destlen len
  encoded len
      (bit_or 0x80 unused_random ∷ (put_uint64be conn_id ++ (put_uint32be 0 ++ put_versions sv)))

-- The loop, which stops where `payload == end`; `n` bounds the number of its rounds.
unfoldable pub get_versions : ℕ → List ℕ → Result (List ℕ)
get_versions n [] = ok []
get_versions zero (b ∷ p) = fault
get_versions (suc n) (b ∷ p) = do
  v ← get_uint32 (b ∷ p)
  sv ← get_versions n (drop 4 (b ∷ p))
  ok (v ∷ sv)

-- What is written to `dest`, and the number that is returned.
unfoldable pub decode_version_negotiation : List ℕ → Result (List ℕ × ℕ)
decode_version_negotiation payload = do
  assert (length payload % 4 == 0)
  sv ← get_versions (length payload) payload
  ok (sv, length payload / 4)

-- `ngtcp2_pkt_stateless_reset`; `rand` is `rand` with `randlen`, and the token is what the pointer
-- reaches: the rest of the payload.
pub record StatelessReset : Type 0 where
  pub stateless_reset_token : List ℕ
  pub rand : List ℕ

unfoldable pub decode_stateless_reset : List ℕ → Result StatelessReset
decode_stateless_reset payload = do
  guard (leb 16 (length payload)) invalid_argument
  let randlen = length payload - 16
  ok record { stateless_reset_token = drop randlen payload; rand = take randlen payload }

-- `token` is the array of 16 bytes at `stateless_reset_token`, `rand` the bytes at `rand`, with
-- `randlen` for their number.
unfoldable pub write_stateless_reset : ℕ → PktHd → List ℕ → List ℕ → Result (List ℕ)
write_stateless_reset destlen hd token rand = do
  p ← encode_hd_short destlen hd
  let left = destlen - length p
  guard (leb 16 left) nobuf
  let randlen = min (left - 16) (length rand)
  ok (p ++ (take randlen rand ++ take 16 token))
