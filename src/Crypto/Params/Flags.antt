-- ===== src/Crypto/Params/Flags.antt =====
-- The flags of `ngtcp2_decode_transport_params` as a set of parameter types.
use native.Mathlib.Nat.{one-le-pow}
use ngtcp.Base.{
  ◌==◌, digit, digit-lt, bit_and-pow, digit-bit_or, bit_and-0x0b, ℕ, zero, suc, ◌*◌, ◌^◌, ◌<◌,
  bit_and, bit_or, ◌≡◌, true, not, ◌||◌, arith,
}
use ngtcp.Pkt.Cursor.{has_bit}
use ngtcp.Crypto.Params.Decode.{set_flag, test_flag}

test_flag-digit : (j flags : ℕ) → test_flag j flags ≡ (digit j flags == 1)
unfolding test_flag has_bit
test_flag-digit j flags = rw (bit_and-pow j flags) (split (digit j flags) (digit-lt j flags))
  where
    split : (d : ℕ) → d < 2 → not (d * 2 ^ j == 0) ≡ (d == 1)
    split zero h = ground arith
    split (suc zero) h = ground (arith, one-le-pow j 2)
    split (suc (suc d)) h = absurd (omega arith)

-- A flag is set after it was set, and every other flag is as it was.
pub test_flag-set_flag :
    (i j flags : ℕ) → test_flag j (set_flag i flags) ≡ ((j == i) || test_flag j flags)
unfolding set_flag
test_flag-set_flag i j flags =
    rw (test_flag-digit j (bit_or flags (2 ^ i)), test_flag-digit j flags, digit-bit_or i j flags)
      (ground arith)

-- All required parameters have been seen.
pub required_set :
    (flags : ℕ)
    → test_flag 0 flags ≡ true
    → test_flag 1 flags ≡ true
    → test_flag 3 flags ≡ true
    → bit_and flags 0x0b ≡ 0x0b
required_set flags a b c = ground (
  arith,
  bit_and-0x0b flags,
  test_flag-digit 0 flags,
  test_flag-digit 1 flags,
  test_flag-digit 3 flags,
)
