-- ===== src/Conv.antt =====
-- lib/ngtcp2_conv.c: integers in network byte order and variable-length integers.
-- A pointer into a buffer is the list of the bytes from it to the buffer's end; a read past the
-- end is a fault. `memcpy` and the byte swaps of a little-endian host cancel out to big-endian.
pub mod Read
pub mod RoundTrip
pub mod Laws
use ngtcp.Base.{
  ltb, ◌==◌, if◌then◌else◌, Result, ok, fault, ◌>>=◌, ◌>>◌, assert, ℕ, zero, suc, ◌+◌, ◌*◌, ◌/◌,
  ◌%◌, bit_and, bit_or, List, [], ◌∷◌,
}

-- `*p`
unfoldable pub peek : List ℕ → Result ℕ
peek [] = fault
peek (b ∷ p) = ok b

-- `k` bytes from `p`, highest first, behind what is read already
unfoldable pub get_be : ℕ → ℕ → List ℕ → Result ℕ
get_be zero acc p = ok acc
get_be (suc k) acc [] = fault
get_be (suc k) acc (b ∷ p) = get_be k (acc * 256 + b) p

unfoldable pub get_uint64 : List ℕ → Result ℕ
get_uint64 p = get_be 8 0 p

unfoldable pub get_uint48 : List ℕ → Result ℕ
get_uint48 p = get_be 6 0 p

unfoldable pub get_uint32 : List ℕ → Result ℕ
get_uint32 p = get_be 4 0 p

unfoldable pub get_uint24 : List ℕ → Result ℕ
get_uint24 p = get_be 3 0 p

unfoldable pub get_uint16 : List ℕ → Result ℕ
get_uint16 p = get_be 2 0 p

-- The table is indexed by two bits.
unfoldable pub varintlen_def : ℕ → ℕ
varintlen_def i = if i == 0 then 1 else if i == 1 then 2 else if i == 2 then 4 else 8

unfoldable pub get_varint_len : List ℕ → Result ℕ
get_varint_len p = do b ← peek p; ok (varintlen_def (b / 64))

-- `n.b[0] &= 0x3f`
unfoldable pub mask_first : List ℕ → List ℕ
mask_first [] = []
mask_first (b ∷ p) = bit_and b 0x3f ∷ p

-- The value, and `*plen`.
unfoldable pub get_varint : List ℕ → Result (ℕ × ℕ)
get_varint p = do
  b ← peek p
  let plen = varintlen_def (b / 64)
  if plen == 1 then ok (b, 1) else (do v ← get_be plen 0 (mask_first p); ok (v, plen))

-- The lowest byte of `n >> 8 * i`, for `i` from `k - 1` down to 0.
unfoldable pub put_uint16be : ℕ → List ℕ
put_uint16be n = (n / 256 % 256) ∷ (n % 256) ∷ []

unfoldable pub put_uint24be : ℕ → List ℕ
put_uint24be n = (n / 65536 % 256) ∷ put_uint16be n

unfoldable pub put_uint32be : ℕ → List ℕ
put_uint32be n = (n / 16777216 % 256) ∷ put_uint24be n

unfoldable pub put_uint48be : ℕ → List ℕ
put_uint48be n = (n / 1099511627776 % 256) ∷ (n / 4294967296 % 256) ∷ put_uint32be n

unfoldable pub put_uint64be : ℕ → List ℕ
put_uint64be n = (n / 72057594037927936 % 256) ∷ (n / 281474976710656 % 256) ∷ put_uint48be n

-- `*p |= mask`
unfoldable pub or_first : ℕ → List ℕ → List ℕ
or_first mask [] = []
or_first mask (b ∷ p) = bit_or b mask ∷ p

-- The bytes that are written at `p`.
unfoldable pub put_varint : ℕ → Result (List ℕ)
put_varint n =
    if ltb n 64
    then ok ((n % 256) ∷ [])
    else if ltb n 16384
    then ok (or_first 0x40 (put_uint16be (n % 65536)))
    else if ltb n 1073741824
    then ok (or_first 0x80 (put_uint32be (n % 4294967296)))
    else (do assert (ltb n 4611686018427387904); ok (or_first 0xc0 (put_uint64be n)))

unfoldable pub put_varint_len : ℕ → Result ℕ
put_varint_len n =
    if ltb n 64
    then ok 1
    else if ltb n 16384
    then ok 2
    else if ltb n 1073741824
    then ok 4
    else (do assert (ltb n 4611686018427387904); ok 8)
