-- ===== src/Conv/Laws.antt =====
-- The readers and writers of lib/ngtcp2_conv.c against each other.
use ngtcp.Base.{length, ok, bit_and-0x3f, ℕ, ◌%◌, ◌^◌, ◌≤◌, ◌<◌, ◌≡◌, List, [], ◌∷◌, ◌++◌, arith}
use ngtcp.Conv.{
  peek, get_be, get_uint64, get_uint48, get_uint32, get_uint24, get_uint16, varintlen_def,
  get_varint_len, mask_first, get_varint, put_uint16be, put_uint24be, put_uint32be, put_uint48be,
  put_uint64be, put_varint, put_varint_len,
}
use ngtcp.Conv.Read.{IsBytes, get_be_lt}
use ngtcp.Conv.RoundTrip.{
  varint_size, varint, put_varint_len_lem, length-varint, put_varint_lem, get_varint_len-varint,
  get_varint-varint,
}

-- For a number below 2 ^ 62 there are bytes that `put_varint` writes, `put_varint_len` says how
-- many they are, and, whatever follows them, `get_varint` reads the number back and
-- `get_varint_len` says the same length as both.
pub get_varint-put_varint :
    (n : ℕ)
    → n < 2 ^ 62
    → (out : List ℕ) × (put_varint n ≡ ok out)
      × (put_varint_len n ≡ ok (length out))
      × ((rest : List ℕ)
          → (get_varint (out ++ rest) ≡ ok (n, length out))
            × (get_varint_len (out ++ rest) ≡ ok (length out)))
get_varint-put_varint n h = (
  varint n,
  put_varint_lem n h,
  rw (length-varint n) (put_varint_len_lem n h),
  λ rest. rw (length-varint n) (get_varint-varint n rest h, get_varint_len-varint n rest h),
)

varint_size_minimal :
    (p : List ℕ) (n len : ℕ)
    → IsBytes p
    → get_varint p ≡ ok (n, len)
    → (varint_size n ≤ len) × (n < 2 ^ 62)
unfolding get_varint peek varintlen_def mask_first varint_size get_be
varint_size_minimal [] n len h e = ground arith
varint_size_minimal (b ∷ p) n len h e = ground (
  arith,
  bit_and-0x3f b h.0,
  get_be_lt 1 (b % 64) n p h.1,
  get_be_lt 3 (b % 64) n p h.1,
  get_be_lt 7 (b % 64) n p h.1,
)

-- `put_varint` writes the shortest form: if `get_varint` reads a number from `len` bytes of some
-- buffer, then `put_varint_len` of that number is at most `len`, and the number is below 2 ^ 62.
pub put_varint_len_minimal :
    (p : List ℕ) (n len : ℕ)
    → IsBytes p
    → get_varint p ≡ ok (n, len)
    → (size : ℕ) × (put_varint_len n ≡ ok size) × (size ≤ len) × (n < 2 ^ 62)
put_varint_len_minimal p n len h e =
    let (short, small) = varint_size_minimal p n len h e in
    (varint_size n, put_varint_len_lem n small, short, small)

-- Each reader of a fixed width takes back what the writer of that width writes, whatever follows:
-- the number modulo two to the power of the width.
pub get_uint-put_uint :
    (n : ℕ) (rest : List ℕ)
    → (get_uint16 (put_uint16be n ++ rest) ≡ ok (n % 2 ^ 16))
      × (get_uint24 (put_uint24be n ++ rest) ≡ ok (n % 2 ^ 24))
      × (get_uint32 (put_uint32be n ++ rest) ≡ ok (n % 2 ^ 32))
      × (get_uint48 (put_uint48be n ++ rest) ≡ ok (n % 2 ^ 48))
      × (get_uint64 (put_uint64be n ++ rest) ≡ ok (n % 2 ^ 64))
unfolding get_uint16 get_uint24 get_uint32 get_uint48 get_uint64 get_be put_uint64be put_uint48be
    put_uint32be put_uint24be put_uint16be
get_uint-put_uint n rest = (ground arith, ground arith, ground arith, ground arith, ground arith)
