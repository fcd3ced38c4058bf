-- ===== src/Conv/RoundTrip.antt =====
-- What is put is read back, whatever follows it.
use ngtcp.Base.{
  ltb, if◌then◌else◌, length, ok, bit_and-0x3f, bit_or-0x40, bit_or-0x80, bit_or-0xc0, ℕ, ◌+◌, ◌/◌,
  ◌%◌, ◌≤◌, ◌<◌, ◌≡◌, refl, List, [], ◌∷◌, ◌++◌, arith,
}
use ngtcp.Conv.{
  peek, get_be, get_uint64, get_uint32, get_uint16, varintlen_def, get_varint_len, mask_first,
  get_varint, put_uint16be, put_uint24be, put_uint32be, put_uint48be, put_uint64be, or_first,
  put_varint, put_varint_len,
}

pub get_uint16-put_uint16be :
    (n : ℕ) (rest : List ℕ) → n < 65536 → get_uint16 (put_uint16be n ++ rest) ≡ ok n
unfolding get_uint16 get_be put_uint16be
get_uint16-put_uint16be n rest h = ground arith

pub get_uint32-put_uint32be :
    (n : ℕ) (rest : List ℕ) → n < 4294967296 → get_uint32 (put_uint32be n ++ rest) ≡ ok n
unfolding get_uint32 get_be put_uint32be put_uint24be put_uint16be
get_uint32-put_uint32be n rest h = ground arith

pub get_uint64-put_uint64be :
    (n : ℕ) (rest : List ℕ) → n < 18446744073709551616 → get_uint64 (put_uint64be n ++ rest) ≡ ok n
unfolding get_uint64 get_be put_uint64be put_uint48be put_uint32be put_uint24be put_uint16be
get_uint64-put_uint64be n rest h = ground arith

-- What `put_varint` writes for a number below 2 ^ 62, and how long that is.
unfoldable pub varint_size : ℕ → ℕ
varint_size n = if ltb n 64 then 1 else if ltb n 16384 then 2 else if ltb n 1073741824 then 4 else 8

pub varint : ℕ → List ℕ
varint n =
    if ltb n 64
    then n ∷ []
    else if ltb n 16384
    then (n / 256 + 64) ∷ (n % 256) ∷ []
    else if ltb n 1073741824
    then (n / 16777216 + 128) ∷ put_uint24be n
    else (n / 72057594037927936 + 192) ∷ (n / 281474976710656 % 256) ∷ put_uint48be n

-- A number that the encoding can hold.
abbrev pub IsVarint : ℕ → Type 0
IsVarint n = n < 4611686018427387904

pub varint_size_bounds : (n : ℕ) → (1 ≤ varint_size n) × (varint_size n ≤ 8)
unfolding varint_size
varint_size_bounds n = ground arith

pub put_varint_len_lem : (n : ℕ) → IsVarint n → put_varint_len n ≡ ok (varint_size n)
unfolding put_varint_len varint_size
put_varint_len_lem n h = ground arith

pub length-varint : (n : ℕ) → length (varint n) ≡ varint_size n
unfolding varint varint_size put_uint24be put_uint16be put_uint48be put_uint32be
length-varint n = ground arith

pub put_varint_lem : (n : ℕ) → IsVarint n → put_varint n ≡ ok (varint n)
unfolding put_varint varint or_first put_uint16be put_uint32be put_uint24be put_uint64be
    put_uint48be
put_varint_lem n h =
    ground (
      arith,
      bit_or-0x40 (n / 256),
      bit_or-0x80 (n / 16777216),
      bit_or-0xc0 (n / 72057594037927936),
    )

pub get_varint_len-varint :
    (n : ℕ) (rest : List ℕ) → IsVarint n → get_varint_len (varint n ++ rest) ≡ ok (varint_size n)
unfolding get_varint_len peek varintlen_def varint varint_size
get_varint_len-varint n rest h = ground arith

pub get_varint-varint :
    (n : ℕ) (rest : List ℕ) → IsVarint n → get_varint (varint n ++ rest) ≡ ok (n, varint_size n)
unfolding get_varint peek varintlen_def mask_first get_be varint varint_size put_uint24be
    put_uint16be put_uint48be put_uint32be
get_varint-varint n rest h = ground (
  arith,
  bit_and-0x3f (n / 256 + 64),
  bit_and-0x3f (n / 16777216 + 128),
  bit_and-0x3f (n / 72057594037927936 + 192),
)

pub length-put_uint16be : (n : ℕ) → length (put_uint16be n) ≡ 2
unfolding put_uint16be
length-put_uint16be n = refl

pub length-put_uint64be : (n : ℕ) → length (put_uint64be n) ≡ 8
unfolding put_uint64be put_uint48be put_uint32be put_uint24be put_uint16be
length-put_uint64be n = refl
