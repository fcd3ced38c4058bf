-- ===== src/Conv/Read.antt =====
-- What the readers return on any buffer that is long enough.
use ngtcp.Base.{
  ◌==◌, if◌then◌else◌, length, drop, ok, bit_and-0x3f, ℕ, zero, suc, ◌+◌, ◌-◌, ◌*◌, ◌/◌, ◌%◌, ◌^◌,
  ◌≤◌, ◌<◌, bit_and, ◌≡◌, refl, ap, List, [], ◌∷◌, arith,
}
use native.Mathlib.Nat.{pow-suc}
use ngtcp.Conv.{peek, get_be, varintlen_def, get_varint_len, mask_first, get_varint}

-- Every element is a byte.
abbrev pub IsBytes : List ℕ → Type 0
IsBytes [] = Unit {0}
IsBytes (b ∷ p) = (b < 256) × IsBytes p

pub drop-IsBytes : (n : ℕ) (p : List ℕ) → IsBytes p → IsBytes (drop n p)
drop-IsBytes zero p h = h
drop-IsBytes (suc n) [] h = tt
drop-IsBytes (suc n) (b ∷ p) h = drop-IsBytes n p h.1

-- The number in the first `k` bytes, behind `acc`.
unfoldable pub be_value : ℕ → ℕ → List ℕ → ℕ
be_value zero acc p = acc
be_value (suc k) acc [] = be_value k (acc * 256) []
be_value (suc k) acc (b ∷ p) = be_value k (acc * 256 + b) p

pub get_be_lem : (k acc : ℕ) (p : List ℕ) → k ≤ length p → get_be k acc p ≡ ok (be_value k acc p)
unfolding get_be be_value
get_be_lem zero acc p h = refl
get_be_lem (suc k) acc [] h = absurd (omega arith)
get_be_lem (suc k) acc (b ∷ p) h = get_be_lem k (acc * 256 + b) p (omega arith)

shift_le : (acc b m : ℕ) → b < 256 → (acc * 256 + b + 1) * m ≤ (acc + 1) * (m * 256)
shift_le acc b m h =
    let e : b + (255 - b) ≡ 255 = omega arith in omega (arith, ap (λ (t : ℕ). t * m) e)

pub be_value_lt : (k acc : ℕ) (p : List ℕ) → IsBytes p → be_value k acc p + 1 ≤ (acc + 1) * 256 ^ k
unfolding be_value
be_value_lt zero acc p h = omega arith
be_value_lt (suc k) acc [] h =
    rw pow-suc
      (omega (arith, be_value_lt k (acc * 256) [] tt, shift_le acc 0 (256 ^ k) (omega arith)))
be_value_lt (suc k) acc (b ∷ p) h =
    rw pow-suc (omega (arith, be_value_lt k (acc * 256 + b) p h.1, shift_le acc b (256 ^ k) h.0))

pub peek_lem : (p : List ℕ) → 0 < length p → peek p ≡ ok (be_value 1 0 p)
unfolding peek be_value
peek_lem [] h = absurd (omega arith)
peek_lem (b ∷ p) h = ground arith

pub get_be_lt :
    (k acc v : ℕ) (p : List ℕ) → IsBytes p → get_be k acc p ≡ ok v → v + 1 ≤ (acc + 1) * 256 ^ k
unfolding get_be
get_be_lt zero acc v p h e = ground arith
get_be_lt (suc k) acc v [] h e = ground arith
get_be_lt (suc k) acc v (b ∷ p) h e =
    rw pow-suc (omega (arith, get_be_lt k (acc * 256 + b) v p h.1 e, shift_le acc b (256 ^ k) h.0))

-- The length of the varint at `p`, its value, and what follows it.
pub vlen : List ℕ → ℕ
vlen [] = 1
vlen (b ∷ p) = varintlen_def (b / 64)

pub varint_value : List ℕ → ℕ
varint_value [] = 0
varint_value (b ∷ p) =
    if varintlen_def (b / 64) == 1
    then b
    else be_value (varintlen_def (b / 64)) 0 (mask_first (b ∷ p))

abbrev pub next : List ℕ → List ℕ
next p = drop (vlen p) p

pub vlen_bounds : (p : List ℕ) → (1 ≤ vlen p) × (vlen p ≤ 8)
unfolding vlen varintlen_def
vlen_bounds [] = omega arith
vlen_bounds (b ∷ p) = ground arith

pub get_varint_len_lem : (p : List ℕ) → 0 < length p → get_varint_len p ≡ ok (vlen p)
unfolding get_varint_len peek vlen
get_varint_len_lem [] h = absurd (omega arith)
get_varint_len_lem (b ∷ p) h = refl

pub get_varint_lem : (p : List ℕ) → vlen p ≤ length p → get_varint p ≡ ok (varint_value p, vlen p)
unfolding get_varint peek vlen varint_value mask_first
get_varint_lem [] h = absurd (omega arith)
get_varint_lem (b ∷ p) h =
    ground (arith, get_be_lem (varintlen_def (b / 64)) 0 (bit_and b 0x3f ∷ p))

-- A varint is below 2 ^ 62.
pub varint_value_lt : (p : List ℕ) → IsBytes p → varint_value p < 4611686018427387904
unfolding varint_value varintlen_def be_value mask_first
varint_value_lt [] h = omega arith
varint_value_lt (b ∷ p) h = ground (
  arith,
  bit_and-0x3f b,
  be_value_lt 1 (b % 64) p h.1,
  be_value_lt 3 (b % 64) p h.1,
  be_value_lt 7 (b % 64) p h.1,
)
