-- ===== src/Base/Bits.antt =====
-- `&` and `|` of words that are split at a bit, as arithmetic.
use Prim.Native.Nat.{digits, bitwise, differ, bit_and-bitwise, bit_or-bitwise, bit_xor-bitwise}
use Prim.Native.Nat.{
  ℕ, zero, suc, ◌+◌, ◌-◌, ◌*◌, ◌/◌, ◌%◌, ◌^◌, ◌≤◌, ◌<◌, min, max, bit_and, bit_or, bit_xor,
}
use mathlib.Core.Path.{◌≡◌, refl, ap}
use mathlib.Core.Path.{◌∙◌}
use ngtcp.Base.Tests.{◌==◌, if◌then◌else◌}
use native.Mathlib.Nat.{pow-suc, le_refl, div-add-mod', mod-lt, one-le-pow}
use native.Mathlib.Omega.{arith}

-- The operation on two digits, and what is left when the first number has run out.
module _ (z : ℕ → ℕ) (f : ℕ → ℕ → ℕ) where
  digits_enough : (m n a b : ℕ) → a ≤ m → a ≤ n → digits z f m a b ≡ digits z f n a b
  digits_enough zero zero a b p q = refl
  digits_enough zero (suc n) zero b p q = refl
  digits_enough zero (suc n) (suc a) b p q = absurd (omega arith)
  digits_enough (suc m) zero zero b p q = refl
  digits_enough (suc m) zero (suc a) b p q = absurd (omega arith)
  digits_enough (suc m) (suc n) zero b p q = refl
  digits_enough (suc m) (suc n) (suc a) b p q =
      omega (arith, digits_enough m n (suc a / 2) (b / 2) (omega arith) (omega arith))

  lowest_digit :
      (a b : ℕ)
      → bitwise z f (suc a) b ≡ bitwise z f (suc a / 2) (b / 2) * 2 + f (suc a % 2) (b % 2)
  lowest_digit a b =
      omega (arith, digits_enough a (suc a / 2) (suc a / 2) (b / 2) (omega arith) (le_refl _))

or_half : (a b : ℕ) → bit_or a b ≡ bit_or (a / 2) (b / 2) * 2 + max (a % 2) (b % 2)
or_half zero b = simp bit_or-bitwise (omega arith)
or_half (suc a) b = simp bit_or-bitwise (lowest_digit (λ y. y) max a b)

and_half : (a b : ℕ) → bit_and a b ≡ bit_and (a / 2) (b / 2) * 2 + min (a % 2) (b % 2)
and_half zero b = simp bit_and-bitwise (omega arith)
and_half (suc a) b = simp bit_and-bitwise (lowest_digit (λ y. 0) min a b)

or_nothing_below : (m a : ℕ) → a ≤ m → bit_or a 0 ≡ a
or_nothing_below zero zero h = refl
or_nothing_below zero (suc a) h = absurd (omega arith)
or_nothing_below (suc m) a h = omega (arith, or_half a 0, or_nothing_below m (a / 2) (omega arith))

pub double : (q n : ℕ) → q * 2 ^ suc n ≡ 2 * (q * 2 ^ n)
double q n = omega (arith, ap (λ (t : ℕ). q * t) (pow-suc 2 n))

-- A number with `n` zeros at its end, and one of `n` digits.
pub bit_or_low : (n q r : ℕ) → r < 2 ^ n → bit_or (q * 2 ^ n) r ≡ q * 2 ^ n + r
bit_or_low zero q r h = ground (arith, or_nothing_below q q (le_refl _))
bit_or_low (suc n) q r h = ground (
  arith,
  double q n,
  pow-suc 2 n,
  or_half (q * 2 ^ suc n) r,
  bit_or_low n q (r / 2) (omega arith),
)

and_ones : (m a : ℕ) → a < 2 ^ m → bit_and a (2 ^ m - 1) ≡ a
and_ones zero zero h = refl
and_ones zero (suc a) h = absurd (omega arith)
and_ones (suc m) a h =
    ground (arith, pow-suc 2 m, and_half a (2 ^ suc m - 1), and_ones m (a / 2) (omega arith))

-- The mask of `m` ones with `n` zeros behind them.
pub bit_and_high :
    (n m q r : ℕ)
    → q < 2 ^ m
    → r < 2 ^ n
    → bit_and (q * 2 ^ n + r) ((2 ^ m - 1) * 2 ^ n) ≡ q * 2 ^ n
bit_and_high zero m q r h k = ground (arith, and_ones m q h)
bit_and_high (suc n) m q r h k = ground (
  arith,
  double q n,
  double (2 ^ m - 1) n,
  pow-suc 2 n,
  and_half (q * 2 ^ suc n + r) ((2 ^ m - 1) * 2 ^ suc n),
  bit_and_high n m q (r / 2) h (omega arith),
)

xor_half : (a b : ℕ) → bit_xor a b ≡ bit_xor (a / 2) (b / 2) * 2 + differ (a % 2) (b % 2)
xor_half zero b = simp bit_xor-bitwise (omega arith)
xor_half (suc a) b = simp bit_xor-bitwise (lowest_digit (λ y. y) differ a b)

differ-differ : (x y : ℕ) → x < 2 → y < 2 → (differ x (differ x y) ≡ y) × (differ x y < 2)
differ-differ zero y h k = (refl, k)
differ-differ (suc zero) zero h k = (refl, omega arith)
differ-differ (suc zero) (suc zero) h k = (refl, omega arith)
differ-differ (suc zero) (suc (suc y)) h k = absurd (omega arith)
differ-differ (suc (suc x)) y h k = absurd (omega arith)

-- `^` by a number undoes itself, and stays within `n` digits.
pub xor_twice :
    (n a b : ℕ) → a < 2 ^ n → b < 2 ^ n → (bit_xor a (bit_xor a b) ≡ b) × (bit_xor a b < 2 ^ n)
xor_twice zero zero zero h k = (refl, omega arith)
xor_twice zero (suc a) b h k = absurd (omega arith)
xor_twice zero zero (suc b) h k = absurd (omega arith)
xor_twice (suc n) a b h k =
    let p = pow-suc 2 n in
    let (ih, lt) = xor_twice n (a / 2) (b / 2) (omega (arith, p)) (omega (arith, p)) in
    let (d, dlt) = differ-differ (a % 2) (b % 2) (omega arith) (omega arith) in
    let c = bit_xor a b in
    let half : c / 2 ≡ bit_xor (a / 2) (b / 2) = omega (arith, xor_half a b, dlt) in
    let digit : c % 2 ≡ differ (a % 2) (b % 2) = omega (arith, xor_half a b, dlt) in
    (xor_half a c ∙ rw (half, digit, ih, d) (omega arith), omega (arith, p, xor_half a b, dlt, lt))

-- The digit `j` of a number, and that of a number with one digit set.
pub digit : ℕ → ℕ → ℕ
digit zero a = a % 2
digit (suc j) a = digit j (a / 2)

pub digit-lt : (j a : ℕ) → digit j a < 2
unfolding digit
digit-lt zero a = omega arith
digit-lt (suc j) a = digit-lt j (a / 2)

and_nothing : (m a : ℕ) → a ≤ m → bit_and a 0 ≡ 0
and_nothing zero zero h = refl
and_nothing zero (suc a) h = absurd (omega arith)
and_nothing (suc m) a h = omega (arith, and_half a 0, and_nothing m (a / 2) (omega arith))

pub bit_and-pow : (j a : ℕ) → bit_and a (2 ^ j) ≡ digit j a * 2 ^ j
unfolding digit
bit_and-pow zero a = omega (arith, and_half a 1, and_nothing (a / 2) (a / 2) (le_refl _))
bit_and-pow (suc j) a =
    let e : 2 ^ suc j / 2 ≡ 2 ^ j = omega (arith, pow-suc 2 j) in
    let z : 2 ^ suc j % 2 ≡ 0 = omega (arith, pow-suc 2 j) in
    and_half a (2 ^ suc j)
    ∙ rw (e, z, bit_and-pow j (a / 2)) (omega (arith, double (digit j (a / 2)) j))

pub digit-bit_or : (i j a : ℕ) → digit j (bit_or a (2 ^ i)) ≡ (if j == i then 1 else digit j a)
unfolding digit
digit-bit_or zero zero a = omega (arith, or_half a 1)
digit-bit_or zero (suc j) a =
    let e : bit_or a 1 / 2 ≡ a / 2 =
      omega (arith, or_half a 1, or_nothing_below (a / 2) (a / 2) (le_refl _)) in
    rw e (ground arith)
digit-bit_or (suc i) zero a = ground (arith, or_half a (2 ^ suc i), pow-suc 2 i)
digit-bit_or (suc i) (suc j) a =
    let h : 2 ^ suc i / 2 ≡ 2 ^ i = omega (arith, pow-suc 2 i) in
    let z : 2 ^ suc i % 2 ≡ 0 = omega (arith, pow-suc 2 i) in
    let half : bit_or a (2 ^ suc i) ≡ bit_or (a / 2) (2 ^ i) * 2 + max (a % 2) 0 =
      or_half a (2 ^ suc i) ∙ rw (h, z) refl in
    let e : bit_or a (2 ^ suc i) / 2 ≡ bit_or (a / 2) (2 ^ i) = omega (arith, half) in
    rw e (ground (arith, digit-bit_or i j (a / 2)))

-- The digits 0, 1 and 3.
pub bit_and-0x0b : (a : ℕ) → bit_and a 0x0b ≡ digit 0 a + 2 * digit 1 a + 8 * digit 3 a
unfolding digit
bit_and-0x0b a = ground (
  arith,
  and_half a 11,
  and_half (a / 2) 5,
  and_half (a / 2 / 2) 2,
  and_half (a / 2 / 2 / 2) 1,
  and_nothing (a / 2 / 2 / 2 / 2) (a / 2 / 2 / 2 / 2) (le_refl _),
)

-- The mask of the `k` lowest digits.
and_low : (k q r : ℕ) → r < 2 ^ k → bit_and (q * 2 ^ k + r) (2 ^ k - 1) ≡ r
and_low zero q r h = omega (arith, and_nothing (q * 2 ^ 0 + r) (q * 2 ^ 0 + r) (le_refl _))
and_low (suc k) q r h =
    let a = q * 2 ^ suc k + r in
    let m = 2 ^ suc k - 1 in
    let p = pow-suc 2 k in
    let low : a / 2 ≡ q * 2 ^ k + r / 2 = omega (arith, double q k, p) in
    let ones : m / 2 ≡ 2 ^ k - 1 = omega (arith, p) in
    let ih : bit_and (a / 2) (m / 2) ≡ r / 2 =
      rw (low, ones) (and_low k q (r / 2) (omega (arith, p, h))) in
    ground (arith, double q k, p, and_half a m, ih, h)

pub bit_and-ones : (k a : ℕ) → bit_and a (2 ^ k - 1) ≡ a % 2 ^ k
bit_and-ones k a =
    let n = 2 ^ k in
    let e : a / n * n + a % n ≡ a = div-add-mod' a n in
    rw e at (and_low k (a / n) (a % n) (mod-lt a (omega (arith, one-le-pow k 2))))
