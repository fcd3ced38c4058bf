-- ===== src/Pkt/Num.antt =====
-- lib/ngtcp2_pkt.c: `ngtcp2_pkt_adjust_pkt_num`, which finds a full packet number from its low bits.
use native.Mathlib.Nat.{pow-suc, one-le-pow}
use ngtcp.Base.{
  ltb, ◌==◌, if◌then◌else◌, double, bit_or_low, bit_and_high, ℕ, zero, suc, ◌+◌, ◌-◌, ◌*◌, ◌%◌, ◌^◌,
  ◌≤◌, ◌<◌, bit_and, bit_or, ◌≡◌, refl, ap, ◌∙◌, ◌⊎◌, false, arith,
}

-- `|a - b|`, as the code takes it
unfoldable pub distance : ℕ → ℕ → ℕ
distance k a = if ltb k a then a - k else k - a

-- `~((1llu << n) - 1)` on 64 bits, for `n` up to 64
unfoldable pub high_mask : ℕ → ℕ
high_mask n = 18446744073709551615 - (2 ^ n - 1)

unfoldable pub adjust_pkt_num : ℕ → ℕ → ℕ → ℕ
adjust_pkt_num max_pkt_num pkt_num n =
    let k = if max_pkt_num == 18446744073709551615 then max_pkt_num else max_pkt_num + 1 in
    let u = bit_and k (high_mask n) in
    let a = bit_or u pkt_num in
    let b = bit_or ((u + 2 ^ n) % 18446744073709551616) pkt_num in
    if ltb (distance k a) (distance k b) then a else b

pow_split : (n m : ℕ) → 2 ^ m * 2 ^ n ≡ 2 ^ (n + m)
pow_split zero m = omega (arith, ap (λ (t : ℕ). 2 ^ t) (plus_zero m))
  where
    plus_zero : (m : ℕ) → m ≡ 0 + m
    plus_zero m = omega arith
pow_split (suc n) m =
    let e : suc n + m ≡ suc (n + m) = omega arith in
    omega (arith, double (2 ^ m) n, pow_split n m, pow-suc 2 (n + m), ap (λ (t : ℕ). 2 ^ t) e)

word_split : (n m : ℕ) → n + m ≡ 64 → 2 ^ m * 2 ^ n ≡ 18446744073709551616
word_split n m h = pow_split n m ∙ ap (λ (t : ℕ). 2 ^ t) h

-- `q` and `q + 1` times `2 ^ n` fit, with what lies below the next multiple.
word_room : (n m q : ℕ) → n + m ≡ 64 → q + 1 < 2 ^ m → q * 2 ^ n + 2 * 2 ^ n ≤ 18446744073709551616
word_room n m q h k =
    let e : 2 ^ m ≡ q + 2 + (2 ^ m - (q + 2)) = omega arith in
    omega (arith, word_split n m h, ap (λ (t : ℕ). t * 2 ^ n) e)

high_mask_lem : (n m : ℕ) → n + m ≡ 64 → high_mask n ≡ (2 ^ m - 1) * 2 ^ n
unfolding high_mask
high_mask_lem n m h =
    let e : 2 ^ m ≡ (2 ^ m - 1) + 1 = omega (arith, one-le-pow m 2) in
    omega (arith, word_split n m h, one-le-pow n 2, one-le-pow m 2, ap (λ (t : ℕ). t * 2 ^ n) e)

-- The two candidates.
adjust_candidates :
    (max_pkt_num q r p n m : ℕ)
    → n + m ≡ 64
    → max_pkt_num + 1 ≡ q * 2 ^ n + r
    → r < 2 ^ n
    → p < 2 ^ n
    → q + 1 < 2 ^ m
    → adjust_pkt_num max_pkt_num p n ≡ (
        if ltb
          (distance (q * 2 ^ n + r) (q * 2 ^ n + p))
          (distance (q * 2 ^ n + r) ((q + 1) * 2 ^ n + p))
        then q * 2 ^ n + p
        else (q + 1) * 2 ^ n + p)
unfolding adjust_pkt_num
adjust_candidates max_pkt_num q r p n m e k hr hp hq =
    let room = word_room n m q e hq in
    let top : max_pkt_num == 18446744073709551615 ≡ false = ground (arith, room) in
    let next : (q * 2 ^ n + 2 ^ n) % 18446744073709551616 ≡ (q + 1) * 2 ^ n = omega (arith, room) in
    rw
      (
        top,
        k,
        high_mask_lem n m e,
        bit_and_high n m q r (omega arith) hr,
        next,
        bit_or_low n q p hp,
        bit_or_low n (q + 1) p hp,
      )
      refl

-- Let `x` be a packet number whose low `n` bits are `p`, and let the number expected next, one above
-- `max_pkt_num`, lie between `q * 2 ^ n` and the next multiple. If `x` lies there or one multiple
-- higher, which still fits 64 bits, and is less than half of 2 ^ n away from the number expected,
-- then `adjust_pkt_num` finds `x` from `p`.
pub adjust_pkt_num_lem :
    (max_pkt_num x p n m q : ℕ)
    → n + m ≡ 64
    → q + 2 ≤ 2 ^ m
    → q * 2 ^ n ≤ max_pkt_num + 1
    → max_pkt_num + 1 < q * 2 ^ n + 2 ^ n
    → p < 2 ^ n
    → (x ≡ q * 2 ^ n + p) ⊎ (x ≡ (q + 1) * 2 ^ n + p)
    → 2 * distance (max_pkt_num + 1) x < 2 ^ n
    → adjust_pkt_num max_pkt_num p n ≡ x
unfolding distance
adjust_pkt_num_lem max_pkt_num x p n m q e fits lo hi hp which near =
    let r = max_pkt_num + 1 - q * 2 ^ n in
    ground (
      arith,
      adjust_candidates max_pkt_num q r p n m e (omega arith) (omega arith) hp (omega arith),
    )
