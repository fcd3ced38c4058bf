-- ===== src/Track/Ringbuf/Mask.antt =====
-- Masks of the form `nmemb - 1`, and positions in the ring.
use native.Mathlib.Nat.{
  pow-suc, one-le-pow, mod-mod_of_dvd, dvd-mul_right, mod-add-mod, mod-eq_of_lt, mod-eq-sub-mod,
}
use ngtcp.Base.{
  leb, ◌==◌, leb→le, Bool-cases, bit_and-ones, ℕ, zero, suc, ◌+◌, ◌-◌, ◌*◌, ◌/◌, ◌%◌, ◌^◌, ◌≤◌, ◌<◌,
  bit_and, ◌≡◌, refl, sym, ap, ◌∙◌, ◌≢◌, inl, inr, arith,
}
use ngtcp.Track.Ringbuf.{sub_size, popcount}
use ngtcp.Pkt.Cursor.{add_size}

popcount-zero : (m n : ℕ) → n < 2 ^ m → popcount m n ≡ 0 → n ≡ 0
unfolding popcount
popcount-zero zero n lt h = omega arith
popcount-zero (suc m) n lt h =
    let lt' : n / 2 < 2 ^ m = omega (arith, pow-suc 2 m) in
    omega (arith, popcount-zero m (n / 2) lt' (omega arith))

pub popcount-zeros : (m : ℕ) → popcount m 0 ≡ 0
unfolding popcount
popcount-zeros zero = refl
popcount-zeros (suc m) = omega (arith, popcount-zeros m)

pub popcount-pow : (m k : ℕ) → k < m → popcount m (2 ^ k) ≡ 1
unfolding popcount
popcount-pow zero k lt = absurd (omega arith)
popcount-pow (suc m) zero lt = omega (arith, popcount-zeros m)
popcount-pow (suc m) (suc k) lt =
    let half : 2 ^ suc k / 2 ≡ 2 ^ k = omega (arith, pow-suc 2 k) in
    let even : 2 ^ suc k % 2 ≡ 0 = omega (arith, pow-suc 2 k) in
    rw (half, even, popcount-pow m k (omega (arith, lt))) refl

-- A number with a single one among its digits is a power of two.
pub popcount-one : (m n : ℕ) → n < 2 ^ m → popcount m n ≡ 1 → (k : ℕ) × (k < m) × (n ≡ 2 ^ k)
unfolding popcount
popcount-one zero n lt h = absurd (omega arith)
popcount-one (suc m) n lt h =
    let lt' : n / 2 < 2 ^ m = omega (arith, pow-suc 2 m) in
    elim (Bool-cases (n % 2 == 1)) [
      | inl e ↦ (0, omega arith, ground (arith, popcount-zero m (n / 2) lt'))
      | inr e ↦
          let (k, less, is) = popcount-one m (n / 2) lt' (ground arith) in
          (suc k, omega (arith, less), ground (arith, pow-suc 2 k, is))
    ]

pow_split : (j k : ℕ) → 2 ^ (j + k) ≡ 2 ^ j * 2 ^ k
pow_split zero k = let e : 0 + k ≡ k = omega arith in rw e (omega arith)
pow_split (suc j) k =
    let e : suc j + k ≡ suc (j + k) = omega arith in
    let m : 2 * 2 ^ j * 2 ^ k ≡ 2 * (2 ^ j * 2 ^ k) = omega arith in
    rw (e, pow-suc 2 (j + k), pow-suc 2 j, pow_split j k) (omega arith)

-- `2 ^ 64` is a multiple of the size of the ring.
words_mod : (k a : ℕ) → k < 32 → a % 18446744073709551616 % 2 ^ k ≡ a % 2 ^ k
words_mod k a lt =
    let e : k + (64 - k) ≡ 64 = omega (arith, lt) in
    let w : 18446744073709551616 ≡ 2 ^ k * 2 ^ (64 - k) =
      ap (λ t. 2 ^ t) (sym e) ∙ pow_split k (64 - k) in
    let d = dvd-mul_right (2 ^ k) (2 ^ (64 - k)) in rw w (mod-mod_of_dvd (2 ^ k) a d)

pub pow_small : (k : ℕ) → k < 32 → (1 ≤ 2 ^ k) × (2 ^ k ≤ 2147483648)
pow_small k lt =
    let e : k + (31 - k) ≡ 31 = omega (arith, lt) in
    let w : 2147483648 ≡ 2 ^ k * 2 ^ (31 - k) = ap (λ t. 2 ^ t) (sym e) ∙ pow_split k (31 - k) in
    let one = one-le-pow (31 - k) 2 in
    (omega (arith, one-le-pow k 2), mul_le (2 ^ k) (2 ^ (31 - k)) (omega (arith, one)) w)
  where
    mul_le : (a b : ℕ) → 1 ≤ b → 2147483648 ≡ a * b → a ≤ 2147483648
    mul_le a zero h e = absurd (omega arith)
    mul_le a (suc b) h e = let d : a * suc b ≡ a + a * b = omega arith in omega (arith, d, e)

module _ (k : ℕ) (small : k < 32) where
  mask_lem : sub_size (2 ^ k) 1 ≡ 2 ^ k - 1
  mask_lem = omega (arith, pow_small k small)

  -- The slot of an offset, and the slot before `first`.
  pub slot_lem :
      (first offset : ℕ)
      → bit_and (add_size first offset) (sub_size (2 ^ k) 1) ≡ (first + offset) % 2 ^ k
  slot_lem first offset =
      rw (mask_lem, bit_and-ones k (add_size first offset)) (words_mod k (first + offset) small)

  pub front_lem :
      (first : ℕ)
      → bit_and (sub_size first 1) (sub_size (2 ^ k) 1) ≡ (first + 18446744073709551615) % 2 ^ k
  front_lem first =
      let e : first + 18446744073709551616 - 1 ≡ first + 18446744073709551615 = omega arith in
      rw (mask_lem, bit_and-ones k (sub_size first 1), e)
        (words_mod k (first + 18446744073709551615) small)

  -- The slot behind the new first one is the old first one.
  pub behind_front :
      (first i : ℕ) → ((first + 18446744073709551615) % 2 ^ k + suc i) % 2 ^ k ≡ (first + i) % 2 ^ k
  behind_front first i =
      let n = 2 ^ k in
      let e : first + 18446744073709551615 + suc i ≡ (first + i) + 18446744073709551616 =
        omega arith in
      mod-add-mod (first + 18446744073709551615) n (suc i)
      ∙ rw (e, sym (words_mod k ((first + i) + 18446744073709551616) small))
          (let d : ((first + i) + 18446744073709551616) % 18446744073709551616
                ≡ (first + i) % 18446744073709551616 =
              omega arith in
            rw d (words_mod k (first + i) small))

-- The slots behind a slot are others, for less than a whole round.
pub other_slot : (n f j : ℕ) → f < n → suc j < n → f ≢ (f + suc j) % n
other_slot n f j lt less e = elim (Bool-cases (leb n (f + suc j))) [
  | inl h ↦
      let le = leb→le _ _ h in
      let m : (f + suc j) % n ≡ f + suc j - n =
        mod-eq-sub-mod le ∙ mod-eq_of_lt (omega (arith, lt, less, le)) in
      omega (arith, e, m, lt, less, le)
  | inr h ↦
      let m : (f + suc j) % n ≡ f + suc j = mod-eq_of_lt (ground (arith, h)) in omega (arith, e, m)
]
