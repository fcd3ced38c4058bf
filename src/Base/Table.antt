-- ===== src/Base/Table.antt =====
-- Bit operations on one byte as arithmetic: tables of at most 256 entries, checked by evaluation.
use Prim.Native.Nat.{ℕ, zero, suc, ◌+◌, ◌%◌, ◌<◌, bit_and, bit_or}
use mathlib.Core.Path.{◌≡◌, refl}
use mathlib.Core.Bool.{Bool, true, false}
use mathlib.Core.Logic.{ite}
use native.Mathlib.Decide.{ℕ_discrete}
use native.Mathlib.Omega.{arith}

module _ (f g : ℕ → ℕ) where
  pub agree_below : ℕ → Bool
  unfolding ℕ_discrete
  agree_below zero = true
  agree_below (suc n) = ite (ℕ_discrete (f n) (g n)) (agree_below n) false

  pub agree_below→eq : (n : ℕ) → agree_below n ≡ true → (i : ℕ) → i < n → f i ≡ g i
  unfolding agree_below
  agree_below→eq zero e i h = absurd (omega arith)
  agree_below→eq (suc n) e i h = ground (arith, agree_below→eq n (ground arith) i)

pub bit_and-0x3f : (b : ℕ) → b < 256 → bit_and b 0x3f ≡ b % 64
unfolding agree_below
bit_and-0x3f = agree_below→eq _ _ 256 refl

pub bit_or-0x40 : (b : ℕ) → b < 64 → bit_or b 0x40 ≡ b + 64
unfolding agree_below
bit_or-0x40 = agree_below→eq _ _ 64 refl

pub bit_or-0x80 : (b : ℕ) → b < 64 → bit_or b 0x80 ≡ b + 128
unfolding agree_below
bit_or-0x80 = agree_below→eq _ _ 64 refl

pub bit_or-0xc0 : (b : ℕ) → b < 64 → bit_or b 0xc0 ≡ b + 192
unfolding agree_below
bit_or-0xc0 = agree_below→eq _ _ 64 refl

pub bit_and-bit_or-0x80 : (b : ℕ) → b < 256 → bit_and (bit_or 0x80 b) 0x80 ≡ 128
unfolding agree_below
bit_and-bit_or-0x80 = agree_below→eq _ _ 256 refl
