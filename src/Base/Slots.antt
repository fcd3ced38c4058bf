-- ===== src/Base/Slots.antt =====
-- The slots of an array: reading and writing one, where a place outside the array is a fault.
use Prim.Native.Nat.{ℕ, zero, suc, ◌<◌}
use mathlib.Core.Path.{◌≡◌, refl, ap}
use mathlib.Core.Logic.{◌≢◌}
use mathlib.Core.List.{List, [], ◌∷◌}
use native.Mathlib.Omega.{arith}
use ngtcp.Base.Lists.{length, take}
use ngtcp.Base.Results.{Result, ok, fault}

module _ {ℓ} {A : Type ℓ} where
  abbrev pub elem_at : ℕ → List A → Result A
  elem_at i [] = fault
  elem_at zero (x ∷ xs) = ok x
  elem_at (suc i) (x ∷ xs) = elem_at i xs

  abbrev pub set_elem : ℕ → A → List A → List A
  set_elem i a [] = []
  set_elem zero a (x ∷ xs) = a ∷ xs
  set_elem (suc i) a (x ∷ xs) = x ∷ set_elem i a xs

  pub length-set_elem : (i : ℕ) (a : A) (xs : List A) → length (set_elem i a xs) ≡ length xs
  length-set_elem i a [] = refl
  length-set_elem zero a (x ∷ xs) = refl
  length-set_elem (suc i) a (x ∷ xs) = ap suc (length-set_elem i a xs)

  pub elem_at-set_elem :
      (i : ℕ) (a : A) (xs : List A) → i < length xs → elem_at i (set_elem i a xs) ≡ ok a
  elem_at-set_elem i a [] h = absurd (omega arith)
  elem_at-set_elem zero a (x ∷ xs) h = refl
  elem_at-set_elem (suc i) a (x ∷ xs) h = elem_at-set_elem i a xs (omega arith)

  pub elem_at-set_elem_other :
      (i j : ℕ) (a : A) (xs : List A) → i ≢ j → elem_at j (set_elem i a xs) ≡ elem_at j xs
  elem_at-set_elem_other i j a [] h = refl
  elem_at-set_elem_other zero zero a (x ∷ xs) h = absurd (h refl)
  elem_at-set_elem_other zero (suc j) a (x ∷ xs) h = refl
  elem_at-set_elem_other (suc i) zero a (x ∷ xs) h = refl
  elem_at-set_elem_other (suc i) (suc j) a (x ∷ xs) h =
      elem_at-set_elem_other i j a xs (λ e. h (ap suc e))

  pub elem_at-take : (i n : ℕ) (xs : List A) → i < n → elem_at i (take n xs) ≡ elem_at i xs
  elem_at-take i zero xs h = absurd (omega arith)
  elem_at-take i (suc n) [] h = refl
  elem_at-take zero (suc n) (x ∷ xs) h = refl
  elem_at-take (suc i) (suc n) (x ∷ xs) h = elem_at-take i n xs (omega arith)

  pub elem_at_inside : (i : ℕ) (a : A) (xs : List A) → elem_at i xs ≡ ok a → i < length xs
  elem_at_inside i a [] h = ground arith
  elem_at_inside zero a (x ∷ xs) h = omega arith
  elem_at_inside (suc i) a (x ∷ xs) h = omega (arith, elem_at_inside i a xs h)

  pub elem_at_total : (i : ℕ) (xs : List A) → i < length xs → (a : A) × (elem_at i xs ≡ ok a)
  elem_at_total i [] h = absurd (omega arith)
  elem_at_total zero (x ∷ xs) h = (x, refl)
  elem_at_total (suc i) (x ∷ xs) h = elem_at_total i xs (omega arith)
