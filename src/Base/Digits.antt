-- ===== src/Base/Digits.antt =====
-- The native bit operations, one binary digit at a time.
use Prim.Native.Nat.{ℕ, zero, suc, ◌+◌, ◌*◌, ◌/◌, ◌%◌, ◌≤◌, ◌<◌, min, max, differ}
use Prim.Native.Nat.{digits, bitwise, bit_and, bit_or, bit_xor}
use Prim.Native.Nat.{bit_and-bitwise, bit_or-bitwise, bit_xor-bitwise}
use mathlib.Core.Path.{◌≡◌, refl, ap}
use native.Mathlib.Omega.{arith}

-- `digits` counts its rounds: any count that reaches the first number gives the same.
module _ (done : ℕ → ℕ) (digit : ℕ → ℕ → ℕ) where
  rounds_enough :
      (left right few many : ℕ)
      → left ≤ few
      → left ≤ many
      → digits done digit few left right ≡ digits done digit many left right
  rounds_enough zero right zero zero below under = refl
  rounds_enough zero right zero (suc many) below under = refl
  rounds_enough zero right (suc few) zero below under = refl
  rounds_enough zero right (suc few) (suc many) below under = refl
  rounds_enough (suc left) right zero many below under = absurd (omega arith)
  rounds_enough (suc left) right (suc few) zero below under = absurd (omega arith)
  rounds_enough (suc left) right (suc few) (suc many) below under =
      rw (rounds_enough (suc left / 2) (right / 2) few many (omega arith) (omega arith))

  one_round :
      (left right : ℕ)
      → bitwise done digit (suc left) right
        ≡ bitwise done digit (suc left / 2) (right / 2) * 2 + digit (suc left % 2) (right % 2)
  one_round left right =
      ap (λ (t : ℕ). t * 2 + digit (suc left % 2) (right % 2))
        (rounds_enough (suc left / 2) (right / 2) left (suc left / 2) (omega arith) (omega arith))

pub bit_xor_step : (x y : ℕ) → bit_xor x y ≡ bit_xor (x / 2) (y / 2) * 2 + differ (x % 2) (y % 2)
bit_xor_step zero y = simp bit_xor-bitwise (omega arith)
bit_xor_step (suc x) y = simp bit_xor-bitwise (one_round (λ rest. rest) differ x y)

pub bit_and_step : (x y : ℕ) → bit_and x y ≡ bit_and (x / 2) (y / 2) * 2 + min (x % 2) (y % 2)
bit_and_step zero y = simp bit_and-bitwise (omega arith)
bit_and_step (suc x) y = simp bit_and-bitwise (one_round (λ rest. 0) min x y)

pub bit_or_step : (x y : ℕ) → bit_or x y ≡ bit_or (x / 2) (y / 2) * 2 + max (x % 2) (y % 2)
bit_or_step zero y = simp bit_or-bitwise (omega arith)
bit_or_step (suc x) y = simp bit_or-bitwise (one_round (λ rest. rest) max x y)

pub differ-digits :
    (x y : ℕ)
    → x < 2
    → y < 2
    → (differ x y < 2) × ((x ≡ y) → differ x y ≡ 0) × ((x ≡ y → ⊥) → differ x y ≡ 1)
differ-digits zero zero p q = ground arith
differ-digits zero (suc y) p q = ground arith
differ-digits (suc x) zero p q = ground arith
differ-digits (suc zero) (suc zero) p q = ground arith
differ-digits (suc zero) (suc (suc y)) p q = absurd (omega arith)
differ-digits (suc (suc x)) (suc y) p q = absurd (omega arith)
