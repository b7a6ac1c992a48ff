-- ===== src/Base/Carry.antt =====
-- Binary addition digit by digit.
use Prim.Native.Nat.{ℕ, zero, suc, ◌+◌, ◌/◌, ◌%◌}
use mathlib.Core.Path.{◌≡◌, refl, ap, ◌∙◌}
use mathlib.Core.Bool.{Bool, true, false, ◌&&◌, ◌||◌}
use native.Mathlib.Omega.{arith}
use mpc_package.Base.Tests.{◌==◌, xor, to_int}
use mpc_package.Base.Bits.{bit}

abbrev pub majority : Bool → Bool → Bool → Bool
majority a b c = (a && b) || (xor a b && c)

-- The carry into digit `i` of `x + y + c`.
abbrev pub carry : Bool → ℕ → ℕ → ℕ → Bool
carry c x y zero = c
carry c x y (suc i) = carry (majority (x % 2 == 1) (y % 2 == 1) c) (x / 2) (y / 2) i

pub carry-suc :
    (i : ℕ) (c : Bool) (x y : ℕ)
    → carry c x y (suc i) ≡ majority (bit x i) (bit y i) (carry c x y i)
unfolding bit
carry-suc zero c x y = refl
carry-suc (suc i) c x y = carry-suc i (majority (x % 2 == 1) (y % 2 == 1) c) (x / 2) (y / 2)

lowest :
    (x y : ℕ) (c : Bool) → ((x + y + to_int c) % 2 == 1) ≡ xor (xor (x % 2 == 1) (y % 2 == 1)) c
lowest x y true = ground arith
lowest x y false = ground arith

halved :
    (x y : ℕ) (c : Bool)
    → (x + y + to_int c) / 2 ≡ x / 2 + y / 2 + to_int (majority (x % 2 == 1) (y % 2 == 1) c)
halved x y true = ground arith
halved x y false = ground arith

pub bit-add :
    (i : ℕ) (c : Bool) (x y : ℕ)
    → bit (x + y + to_int c) i ≡ xor (xor (bit x i) (bit y i)) (carry c x y i)
unfolding bit
bit-add zero c x y = lowest x y c
bit-add (suc i) c x y =
    ap (λ t. bit t i) (halved x y c)
    ∙ bit-add i (majority (x % 2 == 1) (y % 2 == 1) c) (x / 2) (y / 2)
