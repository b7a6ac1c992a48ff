-- ===== src/BoolLessOperator/Compare.antt =====
-- The digits at which one number exceeds another, and all higher ones agree, tell which is greater.
use native.Mathlib.Nat.{div-div-eq-div-mul, pow-suc}
use mpc_package.Base.{
  ℕ, zero, suc, ◌+◌, ◌-◌, ◌*◌, ◌/◌, ◌%◌, ◌^◌, ◌≤◌, ◌<◌, ◌≡◌, sym, ap, ap₂, ◌∙◌, arith,
}
use mpc_package.Base.{Bool, false, not, ◌&&◌, xor, ltb, ◌==◌}
use mpc_package.Base.{bit, bit-div, mod_pow_suc}
use mpc_package.Word.{IsWord}
use mpc_package.Math.Ring.{get_bit_lem}
use mpc_package.BoolLessOperator.{xor_bits}
use mpc_package.BoolLessOperator.Collects.{all}

-- The digits of `x` and `y` at `t` agree.
abbrev pub agrees : ℕ → ℕ → ℕ → Bool
agrees x y t = not (xor (bit x t) (bit y t))

-- `x` exceeds `y` at `j`, and the `n` digits above agree.
abbrev pub exceeds : ℕ → ℕ → ℕ → ℕ → Bool
exceeds x y j n = (bit x j && not (bit y j)) && all (agrees x y) (j + 1) n

-- The exclusive or over `n` digits from `j` on.
unfoldable pub any_exceeds : ℕ → ℕ → ℕ → ℕ → Bool
any_exceeds x y j zero = false
any_exceeds x y j (suc n) = xor (exceeds x y j n) (any_exceeds x y (j + 1) n)

same_low : (x y n : ℕ) → Bool
same_low x y n = x % 2 ^ n == y % 2 ^ n

greater_low : (x y n : ℕ) → Bool
greater_low x y n = ltb (y % 2 ^ n) (x % 2 ^ n)

same_low-suc : (x y n : ℕ) → same_low x y (suc n) ≡ (agrees x y 0 && same_low (x / 2) (y / 2) n)
unfolding same_low bit
same_low-suc x y n = ground (arith, mod_pow_suc n x, mod_pow_suc n y)

greater_low-suc :
    (x y n : ℕ)
    → greater_low x y (suc n)
      ≡ xor
          ((bit x 0 && not (bit y 0)) && same_low (x / 2) (y / 2) n)
          (greater_low (x / 2) (y / 2) n)
unfolding greater_low same_low bit
greater_low-suc x y n = ground (arith, mod_pow_suc n x, mod_pow_suc n y)

next_half : (x j : ℕ) → x / 2 ^ j / 2 ≡ x / 2 ^ (j + 1)
next_half x j = div-div-eq-div-mul x (2 ^ j) 2 ∙ ap (λ t. x / t) (twice j)
  where
    twice : (j : ℕ) → 2 ^ j * 2 ≡ 2 ^ (j + 1)
    twice j = sym (pow-suc 2 j) ∙ ap (λ k. 2 ^ k) (omega arith)

first_bit : (x j : ℕ) → bit (x / 2 ^ j) 0 ≡ bit x j
first_bit x j = bit-div j 0 x ∙ ap (bit x) (zero_add j)
  where
    zero_add : (j : ℕ) → 0 + j ≡ j
    zero_add j = omega arith

all-agrees : (x y n j : ℕ) → all (agrees x y) j n ≡ same_low (x / 2 ^ j) (y / 2 ^ j) n
unfolding all same_low
all-agrees x y zero j = ground arith
all-agrees x y (suc n) j =
    ap₂ ◌&&◌ (ap₂ (λ a b. not (xor a b)) (sym (first_bit x j)) (sym (first_bit y j))) (
      all-agrees x y n (j + 1)
      ∙ ap₂ (λ a b. same_low a b n) (sym (next_half x j)) (sym (next_half y j)))
    ∙ sym (same_low-suc (x / 2 ^ j) (y / 2 ^ j) n)

any_exceeds-greater : (x y n j : ℕ) → any_exceeds x y j n ≡ greater_low (x / 2 ^ j) (y / 2 ^ j) n
unfolding any_exceeds greater_low
any_exceeds-greater x y zero j = ground arith
any_exceeds-greater x y (suc n) j =
    ap₂ xor
      (ap₂ ◌&&◌ (ap₂ (λ a b. a && not b) (sym (first_bit x j)) (sym (first_bit y j))) (
        all-agrees x y n (j + 1)
        ∙ ap₂ (λ a b. same_low a b n) (sym (next_half x j)) (sym (next_half y j))))
      (any_exceeds-greater x y n (j + 1)
        ∙ ap₂ (λ a b. greater_low a b n) (sym (next_half x j)) (sym (next_half y j)))
    ∙ sym (greater_low-suc (x / 2 ^ j) (y / 2 ^ j) n)

pub any_exceeds_lem : (x y w : ℕ) → any_exceeds x y 0 w ≡ ltb (y % 2 ^ w) (x % 2 ^ w)
unfolding greater_low
any_exceeds_lem x y w =
    any_exceeds-greater x y w 0 ∙ ap₂ (λ a b. ltb (b % 2 ^ w) (a % 2 ^ w)) (whole x) (whole y)
  where
    whole : (x : ℕ) → x / 2 ^ 0 ≡ x
    whole x = omega arith

-- The last loop computes it of two shares of the digits.
pub xor_bits-any_exceeds :
    (z0 z1 x y w n j : ℕ) (a b : Bool)
    → w ≤ 64
    → w ≡ j + n
    → IsWord z0
    → IsWord z1
    → ((i : ℕ) → i < w → xor (bit z0 i) (bit z1 i) ≡ exceeds x y i (w - (i + 1)))
    → xor (xor_bits z0 j n a) (xor_bits z1 j n b) ≡ xor (xor a b) (any_exceeds x y j n)
unfolding xor_bits any_exceeds
xor_bits-any_exceeds z0 z1 x y w zero j a b le e h0 h1 d = ground arith
xor_bits-any_exceeds z0 z1 x y w (suc n) j a b le e h0 h1 d =
    xor_bits-any_exceeds z0 z1 x y w n (j + 1) _ _ le (omega arith) h0 h1 d
    ∙ rw (get_bit_lem z0 j h0 (omega arith), get_bit_lem z1 j h1 (omega arith))
        (regroup a b (bit z0 j) (bit z1 j) _ (any_exceeds x y (j + 1) n)
          (d j (omega arith) ∙ ap (exceeds x y j) (left w j n e)))
  where
    left : (w j n : ℕ) → w ≡ j + suc n → w - (j + 1) ≡ n
    left w j n e = omega arith

    regroup :
        (a b p q t r : Bool)
        → xor p q ≡ t
        → xor (xor (xor a p) (xor b q)) r ≡ xor (xor a b) (xor t r)
    regroup a b p q t r h = ground arith
