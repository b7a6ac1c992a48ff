-- ===== src/Base/Bits.antt =====
-- The binary digit of a number at an index, the laws of the bit operations in its terms, and the
-- principle that two numbers with the same digits are equal.
use Prim.Native.Nat.{ℕ, zero, suc, ◌+◌, ◌-◌, ◌*◌, ◌/◌, ◌%◌, ◌^◌, ◌≤◌, ◌<◌}
use Prim.Native.Nat.{bit_and, bit_or, bit_xor, bit_and-bitwise}
use mathlib.Core.Path.{◌≡◌, refl, sym, ap, ◌∙◌}
use mathlib.Core.Bool.{Bool, false, not, ◌&&◌, ◌||◌}
use native.Mathlib.Nat.{pow-suc, pow-succ', one-le-pow, div-div-eq-div-mul}
use native.Mathlib.Nat.{add-zero, mul_comm, mul-div-le, mod-eq-sub-mul-div, mod-lt}
use native.Mathlib.Decide.{dec_lt}
use native.Mathlib.Omega.{arith}
use mpc_package.Base.Tests.{◌==◌, ltb, if◌then◌else◌, xor, ltb-lt, ltb-le}
use mpc_package.Base.Digits.{bit_and_step, bit_or_step, bit_xor_step, differ-digits}

unfoldable pub bit : ℕ → ℕ → Bool
bit n zero = n % 2 == 1
bit n (suc i) = bit (n / 2) i

pub bit-bit_xor : (i a b : ℕ) → bit (bit_xor a b) i ≡ xor (bit a i) (bit b i)
unfolding bit
bit-bit_xor zero a b =
    ground (arith, bit_xor_step a b, differ-digits (a % 2) (b % 2) (omega arith) (omega arith))
bit-bit_xor (suc i) a b = ap (λ t. bit t i) halves ∙ bit-bit_xor i (a / 2) (b / 2)
  where
    halves : bit_xor a b / 2 ≡ bit_xor (a / 2) (b / 2)
    halves =
        omega
          (arith, bit_xor_step a b, (differ-digits (a % 2) (b % 2) (omega arith) (omega arith)).0)

pub bit-bit_and : (i a b : ℕ) → bit (bit_and a b) i ≡ (bit a i && bit b i)
unfolding bit
bit-bit_and zero a b = ground (arith, bit_and_step a b)
bit-bit_and (suc i) a b =
    ap (λ t. bit t i) (omega (arith, bit_and_step a b)) ∙ bit-bit_and i (a / 2) (b / 2)

pub bit-bit_or : (i a b : ℕ) → bit (bit_or a b) i ≡ (bit a i || bit b i)
unfolding bit
bit-bit_or zero a b = ground (arith, bit_or_step a b)
bit-bit_or (suc i) a b =
    ap (λ t. bit t i) (omega (arith, bit_or_step a b)) ∙ bit-bit_or i (a / 2) (b / 2)

pub bit-zero : (i : ℕ) → bit 0 i ≡ false
unfolding bit
bit-zero zero = refl
bit-zero (suc i) = bit-zero i

pub bit-high : (k i n : ℕ) → n < 2 ^ k → k ≤ i → bit n i ≡ false
unfolding bit
bit-high zero i n h le = ap (λ t. bit t i) (omega arith) ∙ bit-zero i
bit-high (suc k) zero n h le = absurd (omega arith)
bit-high (suc k) (suc i) n h le = bit-high k i (n / 2) (omega (arith, pow-suc 2 k)) (omega arith)

pub bit_ext : (k a b : ℕ) → a < 2 ^ k → b < 2 ^ k → ((i : ℕ) → i < k → bit a i ≡ bit b i) → a ≡ b
unfolding bit
bit_ext zero a b ha hb same = omega arith
bit_ext (suc k) a b ha hb same = ground (
  arith,
  same 0 (omega arith),
  bit_ext k (a / 2) (b / 2) (omega (arith, pow-suc 2 k)) (omega (arith, pow-suc 2 k))
      (λ i h. same (suc i) (omega arith)),
)

div_one : (n : ℕ) → n / 2 ^ 0 ≡ n
div_one n = omega arith

mul_one : (n : ℕ) → n * 2 ^ 0 ≡ n
mul_one n = omega arith

sub-zero : (n : ℕ) → n - 0 ≡ n
sub-zero n = omega arith

pub bit-div : (k i n : ℕ) → bit (n / 2 ^ k) i ≡ bit n (i + k)
unfolding bit
bit-div zero i n = ap (λ t. bit t i) (div_one n) ∙ ap (λ t. bit n t) (sym (add-zero i))
bit-div (suc k) i n = ap (λ t. bit t i) halve ∙ bit-div k i (n / 2) ∙ ap (λ t. bit n t) (shift i k)
  where
    shift : (i k : ℕ) → suc (i + k) ≡ i + suc k
    shift i k = omega arith

    halve : n / 2 ^ suc k ≡ n / 2 / 2 ^ k
    halve = rw (div-div-eq-div-mul, pow-succ')

-- The lowest digit of a remainder by an even number, and the rest of it.
mod_double : (p n : ℕ) → 0 < p → n % (p * 2) ≡ n / 2 % p * 2 + n % 2
mod_double p n h = omega (
  arith,
  mod-eq-sub-mul-div n (p * 2),
  mod-eq-sub-mul-div (n / 2) p,
  ap (λ (t : ℕ). p * 2 * t) quotients,
  mul-div-le n (p * 2),
  below,
)
  where
    quotients : n / (p * 2) ≡ n / 2 / p
    quotients = rw (div-div-eq-div-mul, mul_comm 2 p)

    below : n / 2 % p < p
    below = mod-lt (n / 2) h

module _ (k : ℕ) where
  pub mod_pow_suc : (n : ℕ) → n % 2 ^ suc k ≡ n / 2 % 2 ^ k * 2 + n % 2
  mod_pow_suc n = rw (pow-suc 2 k) (mod_double (2 ^ k) n (one-le-pow k 2 (omega arith)))

  mul_pow_suc : (n : ℕ) → n * 2 ^ suc k ≡ n * 2 ^ k * 2
  mul_pow_suc n = omega (arith, ap (λ (t : ℕ). n * t) (pow-suc 2 k))

pub bit-mod : (k i n : ℕ) → bit (n % 2 ^ k) i ≡ (ltb i k && bit n i)
unfolding bit
bit-mod zero i n = rw (bit-high 0 i (n % 2 ^ 0) (omega arith) (omega arith)) (ground arith)
bit-mod (suc k) zero n = ground (arith, mod_pow_suc k n)
bit-mod (suc k) (suc i) n =
    ap (λ t. bit t i) (omega (arith, mod_pow_suc k n)) ∙ bit-mod k i (n / 2) ∙ ground arith

pub bit-mul : (k i n : ℕ) → bit (n * 2 ^ k) i ≡ (if ltb i k then false else bit n (i - k))
unfolding bit
bit-mul zero i n =
    ap (λ t. bit t i) (mul_one n) ∙ ap (λ t. bit n t) (sym (sub-zero i)) ∙ ground arith
bit-mul (suc k) zero n = ground (arith, mul_pow_suc k n)
bit-mul (suc k) (suc i) n =
    ap (λ t. bit t i) (omega (arith, mul_pow_suc k n)) ∙ bit-mul k i n ∙ same
  where
    same :
        (if ltb i k then false else bit n (i - k))
        ≡ (if ltb (suc i) (suc k) then false else bit n (suc i - suc k))
    same = rw (sub_suc) (ground arith)
      where
        sub_suc : suc i - suc k ≡ i - k
        sub_suc = omega arith

-- The bit operations stay within the width of their arguments.
pub bit_xor-lt : (k a b : ℕ) → a < 2 ^ k → b < 2 ^ k → bit_xor a b < 2 ^ k
bit_xor-lt zero zero zero ha hb = omega arith
bit_xor-lt zero (suc a) b ha hb = absurd (omega arith)
bit_xor-lt zero zero (suc b) ha hb = absurd (omega arith)
bit_xor-lt (suc k) a b ha hb = omega (
  arith,
  pow-suc 2 k,
  bit_xor_step a b,
  (differ-digits (a % 2) (b % 2) (omega arith) (omega arith)).0,
  bit_xor-lt k (a / 2) (b / 2) (omega (arith, pow-suc 2 k)) (omega (arith, pow-suc 2 k)),
)

bit_and_zero : (b : ℕ) → bit_and 0 b ≡ 0
bit_and_zero b = bit_and-bitwise 0 b

pub bit_and-lt : (k a b : ℕ) → a < 2 ^ k → bit_and a b < 2 ^ k
bit_and-lt zero zero b ha = omega (arith, bit_and_zero b)
bit_and-lt zero (suc a) b ha = absurd (omega arith)
bit_and-lt (suc k) a b ha = omega (
  arith,
  pow-suc 2 k,
  bit_and_step a b,
  bit_and-lt k (a / 2) (b / 2) (omega (arith, pow-suc 2 k)),
)

bit_and-le_fuel : (n a b : ℕ) → a ≤ n → bit_and a b ≤ b
bit_and-le_fuel n zero b h = omega (arith, bit_and_zero b)
bit_and-le_fuel zero (suc a) b h = absurd (omega arith)
bit_and-le_fuel (suc n) (suc a) b h =
    omega (arith, bit_and_step (suc a) b, bit_and-le_fuel n (suc a / 2) (b / 2) (omega arith))

pub bit_and-le : (a b : ℕ) → bit_and a b ≤ b
bit_and-le a b = bit_and-le_fuel a a b (omega arith)

pub bit_or-lt : (k a b : ℕ) → a < 2 ^ k → b < 2 ^ k → bit_or a b < 2 ^ k
bit_or-lt zero zero zero ha hb = omega arith
bit_or-lt zero (suc a) b ha hb = absurd (omega arith)
bit_or-lt zero zero (suc b) ha hb = absurd (omega arith)
bit_or-lt (suc k) a b ha hb = omega (
  arith,
  pow-suc 2 k,
  bit_or_step a b,
  bit_or-lt k (a / 2) (b / 2) (omega (arith, pow-suc 2 k)) (omega (arith, pow-suc 2 k)),
)

-- All ones less a number is the number with its digits turned.
pub bit-complement : (k i n : ℕ) → n < 2 ^ k → i < k → bit (2 ^ k - 1 - n) i ≡ not (bit n i)
unfolding bit
bit-complement zero i n h lt = absurd (omega arith)
bit-complement (suc k) zero n h lt = ground (arith, pow-suc 2 k)
bit-complement (suc k) (suc i) n h lt =
    ap (λ t. bit t i) (halve (pow-suc 2 k))
    ∙ bit-complement k i (n / 2) (omega (arith, pow-suc 2 k)) (omega arith)
  where
    halve : 2 ^ suc k ≡ 2 ^ k * 2 → (2 ^ suc k - 1 - n) / 2 ≡ 2 ^ k - 1 - n / 2
    halve e = omega arith

pub bit-ones : (k i : ℕ) → bit (2 ^ k - 1) i ≡ ltb i k
bit-ones k i = elim (dec_lt i k) [
  | yes p ↦
      ap (λ t. bit t i) (sub-zero' (2 ^ k))
      ∙ bit-complement k i 0 (one-le-pow k 2 (omega arith)) p
      ∙ rw (bit-zero i) (sym (ltb-lt i k p))
  | no p ↦
      bit-high k i (2 ^ k - 1) (omega (arith, one-le-pow k 2 (omega arith))) (omega arith)
      ∙ sym (ltb-le i k (omega arith))
]
  where
    sub-zero' : (p : ℕ) → p - 1 ≡ p - 1 - 0
    sub-zero' p = omega arith
