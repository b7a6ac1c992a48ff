-- ===== src/Math/Power.antt =====
-- `Math::pow` is the power, wrapped to 64 bits.
use native.Mathlib.Nat.{pow-suc, pow-zero, mul_assoc, mod-eq_of_lt}
use mpc_package.Base.{ℕ, zero, suc, ◌+◌, ◌*◌, ◌/◌, ◌%◌, ◌^◌, ◌<◌, ◌≡◌, refl, sym, ap, ◌∙◌, arith}
use mpc_package.Base.{Bool, true, false, Bool-cases, ◌==◌, ltb, ◌&&◌, if◌then◌else◌, inl, inr}
use mpc_package.Word.{IsWord, mul}
use mpc_package.Word.Cong.{Cong, Cong-refl, Cong-mul, Cong-of_eq, ◌∙c◌, mul-Cong}
use mpc_package.Math.{pow, pow_loop}

Cong-pow : (w a b n : ℕ) → Cong w a b → Cong w (a ^ n) (b ^ n)
Cong-pow w a b zero p = Cong-of_eq (pow-zero a ∙ sym (pow-zero b))
Cong-pow w a b (suc n) p =
    Cong-of_eq (pow-suc a n) ∙c Cong-mul (Cong-pow w a b n p) p ∙c Cong-of_eq (sym (pow-suc b n))

square_pow : (b n : ℕ) → (b * b) ^ n ≡ b ^ n * b ^ n
square_pow b zero = rw (pow-zero, pow-zero) refl
square_pow b (suc n) = rw (pow-suc (b * b) n, square_pow b n, pow-suc b n) (shuffle (b ^ n) b)
  where
    shuffle : (p b : ℕ) → p * p * (b * b) ≡ p * b * (p * b)
    shuffle p b = omega arith

pow_add : (b m n : ℕ) → b ^ (m + n) ≡ b ^ m * b ^ n
pow_add b m zero = ap (λ t. b ^ t) (add_zero m) ∙ rw pow-zero (mul_one (b ^ m))
  where
    add_zero : (m : ℕ) → m + 0 ≡ m
    add_zero m = omega arith

    mul_one : (p : ℕ) → p ≡ p * 1
    mul_one p = omega arith
pow_add b m (suc n) =
    ap (λ t. b ^ t) (add_suc m n)
    ∙ pow-suc b (m + n)
    ∙ ap (λ t. t * b) (pow_add b m n)
    ∙ mul_assoc (b ^ m) (b ^ n) b
    ∙ ap (λ t. b ^ m * t) (sym (pow-suc b n))
  where
    add_suc : (m n : ℕ) → m + suc n ≡ suc (m + n)
    add_suc m n = omega arith

halves : (b e : ℕ) → b ^ (e / 2 + e / 2) ≡ (b * b) ^ (e / 2)
halves b e = pow_add b (e / 2) (e / 2) ∙ sym (square_pow b (e / 2))

-- One round: the factor of an odd exponent goes into the result, and the base is squared.
odd_round : (r b e : ℕ) → e % 2 ≡ 1 → r * b * (b * b) ^ (e / 2) ≡ r * b ^ e
odd_round r b e odd =
    rw (← halves b e) (shuffle r b (b ^ (e / 2 + e / 2)))
    ∙ ap (λ t. r * t) (sym (pow-suc b (e / 2 + e / 2)) ∙ ap (λ t. b ^ t) (joined e odd))
  where
    shuffle : (r b p : ℕ) → r * b * p ≡ r * (p * b)
    shuffle r b p = omega arith

    joined : (e : ℕ) → e % 2 ≡ 1 → suc (e / 2 + e / 2) ≡ e
    joined e odd = omega arith

even_round : (r b e : ℕ) → (e % 2 == 1) ≡ false → r * (b * b) ^ (e / 2) ≡ r * b ^ e
even_round r b e even = ap (λ t. r * t) (sym (halves b e) ∙ ap (λ t. b ^ t) (joined e even))
  where
    joined : (e : ℕ) → (e % 2 == 1) ≡ false → e / 2 + e / 2 ≡ e
    joined e even = ground arith

pow_loop-Cong :
    (fuel r b e : ℕ) → e < 2 ^ fuel → e < 2 ^ 63 → Cong 64 (pow_loop fuel r b e) (r * b ^ e)
unfolding pow_loop
pow_loop-Cong zero r b zero fits positive = Cong-of_eq (rw pow-zero (one_times r))
  where
    one_times : (r : ℕ) → r ≡ r * 1
    one_times r = omega arith
pow_loop-Cong zero r b (suc e) fits positive = absurd (omega arith)
pow_loop-Cong (suc fuel) r b zero fits positive = Cong-of_eq (rw pow-zero (one_times r))
  where
    one_times : (r : ℕ) → r ≡ r * 1
    one_times r = omega arith
pow_loop-Cong (suc fuel) r b (suc e) fits positive = elim (Bool-cases (suc e % 2 == 1)) [
  | inl odd ↦
      rw (odd, running (suc e) (omega arith) positive)
        (pow_loop-Cong fuel (mul r b) (mul b b) (suc e / 2) shorter (omega arith)
          ∙c Cong-mul (mul-Cong (omega arith) r b)
              (Cong-pow 64 (mul b b) (b * b) (suc e / 2) (mul-Cong (omega arith) b b))
          ∙c Cong-of_eq (odd_round r b (suc e) (is_one (suc e % 2) odd)))
  | inr even ↦
      rw (even, running (suc e) (omega arith) positive)
        (pow_loop-Cong fuel r (mul b b) (suc e / 2) shorter (omega arith)
          ∙c Cong-mul Cong-refl
              (Cong-pow 64 (mul b b) (b * b) (suc e / 2) (mul-Cong (omega arith) b b))
          ∙c Cong-of_eq (even_round r b (suc e) even))
]
  where
    is_one : (n : ℕ) → (n == 1) ≡ true → n ≡ 1
    is_one n h = ground arith

    running : (e : ℕ) → 0 < e → e < 2 ^ 63 → (ltb 0 e && ltb e (2 ^ 63)) ≡ true
    running e p h = ground arith

    shorter : suc e / 2 < 2 ^ fuel
    shorter = omega (arith, pow-suc 2 fuel)

pow_loop-IsWord : (fuel r b e : ℕ) → IsWord r → IsWord (pow_loop fuel r b e)
unfolding pow_loop
pow_loop-IsWord zero r b e h = h
pow_loop-IsWord (suc fuel) r b e h = ground (
  arith,
  pow_loop-IsWord fuel (if e % 2 == 1 then mul r b else r) (mul b b) (e / 2) (factor (e % 2 == 1)),
)
  where
    product : IsWord (mul r b)
    product = unfold mul in omega arith

    factor : (odd : Bool) → IsWord (if odd then mul r b else r)
    factor true = product
    factor false = h

-- For an exponent below 2 ^ 63, the positive ones of the source, `pow` returns the power modulo 2 ^
-- 64, so 64 rounds of its loop are enough.
pub pow_lem : (base exponent : ℕ) → exponent < 2 ^ 63 → pow base exponent ≡ base ^ exponent % 2 ^ 64
unfolding pow
pow_lem base exponent positive =
    sym (mod-eq_of_lt (pow_loop-IsWord 64 1 base exponent (omega arith)))
    ∙ (pow_loop-Cong 64 1 base exponent (omega arith) positive
        ∙c Cong-of_eq (one_times (base ^ exponent))).same
  where
    one_times : (p : ℕ) → 1 * p ≡ p
    one_times p = omega arith
