-- ===== src/BmtGenerator/Digits.antt =====
-- A number is the sum of its digits at their places.
use native.Mathlib.Nat.{pow-suc, mod-eq_of_lt}
use mpc_package.Base.{ℕ, zero, suc, ◌+◌, ◌*◌, ◌/◌, ◌%◌, ◌^◌, ◌<◌, ◌≡◌, refl, sym, ap, ◌∙◌, arith}
use mpc_package.Base.{Bool, true, false, ◌==◌, bit, mod_pow_suc, to_int}

-- The digits from `i` on, `n` of them.
abbrev pub place_sum : ℕ → ℕ → ℕ → ℕ
place_sum b i zero = 0
place_sum b i (suc n) = to_int (bit b i) * 2 ^ i + place_sum b (i + 1) n

mod_top : (i b : ℕ) → b % 2 ^ (i + 1) ≡ b % 2 ^ i + to_int (bit b i) * 2 ^ i
unfolding bit
mod_top zero b = lowest (b % 2 == 1) refl
  where
    lowest : (t : Bool) → (b % 2 == 1) ≡ t → b % 2 ^ (0 + 1) ≡ b % 2 ^ 0 + to_int t * 2 ^ 0
    lowest true e = ground arith
    lowest false e = ground arith
mod_top (suc i) b =
    ap (λ t. b % 2 ^ t) (shift i)
    ∙ mod_pow_suc (i + 1) b
    ∙ ap (λ t. t * 2 + b % 2) (mod_top i (b / 2))
    ∙ regroup (b / 2 % 2 ^ i) (to_int (bit (b / 2) i)) (2 ^ i) (b % 2)
    ∙ ap₂' (sym (mod_pow_suc i b)) (ap (λ t. to_int (bit (b / 2) i) * t) (sym (pow-suc 2 i)))
  where
    shift : (i : ℕ) → suc i + 1 ≡ suc (i + 1)
    shift i = omega arith

    regroup : (m t p r : ℕ) → (m + t * p) * 2 + r ≡ m * 2 + r + t * (p * 2)
    regroup m t p r = omega arith

    ap₂' : {x x' y y' : ℕ} → x ≡ x' → y ≡ y' → x + y ≡ x' + y'
    ap₂' p q = λ j. p j + q j

place_sum-mod : (n i b : ℕ) → b % 2 ^ i + place_sum b i n ≡ b % 2 ^ (i + n)
place_sum-mod zero i b = end (b % 2 ^ i) ∙ ap (λ t. b % 2 ^ t) (add_zero i)
  where
    end : (m : ℕ) → m + 0 ≡ m
    end m = omega arith

    add_zero : (i : ℕ) → i ≡ i + 0
    add_zero i = omega arith
place_sum-mod (suc n) i b =
    regroup (b % 2 ^ i) (to_int (bit b i) * 2 ^ i) (place_sum b (i + 1) n)
    ∙ ap (λ t. t + place_sum b (i + 1) n) (sym (mod_top i b))
    ∙ place_sum-mod n (i + 1) b
    ∙ ap (λ t. b % 2 ^ t) (shift i n)
  where
    regroup : (m d s : ℕ) → m + (d + s) ≡ m + d + s
    regroup m d s = omega arith

    shift : (i n : ℕ) → i + 1 + n ≡ i + suc n
    shift i n = omega arith

pub place_sum_lem : (width b : ℕ) → b < 2 ^ width → place_sum b 0 width ≡ b
place_sum_lem width b h =
    start (place_sum b 0 width) (b % 2 ^ 0) none
    ∙ place_sum-mod width 0 b
    ∙ ap (λ t. b % 2 ^ t) (zero_add width)
    ∙ mod-eq_of_lt h
  where
    none : b % 2 ^ 0 ≡ 0
    none = omega arith

    start : (s m : ℕ) → m ≡ 0 → s ≡ m + s
    start s m e = omega arith

    zero_add : (n : ℕ) → 0 + n ≡ n
    zero_add n = omega arith
