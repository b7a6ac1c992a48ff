-- ===== src/BoolLessOperator/Blocks.antt =====
-- A round of the spread: blocks of digits double in size.
use native.Mathlib.Nat.{pow-suc, pow-le-pow_right, one-le-pow}
use mathlib.Core.Path.{subst}
use mpc_package.Base.{ℕ, zero, suc, ◌+◌, ◌-◌, ◌*◌, ◌^◌, ◌≤◌, ◌<◌, ◌≡◌, sym, ap, ◌∙◌, arith}
use mpc_package.Base.{Bool, ◌&&◌}
use mpc_package.Base.{bit, bit_and, bit-bit_and}
use mpc_package.Word.{IsWord}
use mpc_package.BoolLessOperator.{shift_greater}
use mpc_package.BoolLessOperator.Shift.{source_of, shift_greater-bit}
use mpc_package.BoolLessOperator.Collects.{Collects, Collects-double, all, to_end}

pow_add : (a r : ℕ) → 2 ^ (a + r) ≡ 2 ^ a * 2 ^ r
pow_add a zero = ap (λ k. 2 ^ k) (add_zero a) ∙ mul_one (2 ^ a)
  where
    add_zero : (a : ℕ) → a + 0 ≡ a
    add_zero a = omega arith

    mul_one : (t : ℕ) → t ≡ t * 2 ^ 0
    mul_one t = omega arith
pow_add a (suc r) =
    ap (λ k. 2 ^ k) (add_suc a r)
    ∙ pow-suc 2 (a + r)
    ∙ ap (λ t. t * 2) (pow_add a r)
    ∙ regroup (2 ^ a) (2 ^ r)
    ∙ ap (λ t. 2 ^ a * t) (sym (pow-suc 2 r))
  where
    add_suc : (a r : ℕ) → a + suc r ≡ suc (a + r)
    add_suc a r = omega arith

    regroup : (x y : ℕ) → x * y * 2 ≡ x * (y * 2)
    regroup x y = grind arith

-- What a round makes of a number: its conjunction with the shifted number.
abbrev pub round : ℕ → ℕ → ℕ → ℕ
round w n r = bit_and n (shift_greater w n r)

pub round-Collects :
    (e : ℕ → Bool) (m r n : ℕ)
    → 2 ^ m ≤ 64
    → r < m
    → IsWord n
    → Collects e (2 ^ m) (2 ^ r) n
    → Collects e (2 ^ m) (2 ^ suc r) (round (2 ^ m) n (suc r))
round-Collects e m r n le lt h c j below =
    bit-bit_and j n (shift_greater (2 ^ m) n (suc r))
    ∙ ap (λ t. bit n j && t) (shift_greater-bit (2 ^ m) n (suc r) j le (omega arith) fits h below).1
    ∙ subst (λ p. (bit n j && bit n (source_of (2 ^ m) p j)) ≡ all e j (to_end p j))
        (sym (pow-suc 2 r))
        (Collects-double e (2 ^ m) (2 ^ r) n (one-le-pow r 2 (omega arith)) c (2 ^ (m - suc r))
          parts j below)
  where
    split : m ≡ m - suc r + suc r
    split = omega arith

    parts : 2 ^ m ≡ 2 ^ (m - suc r) * (2 ^ r * 2)
    parts =
        ap (λ k. 2 ^ k) split
        ∙ pow_add (m - suc r) (suc r)
        ∙ ap (λ t. 2 ^ (m - suc r) * t) (pow-suc 2 r)

    fits : 2 ^ suc r ≤ 2 ^ m
    fits = pow-le-pow_right {n = 2} (omega arith) (omega arith)

pub round_from-Collects :
    (e : ℕ → Bool) (m r n : ℕ)
    → 2 ^ m ≤ 64
    → 0 < r
    → r ≤ m
    → IsWord n
    → Collects e (2 ^ m) (2 ^ (r - 1)) n
    → Collects e (2 ^ m) (2 ^ r) (round (2 ^ m) n r)
round_from-Collects e m zero n le pos lt h c = absurd (omega arith)
round_from-Collects e m (suc r) n le pos lt h c =
    round-Collects e m r n le (omega arith) h
      (subst (λ k. Collects e (2 ^ m) (2 ^ k) n) (before r) c)
  where
    before : (r : ℕ) → suc r - 1 ≡ r
    before r = omega arith
