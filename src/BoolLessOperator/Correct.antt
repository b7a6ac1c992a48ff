-- ===== src/BoolLessOperator/Correct.antt =====
-- The operator returns shares of whether its first operand is less.
use native.Mathlib.Nat.{mod-lt, one-le-pow, mod-eq_of_lt, pow-le-pow_right}
use mathlib.Core.Path.{subst}
use mpc_package.Base.{ℕ, ◌+◌, ◌-◌, ◌%◌, ◌^◌, ◌≤◌, ◌<◌, ◌≡◌, sym, ap, ap₂, ◌∙◌, arith}
use mpc_package.Base.{List, Option, Bool, false, not, ◌&&◌, xor, ltb, ltb-lt, to_int}
use mpc_package.Base.{bit, bit_and, bit-bit_and, bit-mod}
use mpc_package.Word.{IsWord}
use mpc_package.Math.{ring}
use mpc_package.Prog.Runs.{Runs, Runs-bind, Runs-ret}
use mpc_package.Bmt.{Bmt, Env}
use mpc_package.Bmt.Triples.{BitwiseSupply}
use mpc_package.Shares.Xor.{XorShares, XorShares-same, XorShares-ring}
use mpc_package.BoolAndOperator.Correct.{and-XorShares}
use mpc_package.ArithMutexOperator.Correct.{flag-XorShares}
use mpc_package.BoolLessOperator.{bmt_at, xor_bits, execute}
use mpc_package.BoolLessOperator.Collects.{all}
use mpc_package.BoolLessOperator.Compare.{
  agrees, exceeds, any_exceeds, any_exceeds_lem, xor_bits-any_exceeds,
}
use mpc_package.BoolLessOperator.Rounds.{log-pow, le-pow, round-Collected, and_rounds-Collected}
use mpc_package.BoolLessOperator.Operands.{agreement-Collected, diagonal, diagonal-XorShares}
use mpc_package.BoolLessOperator.Operands.{bit-diagonal, above, above-XorShares, bit-above}

low-IsWord : (v w : ℕ) → w ≤ 64 → IsWord (v % 2 ^ w)
low-IsWord v w le =
    omega
      (arith, mod-lt v (one-le-pow w 2 (omega arith)), pow-le-pow_right {n = 2} (omega arith) le)

-- Shares cut to the width are shares of the low digits.
low-XorShares :
    {w z0 z1 v : ℕ} → w ≤ 64 → XorShares w z0 z1 v → XorShares w (ring z0 w) (ring z1 w) (v % 2 ^ w)
low-XorShares {w} {v = v} le s =
    XorShares-same (v % 2 ^ w)
      (λ i lt. sym (bit-mod w i v ∙ ap (λ t. t && bit v i) (ltb-lt i w lt))) (XorShares-ring le s)

-- The exclusive or of the digits of the last conjunction.
decided :
    (w f0 f1 a b x y : ℕ)
    → w ≤ 64
    → XorShares w f0 f1 (bit_and a b)
    → ((j : ℕ) → j < w → bit a j ≡ all (agrees (x % 2 ^ w) (y % 2 ^ w)) (j + 1) (w - (j + 1)))
    → ((j : ℕ) → j < w → bit b j ≡ (bit (x % 2 ^ w) j && not (bit (y % 2 ^ w) j)))
    → XorShares 1
        (to_int (xor_bits f0 0 w false))
        (to_int (xor_bits f1 0 w false))
        (to_int (ltb (y % 2 ^ w) (x % 2 ^ w)))
decided w f0 f1 a b x y le f ha hb =
    subst
      (λ v.
        XorShares 1 (to_int (xor_bits f0 0 w false)) (to_int (xor_bits f1 0 w false)) (to_int v))
      (xor_bits-any_exceeds f0 f1 (x % 2 ^ w) (y % 2 ^ w) w w 0 false false le (omega arith) f.word0
          f.word1 digits
        ∙ neither (any_exceeds (x % 2 ^ w) (y % 2 ^ w) 0 w)
        ∙ any_exceeds_lem (x % 2 ^ w) (y % 2 ^ w) w
        ∙ ap₂ ltb (again y) (again x))
      (flag-XorShares (omega arith) (xor_bits f0 0 w false) (xor_bits f1 0 w false))
  where
    neither : (t : Bool) → xor (xor false false) t ≡ t
    neither t = ground arith

    swap : (p q : Bool) → (p && q) ≡ (q && p)
    swap p q = ground arith

    again : (v : ℕ) → v % 2 ^ w % 2 ^ w ≡ v % 2 ^ w
    again v = mod-eq_of_lt (mod-lt v (one-le-pow w 2 (omega arith)))

    digits :
        (j : ℕ)
        → j < w
        → xor (bit f0 j) (bit f1 j) ≡ exceeds (x % 2 ^ w) (y % 2 ^ w) j (w - (j + 1))
    digits j lt =
        f.digits j lt ∙ bit-bit_and j a b ∙ swap (bit a j) (bit b j) ∙ ap₂ ◌&&◌ (hb j lt) (ha j lt)

module _ (m : ℕ) (some : 0 < m) (le : 2 ^ m ≤ 64) (env0 env1 : Env)
    (bmts0 bmts1 : Option (List Bmt))
    (supply : (i : ℕ) → BitwiseSupply (2 ^ m) env0 env1 (bmt_at bmts0 i) (bmt_at bmts1 i)) where
  -- On Boolean shares of `x` and `y`, in every width from 2 to 64 that is a power of two, and if
  -- both servers take their triples from the same place and what is given or stored there are
  -- triples, both servers end, and what they return are shares of one digit: whether `x` is less
  -- than `y`, both modulo 2 ^ width.
  pub less-XorShares :
      (x0 x1 y0 y1 x y : ℕ)
      → XorShares (2 ^ m) x0 x1 x
      → XorShares (2 ^ m) y0 y1 y
      → Runs
          (execute env0 0 (2 ^ m) bmts0 x0 y0)
          (execute env1 1 (2 ^ m) bmts1 x1 y1)
          (λ z0 z1. XorShares 1 z0 z1 (to_int (ltb (x % 2 ^ 2 ^ m) (y % 2 ^ 2 ^ m))))
  unfolding execute
  less-XorShares x0 x1 y0 y1 x y sx sy = rw (log-pow (2 ^ m) m (le-pow m)) (
      Runs-bind
        (round-Collected m le env0 env1 bmts0 bmts1 supply (agrees ly lx) 0 1 _ _ (omega arith) some
          (agreement-Collected le pos wy wx ty tx))
        λ l0 l1 l.
          Runs-bind
            (and-XorShares le env0 env1 _ _ _ _ _ _ (diagonal le pos wy wx ty tx) ly (supply 1)
              (diagonal-XorShares le pos wy wx ty tx) ty)
            λ d0 d1 d.
              Runs-bind
                (and_rounds-Collected m le env0 env1 bmts0 bmts1 supply (agrees ly lx) (m - 1) 2 l0
                  l1 (omega arith) (omega arith) l)
                λ c0 c1 c.
                  Runs-bind
                    (and-XorShares le env0 env1 _ _ _ _ _ _ (above le pos c)
                      (bit_and (diagonal le pos wy wx ty tx) ly) (supply (2 + (m - 1)))
                      (above-XorShares le pos c) d)
                    λ f0 f1 f. Runs-ret _ _ (
                      decided (2 ^ m) f0 f1 (above le pos c)
                        (bit_and (diagonal le pos wy wx ty tx) ly) y x le f (bit-above le pos c)
                        (bit-diagonal le pos wy wx ty tx)))
    where
      pos : 0 < 2 ^ m
      pos = one-le-pow m 2 (omega arith)

      ly : ℕ
      ly = y % 2 ^ 2 ^ m

      lx : ℕ
      lx = x % 2 ^ 2 ^ m

      wy : IsWord ly
      wy = low-IsWord y (2 ^ m) le

      wx : IsWord lx
      wx = low-IsWord x (2 ^ m) le

      ty : XorShares (2 ^ m) (ring y0 (2 ^ m)) (ring y1 (2 ^ m)) ly
      ty = low-XorShares le sy

      tx : XorShares (2 ^ m) (ring x0 (2 ^ m)) (ring x1 (2 ^ m)) lx
      tx = low-XorShares le sx
