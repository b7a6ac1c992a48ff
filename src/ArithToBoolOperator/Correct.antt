-- ===== src/ArithToBoolOperator/Correct.antt =====
-- The operator returns Boolean shares of the sum of the arithmetic shares.
use mpc_package.Base.{ℕ, ◌^◌, ◌≤◌, ◌<◌, ◌≡◌, ap₂, ◌∙◌}
use mpc_package.Base.{arith, Bool, true, false, ◌&&◌}
use mpc_package.Base.{xor, ◌==◌, to_int}
use mpc_package.Base.{bit, bit-bit_and}
use mpc_package.Base.{majority}
use mpc_package.Math.{get_bit}
use mpc_package.Math.Ring.{bit-to_int}
use mpc_package.Prog.Runs.{Runs, Runs-bind, Runs-ret, Runs-both}
use mpc_package.Bmt.{Bmt, Env, extract}
use mpc_package.Bmt.Triples.{XorTriple, extract-XorTriple}
use mpc_package.Shares.Xor.{XorShares}
use mpc_package.BoolAndOperator.Correct.{and-XorShares as and_shares, and-lt as and_lt}
use mpc_package.ArithToBoolOperator.{ThreeBmts, to_bool, and_bit, next_carry}

-- Each of the three is a triple.
pub record AreTriples (width : ℕ) (s0 s1 : ThreeBmts) : Type 0 where
  pub triple0 : XorTriple width s0.b0 s1.b0
  pub triple1 : XorTriple width s0.b1 s1.b1
  pub triple2 : XorTriple width s0.b2 s1.b2

flag-lt : (b : Bool) → to_int b < 2
flag-lt true = omega arith
flag-lt false = omega arith

-- Flags as words of one digit.
flag-XorShares : (b0 b1 : Bool) → XorShares 1 (to_int b0) (to_int b1) (to_int (xor b0 b1))
flag-XorShares b0 b1 = record {
  word0 = omega (arith, flag-lt b0);
  word1 = omega (arith, flag-lt b1);
  digits = λ i lt.
      rw (bit-to_int b0 i, bit-to_int b1 i, bit-to_int (xor b0 b1) i) (distribute b0 b1 (i == 0));
}
  where
    distribute : (a b t : Bool) → xor (a && t) (b && t) ≡ (xor a b && t)
    distribute a b t = ground arith

to_bool_lem : (z : ℕ) → z < 2 → to_bool z ≡ bit z 0
unfolding to_bool bit
to_bool_lem z h = ground arith

module _ {width : ℕ} (le : width ≤ 64) where
  module _ (env0 env1 : Env) where
    and_bit-Runs :
        {t0 t1 : Bmt} (i : ℕ) (x0 x1 y0 y1 : Bool)
        → i < width
        → XorTriple width t0 t1
        → Runs
            (and_bit env0 0 t0 i x0 y0)
            (and_bit env1 1 t1 i x1 y1)
            (λ p q. xor p q ≡ (xor x0 x1 && xor y0 y1))
    unfolding and_bit
    and_bit-Runs {t0} {t1} i x0 x1 y0 y1 lt t =
        Runs-bind
          (Runs-both
            (and_shares (omega arith) env0 env1 _ _ _ _ _ _ _ _ digit_triple (flag-XorShares x0 x1)
              (flag-XorShares y0 y1))
            (and_lt (omega arith) env0 env1 _ _ _ _ _ _ _ _ digit_triple (flag t0) (flag t1)
              (flag-XorShares x0 x1) (flag-XorShares y0 y1)))
          λ z0 z1 h. Runs-ret _ _ (
            ap₂ xor (to_bool_lem z0 h.1.0) (to_bool_lem z1 h.1.1)
            ∙ h.0.digits 0 (omega arith)
            ∙ bit-bit_and 0 (to_int (xor x0 x1)) (to_int (xor y0 y1))
            ∙ rw (bit-to_int (xor x0 x1) 0, bit-to_int (xor y0 y1) 0) (low (xor x0 x1) (xor y0 y1)))
      where
        digit_triple : XorTriple 1 (extract t0 i) (extract t1 i)
        digit_triple = extract-XorTriple i le lt t

        flag : (t : Bmt) → (extract t i).c < 2 ^ 1
        flag t = unfold extract in flag-lt (get_bit t.c i)

        low : (a b : Bool) → (a && 0 == 0 && (b && 0 == 0)) ≡ (a && b)
        low a b = ground arith

    -- The carry is `generate` or `propagate and carry`, as `x ^ y ^ (x & y)`.
    pub next_carry-Runs :
        {s0 s1 : ThreeBmts} (i : ℕ) (a0 a1 b0 b1 c0 c1 : Bool)
        → i < width
        → AreTriples width s0 s1
        → Runs
            (next_carry env0 0 s0 i a0 b0 c0)
            (next_carry env1 1 s1 i a1 b1 c1)
            (λ p q. xor p q ≡ majority (xor a0 a1) (xor b0 b1) (xor c0 c1))
    unfolding next_carry
    next_carry-Runs {s0} {s1} i a0 a1 b0 b1 c0 c1 lt t =
        Runs-bind (and_bit-Runs i a0 a1 b0 b1 lt t.triple0) λ g0 g1 g.
          Runs-bind (and_bit-Runs i (xor a0 b0) (xor a1 b1) c0 c1 lt t.triple1) λ t0 t1 t'.
            Runs-bind (and_bit-Runs i g0 g1 t0 t1 lt t.triple2) λ n0 n1 n. Runs-ret _ _ (
              cross g0 t0 n0 g1 t1 n1
              ∙ rw (g, t', n, g, t', regroup a0 b0 a1 b1)
                  (adder (xor a0 a1) (xor b0 b1) (xor c0 c1)))
      where
        cross :
            (g0 t0 n0 g1 t1 n1 : Bool)
            → xor (xor (xor g0 t0) n0) (xor (xor g1 t1) n1)
              ≡ xor (xor (xor g0 g1) (xor t0 t1)) (xor n0 n1)
        cross g0 t0 n0 g1 t1 n1 = ground arith

        regroup : (a0 b0 a1 b1 : Bool) → xor (xor a0 b0) (xor a1 b1) ≡ xor (xor a0 a1) (xor b0 b1)
        regroup a0 b0 a1 b1 = ground arith

        adder :
            (a b c : Bool)
            → xor (xor (a && b) (xor a b && c)) (a && b && (xor a b && c)) ≡ majority a b c
        adder a b c = ground arith
