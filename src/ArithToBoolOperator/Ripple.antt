-- ===== src/ArithToBoolOperator/Ripple.antt =====
-- The loop of the adder: after bit `i` both servers hold shares of the low digits of the sum, and of
-- the carry.
use mathlib.Core.Path.{subst}
use native.Mathlib.Nat.{pow-le-pow_right}
use native.Mathlib.Decide.{dec_lt}
use mpc_package.Base.{ℕ, zero, suc, ◌+◌, ◌-◌, ◌*◌, ◌^◌, ◌≤◌, ◌<◌, ◌≡◌, refl, sym, ap, ◌∙◌}
use mpc_package.Base.{arith, Bool, true, false, not, xor, ◌==◌}
use mpc_package.Base.{ltb-lt, ltb-le, to_int, bit, bit_xor, bit-bit_xor, bit_xor-lt}
use mpc_package.Base.{carry, carry-suc, bit-add}
use mpc_package.Word.{IsWord, add, shl}
use mpc_package.Math.{get_bit, rand_int}
use mpc_package.Math.Ring.{get_bit_lem, rand_int-IsWord, ring-fits}
use mpc_package.Prog.Runs.{Runs, Runs-bind, Runs-ret, Runs-draw, Runs-draw_right}
use mpc_package.Prog.Runs.{Runs-exchange}
use mpc_package.Bmt.{Env}
use mpc_package.Shares.Xor.{XorShares}
use mpc_package.BitwiseBmtGenerator.Pack.{step, low_digit, top_digit}
use mpc_package.ArithToBoolOperator.{ThreeBmts, ripple, execute}
use mpc_package.ArithToBoolOperator.Correct.{AreTriples, next_carry-Runs}

-- Shares of the first `i` digits of `v`.
pub record LowDigits (i v z0 z1 : ℕ) : Type 0 where
  pub fits0 : z0 < 2 ^ i
  pub fits1 : z1 < 2 ^ i
  pub digits : (j : ℕ) → j < i → xor (bit z0 j) (bit z1 j) ≡ bit v j

-- `_zi += … << i`
LowDigits-add :
    (i v z0 z1 : ℕ) (d0 d1 : Bool)
    → i < 64
    → LowDigits i v z0 z1
    → xor d0 d1 ≡ bit v i
    → LowDigits (i + 1) v (add z0 (shl (to_int d0) i)) (add z1 (shl (to_int d1) i))
LowDigits-add i v z0 z1 d0 d1 lt low new = record {
  fits0 = rw (placed z0 d0 low.fits0).0 (placed z0 d0 low.fits0).1;
  fits1 = rw (placed z1 d1 low.fits1).0 (placed z1 d1 low.fits1).1;
  digits = λ j below.
      rw ((placed z0 d0 low.fits0).0, (placed z1 d1 low.fits1).0)
        (elim (dec_lt j i) [
          | yes p ↦
              rw
                (low_digit z0 (to_int d0) i j low.fits0 p, low_digit z1 (to_int d1) i j low.fits1 p)
                (low.digits j p)
          | no p ↦ rw (top j below (omega arith)) (
              rw
                (
                  top_digit z0 (to_int d0) i low.fits0 (flag d0),
                  top_digit z1 (to_int d1) i low.fits1 (flag d1),
                  is_set d0,
                  is_set d1,
                )
                new)
        ]);
}
  where
    flag : (b : Bool) → to_int b < 2
    flag true = omega arith
    flag false = omega arith

    is_set : (b : Bool) → (to_int b == 1) ≡ b
    is_set true = refl
    is_set false = refl

    placed :
        (z : ℕ) (b : Bool)
        → z < 2 ^ i
        → (add z (shl (to_int b) i) ≡ z + to_int b * 2 ^ i) × (z + to_int b * 2 ^ i < 2 ^ (i + 1))
    placed z b h = step z (to_int b) i h (flag b) lt

    top : (j : ℕ) → j < i + 1 → i ≤ j → j ≡ i
    top j p q = omega arith

decode : (b : Bool) → not (to_int b == 0) ≡ b
decode true = refl
decode false = refl

module _ {width : ℕ} (le : width ≤ 64) (env0 env1 : Env) (s0 s1 : ThreeBmts) (x0 x1 r0 r1 : ℕ)
    (hx0 : IsWord x0) (hx1 : IsWord x1) (hr0 : IsWord r0) (hr1 : IsWord r1)
    (triples : AreTriples width s0 s1) where
  total_digit :
      (a0 a1 b0 b1 c0 c1 : Bool)
      → xor (xor (xor a0 b0) c0) (xor (xor a1 b1) c1)
        ≡ xor (xor (xor a0 a1) (xor b0 b1)) (xor c0 c1)
  total_digit a0 a1 b0 b1 c0 c1 = ground arith

  -- The shares of the operands' digits: one server's mask, and the masked operand at the other.
  first_digit : (i : ℕ) → i < 64 → xor (get_bit r0 i) (get_bit (bit_xor r0 x0) i) ≡ bit x0 i
  first_digit i lt =
      rw
        (
          get_bit_lem r0 i hr0 lt,
          get_bit_lem (bit_xor r0 x0) i (bit_xor-lt 64 r0 x0 hr0 hx0) lt,
          bit-bit_xor i r0 x0,
        )
        (cancel (bit r0 i) (bit x0 i))
    where
      cancel : (r x : Bool) → xor r (xor r x) ≡ x
      cancel r x = ground arith

  second_digit : (i : ℕ) → i < 64 → xor (get_bit (bit_xor r1 x1) i) (get_bit r1 i) ≡ bit x1 i
  second_digit i lt =
      rw
        (
          get_bit_lem r1 i hr1 lt,
          get_bit_lem (bit_xor r1 x1) i (bit_xor-lt 64 r1 x1 hr1 hx1) lt,
          bit-bit_xor i r1 x1,
        )
        (cancel (bit r1 i) (bit x1 i))
    where
      cancel : (r x : Bool) → xor (xor r x) r ≡ x
      cancel r x = ground arith

  sum_digit : (i : ℕ) → xor (xor (bit x0 i) (bit x1 i)) (carry false x0 x1 i) ≡ bit (x0 + x1) i
  sum_digit i = sym (bit-add i false x0 x1) ∙ ap (λ t. bit t i) (add_zero (x0 + x1))
    where
      add_zero : (n : ℕ) → n + 0 ≡ n
      add_zero n = omega arith

  ripple-LowDigits :
      (left i z0 z1 : ℕ) (c0 c1 : Bool)
      → i + left ≡ width
      → LowDigits i (x0 + x1) z0 z1
      → xor c0 c1 ≡ carry false x0 x1 i
      → Runs
          (ripple env0 0 width s0 r0 (bit_xor r0 x0) i left c0 z0)
          (ripple env1 1 width s1 r1 (bit_xor r1 x1) i left c1 z1)
          (LowDigits width (x0 + x1))
  unfolding ripple
  ripple-LowDigits zero i z0 z1 c0 c1 e low h =
      Runs-ret z0 z1 (subst (λ t. LowDigits t (x0 + x1) z0 z1) (end i e) low)
    where
      end : (i : ℕ) → i + 0 ≡ width → i ≡ width
      end i e = omega arith
  ripple-LowDigits (suc zero) i z0 z1 c0 c1 e low h = Runs-exchange _ _ (
      rw
        (
          ltb-le i (width - 1) (omega arith),
          decode (get_bit (bit_xor r1 x1) i),
          decode (get_bit (bit_xor r0 x0) i),
        )
        (Runs-ret (add z0 (shl (to_int d0) i)) (add z1 (shl (to_int d1) i)) (
          subst
            (λ t. LowDigits t (x0 + x1) (add z0 (shl (to_int d0) i)) (add z1 (shl (to_int d1) i))) e
            (LowDigits-add i (x0 + x1) z0 z1 d0 d1 (omega arith) low (
              rw
                (
                  total_digit (get_bit r0 i) (get_bit (bit_xor r0 x0) i) (get_bit (bit_xor r1 x1) i)
                      (get_bit r1 i) c0 c1,
                  first_digit i (omega arith),
                  second_digit i (omega arith),
                  h,
                )
                (sum_digit i))))))
    where
      d0 : Bool
      d0 = xor (xor (get_bit r0 i) (get_bit (bit_xor r1 x1) i)) c0

      d1 : Bool
      d1 = xor (xor (get_bit (bit_xor r0 x0) i) (get_bit r1 i)) c1
  ripple-LowDigits (suc (suc left)) i z0 z1 c0 c1 e low h = Runs-exchange _ _ (
      rw
        (
          ltb-lt i (width - 1) (omega arith),
          decode (get_bit (bit_xor r1 x1) i),
          decode (get_bit (bit_xor r0 x0) i),
        )
        (Runs-bind
          (next_carry-Runs le env0 env1 i (get_bit r0 i) (get_bit (bit_xor r0 x0) i)
            (get_bit (bit_xor r1 x1) i) (get_bit r1 i) c0 c1 (omega arith) triples)
          λ d0 d1 d.
            ripple-LowDigits (suc left) (i + 1) _ _ d0 d1 (omega arith)
              (LowDigits-add i (x0 + x1) z0 z1 _ _ (omega arith) low (
                rw
                  (
                    total_digit (get_bit r0 i) (get_bit (bit_xor r0 x0) i)
                        (get_bit (bit_xor r1 x1) i) (get_bit r1 i) c0 c1,
                    first_digit i (omega arith),
                    second_digit i (omega arith),
                    h,
                  )
                  (sum_digit i)))
              (d
                ∙ rw (first_digit i (omega arith), second_digit i (omega arith), h)
                    (sym (carry-suc i false x0 x1))
                ∙ ap (λ t. carry false x0 x1 t) (plus_one i))))
    where
      plus_one : (i : ℕ) → suc i ≡ i + 1
      plus_one i = omega arith

-- On two words, in every width up to 64 and with three triples in hand, both servers end, and what
-- they return are Boolean shares of the sum of the two words in `width` digits.
pub to_bool-XorShares :
    {width : ℕ} (env0 env1 : Env) (s0 s1 : ThreeBmts) (x0 x1 : ℕ)
    → width ≤ 64
    → IsWord x0
    → IsWord x1
    → AreTriples width s0 s1
    → Runs
        (execute env0 0 width s0 x0)
        (execute env1 1 width s1 x1)
        (λ z0 z1. XorShares width z0 z1 (x0 + x1))
unfolding execute
to_bool-XorShares {width} env0 env1 s0 s1 x0 x1 le hx0 hx1 t = Runs-draw λ r0. Runs-draw_right λ r1.
    Runs-bind
      (ripple-LowDigits le env0 env1 s0 s1 x0 x1 (rand_int r0) (rand_int r1) hx0 hx1
        (rand_int-IsWord r0) (rand_int-IsWord r1) t width 0 0 0 false false (zero_add width) nothing
        refl)
      λ z0 z1 low. Runs-ret _ _ (
        rw (ring-fits z0 width low.fits0 le, ring-fits z1 width low.fits1 le)
          (record { word0 = wide z0 low.fits0; word1 = wide z1 low.fits1; digits = low.digits }))
  where
    zero_add : (n : ℕ) → 0 + n ≡ n
    zero_add n = omega arith

    nothing : LowDigits 0 (x0 + x1) 0 0
    nothing = record {
      fits0 = omega arith;
      fits1 = omega arith;
      digits = λ j lt. absurd (omega arith);
    }

    wide : (z : ℕ) → z < 2 ^ width → IsWord z
    wide z h = omega (arith, pow-le-pow_right {n = 2} (omega arith) le)
