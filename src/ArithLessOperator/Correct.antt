-- ===== src/ArithLessOperator/Correct.antt =====
-- The client reconstructs whether the first operand is the smaller one.
use native.Mathlib.Nat.{one-le-pow, mod-lt, pow-suc, mod-mod, add-mul-mod_self_right}
use mathlib.Core.Path.{subst}
use native.Mathlib.Decide.{dec_lt}
use mpc_package.Base.{ℕ, suc, ◌+◌, ◌-◌, ◌*◌, ◌%◌, ◌^◌, ◌≤◌, ◌<◌, ◌≡◌, refl, sym, ap, ◌∙◌}
use mpc_package.Base.{arith, Bool, true, false, ◌&&◌, xor, ltb, ltb-lt, ltb-le, to_int}
use mpc_package.Base.{bit, bit_and, bit-mod, bit-high}
use mpc_package.Word.{IsWord, add, sub, sar}
use mpc_package.Word.Bits.{bit-sar, sar-IsWord}
use mpc_package.Word.Cong.{
  Cong, Cong-refl, Cong-of_eq, Cong-symm, ◌∙c◌, Cong-mod, Cong-add, Cong-eq,
}
use mpc_package.Word.Cong.{Cong-cancel, Cong_down, sub-Cong}
use mpc_package.Math.{ring}
use mpc_package.Math.Ring.{ring_lem, bit_and_one, ring-IsWord}
use mpc_package.Prog.Runs.{Runs, Runs-bind, Runs-ret}
use mpc_package.Bmt.{Env}
use mpc_package.Shares.{reconstruct_arith}
use mpc_package.Shares.Sum.{add-IsWord, sub-IsWord}
use mpc_package.BitwiseBmtGenerator.Pack.{top_digit}
use mpc_package.ArithToBoolOperator.{ThreeBmts}
use mpc_package.ArithToBoolOperator.Correct.{AreTriples}
use mpc_package.ArithToBoolOperator.Ripple.{to_bool-XorShares}
use mpc_package.ArithLessOperator.{execute, reconstruct}

-- The lowest digit as a number.
low_bit : (v : ℕ) → IsWord v → bit_and v 1 ≡ to_int (bit v 0)
low_bit v h = bit_and_one v h ∙ parity v
  where
    parity : (v : ℕ) → v % 2 ≡ to_int (bit v 0)
    parity v = unfold bit in ground arith

-- `(b_delta >> (_width - 1)) & 1`
top_flag :
    (width z : ℕ)
    → 0 < width
    → width ≤ 64
    → IsWord z
    → bit_and (sar z (width - 1)) 1 ≡ to_int (bit z (width - 1))
top_flag width z pos le h =
    low_bit (sar z (width - 1)) (sar-IsWord z (width - 1) h)
    ∙ ap to_int (bit-sar z (width - 1) 0 h (omega arith) ∙ ap (λ t. bit z t) (zero_add (width - 1)))
  where
    zero_add : (n : ℕ) → 0 + n ≡ n
    zero_add n = omega arith

-- The client's sum of two flags, cut to its lowest digit.
reconstruct-flags :
    (width : ℕ) (p q : Bool)
    → 0 < width
    → width ≤ 64
    → reconstruct (to_int p) (to_int q) width ≡ to_int (xor p q)
unfolding reconstruct reconstruct_arith add
reconstruct-flags width p q pos le =
    bit_and_one (ring (add (to_int p) (to_int q)) width) (ring-IsWord _ width (added p q) le)
    ∙ ap (λ t. t % 2) (ring_lem _ width (added p q) le)
    ∙ even (add (to_int p) (to_int q))
    ∙ flags p q
  where
    added : (p q : Bool) → IsWord (add (to_int p) (to_int q))
    added p q = add-IsWord (to_int p) (to_int q)

    even : (n : ℕ) → n % 2 ^ width % 2 ≡ n % 2
    even n = (lowest n).same
      where
        lowest : (n : ℕ) → Cong 1 (n % 2 ^ width) n
        lowest n = Cong_down pos (mod-mod n (2 ^ width))

    flags : (p q : Bool) → add (to_int p) (to_int q) % 2 ≡ to_int (xor p q)
    flags true true = refl
    flags true false = refl
    flags false true = refl
    flags false false = refl

-- The sign of a difference of operands below 2 ^ (width - 1).
sign : (h x y d : ℕ) → x < 2 ^ h → y < 2 ^ h → Cong (h + 1) (d + y) x → bit d h ≡ ltb x y
sign h x y d hx hy e =
    sym (ap (λ t. t && bit d h) (ltb-lt h (h + 1) (omega arith)))
    ∙ sym (bit-mod (h + 1) h d)
    ∙ elim (dec_lt x y) [
      | yes p ↦
          ap (λ t. bit t h)
            (Cong-eq (mod-lt d (one-le-pow (h + 1) 2 (omega arith))) (below p)
              (Cong-mod d ∙c Cong-cancel y (e ∙c wrapped p)))
          ∙ top_digit (2 ^ h - (y - x)) 1 h (omega arith) (omega arith)
          ∙ sym (ltb-lt x y p)
      | no p ↦
          ap (λ t. bit t h)
            (Cong-eq (mod-lt d (one-le-pow (h + 1) 2 (omega arith))) (omega (arith, twice))
              (Cong-mod d ∙c Cong-cancel y (e ∙c Cong-of_eq (back x y (omega arith)))))
          ∙ bit-high h h (x - y) (omega arith) (omega arith)
          ∙ sym (ltb-le x y (omega arith))
    ]
  where
    twice : 2 ^ (h + 1) ≡ 2 * 2 ^ h
    twice = ap (λ t. 2 ^ t) (plus_one h) ∙ pow-suc 2 h ∙ comm (2 ^ h)
      where
        plus_one : (h : ℕ) → h + 1 ≡ suc h
        plus_one h = omega arith

        comm : (p : ℕ) → p * 2 ≡ 2 * p
        comm p = omega arith

    back : (x y : ℕ) → y ≤ x → x ≡ x - y + y
    back x y h = omega arith

    below : x < y → 2 ^ h - (y - x) + 1 * 2 ^ h < 2 ^ (h + 1)
    below p = omega (arith, twice)

    around :
        (m x y : ℕ)
        → x < y
        → y < m
        → 2 ^ (h + 1) ≡ 2 * m
        → x + 1 * 2 ^ (h + 1) ≡ m - (y - x) + 1 * m + y
    around m x y p q e = omega (arith, e)

    wrapped : x < y → Cong (h + 1) x (2 ^ h - (y - x) + 1 * 2 ^ h + y)
    wrapped p =
        record { same = sym (add-mul-mod_self_right x 1 (2 ^ (h + 1))) }
        ∙c Cong-of_eq (around (2 ^ h) x y p hy twice)

-- On arithmetic shares of `x` and `y`, both below 2 ^ (width - 1), in every width from 1 to 64 and
-- with three triples in hand, both servers end, and the client reconstructs 1 if `x < y` and 0 if
-- not.
pub less-reconstruct :
    {width : ℕ} (env0 env1 : Env) (s0 s1 : ThreeBmts) (x0 x1 y0 y1 x y : ℕ)
    → 0 < width
    → width ≤ 64
    → AreTriples width s0 s1
    → Cong width (x0 + x1) x
    → Cong width (y0 + y1) y
    → x < 2 ^ (width - 1)
    → y < 2 ^ (width - 1)
    → Runs
        (execute env0 0 width s0 x0 y0)
        (execute env1 1 width s1 x1 y1)
        (λ z0 z1. reconstruct z0 z1 width ≡ to_int (ltb x y))
unfolding execute
less-reconstruct {width} env0 env1 s0 s1 x0 x1 y0 y1 x y pos le triples sx sy hx hy =
    Runs-bind
      (to_bool-XorShares env0 env1 s0 s1 (sub x0 y0) (sub x1 y1) le (sub-IsWord x0 y0)
        (sub-IsWord x1 y1) triples)
      λ z0 z1 z. Runs-ret _ _ (
        rw (top_flag width z0 pos le z.word0, top_flag width z1 pos le z.word1)
          (reconstruct-flags width (bit z0 (width - 1)) (bit z1 (width - 1)) pos le
            ∙ ap to_int (
                z.digits (width - 1) (omega arith)
                ∙ sign (width - 1) x y (sub x0 y0 + sub x1 y1) hx hy (
                    subst (λ t. Cong t (sub x0 y0 + sub x1 y1 + y) x) (back_up width pos)
                      difference))))
  where
    back_up : (w : ℕ) → 0 < w → w ≡ w - 1 + 1
    back_up w p = omega arith

    regroup : (d0 d1 y0 y1 : ℕ) → d0 + d1 + (y0 + y1) ≡ d0 + y0 + (d1 + y1)
    regroup d0 d1 y0 y1 = omega arith

    difference : Cong width (sub x0 y0 + sub x1 y1 + y) x
    difference =
        Cong-add Cong-refl (Cong-symm sy)
        ∙c Cong-of_eq (regroup (sub x0 y0) (sub x1 y1) y0 y1)
        ∙c Cong-add (sub-Cong le x0 y0) (sub-Cong le x1 y1)
        ∙c sx
