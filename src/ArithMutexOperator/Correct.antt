-- ===== src/ArithMutexOperator/Correct.antt =====
-- The operator returns shares of the chosen operand.
use mpc_package.Base.{ℕ, ◌+◌, ◌*◌, ◌≤◌, ◌<◌, ◌≡◌, refl, Option, none, some, arith}
use mpc_package.Base.{Bool, true, false, ltb, to_int, xor, if◌then◌else◌, inl, inr}
use mpc_package.Base.{Bool-cases, zero, suc, ◌&&◌, ◌==◌}
use mpc_package.Word.{IsWord, add, sub}
use mpc_package.Word.Cong.{Cong, Cong-refl, Cong-of_eq, Cong-symm, ◌∙c◌, Cong-add, Cong-cancel}
use mpc_package.Word.Cong.{add-Cong, sub-Cong}
use mpc_package.Math.{ring}
use mpc_package.Math.Ring.{ring-IsWord, ring-Cong, bit-to_int}
use mpc_package.Shares.Sum.{SumShares, sub-IsWord}
use mpc_package.Shares.Xor.{XorShares}
use mpc_package.Prog.Runs.{Runs, Runs-bind, Runs-ret, Runs-weaken}
use mpc_package.Bmt.{Bmt, Env}
use mpc_package.IntermediateDataSupport.{Limits, Support, poll_bitwise_bmts}
use mpc_package.IntermediateDataSupport.Both.{BitwiseInStep, Both, Both-map}
use mpc_package.BoolToArithOperator.Correct.{to_arith-SumShares as to_arith}
use mpc_package.ArithMultiplyOperator
use mpc_package.ArithMultiplyOperator.Correct.{multiply-SumShares as multiply, multiply-IsOff}
use mpc_package.ArithMutexOperator.{cond_share, mux, execute}
use mpc_package.ArithMutexOperator.Pointers.{
  PointsOff, Picked, Source, aim, exact, triple_pointers-Picked,
}

module _ {w : ℕ} (le : w ≤ 64) where
  flag-IsWord : (b : Bool) → IsWord (to_int b)
  flag-IsWord true = omega arith
  flag-IsWord false = omega arith

  pub flag-XorShares : (c0 c1 : Bool) → XorShares w (to_int c0) (to_int c1) (to_int (xor c0 c1))
  flag-XorShares c0 c1 = record {
    word0 = flag-IsWord c0;
    word1 = flag-IsWord c1;
    digits = λ i lt.
        rw (bit-to_int c0 i, bit-to_int c1 i, bit-to_int (xor c0 c1) i) (distribute c0 c1 (i == 0));
  }
    where
      distribute : (a b t : Bool) → xor (a && t) (b && t) ≡ (xor a b && t)
      distribute a b t = ground arith

  cond_share-SumShares :
      (tag : ℕ) (c0 c1 : Bool)
      → Runs
          (cond_share 0 w tag c0)
          (cond_share 1 w tag c1)
          (λ z0 z1. Cong w (z0 + z1) (to_int (xor c0 c1)))
  unfolding cond_share
  cond_share-SumShares tag c0 c1 = elim (Bool-cases (ltb 1 w)) [
    | inl wide ↦ rw wide (
        Runs-weaken
          (to_arith le tag (to_int c0) (to_int c1) (to_int (xor c0 c1)) (flag-XorShares c0 c1))
          (λ z0 z1 s. s.total))
    | inr narrow ↦ rw narrow (Runs-ret _ _ (parity w (one w narrow) c0 c1))
  ]
    where
      one : (w : ℕ) → ltb 1 w ≡ false → w ≤ 1
      one w h = ground arith

      parity :
          (w : ℕ) → w ≤ 1 → (c0 c1 : Bool) → Cong w (to_int c0 + to_int c1) (to_int (xor c0 c1))
      parity zero h c0 c1 = record { same = omega arith }
      parity (suc zero) h true true = record { same = refl }
      parity (suc zero) h true false = record { same = refl }
      parity (suc zero) h false true = Cong-refl
      parity (suc zero) h false false = Cong-refl
      parity (suc (suc w)) h c0 c1 = absurd (omega arith)

  -- `c * x + y - c * y`, where the products are `d` and `e` too large.
  choose_off :
      (c : Bool) (d e x y cx0 cx1 cy0 cy1 y0 y1 : ℕ)
      → Cong w (cx0 + cx1) (to_int c * x + d)
      → Cong w (cy0 + cy1) (to_int c * y + e)
      → Cong w (y0 + y1) y
      → Cong w
          (ring (sub (add cx0 y0) cy0) w + ring (sub (add cx1 y1) cy1) w)
          (sub (add (if c then x else y) d) e)
  choose_off c d e x y cx0 cx1 cy0 cy1 y0 y1 px py sy =
      Cong-add (ring-Cong _ w (sub-IsWord (add cx0 y0) cy0) le)
        (ring-Cong _ w (sub-IsWord (add cx1 y1) cy1) le)
      ∙c Cong-cancel (cy0 + cy1) (
          Cong-of_eq (regroup (sub (add cx0 y0) cy0) cy0 (sub (add cx1 y1) cy1) cy1)
          ∙c Cong-add (sub-Cong le (add cx0 y0) cy0) (sub-Cong le (add cx1 y1) cy1)
          ∙c Cong-add (add-Cong le cx0 y0) (add-Cong le cx1 y1)
          ∙c Cong-of_eq (regroup cx0 cx1 y0 y1)
          ∙c Cong-add px sy
          ∙c Cong-of_eq (pick c)
          ∙c Cong-add (Cong-symm (add-Cong le (if c then x else y) d)) Cong-refl
          ∙c Cong-add (Cong-symm (sub-Cong le (add (if c then x else y) d) e)) Cong-refl
          ∙c Cong-of_eq (last (sub (add (if c then x else y) d) e) e (to_int c * y))
          ∙c Cong-add Cong-refl (Cong-symm py))
    where
      regroup : (a b c d : ℕ) → a + c + (b + d) ≡ a + b + (c + d)
      regroup a b c d = omega arith

      pick : (c : Bool) → to_int c * x + d + y ≡ (if c then x else y) + d + to_int c * y
      pick true = omega arith
      pick false = omega arith

      last : (a b c : ℕ) → a + b + c ≡ a + (c + b)
      last a b c = omega arith

  pub choose :
      (c : Bool) (x y cx0 cx1 cy0 cy1 y0 y1 : ℕ)
      → Cong w (cx0 + cx1) (to_int c * x)
      → Cong w (cy0 + cy1) (to_int c * y)
      → Cong w (y0 + y1) y
      → Cong w (ring (sub (add cx0 y0) cy0) w + ring (sub (add cx1 y1) cy1) w) (if c then x else y)
  choose c x y cx0 cx1 cy0 cy1 y0 y1 px py sy =
      choose_off c 0 0 x y cx0 cx1 cy0 cy1 y0 y1 (px ∙c Cong-of_eq (plus_zero (to_int c * x)))
        (py ∙c Cong-of_eq (plus_zero (to_int c * y))) sy
      ∙c exact le (if c then x else y)
    where
      plus_zero : (n : ℕ) → n ≡ n + 0
      plus_zero n = omega arith

  -- A product on what a server's pointers hold.
  product-Off :
      (env0 env1 : Env) (p0 p1 : Option Bmt) (d x0 x1 y0 y1 x y : ℕ)
      → PointsOff w env0 env1 env0.method env1.method d p0 p1
      → Cong w (x0 + x1) x
      → Cong w (y0 + y1) y
      → Runs
          (ArithMultiplyOperator.execute env0 0 w p0 x0 y0)
          (ArithMultiplyOperator.execute env1 1 w p1 x1 y1)
          (λ z0 z1. Cong w (z0 + z1) (x * y + d))
  product-Off env0 env1 (some t0) (some t1) d x0 x1 y0 y1 x y h sx sy =
      Runs-weaken (multiply-IsOff le env0 env1 d x0 x1 y0 y1 x y h sx sy) (λ z0 z1 s. s.total)
  product-Off env0 env1 none none d x0 x1 y0 y1 x y h sx sy =
      Runs-weaken (multiply le env0 env1 none none x0 x1 y0 y1 x y h.0 sx sy)
        (λ z0 z1 s. s.total ∙c Cong-of_eq (no_more (x * y) d h.1))
    where
      no_more : (n d : ℕ) → d ≡ 0 → n ≡ n + d
      no_more n d e = omega arith
  product-Off env0 env1 none (some _) d x0 x1 y0 y1 x y h sx sy = absurd h
  product-Off env0 env1 (some _) none d x0 x1 y0 y1 x y h sx sy = absurd h

  mux-Off :
      (env0 env1 : Env) (tag : ℕ) (p0 p1 : Option Bmt × Option Bmt) (x0 x1 y0 y1 x y v : ℕ)
      (c0 c1 : Bool)
      → Picked w env0 env1 env0.method env1.method (if xor c0 c1 then x else y) v p0 p1
      → Cong w (x0 + x1) x
      → Cong w (y0 + y1) y
      → Runs
          (mux env0 0 w tag p0 x0 y0 c0)
          (mux env1 1 w tag p1 x1 y1 c1)
          (λ z0 z1. SumShares w z0 z1 v)
  unfolding mux
  mux-Off env0 env1 tag p0 p1 x0 x1 y0 y1 x y v c0 c1 h sx sy =
      Runs-bind (cond_share-SumShares tag c0 c1) λ d0 d1 d.
        Runs-bind
          (product-Off env0 env1 p0.0 p1.0 h.first d0 d1 x0 x1 (to_int (xor c0 c1)) x h.off_first d
            sx)
          λ cx0 cx1 cx.
            Runs-bind
              (product-Off env0 env1 p0.1 p1.1 h.second d0 d1 y0 y1 (to_int (xor c0 c1)) y
                h.off_second d sy)
              λ cy0 cy1 cy. Runs-ret _ _ (record {
                word0 = ring-IsWord _ w (sub-IsWord (add cx0 y0) cy0) le;
                word1 = ring-IsWord _ w (sub-IsWord (add cx1 y1) cy1) le;
                total =
                    choose_off (xor c0 c1) h.first h.second x y cx0 cx1 cy0 cy1 y0 y1 cx cy sy
                    ∙c h.value;
              })

  -- On arithmetic shares of `x` and `y` and Boolean shares of a flag, in every width up to 64, with
  -- supplies in step that hold Boolean triples and a usage limit above 0: if both servers are given
  -- two arithmetic triples, or neither is and the method of both is JIT, fixed or pipeline, both
  -- end, and what they return are arithmetic shares of `x` if the flag is set and of `y` if not. If
  -- neither is given any and the method of both is background, both end with shares of this value,
  -- plus what the first Boolean triple polled is off an arithmetic one, minus what the second is.
  -- The supplies stay in step.
  pub mux-SumShares :
      (conf : Limits) (env0 env1 : Env) (tag : ℕ) (g0 g1 : Option (Bmt × Bmt)) (s0 s1 : Support)
      (x0 x1 y0 y1 x y : ℕ) (c0 c1 : Bool)
      → 0 < conf.usage_limit
      → Source w env0.method env1.method g0 g1
      → BitwiseInStep s0 s1
      → Cong w (x0 + x1) x
      → Cong w (y0 + y1) y
      → Both
          (λ p0 p1. Runs p0 p1 (λ z0 z1. SumShares w z0 z1 (
            aim g0 env0.method
              (if xor c0 c1 then x else y)
              (poll_bitwise_bmts conf 2 w s0)
              (poll_bitwise_bmts conf 2 w s1))))
          (execute conf env0 0 w tag g0 x0 y0 c0 s0)
          (execute conf env1 1 w tag g1 x1 y1 c1 s1)
  unfolding execute
  mux-SumShares conf env0 env1 tag g0 g1 s0 s1 x0 x1 y0 y1 x y c0 c1 some_use source step sx sy =
      Both-map _ _ _ _ (λ p0 p1 h. mux-Off env0 env1 tag p0 p1 x0 x1 y0 y1 x y _ c0 c1 h sx sy) _ _
        (triple_pointers-Picked le conf env0 env1 env0.method env1.method g0 g1
          (if xor c0 c1 then x else y) s0 s1 some_use source step)
