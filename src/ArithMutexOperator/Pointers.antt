-- ===== src/ArithMutexOperator/Pointers.antt =====
-- What the triples of the two products hold.
use mathlib.Core.Option
use mpc_package.Base.{ℕ, ◌+◌, ◌*◌, ◌≤◌, ◌<◌, ◌≡◌, refl, List, ◌∷◌, Option, none, some, arith}
use mpc_package.Word.{add, sub, mul}
use mpc_package.Word.Cong.{Cong, Cong-refl, Cong-of_eq, Cong-symm, ◌∙c◌, Cong-add, Cong-mul}
use mpc_package.Word.Cong.{add-Cong, sub-Cong, mul-Cong}
use mpc_package.Bmt.{Bmt, Env, BmtMethod, background, jit, fixed, pipeline}
use mpc_package.Bmt.Triples.{XorTriple, SumTriple}
use mpc_package.IntermediateDataSupport.{Limits, Support, poll_bitwise_bmts}
use mpc_package.IntermediateDataSupport.Lockstep.{Pairwise, pair}
use mpc_package.IntermediateDataSupport.Polled.{BothGot, poll_bitwise_bmts-InStep}
use mpc_package.IntermediateDataSupport.Both.{BitwiseInStep, Both}
use mpc_package.ArithMultiplyOperator.Correct.{IsOff, SumTriple-IsOff, SuppliedBy}
use mpc_package.ArithMutexOperator.{empty_bmt, first_two, triple_pointers}

-- Both servers run under the same method, and both or neither are given two arithmetic triples.
abbrev pub Source : ℕ → BmtMethod → BmtMethod → Option (Bmt × Bmt) → Option (Bmt × Bmt) → Type 0
Source w m0 m1 (some (t0, u0)) (some (t1, u1)) = SumTriple w t0 t1 × SumTriple w u0 u1
Source w background background none none = Unit
Source w jit jit none none = Unit
Source w fixed fixed none none = Unit
Source w pipeline pipeline none none = Unit
Source w m0 m1 _ _ = ⊥

-- How much more the shares of `c` add up to than the product of `a` and `b`: nothing in an
-- arithmetic triple.
abbrev pub excess : Bmt → Bmt → ℕ
excess t0 t1 = sub (add t0.c t1.c) (mul (add t0.a t1.a) (add t0.b t1.b))

-- What the operator makes shares of, where it means `v`: in background mode what the two triples
-- that each server has polled are off by is added and subtracted.
abbrev pub aim :
    Option (Bmt × Bmt)
    → BmtMethod
    → ℕ
    → Option (List Bmt × Support)
    → Option (List Bmt × Support)
    → ℕ
aim (some given) m v _ _ = v
aim none background v (some (t0 ∷ u0 ∷ bs0, s0)) (some (t1 ∷ u1 ∷ bs1, s1)) =
    sub (add v (excess t0 t1)) (excess u0 u1)
aim none m v _ _ = v

-- What both servers' pointers hold is off by `d`; without pointers the triples are generated.
abbrev pub PointsOff : ℕ → Env → Env → BmtMethod → BmtMethod → ℕ → Option Bmt → Option Bmt → Type 0
PointsOff w e0 e1 m0 m1 d (some t0) (some t1) = IsOff w d t0 t1
PointsOff w e0 e1 m0 m1 d none none = SuppliedBy w e0 e1 m0 m1 none none × (d ≡ 0)
PointsOff w e0 e1 m0 m1 d _ _ = ⊥

-- The two pairs of pointers, and what becomes of the value `v` that is meant.
pub record Picked (w : ℕ) (e0 e1 : Env) (m0 m1 : BmtMethod) (v v' : ℕ)
    (p0 p1 : Option Bmt × Option Bmt) : Type 0 where
  pub first : ℕ
  pub second : ℕ
  pub off_first : PointsOff w e0 e1 m0 m1 first p0.0 p1.0
  pub off_second : PointsOff w e0 e1 m0 m1 second p0.1 p1.1
  pub value : Cong w (sub (add v first) second) v'

module _ {w : ℕ} (le : w ≤ 64) where
  excess-IsOff : (t0 t1 : Bmt) → IsOff w (excess t0 t1) t0 t1
  excess-IsOff t0 t1 = record {
    product =
        Cong-symm (add-Cong le t0.c t1.c)
        ∙c Cong-symm (sub-Cong le (add t0.c t1.c) (mul (add t0.a t1.a) (add t0.b t1.b)))
        ∙c Cong-add Cong-refl (
            mul-Cong le (add t0.a t1.a) (add t0.b t1.b)
            ∙c Cong-mul (add-Cong le t0.a t1.a) (add-Cong le t0.b t1.b))
        ∙c Cong-of_eq (swap (excess t0 t1) ((t0.a + t1.a) * (t0.b + t1.b)));
  }
    where
      swap : (m n : ℕ) → m + n ≡ n + m
      swap m n = omega arith

  -- What is not off is off by nothing.
  pub exact : (v : ℕ) → Cong w (sub (add v 0) 0) v
  exact v =
      Cong-of_eq (more (sub (add v 0) 0))
      ∙c sub-Cong le (add v 0) 0
      ∙c add-Cong le v 0
      ∙c Cong-of_eq (less v)
    where
      more : (n : ℕ) → n ≡ n + 0
      more n = omega arith

      less : (n : ℕ) → n + 0 ≡ n
      less n = omega arith

  empty-IsOff : IsOff w 0 empty_bmt empty_bmt
  empty-IsOff = record { product = Cong-refl }

  module _ (e0 e1 : Env) (v : ℕ) where
    first_two-Pairwise :
        {bs0 bs1 : List Bmt} (s0 s1 : Support)
        → Pairwise (XorTriple 64) 2 bs0 bs1
        → BitwiseInStep s0 s1
        → Both
            (Picked w e0 e1 background background v
              (aim none background v (some (bs0, s0)) (some (bs1, s1))))
            (Option.map (λ p. ((some p.0.0, some p.0.1), p.1)) (first_two (some (bs0, s0))))
            (Option.map (λ p. ((some p.0.0, some p.0.1), p.1)) (first_two (some (bs1, s1))))
    unfolding first_two
    first_two-Pairwise s0 s1 (pair {s = t0} {t = t1} r (pair {s = u0} {t = u1} q p)) h = (
      record {
        first = excess t0 t1;
        second = excess u0 u1;
        off_first = excess-IsOff t0 t1;
        off_second = excess-IsOff u0 u1;
        value = Cong-refl;
      },
      h,
    )

    first_two-Picked :
        (o0 o1 : Option (List Bmt × Support))
        → BothGot (λ s. s.bitwise_bmts) (XorTriple 64) (XorTriple 64) 2 o0 o1
        → Both
            (Picked w e0 e1 background background v (aim none background v o0 o1))
            (Option.map (λ p. ((some p.0.0, some p.0.1), p.1)) (first_two o0))
            (Option.map (λ p. ((some p.0.0, some p.0.1), p.1)) (first_two o1))
    first_two-Picked (some (bs0, s0)) (some (bs1, s1)) h = first_two-Pairwise s0 s1 h.0 h.1
    first_two-Picked none _ h = absurd h
    first_two-Picked (some _) none h = absurd h

  pub triple_pointers-Picked :
      (conf : Limits) (e0 e1 : Env) (m0 m1 : BmtMethod) (g0 g1 : Option (Bmt × Bmt)) (v : ℕ)
      (s0 s1 : Support)
      → 0 < conf.usage_limit
      → Source w m0 m1 g0 g1
      → BitwiseInStep s0 s1
      → Both
          (Picked w e0 e1 m0 m1 v
            (aim g0 m0 v (poll_bitwise_bmts conf 2 w s0) (poll_bitwise_bmts conf 2 w s1)))
          (triple_pointers conf m0 w g0 s0)
          (triple_pointers conf m1 w g1 s1)
  unfolding triple_pointers
  triple_pointers-Picked conf e0 e1 m0 m1 (some (t0, u0)) (some (t1, u1)) v s0 s1 some_use h step =
      (
        record {
          first = 0;
          second = 0;
          off_first = SumTriple-IsOff h.0;
          off_second = SumTriple-IsOff h.1;
          value = exact v;
        },
        step,
      )
  triple_pointers-Picked conf e0 e1 background background none none v s0 s1 some_use h step =
      first_two-Picked e0 e1 v _ _ (poll_bitwise_bmts-InStep conf 2 w s0 s1 some_use le step)
  triple_pointers-Picked conf e0 e1 jit jit none none v s0 s1 some_use h step = (
    record {
      first = 0;
      second = 0;
      off_first = (tt, refl);
      off_second = (tt, refl);
      value = exact v;
    },
    step,
  )
  triple_pointers-Picked conf e0 e1 fixed fixed none none v s0 s1 some_use h step = (
    record {
      first = 0;
      second = 0;
      off_first = empty-IsOff;
      off_second = empty-IsOff;
      value = exact v;
    },
    step,
  )
  triple_pointers-Picked conf e0 e1 pipeline pipeline none none v s0 s1 some_use h step = (
    record {
      first = 0;
      second = 0;
      off_first = empty-IsOff;
      off_second = empty-IsOff;
      value = exact v;
    },
    step,
  )
  triple_pointers-Picked conf e0 e1 m0 m1 _ _ v s0 s1 some_use h step = absurd h
