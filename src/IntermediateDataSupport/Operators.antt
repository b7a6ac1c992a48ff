-- ===== src/IntermediateDataSupport/Operators.antt =====
-- An operator on the triples that it polls.
use mathlib.Core.Path.{subst}
use mpc_package.Base.{ℕ, ◌+◌, ◌*◌, ◌/◌, ◌%◌, ◌≤◌, ◌<◌, ◌≡◌, sym, arith}
use mpc_package.Base.{List, Option, none, some, false, ltb, Bool-cases, inl, inr}
use mpc_package.Prog.Runs.{Runs}
use mpc_package.Bmt.{Bmt, Env, background}
use mpc_package.Bmt.Triples.{XorTriple}
use mpc_package.BitwiseBmtBatchGenerator.Correct.{XorTriples, no_triple, triple}
use mpc_package.BoolAndBatchOperator
use mpc_package.BoolAndBatchOperator.Entry.{BatchShares, AndShares}
use mpc_package.BoolAndBatchOperator.Correct.{and_batch-AndShares, words_for, BatchSupply}
use mpc_package.IntermediateDataSupport.{Support, Limits, poll_bitwise_bmts, poll_for}
use mpc_package.IntermediateDataSupport.Lockstep.{Pairwise, no_pair, pair, InStep}
use mpc_package.IntermediateDataSupport.Polled.{BothGot, poll_bitwise_bmts-InStep}

Pairwise-XorTriples :
    {n : ℕ} {ss ts : List Bmt} → Pairwise (XorTriple 64) n ss ts → XorTriples n ss ts
Pairwise-XorTriples no_pair = no_triple
Pairwise-XorTriples (pair r p) = triple r (Pairwise-XorTriples p)

-- `execute` in background mode, with what it polls; `none` if it does not get its triples.
abbrev pub AndPolled :
    Env
    → Env
    → ℕ
    → ℕ
    → List ℕ
    → List ℕ
    → List ℕ
    → List ℕ
    → List ℕ
    → List ℕ
    → Option (List Bmt × Support)
    → Option (List Bmt × Support)
    → Type 0
AndPolled env0 env1 width n xs0 xs1 ys0 ys1 xs ys (some (b0, s0)) (some (b1, s1)) =
    Runs (BoolAndBatchOperator.execute env0 0 width b0 none xs0 ys0)
      (BoolAndBatchOperator.execute env1 1 width b1 none xs1 ys1) (AndShares width n xs ys)
    × InStep (XorTriple 64) (XorTriple 64) s0.bitwise_bmts s1.bitwise_bmts
AndPolled env0 env1 width n xs0 xs1 ys0 ys1 xs ys _ _ = ⊥

AndPolled-of_BothGot :
    (env0 env1 : Env) (width n : ℕ) {xs0 xs1 xs ys0 ys1 ys : List ℕ}
    (o0 o1 : Option (List Bmt × Support))
    → 0 < width
    → width ≤ 64
    → 64 % width ≡ 0
    → env0.method ≡ background
    → env1.method ≡ background
    → BatchShares width n xs0 xs1 xs
    → BatchShares width n ys0 ys1 ys
    → BothGot (λ s. s.bitwise_bmts) (XorTriple 64) (XorTriple 64) (words_for n width) o0 o1
    → AndPolled env0 env1 width n xs0 xs1 ys0 ys1 xs ys o0 o1
AndPolled-of_BothGot env0 env1 width n (some (b0, s0)) (some (b1, s1)) pos le divides m0 m1 sx sy
      h =
    (
      and_batch-AndShares pos le divides env0 env1 b0 b1 none none
          (subst (λ m. BatchSupply width n env0 env1 m env1.method b0 b1 none none) (sym m0)
            (subst (λ m. BatchSupply width n env0 env1 background m b0 b1 none none) (sym m1)
              (Pairwise-XorTriples h.0)))
          sx sy,
      h.1,
    )
AndPolled-of_BothGot env0 env1 width n none _ pos le divides m0 m1 sx sy h = absurd h
AndPolled-of_BothGot env0 env1 width n (some _) none pos le divides m0 m1 sx sy h = absurd h

-- In background mode, with a usage limit above 0 and two supplies in step whose queues hold Boolean
-- triples, and on two batches of Boolean shares that are not empty, in every width from 1 to 64
-- that divides 64, both servers' polls end, the conjunctions on the polled triples end with shares
-- of the results, and the supplies stay in step.
pub poll_for-AndPolled :
    (conf : Limits) (env0 env1 : Env) (width n : ℕ) (s0 s1 : Support)
    {xs0 xs1 xs ys0 ys1 ys : List ℕ}
    → 0 < conf.usage_limit
    → 0 < n
    → 0 < width
    → width ≤ 64
    → 64 % width ≡ 0
    → env0.method ≡ background
    → env1.method ≡ background
    → InStep (XorTriple 64) (XorTriple 64) s0.bitwise_bmts s1.bitwise_bmts
    → BatchShares width n xs0 xs1 xs
    → BatchShares width n ys0 ys1 ys
    → AndPolled env0 env1 width n xs0 xs1 ys0 ys1 xs ys
        (poll_for conf n width s0)
        (poll_for conf n width s1)
unfolding poll_for
poll_for-AndPolled conf env0 env1 width n s0 s1 some_use some_num pos le divides m0 m1 h sx sy =
    elim (Bool-cases (ltb 64 (n * width))) [
      | inl e ↦ rw e (
          AndPolled-of_BothGot env0 env1 width n _ _ pos le divides m0 m1 sx sy
            (poll_bitwise_bmts-InStep conf (words_for n width) 64 s0 s1 some_use (omega arith) h))
      | inr e ↦ rw e (
          AndPolled-of_BothGot env0 env1 width n _ _ pos le divides m0 m1 sx sy (
            subst
              (λ k.
                BothGot (λ s. s.bitwise_bmts) (XorTriple 64) (XorTriple 64) k
                  (poll_bitwise_bmts conf 1 (n * width) s0)
                  (poll_bitwise_bmts conf 1 (n * width) s1))
              (one_word (n * width) (some_bits some_num pos) e)
              (poll_bitwise_bmts-InStep conf 1 (n * width) s0 s1 some_use (few (n * width) e) h)))
    ]
  where
    few : (t : ℕ) → ltb 64 t ≡ false → t ≤ 64
    few t e = ground arith

    one_word : (t : ℕ) → 0 < t → ltb 64 t ≡ false → 1 ≡ (t + 63) / 64
    one_word t pos e = ground arith

    some_bits : {n w : ℕ} → 0 < n → 0 < w → 0 < n * w
    some_bits p q = grind arith
