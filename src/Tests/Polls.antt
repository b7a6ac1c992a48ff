-- ===== src/Tests/Polls.antt =====
-- The operators that poll from the queues of Boolean triples before they begin.
use mpc_package.Base.{◌%◌, ◌^◌, ◌≡◌, refl, arith, none, true, false, xor}
use mpc_package.Base.{if◌then◌else◌, ◌==◌}
use mpc_package.Prog.Runs.{Runs}
use mpc_package.Bmt.{Bmt, background}
use mpc_package.Shares.Sum.{SumShares}
use mpc_package.IntermediateDataSupport.{
  Limits, Support, initial, poll_bitwise_bmts, poll_bitwise_bmt,
}
use mpc_package.Word.{sub, add, mul, shl}
use mpc_package.Math.{ring}
use mpc_package.IntermediateDataSupport.Both.{Both}
use mpc_package.BoolEqualOperator
use mpc_package.BoolEqualOperator.Polls.{Outcome}
use mpc_package.BoolEqualOperator.Correct.{equal-XorShares, SayEqual}
use mpc_package.ArithMutexOperator
use mpc_package.ArithMutexOperator.Pointers.{aim}
use mpc_package.ArithMutexOperator.Correct.{mux-SumShares}
use mpc_package.Tests.Inputs.{jit_env, five_shares, twelve_shares, triples0, triples1}
use mpc_package.Tests.Supply.{limits, support0, support1, background_env, bits-InStep}

-- 5 and 12 in background mode.
equal-XorShares_example :
    Outcome background none
      (SayEqual 8 5 12)
      (BoolEqualOperator.execute limits background_env 0 8 none 6 15 support0)
      (BoolEqualOperator.execute limits background_env 1 8 none 3 3 support1)
equal-XorShares_example =
    equal-XorShares limits background_env background_env none none support0 support1 6 3 15 3 5 12
      (omega arith) (omega arith) (omega arith) tt bits-InStep five_shares twelve_shares

-- In JIT mode a server reads beyond the end of the vector of queues.
equal_jit : BoolEqualOperator.execute limits jit_env 0 8 none 6 15 support0 ≡ none
unfolding BoolEqualOperator.execute initial BoolEqualOperator.given_bmt poll_bitwise_bmt
equal_jit = refl

mux-SumShares_example :
    Both
      (λ p0 p1. Runs p0 p1 (λ z0 z1. SumShares 8 z0 z1 (
        aim none background
          (if xor true false then 5 else 12)
          (poll_bitwise_bmts limits 2 8 support0)
          (poll_bitwise_bmts limits 2 8 support1))))
      (ArithMutexOperator.execute limits background_env 0 8 0 none 200 250 true support0)
      (ArithMutexOperator.execute limits background_env 1 8 0 none 61 18 false support1)
mux-SumShares_example =
    mux-SumShares (omega arith) limits background_env background_env 0 none none support0 support1
      200 61 250 18 5 12 true false (omega arith) tt bits-InStep (record { same = refl })
      (record { same = refl })

-- Each triple once, and another one after it.
abbrev once : Limits
once = record { queue_num = 1; usage_limit = 1 }

abbrev two_triples : Bmt → Bmt → Support
two_triples b0 b1 = record {
  bmts = initial once (λ i n. b0);
  bitwise_bmts = initial once (λ i n. if n == 0 then b0 else b1);
}

-- On two Boolean triples a choice that means 5 gives shares of 97.
mux_off :
    aim none background 5
        (poll_bitwise_bmts once 2 8 (two_triples triples0.b0 triples0.b1))
        (poll_bitwise_bmts once 2 8 (two_triples triples1.b0 triples1.b1))
      % 2 ^ 8
    ≡ 97
unfolding poll_bitwise_bmts initial sub add mul shl ring
mux_off = refl
