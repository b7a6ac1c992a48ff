-- ===== src/Tests/Operators.antt =====
-- The operators on one value.
use mpc_package.Base.{◌+◌, ◌*◌, ◌%◌, ◌^◌, ◌≡◌, refl, arith, none}
use mpc_package.Base.{to_int, ltb}
use mpc_package.Base.{bit_and}
use mpc_package.Prog.Runs.{Runs}
use mpc_package.Shares.Xor.{XorShares}
use mpc_package.Shares.Sum.{SumShares}
use mpc_package.BoolAndOperator
use mpc_package.BoolAndOperator.Correct.{and-XorShares}
use mpc_package.ArithMultiplyOperator
use mpc_package.ArithMultiplyOperator.Correct.{multiply-SumShares}
use mpc_package.ArithToBoolOperator
use mpc_package.ArithToBoolOperator.{ThreeBmts}
use mpc_package.ArithToBoolOperator.Ripple.{to_bool-XorShares}
use mpc_package.BoolToArithOperator
use mpc_package.BoolToArithOperator.Correct.{to_arith-SumShares}
use mpc_package.ArithLessOperator
use mpc_package.ArithLessOperator.Correct.{less-reconstruct}
use mpc_package.BoolLessOperator
use mpc_package.BoolLessOperator.Correct.{less-XorShares}
use mpc_package.Tests.Inputs.{jit_env, five_shares, twelve_shares, triples0, triples1, are_triples}

-- The conjunction of 5 and 12.
and-XorShares_example :
    Runs
      (BoolAndOperator.execute jit_env 0 8 none 6 15)
      (BoolAndOperator.execute jit_env 1 8 none 3 3)
      (λ z0 z1. XorShares 8 z0 z1 (bit_and 5 12))
and-XorShares_example =
    and-XorShares (omega arith) jit_env jit_env none none 6 3 15 3 5 12 tt five_shares twelve_shares

-- The product of 5 and 12, shared as 200 + 61 and as 250 + 18 modulo 256.
multiply-SumShares_example :
    Runs
      (ArithMultiplyOperator.execute jit_env 0 8 none 200 250)
      (ArithMultiplyOperator.execute jit_env 1 8 none 61 18)
      (λ z0 z1. SumShares 8 z0 z1 (5 * 12))
multiply-SumShares_example =
    multiply-SumShares (omega arith) jit_env jit_env none none 200 61 250 18 5 12 tt
      (record { same = refl }) (record { same = refl })

to_bool-XorShares_example :
    Runs
      (ArithToBoolOperator.execute jit_env 0 64 triples0 200)
      (ArithToBoolOperator.execute jit_env 1 64 triples1 61)
      (λ z0 z1. XorShares 64 z0 z1 (200 + 61))
to_bool-XorShares_example =
    to_bool-XorShares jit_env jit_env triples0 triples1 200 61 (omega arith) (omega arith)
      (omega arith) are_triples

to_arith-SumShares_example :
    Runs
      (BoolToArithOperator.execute 0 8 0 6)
      (BoolToArithOperator.execute 1 8 0 3)
      (λ z0 z1. SumShares 8 z0 z1 5)
to_arith-SumShares_example = to_arith-SumShares (omega arith) 0 6 3 5 five_shares

-- 5 < 12.
less-reconstruct_example :
    Runs
      (ArithLessOperator.execute jit_env 0 64 triples0 2 10)
      (ArithLessOperator.execute jit_env 1 64 triples1 3 2)
      (λ z0 z1. ArithLessOperator.reconstruct z0 z1 64 ≡ to_int (ltb 5 12))
less-reconstruct_example =
    less-reconstruct jit_env jit_env triples0 triples1 2 3 10 2 5 12 (omega arith) (omega arith)
      are_triples (record { same = refl }) (record { same = refl }) (omega arith) (omega arith)

less-XorShares_example :
    Runs
      (BoolLessOperator.execute jit_env 0 8 none 15 6)
      (BoolLessOperator.execute jit_env 1 8 none 3 3)
      (λ z0 z1. XorShares 1 z0 z1 (to_int (ltb (12 % 2 ^ 8) (5 % 2 ^ 8))))
unfolding BoolLessOperator.bmt_at
less-XorShares_example =
    less-XorShares 3 (omega arith) (omega arith) jit_env jit_env none none (λ i. tt) 15 3 6 3 12 5
      twelve_shares five_shares
