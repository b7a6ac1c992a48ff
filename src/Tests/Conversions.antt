-- ===== src/Tests/Conversions.antt =====
-- The conversion and the choice of batches of arithmetic shares.
use mpc_package.Base.{refl, arith, [], ◌∷◌, true, false}
use mpc_package.Prog.Runs.{Runs}
use mpc_package.ArithMultiplyBatchOperator.Correct.{no_share, share}
use mpc_package.ArithMutexOperator.Correct.{flag-XorShares}
use mpc_package.BoolToArithBatchOperator
use mpc_package.BoolToArithBatchOperator.Correct.{no_bits, bits, AllSumShares}
use mpc_package.BoolToArithBatchOperator.Correct.{to_arith_batch-AllSumShares}
use mpc_package.ArithMutexBatchOperator
use mpc_package.ArithMutexBatchOperator.Correct.{no_flag, flag, chosen}
use mpc_package.ArithMutexBatchOperator.Correct.{mux_batch-AllSumShares}
use mpc_package.Tests.Inputs.{jit_env, five_shares, twelve_shares}

to_arith_batch-AllSumShares_example :
    Runs
      (BoolToArithBatchOperator.execute 0 8 4 (6 ∷ 15 ∷ []))
      (BoolToArithBatchOperator.execute 1 8 4 (3 ∷ 3 ∷ []))
      (λ zs0 zs1. AllSumShares 8 zs0 zs1 (5 ∷ 12 ∷ []))
to_arith_batch-AllSumShares_example =
    to_arith_batch-AllSumShares (omega arith) 4 (6 ∷ 15 ∷ []) (3 ∷ 3 ∷ []) (5 ∷ 12 ∷ [])
      (bits five_shares (bits twelve_shares no_bits))

mux_batch-AllSumShares_example :
    Runs
      (ArithMutexBatchOperator.execute jit_env 0 8 4 (200 ∷ 3 ∷ []) (250 ∷ 4 ∷ []) (1 ∷ 1 ∷ []))
      (ArithMutexBatchOperator.execute jit_env 1 8 4 (61 ∷ 4 ∷ []) (18 ∷ 2 ∷ []) (0 ∷ 1 ∷ []))
      (λ zs0 zs1. AllSumShares 8 zs0 zs1 (chosen (true ∷ false ∷ []) (5 ∷ 7 ∷ []) (12 ∷ 6 ∷ [])))
mux_batch-AllSumShares_example =
    mux_batch-AllSumShares (omega arith) jit_env jit_env 4 2 (200 ∷ 3 ∷ []) (61 ∷ 4 ∷ [])
      (250 ∷ 4 ∷ []) (18 ∷ 2 ∷ []) (1 ∷ 1 ∷ []) (0 ∷ 1 ∷ []) (5 ∷ 7 ∷ []) (12 ∷ 6 ∷ [])
      (true ∷ false ∷ []) tt
      (share (record { same = refl }) (share (record { same = refl }) no_share))
      (share (record { same = refl }) (share (record { same = refl }) no_share))
      (flag (flag-XorShares (omega arith) true false)
        (flag (flag-XorShares (omega arith) true true) no_flag))
