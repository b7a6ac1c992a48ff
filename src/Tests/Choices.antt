-- ===== src/Tests/Choices.antt =====
-- The choices of batches at concrete inputs.
use mpc_package.Base.{ℕ, zero, suc, ◌<◌, [], ◌∷◌, none, get_or, true, false, arith, refl}
use mpc_package.Prog.Runs.{Runs}
use mpc_package.Shares.Xor.{XorShares}
use mpc_package.BoolMutexBatchOperator
use mpc_package.BoolAndBatchOperator.Entry.{BatchShares}
use mpc_package.BoolMutexBatchOperator.Correct.{FlagShares, no_flag, flag}
use mpc_package.BoolMutexBatchOperator.Choice.{ChosenShares, BothShares}
use mpc_package.BoolMutexBatchOperator.Choice.{
  execute-ChosenShares, execute_bidirectionally-BothShares,
}
use mpc_package.Tests.Inputs.{jit_env, five_shares, twelve_shares}

first_batch : BatchShares 8 2 (6 ∷ 15 ∷ []) (3 ∷ 3 ∷ []) (5 ∷ 12 ∷ [])
first_batch = record { length0 = refl; length1 = refl; entry = entry }
  where
    entry :
        (i : ℕ)
        → i < 2
        → XorShares 8
            (get_or (6 ∷ 15 ∷ []) i 0)
            (get_or (3 ∷ 3 ∷ []) i 0)
            (get_or (5 ∷ 12 ∷ []) i 0)
    entry zero lt = five_shares
    entry (suc zero) lt = twelve_shares
    entry (suc (suc i)) lt = absurd (omega arith)

second_batch : BatchShares 8 2 (15 ∷ 6 ∷ []) (3 ∷ 3 ∷ []) (12 ∷ 5 ∷ [])
second_batch = record { length0 = refl; length1 = refl; entry = entry }
  where
    entry :
        (i : ℕ)
        → i < 2
        → XorShares 8
            (get_or (15 ∷ 6 ∷ []) i 0)
            (get_or (3 ∷ 3 ∷ []) i 0)
            (get_or (12 ∷ 5 ∷ []) i 0)
    entry zero lt = twelve_shares
    entry (suc zero) lt = five_shares
    entry (suc (suc i)) lt = absurd (omega arith)

two_flags : FlagShares 2 (1 ∷ 1 ∷ []) (0 ∷ 1 ∷ []) (true ∷ false ∷ [])
two_flags = flag true false (flag true true no_flag)

execute-ChosenShares_example :
    Runs
      (BoolMutexBatchOperator.execute jit_env 0 8 [] none (6 ∷ 15 ∷ []) (15 ∷ 6 ∷ []) (1 ∷ 1 ∷ []))
      (BoolMutexBatchOperator.execute jit_env 1 8 [] none (3 ∷ 3 ∷ []) (3 ∷ 3 ∷ []) (0 ∷ 1 ∷ []))
      (ChosenShares 8 2 (true ∷ false ∷ []) (5 ∷ 12 ∷ []) (12 ∷ 5 ∷ []))
execute-ChosenShares_example =
    execute-ChosenShares (omega arith) (omega arith) refl jit_env jit_env [] [] none none refl tt
      first_batch second_batch two_flags

execute_bidirectionally-BothShares_example :
    Runs
      (BoolMutexBatchOperator.execute_bidirectionally jit_env 0 8 [] none
        (6 ∷ 15 ∷ [])
        (15 ∷ 6 ∷ [])
        (1 ∷ 1 ∷ []))
      (BoolMutexBatchOperator.execute_bidirectionally jit_env 1 8 [] none
        (3 ∷ 3 ∷ [])
        (3 ∷ 3 ∷ [])
        (0 ∷ 1 ∷ []))
      (BothShares 8 2 (true ∷ false ∷ []) (5 ∷ 12 ∷ []) (12 ∷ 5 ∷ []))
execute_bidirectionally-BothShares_example =
    execute_bidirectionally-BothShares (omega arith) (omega arith) refl jit_env jit_env [] [] none
      none refl tt first_batch second_batch two_flags
