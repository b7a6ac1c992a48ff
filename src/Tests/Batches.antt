-- ===== src/Tests/Batches.antt =====
-- The generators and the operators on batches.
use mpc_package.Base.{ℕ, zero, suc, ◌<◌, refl, arith, none}
use mpc_package.Base.{[], get_or, ◌∷◌}
use mpc_package.Prog.Runs.{Runs}
use mpc_package.Bmt.Triples.{XorTriple, SumTriple}
use mpc_package.Shares.Xor.{XorShares}
use mpc_package.BitwiseBmtGenerator
use mpc_package.BitwiseBmtGenerator.Correct.{execute-XorTriple}
use mpc_package.BmtGenerator
use mpc_package.BmtGenerator.Correct.{execute-SumTriple}
use mpc_package.BmtBatchGenerator
use mpc_package.BmtBatchGenerator.Correct.{SumTriples, execute-SumTriples}
use mpc_package.BitwiseBmtBatchGenerator
use mpc_package.BitwiseBmtBatchGenerator.{word_count}
use mpc_package.BitwiseBmtBatchGenerator.Correct.{XorTriples, execute-XorTriples}
use mpc_package.BoolAndBatchOperator
use mpc_package.BoolAndBatchOperator.Entry.{BatchShares, AndShares}
use mpc_package.BoolAndBatchOperator.Correct.{and_batch-AndShares}
use mpc_package.ArithMultiplyBatchOperator
use mpc_package.ArithMultiplyBatchOperator.Correct.{ProductShares, multiply_batch-ProductShares}
use mpc_package.ArithMultiplyBatchOperator.Correct.{no_share, share}
use mpc_package.Tests.Inputs.{jit_env, five_shares, twelve_shares}

pub two_shares : BatchShares 8 2 (6 ∷ 15 ∷ []) (3 ∷ 3 ∷ []) (5 ∷ 12 ∷ [])
two_shares = record { length0 = refl; length1 = refl; entry = entry }
  where
    entry :
        (i : ℕ)
        → i < 2
        → XorShares 8
            (get_or (6 ∷ 15 ∷ []) i 0)
            (get_or (3 ∷ 3 ∷ []) i 0)
            (get_or (5 ∷ 12 ∷ []) i 0)
    entry zero lt = five_shares
    entry (suc zero) lt = twelve_shares
    entry (suc (suc i)) lt = absurd (omega arith)

and_batch-AndShares_example :
    Runs
      (BoolAndBatchOperator.execute jit_env 0 8 [] none (6 ∷ 15 ∷ []) (6 ∷ 15 ∷ []))
      (BoolAndBatchOperator.execute jit_env 1 8 [] none (3 ∷ 3 ∷ []) (3 ∷ 3 ∷ []))
      (AndShares 8 2 (5 ∷ 12 ∷ []) (5 ∷ 12 ∷ []))
and_batch-AndShares_example =
    and_batch-AndShares (omega arith) (omega arith) refl jit_env jit_env [] [] none none tt
      two_shares two_shares

execute-XorTriple_example :
    Runs (BitwiseBmtGenerator.execute 0 8) (BitwiseBmtGenerator.execute 1 8) (XorTriple 8)
execute-XorTriple_example = execute-XorTriple (omega arith)

execute-SumTriple_example : Runs (BmtGenerator.execute 0 8) (BmtGenerator.execute 1 8) (SumTriple 8)
execute-SumTriple_example = execute-SumTriple (omega arith)

execute-SumTriples_example :
    Runs (BmtBatchGenerator.execute 0 3 8) (BmtBatchGenerator.execute 1 3 8) (SumTriples 8 3)
execute-SumTriples_example = execute-SumTriples (omega arith) 3

execute-XorTriples_example :
    Runs
      (BitwiseBmtBatchGenerator.execute 0 9 8)
      (BitwiseBmtBatchGenerator.execute 1 9 8)
      (XorTriples (word_count 9 8))
execute-XorTriples_example = execute-XorTriples 9 8

multiply_batch-ProductShares_example :
    Runs
      (ArithMultiplyBatchOperator.execute jit_env 0 8 (200 ∷ 3 ∷ []) (250 ∷ 4 ∷ []))
      (ArithMultiplyBatchOperator.execute jit_env 1 8 (61 ∷ 4 ∷ []) (18 ∷ 2 ∷ []))
      (λ zs0 zs1. ProductShares 8 zs0 zs1 (5 ∷ 7 ∷ []) (12 ∷ 6 ∷ []))
multiply_batch-ProductShares_example =
    multiply_batch-ProductShares (omega arith) jit_env jit_env 2 (200 ∷ 3 ∷ []) (61 ∷ 4 ∷ [])
      (250 ∷ 4 ∷ []) (18 ∷ 2 ∷ []) (5 ∷ 7 ∷ []) (12 ∷ 6 ∷ []) tt
      (share (record { same = refl }) (share (record { same = refl }) no_share))
      (share (record { same = refl }) (share (record { same = refl }) no_share))
