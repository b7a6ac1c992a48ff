-- ===== src/BoolMutexBatchOperator.antt =====
-- `BoolMutexBatchOperator` (primitives/src/compute/batch/bool/BoolMutexBatchOperator.cpp): choose
-- between the entries of two batches of Boolean shares, without SIMD.
pub mod Correct
pub mod Entries
pub mod Choice
use mpc_package.Base.{
  ℕ, zero, suc, ◌+◌, ◌==◌, List, [], ◌∷◌, ◌++◌, length, get_or, Option, if◌then◌else◌,
}
use mpc_package.Base.{bit_xor}
use mpc_package.Word.{ones}
use mpc_package.Math.{ring}
use mpc_package.Prog.{Prog, ret, ◌>>=◌}
use mpc_package.Bmt.{Bmt, Env}
use mpc_package.BoolAndBatchOperator

-- The constructors' loop: a condition that is not 0 becomes all ones.
unfoldable pub spread_conds : ℕ → List ℕ → List ℕ
spread_conds width [] = []
spread_conds width (ci ∷ conds_i) =
    (if ci == 0 then 0 else ring ones width) ∷ spread_conds width conds_i

-- `ring(zis[i] ^ (*_yis)[i] ^ zis[num + i])`, from `i` on.
unfoldable pub choose_from : ℕ → List ℕ → List ℕ → ℕ → ℕ → ℕ → List ℕ
choose_from width zis yis num i zero = []
choose_from width zis yis num i (suc left) =
    ring (bit_xor (bit_xor (get_or zis i 0) (get_or yis i 0)) (get_or zis (num + i) 0)) width
    ∷ choose_from width zis yis num (suc i) left

-- `execute0`, on the conditions of the constructor on shares.
unfoldable pub execute :
    Env → ℕ → ℕ → List Bmt → Option (List Bmt) → List ℕ → List ℕ → List ℕ → Prog (List ℕ)
execute env rank width polled given xis yis conds =
    let conds_i = spread_conds width conds in
    let num = length conds_i in
    do
      zis ← BoolAndBatchOperator.execute_for_mutex env rank width polled given xis yis conds_i
      ret (choose_from width zis yis num 0 num)

-- `executeBidirectionally`: the choices, and then what was not chosen.
unfoldable pub execute_bidirectionally :
    Env → ℕ → ℕ → List Bmt → Option (List Bmt) → List ℕ → List ℕ → List ℕ → Prog (List ℕ)
execute_bidirectionally env rank width polled given xis yis conds =
    let conds_i = spread_conds width conds in
    let num = length xis in
    do
      zis ← BoolAndBatchOperator.execute_for_mutex env rank width polled given xis yis conds_i
      ret (choose_from width zis yis num 0 num ++ choose_from width zis xis num 0 num)
