-- ===== src/BoolMutexOperator.antt =====
-- `BoolMutexOperator` (primitives/src/compute/single/bool/BoolMutexOperator.cpp): choose between two
-- Boolean shares by a shared flag, with two conjunctions in one batch.
pub mod Correct
use mpc_package.Base.{ℕ, List, [], ◌∷◌, get_or, Option, Bool, to_int, if◌then◌else◌}
use mpc_package.Base.{bit_xor}
use mpc_package.Word.{ones}
use mpc_package.Math.{ring}
use mpc_package.Prog.{Prog, ret, ◌>>=◌}
use mpc_package.Bmt.{Bmt, Env}
use mpc_package.BoolAndBatchOperator

-- The constructor on shares: a share that is set becomes all ones.
unfoldable pub cond_mask : ℕ → Bool → ℕ
cond_mask width cond = if cond then ring ones width else to_int cond

-- `execute`; `given` is what `setBmts` was called with, and `polled` what the queue hands out.
unfoldable pub execute : Env → ℕ → ℕ → List Bmt → Option (List Bmt) → ℕ → ℕ → Bool → Prog ℕ
execute env rank width polled given x y cond =
    let cond_i = cond_mask width cond in
    do
      temp ←
          BoolAndBatchOperator.execute env rank width polled given (cond_i ∷ cond_i ∷ [])
            (x ∷ y ∷ [])
      ret (ring (bit_xor (bit_xor (get_or temp 0 0) y) (get_or temp 1 0)) width)
