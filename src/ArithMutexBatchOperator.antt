-- ===== src/ArithMutexBatchOperator.antt =====
-- `ArithMutexBatchOperator` (primitives/src/compute/batch/arith/ArithMutexBatchOperator.cpp): choose,
-- entry by entry, between two batches of arithmetic shares by Boolean shares of flags. The two
-- batches of products run one after another (`ENABLE_INTRA_OPERATOR_PARALLELISM` is off, its
-- default).
pub mod Correct
use mpc_package.Base.{ℕ, List, [], ◌∷◌, ltb, if◌then◌else◌}
use mpc_package.Word.{add, sub}
use mpc_package.Math.{ring}
use mpc_package.Prog.{Prog, ret, ◌>>=◌}
use mpc_package.Bmt.{Env}
use mpc_package.BoolToArithBatchOperator
use mpc_package.ArithMultiplyBatchOperator

-- The constructor on shares: `_conds_i`.
unfoldable pub cond_shares : ℕ → ℕ → ℕ → List ℕ → Prog (List ℕ)
cond_shares rank width start_msg_tag conds =
    if ltb 1 width
    then BoolToArithBatchOperator.execute rank width start_msg_tag conds
    else ret conds

-- The last loop of `execute`.
unfoldable pub combine : ℕ → List ℕ → List ℕ → List ℕ → List ℕ
combine width (cx ∷ cx_results) (y ∷ yis) (cy ∷ cy_results) =
    ring (sub (add cx y) cy) width ∷ combine width cx_results yis cy_results
combine width _ _ _ = []

-- The constructor and `execute` at a server.
unfoldable pub execute : Env → ℕ → ℕ → ℕ → List ℕ → List ℕ → List ℕ → Prog (List ℕ)
unfolding cond_shares combine
execute env rank width start_msg_tag xis yis conds = do
  conds_i ← cond_shares rank width start_msg_tag conds
  cx_results ← ArithMultiplyBatchOperator.execute env rank width conds_i xis
  cy_results ← ArithMultiplyBatchOperator.execute env rank width conds_i yis
  ret (combine width cx_results yis cy_results)
