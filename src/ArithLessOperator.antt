-- ===== src/ArithLessOperator.antt =====
-- `ArithLessOperator` (primitives/src/compute/single/arith/ArithLessOperator.cpp): the comparison of
-- arithmetic shares, by the sign of their difference.
pub mod Correct
use mpc_package.Base.{ℕ, ◌-◌, bit_and}
use mpc_package.Word.{sub, sar}
use mpc_package.Prog.{Prog, ret, ◌>>=◌}
use mpc_package.Bmt.{Env}
use mpc_package.Shares.{reconstruct_arith}
use mpc_package.ArithToBoolOperator
use mpc_package.ArithToBoolOperator.{ThreeBmts}

-- `execute` at a server, with the triples that the conversion inside it uses.
unfoldable pub execute : Env → ℕ → ℕ → ThreeBmts → ℕ → ℕ → Prog ℕ
execute env rank width bmts xi yi =
    let a_delta = sub xi yi in
    do
      b_delta ← ArithToBoolOperator.execute env rank width bmts a_delta
      ret (bit_and (sar b_delta (width - 1)) 1)

-- `ArithLessOperator::reconstruct` at the client.
unfoldable pub reconstruct : ℕ → ℕ → ℕ → ℕ
reconstruct temp0 temp1 width = bit_and (reconstruct_arith temp0 temp1 width) 1
