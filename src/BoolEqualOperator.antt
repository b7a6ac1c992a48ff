-- ===== src/BoolEqualOperator.antt =====
-- `BoolEqualOperator` (primitives/src/compute/single/bool/BoolEqualOperator.cpp): the comparison of
-- Boolean shares for equality, as the conjunction of the digits of `~(x ^ y)`.
pub mod Polls
pub mod Correct
use mpc_package.Base.{ℕ, zero, suc, ◌+◌, ◌-◌, ◌==◌, if◌then◌else◌, Option, none, some}
use mathlib.Core.Option
use mpc_package.Base.{bit_and, bit_xor}
use mpc_package.Word.{sar, inv}
use mpc_package.Prog.{Prog, ret, ◌>>=◌}
use mpc_package.Bmt.{Bmt, Env, BmtMethod, background, jit, fixed, pipeline}
use mpc_package.BoolAndOperator
use mpc_package.IntermediateDataSupport.{Limits, Support, poll_bitwise_bmt}

-- The triple that each conjunction is given, and what the polls leave: that of `setBmt`; in the
-- background method the second of two that are polled, the first of which is overwritten; in the
-- others none, after a poll whose triple is not used. `none` where a poll reads beyond the end of
-- the vector of queues, or does not end.
unfoldable pub given_bmt :
    Limits → BmtMethod → ℕ → Option Bmt → Support → Option (Option Bmt × Support)
given_bmt conf method width (some bmt) s = some (some bmt, s)
given_bmt conf background width none s =
    Option.map (λ p. (some p.0, p.1))
      (Option.bind (poll_bitwise_bmt background conf width s)
        (λ p. poll_bitwise_bmt background conf width p.1))
given_bmt conf method width none s =
    Option.map (λ p. (none, p.1)) (poll_bitwise_bmt method conf width s)

-- The loop at `i`, with `left` rounds to go.
unfoldable pub and_digits : Env → ℕ → Option Bmt → ℕ → ℕ → ℕ → ℕ → Prog ℕ
and_digits env rank bmt diff i zero zi = ret zi
and_digits env rank bmt diff i (suc left) zi = do
  z ← BoolAndOperator.execute env rank 1 bmt zi (bit_and (sar diff (i + 1)) 1)
  and_digits env rank bmt diff (i + 1) left z

-- `execute` at a server: what it runs with the triple that it has found, and what the polls leave.
unfoldable pub execute :
    Limits → Env → ℕ → ℕ → Option Bmt → ℕ → ℕ → Support → Option (Prog ℕ × Support)
execute conf env rank width given xi yi s =
    let diff = if rank == 0 then inv (bit_xor xi yi) else bit_xor xi yi in
    Option.map (λ p. (and_digits env rank p.0 diff 0 (width - 1) (bit_and diff 1), p.1))
      (given_bmt conf env.method width given s)
