-- ===== src/ArithMutexOperator.antt =====
-- `ArithMutexOperator` (primitives/src/compute/single/arith/ArithMutexOperator.cpp): choose between
-- two arithmetic shares by a Boolean share. The two products run one after another
-- (`ENABLE_INTRA_OPERATOR_PARALLELISM` is off, its default).
pub mod Pointers
pub mod Correct
use mathlib.Core.Option
use mpc_package.Base.{ℕ, ◌+◌, List, ◌∷◌, Option, none, some, Bool, ltb, to_int, if◌then◌else◌}
use mpc_package.Word.{add, sub}
use mpc_package.Math.{ring}
use mpc_package.Prog.{Prog, ret, ◌>>=◌}
use mpc_package.Bmt.{Bmt, Env, BmtMethod, background, jit, fixed, pipeline}
use mpc_package.IntermediateDataSupport.{Limits, Support, poll_bitwise_bmts}
use mpc_package.BoolToArithOperator
use mpc_package.ArithMultiplyOperator

-- A `Bmt` as its constructor leaves it.
abbrev pub empty_bmt : Bmt
empty_bmt = record { a = 0; b = 0; c = 0 }

-- `bs[0]` and `bs[1]`
unfoldable pub first_two : Option (List Bmt × Support) → Option ((Bmt × Bmt) × Support)
first_two (some (bmt0 ∷ bmt1 ∷ bmts, s)) = some ((bmt0, bmt1), s)
first_two _ = none

-- `bp0` and `bp1`, and what the poll leaves: the triples of `setBmts`, none in JIT mode, else what
-- the local variables hold. In background mode these are polled from the queues of Boolean
-- triples; `none` if the poll does not end.
unfoldable pub triple_pointers :
    Limits
    → BmtMethod
    → ℕ
    → Option (Bmt × Bmt)
    → Support
    → Option ((Option Bmt × Option Bmt) × Support)
unfolding first_two
triple_pointers conf method width (some (bmt0, bmt1)) s = some ((some bmt0, some bmt1), s)
triple_pointers conf jit width none s = some ((none, none), s)
triple_pointers conf background width none s =
    Option.map (λ p. ((some p.0.0, some p.0.1), p.1)) (first_two (poll_bitwise_bmts conf 2 width s))
triple_pointers conf fixed width none s = some ((some empty_bmt, some empty_bmt), s)
triple_pointers conf pipeline width none s = some ((some empty_bmt, some empty_bmt), s)

-- The constructor on shares: `_cond_i`.
unfoldable pub cond_share : ℕ → ℕ → ℕ → Bool → Prog ℕ
cond_share rank width start_msg_tag cond =
    if ltb 1 width
    then BoolToArithOperator.execute rank width start_msg_tag (to_int cond)
    else ret (to_int cond)

-- The products, and the choice.
unfoldable pub mux : Env → ℕ → ℕ → ℕ → Option Bmt × Option Bmt → ℕ → ℕ → Bool → Prog ℕ
unfolding cond_share
mux env rank width start_msg_tag bp x y cond = do
  cond_i ← cond_share rank width start_msg_tag cond
  cx ← ArithMultiplyOperator.execute env rank width bp.0 cond_i x
  cy ← ArithMultiplyOperator.execute env rank width bp.1 cond_i y
  ret (ring (sub (add cx y) cy) width)

-- The constructor and `execute` at a server, `given` the triples of `setBmts`: what it runs, and
-- what the poll leaves.
unfoldable pub execute :
    Limits
    → Env
    → ℕ
    → ℕ
    → ℕ
    → Option (Bmt × Bmt)
    → ℕ
    → ℕ
    → Bool
    → Support
    → Option (Prog ℕ × Support)
unfolding triple_pointers mux
execute conf env rank width start_msg_tag given x y cond s =
    Option.map (λ p. (mux env rank width start_msg_tag p.0 x y cond, p.1))
      (triple_pointers conf env.method width given s)
