-- ===== src/BoolAndOperator.antt =====
-- `BoolAndOperator` (primitives/src/compute/single/bool/BoolAndOperator.cpp): the conjunction of
-- Boolean shares, by a triple and one exchange of masked operands.
pub mod Correct
use mpc_package.Base.{ℕ, ◌==◌, List, [], ◌∷◌, Option, none, some, if◌then◌else◌, get_or}
use mpc_package.Base.{bit_and, bit_xor}
use mpc_package.Word.{ones}
use mpc_package.Math.{ring}
use mpc_package.Prog.{Prog, ret, exchange, ◌>>=◌}
use mpc_package.Bmt.{Bmt, Env, BmtMethod, background, jit, fixed, pipeline}
use mpc_package.BitwiseBmtGenerator

-- The triple: that of `setBmt`, or else by `Conf::BMT_METHOD`.
unfoldable pub obtain : Env → BmtMethod → ℕ → ℕ → Option Bmt → Prog Bmt
obtain env method rank width (some bmt) = ret bmt
obtain env fixed rank width none = ret env.fixed_bitwise_bmt
obtain env background rank width none = ret env.polled_bitwise_bmt
obtain env jit rank width none = BitwiseBmtGenerator.execute rank width
obtain env pipeline rank width none = BitwiseBmtGenerator.execute rank width

-- The share of the result, once `e` and `f` are opened.
unfoldable pub and_share : ℕ → ℕ → Bmt → ℕ → ℕ → ℕ
and_share rank width bmt e f =
    let extended_rank = if rank == 0 then 0 else ring ones width in
    bit_xor
      (bit_xor (bit_xor (bit_and (bit_and extended_rank e) f) (bit_and f bmt.a)) (bit_and e bmt.b))
      bmt.c

-- The exchange of the masked operands and the share of the result.
unfoldable pub masked_and : ℕ → ℕ → ℕ → ℕ → Bmt → Prog ℕ
masked_and rank width x y bmt =
    let ei = bit_xor (ring x width) bmt.a in
    let fi = bit_xor (ring y width) bmt.b in
    exchange (ei ∷ fi ∷ []) λ efo.
      let e = ring (bit_xor ei (get_or efo 0 0)) width in
      let f = ring (bit_xor fi (get_or efo 1 0)) width in ret (and_share rank width bmt e f)

-- The constructor on shares, then `execute`.
unfoldable pub execute : Env → ℕ → ℕ → Option Bmt → ℕ → ℕ → Prog ℕ
execute env rank width given x y = do
  bmt ← obtain env env.method rank width given
  masked_and rank width x y bmt
