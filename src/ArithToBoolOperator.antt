-- ===== src/ArithToBoolOperator.antt =====
-- `ArithToBoolOperator` (primitives/src/compute/single/arith/ArithToBoolOperator.cpp): from arithmetic
-- to Boolean shares, by a ripple-carry adder over shared bits. The conjunctions run one after
-- another (`ENABLE_INTRA_OPERATOR_PARALLELISM` is off, its default).
pub mod Correct
pub mod Ripple
use mpc_package.Base.{ℕ, zero, suc, ◌+◌, ◌-◌, ◌==◌, List, [], ◌∷◌, get_or, Option, none, some}
use mpc_package.Base.{Bool, false, not, xor, ltb, to_int, if◌then◌else◌, bit_xor}
use mpc_package.Word.{add, shl}
use mpc_package.Math.{ring, get_bit, rand_int}
use mpc_package.Prog.{Prog, ret, draw, exchange, ◌>>=◌}
use mpc_package.Bmt.{Bmt, Env, extract}
use mpc_package.BoolAndOperator

-- The three triples `b0`, `b1`, `b2`.
pub record ThreeBmts : Type 0 where
  pub b0 : Bmt
  pub b1 : Bmt
  pub b2 : Bmt

-- `bool v = …->_zi`
unfoldable pub to_bool : ℕ → Bool
to_bool v = not (v == 0)

-- A conjunction of single bits, by the digit `i` of a triple.
unfoldable pub and_bit : Env → ℕ → Bmt → ℕ → Bool → Bool → Prog Bool
and_bit env rank bmt i x y = do
  z ← BoolAndOperator.execute env rank 1 (some (extract bmt i)) (to_int x) (to_int y)
  ret (to_bool z)

-- The carry into the next bit.
unfoldable pub next_carry : Env → ℕ → ThreeBmts → ℕ → Bool → Bool → Bool → Prog Bool
next_carry env rank bmts i ai bi carry_i =
    let propagate_i = xor ai bi in
    do
      generate_i ← and_bit env rank bmts.b0 i ai bi
      temp_carry_i ← and_bit env rank bmts.b1 i propagate_i carry_i
      let sum_i = xor generate_i temp_carry_i
      and_i ← and_bit env rank bmts.b2 i generate_i temp_carry_i
      ret (xor sum_i and_i)

-- The loop at bit `i`, with `left` bits to go. Server 0 holds a share of `a` and is sent one of `b`.
unfoldable pub ripple : Env → ℕ → ℕ → ThreeBmts → ℕ → ℕ → ℕ → ℕ → Bool → ℕ → Prog ℕ
ripple env rank width bmts xi_i xi_o i zero carry_i zi = ret zi
ripple env rank width bmts xi_i xi_o i (suc left) carry_i zi =
    let self_i = get_bit xi_i i in
    let self_o = get_bit xi_o i in
    exchange (to_int self_o ∷ []) λ other_iv.
      let other_i = not (get_or other_iv 0 0 == 0) in
      let ai = if rank == 0 then self_i else other_i in
      let bi = if rank == 0 then other_i else self_i in
      let zi' = add zi (shl (to_int (xor (xor ai bi) carry_i)) i) in
      let more = (do
        carry ← next_carry env rank bmts i ai bi carry_i
        ripple env rank width bmts xi_i xi_o (i + 1) left carry zi') in
      let done : Prog ℕ = ret zi' in if ltb i (width - 1) then more else done

-- `execute` on a share `xi`, with the triples that `prepareBmts` has found.
unfoldable pub execute : Env → ℕ → ℕ → ThreeBmts → ℕ → Prog ℕ
execute env rank width bmts xi = draw λ r.
    let xi_i = rand_int r in
    let xi_o = bit_xor xi_i xi in
    do zi ← ripple env rank width bmts xi_i xi_o 0 width false 0; ret (ring zi width)
