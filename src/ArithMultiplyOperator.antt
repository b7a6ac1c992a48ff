-- ===== src/ArithMultiplyOperator.antt =====
-- `ArithMultiplyOperator` (primitives/src/compute/single/arith/ArithMultiplyOperator.cpp): the product
-- of arithmetic shares, by a triple and one exchange of masked operands.
pub mod Correct
use mpc_package.Base.{ℕ, List, [], ◌∷◌, Option, none, some, get_or}
use mpc_package.Word.{add, sub, mul}
use mpc_package.Math.{ring}
use mpc_package.Prog.{Prog, ret, exchange, ◌>>=◌}
use mpc_package.Bmt.{Bmt, Env, BmtMethod, background, jit, fixed, pipeline}
use mpc_package.BmtGenerator

-- The triple: that of `setBmt`, or of the queue in background mode, or else a fresh one.
unfoldable pub obtain : Env → BmtMethod → ℕ → ℕ → Option Bmt → Prog Bmt
obtain env method rank width (some bmt) = ret bmt
obtain env background rank width none = ret env.polled_bmt
obtain env jit rank width none = BmtGenerator.execute rank width
obtain env fixed rank width none = BmtGenerator.execute rank width
obtain env pipeline rank width none = BmtGenerator.execute rank width

-- The share of the result, once `e` and `f` are opened.
unfoldable pub product_share : ℕ → ℕ → Bmt → ℕ → ℕ → ℕ
product_share rank width bmt e f =
    ring (add (add (add (mul (mul rank e) f) (mul f bmt.a)) (mul e bmt.b)) bmt.c) width

unfoldable pub masked_product : ℕ → ℕ → ℕ → ℕ → Bmt → Prog ℕ
masked_product rank width x y bmt =
    let ei = ring (sub x bmt.a) width in
    let fi = ring (sub y bmt.b) width in
    exchange (ei ∷ fi ∷ []) λ efo.
      let e = ring (add ei (get_or efo 0 0)) width in
      let f = ring (add fi (get_or efo 1 0)) width in ret (product_share rank width bmt e f)

-- `execute`
unfoldable pub execute : Env → ℕ → ℕ → Option Bmt → ℕ → ℕ → Prog ℕ
execute env rank width given x y = do
  bmt ← obtain env env.method rank width given
  masked_product rank width x y bmt
