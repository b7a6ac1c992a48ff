-- ===== src/ArithMultiplyBatchOperator.antt =====
-- `ArithMultiplyBatchOperator` (primitives/src/compute/batch/arith/ArithMultiplyBatchOperator.cpp):
-- the products of two batches of arithmetic shares, with one exchange for all of them.
pub mod Correct
use mpc_package.Base.{ℕ, zero, suc, List, [], ◌∷◌, length, get_or, drop, replicate}
use mpc_package.Word.{add, sub}
use mpc_package.Math.{ring}
use mpc_package.Prog.{Prog, ret, exchange, throw, ◌>>=◌}
use mpc_package.Bmt.{Bmt, Env, BmtMethod, background, jit, fixed, pipeline}
use mpc_package.BmtBatchGenerator
use mpc_package.ArithMultiplyOperator.{product_share}

-- The triples, by `Conf::BMT_METHOD`. The methods that are not supported throw.
unfoldable pub obtain : Env → BmtMethod → ℕ → ℕ → ℕ → Prog (List Bmt)
obtain env jit rank num width = BmtBatchGenerator.execute rank num width
obtain env fixed rank num width = ret (replicate num env.fixed_bmt)
obtain env background rank num width = throw
obtain env pipeline rank num width = throw

-- `batchEFI`
unfoldable pub mask_operands : ℕ → List Bmt → List ℕ → List ℕ → List ℕ
mask_operands width (bmt ∷ bmts) (x ∷ xis) (y ∷ yis) =
    ring (sub x bmt.a) width ∷ ring (sub y bmt.b) width ∷ mask_operands width bmts xis yis
mask_operands width _ _ _ = []

-- The last loop, on what was sent and what was received.
unfoldable pub product_shares : ℕ → ℕ → List Bmt → List ℕ → List ℕ → List ℕ
product_shares rank width (bmt ∷ bmts) (ei ∷ fi ∷ efi) efo =
    let e_sum = ring (add ei (get_or efo 0 0)) width in
    let f_sum = ring (add fi (get_or efo 1 0)) width in
    product_share rank width bmt e_sum f_sum ∷ product_shares rank width bmts efi (drop 2 efo)
product_shares rank width _ _ efo = []

-- `execute` at a server.
unfoldable pub execute : Env → ℕ → ℕ → List ℕ → List ℕ → Prog (List ℕ)
execute env rank width xis yis = do
  bmts ← obtain env env.method rank (length xis) width
  let efi = mask_operands width bmts xis yis
  exchange efi λ efo. ret (product_shares rank width bmts efi efo)
