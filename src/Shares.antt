-- ===== src/Shares.antt =====
-- Secret sharing by the client and reconstruction (the constructors and `reconstruct` of
-- primitives/src/compute/single/bool/BoolOperator.cpp, single/arith/ArithOperator.cpp and of the
-- batch operators beside them). A pair holds the shares of servers 0 and 1.
pub mod Xor
pub mod Sum
pub mod Leak
pub mod Pairs
use mpc_package.Base.{ℕ, ◌/◌, List, [], ◌∷◌, ◌++◌, length, take, drop, bit_xor}
use mpc_package.Word.{add, sub}
use mpc_package.Math.{ring, rand_int}

-- `BoolOperator(z, …)` at the client, which draws `r`.
unfoldable pub share_bool : ℕ → ℕ → ℕ → ℕ × ℕ
share_bool z width r =
    let z1 = ring (rand_int r) width in let z0 = ring (bit_xor z z1) width in (z0, z1)

-- `BoolOperator(x, y, …)` at the client: the messages to servers 0 and 1.
unfoldable pub share_bool_pair : ℕ → ℕ → ℕ → List ℕ × List ℕ
share_bool_pair x y width =
    let x1 : ℕ = 1 in
    let x0 = ring (bit_xor x x1) width in
    let y1 : ℕ = 1 in let y0 = ring (bit_xor y y1) width in (x0 ∷ y0 ∷ [], x1 ∷ y1 ∷ [])

-- `BoolOperator::reconstruct` at the client.
unfoldable pub reconstruct_bool : ℕ → ℕ → ℕ → ℕ
reconstruct_bool temp0 temp1 width = ring (bit_xor temp0 temp1) width

-- `ArithOperator(z, …)` at the client.
unfoldable pub share_arith : ℕ → ℕ → ℕ × ℕ
share_arith z r = let z1 = rand_int r in let z0 = sub z z1 in (z0, z1)

-- `ArithOperator(x, y, …)` at the client, which draws `r` and then `s`.
unfoldable pub share_arith_pair : ℕ → ℕ → ℕ → ℕ → List ℕ × List ℕ
share_arith_pair x y r s =
    let x1 = rand_int r in
    let x0 = sub x x1 in let y1 = rand_int s in let y0 = sub y y1 in (x0 ∷ y0 ∷ [], x1 ∷ y1 ∷ [])

-- `ArithOperator::reconstruct` at the client.
unfoldable pub reconstruct_arith : ℕ → ℕ → ℕ → ℕ
reconstruct_arith temp0 temp1 width = ring (add temp0 temp1) width

-- `BoolBatchOperator(zs, …)` at the client; the source draws one number for each element.
unfoldable pub share_bool_batch : List ℕ → List ℕ → ℕ → List ℕ × List ℕ
unfolding share_bool
share_bool_batch (z ∷ zs) (r ∷ rs) width =
    let (z0, z1) = share_bool z width r in
    let (zv0, zv1) = share_bool_batch zs rs width in (z0 ∷ zv0, z1 ∷ zv1)
share_bool_batch _ _ width = ([], [])

-- `BoolBatchOperator::reconstruct`
unfoldable pub reconstruct_bool_batch : List ℕ → List ℕ → ℕ → List ℕ
reconstruct_bool_batch (a ∷ temp0) (b ∷ temp1) width =
    ring (bit_xor a b) width ∷ reconstruct_bool_batch temp0 temp1 width
reconstruct_bool_batch _ _ width = []

-- `ArithBatchOperator(zs, …)` at the client.
unfoldable pub share_arith_batch : List ℕ → List ℕ → List ℕ × List ℕ
unfolding share_arith
share_arith_batch (z ∷ zs) (r ∷ rs) =
    let (z0, z1) = share_arith z r in
    let (zv0, zv1) = share_arith_batch zs rs in (z0 ∷ zv0, z1 ∷ zv1)
share_arith_batch _ _ = ([], [])

-- `ArithBatchOperator::reconstruct`, which does not cut the sums to the width.
unfoldable pub reconstruct_arith_batch : List ℕ → List ℕ → List ℕ
reconstruct_arith_batch (a ∷ temp0) (b ∷ temp1) = add a b ∷ reconstruct_arith_batch temp0 temp1
reconstruct_arith_batch _ _ = []

-- `BoolBatchOperator(xs, ys, …)` at the client: both batches in one message for each server.
unfoldable pub share_bool_batches : List ℕ → List ℕ → List ℕ → List ℕ → ℕ → List ℕ × List ℕ
share_bool_batches xs ys rs ss width =
    let (x0, x1) = share_bool_batch xs rs width in
    let (y0, y1) = share_bool_batch ys ss width in (x0 ++ y0, x1 ++ y1)

-- `ArithBatchOperator(xs, ys, …)` at the client.
unfoldable pub share_arith_batches : List ℕ → List ℕ → List ℕ → List ℕ → List ℕ × List ℕ
share_arith_batches xs ys rs ss =
    let (x0, x1) = share_arith_batch xs rs in
    let (y0, y1) = share_arith_batch ys ss in (x0 ++ y0, x1 ++ y1)

-- What a server makes of such a message: `_xis` and `_yis`.
unfoldable pub split_operands : List ℕ → List ℕ × List ℕ
split_operands temp = let size = length temp / 2 in (take size temp, take size (drop size temp))
