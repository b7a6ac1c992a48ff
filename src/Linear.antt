-- ===== src/Linear.antt =====
-- The operators that need no message: `BoolXorOperator` and `ArithAddOperator`
-- (primitives/src/compute/single) and the batch operators of the same names
-- (primitives/src/compute/batch, without SIMD).
pub mod Correct
use mpc_package.Base.{ℕ, List, [], ◌∷◌, bit_xor}
use mpc_package.Word.{add}
use mpc_package.Math.{ring}

-- `BoolXorOperator::execute`
unfoldable pub xor_shares : ℕ → ℕ → ℕ
xor_shares xi yi = bit_xor xi yi

-- `ArithAddOperator::execute`
unfoldable pub add_shares : ℕ → ℕ → ℕ → ℕ
add_shares width xi yi = ring (add xi yi) width

-- `BoolXorBatchOperator::execute`
unfoldable pub xor_shares_batch : List ℕ → List ℕ → List ℕ
xor_shares_batch (x ∷ xis) (y ∷ yis) = bit_xor x y ∷ xor_shares_batch xis yis
xor_shares_batch _ _ = []

-- `ArithAddBatchOperator::execute`, which does not cut the sums to the width.
unfoldable pub add_shares_batch : List ℕ → List ℕ → List ℕ
add_shares_batch (x ∷ xis) (y ∷ yis) = add x y ∷ add_shares_batch xis yis
add_shares_batch _ _ = []
