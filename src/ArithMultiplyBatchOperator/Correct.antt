-- ===== src/ArithMultiplyBatchOperator/Correct.antt =====
-- The operator returns shares of the products, entry by entry.
use mpc_package.Base.{ℕ, zero, suc, ◌+◌, ◌*◌, ◌≤◌, ◌≡◌, refl, ap}
use mpc_package.Base.{List, [], ◌∷◌, length, replicate}
use mpc_package.Word.Cong.{Cong}
use mpc_package.Prog.Runs.{Runs, Runs-bind, Runs-ret, Runs-exchange}
use mpc_package.Bmt.{Bmt, Env, BmtMethod, jit, fixed}
use mpc_package.Bmt.Triples.{SumTriple}
use mpc_package.Shares.Sum.{SumShares}
use mpc_package.BmtBatchGenerator.Correct.{SumTriples, execute-SumTriples}
use mpc_package.ArithMultiplyOperator.Correct.{product_share-SumShares}
use mpc_package.ArithMultiplyBatchOperator.{obtain, mask_operands, product_shares, execute}

-- Entry by entry, the servers' shares add up to the values, modulo 2 ^ width.
pub data BatchShares (w : ℕ) : ℕ → List ℕ → List ℕ → List ℕ → Type 0 where
  no_share : BatchShares w 0 [] [] []
  share :
      {n x0 x1 x : ℕ} {xs0 xs1 xs : List ℕ}
      → Cong w (x0 + x1) x
      → BatchShares w n xs0 xs1 xs
      → BatchShares w (suc n) (x0 ∷ xs0) (x1 ∷ xs1) (x ∷ xs)

-- Entry by entry, the results are shares of the products.
abbrev pub ProductShares : ℕ → List ℕ → List ℕ → List ℕ → List ℕ → Type 0
ProductShares w [] [] [] [] = Unit
ProductShares w (z0 ∷ zs0) (z1 ∷ zs1) (x ∷ xs) (y ∷ ys) =
    SumShares w z0 z1 (x * y) × ProductShares w zs0 zs1 xs ys
ProductShares w _ _ _ _ = ⊥

-- Both servers generate, or both use fixed triples, and those are triples.
abbrev pub BatchSupply : ℕ → Env → Env → BmtMethod → BmtMethod → Type 0
BatchSupply w e0 e1 jit jit = Unit
BatchSupply w e0 e1 fixed fixed = SumTriple w e0.fixed_bmt e1.fixed_bmt
BatchSupply w e0 e1 _ _ = ⊥

BatchShares-length :
    {w n : ℕ} {xs0 xs1 xs : List ℕ}
    → BatchShares w n xs0 xs1 xs
    → (length xs0 ≡ n) × (length xs1 ≡ n)
BatchShares-length no_share = (refl, refl)
BatchShares-length (share e s) = let rest = BatchShares-length s in (ap suc rest.0, ap suc rest.1)

module _ {w : ℕ} (le : w ≤ 64) where
  replicate-SumTriples :
      (n : ℕ) (s t : Bmt) → SumTriple w s t → SumTriples w n (replicate n s) (replicate n t)
  replicate-SumTriples zero s t h = tt
  replicate-SumTriples (suc n) s t h = (h, replicate-SumTriples n s t h)

  obtain-SumTriples :
      (env0 env1 : Env) (m0 m1 : BmtMethod) (n : ℕ)
      → BatchSupply w env0 env1 m0 m1
      → Runs (obtain env0 m0 0 n w) (obtain env1 m1 1 n w) (SumTriples w n)
  unfolding obtain
  obtain-SumTriples env0 env1 jit jit n h = execute-SumTriples le n
  obtain-SumTriples env0 env1 fixed fixed n h = Runs-ret _ _ (replicate-SumTriples n _ _ h)
  obtain-SumTriples env0 env1 _ _ n h = absurd h

  product_shares-ProductShares :
      {n : ℕ} (ss ts : List Bmt) {xs0 xs1 ys0 ys1 xs ys : List ℕ}
      → SumTriples w n ss ts
      → BatchShares w n xs0 xs1 xs
      → BatchShares w n ys0 ys1 ys
      → ProductShares w
          (product_shares 0 w ss (mask_operands w ss xs0 ys0) (mask_operands w ts xs1 ys1))
          (product_shares 1 w ts (mask_operands w ts xs1 ys1) (mask_operands w ss xs0 ys0))
          xs
          ys
  unfolding product_shares mask_operands
  product_shares-ProductShares [] [] t no_share no_share = tt
  product_shares-ProductShares [] (_ ∷ _) t no_share no_share = absurd t
  product_shares-ProductShares (_ ∷ _) ts t no_share no_share = absurd t
  product_shares-ProductShares [] ts h (share d sx) (share e sy) = absurd h
  product_shares-ProductShares (_ ∷ _) [] h (share d sx) (share e sy) = absurd h
  product_shares-ProductShares (s ∷ ss) (t ∷ ts) h (share d sx) (share e sy) =
      (product_share-SumShares le _ _ _ _ _ _ h.0 d e, product_shares-ProductShares ss ts h.1 sx sy)

  -- On two batches of arithmetic shares of `xs` and of `ys`, as long as each other, in every width
  -- up to 64, and if both servers generate their triples or both use fixed ones that are a triple,
  -- both servers end, and what they return are, entry by entry, arithmetic shares of the products.
  pub multiply_batch-ProductShares :
      (env0 env1 : Env) (n : ℕ) (xs0 xs1 ys0 ys1 xs ys : List ℕ)
      → BatchSupply w env0 env1 env0.method env1.method
      → BatchShares w n xs0 xs1 xs
      → BatchShares w n ys0 ys1 ys
      → Runs
          (execute env0 0 w xs0 ys0)
          (execute env1 1 w xs1 ys1)
          (λ zs0 zs1. ProductShares w zs0 zs1 xs ys)
  unfolding execute
  multiply_batch-ProductShares env0 env1 n xs0 xs1 ys0 ys1 xs ys supply sx sy =
      rw ((BatchShares-length sx).0, (BatchShares-length sx).1)
        (Runs-bind (obtain-SumTriples env0 env1 env0.method env1.method n supply)
          λ ss ts h. Runs-exchange _ _ (Runs-ret _ _ (product_shares-ProductShares ss ts h sx sy)))
