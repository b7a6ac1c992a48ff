-- ===== src/BoolMutexOperator/Correct.antt =====
-- The operator returns shares of the chosen operand.
use mpc_package.Base.{ℕ, zero, suc, ◌%◌, ◌≤◌, ◌<◌, ◌≡◌, refl, ap, ap₂, ◌∙◌}
use mpc_package.Base.{arith, Option, List, [], ◌∷◌, get_or}
use mpc_package.Base.{Bool, true, false, ◌&&◌, xor}
use mpc_package.Base.{bit, bit_and, bit-bit_and}
use mpc_package.Prog.Runs.{Runs, Runs-bind, Runs-ret}
use mpc_package.Bmt.{Bmt, Env}
use mpc_package.Shares.Xor.{XorShares}
use mpc_package.BoolAndBatchOperator.Entry.{BatchShares}
use mpc_package.BoolAndBatchOperator.Correct.{BatchSupply, and_batch-AndShares}
use mpc_package.BoolMutexOperator.{cond_mask, execute}
use mpc_package.BoolMutexBatchOperator.Correct.{spread, spread-XorShares, bit-spread, chosen}
use mpc_package.BoolMutexBatchOperator.Entries.{choose}

cond_mask_lem : (width : ℕ) (b : Bool) → cond_mask width b ≡ spread width b
unfolding cond_mask
cond_mask_lem width true = refl
cond_mask_lem width false = refl

two-BatchShares :
    {width x0 x1 x y0 y1 y : ℕ}
    → XorShares width x0 x1 x
    → XorShares width y0 y1 y
    → BatchShares width 2 (x0 ∷ y0 ∷ []) (x1 ∷ y1 ∷ []) (x ∷ y ∷ [])
two-BatchShares {width} {x0} {x1} {x} {y0} {y1} {y} sx sy = record {
  length0 = refl;
  length1 = refl;
  entry = entry;
}
  where
    entry :
        (i : ℕ)
        → i < 2
        → XorShares width
            (get_or (x0 ∷ y0 ∷ []) i 0)
            (get_or (x1 ∷ y1 ∷ []) i 0)
            (get_or (x ∷ y ∷ []) i 0)
    entry zero lt = sx
    entry (suc zero) lt = sy
    entry (suc (suc i)) lt = absurd (omega arith)

-- A digit of what is left of the two conjunctions.
bit-choose :
    (width : ℕ) (b : Bool) (x y j : ℕ)
    → width ≤ 64
    → j < width
    → xor (xor (bit (bit_and (spread width b) x) j) (bit y j)) (bit (bit_and (spread width b) y) j)
      ≡ bit (choose b x y) j
bit-choose width b x y j le lt =
    ap₂ (λ p q. xor (xor p (bit y j)) q) (masked x) (masked y) ∙ digit b
  where
    masked : (z : ℕ) → bit (bit_and (spread width b) z) j ≡ (b && bit z j)
    masked z =
        bit-bit_and j (spread width b) z ∙ ap (λ t. t && bit z j) (bit-spread width b j le lt)

    pair : (p q : Bool) → xor (xor p q) q ≡ p
    pair p q = ground arith

    none_set : (q : Bool) → xor (xor false q) false ≡ q
    none_set q = ground arith

    digit : (b : Bool) → xor (xor (b && bit x j) (bit y j)) (b && bit y j) ≡ bit (choose b x y) j
    digit true = pair (bit x j) (bit y j)
    digit false = none_set (bit y j)

-- On Boolean shares of `x` and `y` and shares of a flag, in every width that divides 64, and if
-- both servers take their triples from the same place and what is given or stored there are
-- triples, enough for two conjunctions, both servers end with shares of `x` if the flag is set and
-- of `y` if it is not.
pub choose-XorShares :
    {width : ℕ} (env0 env1 : Env) (p0 p1 : List Bmt) (g0 g1 : Option (List Bmt))
    {x0 x1 x y0 y1 y : ℕ} (c0 c1 : Bool)
    → 0 < width
    → width ≤ 64
    → 64 % width ≡ 0
    → BatchSupply width 2 env0 env1 env0.method env1.method p0 p1 g0 g1
    → XorShares width x0 x1 x
    → XorShares width y0 y1 y
    → Runs
        (execute env0 0 width p0 g0 x0 y0 c0)
        (execute env1 1 width p1 g1 x1 y1 c1)
        (λ z0 z1. XorShares width z0 z1 (choose (xor c0 c1) x y))
unfolding execute
choose-XorShares {width} env0 env1 p0 p1 g0 g1 {x = x} {y = y} c0 c1 pos le divides supply sx sy =
    rw (cond_mask_lem width c0, cond_mask_lem width c1)
      (Runs-bind
        (and_batch-AndShares pos le divides env0 env1 p0 p1 g0 g1 supply (two-BatchShares mask mask)
          (two-BatchShares sx sy))
        λ z0 z1 s. Runs-ret _ _ (
          chosen le (choose (xor c0 c1) x y) (λ j lt. bit-choose width (xor c0 c1) x y j le lt)
            (s.entry 0 (omega arith)) sy (s.entry 1 (omega arith))))
  where
    mask : XorShares width (spread width c0) (spread width c1) (spread width (xor c0 c1))
    mask = spread-XorShares width c0 c1 le
