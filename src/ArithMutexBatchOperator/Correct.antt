-- ===== src/ArithMutexBatchOperator/Correct.antt =====
-- The operator returns shares of the chosen entries.
use mpc_package.Base.{ℕ, zero, suc, ◌+◌, ◌%◌, ◌^◌, ◌≤◌, ◌≡◌, arith}
use mpc_package.Base.{
  List, [], ◌∷◌, Bool, true, false, ltb, bit, xor, to_int, if◌then◌else◌, Bool-cases,
}
use mpc_package.Base.{inl, inr}
use mpc_package.Word.{add}
use mpc_package.Word.Cong.{Cong}
use mpc_package.Math.Ring.{ring-IsWord}
use mpc_package.Shares.Sum.{sub-IsWord}
use mpc_package.Shares.Xor.{XorShares}
use mpc_package.Prog.Runs.{Runs, Runs-bind, Runs-ret, Runs-weaken}
use mpc_package.Bmt.{Env}
use mpc_package.ArithMultiplyBatchOperator.Correct.{BatchShares, no_share, share, BatchSupply}
use mpc_package.ArithMultiplyBatchOperator.Correct.{ProductShares, multiply_batch-ProductShares}
use mpc_package.ArithMutexOperator.Correct.{choose}
use mpc_package.BoolToArithBatchOperator.Correct.{AllXorShares, no_bits, bits}
use mpc_package.BoolToArithBatchOperator.Correct.{AllSumShares, no_sum, sums}
use mpc_package.BoolToArithBatchOperator.Correct.{to_arith_batch-AllSumShares}
use mpc_package.ArithMutexBatchOperator.{cond_shares, combine, execute}

-- Entry by entry, Boolean shares of flags.
pub data FlagShares (w : ℕ) : ℕ → List ℕ → List ℕ → List Bool → Type 0 where
  no_flag : FlagShares w 0 [] [] []
  flag :
      {n c0 c1 : ℕ} {cs0 cs1 : List ℕ} {b : Bool} {bs : List Bool}
      → XorShares w c0 c1 (to_int b)
      → FlagShares w n cs0 cs1 bs
      → FlagShares w (suc n) (c0 ∷ cs0) (c1 ∷ cs1) (b ∷ bs)

-- The flags as numbers.
abbrev pub values : List Bool → List ℕ
values [] = []
values (b ∷ bs) = to_int b ∷ values bs

-- What the flags choose: of `xs` where a flag is set, of `ys` where not.
abbrev pub chosen : List Bool → List ℕ → List ℕ → List ℕ
chosen (b ∷ bs) (x ∷ xs) (y ∷ ys) = (if b then x else y) ∷ chosen bs xs ys
chosen _ _ _ = []

FlagShares-AllXorShares :
    {w n : ℕ} {cs0 cs1 : List ℕ} {bs : List Bool}
    → FlagShares w n cs0 cs1 bs
    → AllXorShares w cs0 cs1 (values bs)
FlagShares-AllXorShares no_flag = no_bits
FlagShares-AllXorShares (flag h s) = bits h (FlagShares-AllXorShares s)

-- In one digit, the exclusive or is the sum.
one_digit : (w c0 c1 v : ℕ) → w ≤ 1 → XorShares w c0 c1 v → Cong w (c0 + c1) v
one_digit zero c0 c1 v le h = record { same = omega arith }
one_digit (suc zero) c0 c1 v le h = record { same = parity c0 c1 v (h.digits 0 (omega arith)) }
  where
    low : (a : ℕ) → a % 2 ≡ to_int (bit a 0)
    low a = unfold bit in ground arith

    add_bits : (a b c : Bool) → xor a b ≡ c → (to_int a + to_int b) % 2 ≡ to_int c
    add_bits true true c e = ground arith
    add_bits true false c e = ground arith
    add_bits false true c e = ground arith
    add_bits false false c e = ground arith

    parity : (a b c : ℕ) → xor (bit a 0) (bit b 0) ≡ bit c 0 → (a + b) % 2 ^ 1 ≡ c % 2 ^ 1
    parity a b c e = omega (arith, low a, low b, low c, add_bits (bit a 0) (bit b 0) (bit c 0) e)
one_digit (suc (suc w)) c0 c1 v le h = absurd (omega arith)

narrow-BatchShares :
    {w n : ℕ} {cs0 cs1 : List ℕ} {bs : List Bool}
    → w ≤ 1
    → FlagShares w n cs0 cs1 bs
    → BatchShares w n cs0 cs1 (values bs)
narrow-BatchShares le no_flag = no_share
narrow-BatchShares le (flag h s) = share (one_digit _ _ _ _ le h) (narrow-BatchShares le s)

AllSumShares-BatchShares :
    {w n : ℕ} {cs0 cs1 zs0 zs1 : List ℕ} {bs : List Bool}
    → FlagShares w n cs0 cs1 bs
    → AllSumShares w zs0 zs1 (values bs)
    → BatchShares w n zs0 zs1 (values bs)
AllSumShares-BatchShares no_flag no_sum = no_share
AllSumShares-BatchShares (flag h s) (sums k t) = share k.total (AllSumShares-BatchShares s t)

module _ {w : ℕ} (le : w ≤ 64) where
  cond_shares-BatchShares :
      {n : ℕ} {cs0 cs1 : List ℕ} {bs : List Bool} (tag : ℕ)
      → FlagShares w n cs0 cs1 bs
      → Runs
          (cond_shares 0 w tag cs0)
          (cond_shares 1 w tag cs1)
          (λ zs0 zs1. BatchShares w n zs0 zs1 (values bs))
  unfolding cond_shares
  cond_shares-BatchShares tag s = elim (Bool-cases (ltb 1 w)) [
    | inl wide ↦ rw wide (
        Runs-weaken (to_arith_batch-AllSumShares le tag _ _ _ (FlagShares-AllXorShares s))
          (λ zs0 zs1 h. AllSumShares-BatchShares s h))
    | inr narrow ↦ rw narrow (Runs-ret _ _ (narrow-BatchShares (one w narrow) s))
  ]
    where
      one : (w : ℕ) → ltb 1 w ≡ false → w ≤ 1
      one w h = ground arith

  combine-AllSumShares :
      {n : ℕ} {cs0 cs1 xs0 xs1 xs ys0 ys1 ys : List ℕ} {bs : List Bool} (ps0 ps1 qs0 qs1 : List ℕ)
      → FlagShares w n cs0 cs1 bs
      → BatchShares w n xs0 xs1 xs
      → BatchShares w n ys0 ys1 ys
      → ProductShares w ps0 ps1 (values bs) xs
      → ProductShares w qs0 qs1 (values bs) ys
      → AllSumShares w (combine w ps0 ys0 qs0) (combine w ps1 ys1 qs1) (chosen bs xs ys)
  unfolding combine
  combine-AllSumShares [] [] [] [] no_flag no_share no_share p q = no_sum
  combine-AllSumShares (p0 ∷ ps0) (p1 ∷ ps1) (q0 ∷ qs0) (q1 ∷ qs1) (flag {b = b} c s) (share d sx)
        (share {x0 = y0} {x1 = y1} {x = y} e sy) p q =
      sums
        (record {
          word0 = ring-IsWord _ w (sub-IsWord (add p0 y0) q0) le;
          word1 = ring-IsWord _ w (sub-IsWord (add p1 y1) q1) le;
          total = choose le b _ y p0 p1 q0 q1 y0 y1 p.0.total q.0.total e;
        })
        (combine-AllSumShares ps0 ps1 qs0 qs1 s sx sy p.1 q.1)
  combine-AllSumShares (_ ∷ _) [] qs0 qs1 no_flag no_share no_share p q = absurd p
  combine-AllSumShares (_ ∷ _) (_ ∷ _) qs0 qs1 no_flag no_share no_share p q = absurd p
  combine-AllSumShares [] (_ ∷ _) qs0 qs1 no_flag no_share no_share p q = absurd p
  combine-AllSumShares [] [] (_ ∷ _) [] no_flag no_share no_share p q = absurd q
  combine-AllSumShares [] [] (_ ∷ _) (_ ∷ _) no_flag no_share no_share p q = absurd q
  combine-AllSumShares [] [] [] (_ ∷ _) no_flag no_share no_share p q = absurd q
  combine-AllSumShares [] [] qs0 qs1 (flag c s) (share d sx) (share e sy) p q = absurd p
  combine-AllSumShares [] (_ ∷ _) qs0 qs1 (flag c s) (share d sx) (share e sy) p q = absurd p
  combine-AllSumShares (_ ∷ _) [] qs0 qs1 (flag c s) (share d sx) (share e sy) p q = absurd p
  combine-AllSumShares (_ ∷ _) (_ ∷ _) [] [] (flag c s) (share d sx) (share e sy) p q = absurd q
  combine-AllSumShares (_ ∷ _) (_ ∷ _) [] (_ ∷ _) (flag c s) (share d sx) (share e sy) p q =
      absurd q
  combine-AllSumShares (_ ∷ _) (_ ∷ _) (_ ∷ _) [] (flag c s) (share d sx) (share e sy) p q =
      absurd q

  -- On two batches of arithmetic shares and Boolean shares of a flag for each pair of entries, in
  -- every width up to 64, and if both servers generate their triples or both use fixed ones that
  -- are a triple, both servers end, and what they return are, entry by entry, arithmetic shares of
  -- the first batch's entry where the flag is set and of the second's where it is not.
  pub mux_batch-AllSumShares :
      (env0 env1 : Env) (tag n : ℕ) (xs0 xs1 ys0 ys1 cs0 cs1 xs ys : List ℕ) (bs : List Bool)
      → BatchSupply w env0 env1 env0.method env1.method
      → BatchShares w n xs0 xs1 xs
      → BatchShares w n ys0 ys1 ys
      → FlagShares w n cs0 cs1 bs
      → Runs
          (execute env0 0 w tag xs0 ys0 cs0)
          (execute env1 1 w tag xs1 ys1 cs1)
          (λ zs0 zs1. AllSumShares w zs0 zs1 (chosen bs xs ys))
  unfolding execute
  mux_batch-AllSumShares env0 env1 tag n xs0 xs1 ys0 ys1 cs0 cs1 xs ys bs supply sx sy sc =
      Runs-bind (cond_shares-BatchShares tag sc) λ ds0 ds1 d.
        Runs-bind
          (multiply_batch-ProductShares le env0 env1 n ds0 ds1 xs0 xs1 (values bs) xs supply d sx)
          λ ps0 ps1 p.
            Runs-bind
              (multiply_batch-ProductShares le env0 env1 n ds0 ds1 ys0 ys1 (values bs) ys supply d
                sy)
              λ qs0 qs1 q. Runs-ret _ _ (combine-AllSumShares ps0 ps1 qs0 qs1 sc sx sy p q)
