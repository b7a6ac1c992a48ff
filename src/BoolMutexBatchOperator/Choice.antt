-- ===== src/BoolMutexBatchOperator/Choice.antt =====
-- The operator returns shares of the chosen entries.
use mpc_package.Base.{ℕ, ◌+◌, ◌%◌, ◌≤◌, ◌<◌, ◌≡◌, ap₂, ◌∙◌}
use mpc_package.Base.{arith, Option, List, ◌++◌, map, length, length-map, length-append, get_or}
use mpc_package.Base.{Bool, false}
use mpc_package.Prog.Runs.{Runs, Runs-bind, Runs-ret}
use mpc_package.Bmt.{Bmt, Env}
use mpc_package.Shares.Xor.{XorShares}
use mpc_package.BoolAndBatchOperator.{execute_for_mutex}
use mpc_package.BoolAndBatchOperator.Entries.{get-append_left}
use mpc_package.BoolAndBatchOperator.Entry.{BatchShares, AndShares}
use mpc_package.BoolAndBatchOperator.Correct.{BatchSupply}
use mpc_package.BoolAndBatchOperator.Mutex.{mutex-AndShares}
use mpc_package.BoolMutexBatchOperator.{spread_conds, choose_from, execute, execute_bidirectionally}
use mpc_package.BoolMutexBatchOperator.Correct.{
  FlagShares, FlagShares-BatchShares, FlagShares-length,
}
use mpc_package.BoolMutexBatchOperator.Correct.{spread, choose_from-length}
use mpc_package.BoolMutexBatchOperator.Entries.{choose, get-twice, chosen-entry, other-entry}

-- Shares of the entries of `xs` where the flag is set, and of `ys` where it is not.
pub record ChosenShares (width n : ℕ) (bs : List Bool) (xs ys zs0 zs1 : List ℕ) : Type 0 where
  pub length0 : length zs0 ≡ n
  pub length1 : length zs1 ≡ n
  pub entry :
      (i : ℕ)
      → i < n
      → XorShares width
          (get_or zs0 i 0)
          (get_or zs1 i 0)
          (choose (get_or bs i false) (get_or xs i 0) (get_or ys i 0))

-- Shares of what is chosen, followed by shares of what is not.
pub record BothShares (width n : ℕ) (bs : List Bool) (xs ys zs0 zs1 : List ℕ) : Type 0 where
  pub length0 : length zs0 ≡ n + n
  pub length1 : length zs1 ≡ n + n
  pub entry :
      (i : ℕ)
      → i < n
      → XorShares width
          (get_or zs0 i 0)
          (get_or zs1 i 0)
          (choose (get_or bs i false) (get_or xs i 0) (get_or ys i 0))
  pub other :
      (i : ℕ)
      → i < n
      → XorShares width
          (get_or zs0 (n + i) 0)
          (get_or zs1 (n + i) 0)
          (choose (get_or bs i false) (get_or ys i 0) (get_or xs i 0))

module _ {width n : ℕ} (pos : 0 < width) (le : width ≤ 64) (divides : 64 % width ≡ 0)
    (env0 env1 : Env) (p0 p1 : List Bmt) (g0 g1 : Option (List Bmt))
    {xs0 xs1 xs ys0 ys1 ys cs0 cs1 : List ℕ} {bs : List Bool} (e : length xs ≡ n)
    (supply : BatchSupply width (n + n) env0 env1 env0.method env1.method p0 p1 g0 g1)
    (sx : BatchShares width n xs0 xs1 xs) (sy : BatchShares width n ys0 ys1 ys)
    (flags : FlagShares n cs0 cs1 bs) where
  masks :
      BatchShares width n (spread_conds width cs0) (spread_conds width cs1) (map (spread width) bs)
  masks = FlagShares-BatchShares le flags

  masked :
      Runs
        (execute_for_mutex env0 0 width p0 g0 xs0 ys0 (spread_conds width cs0))
        (execute_for_mutex env1 1 width p1 g1 xs1 ys1 (spread_conds width cs1))
        (AndShares width (n + n) (xs ++ ys) (map (spread width) bs ++ map (spread width) bs))
  masked =
      mutex-AndShares env0 env1 p0 p1 g0 g1 pos le divides e
        (length-map (spread width) bs ∙ FlagShares-length flags) supply sx sy masks

  -- On two batches of Boolean shares and shares of a flag for each pair of entries, in every width
  -- that divides 64, and if both servers take their triples from the same place and what is given
  -- or stored there are triples, enough for twice the number of entries, both servers end with
  -- shares of the first batch's entry where the flag is set and of the second's where it is not.
  pub execute-ChosenShares :
      Runs
        (execute env0 0 width p0 g0 xs0 ys0 cs0)
        (execute env1 1 width p1 g1 xs1 ys1 cs1)
        (ChosenShares width n bs xs ys)
  unfolding execute
  execute-ChosenShares =
      rw (masks.length0, masks.length1)
        (Runs-bind masked λ z0 z1 s. Runs-ret _ _ record {
          length0 = choose_from-length width z0 ys0 n 0 n;
          length1 = choose_from-length width z1 ys1 n 0 n;
          entry = chosen-entry le bs xs ys e (FlagShares-length flags) s sy;
        })

  -- On two batches of Boolean shares and shares of a flag for each pair of entries, in every width
  -- that divides 64, and if both servers take their triples from the same place and what is given
  -- or stored there are triples, enough for twice the number of entries, both servers end with
  -- shares of the entries that the flags choose, followed by shares of the entries that were not
  -- chosen.
  pub execute_bidirectionally-BothShares :
      Runs
        (execute_bidirectionally env0 0 width p0 g0 xs0 ys0 cs0)
        (execute_bidirectionally env1 1 width p1 g1 xs1 ys1 cs1)
        (BothShares width n bs xs ys)
  unfolding execute_bidirectionally
  execute_bidirectionally-BothShares =
      rw (sx.length0, sx.length1)
        (Runs-bind masked λ z0 z1 s. Runs-ret _ _ record {
          length0 = twice z0 ys0 xs0;
          length1 = twice z1 ys1 xs1;
          entry = λ i lt.
              rw (left z0 ys0 xs0 i lt, left z1 ys1 xs1 i lt)
                (chosen-entry le bs xs ys e (FlagShares-length flags) s sy i lt);
          other = λ i lt.
              rw (right z0 ys0 xs0 i, right z1 ys1 xs1 i)
                (other-entry le bs xs ys e (FlagShares-length flags) s sx i lt);
        })
    where
      twice :
          (zs us vs : List ℕ)
          → length (choose_from width zs us n 0 n ++ choose_from width zs vs n 0 n) ≡ n + n
      twice zs us vs =
          length-append (choose_from width zs us n 0 n) (choose_from width zs vs n 0 n)
          ∙ ap₂ ◌+◌ (choose_from-length width zs us n 0 n) (choose_from-length width zs vs n 0 n)

      left :
          (zs us vs : List ℕ) (i : ℕ)
          → i < n
          → get_or (choose_from width zs us n 0 n ++ choose_from width zs vs n 0 n) i 0
            ≡ get_or (choose_from width zs us n 0 n) i 0
      left zs us vs i lt =
          get-append_left (choose_from width zs us n 0 n) (choose_from width zs vs n 0 n) i
            (omega (arith, choose_from-length width zs us n 0 n))

      right :
          (zs us vs : List ℕ) (i : ℕ)
          → get_or (choose_from width zs us n 0 n ++ choose_from width zs vs n 0 n) (n + i) 0
            ≡ get_or (choose_from width zs vs n 0 n) i 0
      right zs us vs i =
          get-twice (choose_from width zs us n 0 n) (choose_from width zs vs n 0 n) i
            (choose_from-length width zs us n 0 n)
