-- ===== src/BoolToArithBatchOperator/Correct.antt =====
-- The operator returns arithmetic shares of what the Boolean shares stand for, entry by entry.
use native.Mathlib.Nat.{mod-lt, one-le-pow}
use mpc_package.Base.{ℕ, ◌+◌, ◌%◌, ◌^◌, ◌≤◌, ◌<◌, ◌≡◌, sym, ap, ◌∙◌, arith}
use mpc_package.Base.{List, [], ◌∷◌, ◌++◌, length, ◌&&◌, bit, xor, bit-mod, ltb-lt}
use mpc_package.Base.{inl, inr}
use mpc_package.Word.Cong.{Cong-refl, Cong-of_eq, ◌∙c◌, Cong-add, Cong-mod}
use mpc_package.Shares.Sum.{SumShares}
use mpc_package.Shares.Xor.{XorShares, XorShares-symm}
use mpc_package.Prog.{words, ot_results}
use mpc_package.Prog.Runs.{Runs, Runs-ret, Runs-ot_send, Runs-ot_receive}
use mpc_package.BmtGenerator.{choices}
use mpc_package.BmtGenerator.Digits.{place_sum_lem}
use mpc_package.BoolToArithOperator.Correct.{AreOffers, all_transfers, sender_cases}
use mpc_package.BoolToArithBatchOperator.{choices_all, sum_ring, sum_groups, execute}
use mpc_package.BoolToArithBatchOperator.Groups.{AllOffers, no_entry, entry, draw_all-Runs}
use mpc_package.BoolToArithBatchOperator.Groups.{draw_all-Runs_right, AreOffers-length}
use mpc_package.BoolToArithBatchOperator.Groups.{length-choices, length-ot_results}
use mpc_package.BoolToArithBatchOperator.Groups.{ot_results-append, sum_ring-Cong, drop-group}

-- Entry by entry, Boolean shares.
pub data AllXorShares (w : ℕ) : List ℕ → List ℕ → List ℕ → Type 0 where
  no_bits : AllXorShares w [] [] []
  bits :
      {x0 x1 v : ℕ} {xs0 xs1 vs : List ℕ}
      → XorShares w x0 x1 v
      → AllXorShares w xs0 xs1 vs
      → AllXorShares w (x0 ∷ xs0) (x1 ∷ xs1) (v ∷ vs)

-- Entry by entry, arithmetic shares.
pub data AllSumShares (w : ℕ) : List ℕ → List ℕ → List ℕ → Type 0 where
  no_sum : AllSumShares w [] [] []
  sums :
      {z0 z1 v : ℕ} {zs0 zs1 vs : List ℕ}
      → SumShares w z0 z1 v
      → AllSumShares w zs0 zs1 vs
      → AllSumShares w (z0 ∷ zs0) (z1 ∷ zs1) (v ∷ vs)

AllXorShares-symm :
    {w : ℕ} {xs0 xs1 vs : List ℕ} → AllXorShares w xs0 xs1 vs → AllXorShares w xs1 xs0 vs
AllXorShares-symm no_bits = no_bits
AllXorShares-symm (bits h s) = bits (XorShares-symm h) (AllXorShares-symm s)

AllSumShares-symm :
    {w : ℕ} {zs0 zs1 vs : List ℕ} → AllSumShares w zs0 zs1 vs → AllSumShares w zs1 zs0 vs
AllSumShares-symm no_sum = no_sum
AllSumShares-symm (sums {z0} {z1} h s) =
    sums (record { word0 = h.word1; word1 = h.word0; total = Cong-of_eq (comm z1 z0) ∙c h.total })
      (AllSumShares-symm s)
  where
    comm : (m n : ℕ) → m + n ≡ n + m
    comm m n = omega arith

module _ {w : ℕ} (le : w ≤ 64) where
  -- The transfers of one entry, summed up on either side.
  one_entry :
      (x y v : ℕ) (r s t rs us : List ℕ)
      → XorShares w x y v
      → AreOffers x 0 w r s t
      → SumShares w
          (sum_ring w w 0 (r ++ rs))
          (sum_ring w w 0 (ot_results (words w) s t (choices y 0 w) ++ us))
          v
  one_entry x y v r s t rs us h o =
      let sizes = AreOffers-length x 0 w r s t o in
      let got =
        length-ot_results (words w) s t (choices y 0 w) (sizes.2 ∙ sym sizes.1)
          (length-choices y 0 w ∙ sym sizes.1) in
      let mine = sum_ring-Cong le w 0 0 r rs sizes.0 (omega arith) Cong-refl in
      let theirs = sum_ring-Cong le w 0 0 _ us (got ∙ sizes.1) (omega arith) Cong-refl in
      record {
        word0 = mine.0;
        word1 = theirs.0;
        total =
            Cong-add mine.1 theirs.1
            ∙c all_transfers le x y (v % 2 ^ w) h.word0 h.word1 w 0 0 0 r s t (omega arith)
                (λ j p q. same j (omega arith)) o
            ∙c Cong-of_eq
                (ap (λ p. 0 + 0 + p) (place_sum_lem w (v % 2 ^ w) small) ∙ start (v % 2 ^ w))
            ∙c Cong-mod v;
      }
    where
      small : v % 2 ^ w < 2 ^ w
      small = mod-lt v (one-le-pow w 2 (omega arith))

      start : (p : ℕ) → 0 + 0 + p ≡ p
      start p = omega arith

      same : (j : ℕ) → j < w → xor (bit x j) (bit y j) ≡ bit (v % 2 ^ w) j
      same j lt = h.digits j lt ∙ sym (bit-mod w j v ∙ ap (λ t. t && bit v j) (ltb-lt j w lt))

  all_entries :
      {xs ys vs rs ss ts : List ℕ}
      → AllXorShares w xs ys vs
      → AllOffers w xs rs ss ts
      → AllSumShares w
          (sum_groups w (length xs) rs)
          (sum_groups w (length ys) (ot_results (words w) ss ts (choices_all w ys)))
          vs
  unfolding sum_groups choices_all
  all_entries no_bits no_entry = no_sum
  all_entries {xs = x ∷ xs} {ys = y ∷ ys} {vs = v ∷ vs} (bits h k)
        (entry {rs = rs} {ss = ss} {ts = ts} r s t o os) =
      let sizes = AreOffers-length x 0 w r s t o in
      let turned = length-choices y 0 w ∙ sym sizes.1 in
      let first = sizes.2 ∙ sym sizes.1 in
      rw
        (
          ot_results-append (words w) s t (choices y 0 w) ss ts (choices_all w ys) first turned,
          drop-group w r rs sizes.0,
          drop-group w (ot_results (words w) s t (choices y 0 w))
              (ot_results (words w) ss ts (choices_all w ys))
              (length-ot_results (words w) s t (choices y 0 w) first turned ∙ sizes.1),
        )
        (sums (one_entry x y v r s t rs _ h o) (all_entries k os))

  -- On a batch of Boolean shares, in every width up to 64, whichever server the tag makes the
  -- sender and whatever it draws, both servers end, and what they return are, entry by entry,
  -- arithmetic shares of the same values.
  pub to_arith_batch-AllSumShares :
      (tag : ℕ) (xs0 xs1 vs : List ℕ)
      → AllXorShares w xs0 xs1 vs
      → Runs (execute 0 w tag xs0) (execute 1 w tag xs1) (λ zs0 zs1. AllSumShares w zs0 zs1 vs)
  unfolding execute
  to_arith_batch-AllSumShares tag xs0 xs1 vs s = elim (sender_cases le tag) [
    | inl first ↦ rw first (
        draw_all-Runs w xs0 _ λ o h.
          Runs-ot_send (words w) (words w) o.ss0 o.ss1 (choices_all w xs1)
            (Runs-ret _ _ (all_entries s h)))
    | inr second ↦ rw second (
        draw_all-Runs_right w xs1 _ λ o h.
          Runs-ot_receive (words w) (words w) o.ss0 o.ss1 (choices_all w xs0)
            (Runs-ret _ _ (AllSumShares-symm (all_entries (AllXorShares-symm s) h))))
  ]
