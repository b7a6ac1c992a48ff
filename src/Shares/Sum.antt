-- ===== src/Shares/Sum.antt =====
-- Arithmetic shares: two words whose sum is the secret modulo 2 ^ width.
use mpc_package.Base.{ℕ, ◌+◌, ◌%◌, ◌^◌, ◌≤◌, ◌≡◌, refl, ◌∙◌, arith}
use mpc_package.Base.{List, [], ◌∷◌, map, length}
use mpc_package.Word.{IsWord, add, sub}
use mpc_package.Word.Cong.{Cong, ◌∙c◌, sub-Cong, add-Cong}
use mpc_package.Math.{rand_int}
use mpc_package.Math.Ring.{ring_lem, rand_int-IsWord}
use mpc_package.Shares.{share_arith, reconstruct_arith, share_arith_batch, reconstruct_arith_batch}

pub record SumShares (width z0 z1 v : ℕ) : Type 0 where
  pub word0 : IsWord z0
  pub word1 : IsWord z1
  pub total : Cong width (z0 + z1) v

pub add-IsWord : (a b : ℕ) → IsWord (add a b)
unfolding add
add-IsWord a b = omega arith

pub sub-IsWord : (a b : ℕ) → IsWord (sub a b)
unfolding sub
sub-IsWord a b = omega arith

-- In every width up to 64, what the client reconstructs from arithmetic shares of `v` are the low
-- `width` bits of `v`.
pub reconstruct_arith-SumShares :
    (width z0 z1 v : ℕ)
    → width ≤ 64
    → SumShares width z0 z1 v
    → reconstruct_arith z0 z1 width ≡ v % 2 ^ width
unfolding reconstruct_arith
reconstruct_arith-SumShares width z0 z1 v le s =
    ring_lem (add z0 z1) width (add-IsWord z0 z1) le ∙ (add-Cong le z0 z1 ∙c s.total).same

pub share_arith-SumShares :
    (z width r : ℕ) → width ≤ 64 → SumShares width (share_arith z r).0 (share_arith z r).1 z
unfolding share_arith
share_arith-SumShares z width r le = record {
  word0 = sub-IsWord z (rand_int r);
  word1 = rand_int-IsWord r;
  total = sub-Cong le z (rand_int r);
}

-- Sharing a number with the single arithmetic operator and reconstructing it gives its low `width`
-- bits, whatever is drawn, in every width up to 64.
pub reconstruct_arith-share_arith :
    (z width r : ℕ)
    → width ≤ 64
    → reconstruct_arith (share_arith z r).0 (share_arith z r).1 width ≡ z % 2 ^ width
reconstruct_arith-share_arith z width r le =
    reconstruct_arith-SumShares width (share_arith z r).0 (share_arith z r).1 z le
      (share_arith-SumShares z width r le)

-- Sharing a batch with the arithmetic batch operator and reconstructing it gives each number modulo
-- 2 ^ 64, whatever the width, if there is a random number for each.
pub reconstruct_arith_batch-share_arith_batch :
    (zs rs : List ℕ)
    → length rs ≡ length zs
    → reconstruct_arith_batch (share_arith_batch zs rs).0 (share_arith_batch zs rs).1
      ≡ map (λ z. z % 2 ^ 64) zs
unfolding reconstruct_arith_batch share_arith_batch
reconstruct_arith_batch-share_arith_batch [] [] e = refl
reconstruct_arith_batch-share_arith_batch [] (r ∷ rs) e = absurd (omega arith)
reconstruct_arith_batch-share_arith_batch (z ∷ zs) [] e = absurd (omega arith)
reconstruct_arith_batch-share_arith_batch (z ∷ zs) (r ∷ rs) e =
    λ i. one z r i ∷ reconstruct_arith_batch-share_arith_batch zs rs (omega arith) i
  where
    one : (z r : ℕ) → add (sub z (rand_int r)) (rand_int r) ≡ z % 2 ^ 64
    one z r = unfold add sub in omega arith
