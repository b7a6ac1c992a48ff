-- ===== src/Linear/Correct.antt =====
-- Shares are added and combined by exclusive or one server at a time.
use mpc_package.Base.{ℕ, ◌+◌, ◌≤◌, ◌≡◌, refl, ◌∙◌, arith, List, [], ◌∷◌, length}
use mpc_package.Base.{Bool, xor, bit, bit_xor, bit-bit_xor, bit_xor-lt}
use mpc_package.Word.{add}
use mpc_package.Word.Cong.{Cong, Cong-add, Cong-of_eq, ◌∙c◌, add-Cong}
use mpc_package.Math.{ring}
use mpc_package.Math.Ring.{ring-Cong, ring-IsWord}
use mpc_package.Shares.{reconstruct_arith_batch}
use mpc_package.Shares.Xor.{XorShares}
use mpc_package.Shares.Sum.{SumShares, add-IsWord}
use mpc_package.Linear.{xor_shares, add_shares, add_shares_batch}

-- On Boolean shares of `x` and `y`, what the servers compute without a message are Boolean shares
-- of `x ^ y`.
pub xor_shares-XorShares :
    {width x0 x1 y0 y1 x y : ℕ}
    → XorShares width x0 x1 x
    → XorShares width y0 y1 y
    → XorShares width (xor_shares x0 y0) (xor_shares x1 y1) (bit_xor x y)
unfolding xor_shares
xor_shares-XorShares {x0 = x0} {x1} {y0} {y1} {x} {y} sx sy = record {
  word0 = bit_xor-lt 64 x0 y0 sx.word0 sy.word0;
  word1 = bit_xor-lt 64 x1 y1 sx.word1 sy.word1;
  digits = λ i lt.
      rw (bit-bit_xor i x0 y0, bit-bit_xor i x1 y1, bit-bit_xor i x y)
        (cross (bit x0 i) (bit x1 i) (bit y0 i) (bit y1 i)
          ∙ rw (sx.digits i lt, sy.digits i lt) refl);
}
  where
    cross : (x0 x1 y0 y1 : Bool) → xor (xor x0 y0) (xor x1 y1) ≡ xor (xor x0 x1) (xor y0 y1)
    cross x0 x1 y0 y1 = ground arith

-- On arithmetic shares of `x` and `y`, in every width up to 64, what the servers compute without a
-- message are arithmetic shares of `x + y`.
pub add_shares-SumShares :
    {width : ℕ} (x0 x1 y0 y1 x y : ℕ)
    → width ≤ 64
    → Cong width (x0 + x1) x
    → Cong width (y0 + y1) y
    → SumShares width (add_shares width x0 y0) (add_shares width x1 y1) (x + y)
unfolding add_shares
add_shares-SumShares {width} x0 x1 y0 y1 x y le sx sy = record {
  word0 = ring-IsWord _ width (add-IsWord x0 y0) le;
  word1 = ring-IsWord _ width (add-IsWord x1 y1) le;
  total = Cong-add (cut x0 y0) (cut x1 y1) ∙c Cong-of_eq (regroup x0 x1 y0 y1) ∙c Cong-add sx sy;
}
  where
    cut : (a b : ℕ) → Cong width (ring (add a b) width) (a + b)
    cut a b = ring-Cong _ width (add-IsWord a b) le ∙c add-Cong le a b

    regroup : (x0 x1 y0 y1 : ℕ) → x0 + y0 + (x1 + y1) ≡ x0 + x1 + (y0 + y1)
    regroup x0 x1 y0 y1 = omega arith

-- A client that reconstructs the servers' sums of two batches of the same length gets the sums,
-- modulo 2 ^ 64, of what it reconstructs from either.
pub reconstruct_arith_batch-add_shares_batch :
    (xs0 xs1 ys0 ys1 : List ℕ)
    → length xs1 ≡ length xs0
    → length ys0 ≡ length xs0
    → length ys1 ≡ length xs0
    → reconstruct_arith_batch (add_shares_batch xs0 ys0) (add_shares_batch xs1 ys1)
      ≡ add_shares_batch (reconstruct_arith_batch xs0 xs1) (reconstruct_arith_batch ys0 ys1)
unfolding reconstruct_arith_batch add_shares_batch
reconstruct_arith_batch-add_shares_batch [] [] [] [] e f g = refl
reconstruct_arith_batch-add_shares_batch [] (_ ∷ _) ys0 ys1 e f g = absurd (omega arith)
reconstruct_arith_batch-add_shares_batch [] [] (_ ∷ _) ys1 e f g = absurd (omega arith)
reconstruct_arith_batch-add_shares_batch [] [] [] (_ ∷ _) e f g = absurd (omega arith)
reconstruct_arith_batch-add_shares_batch (_ ∷ _) [] ys0 ys1 e f g = absurd (omega arith)
reconstruct_arith_batch-add_shares_batch (_ ∷ _) (_ ∷ _) [] ys1 e f g = absurd (omega arith)
reconstruct_arith_batch-add_shares_batch (_ ∷ _) (_ ∷ _) (_ ∷ _) [] e f g = absurd (omega arith)
reconstruct_arith_batch-add_shares_batch (a ∷ xs0) (b ∷ xs1) (c ∷ ys0) (d ∷ ys1) e f g = λ i.
    crossed a b c d i
    ∷ reconstruct_arith_batch-add_shares_batch xs0 xs1 ys0 ys1 (omega arith) (omega arith)
        (omega arith) i
  where
    crossed : (a b c d : ℕ) → add (add a c) (add b d) ≡ add (add a b) (add c d)
    crossed a b c d = unfold add in omega arith
