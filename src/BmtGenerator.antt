-- ===== src/BmtGenerator.antt =====
-- `BmtGenerator` (primitives/src/intermediate/BmtGenerator.cpp): arithmetic triples, by Gilboa's
-- product from one oblivious transfer for each bit.
pub mod Digits
pub mod Mix
pub mod Correct
use mpc_package.Base.{ℕ, zero, suc, ◌+◌, ◌==◌, List, [], ◌∷◌, if◌then◌else◌, bit_and}
use mpc_package.Word.{add, sub, mul, shl, sar}
use mpc_package.Math.{ring, rand_int}
use mpc_package.Prog.{Prog, ret, draw, ot_send, ot_receive, words, ◌>>=◌}
use mpc_package.Bmt.{Bmt}

-- `corr`
unfoldable pub corr : ℕ → ℕ → ℕ → ℕ → ℕ
corr width a i x = ring (sub (shl a i) x) width

-- The sender's loop: what it draws, and what `corr` makes of it.
unfoldable pub draw_pairs : ℕ → ℕ → ℕ → ℕ → Prog (List ℕ × List ℕ)
draw_pairs width a i zero = ret ([], [])
draw_pairs width a i (suc left) = draw λ r. do
  pairs ← draw_pairs width a (i + 1) left
  ret (rand_int r ∷ pairs.0, corr width a i (rand_int r) ∷ pairs.1)

-- The receiver's choices.
unfoldable pub choices : ℕ → ℕ → ℕ → List ℕ
choices b i zero = []
choices b i (suc left) = bit_and (sar b i) 1 ∷ choices b (i + 1) left

-- `sum += ss0[i]`
unfoldable pub sum_words : ℕ → List ℕ → ℕ
sum_words sum [] = sum
sum_words sum (x ∷ xs) = sum_words (add sum x) xs

-- `sum += temp`, where `temp` is the result, turned if the choice was 0.
unfoldable pub sum_chosen : ℕ → List ℕ → List ℕ → ℕ
sum_chosen sum (c ∷ cs) (r ∷ rs) = sum_chosen (add sum (if c == 0 then sub 0 r else r)) cs rs
sum_chosen sum _ _ = sum

-- `computeMix`
unfoldable pub compute_mix : ℕ → ℕ → Bmt → ℕ → Prog ℕ
unfolding draw_pairs choices sum_words sum_chosen
compute_mix rank width bmt sender =
    if rank == sender
    then (do
      pairs ← draw_pairs width bmt.a 0 width
      ot_send (words width) pairs.0 pairs.1 (ret (ring (sum_words 0 pairs.0) width)))
    else (ot_receive (words width) (choices bmt.b 0 width)
        λ results. ret (ring (sum_chosen 0 (choices bmt.b 0 width) results) width))

-- `execute`: `generateRandomAB`, both mixes, `computeC`.
unfoldable pub execute : ℕ → ℕ → Prog Bmt
execute rank width = draw λ r. draw λ s.
    let a = ring (rand_int r) width in
    let b = ring (rand_int s) width in
    let bmt : Bmt = record { a = a; b = b; c = 0 } in
    do
      ui ← compute_mix rank width bmt 0
      vi ← compute_mix rank width bmt 1
      ret (record { a = a; b = b; c = ring (add (add (mul a b) ui) vi) width })
