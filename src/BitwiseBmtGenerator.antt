-- ===== src/BitwiseBmtGenerator.antt =====
-- `BitwiseBmtGenerator` (primitives/src/intermediate/BitwiseBmtGenerator.cpp): each server draws its
-- shares of `a` and `b`, and two rounds of oblivious transfer make the shares of `c`.
pub mod Correct
pub mod Pack
pub mod Mix
use mpc_package.Base.{ℕ, zero, suc, ◌+◌, ◌==◌, List, [], ◌∷◌, to_int, if◌then◌else◌}
use mpc_package.Base.{bit_and, bit_xor}
use mpc_package.Word.{add, sub, shl}
use mpc_package.Math.{ring, get_bit, rand_int, rand_int_in}
use mpc_package.Prog.{Prog, ret, draw, ot_send, ot_receive, words, ◌>>=◌, ◌>>◌}
use mpc_package.Bmt.{Bmt}

-- `corr`
unfoldable pub corr : ℕ → ℕ → ℕ → ℕ
corr a i x = bit_and (sub (to_int (get_bit a i)) x) 1

-- The sender's loop: the bits that it draws, and what `corr` makes of them.
unfoldable pub draw_pairs : ℕ → ℕ → ℕ → Prog (List ℕ × List ℕ)
draw_pairs a i zero = ret ([], [])
draw_pairs a i (suc left) = draw λ r.
    let bit = rand_int_in 0 1 r in
    do pairs ← draw_pairs a (i + 1) left; ret (bit ∷ pairs.0, corr a i bit ∷ pairs.1)

-- The receiver's choices.
unfoldable pub choices : ℕ → ℕ → ℕ → List ℕ
choices b i zero = []
choices b i (suc left) = to_int (get_bit b i) ∷ choices b (i + 1) left

-- `sum += xs[i] << i`
unfoldable pub sum_shifted : ℕ → ℕ → List ℕ → ℕ
sum_shifted sum i [] = sum
sum_shifted sum i (x ∷ xs) = sum_shifted (add sum (shl x i)) (i + 1) xs

-- `computeMix`; the number that it draws for `s` is not used.
unfoldable pub compute_mix : ℕ → ℕ → Bmt → ℕ → Prog ℕ
unfolding draw_pairs choices sum_shifted
compute_mix rank width bmt sender =
    if rank == sender
    then (do
      pairs ← draw_pairs bmt.a 0 width
      draw λ s. ot_send (words 1) pairs.0 pairs.1 (ret (ring (sum_shifted 0 0 pairs.0) width)))
    else (draw λ s.
        ot_receive (words 1) (choices bmt.b 0 width)
          λ results. ret (ring (sum_shifted 0 0 results) width))

-- `execute`: `generateRandomAB`, both mixes, `computeC`.
unfoldable pub execute : ℕ → ℕ → Prog Bmt
execute rank width = draw λ r. draw λ s.
    let a = ring (rand_int r) width in
    let b = ring (rand_int s) width in
    let bmt : Bmt = record { a = a; b = b; c = 0 } in
    do
      ui ← compute_mix rank width bmt 0
      vi ← compute_mix rank width bmt 1
      ret (record { a = a; b = b; c = ring (bit_xor (bit_xor (bit_and a b) ui) vi) width })
