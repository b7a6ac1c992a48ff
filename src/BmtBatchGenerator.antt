-- ===== src/BmtBatchGenerator.antt =====
-- `BmtBatchGenerator` (primitives/src/intermediate/BmtBatchGenerator.cpp): a batch of arithmetic
-- triples, with the transfers of all of them in one oblivious transfer for each direction.
pub mod Mix
pub mod Correct
use mpc_package.Base.{
  ℕ, zero, suc, ◌==◌, List, [], ◌∷◌, ◌++◌, length, take, drop, map, if◌then◌else◌,
}
use mpc_package.Word.{add, mul}
use mpc_package.Math.{ring, rand_int}
use mpc_package.Prog.{Prog, ret, draw, ot_send, ot_receive, words, ◌>>=◌}
use mpc_package.Bmt.{Bmt}
use mpc_package.BmtGenerator

-- `generateRandomAB`
unfoldable pub generate_random_ab : ℕ → ℕ → Prog (List Bmt)
generate_random_ab width zero = ret []
generate_random_ab width (suc left) = draw λ r. draw λ s. do
  bmts ← generate_random_ab width left
  ret (record { a = ring (rand_int r) width; b = ring (rand_int s) width; c = 0 } ∷ bmts)

-- The sender's loops: a row of pairs for each triple.
unfoldable pub draw_rows : ℕ → List Bmt → Prog (List ℕ × List ℕ)
draw_rows width [] = ret ([], [])
draw_rows width (bmt ∷ bmts) = do
  row ← BmtGenerator.draw_pairs width bmt.a 0 width
  rows ← draw_rows width bmts
  ret (row.0 ++ rows.0, row.1 ++ rows.1)

-- The receiver's loops.
unfoldable pub choice_rows : ℕ → List Bmt → List ℕ
choice_rows width [] = []
choice_rows width (bmt ∷ bmts) = BmtGenerator.choices bmt.b 0 width ++ choice_rows width bmts

-- The sender's `sums`, cut to the width: entry `i` is the sum of `ss0` from `i * _width` on.
unfoldable pub sum_rows : ℕ → ℕ → List ℕ → List ℕ
sum_rows width zero ss0 = []
sum_rows width (suc left) ss0 =
    ring (BmtGenerator.sum_words 0 (take width ss0)) width ∷ sum_rows width left (drop width ss0)

-- The receiver's.
unfoldable pub sum_chosen_rows : ℕ → ℕ → List ℕ → List ℕ → List ℕ
sum_chosen_rows width zero choices results = []
sum_chosen_rows width (suc left) choices results =
    ring (BmtGenerator.sum_chosen 0 (take width choices) (take width results)) width
    ∷ sum_chosen_rows width left (drop width choices) (drop width results)

-- `computeMix`
unfoldable pub compute_mix : ℕ → ℕ → List Bmt → ℕ → Prog (List ℕ)
compute_mix rank width bmts sender =
    if rank == sender
    then (do
      pairs ← draw_rows width bmts
      ot_send (words width) pairs.0 pairs.1 (ret (sum_rows width (length bmts) pairs.0)))
    else (ot_receive (words width) (choice_rows width bmts)
        λ results. ret (sum_chosen_rows width (length bmts) (choice_rows width bmts) results))

-- `computeC`
unfoldable pub compute_c : ℕ → List Bmt → List ℕ → List ℕ → List Bmt
compute_c width (bmt ∷ bmts) (u ∷ usi) (v ∷ vsi) =
    record { a = bmt.a; b = bmt.b; c = ring (add (add (mul bmt.a bmt.b) u) v) width }
    ∷ compute_c width bmts usi vsi
compute_c width _ _ _ = []

-- `execute`
unfoldable pub execute : ℕ → ℕ → ℕ → Prog (List Bmt)
execute rank count width = do
  bmts ← generate_random_ab width count
  usi ← compute_mix rank width bmts 0
  vsi ← compute_mix rank width bmts 1
  ret (compute_c width bmts usi vsi)
