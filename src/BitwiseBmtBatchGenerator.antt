-- ===== src/BitwiseBmtBatchGenerator.antt =====
-- `BitwiseBmtBatchGenerator` (primitives/src/intermediate/BitwiseBmtBatchGenerator.cpp): Boolean
-- triples packed 64 to a word, from oblivious transfers of packed bits.
pub mod Correct
use mpc_package.Base.{
  ℕ, zero, suc, ◌+◌, ◌*◌, ◌/◌, ◌==◌, List, [], ◌∷◌, if◌then◌else◌, bit_and, bit_xor,
}
use mpc_package.Math.{rand_int}
use mpc_package.Prog.{Prog, ret, draw, ot_send, ot_receive, packed, ◌>>=◌}
use mpc_package.Bmt.{Bmt}

-- `_bc`: the words that hold `count` triples of `width` bits.
unfoldable pub word_count : ℕ → ℕ → ℕ
word_count count width = let total_bits = count * width in (total_bits + 63) / 64

-- `generateRandomAB`
unfoldable pub generate_random_ab : ℕ → Prog (List Bmt)
generate_random_ab zero = ret []
generate_random_ab (suc left) = draw λ r. draw λ s. do
  bmts ← generate_random_ab left
  ret (record { a = rand_int r; b = rand_int s; c = 0 } ∷ bmts)

-- `corr`
unfoldable pub corr : Bmt → ℕ → ℕ
corr bmt x = bit_xor bmt.a x

-- The sender's loop: `ss0` and `ss1`.
unfoldable pub draw_masks : List Bmt → Prog (List ℕ × List ℕ)
draw_masks [] = ret ([], [])
draw_masks (bmt ∷ bmts) =
    draw
      λ r. do masks ← draw_masks bmts; ret (rand_int r ∷ masks.0, corr bmt (rand_int r) ∷ masks.1)

-- The receiver's `choices`.
unfoldable pub choices : List Bmt → List ℕ
choices [] = []
choices (bmt ∷ bmts) = bmt.b ∷ choices bmts

-- `computeMix`
unfoldable pub compute_mix : ℕ → List Bmt → ℕ → Prog (List ℕ)
compute_mix rank bmts sender =
    if rank == sender
    then (do masks ← draw_masks bmts; ot_send packed masks.0 masks.1 (ret masks.0))
    else (ot_receive packed (choices bmts) λ results. ret results)

-- `computeC`
unfoldable pub compute_c : List Bmt → List ℕ → List ℕ → List Bmt
compute_c (bmt ∷ bmts) (u ∷ usi) (v ∷ vsi) =
    record { a = bmt.a; b = bmt.b; c = bit_xor (bit_xor (bit_and bmt.a bmt.b) u) v }
    ∷ compute_c bmts usi vsi
compute_c _ _ _ = []

-- The constructor and `execute`.
unfoldable pub execute : ℕ → ℕ → ℕ → Prog (List Bmt)
execute rank count width = do
  bmts ← generate_random_ab (word_count count width)
  usi ← compute_mix rank bmts 0
  vsi ← compute_mix rank bmts 1
  ret (compute_c bmts usi vsi)
