-- ===== src/BoolToArithBatchOperator.antt =====
-- `BoolToArithBatchOperator` (primitives/src/compute/batch/bool/BoolToArithBatchOperator.cpp): from
-- Boolean to arithmetic shares, with one batch of transfers for all bits of all entries.
pub mod Groups
pub mod Correct
use mpc_package.Base.{
  ℕ, zero, suc, ◌/◌, ◌==◌, List, [], ◌∷◌, ◌++◌, if◌then◌else◌, bit_and, length, drop,
}
use mpc_package.Word.{add}
use mpc_package.Math.{ring}
use mpc_package.Prog.{Prog, ret, ot_send, ot_receive, words, ◌>>=◌}
use mpc_package.BmtGenerator.{choices}
use mpc_package.BoolToArithOperator.{Offers, draw_offers, ot_tag_stride}

-- The sender's two loops: `rs`, `ss0` and `ss1`, `width` of them for each entry.
unfoldable pub draw_all : ℕ → List ℕ → Prog Offers
draw_all width [] = ret (record { rs = []; ss0 = []; ss1 = [] })
draw_all width (x ∷ xis) = do
  o ← draw_offers x 0 width
  p ← draw_all width xis
  ret (record { rs = o.rs ++ p.rs; ss0 = o.ss0 ++ p.ss0; ss1 = o.ss1 ++ p.ss1 })

-- The receiver's loops.
unfoldable pub choices_all : ℕ → List ℕ → List ℕ
unfolding choices
choices_all width [] = []
choices_all width (x ∷ xis) = choices x 0 width ++ choices_all width xis

-- `_zis[i] = ring(_zis[i] + rs[i * _width + j])` for the `left` next `j`.
unfoldable pub sum_ring : ℕ → ℕ → ℕ → List ℕ → ℕ
sum_ring width (suc left) zi (r ∷ rs) = sum_ring width left (ring (add zi r) width) rs
sum_ring width _ zi rs = zi

-- The same for every entry: those for the next one are `width` places on.
unfoldable pub sum_groups : ℕ → ℕ → List ℕ → List ℕ
unfolding sum_ring
sum_groups width zero rs = []
sum_groups width (suc num) rs = sum_ring width width 0 rs ∷ sum_groups width num (drop width rs)

-- `execute` at a server. The message tag says which server sends.
unfoldable pub execute : ℕ → ℕ → ℕ → List ℕ → Prog (List ℕ)
unfolding draw_all choices_all sum_groups
execute rank width start_msg_tag xis =
    let sender = bit_and (start_msg_tag / ot_tag_stride) 1 in
    if rank == sender
    then (do
      o ← draw_all width xis
      ot_send (words width) o.ss0 o.ss1 (ret (sum_groups width (length xis) o.rs)))
    else (ot_receive (words width) (choices_all width xis)
        λ results. ret (sum_groups width (length xis) results))
