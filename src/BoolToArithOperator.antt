-- ===== src/BoolToArithOperator.antt =====
-- `BoolToArithOperator` (primitives/src/compute/single/bool/BoolToArithOperator.cpp): from Boolean to
-- arithmetic shares, by an oblivious transfer for each bit.
pub mod Correct
use mpc_package.Base.{ℕ, zero, suc, ◌+◌, ◌-◌, ◌/◌, ◌==◌, List, [], ◌∷◌, if◌then◌else◌, bit_and}
use mpc_package.Word.{sub, shl, sar}
use mpc_package.Math.{ring, rand_int}
use mpc_package.Prog.{Prog, ret, draw, ot_send, ot_receive, words, ◌>>=◌}
use mpc_package.BmtGenerator.{choices, sum_words}

-- What the sender offers for its bit at `i` under the mask `r`, should the receiver's bit be `flip`.
unfoldable pub offer : ℕ → ℕ → ℕ → ℕ → ℕ
offer x i r flip = let xb = bit_and (sar x i) 1 in sub (shl (if flip == 0 then xb else 1 - xb) i) r

pub record Offers : Type 0 where
  pub rs : List ℕ
  pub ss0 : List ℕ
  pub ss1 : List ℕ

-- The sender's loop: its masks and its two messages for each bit.
unfoldable pub draw_offers : ℕ → ℕ → ℕ → Prog Offers
draw_offers x i zero = ret (record { rs = []; ss0 = []; ss1 = [] })
draw_offers x i (suc left) = draw λ r. do
  o ← draw_offers x (i + 1) left
  ret (record {
    rs = rand_int r ∷ o.rs;
    ss0 = offer x i (rand_int r) 0 ∷ o.ss0;
    ss1 = offer x i (rand_int r) 1 ∷ o.ss1;
  })

-- `IknpOtBatchOperator::tagStride`
abbrev pub ot_tag_stride : ℕ
ot_tag_stride = 2

-- The constructor on a share `xi`, then `execute`. The message tag says which server sends.
unfoldable pub execute : ℕ → ℕ → ℕ → ℕ → Prog ℕ
unfolding draw_offers choices sum_words
execute rank width start_msg_tag xi =
    let x = ring xi width in
    let sender = bit_and (start_msg_tag / ot_tag_stride) 1 in
    if rank == sender
    then (do
      o ← draw_offers x 0 width
      ot_send (words width) o.ss0 o.ss1 (ret (ring (sum_words 0 o.rs) width)))
    else (ot_receive (words width) (choices x 0 width)
        λ results. ret (ring (sum_words 0 results) width))
