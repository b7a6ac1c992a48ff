-- ===== src/RandOt.antt =====
-- `RandOtOperator` and `RandOtBatchOperator` (primitives/src/ot): oblivious transfers of chosen
-- messages, from random ones that the servers made at the start and use again and again.
pub mod Batch
pub mod Bits
pub mod Twice
use mpc_package.Base.{ℕ, zero, suc, ◌==◌, List, [], ◌∷◌, get_or, drop, if◌then◌else◌}
use mpc_package.Base.{bit_and, bit_or, bit_xor}
use mpc_package.Word.{inv, ones}
use mpc_package.Math.{ring}
use mpc_package.Prog.{Prog, ret, send, receive}

-- `SRot`
pub record SRot : Type 0 where
  pub r0 : ℕ
  pub r1 : ℕ

-- `RRot`
pub record RRot : Type 0 where
  pub b : ℕ
  pub rb : ℕ

-- A message as it is sent, masked for the receiver whose masked choice is `k`.
unfoldable pub mask0 : SRot → ℕ → ℕ → ℕ
mask0 rot k m0 = bit_xor m0 (if k == 0 then rot.r0 else rot.r1)

unfoldable pub mask1 : SRot → ℕ → ℕ → ℕ
mask1 rot k m1 = bit_xor m1 (if k == 0 then rot.r1 else rot.r0)

-- `RandOtOperator(…)` and `execute` at the sender.
unfoldable pub send_one : SRot → ℕ → ℕ → ℕ → Prog (List ℕ)
send_one rot width m0 m1 = receive λ k.
    send (mask0 rot (get_or k 0 0) (ring m0 width) ∷ mask1 rot (get_or k 0 0) (ring m1 width) ∷ [])
      (ret [])

-- `execute` at the receiver.
unfoldable pub receive_one : RRot → ℕ → ℕ → Prog (List ℕ)
receive_one rot width choice =
    send (bit_xor rot.b choice ∷ [])
      (receive λ y01. ret (ring (bit_xor (get_or y01 choice 0) rot.rb) width ∷ []))

-- The sender's loop in `execute0`.
unfoldable pub to_send : SRot → List ℕ → List ℕ → List ℕ → List ℕ
to_send rot (k ∷ ks) (m0 ∷ ms0) (m1 ∷ ms1) =
    mask0 rot k m0 ∷ mask1 rot k m1 ∷ to_send rot ks ms0 ms1
to_send rot _ _ _ = []

-- The receiver's loops in `execute0`.
unfoldable pub masked_choices : RRot → List ℕ → List ℕ
masked_choices rot [] = []
masked_choices rot (choice ∷ choices) = bit_xor rot.b choice ∷ masked_choices rot choices

unfoldable pub results : RRot → ℕ → List ℕ → List ℕ → List ℕ
results rot width [] to_recv = []
results rot width (choice ∷ choices) to_recv =
    ring (bit_xor (get_or to_recv choice 0) rot.rb) width
    ∷ results rot width choices (drop 2 to_recv)

-- `execute0`
unfoldable pub send_batch : SRot → List ℕ → List ℕ → Prog (List ℕ)
send_batch rot ms0 ms1 = receive λ ks. send (to_send rot ks ms0 ms1) (ret [])

unfoldable pub receive_batch : RRot → ℕ → List ℕ → Prog (List ℕ)
receive_batch rot width choices =
    send (masked_choices rot choices) (receive λ to_recv. ret (results rot width choices to_recv))

-- `(x & ~c) | (y & c)`
unfoldable pub select : ℕ → ℕ → ℕ → ℕ
select x y c = bit_or (bit_and x (inv c)) (bit_and y c)

-- The sender's loop in `executeForBits`.
unfoldable pub to_send_bits : SRot → List ℕ → List ℕ → List ℕ → List ℕ
to_send_bits rot (k ∷ ks) (m0 ∷ ms0) (m1 ∷ ms1) =
    bit_xor m0 (select rot.r0 rot.r1 k)
    ∷ bit_xor m1 (select rot.r1 rot.r0 k)
    ∷ to_send_bits rot ks ms0 ms1
to_send_bits rot _ _ _ = []

-- The receiver's loops.
unfoldable pub masked_choice_bits : ℕ → List ℕ → List ℕ
masked_choice_bits ib [] = []
masked_choice_bits ib (choice ∷ choices) = bit_xor ib choice ∷ masked_choice_bits ib choices

unfoldable pub result_bits : ℕ → List ℕ → List ℕ → List ℕ
result_bits rb [] to_recv = []
result_bits rb (choice ∷ choices) to_recv =
    bit_xor (select (get_or to_recv 0 0) (get_or to_recv 1 0) choice) rb
    ∷ result_bits rb choices (drop 2 to_recv)

-- `executeForBits`
unfoldable pub send_bits : SRot → List ℕ → List ℕ → Prog (List ℕ)
send_bits rot ms0 ms1 = receive λ ks. send (to_send_bits rot ks ms0 ms1) (ret [])

unfoldable pub receive_bits : RRot → List ℕ → Prog (List ℕ)
receive_bits rot choices =
    let ib = if rot.b == 1 then ones else rot.b in
    send (masked_choice_bits ib choices)
      (receive λ to_recv. ret (result_bits rot.rb choices to_recv))

-- The sender's loop in `executeForBitsSingleTransfer`: every message under both random transfers.
unfoldable pub to_send_twice : SRot → SRot → List ℕ → List ℕ → List ℕ
to_send_twice rot0 rot1 (m0 ∷ ms0) (m1 ∷ ms1) =
    bit_xor m0 rot0.r0
    ∷ bit_xor m1 rot0.r1
    ∷ bit_xor m0 rot1.r0
    ∷ bit_xor m1 rot1.r1
    ∷ to_send_twice rot0 rot1 ms0 ms1
to_send_twice rot0 rot1 _ _ = []

-- The receiver's loop.
unfoldable pub result_twice : RRot → RRot → List ℕ → List ℕ → List ℕ
result_twice rot0 rot1 [] to_recv = []
result_twice rot0 rot1 (choice ∷ choices) to_recv =
    let mask_sel0 = if rot0.b == 0 then inv choice else choice in
    let yb_sel0 = select (get_or to_recv 0 0) (get_or to_recv 1 0) choice in
    let yb_sel1 = select (get_or to_recv 2 0) (get_or to_recv 3 0) choice in
    let yb_combined = bit_or (bit_and yb_sel0 mask_sel0) (bit_and yb_sel1 (inv mask_sel0)) in
    let xor_val = bit_or (bit_and rot0.rb mask_sel0) (bit_and rot1.rb (inv mask_sel0)) in
    bit_xor yb_combined xor_val ∷ result_twice rot0 rot1 choices (drop 4 to_recv)

-- `executeForBitsSingleTransfer`
unfoldable pub send_twice : SRot → SRot → List ℕ → List ℕ → Prog (List ℕ)
send_twice rot0 rot1 ms0 ms1 = send (to_send_twice rot0 rot1 ms0 ms1) (ret [])

unfoldable pub receive_twice : RRot → RRot → List ℕ → Prog (List ℕ)
receive_twice rot0 rot1 choices = receive λ to_recv. ret (result_twice rot0 rot1 choices to_recv)
