-- ===== src/Tests/Transfers.antt =====
-- The transfers of chosen messages.
use mpc_package.Base.{◌≡◌, refl, arith}
use mpc_package.Base.{[], ◌∷◌, inl, inr}
use mpc_package.Prog.{packed, ot_results}
use mpc_package.Prog.Runs.{Runs}
use mpc_package.RandOt.{SRot, RRot, send_bits}
use mpc_package.RandOt.{receive_bits, send_twice, receive_twice, to_send_twice}
use mpc_package.RandOt.Batch.{IsRot}
use mpc_package.RandOt.Bits.{receive_bits-Runs}
use mpc_package.RandOt.Twice.{
  AreRots, receive_twice-Runs, to_send_twice-reveals, both_messages, zip,
}

abbrev s_rot0 : SRot
s_rot0 = record { r0 = 77; r1 = 90 }

abbrev s_rot1 : SRot
s_rot1 = record { r0 = 170; r1 = 33 }

abbrev r_rot0 : RRot
r_rot0 = record { b = 1; rb = 90 }

abbrev r_rot1 : RRot
r_rot1 = record { b = 0; rb = 170 }

rot0 : IsRot s_rot0 r_rot0
rot0 = record { r0_word = omega arith; r1_word = omega arith; chosen = inr (refl, refl) }

rots : AreRots s_rot0 s_rot1 r_rot0 r_rot1
rots = record {
  rot0 = rot0;
  rot1 = record { r0_word = omega arith; r1_word = omega arith; chosen = inl (refl, refl) };
  opposite = refl;
}

receive_bits-Runs_example :
    Runs
      (send_bits s_rot0 (1 ∷ 2 ∷ []) (3 ∷ 4 ∷ []))
      (receive_bits r_rot0 (5 ∷ 6 ∷ []))
      (λ _ got. got ≡ ot_results packed (1 ∷ 2 ∷ []) (3 ∷ 4 ∷ []) (5 ∷ 6 ∷ []))
receive_bits-Runs_example =
    receive_bits-Runs (1 ∷ 2 ∷ []) (3 ∷ 4 ∷ []) (5 ∷ 6 ∷ []) rot0 refl refl
      (omega arith, (omega arith, tt)) (omega arith, (omega arith, tt))

receive_twice-Runs_example :
    Runs
      (send_twice s_rot0 s_rot1 (1 ∷ 2 ∷ []) (3 ∷ 4 ∷ []))
      (receive_twice r_rot0 r_rot1 (5 ∷ 6 ∷ []))
      (λ _ got. got ≡ ot_results packed (1 ∷ 2 ∷ []) (3 ∷ 4 ∷ []) (5 ∷ 6 ∷ []))
receive_twice-Runs_example =
    receive_twice-Runs (1 ∷ 2 ∷ []) (3 ∷ 4 ∷ []) (5 ∷ 6 ∷ []) rots refl refl
      (omega arith, (omega arith, tt)) (omega arith, (omega arith, tt))

to_send_twice-reveals_example :
    both_messages r_rot0 r_rot1 (to_send_twice s_rot0 s_rot1 (1 ∷ 2 ∷ []) (3 ∷ 4 ∷ []))
    ≡ zip (1 ∷ 2 ∷ []) (3 ∷ 4 ∷ [])
to_send_twice-reveals_example =
    to_send_twice-reveals (1 ∷ 2 ∷ []) (3 ∷ 4 ∷ []) rots (omega arith, (omega arith, tt))
      (omega arith, (omega arith, tt))
