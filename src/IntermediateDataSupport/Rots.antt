-- ===== src/IntermediateDataSupport/Rots.antt =====
-- The random transfers of the start are what the transfers of chosen messages assume.
use mpc_package.Base.{ℕ, zero, suc, ◌-◌, ◌≤◌, ◌≡◌, refl, arith, inl, inr}
use mpc_package.Base.{◌⊎◌, ◌==◌, if◌then◌else◌}
use mpc_package.Math.{ring, rand_int, rand_int_in}
use mpc_package.Math.Ring.{rand_int-IsWord}
use mpc_package.Prog.{draw, ot_results, ot_pick}
use mpc_package.Prog.Runs.{
  Runs, Runs-bind, Runs-ret, Runs-draw, Runs-draw_right, Runs-ot_send, Runs-ot_receive, Runs-weaken,
}
use mpc_package.RandOt.{SRot, RRot}
use mpc_package.RandOt.Batch.{IsRot}
use mpc_package.RandOt.Twice.{AreRots}
use mpc_package.IntermediateDataSupport.{offer_rot, take_rot, prepare_rot, ServerRots}

-- One side's message and the other side's choice of it.
abbrev Chosen : ℕ → SRot → RRot → Type 0
Chosen b s r = IsRot s r × (r.b ≡ b)

draws-Chosen :
    (r s b : ℕ)
    → b ≤ 1
    → Chosen b
        (record { r0 = rand_int r; r1 = rand_int s })
        (record { b = b; rb = if b == 0 then rand_int r else rand_int s })
draws-Chosen r s b le = (
  record { r0_word = rand_int-IsWord r; r1_word = rand_int-IsWord s; chosen = by_choice b le },
  refl,
)
  where
    by_choice :
        (b : ℕ)
        → b ≤ 1
        → ((b ≡ 0) × ((if b == 0 then rand_int r else rand_int s) ≡ rand_int r))
          ⊎ ((b ≡ 1) × ((if b == 0 then rand_int r else rand_int s) ≡ rand_int s))
    by_choice zero le = inl (refl, refl)
    by_choice (suc zero) le = inr (refl, refl)
    by_choice (suc (suc b)) le = absurd (omega arith)

offer-take : (b : ℕ) → b ≤ 1 → Runs offer_rot (take_rot b) (λ s r. Chosen b s r)
unfolding offer_rot take_rot ot_results ot_pick ring
offer-take b le =
    Runs-draw λ r. Runs-draw λ s. Runs-ot_send _ _ _ _ _ (Runs-ret _ _ (draws-Chosen r s b le))

take-offer : (b : ℕ) → b ≤ 1 → Runs (take_rot b) offer_rot (λ r s. Chosen b s r)
unfolding offer_rot take_rot ot_results ot_pick ring
take-offer b le =
    Runs-draw_right
      λ r. Runs-draw_right λ s. Runs-ot_receive _ _ _ _ _ (Runs-ret _ _ (draws-Chosen r s b le))

abbrev random_choice : ℕ → ℕ
random_choice r = rand_int_in 0 1 r

random_choice-le : (r : ℕ) → random_choice r ≤ 1
unfolding rand_int_in
random_choice-le r = omega arith

offer-take_random : Runs offer_rot (draw λ r. take_rot (random_choice r)) (λ s r. IsRot s r)
offer-take_random =
    Runs-draw_right
      λ x. Runs-weaken (offer-take (random_choice x) (random_choice-le x)) λ s r h. h.0

take-offer_random : Runs (draw λ r. take_rot (random_choice r)) offer_rot (λ r s. IsRot s r)
take-offer_random =
    Runs-draw λ x. Runs-weaken (take-offer (random_choice x) (random_choice-le x)) λ r s h. h.0

-- In either direction, what a server holds as a sender and the other one as a receiver.
pub record RotsOfBoth (h0 h1 : ServerRots) : Type 0 where
  pub from0 : AreRots h0.s_rot0 h0.s_rot1 h1.r_rot0 h1.r_rot1
  pub from1 : AreRots h1.s_rot0 h1.s_rot1 h0.r_rot0 h0.r_rot1

-- Both servers end, whatever they draw, and in either direction the receiver holds one message of
-- each of the sender's two pairs: that of its choice, which for the second pair is the opposite of
-- that for the first.
pub prepare_rot-RotsOfBoth : Runs (prepare_rot 0) (prepare_rot 1) RotsOfBoth
unfolding prepare_rot
prepare_rot-RotsOfBoth = Runs-bind offer-take_random λ s0 r1 h.
    Runs-bind take-offer_random λ r0 s1 k.
      Runs-bind (offer-take (1 - r1.b) (opposite r1.b)) λ s0' r1' h'.
        Runs-bind (take-offer (1 - r0.b) (opposite r0.b)) λ r0' s1' k'. Runs-ret _ _ record {
          from0 = record { rot0 = h; rot1 = h'.0; opposite = h'.1 };
          from1 = record { rot0 = k; rot1 = k'.0; opposite = k'.1 };
        }
  where
    opposite : (b : ℕ) → 1 - b ≤ 1
    opposite b = omega arith
