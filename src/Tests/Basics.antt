-- ===== src/Tests/Basics.antt =====
-- Integers, secret sharing and the operators without messages.
use mpc_package.Base.{◌%◌, ◌^◌, ◌≡◌, refl, arith, map}
use mpc_package.Base.{[], ◌∷◌}
use mpc_package.Math.{pow}
use mpc_package.Math.Power.{pow_lem}
use mpc_package.Shares.{
  share_bool_batch, reconstruct_bool_batch, share_arith_batch, reconstruct_arith_batch,
}
use mpc_package.Shares.Xor.{reconstruct_bool_batch-share_bool_batch}
use mpc_package.Shares.Sum.{reconstruct_arith_batch-share_arith_batch}

reconstruct_bool_batch-share_bool_batch_example :
    reconstruct_bool_batch
      (share_bool_batch (300 ∷ 5 ∷ []) (77 ∷ 9 ∷ []) 8).0
      (share_bool_batch (300 ∷ 5 ∷ []) (77 ∷ 9 ∷ []) 8).1
      8
    ≡ map (λ z. z % 2 ^ 8) (300 ∷ 5 ∷ [])
reconstruct_bool_batch-share_bool_batch_example =
    reconstruct_bool_batch-share_bool_batch (300 ∷ 5 ∷ []) (77 ∷ 9 ∷ []) 8 (omega arith)
      (omega arith, (omega arith, tt)) refl

reconstruct_arith_batch-share_arith_batch_example :
    reconstruct_arith_batch
      (share_arith_batch (300 ∷ 5 ∷ []) (77 ∷ 9 ∷ [])).0
      (share_arith_batch (300 ∷ 5 ∷ []) (77 ∷ 9 ∷ [])).1
    ≡ map (λ z. z % 2 ^ 64) (300 ∷ 5 ∷ [])
reconstruct_arith_batch-share_arith_batch_example =
    reconstruct_arith_batch-share_arith_batch (300 ∷ 5 ∷ []) (77 ∷ 9 ∷ []) refl

pow_lem_example : pow 3 50 ≡ 3 ^ 50 % 2 ^ 64
pow_lem_example = pow_lem 3 50 (omega arith)
