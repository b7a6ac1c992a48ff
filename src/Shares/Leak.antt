-- ===== src/Shares/Leak.antt =====
-- What a single share tells about the secret. `Math::randInt` never sets the sign bit, and the
-- two-operand Boolean constructor masks with the constant 1.
use mpc_package.Base.{ℕ, ◌^◌, ◌≤◌, ◌<◌, ◌≡◌, ◌∙◌, arith, Bool, false}
use native.Mathlib.Nat.{pow-le-pow_right}
use mpc_package.Base.{[], ◌∷◌, bit_xor, bit, bit-bit_xor, bit-high, xor, bit_xor-lt}
use mpc_package.Word.{IsWord}
use mpc_package.Math.{ring, rand_int}
use mpc_package.Math.Ring.{ring-fits}
use mpc_package.Shares.{share_bool, share_bool_pair}

rand_int-lt : (r : ℕ) → rand_int r < 2 ^ 63
unfolding rand_int
rand_int-lt r = omega arith

-- At width 64 the top bit of what server 0 is sent is the top bit of the shared word, whatever the
-- client draws: the mask never covers it.
pub share_bool-top_bit : (z r : ℕ) → IsWord z → bit (share_bool z 64 r).0 63 ≡ bit z 63
unfolding share_bool ring
share_bool-top_bit z r h =
    bit-bit_xor 63 z (rand_int r)
    ∙ rw (bit-high 63 63 (rand_int r) (rand_int-lt r) (omega arith)) (keep (bit z 63))
  where
    keep : (b : Bool) → xor b false ≡ b
    keep b = ground arith

-- On operands of `width` bits, from 1 to 64, the constructor with two operands sends server 0 each
-- operand with its lowest bit turned, and server 1 the constants 1.
pub share_bool_pair-reveals :
    (x y width : ℕ)
    → width ≤ 64
    → 0 < width
    → x < 2 ^ width
    → y < 2 ^ width
    → share_bool_pair x y width ≡ (bit_xor x 1 ∷ bit_xor y 1 ∷ [], 1 ∷ 1 ∷ [])
unfolding share_bool_pair
share_bool_pair-reveals x y width le pos hx hy = λ i. (fits x hx i ∷ fits y hy i ∷ [], 1 ∷ 1 ∷ [])
  where
    one_fits : 1 < 2 ^ width
    one_fits = omega (arith, pow-le-pow_right {n = 2} (omega arith) pos)

    fits : (v : ℕ) → v < 2 ^ width → ring (bit_xor v 1) width ≡ bit_xor v 1
    fits v h = ring-fits (bit_xor v 1) width (bit_xor-lt width v 1 h one_fits) le
