-- ===== src/Word/Bits.antt =====
-- The digits of the results of the word operations.
use native.Mathlib.Nat.{div-le_self}
use native.Mathlib.Decide.{dec_lt}
use mpc_package.Base.{ℕ, ◌+◌, ◌-◌, ◌*◌, ◌/◌, ◌^◌, ◌<◌, ◌≡◌, ap, ◌∙◌, Bool, false}
use mpc_package.Base.{not, ◌&&◌, arith, ltb, ltb-lt, ltb-le, if◌then◌else◌}
use mpc_package.Base.{bit, bit-mod, bit-mul, bit-div, bit-complement, bit-bit_xor, bit_xor-lt}
use mpc_package.Base.{bit-ones}
use mpc_package.Word.{IsWord, ones, shl, sar, inv}

pub shl-IsWord : (v i : ℕ) → IsWord (shl v i)
unfolding shl
shl-IsWord v i = omega arith

pub inv-IsWord : (v : ℕ) → IsWord v → IsWord (inv v)
unfolding inv
inv-IsWord v h = bit_xor-lt 64 v ones h (omega arith)

pub sar-IsWord : (v i : ℕ) → IsWord v → IsWord (sar v i)
unfolding sar
sar-IsWord v i h = ground (arith, div-le_self v (2 ^ i))

pub bit-shl :
    (v k i : ℕ) → bit (shl v k) i ≡ (ltb i 64 && (if ltb i k then false else bit v (i - k)))
unfolding shl
bit-shl v k i = bit-mod 64 i (v * 2 ^ k) ∙ ap (λ t. ltb i 64 && t) (bit-mul k i v)

pub bit-inv : (v i : ℕ) → i < 64 → bit (inv v) i ≡ not (bit v i)
unfolding inv
bit-inv v i h = bit-bit_xor i v ones ∙ rw (bit-ones 64 i, ltb-lt i 64 h) (ground arith)

-- Within the word a shift to the right moves the digits down.
pub bit-sar : (v k i : ℕ) → IsWord v → i + k < 64 → bit (sar v k) i ≡ bit v (i + k)
unfolding sar
bit-sar v k i h lt = elim (dec_lt v (2 ^ 63)) [
  | yes p ↦ rw (ltb-lt v (2 ^ 63) p) (bit-div k i v)
  | no p ↦ rw (ltb-le v (2 ^ 63) (omega arith)) (negative v h)
]
  where
    twice : (b : Bool) → not (not b) ≡ b
    twice b = ground arith

    below : (t : ℕ) → t < 2 ^ 64 → t / 2 ^ k < 2 ^ 64
    below t ht = omega (arith, div-le_self t (2 ^ k))

    rest : (v : ℕ) → 2 ^ 64 - 1 - v < 2 ^ 64
    rest v = omega arith

    negative : (v : ℕ) → v < 2 ^ 64 → bit (2 ^ 64 - 1 - (2 ^ 64 - 1 - v) / 2 ^ k) i ≡ bit v (i + k)
    negative v h =
        bit-complement 64 i ((2 ^ 64 - 1 - v) / 2 ^ k) (below (2 ^ 64 - 1 - v) (rest v))
          (omega arith)
        ∙ ap not (bit-div k i (2 ^ 64 - 1 - v) ∙ bit-complement 64 (i + k) v h lt)
        ∙ twice (bit v (i + k))
