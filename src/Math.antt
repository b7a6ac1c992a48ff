-- ===== src/Math.antt =====
-- The integer helpers of class `Math` (runtime/utils/src/utils/Math.cpp).
pub mod Ring
pub mod Power
use mpc_package.Base.{ℕ, zero, suc, ◌+◌, ◌-◌, ◌*◌, ◌/◌, ◌%◌, ◌^◌, ◌<◌, Bool, not, ◌&&◌}
use mpc_package.Base.{bit_and, bit_or, ltb, ◌==◌, if◌then◌else◌, to_int}
use mpc_package.Word.{shl, sar, inv, sub, mul}

-- `Math::ring`
unfoldable pub ring : ℕ → ℕ → ℕ
ring num width = if width == 64 then num else bit_and num (sub (shl 1 width) 1)

-- `Math::getBit`
unfoldable pub get_bit : ℕ → ℕ → Bool
get_bit v i = not (bit_and (sar v i) 1 == 0)

-- `Math::changeBit`
unfoldable pub change_bit : ℕ → ℕ → Bool → ℕ
change_bit v i b = let mask = inv (shl 1 i) in bit_or (bit_and v mask) (shl (to_int b) i)

-- The loop of `Math::pow`. The exponent is signed: a word of 2 ^ 63 or more ends the loop.
unfoldable pub pow_loop : ℕ → ℕ → ℕ → ℕ → ℕ
pow_loop zero result base exponent = result
pow_loop (suc fuel) result base exponent =
    let rest =
      pow_loop fuel (if exponent % 2 == 1 then mul result base else result) (mul base base)
        (exponent / 2) in
    if ltb 0 exponent && ltb exponent (2 ^ 63) then rest else result

-- `Math::pow`. A positive exponent is below 2 ^ 63, so 64 rounds are enough.
unfoldable pub pow : ℕ → ℕ → ℕ
unfolding pow_loop
pow base exponent = pow_loop 64 1 base exponent

-- `Math::randInt(lowest, highest)` on the next random number `r`, whatever that is.
unfoldable pub rand_int_in : ℕ → ℕ → ℕ → ℕ
rand_int_in lowest highest r = lowest + r % (highest - lowest + 1)

-- `Math::randInt()`, from 0 to INT64_MAX.
unfoldable pub rand_int : ℕ → ℕ
unfolding rand_int_in
rand_int r = rand_int_in 0 (2 ^ 63 - 1) r
