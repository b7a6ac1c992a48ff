-- ===== src/Word.antt =====
-- `int64_t`, as the bit pattern below 2 ^ 64 that stands for it. Every operation wraps around.
pub mod Bits
pub mod Cong
use mpc_package.Base.{ℕ, ◌+◌, ◌-◌, ◌*◌, ◌/◌, ◌%◌, ◌^◌, ◌<◌, bit_xor, ltb, if◌then◌else◌}

abbrev pub IsWord : ℕ → Type 0
IsWord v = v < 2 ^ 64

-- `-1ll`
abbrev pub ones : ℕ
ones = 2 ^ 64 - 1

unfoldable pub add : ℕ → ℕ → ℕ
add a b = (a + b) % 2 ^ 64

unfoldable pub sub : ℕ → ℕ → ℕ
sub a b = (a + (2 ^ 64 - b % 2 ^ 64)) % 2 ^ 64

unfoldable pub mul : ℕ → ℕ → ℕ
mul a b = a * b % 2 ^ 64

-- `v << i`
unfoldable pub shl : ℕ → ℕ → ℕ
shl v i = v * 2 ^ i % 2 ^ 64

-- `v >> i`, which repeats the sign.
unfoldable pub sar : ℕ → ℕ → ℕ
sar v i = if ltb v (2 ^ 63) then v / 2 ^ i else 2 ^ 64 - 1 - (2 ^ 64 - 1 - v) / 2 ^ i

-- `~v`
unfoldable pub inv : ℕ → ℕ
inv v = bit_xor v ones
