-- ===== src/BoolLessOperator.antt =====
-- `BoolLessOperator` (primitives/src/compute/single/bool/BoolLessOperator.cpp): whether the value
-- of one Boolean share is less than that of another, by the highest digit at which they differ.
-- Which digits are above it is found by conjunctions of blocks of digits that double in size.
pub mod Shift
pub mod Collects
pub mod Blocks
pub mod Compare
pub mod Rounds
pub mod Operands
pub mod Correct
use mpc_package.Base.{ℕ, zero, suc, ◌+◌, ◌-◌, ◌/◌, ◌^◌, ◌==◌, List, Option, none, some, get_or}
use mpc_package.Base.{
  Bool, true, false, not, ◌&&◌, xor, ltb, if◌then◌else◌, to_int, bit_and, bit_or, bit_xor,
}
use mpc_package.Word.{shl, sar, sub, inv, ones}
use mpc_package.Math.{ring, get_bit, change_bit}
use mpc_package.Prog.{Prog, ret, ◌>>=◌}
use mpc_package.Bmt.{Bmt, Env}
use mpc_package.BoolAndOperator
use mathlib.Core.Option

-- The digits from `i` to `start` become the digit at `start`.
unfoldable pub set_part : ℕ → ℕ → ℕ → ℕ
set_part n start i =
    let mask = shl (sub (shl 1 (start - i)) 1) i in
    if get_bit n start then bit_or n mask else bit_and n (inv mask)

-- The loop of `shiftGreater`.
unfoldable pub shift_loop : ℕ → ℕ → ℕ → ℕ → ℕ → ℕ
unfolding set_part
shift_loop zero width part_size i n = n
shift_loop (suc fuel) width part_size i n =
    let start = i + part_size / 2 in
    let rest = shift_loop fuel width part_size (i + part_size) (set_part n start i) in
    if ltb i width && ltb start width then rest else n

-- `shiftGreater`. The loop steps by at least one, so `width` rounds are enough.
unfoldable pub shift_greater : ℕ → ℕ → ℕ → ℕ
unfolding shift_loop
shift_greater width n r =
    let part_size = 2 ^ r in
    let shifted = shift_loop width width part_size 0 n in if ltb width part_size then n else shifted

-- `std::floor(std::log2(width))`
unfoldable pub floor_log2 : ℕ → ℕ → ℕ
floor_log2 zero v = 0
floor_log2 (suc fuel) v = let rest = suc (floor_log2 fuel (v / 2)) in if ltb v 2 then 0 else rest

-- `gotBmt ? &bmts[i] : nullptr`
unfoldable pub bmt_at : Option (List Bmt) → ℕ → Option Bmt
bmt_at bmts i = Option.map (λ l. get_or l i (record { a = 0; b = 0; c = 0 })) bmts

-- The loop from `r` on, with `left` rounds to go. Its conjunction at `r` is given triple `r`.
unfoldable pub and_rounds : Env → ℕ → ℕ → Option (List Bmt) → ℕ → ℕ → ℕ → Prog ℕ
unfolding shift_greater bmt_at
and_rounds env rank width bmts r zero lbs = ret lbs
and_rounds env rank width bmts r (suc left) lbs = do
  z ← BoolAndOperator.execute env rank width (bmt_at bmts r) lbs (shift_greater width lbs r)
  and_rounds env rank width bmts (r + 1) left z

-- The last loop.
unfoldable pub xor_bits : ℕ → ℕ → ℕ → Bool → Bool
xor_bits v i zero result = result
xor_bits v i (suc left) result = xor_bits v (i + 1) left (xor result (get_bit v i))

-- `Comm::rank()` as a digit.
abbrev pub rank_bit : ℕ → Bool
rank_bit rank = not (rank == 0)

-- The constructor on shares, which takes the operands in the other order
-- (primitives/include/compute/single/bool/BoolLessOperator.h), then `execute`, at a server.
unfoldable pub execute : Env → ℕ → ℕ → Option (List Bmt) → ℕ → ℕ → Prog ℕ
unfolding and_rounds xor_bits floor_log2
execute env rank width bmts x y =
    let xi = ring y width in
    let yi = ring x width in
    let x_xor_y = bit_xor xi yi in
    let lbs = if rank == 0 then x_xor_y else bit_xor x_xor_y (ring ones width) in
    let diag = change_bit x_xor_y 0 (xor (get_bit yi 0) (rank_bit rank)) in
    let rounds = floor_log2 width width in
    do
      lbs1 ← BoolAndOperator.execute env rank width (bmt_at bmts 0) lbs (shift_greater width lbs 1)
      diag1 ← BoolAndOperator.execute env rank width (bmt_at bmts 1) diag xi
      lbs2 ← and_rounds env rank width bmts 2 (rounds - 1) lbs1
      let shifted_accum = change_bit (sar lbs2 1) (width - 1) (rank_bit rank)
      final_accum ←
          BoolAndOperator.execute env rank width (bmt_at bmts (2 + (rounds - 1))) shifted_accum
            diag1
      ret (to_int (xor_bits final_accum 0 width false))
