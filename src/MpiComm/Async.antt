-- ===== src/MpiComm/Async.antt =====
-- The asynchronous transfers give back what was sent, or nothing.
use native.Mathlib.Nat.{mod-eq_of_lt}
use mathlib.Core.Option
use mpc_package.Base.{ℕ, ◌%◌, ◌^◌, ◌≤◌, ◌<◌, ◌≡◌, ap, arith, List, map}
use mpc_package.Base.{Bool, true, false, not, ◌&&◌, some, none, ltb, ◌==◌, if◌then◌else◌}
use mpc_package.MpiComm.{transfer_async}
use mpc_package.MpiComm.{transfer_all_async}
use mpc_package.MpiComm.Extend.{FitAll, extend8-mod, extend16-mod, extend32-mod, to_bool-mod}
use mpc_package.MpiComm.Extend.{map-mod_self, mod-map_bool, mod-map8, mod-map16, mod-map32}

-- With compression and 33 to 63 bits an asynchronous transfer of an integer comes to nothing; else it
-- gives back the low `width` bits.
pub transfer_async_lem :
    (compress : Bool) (width v : ℕ)
    → width ≤ 64
    → v < 2 ^ width
    → Option.map (λ r. r % 2 ^ width) (transfer_async compress width v)
      ≡ (if compress && ltb 32 width && not (width == 64) then none else some v)
unfolding transfer_async
transfer_async_lem false width v le h = ap some (mod-eq_of_lt h)
transfer_async_lem true width v le h = ground (
  arith,
  mod-eq_of_lt h,
  extend8-mod {width = width} v,
  extend16-mod {width = width} v,
  extend32-mod {width = width} v,
  to_bool-mod width v h,
)

-- For words below 2 ^ width, in every width up to 64, the target of an asynchronous transfer of a
-- vector holds the words modulo 2 ^ width, but with compression and 33 to 63 bits no receive is
-- posted.
pub transfer_all_async_lem :
    (compress : Bool) (width : ℕ) (vs : List ℕ)
    → width ≤ 64
    → FitAll width vs
    → Option.map (map (λ r. r % 2 ^ width)) (transfer_all_async compress width vs)
      ≡ (if compress && ltb 32 width && not (width == 64) then none else some vs)
unfolding transfer_all_async
transfer_all_async_lem false width vs le h = ap some (map-mod_self width vs h)
transfer_all_async_lem true width vs le h = ground (
  arith,
  map-mod_self width vs h,
  mod-map_bool width vs h,
  mod-map8 width vs h,
  mod-map16 width vs h,
  mod-map32 width vs h,
)
