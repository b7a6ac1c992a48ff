-- ===== src/MpiComm/Sync.antt =====
-- The blocking transfers give back what was sent, but for vectors of 9 to 16 bits.
use native.Mathlib.Nat.{mod-eq_of_lt}
use mpc_package.Base.{
  ℕ, ◌%◌, ◌^◌, ◌≤◌, ◌<◌, ◌≡◌, ap, ◌∙◌, arith, List, map, length, take, ◌++◌, replicate, ◌-◌,
}
use mpc_package.Base.{Bool, true, false, ◌&&◌, ltb, leb, if◌then◌else◌}
use mpc_package.MpiComm.{send, receive, send_all, receive_all, narrow, extend, halves, join_halves}
use mpc_package.MpiComm.Extend.{FitAll, extend8-mod, extend32-mod, to_bool-mod}
use mpc_package.MpiComm.Extend.{extend32-garbage, map-mod_self, mod-map_bool, mod-map8, mod-map32}
use mpc_package.MpiComm.Halves.{first_half, receive-half, FitAll-up, FitAll-first_half}

-- A blocking transfer of an integer gives back its low `width` bits, whatever the upper half of
-- the receiver's `int` held.
pub receive-send :
    (compress : Bool) (width garbage v : ℕ)
    → garbage < 2 ^ 16
    → v < 2 ^ width
    → receive compress width garbage (send compress width v) % 2 ^ width ≡ v
unfolding receive send
receive-send false width garbage v g h = mod-eq_of_lt h
receive-send true width garbage v g h = ground (
  arith,
  mod-eq_of_lt h,
  extend8-mod {width = width} v,
  extend32-garbage {width = width} v garbage,
  extend32-mod {width = width} v,
  to_bool-mod width v h,
)

-- For words below 2 ^ width, what is received of a blocking transfer of a vector are the words
-- modulo 2 ^ width, but with compression and 9 to 16 bits the second half of them is zero.
pub receive_all-send_all :
    (compress : Bool) (width : ℕ) (vs : List ℕ)
    → FitAll width vs
    → map (λ r. r % 2 ^ width) (receive_all compress width (send_all compress width vs))
      ≡ (if compress && ltb 8 width && leb width 16 then first_half vs else vs)
unfolding receive_all send_all
receive_all-send_all false width vs h = map-mod_self width vs h
receive_all-send_all true width vs h = ground (
  arith,
  map-mod_self width vs h,
  mod-map_bool width vs h,
  mod-map8 width vs h,
  by16,
  mod-map32 width vs h,
)
  where
    by16 :
        width ≤ 16
        → (let wire = take (length vs) (halves (map (narrow 32) vs)) in
            let ints = join_halves wire in
            map
              (λ r. r % 2 ^ width)
              (map (extend 32) (ints ++ replicate (length wire - length ints) 0)))
          ≡ first_half vs
    by16 e =
        ap (map (λ r. r % 2 ^ width)) (receive-half vs (FitAll-up width vs e h))
        ∙ map-mod_self width (first_half vs) (FitAll-first_half width vs h)
