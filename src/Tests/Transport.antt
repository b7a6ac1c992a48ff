-- ===== src/Tests/Transport.antt =====
-- The transfers of `MpiComm`, compressed or not.
use mathlib.Core.Option
use mpc_package.Base.{◌%◌, ◌^◌, ◌≡◌, arith, some, none, map, [], ◌∷◌, true, ◌&&◌, ltb, leb}
use mpc_package.Base.{not, ◌==◌, if◌then◌else◌}
use mpc_package.MpiComm.{send_all, receive_all, transfer_all_async}
use mpc_package.MpiComm.Async.{transfer_all_async_lem}
use mpc_package.MpiComm.Sync.{receive_all-send_all}
use mpc_package.MpiComm.Halves.{first_half}

transfer_all_async_lem_example :
    Option.map (map (λ r. r % 2 ^ 8)) (transfer_all_async true 8 (200 ∷ 5 ∷ []))
    ≡ (if true && ltb 32 8 && not (8 == 64) then none else some (200 ∷ 5 ∷ []))
transfer_all_async_lem_example =
    transfer_all_async_lem true 8 (200 ∷ 5 ∷ []) (omega arith) (omega arith, (omega arith, tt))

receive_all-send_all_example :
    map (λ r. r % 2 ^ 12) (receive_all true 12 (send_all true 12 (3000 ∷ 7 ∷ [])))
    ≡ (if true && ltb 8 12 && leb 12 16 then first_half (3000 ∷ 7 ∷ []) else 3000 ∷ 7 ∷ [])
receive_all-send_all_example =
    receive_all-send_all true 12 (3000 ∷ 7 ∷ []) (omega arith, (omega arith, tt))
