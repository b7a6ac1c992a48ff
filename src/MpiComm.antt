-- ===== src/MpiComm.antt =====
-- The compressed transfers of `MpiComm` (runtime/comm/src/comm/MpiComm.cpp) and the copies that
-- `MpiRequestWrapper::wait` makes (runtime/comm/src/comm/item/MpiRequestWrapper.cpp). MPI hands over
-- the elements of a message as they were sent; a message is the list of its elements, each as the
-- bit pattern of the datatype that is named.
pub mod Extend
pub mod Halves
pub mod Async
pub mod Sync
use mpc_package.Base.{ℕ, zero, suc, ◌+◌, ◌-◌, ◌*◌, ◌/◌, ◌%◌, ◌^◌, List, [], ◌∷◌, ◌++◌, map}
use mpc_package.Base.{Bool, true, false, Option, none, some, ltb, leb, ◌==◌, if◌then◌else◌}
use mathlib.Core.Option
use mpc_package.Base.{length, take, replicate}

-- `static_cast` to a signed integer of `bits` bits, and back to `int64_t`, which repeats the sign.
unfoldable pub narrow : ℕ → ℕ → ℕ
narrow bits v = v % 2 ^ bits

unfoldable pub extend : ℕ → ℕ → ℕ
extend bits p = if ltb p (2 ^ (bits - 1)) then p else p + (2 ^ 64 - 2 ^ bits)

-- `static_cast<bool>`
unfoldable pub to_bool : ℕ → ℕ
to_bool v = if v == 0 then 0 else 1

-- An array of `int` in memory, as the 16-bit halves that it consists of, low half first, and back.
unfoldable pub halves : List ℕ → List ℕ
halves [] = []
halves (v ∷ vs) = v % 2 ^ 16 ∷ v / 2 ^ 16 ∷ halves vs

unfoldable pub join_halves : List ℕ → List ℕ
join_halves [] = []
join_halves (lo ∷ []) = lo ∷ []
join_halves (lo ∷ hi ∷ rest) = (lo + 2 ^ 16 * hi) ∷ join_halves rest

-- `MpiComm::send_` of an integer.
unfoldable pub send : Bool → ℕ → ℕ → ℕ
unfolding narrow to_bool
send false width source = source
send true width source =
    if width == 1
    then to_bool source
    else if leb width 8
    then narrow 8 source
    else if leb width 16
    then narrow 16 (narrow 32 source)
    else if leb width 32
    then narrow 32 source
    else source

-- `MpiComm::receive_` of an integer. Of the `int` that receives 16 bits the upper half is what the
-- variable held before, `garbage`.
unfoldable pub receive : Bool → ℕ → ℕ → ℕ → ℕ
unfolding extend
receive false width garbage message = message
receive true width garbage message =
    if width == 1
    then message
    else if leb width 8
    then extend 8 message
    else if leb width 16
    then extend 32 (message + 2 ^ 16 * garbage)
    else if leb width 32
    then extend 32 message
    else message

-- `MpiComm::send_` of a vector. For 16 bits it sends as many halves of its array of `int` as there
-- are elements.
unfoldable pub send_all : Bool → ℕ → List ℕ → List ℕ
unfolding narrow to_bool halves
send_all false width source = source
send_all true width source =
    if width == 1
    then map to_bool source
    else if leb width 8
    then map (narrow 8) source
    else if leb width 16
    then take (length source) (halves (map (narrow 32) source))
    else if leb width 32
    then map (narrow 32) source
    else source

-- `MpiComm::receive_` of a vector. For 16 bits it receives into an array of `int`, as long as the
-- message and filled with zeros.
unfoldable pub receive_all : Bool → ℕ → List ℕ → List ℕ
unfolding extend join_halves
receive_all false width message = message
receive_all true width message =
    let ints = join_halves message in
    let temp = ints ++ replicate (length message - length ints) 0 in
    if width == 1
    then message
    else if leb width 8
    then map (extend 8) message
    else if leb width 16
    then map (extend 32) temp
    else if leb width 32
    then map (extend 32) message
    else message

-- `MpiRequestWrapper::Mode`
pub data Mode : Type 0 where
  int1 int8 int16 int32 vec1 vec8 vec16 vec32 no_callback : Mode

-- `MpiComm::sendAsync_` of an integer: how it asks `wait` to clean up, and the message.
unfoldable pub send_async : Bool → ℕ → ℕ → Mode × ℕ
unfolding narrow to_bool
send_async false width source = (no_callback, source)
send_async true width source =
    if width == 1
    then (int1, to_bool source)
    else if leb width 8
    then (int8, narrow 8 source)
    else if leb width 16
    then (int16, narrow 16 source)
    else if leb width 32
    then (int32, narrow 32 source)
    else (no_callback, source)

-- `MpiComm::sendAsync_` of a vector.
unfoldable pub send_all_async : Bool → ℕ → List ℕ → Mode × List ℕ
unfolding narrow to_bool
send_all_async false width source = (no_callback, source)
send_all_async true width source =
    if width == 1
    then (vec1, map to_bool source)
    else if leb width 8
    then (vec8, map (narrow 8) source)
    else if leb width 16
    then (vec16, map (narrow 16) source)
    else if leb width 32
    then (vec32, map (narrow 32) source)
    else (no_callback, source)

-- `MpiComm::receiveAsync_` of an integer: the mode of the receive that it posts, and `none` where
-- it posts none.
unfoldable pub receive_async : Bool → ℕ → Option Mode
receive_async false width = some no_callback
receive_async true width =
    if width == 64
    then some no_callback
    else if width == 1
    then some int1
    else if leb width 8
    then some int8
    else if leb width 16
    then some int16
    else if leb width 32
    then some int32
    else none

-- `MpiComm::receiveAsync_` of a vector.
unfoldable pub receive_all_async : Bool → ℕ → Option Mode
receive_all_async false width = some no_callback
receive_all_async true width =
    if width == 64
    then some no_callback
    else if width == 1
    then some vec1
    else if leb width 8
    then some vec8
    else if leb width 16
    then some vec16
    else if leb width 32
    then some vec32
    else none

-- `MpiRequestWrapper::wait` of a receive: what it writes to `_targetInt`, from the buffer, or
-- what MPI has written to the target itself.
unfoldable pub wait : Mode → ℕ → ℕ
unfolding extend
wait int8 buffer = extend 8 buffer
wait int16 buffer = extend 16 buffer
wait int32 buffer = extend 32 buffer
wait _ buffer = buffer

-- The same for `_targetIntVec`.
unfoldable pub wait_all : Mode → List ℕ → List ℕ
unfolding extend
wait_all vec8 buffer = map (extend 8) buffer
wait_all vec16 buffer = map (extend 16) buffer
wait_all vec32 buffer = map (extend 32) buffer
wait_all _ buffer = buffer

-- A `sendAsync_` that meets a `receiveAsync_` of the same width, and `wait`: what the target holds.
unfoldable pub transfer_async : Bool → ℕ → ℕ → Option ℕ
unfolding send_async receive_async wait
transfer_async compress width source =
    Option.map (λ m. wait m (send_async compress width source).1) (receive_async compress width)

unfoldable pub transfer_all_async : Bool → ℕ → List ℕ → Option (List ℕ)
unfolding send_all_async receive_all_async wait_all
transfer_all_async compress width source =
    Option.map (λ m. wait_all m (send_all_async compress width source).1)
      (receive_all_async compress width)
