-- ===== src/IntermediateDataSupport.antt =====
-- `IntermediateDataSupport` (primitives/src/intermediate/IntermediateDataSupport.cpp): the triples
-- that the queues hand out, each of them several times, and the random transfers of the start.
pub mod Served
pub mod Usage
pub mod Lockstep
pub mod Both
pub mod Polled
pub mod Operators
pub mod Rots
use mpc_package.Base.{
  ℕ, zero, suc, ◌+◌, ◌-◌, ◌*◌, ◌/◌, ◌%◌, ◌^◌, List, [], ◌∷◌, ◌++◌, Option, none, some,
}
use mpc_package.Base.{Bool, true, false, not, ◌||◌, ltb, ◌==◌, if◌then◌else◌, replicate, get_or}
use mpc_package.Math.{ring, rand_int, rand_int_in}
use mpc_package.Prog.{Prog, ret, draw, ot_send, ot_receive, words, ◌>>=◌}
use mpc_package.Bmt.{Bmt, BmtMethod, background, jit, fixed, pipeline}
use mpc_package.RandOt.{SRot, RRot}

-- What each queue hands out, one after another. A poll waits until there is an element.
abbrev pub Queues : Type 0
Queues = ℕ → ℕ → Bmt

-- `_bmtQs[i]->poll()`: the first element, and what is left.
unfoldable pub poll_queue : Queues → ℕ → Bmt × Queues
poll_queue queues i = (queues i 0, λ k n. if k == i then queues k (suc n) else queues k n)

-- The static members for the triples of one kind.
pub record Supply : Type 0 where
  pub queues : Queues
  pub current_q : ℕ
  pub current : Option Bmt
  pub left_times : ℕ

-- `Conf::BMT_QUEUE_NUM` and `Conf::BMT_USAGE_LIMIT`
pub record Limits : Type 0 where
  pub queue_num : ℕ
  pub usage_limit : ℕ

-- As the members are initialised.
unfoldable pub initial : Limits → Queues → Supply
initial conf queues = record {
  queues = queues;
  current_q = 0;
  current = none;
  left_times = conf.usage_limit;
}

unfoldable pub cut : ℕ → Bmt → Bmt
cut width bmt = record { a = ring bmt.a width; b = ring bmt.b width; c = ring bmt.c width }

-- A new current triple. `_currentBmtQ` is unsigned and wraps around.
unfoldable pub refill : Limits → ℕ → Supply → Supply
unfolding poll_queue cut
refill conf width s =
    let (new_bmt, queues') = poll_queue s.queues (s.current_q % conf.queue_num) in
    record {
      queues = queues';
      current_q = (s.current_q + 1) % 2 ^ 32;
      current = some (cut width new_bmt);
      left_times = conf.usage_limit;
    }

-- `_currentBmt == nullptr || left == 0`
unfoldable pub used_up : Option Bmt → ℕ → Bool
used_up none left = true
used_up (some bmt) left = left == 0

-- The triple that a round works with: the current one, or a new one where that is used up.
unfoldable pub fresh : Limits → ℕ → Supply → Supply
unfolding refill used_up
fresh conf width s = if used_up s.current s.left_times then refill conf width s else s

-- `*_currentBmt`
unfoldable pub read : Option Bmt → Bmt
read none = record { a = 0; b = 0; c = 0 }
read (some bmt) = bmt

abbrev pub min : ℕ → ℕ → ℕ
min a b = if ltb b a then b else a

-- The loop of `pollBmts`; `none` means that the fuel ran out. With a usage limit of 0 it never ends.
unfoldable pub poll_loop : ℕ → Limits → ℕ → ℕ → Supply → List Bmt → Option (List Bmt × Supply)
unfolding fresh read
poll_loop zero conf width count s result = none
poll_loop (suc fuel) conf width count s result =
    let s' = fresh conf width s in
    let use_count = min count s'.left_times in
    let next =
      poll_loop fuel conf width (count - use_count)
        (record s' { left_times = s'.left_times - use_count })
        (result ++ replicate use_count (read s'.current)) in
    if ltb 0 count then next else some (result, s)

-- The two kinds of triples.
pub record Support : Type 0 where
  pub bmts : Supply
  pub bitwise_bmts : Supply

-- The result of a loop, with the members that it has changed put back.
abbrev pub give : (Supply → Support) → Option (List Bmt × Supply) → Option (List Bmt × Support)
give put none = none
give put (some (result, supply)) = some (result, put supply)

-- `pollBmts`, at a server. Each round hands out a triple, so `count` rounds and the last test do.
unfoldable pub poll_bmts : Limits → ℕ → ℕ → Support → Option (List Bmt × Support)
unfolding poll_loop
poll_bmts conf count width s =
    give (λ supply. record s { bmts = supply }) (poll_loop (suc count) conf width count s.bmts [])

-- `pollBitwiseBmts`
unfoldable pub poll_bitwise_bmts : Limits → ℕ → ℕ → Support → Option (List Bmt × Support)
unfolding poll_loop
poll_bitwise_bmts conf count width s =
    give (λ supply. record s { bitwise_bmts = supply })
      (poll_loop (suc count) conf width count s.bitwise_bmts [])

-- Does `prepareBmt` make the queues of Boolean triples? Without it `_bitwiseBmtQs` stays empty.
unfoldable pub has_queues : BmtMethod → Bool
has_queues background = true
has_queues pipeline = true
has_queues jit = false
has_queues fixed = false

-- `[0]`
unfoldable pub first : Option (List Bmt × Support) → Option (Bmt × Support)
first (some (bmt ∷ bmts, s)) = some (bmt, s)
first _ = none

-- `pollBitwiseBmts(1, width)[0]`. Where no triple is in use and there are no queues, the poll reads
-- beyond the end of the vector of queues: `none`.
unfoldable pub poll_bitwise_bmt : BmtMethod → Limits → ℕ → Support → Option (Bmt × Support)
unfolding has_queues first used_up poll_bitwise_bmts
poll_bitwise_bmt method conf width s =
    if has_queues method || not (used_up s.bitwise_bmts.current s.bitwise_bmts.left_times)
    then first (poll_bitwise_bmts conf 1 width s)
    else none

-- The poll of `BoolAndBatchOperator::prepareBmts`, for `num` conjunctions.
unfoldable pub poll_for : Limits → ℕ → ℕ → Support → Option (List Bmt × Support)
poll_for conf num width s =
    let total_bits = num * width in
    if ltb 64 total_bits
    then poll_bitwise_bmts conf ((total_bits + 63) / 64) 64 s
    else poll_bitwise_bmts conf 1 total_bits s

-- `_sRot0`, `_sRot1`, `_rRot0` and `_rRot1` of a server.
pub record ServerRots : Type 0 where
  pub s_rot0 : SRot
  pub s_rot1 : SRot
  pub r_rot0 : RRot
  pub r_rot1 : RRot

-- The sender's part of a round of `prepareRot`: two random messages, and `BaseOtOperator`.
unfoldable pub offer_rot : Prog SRot
offer_rot = draw λ r. draw λ s.
    ot_send (words 64) (rand_int r ∷ []) (rand_int s ∷ [])
      (ret (record { r0 = rand_int r; r1 = rand_int s }))

-- The receiver's part, for the choice `b`.
unfoldable pub take_rot : ℕ → Prog RRot
take_rot b =
    ot_receive (words 64) (b ∷ []) λ results. ret (record { b = b; rb = get_or results 0 0 })

-- `prepareRot`: in each round server `i` sends; the second choice is the opposite of the first.
unfoldable pub prepare_rot : ℕ → Prog ServerRots
unfolding offer_rot take_rot
prepare_rot rank =
    if rank == 0
    then (do
      s0 ← offer_rot
      r0 ← draw λ r. take_rot (rand_int_in 0 1 r)
      s1 ← offer_rot
      r1 ← take_rot (1 - r0.b)
      ret (record { s_rot0 = s0; s_rot1 = s1; r_rot0 = r0; r_rot1 = r1 }))
    else (do
      r0 ← draw λ r. take_rot (rand_int_in 0 1 r)
      s0 ← offer_rot
      r1 ← take_rot (1 - r0.b)
      s1 ← offer_rot
      ret (record { s_rot0 = s0; s_rot1 = s1; r_rot0 = r0; r_rot1 = r1 }))
