-- ===== src/BoolAndBatchOperator.antt =====
-- `BoolAndBatchOperator` (primitives/src/compute/batch/bool/BoolAndBatchOperator.cpp): the
-- conjunctions of two batches of Boolean shares, with one exchange, and triples that are packed 64
-- bits to a word.
pub mod Extract
pub mod Entries
pub mod Entry
pub mod Correct
pub mod Mutex
use mpc_package.Base.{
  ℕ, zero, suc, ◌+◌, ◌-◌, ◌*◌, ◌/◌, ◌%◌, ◌<◌, List, [], ◌∷◌, ◌++◌, length, get_or,
}
use mpc_package.Base.{Option, none, some, ltb, if◌then◌else◌, bit_and, bit_xor}
use mpc_package.Word.{shl, sar, sub}
use mpc_package.Math.{ring}
use mpc_package.Prog.{Prog, ret, exchange, ◌>>=◌}
use mpc_package.Bmt.{Bmt, Env, BmtMethod, background, jit, fixed, pipeline}
use mpc_package.BitwiseBmtBatchGenerator
use mpc_package.BoolAndOperator.{and_share}

-- A shift of a 64-bit register, which takes the distance modulo 64. The source shifts by more.
unfoldable pub shl_register : ℕ → ℕ → ℕ
shl_register v distance = shl v (distance % 64)

unfoldable pub sar_register : ℕ → ℕ → ℕ
sar_register v distance = sar v (distance % 64)

-- `BitwiseBmt::extract(bmts, i, width)`
unfoldable pub extract_word : ℕ → ℕ → ℕ → ℕ
extract_word v i width =
    let offset = i % 64 * width in
    let mask = sub (shl 1 width) 1 in sar_register (bit_and v (shl_register mask offset)) offset

unfoldable pub extract_from : List Bmt → ℕ → ℕ → Bmt
extract_from bmts i width =
    let idx = i * width / 64 in
    let bmt = get_or bmts idx (record { a = 0; b = 0; c = 0 }) in
    record {
      a = extract_word bmt.a i width;
      b = extract_word bmt.b i width;
      c = extract_word bmt.c i width;
    }

-- `prepareBmts`, on the number of conjunctions and what the queue hands out.
unfoldable pub prepare_bmts : BmtMethod → ℕ → ℕ → ℕ → List Bmt → Option (List Bmt) → Prog (List Bmt)
prepare_bmts method rank num width polled (some bmts) = ret bmts
prepare_bmts background rank num width polled none = ret polled
prepare_bmts pipeline rank num width polled none = ret polled
prepare_bmts fixed rank num width polled none = ret []
prepare_bmts jit rank num width polled none =
    let total_bits = num * width in
    let many = BitwiseBmtBatchGenerator.execute rank ((total_bits + 63) / 64) 64 in
    let few = BitwiseBmtBatchGenerator.execute rank 1 total_bits in
    if ltb 64 total_bits then many else few

-- The triple of conjunction `i`.
unfoldable pub bmt_at : Env → BmtMethod → ℕ → List Bmt → ℕ → Bmt
bmt_at env fixed width bmts i = env.fixed_bitwise_bmt
bmt_at env _ width bmts i =
    if ltb width 64
    then extract_from bmts i width
    else get_or bmts i (record { a = 0; b = 0; c = 0 })

-- Operands from `i` on, masked.
unfoldable pub mask_all : (ℕ → ℕ) → ℕ → List ℕ → List ℕ
mask_all mask i [] = []
mask_all mask i (x ∷ xs) = bit_xor x (mask i) ∷ mask_all mask (suc i) xs

-- `efs[i] = efi[i] ^ efo[i]`
unfoldable pub xor_lists : List ℕ → List ℕ → List ℕ
xor_lists (x ∷ efi) (y ∷ efo) = bit_xor x y ∷ xor_lists efi efo
xor_lists _ _ = []

-- The last loop, from `i` on, with `left` conjunctions to go.
unfoldable pub and_shares : ℕ → ℕ → (ℕ → Bmt) → ℕ → List ℕ → ℕ → ℕ → List ℕ
and_shares rank width bmt num efs i zero = []
and_shares rank width bmt num efs i (suc left) =
    ring (and_share rank width (bmt i) (get_or efs i 0) (get_or efs (num + i) 0)) width
    ∷ and_shares rank width bmt num efs (suc i) left

-- What both variants do with their operands.
unfoldable pub and_all : ℕ → ℕ → (ℕ → Bmt) → List ℕ → List ℕ → Prog (List ℕ)
and_all rank width bmt xs ys =
    let num = length xs in
    let efi = mask_all (λ i. (bmt i).a) 0 xs ++ mask_all (λ i. (bmt i).b) 0 ys in
    exchange efi λ efo. ret (and_shares rank width bmt num (xor_lists efi efo) 0 num)

-- `execute0`
unfoldable pub execute :
    Env → ℕ → ℕ → List Bmt → Option (List Bmt) → List ℕ → List ℕ → Prog (List ℕ)
execute env rank width polled given xis yis = do
  bmts ← prepare_bmts env.method rank (length xis) width polled given
  and_all rank width (bmt_at env env.method width bmts) xis yis

-- `conds[i % condNum]`, from `i` on.
unfoldable pub repeat_conds : List ℕ → ℕ → ℕ → List ℕ
repeat_conds conds i zero = []
repeat_conds conds i (suc left) =
    get_or conds (i % length conds) 0 ∷ repeat_conds conds (suc i) left

-- The conditions of both halves. With the fixed triples the second half starts again.
unfoldable pub conds_for : BmtMethod → List ℕ → ℕ → List ℕ
conds_for fixed conds num = repeat_conds conds 0 num ++ repeat_conds conds 0 num
conds_for _ conds num = repeat_conds conds 0 (num + num)

-- `executeForMutex`: the conjunctions of both operands with the conditions.
unfoldable pub execute_for_mutex :
    Env → ℕ → ℕ → List Bmt → Option (List Bmt) → List ℕ → List ℕ → List ℕ → Prog (List ℕ)
execute_for_mutex env rank width polled given xis yis conds_i = do
  bmts ← prepare_bmts env.method rank (length xis + length xis) width polled given
  and_all rank width (bmt_at env env.method width bmts) (xis ++ yis)
      (conds_for env.method conds_i (length xis))
