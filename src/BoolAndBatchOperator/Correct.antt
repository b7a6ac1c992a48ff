-- ===== src/BoolAndBatchOperator/Correct.antt =====
-- The operator returns shares of the conjunctions, whatever place it takes its triples from.
use mathlib.Core.Path.{subst}
use Prim.Native.Nat.{◌∣◌}
use native.Mathlib.Nat.{
  mod-lt, le_of_dvd, dvd_of_mod-eq-zero, dvd-sub, dvd-mod_iff, dvd-mul_left, mul-le-mul_right,
}
use mpc_package.Base.{ℕ, suc, ◌+◌, ◌-◌, ◌*◌, ◌/◌, ◌%◌, ◌≤◌, ◌<◌, ◌≡◌, ap}
use mpc_package.Base.{arith, Option, none, some, List, get_or}
use mpc_package.Base.{true, false, ltb, if◌then◌else◌, Bool-cases, inl, inr}
use mpc_package.Prog.Runs.{Runs, Runs-bind, Runs-ret, Runs-weaken}
use mpc_package.Bmt.{Bmt, Env, BmtMethod, background, jit, fixed, pipeline}
use mpc_package.Bmt.Triples.{XorTriple, XorTriple-down}
use mpc_package.BitwiseBmtBatchGenerator.{word_count}
use mpc_package.BitwiseBmtBatchGenerator.Correct.{XorTriples, execute-XorTriples}
use mpc_package.BoolAndBatchOperator.{prepare_bmts, bmt_at, extract_from, execute}
use mpc_package.BoolAndBatchOperator.Extract.{extract_from-XorTriple, get-XorTriple}
use mpc_package.BoolAndBatchOperator.Entry.{BatchShares, AndShares, and_all-Runs}

-- The words that hold the triples of `n` conjunctions.
abbrev pub words_for : ℕ → ℕ → ℕ
words_for n width = (n * width + 63) / 64

abbrev pub GivenOr : ℕ → ℕ → List Bmt → List Bmt → Option (List Bmt) → Option (List Bmt) → Type 0
GivenOr width n p0 p1 (some b0) (some b1) = XorTriples (words_for n width) b0 b1
GivenOr width n p0 p1 none none = XorTriples (words_for n width) p0 p1
GivenOr width n p0 p1 _ _ = ⊥

-- Both servers take their triples from the same place, and it holds enough of them. A generator that
-- runs at once needs no assumption.
abbrev pub BatchSupply :
    ℕ
    → ℕ
    → Env
    → Env
    → BmtMethod
    → BmtMethod
    → List Bmt
    → List Bmt
    → Option (List Bmt)
    → Option (List Bmt)
    → Type 0
BatchSupply width n e0 e1 fixed fixed p0 p1 g0 g1 =
    XorTriple width e0.fixed_bitwise_bmt e1.fixed_bitwise_bmt
BatchSupply width n e0 e1 background background p0 p1 g0 g1 = GivenOr width n p0 p1 g0 g1
BatchSupply width n e0 e1 pipeline pipeline p0 p1 g0 g1 = GivenOr width n p0 p1 g0 g1
BatchSupply width n e0 e1 jit jit p0 p1 (some b0) (some b1) = XorTriples (words_for n width) b0 b1
BatchSupply width n e0 e1 jit jit p0 p1 none none = Unit
BatchSupply width n e0 e1 _ _ p0 p1 _ _ = ⊥

-- The triples of conjunctions below `n`, wherever they are.
abbrev pub AreTriplesAt : ℕ → ℕ → (ℕ → Bmt) → (ℕ → Bmt) → Type 0
AreTriplesAt width n m0 m1 = (i : ℕ) → i < n → XorTriple width (m0 i) (m1 i)

-- If the width divides 64, no conjunction straddles two words.
fits_word : (i width : ℕ) → 0 < width → 64 % width ≡ 0 → i * width % 64 + width ≤ 64
fits_word i width pos h =
    room (i * width % 64) (mod-lt (i * width) (omega arith))
      (le_of_dvd (left (i * width % 64) (mod-lt (i * width) (omega arith))) rest)
  where
    divides : width ∣ 64
    divides = dvd_of_mod-eq-zero width h

    rest : width ∣ 64 - i * width % 64
    rest = dvd-sub width divides ((dvd-mod_iff width divides).1 (dvd-mul_left width i))

    left : (r : ℕ) → r < 64 → 0 < 64 - r
    left r p = omega arith

    room : (r : ℕ) → r < 64 → width ≤ 64 - r → r + width ≤ 64
    room r p q = omega arith

index_lt : (i n width : ℕ) → 0 < width → i < n → i * width / 64 < words_for n width
index_lt i n width pos lt =
    go (i * width) (n * width) (omega (arith, mul-le-mul_right {m = suc i} {n = n} width lt))
  where
    go : (p t : ℕ) → p + width ≤ t → p / 64 < (t + 63) / 64
    go p t h = omega arith

module _ {width : ℕ} (pos : 0 < width) (le : width ≤ 64) (divides : 64 % width ≡ 0) where
  -- The triples in a batch of words.
  packed-AreTriplesAt :
      (n : ℕ) (b0 b1 : List Bmt)
      → XorTriples (words_for n width) b0 b1
      → (i : ℕ) → i < n
      → XorTriple width
          (if ltb width 64
            then extract_from b0 i width
            else get_or b0 i (record { a = 0; b = 0; c = 0 }))
          (if ltb width 64
            then extract_from b1 i width
            else get_or b1 i (record { a = 0; b = 0; c = 0 }))
  packed-AreTriplesAt n b0 b1 h i lt = elim (Bool-cases (ltb width 64)) [
    | inl e ↦ rw e (
        extract_from-XorTriple i width (below width e) (fits_word i width pos divides)
          (index_lt i n width pos lt) h)
    | inr e ↦ rw e (XorTriple-down le (get-XorTriple i h (whole i n width lt (above width le e))))
  ]
    where
      below : (w : ℕ) → ltb w 64 ≡ true → w < 64
      below w e = ground arith

      above : (w : ℕ) → w ≤ 64 → ltb w 64 ≡ false → w ≡ 64
      above w h e = ground arith

      whole : (i n w : ℕ) → i < n → w ≡ 64 → i < words_for n w
      whole i n w lt e = rw e (omega arith)

  pub prepare_bmts-Runs :
      (n : ℕ) (env0 env1 : Env) (m0 m1 : BmtMethod) (p0 p1 : List Bmt) (g0 g1 : Option (List Bmt))
      → BatchSupply width n env0 env1 m0 m1 p0 p1 g0 g1
      → Runs
          (prepare_bmts m0 0 n width p0 g0)
          (prepare_bmts m1 1 n width p1 g1)
          (λ b0 b1. AreTriplesAt width n (bmt_at env0 m0 width b0) (bmt_at env1 m1 width b1))
  unfolding prepare_bmts bmt_at word_count
  prepare_bmts-Runs n env0 env1 fixed fixed p0 p1 none none h = Runs-ret _ _ λ i lt. h
  prepare_bmts-Runs n env0 env1 fixed fixed p0 p1 none (some _) h = Runs-ret _ _ λ i lt. h
  prepare_bmts-Runs n env0 env1 fixed fixed p0 p1 (some _) none h = Runs-ret _ _ λ i lt. h
  prepare_bmts-Runs n env0 env1 fixed fixed p0 p1 (some _) (some _) h = Runs-ret _ _ λ i lt. h
  prepare_bmts-Runs n env0 env1 background background p0 p1 (some b0) (some b1) h =
      Runs-ret _ _ (packed-AreTriplesAt n b0 b1 h)
  prepare_bmts-Runs n env0 env1 background background p0 p1 none none h =
      Runs-ret _ _ (packed-AreTriplesAt n p0 p1 h)
  prepare_bmts-Runs n env0 env1 pipeline pipeline p0 p1 (some b0) (some b1) h =
      Runs-ret _ _ (packed-AreTriplesAt n b0 b1 h)
  prepare_bmts-Runs n env0 env1 pipeline pipeline p0 p1 none none h =
      Runs-ret _ _ (packed-AreTriplesAt n p0 p1 h)
  prepare_bmts-Runs n env0 env1 jit jit p0 p1 (some b0) (some b1) h =
      Runs-ret _ _ (packed-AreTriplesAt n b0 b1 h)
  prepare_bmts-Runs n env0 env1 jit jit p0 p1 none none h = elim (Bool-cases (ltb 64 (n * width))) [
    | inl e ↦ rw e (
        Runs-weaken (execute-XorTriples ((n * width + 63) / 64) 64) λ b0 b1 t.
          packed-AreTriplesAt n b0 b1
            (subst (λ c. XorTriples c b0 b1) (whole ((n * width + 63) / 64)) t))
    | inr e ↦ rw e (
        Runs-weaken (execute-XorTriples 1 (n * width)) λ b0 b1 t.
          packed-AreTriplesAt n b0 b1 (subst (λ c. XorTriples c b0 b1) (once (n * width)) t))
  ]
    where
      whole : (c : ℕ) → word_count c 64 ≡ c
      whole c = omega arith

      once : (t : ℕ) → word_count 1 t ≡ (t + 63) / 64
      once t = ap (λ v. (v + 63) / 64) (one_times t)
        where
          one_times : (t : ℕ) → 1 * t ≡ t
          one_times t = omega arith
  prepare_bmts-Runs n env0 env1 _ _ p0 p1 _ _ h = absurd h

  -- On two batches of Boolean shares, in every width that divides 64, and if both servers take
  -- their triples from the same place and what is given or stored there are triples, enough of
  -- them, both servers end, and what they return are, entry by entry, shares of the conjunctions.
  pub and_batch-AndShares :
      {n : ℕ} (env0 env1 : Env) (p0 p1 : List Bmt) (g0 g1 : Option (List Bmt))
      {xs0 xs1 xs ys0 ys1 ys : List ℕ}
      → BatchSupply width n env0 env1 env0.method env1.method p0 p1 g0 g1
      → BatchShares width n xs0 xs1 xs
      → BatchShares width n ys0 ys1 ys
      → Runs
          (execute env0 0 width p0 g0 xs0 ys0)
          (execute env1 1 width p1 g1 xs1 ys1)
          (AndShares width n xs ys)
  unfolding execute
  and_batch-AndShares {n} env0 env1 p0 p1 g0 g1 supply sx sy =
      rw (sx.length0, sx.length1)
        (Runs-bind (prepare_bmts-Runs n env0 env1 env0.method env1.method p0 p1 g0 g1 supply)
          λ b0 b1 t. and_all-Runs le _ _ t sx sy)
