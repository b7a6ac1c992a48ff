-- ===== src/BoolEqualOperator/Correct.antt =====
-- The operator returns shares of whether the operands are equal.
use native.Mathlib.Nat.{one-le-pow, mod-lt}
use mathlib.Core.Path.{subst}
use mpc_package.Base.{ℕ, zero, suc, ◌+◌, ◌-◌, ◌%◌, ◌^◌, ◌≤◌, ◌<◌, ◌≡◌, refl, sym, ap, ◌∙◌}
use mpc_package.Base.{arith, Option, Bool, true, false, not, ◌&&◌, xor, ltb-lt, to_int, ◌==◌}
use mpc_package.Base.{Bool-cases, inl, inr}
use mpc_package.Base.{bit, bit_and, bit_xor, bit-mod, bit-bit_xor, bit_xor-lt, bit_ext}
use mpc_package.Word.{IsWord, sar, inv}
use mpc_package.Word.Bits.{bit-sar, sar-IsWord, bit-inv, inv-IsWord}
use mpc_package.Math.Ring.{bit_and_one}
use mpc_package.Prog.{Prog}
use mpc_package.Prog.Runs.{Runs, Runs-bind, Runs-ret, Runs-weaken}
use mpc_package.Bmt.{Bmt, Env}
use mpc_package.Bmt.Triples.{BitwiseSupply}
use mpc_package.Shares.Xor.{XorShares, XorShares-same}
use mpc_package.BoolAndOperator.Correct.{and-XorShares}
use mpc_package.IntermediateDataSupport.{Limits, Support}
use mpc_package.IntermediateDataSupport.Both.{BitwiseInStep}
use mpc_package.BoolEqualOperator.{and_digits, execute}
use mpc_package.BoolEqualOperator.Polls.{Source, Outcome, Outcome-map, given_bmt-Outcome}

-- The lowest `n` digits of `x` and `y` are the same.
abbrev agree : ℕ → ℕ → ℕ → Bool
agree x y zero = true
agree x y (suc n) = agree x y n && not (xor (bit x n) (bit y n))

test-eq : (a b : ℕ) → (a == b) ≡ true → a ≡ b
test-eq a b t = ground arith

agree-same : (x y n : ℕ) → agree x y n ≡ true → (i : ℕ) → i < n → bit x i ≡ bit y i
agree-same x y zero h i lt = absurd (omega arith)
agree-same x y (suc n) h i lt = elim (Bool-cases (i == n)) [
  | inl t ↦ rw (test-eq i n t) (last (agree x y n) (bit x n) (bit y n) h)
  | inr f ↦ agree-same x y n (first (agree x y n) (bit x n) (bit y n) h) i (earlier i n lt f)
]
  where
    earlier : (i n : ℕ) → i < suc n → (i == n) ≡ false → i < n
    earlier i n lt f = ground arith

    last : (a p q : Bool) → (a && not (xor p q)) ≡ true → p ≡ q
    last a p q h = ground arith

    first : (a p q : Bool) → (a && not (xor p q)) ≡ true → a ≡ true
    first a p q h = ground arith

same-agree : (x y n : ℕ) → ((i : ℕ) → i < n → bit x i ≡ bit y i) → agree x y n ≡ true
same-agree x y zero h = refl
same-agree x y (suc n) h =
    rw (same-agree x y n (λ i lt. h i (omega arith)), h n (omega arith)) (equal (bit y n))
  where
    equal : (q : Bool) → (true && not (xor q q)) ≡ true
    equal q = ground arith

agree-eq : (x y n : ℕ) → agree x y n ≡ (x % 2 ^ n == y % 2 ^ n)
agree-eq x y n = elim (Bool-cases (agree x y n)) [
  | inl e ↦ e ∙ sym (equal _ _ (bit_ext n (x % 2 ^ n) (y % 2 ^ n) (below x) (below y) (digits e)))
  | inr ne ↦ elim (Bool-cases (x % 2 ^ n == y % 2 ^ n)) [
    | inl t ↦ absurd (clash (sym ne ∙ same-agree x y n (remainders t)))
    | inr f ↦ ne ∙ sym f
  ]
]
  where
    below : (v : ℕ) → v % 2 ^ n < 2 ^ n
    below v = mod-lt v (one-le-pow n 2 (omega arith))

    shown : (v i : ℕ) → i < n → bit v i ≡ bit (v % 2 ^ n) i
    shown v i lt = sym (bit-mod n i v ∙ ap (λ t. t && bit v i) (ltb-lt i n lt))

    digits : agree x y n ≡ true → (i : ℕ) → i < n → bit (x % 2 ^ n) i ≡ bit (y % 2 ^ n) i
    digits e i lt = sym (shown x i lt) ∙ agree-same x y n e i lt ∙ shown y i lt

    equal : (a b : ℕ) → a ≡ b → (a == b) ≡ true
    equal a b e = ground arith

    remainders : (x % 2 ^ n == y % 2 ^ n) ≡ true → (i : ℕ) → i < n → bit x i ≡ bit y i
    remainders t i lt = shown x i lt ∙ ap (λ v. bit v i) (test-eq _ _ t) ∙ sym (shown y i lt)

    clash : ¬ (false ≡ true)
    clash e = ground arith

-- The lowest digit of a word, `u & 1`.
flag-XorShares :
    (u0 u1 : ℕ) (v : Bool)
    → IsWord u0
    → IsWord u1
    → xor (bit u0 0) (bit u1 0) ≡ v
    → XorShares 1 (bit_and u0 1) (bit_and u1 1) (to_int v)
flag-XorShares u0 u1 v h0 h1 e = record { word0 = small u0 h0; word1 = small u1 h1; digits = only }
  where
    small : (u : ℕ) → IsWord u → IsWord (bit_and u 1)
    small u h = rw (bit_and_one u h) (omega arith)

    low : (u : ℕ) → IsWord u → bit (bit_and u 1) 0 ≡ bit u 0
    low u h = rw (bit_and_one u h) (lowest u)
      where
        lowest : (n : ℕ) → bit (n % 2) 0 ≡ bit n 0
        lowest n = bit-mod 1 0 n

    flag : (v : Bool) → v ≡ bit (to_int v) 0
    flag true = unfold bit in refl
    flag false = unfold bit in refl

    only : (j : ℕ) → j < 1 → xor (bit (bit_and u0 1) j) (bit (bit_and u1 1) j) ≡ bit (to_int v) j
    only zero h = rw (low u0 h0, low u1 h1) (e ∙ flag v)
    only (suc j) h = absurd (omega arith)

-- Server 0 inverts the difference, so that the servers' digits together say whether the operands'
-- digits are the same.
difference :
    {width x0 x1 y0 y1 x y : ℕ} (i : ℕ)
    → i < width
    → width ≤ 64
    → XorShares width x0 x1 x
    → XorShares width y0 y1 y
    → xor (bit (inv (bit_xor x0 y0)) i) (bit (bit_xor x1 y1) i) ≡ not (xor (bit x i) (bit y i))
difference {width} {x0} {x1} {y0} {y1} {x} {y} i lt le sx sy =
    rw (bit-inv (bit_xor x0 y0) i (omega arith), bit-bit_xor i x0 y0, bit-bit_xor i x1 y1)
      (cross (bit x0 i) (bit x1 i) (bit y0 i) (bit y1 i) ∙ rw (sx.digits i lt, sy.digits i lt) refl)
  where
    cross :
        (x0 x1 y0 y1 : Bool) → xor (not (xor x0 y0)) (xor x1 y1) ≡ not (xor (xor x0 x1) (xor y0 y1))
    cross x0 x1 y0 y1 = ground arith

module _ {width : ℕ} (le : width ≤ 64) (env0 env1 : Env) (given0 given1 : Option Bmt)
    (d0 d1 x y : ℕ) (supply : BitwiseSupply 1 env0 env1 given0 given1) (h0 : IsWord d0)
    (h1 : IsWord d1)
    (digits : (i : ℕ) → i < width → xor (bit d0 i) (bit d1 i) ≡ not (xor (bit x i) (bit y i))) where
  and_digits-Runs :
      (left i z0 z1 : ℕ)
      → i + left + 1 ≡ width
      → XorShares 1 z0 z1 (to_int (agree x y (suc i)))
      → Runs
          (and_digits env0 0 given0 d0 i left z0)
          (and_digits env1 1 given1 d1 i left z1)
          (λ r0 r1. XorShares 1 r0 r1 (to_int (agree x y width)))
  unfolding and_digits
  and_digits-Runs zero i z0 z1 e s =
      Runs-ret z0 z1 (subst (λ t. XorShares 1 z0 z1 (to_int (agree x y t))) (end i width e) s)
    where
      end : (i w : ℕ) → i + 0 + 1 ≡ w → suc i ≡ w
      end i w e = omega arith
  and_digits-Runs (suc left) i z0 z1 e s =
      Runs-bind
        (and-XorShares (omega arith) env0 env1 given0 given1 _ _ _ _ _ _ supply s (
          flag-XorShares (sar d0 (i + 1)) (sar d1 (i + 1))
            (not (xor (bit x (suc i)) (bit y (suc i)))) (sar-IsWord d0 (i + 1) h0)
            (sar-IsWord d1 (i + 1) h1)
            (rw (moved d0 h0, moved d1 h1) (digits (suc i) (omega arith)))))
        λ r0 r1 r. and_digits-Runs left (i + 1) r0 r1 (omega arith) (
          subst (λ t. XorShares 1 r0 r1 (to_int (agree x y t))) (plus_one i)
            (XorShares-same _ (λ j lt. joined (agree x y (suc i)) _ j) r))
    where
      plus_one : (i : ℕ) → suc (suc i) ≡ suc (i + 1)
      plus_one i = omega arith

      short : (i : ℕ) → 0 + (i + 1) ≡ suc i
      short i = omega arith

      moved : (d : ℕ) → IsWord d → bit (sar d (i + 1)) 0 ≡ bit d (suc i)
      moved d h = bit-sar d (i + 1) 0 h (omega arith) ∙ ap (λ t. bit d t) (short i)

      joined :
          (a b : Bool) (j : ℕ) → bit (bit_and (to_int a) (to_int b)) j ≡ bit (to_int (a && b)) j
      joined true true j = refl
      joined true false j = refl
      joined false true j = refl
      joined false false j = refl

-- The loop from the start, on triples of one digit.
start-Runs :
    {width : ℕ} (env0 env1 : Env) (b0 b1 : Option Bmt) (x0 x1 y0 y1 x y : ℕ)
    → 0 < width
    → width ≤ 64
    → BitwiseSupply 1 env0 env1 b0 b1
    → XorShares width x0 x1 x
    → XorShares width y0 y1 y
    → Runs
        (and_digits env0 0 b0 (inv (bit_xor x0 y0)) 0 (width - 1) (bit_and (inv (bit_xor x0 y0)) 1))
        (and_digits env1 1 b1 (bit_xor x1 y1) 0 (width - 1) (bit_and (bit_xor x1 y1) 1))
        (λ z0 z1. XorShares 1 z0 z1 (to_int (x % 2 ^ width == y % 2 ^ width)))
start-Runs {width} env0 env1 b0 b1 x0 x1 y0 y1 x y pos le supply sx sy =
    Runs-weaken
      (and_digits-Runs le env0 env1 b0 b1 (inv (bit_xor x0 y0)) (bit_xor x1 y1) x y supply word0
        word1 digits (width - 1) 0 _ _ (whole width pos)
        (flag-XorShares (inv (bit_xor x0 y0)) (bit_xor x1 y1) (agree x y 1) word0 word1
          (digits 0 pos ∙ refl)))
      (λ z0 z1 s. subst (λ t. XorShares 1 z0 z1 (to_int t)) (agree-eq x y width) s)
  where
    word0 : IsWord (inv (bit_xor x0 y0))
    word0 = inv-IsWord (bit_xor x0 y0) (bit_xor-lt 64 x0 y0 sx.word0 sy.word0)

    word1 : IsWord (bit_xor x1 y1)
    word1 = bit_xor-lt 64 x1 y1 sx.word1 sy.word1

    digits :
        (i : ℕ)
        → i < width
        → xor (bit (inv (bit_xor x0 y0)) i) (bit (bit_xor x1 y1) i) ≡ not (xor (bit x i) (bit y i))
    digits i lt = difference i lt le sx sy

    whole : (w : ℕ) → 0 < w → 0 + (w - 1) + 1 ≡ w
    whole w p = omega arith

-- Two programs that end with shares of whether `x` and `y` are the same.
abbrev pub SayEqual : ℕ → ℕ → ℕ → Prog ℕ → Prog ℕ → Type 0
SayEqual width x y p0 p1 =
    Runs p0 p1 (λ z0 z1. XorShares 1 z0 z1 (to_int (x % 2 ^ width == y % 2 ^ width)))

-- On Boolean shares of `x` and `y`, in every width from 1 to 64, with supplies in step that hold
-- Boolean triples and a usage limit above 0: if both servers are given a triple of one digit, or
-- neither is and the method of both is background or pipeline, both end, what they return are
-- shares of one digit, namely whether `x` and `y` are the same modulo 2 ^ width, and the supplies
-- stay in step. If neither is given one and the method of both is JIT or fixed, with no triple
-- polled before, both read beyond the end of the empty vector of queues.
pub equal-XorShares :
    {width : ℕ} (conf : Limits) (env0 env1 : Env) (given0 given1 : Option Bmt) (s0 s1 : Support)
    (x0 x1 y0 y1 x y : ℕ)
    → 0 < conf.usage_limit
    → 0 < width
    → width ≤ 64
    → Source env0.method env1.method given0 given1 s0 s1
    → BitwiseInStep s0 s1
    → XorShares width x0 x1 x
    → XorShares width y0 y1 y
    → Outcome env0.method given0
        (SayEqual width x y)
        (execute conf env0 0 width given0 x0 y0 s0)
        (execute conf env1 1 width given1 x1 y1 s1)
unfolding execute
equal-XorShares {width} conf env0 env1 given0 given1 s0 s1 x0 x1 y0 y1 x y some_use pos le source
      step sx sy =
    Outcome-map (BitwiseSupply 1 env0 env1) (SayEqual width x y) _ _
      (λ b0 b1 supply. start-Runs env0 env1 b0 b1 x0 x1 y0 y1 x y pos le supply sx sy) env0.method
      given0 _ _
      (given_bmt-Outcome conf width some_use le env0 env1 env0.method env1.method given0 given1 s0
        s1 source step)
