-- ===== src/BoolAndOperator/Correct.antt =====
-- The operator returns shares of the conjunction.
use native.Mathlib.Nat.{one-le-pow}
use mpc_package.Base.{ℕ, ◌^◌, ◌≤◌, ◌<◌, ◌≡◌, refl, ◌∙◌, Option, none, some, arith}
use mpc_package.Base.{Bool, true, false, ◌&&◌, bit, xor, ltb-lt, bit_and, bit_xor, bit-bit_and}
use mpc_package.Base.{bit-bit_xor, bit_xor-lt, bit_and-lt, bit-ones, bit-zero, if◌then◌else◌, ◌==◌}
use mpc_package.Word.{IsWord, ones}
use mpc_package.Math.{ring}
use mpc_package.Math.Ring.{ring-IsWord, ring-lt, bit-ring}
use mpc_package.Prog.Runs.{Runs, Runs-bind, Runs-ret, Runs-exchange}
use mpc_package.Bmt.{Bmt, Env, BmtMethod, background, jit, fixed, pipeline}
use mpc_package.Bmt.Triples.{XorTriple, AreWordsOf, BitwiseSupply, SuppliedBy}
use mpc_package.BitwiseBmtGenerator.Correct.{execute-XorTriple}
use mpc_package.Shares.Xor.{XorShares, XorShares-symm}
use mpc_package.BoolAndOperator.{obtain, and_share, masked_and, execute}

xor_comm : (a b : Bool) → xor a b ≡ xor b a
xor_comm a b = ground arith

-- Beaver's identity on one digit.
beaver :
    (x y a b : Bool)
    → (let e = xor x a in
        let f = xor y b in xor (xor (xor (e && f) (f && a)) (e && b)) (a && b) ≡ (x && y))
beaver x y a b = ground arith

-- The two servers' shares together, with the conjunction of `e` and `f` counted once.
both_shares :
    (e f a0 a1 b0 b1 c0 c1 : Bool)
    → xor
        (xor (xor (xor false (f && a0)) (e && b0)) c0)
        (xor (xor (xor (e && f) (f && a1)) (e && b1)) c1)
      ≡ xor (xor (xor (e && f) (f && xor a0 a1)) (e && xor b0 b1)) (xor c0 c1)
both_shares true true a0 a1 b0 b1 c0 c1 = ground arith
both_shares true false a0 a1 b0 b1 c0 c1 = ground arith
both_shares false true a0 a1 b0 b1 c0 c1 = ground arith
both_shares false false a0 a1 b0 b1 c0 c1 = ground arith

pub bit-and_share0 :
    (width i e f : ℕ) (t : Bmt)
    → bit (and_share 0 width t e f) i
      ≡ xor (xor (xor false (bit f i && bit t.a i)) (bit e i && bit t.b i)) (bit t.c i)
unfolding and_share
bit-and_share0 width i e f t = simp (bit-bit_xor, bit-bit_and, bit-zero)

pub bit-and_share1 :
    (width i e f : ℕ) (t : Bmt)
    → width ≤ 64
    → i < width
    → bit (and_share 1 width t e f) i
      ≡ xor
          (xor (xor (bit e i && bit f i) (bit f i && bit t.a i)) (bit e i && bit t.b i))
          (bit t.c i)
unfolding and_share
bit-and_share1 width i e f t le lt =
    simp (bit-bit_xor, bit-bit_and)
      (rw
        (
          bit-ring ones width (omega arith) le i,
          bit-ones 64 i,
          ltb-lt i width lt,
          ltb-lt i 64 (omega arith),
        )
        refl)

pub and_share-IsWord :
    (rank width e f : ℕ) (t : Bmt)
    → width ≤ 64
    → IsWord e
    → IsWord f
    → AreWordsOf t
    → IsWord (and_share rank width t e f)
unfolding and_share
and_share-IsWord rank width e f t le he hf w =
    bit_xor-lt 64 _ _
      (bit_xor-lt 64 _ _
        (bit_xor-lt 64 _ _ (bit_and-lt 64 _ f (bit_and-lt 64 _ e (extended rank)))
          (bit_and-lt 64 f t.a hf))
        (bit_and-lt 64 e t.b he))
      w.c_word
  where
    choose : (b : Bool) → IsWord (if b then 0 else ring ones width)
    choose true = omega arith
    choose false = ring-IsWord ones width (omega arith) le

    extended : (rank : ℕ) → IsWord (if rank == 0 then 0 else ring ones width)
    extended rank = choose (rank == 0)

pub digit :
    (x y a0 a1 b0 b1 c0 c1 : Bool)
    → xor c0 c1 ≡ (xor a0 a1 && xor b0 b1)
    → (let e = xor x (xor a0 a1) in
        let e' = xor x (xor a1 a0) in
        let f = xor y (xor b0 b1) in
        let f' = xor y (xor b1 b0) in
        xor
          (xor (xor (xor false (f && a0)) (e && b0)) c0)
          (xor (xor (xor (e' && f') (f' && a1)) (e' && b1)) c1)
        ≡ (x && y))
digit x y a0 a1 b0 b1 c0 c1 h =
    rw (xor_comm a1 a0, xor_comm b1 b0)
      (both_shares (xor x (xor a0 a1)) (xor y (xor b0 b1)) a0 a1 b0 b1 c0 c1
        ∙ rw h (beaver x y (xor a0 a1) (xor b0 b1)))

module _ {width : ℕ} (le : width ≤ 64) where
  -- What both servers see of an operand: the operand masked by the triple.
  opened :
      (x0 x1 a0 a1 x i : ℕ)
      → IsWord a0
      → IsWord a1
      → i < width
      → XorShares width x0 x1 x
      → bit (ring (bit_xor (bit_xor (ring x0 width) a0) (bit_xor (ring x1 width) a1)) width) i
        ≡ xor (bit x i) (xor (bit a0 i) (bit a1 i))
  opened x0 x1 a0 a1 x i h0 h1 lt s =
      bit-ring _ width
        (bit_xor-lt 64 _ _ (bit_xor-lt 64 _ a0 (ring-IsWord x0 width s.word0 le) h0)
          (bit_xor-lt 64 _ a1 (ring-IsWord x1 width s.word1 le) h1))
        le i
      ∙ rw
          (
            ltb-lt i width lt,
            bit-bit_xor i (bit_xor (ring x0 width) a0) (bit_xor (ring x1 width) a1),
            bit-bit_xor i (ring x0 width) a0,
            bit-bit_xor i (ring x1 width) a1,
            bit-ring x0 width s.word0 le i,
            bit-ring x1 width s.word1 le i,
            ltb-lt i width lt,
          )
          (regroup (bit x0 i) (bit x1 i) (bit a0 i) (bit a1 i) (bit x i) (s.digits i lt))
    where
      regroup :
          (x0 x1 a0 a1 x : Bool)
          → xor x0 x1 ≡ x
          → (true && xor (xor (true && x0) a0) (xor (true && x1) a1)) ≡ xor x (xor a0 a1)
      regroup x0 x1 a0 a1 x e = ground arith

  opened-IsWord :
      (x0 x1 a0 a1 : ℕ)
      → IsWord x0
      → IsWord x1
      → IsWord a0
      → IsWord a1
      → IsWord (ring (bit_xor (bit_xor (ring x0 width) a0) (bit_xor (ring x1 width) a1)) width)
  opened-IsWord x0 x1 a0 a1 hx0 hx1 h0 h1 =
      ring-IsWord _ width
        (bit_xor-lt 64 _ _ (bit_xor-lt 64 _ a0 (ring-IsWord x0 width hx0 le) h0)
          (bit_xor-lt 64 _ a1 (ring-IsWord x1 width hx1 le) h1))
        le

  -- The exchange and what follows it, on a triple in hand.
  exchange-XorShares :
      {t0 t1 : Bmt} {x0 x1 y0 y1 x y : ℕ}
      → XorTriple width t0 t1
      → XorShares width x0 x1 x
      → XorShares width y0 y1 y
      → Runs
          (masked_and 0 width x0 y0 t0)
          (masked_and 1 width x1 y1 t1)
          (λ z0 z1. XorShares width z0 z1 (bit_and x y))
  unfolding masked_and
  exchange-XorShares {t0} {t1} {x0} {x1} {y0} {y1} {x} {y} t sx sy = Runs-exchange _ _ (
      Runs-ret _ _ (record {
        word0 =
            and_share-IsWord 0 width e0 f0 t0 le
              (opened-IsWord x0 x1 t0.a t1.a sx.word0 sx.word1 t.words0.a_word t.words1.a_word)
              (opened-IsWord y0 y1 t0.b t1.b sy.word0 sy.word1 t.words0.b_word t.words1.b_word)
              t.words0;
        word1 =
            and_share-IsWord 1 width e1 f1 t1 le
              (opened-IsWord x1 x0 t1.a t0.a sx.word1 sx.word0 t.words1.a_word t.words0.a_word)
              (opened-IsWord y1 y0 t1.b t0.b sy.word1 sy.word0 t.words1.b_word t.words0.b_word)
              t.words1;
        digits = λ i lt.
            rw
              (
                bit-and_share0 width i e0 f0 t0,
                bit-and_share1 width i e1 f1 t1 le lt,
                opened x0 x1 t0.a t1.a x i t.words0.a_word t.words1.a_word lt sx,
                opened y0 y1 t0.b t1.b y i t.words0.b_word t.words1.b_word lt sy,
                opened x1 x0 t1.a t0.a x i t.words1.a_word t.words0.a_word lt (XorShares-symm sx),
                opened y1 y0 t1.b t0.b y i t.words1.b_word t.words0.b_word lt (XorShares-symm sy),
                bit-bit_and i x y,
              )
              (digit (bit x i) (bit y i) (bit t0.a i) (bit t1.a i) (bit t0.b i) (bit t1.b i)
                (bit t0.c i) (bit t1.c i) (t.digits i lt));
      }))
    where
      e0 : ℕ
      e0 = ring (bit_xor (bit_xor (ring x0 width) t0.a) (bit_xor (ring x1 width) t1.a)) width

      f0 : ℕ
      f0 = ring (bit_xor (bit_xor (ring y0 width) t0.b) (bit_xor (ring y1 width) t1.b)) width

      e1 : ℕ
      e1 = ring (bit_xor (bit_xor (ring x1 width) t1.a) (bit_xor (ring x0 width) t0.a)) width

      f1 : ℕ
      f1 = ring (bit_xor (bit_xor (ring y1 width) t1.b) (bit_xor (ring y0 width) t0.b)) width

  obtain-XorTriple :
      (env0 env1 : Env) (m0 m1 : BmtMethod) (given0 given1 : Option Bmt)
      → SuppliedBy width env0 env1 m0 m1 given0 given1
      → Runs (obtain env0 m0 0 width given0) (obtain env1 m1 1 width given1) (XorTriple width)
  unfolding obtain
  obtain-XorTriple env0 env1 m0 m1 (some t0) (some t1) h = Runs-ret t0 t1 h
  obtain-XorTriple env0 env1 fixed fixed none none h = Runs-ret _ _ h
  obtain-XorTriple env0 env1 background background none none h = Runs-ret _ _ h
  obtain-XorTriple env0 env1 jit jit none none h = execute-XorTriple le
  obtain-XorTriple env0 env1 pipeline pipeline none none h = execute-XorTriple le
  obtain-XorTriple env0 env1 _ _ _ _ h = absurd h

  -- On Boolean shares of `x` and `y`, in every width up to 64, and if both servers take their
  -- triple from the same place and what is given or stored there is a triple, both servers end, and
  -- what they return are shares of `x & y`.
  pub and-XorShares :
      (env0 env1 : Env) (given0 given1 : Option Bmt) (x0 x1 y0 y1 x y : ℕ)
      → BitwiseSupply width env0 env1 given0 given1
      → XorShares width x0 x1 x
      → XorShares width y0 y1 y
      → Runs
          (execute env0 0 width given0 x0 y0)
          (execute env1 1 width given1 x1 y1)
          (λ z0 z1. XorShares width z0 z1 (bit_and x y))
  unfolding execute
  and-XorShares env0 env1 given0 given1 x0 x1 y0 y1 x y supply sx sy =
      Runs-bind (obtain-XorTriple env0 env1 env0.method env1.method given0 given1 supply)
        (λ t0 t1 t. exchange-XorShares t sx sy)

  -- With a triple cut to the width the results are too.
  and_share-lt :
      (rank e f : ℕ) (t : Bmt)
      → e < 2 ^ width
      → f < 2 ^ width
      → t.c < 2 ^ width
      → and_share rank width t e f < 2 ^ width
  unfolding and_share
  and_share-lt rank e f t he hf hc =
      bit_xor-lt width _ _
        (bit_xor-lt width _ _
          (bit_xor-lt width _ _ (bit_and-lt width _ f (bit_and-lt width _ e (choose (rank == 0))))
            (bit_and-lt width f t.a hf))
          (bit_and-lt width e t.b he))
        hc
    where
      choose : (b : Bool) → (if b then 0 else ring ones width) < 2 ^ width
      choose true = one-le-pow width 2 (omega arith)
      choose false = ring-lt ones width (omega arith) le

  opened-lt :
      (x0 x1 a0 a1 : ℕ)
      → IsWord x0
      → IsWord x1
      → IsWord a0
      → IsWord a1
      → ring (bit_xor (bit_xor (ring x0 width) a0) (bit_xor (ring x1 width) a1)) width < 2 ^ width
  opened-lt x0 x1 a0 a1 hx0 hx1 h0 h1 =
      ring-lt _ width
        (bit_xor-lt 64 _ _ (bit_xor-lt 64 _ a0 (ring-IsWord x0 width hx0 le) h0)
          (bit_xor-lt 64 _ a1 (ring-IsWord x1 width hx1 le) h1))
        le

  pub and-lt :
      (env0 env1 : Env) (t0 t1 : Bmt) (x0 x1 y0 y1 x y : ℕ)
      → XorTriple width t0 t1
      → t0.c < 2 ^ width
      → t1.c < 2 ^ width
      → XorShares width x0 x1 x
      → XorShares width y0 y1 y
      → Runs
          (execute env0 0 width (some t0) x0 y0)
          (execute env1 1 width (some t1) x1 y1)
          (λ z0 z1. (z0 < 2 ^ width) × (z1 < 2 ^ width))
  unfolding execute obtain masked_and
  and-lt env0 env1 t0 t1 x0 x1 y0 y1 x y t h0 h1 sx sy = Runs-exchange _ _ (
      Runs-ret _ _ (
        and_share-lt 0 _ _ t0
            (opened-lt x0 x1 t0.a t1.a sx.word0 sx.word1 t.words0.a_word t.words1.a_word)
            (opened-lt y0 y1 t0.b t1.b sy.word0 sy.word1 t.words0.b_word t.words1.b_word) h0,
        and_share-lt 1 _ _ t1
            (opened-lt x1 x0 t1.a t0.a sx.word1 sx.word0 t.words1.a_word t.words0.a_word)
            (opened-lt y1 y0 t1.b t0.b sy.word1 sy.word0 t.words1.b_word t.words0.b_word) h1,
      ))
