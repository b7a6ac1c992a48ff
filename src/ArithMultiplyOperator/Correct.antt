-- ===== src/ArithMultiplyOperator/Correct.antt =====
-- The operator returns shares of the product.
use mpc_package.Base.{ℕ, ◌+◌, ◌*◌, ◌≤◌, ◌≡◌, Option, none, some, arith}
use mpc_package.Word.{IsWord, add, sub, mul}
use mpc_package.Word.Cong.{Cong, Cong-refl, Cong-of_eq, Cong-symm, ◌∙c◌, Cong-add, Cong-mul}
use mpc_package.Word.Cong.{add-Cong, sub-Cong, mul-Cong}
use mpc_package.Math.{ring}
use mpc_package.Math.Ring.{ring-IsWord, ring-Cong}
use mpc_package.Shares.Sum.{SumShares, add-IsWord, sub-IsWord}
use mpc_package.Prog.Runs.{Runs, Runs-bind, Runs-ret, Runs-exchange, Runs-weaken}
use mpc_package.Bmt.{Bmt, Env, BmtMethod, background, jit, fixed, pipeline}
use mpc_package.Bmt.Triples.{SumTriple}
use mpc_package.BmtGenerator.Correct.{execute-SumTriple}
use mpc_package.ArithMultiplyOperator.{obtain, product_share, masked_product, execute}

-- The servers' supplies: only the queues of the background mode need an assumption.
abbrev pub SuppliedBy : ℕ → Env → Env → BmtMethod → BmtMethod → Option Bmt → Option Bmt → Type 0
SuppliedBy w e0 e1 m0 m1 (some s0) (some s1) = SumTriple w s0 s1
SuppliedBy w e0 e1 background background none none = SumTriple w e0.polled_bmt e1.polled_bmt
SuppliedBy w e0 e1 jit jit none none = Unit
SuppliedBy w e0 e1 fixed fixed none none = Unit
SuppliedBy w e0 e1 pipeline pipeline none none = Unit
SuppliedBy w e0 e1 _ _ _ _ = ⊥

abbrev pub ProductSupply : ℕ → Env → Env → Option Bmt → Option Bmt → Type 0
ProductSupply w e0 e1 given0 given1 = SuppliedBy w e0 e1 e0.method e1.method given0 given1

-- The shares of `c` add up to `d` more than the product of `a` and `b`.
pub record IsOff (w d : ℕ) (t0 t1 : Bmt) : Type 0 where
  pub product : Cong w (t0.c + t1.c) ((t0.a + t1.a) * (t0.b + t1.b) + d)

pub SumTriple-IsOff : {w : ℕ} {t0 t1 : Bmt} → SumTriple w t0 t1 → IsOff w 0 t0 t1
SumTriple-IsOff t = record { product = t.product ∙c Cong-of_eq (omega arith) }

module _ {w : ℕ} (le : w ≤ 64) where
  product_share-Cong :
      (rank e f : ℕ) (t : Bmt)
      → Cong w (product_share rank w t e f) (rank * e * f + f * t.a + e * t.b + t.c)
  unfolding product_share
  product_share-Cong rank e f t =
      ring-Cong _ w (add-IsWord _ t.c) le
      ∙c add-Cong le _ t.c
      ∙c Cong-add
          (add-Cong le _ (mul e t.b)
            ∙c Cong-add
                (add-Cong le _ (mul f t.a)
                  ∙c Cong-add
                      (mul-Cong le (mul rank e) f ∙c Cong-mul (mul-Cong le rank e) Cong-refl)
                      (mul-Cong le f t.a))
                (mul-Cong le e t.b))
          Cong-refl

  product_share-IsWord : (rank e f : ℕ) (t : Bmt) → IsWord (product_share rank w t e f)
  unfolding product_share
  product_share-IsWord rank e f t = ring-IsWord _ w (add-IsWord _ t.c) le

  -- What a server sees of an operand: the operand less the triple's mask.
  opened :
      (x0 x1 a0 a1 x : ℕ)
      → Cong w (x0 + x1) x
      → Cong w (ring (add (ring (sub x0 a0) w) (ring (sub x1 a1) w)) w + (a0 + a1)) x
  opened x0 x1 a0 a1 x h =
      Cong-add (ring-Cong _ w (add-IsWord _ _) le) Cong-refl
      ∙c Cong-add (add-Cong le (ring (sub x0 a0) w) (ring (sub x1 a1) w)) Cong-refl
      ∙c Cong-add
          (Cong-add (ring-Cong _ w (sub-IsWord x0 a0) le) (ring-Cong _ w (sub-IsWord x1 a1) le))
          Cong-refl
      ∙c Cong-of_eq (regroup (sub x0 a0) (sub x1 a1) a0 a1)
      ∙c Cong-add (sub-Cong le x0 a0) (sub-Cong le x1 a1)
      ∙c h
    where
      regroup : (d0 d1 a0 a1 : ℕ) → d0 + d1 + (a0 + a1) ≡ d0 + a0 + (d1 + a1)
      regroup d0 d1 a0 a1 = omega arith

  -- Beaver's identity: with `e = x - a` and `f = y - b` the shares add up to `x * y`, and to `d`
  -- more where `c` is `d` more than the product of `a` and `b`.
  beaver :
      (x y a0 a1 b0 b1 c0 c1 d e0 f0 e1 f1 : ℕ)
      → Cong w (c0 + c1) ((a0 + a1) * (b0 + b1) + d)
      → Cong w (e0 + (a0 + a1)) x
      → Cong w (f0 + (b0 + b1)) y
      → Cong w e1 e0
      → Cong w f1 f0
      → Cong w
          (0 * e0 * f0 + f0 * a0 + e0 * b0 + c0 + (1 * e1 * f1 + f1 * a1 + e1 * b1 + c1))
          (x * y + d)
  beaver x y a0 a1 b0 b1 c0 c1 d e0 f0 e1 f1 c e f e' f' =
      Cong-add Cong-refl (
        Cong-add
          (Cong-add (Cong-add (Cong-mul (Cong-mul Cong-refl e') f') (Cong-mul f' Cong-refl))
            (Cong-mul e' Cong-refl))
          Cong-refl)
      ∙c Cong-of_eq (collect e0 f0 a0 a1 b0 b1 c0 c1)
      ∙c Cong-add Cong-refl c
      ∙c Cong-of_eq (factor e0 f0 (a0 + a1) (b0 + b1) d)
      ∙c Cong-add (Cong-mul e f) Cong-refl
    where
      collect :
          (e f a0 a1 b0 b1 c0 c1 : ℕ)
          → 0 * e * f + f * a0 + e * b0 + c0 + (1 * e * f + f * a1 + e * b1 + c1)
            ≡ e * f + f * (a0 + a1) + e * (b0 + b1) + (c0 + c1)
      collect e f a0 a1 b0 b1 c0 c1 = omega arith

      factor : (e f a b d : ℕ) → e * f + f * a + e * b + (a * b + d) ≡ (e + a) * (f + b) + d
      factor e f a b d = omega arith

  swapped : (m n : ℕ) → Cong w (ring (add m n) w) (ring (add n m) w)
  swapped m n =
      ring-Cong _ w (add-IsWord m n) le
      ∙c add-Cong le m n
      ∙c Cong-of_eq (comm m n)
      ∙c Cong-symm (add-Cong le n m)
      ∙c Cong-symm (ring-Cong _ w (add-IsWord n m) le)
    where
      comm : (m n : ℕ) → m + n ≡ n + m
      comm m n = omega arith

  -- The operand of one server, masked.
  abbrev pub masked : ℕ → ℕ → ℕ
  masked x a = ring (sub x a) w

  -- What the servers make of each other's masked operands.
  pub product_share-IsOff :
      {t0 t1 : Bmt} (d x0 x1 y0 y1 x y : ℕ)
      → IsOff w d t0 t1
      → Cong w (x0 + x1) x
      → Cong w (y0 + y1) y
      → SumShares w
          (product_share 0 w t0
            (ring (add (masked x0 t0.a) (masked x1 t1.a)) w)
            (ring (add (masked y0 t0.b) (masked y1 t1.b)) w))
          (product_share 1 w t1
            (ring (add (masked x1 t1.a) (masked x0 t0.a)) w)
            (ring (add (masked y1 t1.b) (masked y0 t0.b)) w))
          (x * y + d)
  product_share-IsOff {t0} {t1} d x0 x1 y0 y1 x y t sx sy = record {
    word0 = product_share-IsWord 0 _ _ t0;
    word1 = product_share-IsWord 1 _ _ t1;
    total =
        Cong-add (product_share-Cong 0 _ _ t0) (product_share-Cong 1 _ _ t1)
        ∙c beaver x y t0.a t1.a t0.b t1.b t0.c t1.c d _ _ _ _ t.product
            (opened x0 x1 t0.a t1.a x sx) (opened y0 y1 t0.b t1.b y sy)
            (swapped (ring (sub x1 t1.a) w) (ring (sub x0 t0.a) w))
            (swapped (ring (sub y1 t1.b) w) (ring (sub y0 t0.b) w));
  }

  SumShares-exact :
      {z0 z1 : ℕ} (x y : ℕ) → SumShares w z0 z1 (x * y + 0) → SumShares w z0 z1 (x * y)
  SumShares-exact x y s = record {
    word0 = s.word0;
    word1 = s.word1;
    total = s.total ∙c Cong-of_eq (omega arith);
  }

  pub product_share-SumShares :
      {t0 t1 : Bmt} (x0 x1 y0 y1 x y : ℕ)
      → SumTriple w t0 t1
      → Cong w (x0 + x1) x
      → Cong w (y0 + y1) y
      → SumShares w
          (product_share 0 w t0
            (ring (add (masked x0 t0.a) (masked x1 t1.a)) w)
            (ring (add (masked y0 t0.b) (masked y1 t1.b)) w))
          (product_share 1 w t1
            (ring (add (masked x1 t1.a) (masked x0 t0.a)) w)
            (ring (add (masked y1 t1.b) (masked y0 t0.b)) w))
          (x * y)
  product_share-SumShares x0 x1 y0 y1 x y t sx sy =
      SumShares-exact x y (product_share-IsOff 0 x0 x1 y0 y1 x y (SumTriple-IsOff t) sx sy)

  masked_product-IsOff :
      {t0 t1 : Bmt} (d x0 x1 y0 y1 x y : ℕ)
      → IsOff w d t0 t1
      → Cong w (x0 + x1) x
      → Cong w (y0 + y1) y
      → Runs
          (masked_product 0 w x0 y0 t0)
          (masked_product 1 w x1 y1 t1)
          (λ z0 z1. SumShares w z0 z1 (x * y + d))
  unfolding masked_product
  masked_product-IsOff d x0 x1 y0 y1 x y t sx sy =
      Runs-exchange _ _ (Runs-ret _ _ (product_share-IsOff d x0 x1 y0 y1 x y t sx sy))

  masked_product-SumShares :
      {t0 t1 : Bmt} (x0 x1 y0 y1 x y : ℕ)
      → SumTriple w t0 t1
      → Cong w (x0 + x1) x
      → Cong w (y0 + y1) y
      → Runs
          (masked_product 0 w x0 y0 t0)
          (masked_product 1 w x1 y1 t1)
          (λ z0 z1. SumShares w z0 z1 (x * y))
  masked_product-SumShares x0 x1 y0 y1 x y t sx sy =
      Runs-weaken (masked_product-IsOff 0 x0 x1 y0 y1 x y (SumTriple-IsOff t) sx sy)
        (λ z0 z1 s. SumShares-exact x y s)

  -- With given triples whose `c` is `d` more than the product, the result is `d` more too.
  pub multiply-IsOff :
      (env0 env1 : Env) {t0 t1 : Bmt} (d x0 x1 y0 y1 x y : ℕ)
      → IsOff w d t0 t1
      → Cong w (x0 + x1) x
      → Cong w (y0 + y1) y
      → Runs
          (execute env0 0 w (some t0) x0 y0)
          (execute env1 1 w (some t1) x1 y1)
          (λ z0 z1. SumShares w z0 z1 (x * y + d))
  unfolding execute obtain
  multiply-IsOff env0 env1 d x0 x1 y0 y1 x y t sx sy =
      masked_product-IsOff d x0 x1 y0 y1 x y t sx sy

  obtain-SumTriple :
      (env0 env1 : Env) (m0 m1 : BmtMethod) (given0 given1 : Option Bmt)
      → SuppliedBy w env0 env1 m0 m1 given0 given1
      → Runs (obtain env0 m0 0 w given0) (obtain env1 m1 1 w given1) (SumTriple w)
  unfolding obtain
  obtain-SumTriple env0 env1 m0 m1 (some t0) (some t1) h = Runs-ret t0 t1 h
  obtain-SumTriple env0 env1 background background none none h = Runs-ret _ _ h
  obtain-SumTriple env0 env1 jit jit none none h = execute-SumTriple le
  obtain-SumTriple env0 env1 fixed fixed none none h = execute-SumTriple le
  obtain-SumTriple env0 env1 pipeline pipeline none none h = execute-SumTriple le
  obtain-SumTriple env0 env1 _ _ _ _ h = absurd h

  -- On operands whose shares add up to `x` and `y` modulo 2 ^ width, in every width up to 64, and
  -- if both servers take their triple from the same place and what is given or queued there is a
  -- triple, both servers end, and what they return are arithmetic shares of `x * y`.
  pub multiply-SumShares :
      (env0 env1 : Env) (given0 given1 : Option Bmt) (x0 x1 y0 y1 x y : ℕ)
      → ProductSupply w env0 env1 given0 given1
      → Cong w (x0 + x1) x
      → Cong w (y0 + y1) y
      → Runs
          (execute env0 0 w given0 x0 y0)
          (execute env1 1 w given1 x1 y1)
          (λ z0 z1. SumShares w z0 z1 (x * y))
  unfolding execute
  multiply-SumShares env0 env1 given0 given1 x0 x1 y0 y1 x y supply sx sy =
      Runs-bind (obtain-SumTriple env0 env1 env0.method env1.method given0 given1 supply)
        (λ t0 t1 t. masked_product-SumShares x0 x1 y0 y1 x y t sx sy)
