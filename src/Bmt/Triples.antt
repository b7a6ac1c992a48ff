-- ===== src/Bmt/Triples.antt =====
-- What makes the two servers' shares a triple.
use mpc_package.Base.{ℕ, ◌+◌, ◌*◌, ◌≤◌, ◌<◌, ◌≡◌, ◌∙◌, Option, none, some, arith}
use mpc_package.Base.{Bool, true, false, ◌&&◌, bit, xor, to_int, ◌==◌, zero, suc}
use mpc_package.Word.{IsWord}
use mpc_package.Word.Cong.{Cong}
use mpc_package.Math.{get_bit}
use mpc_package.Math.Ring.{bit-to_int, get_bit_lem}
use mpc_package.Bmt.{Bmt, extract, Env, BmtMethod, background, jit, fixed, pipeline}

pub record AreWordsOf (t : Bmt) : Type 0 where
  pub a_word : IsWord t.a
  pub b_word : IsWord t.b
  pub c_word : IsWord t.c

-- Digit by digit, the shares of `c` are shares of the conjunction of `a` and `b`.
pub record XorTriple (width : ℕ) (s0 s1 : Bmt) : Type 0 where
  pub words0 : AreWordsOf s0
  pub words1 : AreWordsOf s1
  pub digits :
      (i : ℕ)
      → i < width
      → xor (bit s0.c i) (bit s1.c i)
        ≡ (xor (bit s0.a i) (bit s1.a i) && xor (bit s0.b i) (bit s1.b i))

-- Modulo 2 ^ width, the shares of `c` add up to the product of `a` and `b`.
pub record SumTriple (width : ℕ) (s0 s1 : Bmt) : Type 0 where
  pub words0 : AreWordsOf s0
  pub words1 : AreWordsOf s1
  pub product : Cong width (s0.c + s1.c) ((s0.a + s1.a) * (s0.b + s1.b))

-- A digit of a triple is a triple of width 1.
pub extract-XorTriple :
    {width : ℕ} {s0 s1 : Bmt} (i : ℕ)
    → width ≤ 64
    → i < width
    → XorTriple width s0 s1
    → XorTriple 1 (extract s0 i) (extract s1 i)
unfolding extract
extract-XorTriple {width} {s0} {s1} i le lt t = record {
  words0 = record { a_word = flag _; b_word = flag _; c_word = flag _ };
  words1 = record { a_word = flag _; b_word = flag _; c_word = flag _ };
  digits = only;
}
  where
    flag : (b : Bool) → IsWord (to_int b)
    flag true = omega arith
    flag false = omega arith

    low : (v : ℕ) → IsWord v → bit (to_int (get_bit v i)) 0 ≡ bit v i
    low v h = bit-to_int (get_bit v i) 0 ∙ kept (get_bit v i) ∙ get_bit_lem v i h (omega arith)
      where
        kept : (b : Bool) → (b && 0 == 0) ≡ b
        kept b = ground arith

    only :
        (j : ℕ)
        → j < 1
        → xor (bit (extract s0 i).c j) (bit (extract s1 i).c j) ≡ (
            xor (bit (extract s0 i).a j) (bit (extract s1 i).a j)
            && xor (bit (extract s0 i).b j) (bit (extract s1 i).b j))
    only zero h =
        rw
          (
            low s0.a t.words0.a_word,
            low s0.b t.words0.b_word,
            low s0.c t.words0.c_word,
            low s1.a t.words1.a_word,
            low s1.b t.words1.b_word,
            low s1.c t.words1.c_word,
          )
          (t.digits i lt)
    only (suc j) h = absurd (omega arith)

-- A triple serves every smaller width.
pub XorTriple-down :
    {width n : ℕ} {s0 s1 : Bmt} → width ≤ n → XorTriple n s0 s1 → XorTriple width s0 s1
XorTriple-down le t = record {
  words0 = t.words0;
  words1 = t.words1;
  digits = λ i lt. t.digits i (omega arith);
}

-- Both servers take their triple from the same place (`setBmt`, or that of their configured
-- method), and that place holds a triple. A generator that runs at once needs no assumption.
abbrev pub SuppliedBy : ℕ → Env → Env → BmtMethod → BmtMethod → Option Bmt → Option Bmt → Type 0
SuppliedBy width e0 e1 m0 m1 (some s0) (some s1) = XorTriple width s0 s1
SuppliedBy width e0 e1 fixed fixed none none =
    XorTriple width e0.fixed_bitwise_bmt e1.fixed_bitwise_bmt
SuppliedBy width e0 e1 background background none none =
    XorTriple width e0.polled_bitwise_bmt e1.polled_bitwise_bmt
SuppliedBy width e0 e1 jit jit none none = Unit
SuppliedBy width e0 e1 pipeline pipeline none none = Unit
SuppliedBy width e0 e1 _ _ _ _ = ⊥

abbrev pub BitwiseSupply : ℕ → Env → Env → Option Bmt → Option Bmt → Type 0
BitwiseSupply width e0 e1 given0 given1 = SuppliedBy width e0 e1 e0.method e1.method given0 given1
