-- ===== src/BoolLessOperator/Operands.antt =====
-- The shares of what the conjunctions of the operator are applied to.
use mpc_package.Base.{ℕ, ◌+◌, ◌-◌, ◌^◌, ◌≤◌, ◌<◌, ◌≡◌, refl, sym, ap, ap₂, ◌∙◌, arith}
use mpc_package.Base.{
  Bool, true, false, not, ◌&&◌, xor, ◌==◌, if◌then◌else◌, Bool-cases, inl, inr, ltb-lt, ◌⊎◌,
}
use mpc_package.Base.{bit, bit_and, bit_xor, bit-bit_and, bit-bit_xor, bit_xor-lt, bit-ones}
use mpc_package.Word.{IsWord, sar, ones}
use mpc_package.Word.Bits.{bit-sar, sar-IsWord}
use mpc_package.Math.{ring, get_bit, change_bit}
use mpc_package.Math.Ring.{bit-ring, ring-IsWord, get_bit_lem, bit-change_bit, change_bit-IsWord}
use mpc_package.Shares.Xor.{XorShares}
use mpc_package.BoolLessOperator.Collects.{all, Collects-whole, Collects-one}
use mpc_package.BoolLessOperator.Compare.{agrees}
use mpc_package.BoolLessOperator.Rounds.{Collected}

-- Two digits that are set apart from the others.
xor_if :
    (c a0 a1 b0 b1 : Bool)
    → xor (if c then a0 else b0) (if c then a1 else b1) ≡ (if c then xor a0 a1 else xor b0 b1)
xor_if true a0 a1 b0 b1 = refl
xor_if false a0 a1 b0 b1 = refl

module _ {w x0 x1 y0 y1 x y : ℕ} (le : w ≤ 64) (some : 0 < w) (hx : IsWord x) (hy : IsWord y)
    (sx : XorShares w x0 x1 x) (sy : XorShares w y0 y1 y) where
  mask : ℕ
  mask = ring ones w

  mask-IsWord : IsWord mask
  unfolding mask
  mask-IsWord = ring-IsWord ones w (omega arith) le

  bit-mask : (j : ℕ) → j < w → bit mask j ≡ true
  unfolding mask
  bit-mask j lt =
      bit-ring ones w (omega arith) le j
      ∙ rw (ltb-lt j w lt, bit-ones 64 j) (ltb-lt j 64 (omega arith))

  cross : (a b c d : Bool) → xor (xor a b) (xor c d) ≡ xor (xor a c) (xor b d)
  cross a b c d = ground arith

  difference :
      (j : ℕ)
      → j < w
      → xor (bit (bit_xor x0 y0) j) (bit (bit_xor x1 y1) j) ≡ xor (bit x j) (bit y j)
  difference j lt =
      ap₂ xor (bit-bit_xor j x0 y0) (bit-bit_xor j x1 y1)
      ∙ cross (bit x0 j) (bit y0 j) (bit x1 j) (bit y1 j)
      ∙ ap₂ xor (sx.digits j lt) (sy.digits j lt)

  -- Where the operands agree.
  pub agreement-Collected :
      Collected (agrees x y) w (2 ^ 0) (bit_xor x0 y0) (bit_xor (bit_xor x1 y1) (ring ones w))
  unfolding mask
  agreement-Collected = record {
    number = bit_xor (bit_xor x y) mask;
    word = bit_xor-lt 64 _ mask (bit_xor-lt 64 x y hx hy) mask-IsWord;
    collects = Collects-one (agrees x y) w _ shown;
    shares = record {
      word0 = bit_xor-lt 64 x0 y0 sx.word0 sy.word0;
      word1 = bit_xor-lt 64 _ mask (bit_xor-lt 64 x1 y1 sx.word1 sy.word1) mask-IsWord;
      digits = λ j lt.
          ap (xor (bit (bit_xor x0 y0) j))
            (bit-bit_xor j (bit_xor x1 y1) mask ∙ ap (xor (bit (bit_xor x1 y1) j)) (bit-mask j lt))
          ∙ turned (bit (bit_xor x0 y0) j) (bit (bit_xor x1 y1) j)
          ∙ ap not (difference j lt)
          ∙ sym (shown j lt);
    };
  }
    where
      turned : (a b : Bool) → xor a (xor b true) ≡ not (xor a b)
      turned a b = ground arith

      shown : (j : ℕ) → j < w → bit (bit_xor (bit_xor x y) mask) j ≡ agrees x y j
      shown j lt =
          bit-bit_xor j (bit_xor x y) mask
          ∙ ap₂ xor (bit-bit_xor j x y) (bit-mask j lt)
          ∙ negated (xor (bit x j) (bit y j))
        where
          negated : (a : Bool) → xor a true ≡ not a
          negated a = ground arith

  -- Where they differ, with the lowest digit replaced.
  pub diagonal : ℕ
  diagonal = change_bit (bit_xor x y) 0 (not (bit y 0))

  pub diagonal-XorShares :
      XorShares w
        (change_bit (bit_xor x0 y0) 0 (xor (get_bit y0 0) false))
        (change_bit (bit_xor x1 y1) 0 (xor (get_bit y1 0) true))
        diagonal
  unfolding diagonal
  diagonal-XorShares = record {
    word0 = change_bit-IsWord _ 0 _ (bit_xor-lt 64 x0 y0 sx.word0 sy.word0);
    word1 = change_bit-IsWord _ 0 _ (bit_xor-lt 64 x1 y1 sx.word1 sy.word1);
    digits = λ j lt.
        ap₂ xor (bit-change_bit (bit_xor x0 y0) 0 _ j (omega arith) (omega arith))
          (bit-change_bit (bit_xor x1 y1) 0 _ j (omega arith) (omega arith))
        ∙ xor_if (j == 0) _ _ _ _
        ∙ ap₂ (λ a b. if j == 0 then a else b) lowest (difference j lt ∙ sym (bit-bit_xor j x y))
        ∙ sym (bit-change_bit (bit_xor x y) 0 (not (bit y 0)) j (omega arith) (omega arith));
  }
    where
      turned : (a b : Bool) → xor (xor a false) (xor b true) ≡ not (xor a b)
      turned a b = ground arith

      lowest : xor (xor (get_bit y0 0) false) (xor (get_bit y1 0) true) ≡ not (bit y 0)
      lowest =
          ap₂ (λ a b. xor (xor a false) (xor b true)) (get_bit_lem y0 0 sy.word0 (omega arith))
            (get_bit_lem y1 0 sy.word1 (omega arith))
          ∙ turned (bit y0 0) (bit y1 0)
          ∙ ap not (sy.digits 0 some)

  -- With the first operand it says where that exceeds the second.
  pub bit-diagonal : (j : ℕ) → j < w → bit (bit_and diagonal x) j ≡ (bit x j && not (bit y j))
  unfolding diagonal
  bit-diagonal j lt =
      bit-bit_and j diagonal x
      ∙ ap (λ t. t && bit x j)
          (bit-change_bit (bit_xor x y) 0 (not (bit y 0)) j (omega arith) (omega arith)
            ∙ ap (λ t. if j == 0 then not (bit y 0) else t) (bit-bit_xor j x y))
      ∙ either j
    where
      at_zero : (j : ℕ) → (j == 0) ≡ true → j ≡ 0
      at_zero j e = ground arith

      by_zero : (a b c d : Bool) → c ≡ d → ((if true then not c else xor a b) && a) ≡ (a && not d)
      by_zero a b c d e = ground arith

      apart : (a b c : Bool) → ((if false then c else xor a b) && a) ≡ (a && not b)
      apart a b c = ground arith

      either :
          (j : ℕ)
          → ((if j == 0 then not (bit y 0) else xor (bit x j) (bit y j)) && bit x j)
            ≡ (bit x j && not (bit y j))
      either j = elim (Bool-cases (j == 0)) [
        | inl e ↦
            rw e (by_zero (bit x j) (bit y j) (bit y 0) (bit y j) (ap (bit y) (sym (at_zero j e))))
        | inr e ↦ rw e (apart (bit x j) (bit y j) (not (bit y 0)))
      ]

-- Two tests whose second branches agree where they are taken.
else_same : (c b x y : Bool) → (c ≡ false → x ≡ y) → (if c then b else x) ≡ (if c then b else y)
else_same true b x y h = refl
else_same false b x y h = h refl

before_last : (w j : ℕ) → j < w → (j == w - 1) ≡ false → j + 1 < w
before_last w j lt f = ground (arith, lt)

module _ {w z0 z1 : ℕ} {e : ℕ → Bool} (le : w ≤ 64) (some : 0 < w) (c : Collected e w w z0 z1) where
  -- Whether all digits above agree.
  pub above : ℕ
  above = change_bit (sar c.number 1) (w - 1) true

  bit-above_of :
      (v : ℕ) (b : Bool) (j : ℕ)
      → IsWord v
      → j < w
      → bit (change_bit (sar v 1) (w - 1) b) j ≡ (if j == w - 1 then b else bit v (j + 1))
  bit-above_of v b j h lt =
      bit-change_bit (sar v 1) (w - 1) b j (omega arith) (omega arith)
      ∙ else_same (j == w - 1) b _ _ (λ f. bit-sar v 1 j h (omega (arith, before_last w j lt f)))

  pub above-XorShares :
      XorShares w (change_bit (sar z0 1) (w - 1) false) (change_bit (sar z1 1) (w - 1) true) above
  unfolding above
  above-XorShares = record {
    word0 = change_bit-IsWord _ _ _ (sar-IsWord z0 1 c.shares.word0);
    word1 = change_bit-IsWord _ _ _ (sar-IsWord z1 1 c.shares.word1);
    digits = λ j lt.
        ap₂ xor (bit-above_of z0 false j c.shares.word0 lt)
          (bit-above_of z1 true j c.shares.word1 lt)
        ∙ xor_if (j == w - 1) _ _ _ _
        ∙ else_same (j == w - 1) true _ _ (λ f. c.shares.digits (j + 1) (before_last w j lt f))
        ∙ sym (bit-above_of c.number true j c.word lt);
  }

  pub bit-above : (j : ℕ) → j < w → bit above j ≡ all e (j + 1) (w - (j + 1))
  unfolding above
  bit-above j lt = bit-above_of c.number true j c.word lt ∙ by_place (Bool-cases (j == w - 1))
    where
      at_last : (j w : ℕ) → (j == w - 1) ≡ true → w - (j + 1) ≡ 0
      at_last j w t = ground arith

      nothing : true ≡ all e (j + 1) 0
      nothing = unfold all in refl

      by_place :
          (((j == w - 1) ≡ true) ⊎ ((j == w - 1) ≡ false))
          → (if j == w - 1 then true else bit c.number (j + 1)) ≡ all e (j + 1) (w - (j + 1))
      by_place (inl t) = rw t (nothing ∙ ap (all e (j + 1)) (sym (at_last j w t)))
      by_place (inr f) =
          rw f (Collects-whole e w c.number (j + 1) c.collects (before_last w j lt f))
