-- ===== src/BoolLessOperator/Shift.antt =====
-- What `shiftGreater` does to each digit.
use native.Mathlib.Nat.{
  div-eq_of_lt-le, mod-eq-sub-mul-div, mul-div-le, mod-lt, mul-le-mul_right, pow-suc, one-le-pow,
  le-div_iff_mul-le,
}
use native.Mathlib.Decide.{dec_lt}
use mathlib.Core.Path.{subst}
use mpc_package.Base.{
  ℕ, zero, suc, ◌+◌, ◌-◌, ◌*◌, ◌/◌, ◌%◌, ◌^◌, ◌≤◌, ◌<◌, ◌≡◌, refl, sym, ap, ◌∙◌, arith,
}
use mpc_package.Base.{
  Bool, true, false, not, ◌&&◌, ◌||◌, ltb, leb, if◌then◌else◌, Bool-cases, inl, inr, ltb-lt,
}
use mpc_package.Base.{
  bit, bit_and, bit_or, bit-bit_and, bit-bit_or, bit_and-lt, bit_or-lt, bit-ones,
}
use mpc_package.Word.{IsWord, shl, sub, inv}
use mpc_package.Word.Bits.{shl-IsWord, bit-shl, bit-inv}
use mpc_package.Math.{get_bit}
use mpc_package.Math.Ring.{mask-eq, get_bit_lem}
use mpc_package.BoolLessOperator.{set_part, shift_loop, shift_greater}

-- Is `j` from `i` on and below `s`?
abbrev within : ℕ → ℕ → ℕ → Bool
within i s j = leb i j && ltb j s

module _ (n s i : ℕ) (h : IsWord n) (le : i ≤ s) (lt : s < 64) where
  bit-mask : (j : ℕ) → j < 64 → bit (shl (sub (shl 1 (s - i)) 1) i) j ≡ within i s j
  bit-mask j hj =
      rw (mask-eq (s - i) (omega arith))
        (bit-shl (2 ^ (s - i) - 1) i j ∙ rw (bit-ones (s - i) (j - i)) (ground arith))

  bit-set_part :
      (j : ℕ) → j < 64 → bit (set_part n s i) j ≡ (if within i s j then bit n s else bit n j)
  unfolding set_part
  bit-set_part j hj = rw (get_bit_lem n s h lt) (by_digit (bit n s))
    where
      mask : ℕ
      mask = shl (sub (shl 1 (s - i)) 1) i

      by_digit :
          (b : Bool)
          → bit (if b then bit_or n mask else bit_and n (inv mask)) j
            ≡ (if within i s j then b else bit n j)
      by_digit true = bit-bit_or j n mask ∙ rw (bit-mask j hj) (either (bit n j) (within i s j))
        where
          either : (a w : Bool) → (a || w) ≡ (if w then true else a)
          either a w = ground arith
      by_digit false =
          bit-bit_and j n (inv mask)
          ∙ rw (bit-inv mask j hj, bit-mask j hj) (both (bit n j) (within i s j))
        where
          both : (a w : Bool) → (a && not w) ≡ (if w then false else a)
          both a w = ground arith

  set_part-IsWord : IsWord (set_part n s i)
  unfolding set_part
  set_part-IsWord = by_digit (get_bit n s)
    where
      mask : ℕ
      mask = shl (sub (shl 1 (s - i)) 1) i

      by_digit : (b : Bool) → IsWord (if b then bit_or n mask else bit_and n (inv mask))
      by_digit true = bit_or-lt 64 n mask h (shl-IsWord _ i)
      by_digit false = bit_and-lt 64 n (inv mask) h

-- Where the digit at `j` comes from, in blocks of `p` digits.
abbrev pub source_of : ℕ → ℕ → ℕ → ℕ
source_of w p j = let s = j / p * p + p / 2 in if ltb j s && ltb s w then s else j

pub source_of-lt : (w p j : ℕ) → j < w → source_of w p j < w
source_of-lt w p j lt = ground (arith, lt)

-- The start of a block.
pub block : (p k j : ℕ) → k * p ≤ j → j < k * p + p → j / p * p ≡ k * p
block p k j le lt = ap (λ q. q * p) (div-eq_of_lt-le p le (omega (arith, more k p)))
  where
    more : (k p : ℕ) → (k + 1) * p ≡ k * p + p
    more k p = grind arith

-- The block that a digit stands in.
pub block_start : (p j : ℕ) → 0 < p → (j / p * p ≤ j) × (j < j / p * p + p)
block_start p j pos = bounds (j / p) (mod-eq-sub-mul-div j p) (mul-div-le j p) (mod-lt j pos)
  where
    bounds : (q : ℕ) → j % p ≡ j - p * q → p * q ≤ j → j % p < p → (q * p ≤ j) × (j < q * p + p)
    bounds q e le lt = (grind (arith, le), grind (arith, e, le, lt))

-- A digit from the start of a block on stands in this block or in a later one.
later_block : (p k j : ℕ) → 0 < p → k * p ≤ j → k * p ≤ j / p * p
later_block p k j pos le = mul-le-mul_right p ((le-div_iff_mul-le pos).1 le)

-- What a digit at `j` of the block at `d` or before it is replaced by, up to `e`.
placed :
    (n m w i p h j : ℕ)
    → h < p
    → i + h < w
    → j < w
    → (i ≤ j → j < i + p → j / p * p ≡ i)
    → (i + p ≤ j → i + p ≤ j / p * p)
    → p / 2 ≡ h
    → ((t : ℕ) → t < w → bit m t ≡ (if within i (i + h) t then bit n (i + h) else bit n t))
    → (if ltb j (i + p) then bit m j else bit m (source_of w p j))
      ≡ (if ltb j i then bit n j else bit n (source_of w p j))
placed n m w i p h j hp hw lt here later half set = elim (dec_lt j i) [
  | yes f ↦ ground (arith, set j lt, f)
  | no f ↦ elim (dec_lt j (i + p)) [
    | yes g ↦ rw (ltb-lt j (i + p) g) (set j lt ∙ rw (here (omega arith) g, half) (ground arith))
    | no g ↦
        rw (not_below j (i + p) g, not_below j i f)
          (set _ (source_of-lt w p j lt)
            ∙ rw (outside (source_of w p j) (past (later (omega arith)))) refl)
  ]
]
  where
    not_below : (a b : ℕ) → ¬ (a < b) → ltb a b ≡ false
    not_below a b f = ground arith

    past : i + p ≤ j / p * p → i + p ≤ source_of w p j
    past le = ground (arith, le)

    outside : (t : ℕ) → i + p ≤ t → within i (i + h) t ≡ false
    outside t le = ground (arith, hp)

module _ (w p half : ℕ) (le : w ≤ 64) (even : p / 2 ≡ half) (small : half < p)
    (pos : 0 < half) where
  -- The loop from the start of a block on leaves the digits before it as they are.
  shift_loop-bit :
      (fuel k i n j : ℕ)
      → i ≡ k * p
      → w ≤ i + fuel
      → IsWord n
      → j < w
      → IsWord (shift_loop fuel w p i n)
        × (bit (shift_loop fuel w p i n) j ≡ (if ltb j i then bit n j else bit n (source_of w p j)))
  unfolding shift_loop
  shift_loop-bit zero k i n j e enough h lt = (h, rw (ltb-lt j i (omega arith)) refl)
  shift_loop-bit (suc fuel) k i n j e enough h lt =
      elim (Bool-cases (ltb i w && ltb (i + p / 2) w)) [
        | inl go ↦
            let below = inside s (both (ltb i w) (ltb s w) go).1 in
            let later =
              shift_loop-bit fuel (k + 1) (i + p) (set_part n s i) j next (omega arith)
                (set_part-IsWord n s i h (omega arith) (omega arith)) lt in
            rw go (later.0, goes below later.1)
        | inr stop ↦ rw stop (h, stops stop)
      ]
    where
      s : ℕ
      s = i + p / 2

      next : i + p ≡ (k + 1) * p
      next = grind (arith, e)

      both : (a b : Bool) → (a && b) ≡ true → (a ≡ true) × (b ≡ true)
      both a b e = (ground arith, ground arith)

      inside : (a : ℕ) → ltb a w ≡ true → a < w
      inside a e = ground arith

      here : i ≤ j → j < i + p → j / p * p ≡ i
      here from to = block p k j (subst (λ t. t ≤ j) e from) (subst (λ t. j < t + p) e to) ∙ sym e

      after : i + p ≤ j → i + p ≤ j / p * p
      after from =
          subst (λ t. t ≤ j / p * p) (sym next)
            (later_block p (k + 1) j (omega arith) (subst (λ t. t ≤ j) next from))

      goes :
          s < w
          → bit (shift_loop fuel w p (i + p) (set_part n s i)) j ≡ (
              if ltb j (i + p)
              then bit (set_part n s i) j
              else bit (set_part n s i) (source_of w p j))
          → bit (shift_loop fuel w p (i + p) (set_part n s i)) j
            ≡ (if ltb j i then bit n j else bit n (source_of w p j))
      goes below q =
          q
          ∙ placed n (set_part n s i) w i p (p / 2) j (omega arith) below lt here after refl
              (λ t tw. bit-set_part n s i h (omega arith) (omega arith) t (omega arith))

      stays : i ≤ j → w ≤ i + p / 2 → source_of w p j ≡ j
      stays from far =
          past (j / p * p) (later_block p k j (omega arith) (subst (λ t. t ≤ j) e from))
        where
          past :
              (d : ℕ)
              → k * p ≤ d
              → (if ltb j (d + p / 2) && ltb (d + p / 2) w then d + p / 2 else j) ≡ j
          past d le = rw (over (d + p / 2) (omega (arith, e))) (ground arith)
            where
              over : (t : ℕ) → w ≤ t → ltb t w ≡ false
              over t le = ground arith

      stops :
          (ltb i w && ltb s w) ≡ false
          → bit n j ≡ (if ltb j i then bit n j else bit n (source_of w p j))
      stops stop = elim (dec_lt j i) [
        | yes f ↦ rw (ltb-lt j i f) refl
        | no f ↦ rw (not_below f, stays (omega arith) (far f stop)) refl
      ]
        where
          not_below : ¬ (j < i) → ltb j i ≡ false
          not_below f = ground arith

          far : ¬ (j < i) → (ltb i w && ltb s w) ≡ false → w ≤ s
          far f stop = ground (arith, lt)

-- `shiftGreater` replaces each digit by the one that it is to be combined with.
pub shift_greater-bit :
    (w n r j : ℕ)
    → w ≤ 64
    → 0 < r
    → 2 ^ r ≤ w
    → IsWord n
    → j < w
    → IsWord (shift_greater w n r) × (bit (shift_greater w n r) j ≡ bit n (source_of w (2 ^ r) j))
unfolding shift_greater
shift_greater-bit w n zero j le pos fits h lt = absurd (omega arith)
shift_greater-bit w n (suc r) j le pos fits h lt =
    let t =
      shift_loop-bit w (2 ^ suc r) (2 ^ r) le (halved (pow-suc 2 r)) (smaller (pow-suc 2 r)) some w
        0 0 n j (omega arith) (omega arith) h lt in
    rw (not_wide (2 ^ suc r) fits) (t.0, t.1 ∙ none_before (bit n j) _)
  where
    not_wide : (p : ℕ) → p ≤ w → ltb w p ≡ false
    not_wide p f = ground arith

    none_before : (a b : Bool) → (if ltb j 0 then a else b) ≡ b
    none_before a b = rw (never j) refl
      where
        never : (j : ℕ) → ltb j 0 ≡ false
        never j = ground arith

    some : 0 < 2 ^ r
    some = one-le-pow r 2 (omega arith)

    halved : 2 ^ suc r ≡ 2 ^ r * 2 → 2 ^ suc r / 2 ≡ 2 ^ r
    halved e = omega (arith, e)

    smaller : 2 ^ suc r ≡ 2 ^ r * 2 → 2 ^ r < 2 ^ suc r
    smaller e = omega (arith, e, some)

pub shift_greater-narrow : (w n r : ℕ) → w < 2 ^ r → shift_greater w n r ≡ n
unfolding shift_greater
shift_greater-narrow w n r lt = rw (ltb-lt w (2 ^ r) lt) refl
