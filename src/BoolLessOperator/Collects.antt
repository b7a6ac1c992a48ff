-- ===== src/BoolLessOperator/Collects.antt =====
-- What it means that a digit says whether the digits from it to the end of its block are all set.
use native.Mathlib.Nat.{mul-le-mul_right, lt_of_mul-lt-mul_right}
use mathlib.Core.Path.{subst}
use mpc_package.Base.{
  ℕ, zero, suc, ◌+◌, ◌-◌, ◌*◌, ◌/◌, ◌^◌, ◌≤◌, ◌<◌, ◌≡◌, refl, sym, ap, ap₂, ◌∙◌, arith,
}
use mpc_package.Base.{Bool, true, ◌&&◌}
use mpc_package.Base.{bit}
use mpc_package.BoolLessOperator.Shift.{source_of, block, block_start}
use native.Mathlib.Decide.{dec_lt}

-- Are all `n` of `e` set, from `j` on?
unfoldable pub all : (ℕ → Bool) → ℕ → ℕ → Bool
all e j zero = true
all e j (suc n) = e j && all e (j + 1) n

all-append : (e : ℕ → Bool) (j n m : ℕ) → all e j (n + m) ≡ (all e j n && all e (j + n) m)
unfolding all
all-append e j zero m = ap₂ (all e) (add_zero j) (zero_add m) ∙ refl
  where
    add_zero : (j : ℕ) → j ≡ j + 0
    add_zero j = omega arith

    zero_add : (m : ℕ) → 0 + m ≡ m
    zero_add m = omega arith
all-append e j (suc n) m =
    ap (all e j) (suc_add n m)
    ∙ ap (λ t. e j && t)
        (all-append e (j + 1) n m ∙ ap (λ k. all e (j + 1) n && all e k m) (next j n))
    ∙ assoc (e j) (all e (j + 1) n) (all e (j + suc n) m)
  where
    suc_add : (n m : ℕ) → suc n + m ≡ suc (n + m)
    suc_add n m = omega arith

    next : (j n : ℕ) → j + 1 + n ≡ j + suc n
    next j n = omega arith

    assoc : (a b c : Bool) → (a && (b && c)) ≡ ((a && b) && c)
    assoc a b c = ground arith

-- From a digit to the end of its block of `p`.
abbrev pub to_end : ℕ → ℕ → ℕ
to_end p j = j / p * p + p - j

-- Each digit of `n` says it of its block.
abbrev pub Collects : (ℕ → Bool) → ℕ → ℕ → ℕ → Type 0
Collects e w p n = (j : ℕ) → j < w → bit n j ≡ all e j (to_end p j)

module _ (e : ℕ → Bool) (w p n : ℕ) (pos : 0 < p) (h : Collects e w p n) where
  at_block : (m b j : ℕ) → b ≡ m * p → b ≤ j → j < b + p → j < w → bit n j ≡ all e j (b + p - j)
  at_block m b j q from to lt =
      h j lt
      ∙ ap (λ d. all e j (d + p - j))
          (block p m j (subst (λ t. t ≤ j) q from) (subst (λ t. j < t + p) q to) ∙ sym q)

  even_block : (k : ℕ) → k * (p * 2) ≡ k * 2 * p
  even_block k = grind arith

  odd_block : (k : ℕ) → k * (p * 2) + p ≡ (k * 2 + 1) * p
  odd_block k = grind arith

  -- In the lower half of a block of twice the size, the upper half comes next.
  lower :
      (k j : ℕ)
      → k * (p * 2) ≤ j
      → j < k * (p * 2) + p
      → k * (p * 2) + p < w
      → (bit n j && bit n (k * (p * 2) + p)) ≡ all e j (k * (p * 2) + p * 2 - j)
  lower k j from to fits =
      ap₂ ◌&&◌ (at_block (k * 2) b j (even_block k) from to (omega arith)) (
        at_block (k * 2 + 1) (b + p) (b + p) (odd_block k) (omega arith) (omega arith) fits
        ∙ ap₂ (all e) (reach b j to) (rest b))
      ∙ sym (all-append e j (b + p - j) p)
      ∙ ap (all e j) (whole b j to)
    where
      b : ℕ
      b = k * (p * 2)

      reach : (b j : ℕ) → j < b + p → b + p ≡ j + (b + p - j)
      reach b j lt = omega arith

      rest : (b : ℕ) → b + p + p - (b + p) ≡ p
      rest b = omega arith

      whole : (b j : ℕ) → j < b + p → b + p - j + p ≡ b + p * 2 - j
      whole b j lt = omega arith

  upper :
      (k j : ℕ)
      → k * (p * 2) + p ≤ j
      → j < k * (p * 2) + p * 2
      → j < w
      → (bit n j && bit n j) ≡ all e j (k * (p * 2) + p * 2 - j)
  upper k j from to lt =
      twice (bit n j)
      ∙ at_block (k * 2 + 1) (k * (p * 2) + p) j (odd_block k) from (omega (arith, to)) lt
      ∙ ap (all e j) (whole (k * (p * 2)))
    where
      twice : (a : Bool) → (a && a) ≡ a
      twice a = ground arith

      whole : (b : ℕ) → b + p + p - j ≡ b + p * 2 - j
      whole b = omega arith

  -- A conjunction with the digits that the shift brings collects blocks of twice the size.
  pub Collects-double :
      (m : ℕ)
      → w ≡ m * (p * 2)
      → (j : ℕ) → j < w
      → (bit n j && bit n (source_of w (p * 2) j)) ≡ all e j (to_end (p * 2) j)
  Collects-double m whole j lt = by_half (block_start (p * 2) j (omega arith)) inside
    where
      d : ℕ
      d = j / (p * 2) * (p * 2)

      inside : d + p * 2 ≤ w
      inside = fit (j / (p * 2)) (block_start (p * 2) j (omega arith)).0
        where
          fit : (q : ℕ) → q * (p * 2) ≤ j → q * (p * 2) + p * 2 ≤ w
          fit q le =
              subst (λ t. t ≤ w) (one_more q)
                (subst (λ t. (q + 1) * (p * 2) ≤ t) (sym whole)
                  (mul-le-mul_right (p * 2)
                    (omega (arith, lt_of_mul-lt-mul_right (p * 2) {m = q} {n = m} (before q le)))))
            where
              one_more : (q : ℕ) → (q + 1) * (p * 2) ≡ q * (p * 2) + p * 2
              one_more q = grind arith

              before : (q : ℕ) → q * (p * 2) ≤ j → q * (p * 2) < m * (p * 2)
              before q le = omega (arith, le, lt, whole)

      half : p * 2 / 2 ≡ p
      half = omega arith

      by_half :
          (d ≤ j) × (j < d + p * 2)
          → d + p * 2 ≤ w
          → (bit n j && bit n (source_of w (p * 2) j)) ≡ all e j (to_end (p * 2) j)
      by_half bounds within = elim (dec_lt j (d + p)) [
        | yes f ↦
            ap (λ t. bit n j && bit n t) (taken f within)
            ∙ lower (j / (p * 2)) j bounds.0 f (omega (arith, within))
        | no f ↦
            ap (λ t. bit n j && bit n t) (kept f)
            ∙ upper (j / (p * 2)) j (omega (arith, f)) bounds.1 lt
      ]
        where
          taken : j < d + p → d + p * 2 ≤ w → source_of w (p * 2) j ≡ d + p
          taken f within = rw half (ground (arith, f, within))

          kept : ¬ (j < d + p) → source_of w (p * 2) j ≡ j
          kept f = rw half (ground (arith, f))

-- In the end a digit says it of all digits from it on.
pub Collects-whole :
    (e : ℕ → Bool) (w n j : ℕ) → Collects e w w n → j < w → bit n j ≡ all e j (w - j)
Collects-whole e w n j c lt =
    c j lt
    ∙ ap (λ d. all e j (d + w - j)) (block w 0 j (omega arith) (omega arith))
    ∙ ap (all e j) (start w j)
  where
    start : (w j : ℕ) → 0 * w + w - j ≡ w - j
    start w j = omega arith

-- Before the first round it says it of itself.
pub Collects-one :
    (e : ℕ → Bool) (w n : ℕ) → ((j : ℕ) → j < w → bit n j ≡ e j) → Collects e w (2 ^ 0) n
unfolding all
Collects-one e w n h j lt = h j lt ∙ alone (e j) ∙ ap (all e j) (one j)
  where
    alone : (b : Bool) → b ≡ (b && true)
    alone b = ground arith

    one : (j : ℕ) → 1 ≡ j / 2 ^ 0 * 2 ^ 0 + 2 ^ 0 - j
    one j = omega arith
