-- ===== src/BitwiseBmtGenerator/Pack.antt =====
-- `sum += xs[i] << i` over single bits puts each bit in its place.
use native.Mathlib.Nat.{pow-suc, pow-le-pow_right, one-le-pow, add-mul-mod_self_right, mod-eq_of_lt}
use native.Mathlib.Nat.{add-mul-div_right, div-eq_of_lt}
use native.Mathlib.Decide.{dec_lt, ℕ_discrete}
use mpc_package.Base.{
  ℕ, zero, suc, ◌+◌, ◌-◌, ◌*◌, ◌%◌, ◌^◌, ◌≤◌, ◌<◌, ◌≡◌, refl, sym, ap, ◌∙◌, arith,
}
use mpc_package.Base.{List, [], ◌∷◌, length, get_or, ◌&&◌, ◌==◌, ltb, ltb-lt, ltb-le}
use mpc_package.Base.{bit, bit-mod, bit-div, bit-high, if◌then◌else◌}
use mpc_package.Word.{IsWord, add, shl}
use mpc_package.BitwiseBmtGenerator.{sum_shifted}

abbrev pub AreFlags : List ℕ → Type 0
AreFlags [] = Unit
AreFlags (x ∷ xs) = (x < 2) × AreFlags xs

-- No digit is carried.
pub step :
    (s x i : ℕ)
    → s < 2 ^ i
    → x < 2
    → i < 64
    → (add s (shl x i) ≡ s + x * 2 ^ i) × (s + x * 2 ^ i < 2 ^ (i + 1))
unfolding add shl
step s x i hs hx lt = rw (double i) (
    go s x (2 ^ i) hs hx
      (omega (arith, double i, pow-le-pow_right {n = 2} (omega arith) lt, shown i)))
  where
    double : (i : ℕ) → 2 ^ (i + 1) ≡ 2 ^ i * 2
    double i = ap (λ t. 2 ^ t) (plus_one i) ∙ pow-suc 2 i
      where
        plus_one : (i : ℕ) → i + 1 ≡ suc i
        plus_one i = omega arith

    shown : (i : ℕ) → 2 ^ suc i ≡ 2 ^ i * 2
    shown i = pow-suc 2 i

    go :
        (s x p : ℕ)
        → s < p
        → x < 2
        → p * 2 ≤ 2 ^ 64
        → ((s + x * p % 2 ^ 64) % 2 ^ 64 ≡ s + x * p) × (s + x * p < p * 2)
    go s zero p hs hx top = omega arith
    go s (suc zero) p hs hx top = omega arith
    go s (suc (suc x)) p hs hx top = absurd (omega arith)

pub low_digit : (s x i j : ℕ) → s < 2 ^ i → j < i → bit (s + x * 2 ^ i) j ≡ bit s j
low_digit s x i j hs lt =
    sym (cut (s + x * 2 ^ i))
    ∙ ap (λ t. bit t j) (add-mul-mod_self_right s x (2 ^ i) ∙ mod-eq_of_lt hs)
  where
    cut : (n : ℕ) → bit (n % 2 ^ i) j ≡ bit n j
    cut n = bit-mod i j n ∙ ap (λ t. t && bit n j) (ltb-lt j i lt) ∙ refl

pub top_digit : (s x i : ℕ) → s < 2 ^ i → x < 2 → bit (s + x * 2 ^ i) i ≡ (x == 1)
top_digit s x i hs hx =
    ap (λ t. bit (s + x * 2 ^ i) t) (zero_add i)
    ∙ sym (bit-div i 0 (s + x * 2 ^ i))
    ∙ ap (λ t. bit t 0)
        (add-mul-div_right s x (one-le-pow i 2 (omega arith)) ∙ ap (λ t. t + x) (div-eq_of_lt hs))
    ∙ flag x hx
  where
    zero_add : (i : ℕ) → i ≡ 0 + i
    zero_add i = omega arith

    flag : (x : ℕ) → x < 2 → bit (0 + x) 0 ≡ (x == 1)
    flag x h = unfold bit in ground arith

pub sum_shifted-digits :
    (xs : List ℕ) (s i j : ℕ)
    → s < 2 ^ i
    → i + length xs ≤ 64
    → AreFlags xs
    → bit (sum_shifted s i xs) j ≡ (if ltb j i then bit s j else get_or xs (j - i) 0 == 1)
unfolding sum_shifted
sum_shifted-digits [] s i j hs le h = elim (dec_lt j i) [
  | yes lt ↦ rw (ltb-lt j i lt) refl
  | no ge ↦ rw (ltb-le j i (omega arith), bit-high i j s hs (omega arith)) refl
]
sum_shifted-digits (x ∷ xs) s i j hs le h =
    sum_shifted-digits xs (add s (shl x i)) (i + 1) j (rw sum.0 sum.1) (omega arith) h.1
    ∙ rw sum.0 (place j)
  where
    sum : (add s (shl x i) ≡ s + x * 2 ^ i) × (s + x * 2 ^ i < 2 ^ (i + 1))
    sum = step s x i hs h.0 (omega arith)

    later : (j : ℕ) → i < j → get_or xs (j - (i + 1)) 0 ≡ get_or (x ∷ xs) (j - i) 0
    later j lt = sym (ap (λ t. get_or (x ∷ xs) t 0) (less_one j lt))
      where
        less_one : (j : ℕ) → i < j → j - i ≡ suc (j - (i + 1))
        less_one j lt = omega arith

    place :
        (j : ℕ)
        → (if ltb j (i + 1) then bit (s + x * 2 ^ i) j else get_or xs (j - (i + 1)) 0 == 1)
          ≡ (if ltb j i then bit s j else get_or (x ∷ xs) (j - i) 0 == 1)
    place j = elim (dec_lt j i) [
      | yes lt ↦ rw (ltb-lt j i lt, ltb-lt j (i + 1) (omega arith)) (low_digit s x i j hs lt)
      | no ge ↦ elim (ℕ_discrete j i) [
        | yes e ↦
            rw (ltb-le j i (omega arith), ltb-lt j (i + 1) (omega arith))
              (ap (λ t. bit (s + x * 2 ^ i) t) e
                ∙ top_digit s x i hs h.0
                ∙ ap (λ t. get_or (x ∷ xs) t 0 == 1) (nothing j e))
        | no ne ↦
            rw (ltb-le j i (omega arith), ltb-le j (i + 1) (omega arith))
              (ap (λ t. t == 1) (later j (omega arith)))
      ]
    ]
      where
        nothing : (j : ℕ) → j ≡ i → 0 ≡ j - i
        nothing j e = omega arith

pub sum_shifted-IsWord : (xs : List ℕ) (s i : ℕ) → IsWord s → IsWord (sum_shifted s i xs)
unfolding sum_shifted
sum_shifted-IsWord [] s i h = h
sum_shifted-IsWord (x ∷ xs) s i h = sum_shifted-IsWord xs (add s (shl x i)) (i + 1) wrapped
  where
    wrapped : IsWord (add s (shl x i))
    wrapped = unfold add in omega arith
