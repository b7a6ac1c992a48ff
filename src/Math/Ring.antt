-- ===== src/Math/Ring.antt =====
-- What `ring`, `getBit`, `changeBit` and `randInt` return: digit by digit, and as a remainder.
use native.Mathlib.Nat.{mod-eq_of_lt, mod-lt, one-le-pow, pow-suc, pow-le-pow_right}
use native.Mathlib.Nat.{mod-le}
use mpc_package.Base.{ℕ, zero, suc, ◌+◌, ◌-◌, ◌*◌, ◌%◌, ◌^◌, ◌≤◌, ◌<◌, ◌≡◌, refl, sym, ap, ap₂}
use mpc_package.Base.{◌∙◌, Bool, true, false, not, ◌&&◌, ◌||◌, arith, bit_and, inl, inr}
use mpc_package.Base.{ltb, ltb-lt, ◌==◌, if◌then◌else◌, to_int, Bool-cases}
use mpc_package.Base.{bit, bit-mod, bit-ones, bit-bit_and, bit-bit_or, bit_ext}
use mpc_package.Base.{bit_and-lt, bit_or-lt, bit-zero}
use mpc_package.Word.{IsWord, shl, sar, inv, sub}
use mpc_package.Word.Bits.{bit-shl, bit-inv, bit-sar, sar-IsWord, shl-IsWord}
use mpc_package.Word.Cong.{Cong, Cong-mod}
use mpc_package.Math.{ring, get_bit, change_bit, rand_int}

pub pow-lt-word : (width : ℕ) → width < 64 → 2 ^ width < 2 ^ 64
pow-lt-word width h = omega (
  arith,
  pow-suc 2 width,
  pow-le-pow_right {n = 2} (omega arith) h,
  one-le-pow width 2 (omega arith),
)

pub mask-eq : (width : ℕ) → width < 64 → sub (shl 1 width) 1 ≡ 2 ^ width - 1
unfolding sub shl
mask-eq width h = go (2 ^ width) (pow-lt-word width h) (one-le-pow width 2 (omega arith))
  where
    go : (p : ℕ) → p < 2 ^ 64 → 1 ≤ p → (1 * p % 2 ^ 64 + (2 ^ 64 - 1)) % 2 ^ 64 ≡ p - 1
    go p h k = omega arith

pub mod-IsWord : (n k : ℕ) → IsWord n → IsWord (n % k)
mod-IsWord n k h = omega (arith, mod-le n k)

-- A mask of ones takes the remainder.
bit_and_mask : (k a : ℕ) → k ≤ 64 → IsWord a → bit_and a (2 ^ k - 1) ≡ a % 2 ^ k
bit_and_mask k a le h =
    bit_ext 64 (bit_and a (2 ^ k - 1)) (a % 2 ^ k) (bit_and-lt 64 a (2 ^ k - 1) h)
      (mod-IsWord a (2 ^ k) h)
      (λ i lt.
        rw (bit-bit_and i a (2 ^ k - 1), bit-ones k i, bit-mod k i a) (swap (ltb i k) (bit a i)))
  where
    swap : (p q : Bool) → (q && p) ≡ (p && q)
    swap p q = ground arith

-- On a word, and in every width up to 64, `ring` is the remainder modulo 2 ^ width.
pub ring_lem : (num width : ℕ) → IsWord num → width ≤ 64 → ring num width ≡ num % 2 ^ width
unfolding ring
ring_lem num width h le = elim (Bool-cases (width == 64)) [
  | inl e ↦ rw e (sym (ap (λ t. num % 2 ^ t) (is_64 width e) ∙ mod-eq_of_lt h))
  | inr ne ↦ rw (ne, mask-eq width (below width le ne)) (bit_and_mask width num le h)
]
  where
    is_64 : (w : ℕ) → (w == 64) ≡ true → w ≡ 64
    is_64 w e = ground arith

    below : (w : ℕ) → w ≤ 64 → (w == 64) ≡ false → w < 64
    below w le ne = ground arith

module _ (num width : ℕ) (h : IsWord num) (le : width ≤ 64) where
  pub ring-lt : ring num width < 2 ^ width
  ring-lt = rw (ring_lem num width h le) (mod-lt num (one-le-pow width 2 (omega arith)))

  pub ring-IsWord : IsWord (ring num width)
  ring-IsWord = rw (ring_lem num width h le) (mod-IsWord num (2 ^ width) h)

  pub ring-Cong : Cong width (ring num width) num
  ring-Cong = rw (ring_lem num width h le) (Cong-mod num)

  pub bit-ring : (i : ℕ) → bit (ring num width) i ≡ (ltb i width && bit num i)
  bit-ring i = rw (ring_lem num width h le) (bit-mod width i num)

pub ring-fits : (num width : ℕ) → num < 2 ^ width → width ≤ 64 → ring num width ≡ num
ring-fits num width h le = ring_lem num width (fits le h) le ∙ mod-eq_of_lt h
  where
    fits : width ≤ 64 → num < 2 ^ width → IsWord num
    fits le h = omega (arith, pow-le-pow_right {n = 2} (omega arith) le)

pub bit_and_one : (a : ℕ) → IsWord a → bit_and a 1 ≡ a % 2
bit_and_one a h = bit_and_mask 1 a (omega arith) h

-- On a word, `get_bit` reads the digit `i` below 64, also of a negative number, whose sign the
-- shift repeats.
pub get_bit_lem : (v i : ℕ) → IsWord v → i < 64 → get_bit v i ≡ bit v i
unfolding get_bit
get_bit_lem v i h lt =
    ap (λ t. not (t == 0)) (bit_and_one (sar v i) (sar-IsWord v i h))
    ∙ low (sar v i)
    ∙ bit-sar v i 0 h (omega arith)
    ∙ ap (λ t. bit v t) (zero_add i)
  where
    low : (t : ℕ) → not (t % 2 == 0) ≡ bit t 0
    low t = unfold bit in ground arith

    zero_add : (i : ℕ) → 0 + i ≡ i
    zero_add i = omega arith

pub bit-to_int : (b : Bool) (i : ℕ) → bit (to_int b) i ≡ (b && i == 0)
unfolding bit
bit-to_int true zero = refl
bit-to_int true (suc i) = bit-zero i ∙ ground arith
bit-to_int false i = bit-zero i

-- `change_bit` sets the digit `i` below 64 to `b` and keeps every other digit below 64.
pub bit-change_bit :
    (v i : ℕ) (b : Bool) (j : ℕ)
    → i < 64
    → j < 64
    → bit (change_bit v i b) j ≡ (if j == i then b else bit v j)
unfolding change_bit
bit-change_bit v i b j hi hj =
    bit-bit_or j (bit_and v (inv (shl 1 i))) (shl (to_int b) i)
    ∙ ap₂ ◌||◌
        (bit-bit_and j v (inv (shl 1 i))
          ∙ ap (λ t. bit v j && t) (bit-inv (shl 1 i) j hj ∙ ap not (bit-flag true)))
        (bit-flag b)
    ∙ choose (bit v j)
  where
    bit-flag : (c : Bool) → bit (shl (to_int c) i) j ≡ (if ltb j i then false else c && j - i == 0)
    bit-flag c =
        bit-shl (to_int c) i j
        ∙ rw (ltb-lt j 64 hj) (ap (λ t. if ltb j i then false else t) (bit-to_int c (j - i)))

    choose :
        (old : Bool)
        → (old && not (if ltb j i then false else true && j - i == 0)
            || (if ltb j i then false else b && j - i == 0))
          ≡ (if j == i then b else old)
    choose old = ground arith

pub change_bit-IsWord : (v i : ℕ) (b : Bool) → IsWord v → IsWord (change_bit v i b)
unfolding change_bit
change_bit-IsWord v i b h = bit_or-lt 64 _ _ (bit_and-lt 64 v _ h) (shl-IsWord (to_int b) i)

pub rand_int-IsWord : (r : ℕ) → IsWord (rand_int r)
unfolding rand_int
rand_int-IsWord r = omega arith
