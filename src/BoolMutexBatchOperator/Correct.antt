-- ===== src/BoolMutexBatchOperator/Correct.antt =====
-- Masks from flags, and one choice with a mask.
use mpc_package.Base.{ℕ, zero, suc, ◌+◌, ◌≤◌, ◌<◌, ◌≡◌, refl, ap, ◌∙◌}
use mpc_package.Base.{arith, List, [], ◌∷◌, map, length, get_or, Bool, true, false, xor}
use mpc_package.Base.{to_int, ltb-lt, ◌==◌, if◌then◌else◌, bit, bit_xor, bit-bit_xor}
use mpc_package.Base.{bit-zero, bit-ones}
use mpc_package.Word.{IsWord, ones}
use mpc_package.Math.{ring}
use mpc_package.Math.Ring.{ring-IsWord, bit-ring}
use mpc_package.Shares.Xor.{XorShares, XorShares-ring, XorShares-same}
use mpc_package.Linear.{xor_shares}
use mpc_package.Linear.Correct.{xor_shares-XorShares}
use mpc_package.BoolAndBatchOperator.Entry.{BatchShares}
use mpc_package.BoolMutexBatchOperator.{spread_conds, choose_from}

-- Both servers' shares of a list of flags.
pub data FlagShares : ℕ → List ℕ → List ℕ → List Bool → Type 0 where
  no_flag : FlagShares 0 [] [] []
  flag :
      {n : ℕ} {cs0 cs1 : List ℕ} {bs : List Bool} (b0 b1 : Bool)
      → FlagShares n cs0 cs1 bs
      → FlagShares (suc n) (to_int b0 ∷ cs0) (to_int b1 ∷ cs1) (xor b0 b1 ∷ bs)

-- All digits of the width set to a flag.
abbrev pub spread : ℕ → Bool → ℕ
spread width b = if to_int b == 0 then 0 else ring ones width

pub bit-spread :
    (width : ℕ) (b : Bool) (i : ℕ) → width ≤ 64 → i < width → bit (spread width b) i ≡ b
bit-spread width true i le lt =
    bit-ring ones width (omega arith) le i
    ∙ rw (ltb-lt i width lt, bit-ones 64 i, ltb-lt i 64 (omega arith)) refl
bit-spread width false i le lt = bit-zero i

pub spread-IsWord : (width : ℕ) (b : Bool) → width ≤ 64 → IsWord (spread width b)
spread-IsWord width true le = ring-IsWord ones width (omega arith) le
spread-IsWord width false le = omega arith

pub spread-XorShares :
    (width : ℕ) (b0 b1 : Bool)
    → width ≤ 64
    → XorShares width (spread width b0) (spread width b1) (spread width (xor b0 b1))
spread-XorShares width b0 b1 le = record {
  word0 = spread-IsWord width b0 le;
  word1 = spread-IsWord width b1 le;
  digits = λ i lt.
      rw
        (
          bit-spread width b0 i le lt,
          bit-spread width b1 i le lt,
          bit-spread width (xor b0 b1) i le lt,
        )
        refl;
}

pub FlagShares-BatchShares :
    {width n : ℕ} {cs0 cs1 : List ℕ} {bs : List Bool}
    → width ≤ 64
    → FlagShares n cs0 cs1 bs
    → BatchShares width n (spread_conds width cs0) (spread_conds width cs1) (map (spread width) bs)
unfolding spread_conds
FlagShares-BatchShares le no_flag = record {
  length0 = refl;
  length1 = refl;
  entry = λ i lt. absurd (omega arith);
}
FlagShares-BatchShares {width} le (flag {n} {cs0} {cs1} {bs} b0 b1 f) =
    let rest = FlagShares-BatchShares {width = width} le f in
    record { length0 = ap suc rest.length0; length1 = ap suc rest.length1; entry = entry rest }
  where
    entry :
        BatchShares width n
          (spread_conds width cs0)
          (spread_conds width cs1)
          (map (spread width) bs)
        → (i : ℕ) → i < suc n
        → XorShares width
            (get_or (spread width b0 ∷ spread_conds width cs0) i 0)
            (get_or (spread width b1 ∷ spread_conds width cs1) i 0)
            (get_or (spread width (xor b0 b1) ∷ map (spread width) bs) i 0)
    entry rest zero lt = spread-XorShares width b0 b1 le
    entry rest (suc i) lt = rest.entry i (omega arith)

pub FlagShares-length :
    {n : ℕ} {cs0 cs1 : List ℕ} {bs : List Bool} → FlagShares n cs0 cs1 bs → length bs ≡ n
FlagShares-length no_flag = refl
FlagShares-length (flag b0 b1 f) = ap suc (FlagShares-length f)

-- The list of masks read at a flag.
pub get-masks :
    (width : ℕ) (bs : List Bool) (i : ℕ)
    → i < length bs
    → get_or (map (spread width) bs) i 0 ≡ spread width (get_or bs i false)
get-masks width [] i lt = absurd (omega arith)
get-masks width (b ∷ bs) zero lt = refl
get-masks width (b ∷ bs) (suc i) lt = get-masks width bs i (omega arith)

pub choose_from-length :
    (width : ℕ) (zis yis : List ℕ) (num i left : ℕ)
    → length (choose_from width zis yis num i left) ≡ left
unfolding choose_from
choose_from-length width zis yis num i zero = refl
choose_from-length width zis yis num i (suc left) =
    ap suc (choose_from-length width zis yis num (suc i) left)

pub get-choose_from :
    (width : ℕ) (zis yis : List ℕ) (num k left i : ℕ)
    → i < left
    → get_or (choose_from width zis yis num k left) i 0
      ≡ ring
          (bit_xor
            (bit_xor (get_or zis (k + i) 0) (get_or yis (k + i) 0))
            (get_or zis (num + (k + i)) 0))
          width
unfolding choose_from
get-choose_from width zis yis num k zero i lt = absurd (omega arith)
get-choose_from width zis yis num k (suc left) zero lt =
    ap
      (λ j.
        ring (bit_xor (bit_xor (get_or zis j 0) (get_or yis j 0)) (get_or zis (num + j) 0)) width)
      (add_zero k)
  where
    add_zero : (k : ℕ) → k ≡ k + 0
    add_zero k = omega arith
get-choose_from width zis yis num k (suc left) (suc i) lt =
    get-choose_from width zis yis num (suc k) left i (omega arith)
    ∙ ap
        (λ j.
          ring (bit_xor (bit_xor (get_or zis j 0) (get_or yis j 0)) (get_or zis (num + j) 0)) width)
        (shift k i)
  where
    shift : (k i : ℕ) → suc k + i ≡ k + suc i
    shift k i = omega arith

-- One choice: `(x & m) ^ d ^ (y & m)`, where `d` is the operand that is not chosen by a set mask.
module _ {width : ℕ} (le : width ≤ 64) where
  pub chosen :
      {a0 a1 d0 d1 b0 b1 a d b : ℕ} (v : ℕ)
      → ((i : ℕ) → i < width → xor (xor (bit a i) (bit d i)) (bit b i) ≡ bit v i)
      → XorShares width a0 a1 a
      → XorShares width d0 d1 d
      → XorShares width b0 b1 b
      → XorShares width
          (ring (bit_xor (bit_xor a0 d0) b0) width)
          (ring (bit_xor (bit_xor a1 d1) b1) width)
          v
  unfolding xor_shares
  chosen {a = a} {d = d} {b = b} v h sa sd sb = XorShares-ring le (
      XorShares-same v
        (λ i lt.
          bit-bit_xor i (bit_xor a d) b ∙ ap (λ t. xor t (bit b i)) (bit-bit_xor i a d) ∙ h i lt)
        (xor_shares-XorShares (xor_shares-XorShares sa sd) sb))
