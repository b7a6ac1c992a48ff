-- ===== src/BoolMutexBatchOperator/Entries.antt =====
-- One entry of what the operator returns.
use mpc_package.Base.{ℕ, ◌+◌, ◌≤◌, ◌<◌, ◌≡◌, sym, ap, ap₂, ◌∙◌}
use mpc_package.Base.{arith, List, ◌++◌, map, length, length-map, get_or}
use mpc_package.Base.{Bool, true, false, ◌&&◌, xor}
use mpc_package.Base.{bit, bit_and, bit-bit_and, if◌then◌else◌}
use mpc_package.Shares.Xor.{XorShares}
use mpc_package.BoolAndBatchOperator.Entries.{get-append_left, get-append_right}
use mpc_package.BoolAndBatchOperator.Entry.{BatchShares, AndShares}
use mpc_package.BoolMutexBatchOperator.{choose_from}
use mpc_package.BoolMutexBatchOperator.Correct.{spread, bit-spread, get-masks}
use mpc_package.BoolMutexBatchOperator.Correct.{get-choose_from, chosen}

abbrev pub choose : Bool → ℕ → ℕ → ℕ
choose b x y = if b then x else y

pub get-twice :
    {n : ℕ} (us vs : List ℕ) (i : ℕ) → length us ≡ n → get_or (us ++ vs) (n + i) 0 ≡ get_or vs i 0
get-twice us vs i e = ap (λ t. get_or (us ++ vs) (t + i) 0) (sym e) ∙ get-append_right us vs i

zero_add : (i : ℕ) → 0 + i ≡ i
zero_add i = omega arith

-- A digit of a conjunction with a mask.
bit-masked :
    {width : ℕ} (u m x : ℕ) (b : Bool)
    → width ≤ 64
    → u ≡ x
    → m ≡ spread width b
    → (j : ℕ) → j < width
    → bit (bit_and u m) j ≡ (bit x j && b)
bit-masked {width} u m x b le p q j lt =
    bit-bit_and j u m
    ∙ ap₂ ◌&&◌ (ap (λ t. bit t j) p) (ap (λ t. bit t j) q ∙ bit-spread width b j le lt)

module _ {width n : ℕ} (le : width ≤ 64) (bs : List Bool) (xs ys : List ℕ) {zs0 zs1 : List ℕ}
    (e : length xs ≡ n) (f : length bs ≡ n)
    (s : AndShares width
      (n + n)
      (xs ++ ys)
      (map (spread width) bs ++ map (spread width) bs)
      zs0
      zs1) where
  entry-choose_from :
      {d0 d1 d : List ℕ} (v : ℕ)
      → BatchShares width n d0 d1 d
      → (i : ℕ) → i < n
      → ((j : ℕ)
          → xor
              (xor (bit (get_or xs i 0) j && get_or bs i false) (bit (get_or d i 0) j))
              (bit (get_or ys i 0) j && get_or bs i false)
            ≡ bit v j)
      → XorShares width
          (get_or (choose_from width zs0 d0 n 0 n) i 0)
          (get_or (choose_from width zs1 d1 n 0 n) i 0)
          v
  entry-choose_from {d0} {d1} {d} v sd i lt h =
      rw
        (
          get-choose_from width zs0 d0 n 0 n i lt,
          get-choose_from width zs1 d1 n 0 n i lt,
          zero_add i,
        )
        (chosen le v
          (λ j l. ap₂ (λ p q. xor (xor p (bit (get_or d i 0) j)) q) (first j l) (second j l) ∙ h j)
          (s.entry i (omega arith)) (sd.entry i lt) (s.entry (n + i) (omega arith)))
    where
      masks : length (map (spread width) bs) ≡ n
      masks = length-map (spread width) bs ∙ f

      first :
          (j : ℕ)
          → j < width
          → bit
              (bit_and
                (get_or (xs ++ ys) i 0)
                (get_or (map (spread width) bs ++ map (spread width) bs) i 0))
              j
            ≡ (bit (get_or xs i 0) j && get_or bs i false)
      first = bit-masked _ _ _ _ le (get-append_left xs ys i (omega (arith, e))) (
          get-append_left (map (spread width) bs) (map (spread width) bs) i (omega (arith, masks))
          ∙ get-masks width bs i (omega (arith, f)))

      second :
          (j : ℕ)
          → j < width
          → bit
              (bit_and
                (get_or (xs ++ ys) (n + i) 0)
                (get_or (map (spread width) bs ++ map (spread width) bs) (n + i) 0))
              j
            ≡ (bit (get_or ys i 0) j && get_or bs i false)
      second = bit-masked _ _ _ _ le (get-twice xs ys i e) (
          get-twice (map (spread width) bs) (map (spread width) bs) i masks
          ∙ get-masks width bs i (omega (arith, f)))

  pub chosen-entry :
      {ys0 ys1 : List ℕ}
      → BatchShares width n ys0 ys1 ys
      → (i : ℕ) → i < n
      → XorShares width
          (get_or (choose_from width zs0 ys0 n 0 n) i 0)
          (get_or (choose_from width zs1 ys1 n 0 n) i 0)
          (choose (get_or bs i false) (get_or xs i 0) (get_or ys i 0))
  chosen-entry sy i lt =
      entry-choose_from _ sy i lt λ j. digit (get_or bs i false) (get_or xs i 0) (get_or ys i 0) j
    where
      digit :
          (b : Bool) (x y j : ℕ)
          → xor (xor (bit x j && b) (bit y j)) (bit y j && b) ≡ bit (choose b x y) j
      digit true x y j = pair (bit x j) (bit y j)
        where
          pair : (p q : Bool) → xor (xor (p && true) q) (q && true) ≡ p
          pair p q = ground arith
      digit false x y j = pair (bit x j) (bit y j)
        where
          pair : (p q : Bool) → xor (xor (p && false) q) (q && false) ≡ q
          pair p q = ground arith

  pub other-entry :
      {xs0 xs1 : List ℕ}
      → BatchShares width n xs0 xs1 xs
      → (i : ℕ) → i < n
      → XorShares width
          (get_or (choose_from width zs0 xs0 n 0 n) i 0)
          (get_or (choose_from width zs1 xs1 n 0 n) i 0)
          (choose (get_or bs i false) (get_or ys i 0) (get_or xs i 0))
  other-entry sx i lt =
      entry-choose_from _ sx i lt λ j. digit (get_or bs i false) (get_or xs i 0) (get_or ys i 0) j
    where
      digit :
          (b : Bool) (x y j : ℕ)
          → xor (xor (bit x j && b) (bit x j)) (bit y j && b) ≡ bit (choose b y x) j
      digit true x y j = pair (bit x j) (bit y j)
        where
          pair : (p q : Bool) → xor (xor (p && true) p) (q && true) ≡ q
          pair p q = ground arith
      digit false x y j = pair (bit x j) (bit y j)
        where
          pair : (p q : Bool) → xor (xor (p && false) p) (q && false) ≡ p
          pair p q = ground arith
