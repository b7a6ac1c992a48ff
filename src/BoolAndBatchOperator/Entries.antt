-- ===== src/BoolAndBatchOperator/Entries.antt =====
-- The loops of the operator, read entry by entry.
use mpc_package.Base.{ℕ, zero, suc, ◌+◌, ◌<◌, ◌≡◌, refl, sym, ap, ap₂, ◌∙◌}
use mpc_package.Base.{arith, List, [], ◌∷◌, ◌++◌, length, length-append, get_or}
use mpc_package.Base.{bit_xor}
use mpc_package.Math.{ring}
use mpc_package.Bmt.{Bmt}
use mpc_package.BoolAndOperator.{and_share}
use mpc_package.BoolAndBatchOperator.{mask_all, xor_lists, and_shares}

pub mask_all-length : (mask : ℕ → ℕ) (k : ℕ) (xs : List ℕ) → length (mask_all mask k xs) ≡ length xs
unfolding mask_all
mask_all-length mask k [] = refl
mask_all-length mask k (x ∷ xs) = ap suc (mask_all-length mask (suc k) xs)

pub get-mask_all :
    (mask : ℕ → ℕ) (k : ℕ) (xs : List ℕ) (i : ℕ)
    → i < length xs
    → get_or (mask_all mask k xs) i 0 ≡ bit_xor (get_or xs i 0) (mask (k + i))
unfolding mask_all
get-mask_all mask k [] i lt = absurd (omega arith)
get-mask_all mask k (x ∷ xs) zero lt = ap (λ t. bit_xor x (mask t)) (add_zero k)
  where
    add_zero : (k : ℕ) → k ≡ k + 0
    add_zero k = omega arith
get-mask_all mask k (x ∷ xs) (suc i) lt =
    get-mask_all mask (suc k) xs i (omega arith)
    ∙ ap (λ t. bit_xor (get_or xs i 0) (mask t)) (shift k i)
  where
    shift : (k i : ℕ) → suc k + i ≡ k + suc i
    shift k i = omega arith

pub get-append_left :
    (xs ys : List ℕ) (i : ℕ) → i < length xs → get_or (xs ++ ys) i 0 ≡ get_or xs i 0
get-append_left [] ys i lt = absurd (omega arith)
get-append_left (x ∷ xs) ys zero lt = refl
get-append_left (x ∷ xs) ys (suc i) lt = get-append_left xs ys i (omega arith)

pub get-append_right :
    (xs ys : List ℕ) (i : ℕ) → get_or (xs ++ ys) (length xs + i) 0 ≡ get_or ys i 0
get-append_right [] ys i = ap (λ t. get_or ys t 0) (zero_add i)
  where
    zero_add : (i : ℕ) → 0 + i ≡ i
    zero_add i = omega arith
get-append_right (x ∷ xs) ys i =
    ap (λ t. get_or (x ∷ (xs ++ ys)) t 0) (suc_add (length xs) i) ∙ get-append_right xs ys i
  where
    suc_add : (m i : ℕ) → suc m + i ≡ suc (m + i)
    suc_add m i = omega arith

pub get-xor_lists :
    (xs ys : List ℕ) (i : ℕ)
    → i < length xs
    → i < length ys
    → get_or (xor_lists xs ys) i 0 ≡ bit_xor (get_or xs i 0) (get_or ys i 0)
unfolding xor_lists
get-xor_lists [] ys i p q = absurd (omega arith)
get-xor_lists (x ∷ xs) [] i p q = absurd (omega arith)
get-xor_lists (x ∷ xs) (y ∷ ys) zero p q = refl
get-xor_lists (x ∷ xs) (y ∷ ys) (suc i) p q = get-xor_lists xs ys i (omega arith) (omega arith)

module _ (rank width : ℕ) (bmt : ℕ → Bmt) (num : ℕ) (efs : List ℕ) where
  pub and_shares-length : (k left : ℕ) → length (and_shares rank width bmt num efs k left) ≡ left
  unfolding and_shares
  and_shares-length k zero = refl
  and_shares-length k (suc left) = ap suc (and_shares-length (suc k) left)

  pub get-and_shares :
      (k left i : ℕ)
      → i < left
      → get_or (and_shares rank width bmt num efs k left) i 0
        ≡ ring
            (and_share rank width
              (bmt (k + i))
              (get_or efs (k + i) 0)
              (get_or efs (num + (k + i)) 0))
            width
  unfolding and_shares
  get-and_shares k zero i lt = absurd (omega arith)
  get-and_shares k (suc left) zero lt = ap at (add_zero k)
    where
      at : ℕ → ℕ
      at j = ring (and_share rank width (bmt j) (get_or efs j 0) (get_or efs (num + j) 0)) width

      add_zero : (k : ℕ) → k ≡ k + 0
      add_zero k = omega arith
  get-and_shares k (suc left) (suc i) lt =
      get-and_shares (suc k) left i (omega arith) ∙ ap at (shift k i)
    where
      at : ℕ → ℕ
      at j = ring (and_share rank width (bmt j) (get_or efs j 0) (get_or efs (num + j) 0)) width

      shift : (k i : ℕ) → suc k + i ≡ k + suc i
      shift k i = omega arith

-- What a server sends: its masked operands.
module _ (n : ℕ) where
  abbrev pub sent : (ℕ → Bmt) → List ℕ → List ℕ → List ℕ
  sent m xs ys = mask_all (λ i. (m i).a) 0 xs ++ mask_all (λ i. (m i).b) 0 ys

  pub sent-first :
      (m : ℕ → Bmt) (xs ys : List ℕ) (i : ℕ)
      → length xs ≡ n
      → i < n
      → get_or (sent m xs ys) i 0 ≡ bit_xor (get_or xs i 0) (m i).a
  sent-first m xs ys i e lt =
      get-append_left (mask_all (λ i. (m i).a) 0 xs) _ i
        (omega (arith, mask_all-length (λ i. (m i).a) 0 xs))
      ∙ get-mask_all (λ i. (m i).a) 0 xs i (omega arith)
      ∙ ap (λ t. bit_xor (get_or xs i 0) (m t).a) (zero_add i)
    where
      zero_add : (i : ℕ) → 0 + i ≡ i
      zero_add i = omega arith

  pub sent-second :
      (m : ℕ → Bmt) (xs ys : List ℕ) (i : ℕ)
      → length xs ≡ n
      → length ys ≡ n
      → i < n
      → get_or (sent m xs ys) (n + i) 0 ≡ bit_xor (get_or ys i 0) (m i).b
  sent-second m xs ys i e e' lt =
      ap (λ t. get_or (mask_all (λ i. (m i).a) 0 xs ++ mask_all (λ i. (m i).b) 0 ys) (t + i) 0)
        (sym (mask_all-length (λ i. (m i).a) 0 xs ∙ e))
      ∙ get-append_right (mask_all (λ i. (m i).a) 0 xs) (mask_all (λ i. (m i).b) 0 ys) i
      ∙ get-mask_all (λ i. (m i).b) 0 ys i (omega arith)
      ∙ ap (λ t. bit_xor (get_or ys i 0) (m t).b) (zero_add i)
    where
      zero_add : (i : ℕ) → 0 + i ≡ i
      zero_add i = omega arith

  pub sent-length :
      (m : ℕ → Bmt) (xs ys : List ℕ) → length xs ≡ n → length ys ≡ n → length (sent m xs ys) ≡ n + n
  sent-length m xs ys e e' =
      length-append (mask_all (λ i. (m i).a) 0 xs) (mask_all (λ i. (m i).b) 0 ys)
      ∙ ap₂ ◌+◌ (mask_all-length _ 0 xs ∙ e) (mask_all-length _ 0 ys ∙ e')
