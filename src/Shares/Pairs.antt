-- ===== src/Shares/Pairs.antt =====
-- Two batches in one message: what the servers split off is what the client shared out.
use mpc_package.Base.{ℕ, zero, suc, ◌+◌, ◌/◌, ◌%◌, ◌^◌, ◌≤◌, ◌≡◌, refl, sym, ap, ◌∙◌, arith}
use mpc_package.Base.{
  List, [], ◌∷◌, ◌++◌, map, length, length-append, take, take-append, drop-append,
}
use mpc_package.Shares.{share_bool_batch, share_bool_batches, reconstruct_bool_batch}
use mpc_package.Shares.{
  share_arith_batch, share_arith_batches, reconstruct_arith_batch, split_operands,
}
use mpc_package.Shares.Xor.{AreWords, reconstruct_bool_batch-share_bool_batch}
use mpc_package.Shares.Sum.{reconstruct_arith_batch-share_arith_batch}

take_all : (n : ℕ) (xs : List ℕ) → length xs ≡ n → take n xs ≡ xs
take_all zero [] e = refl
take_all zero (x ∷ xs) e = absurd (omega arith)
take_all (suc n) [] e = absurd (omega arith)
take_all (suc n) (x ∷ xs) e = ap (λ t. x ∷ t) (take_all n xs (omega arith))

-- Two batches of the same length come apart where they were joined.
split-append :
    (n : ℕ) (xs ys : List ℕ)
    → length xs ≡ n
    → length ys ≡ n
    → ((split_operands (xs ++ ys)).0 ≡ xs) × ((split_operands (xs ++ ys)).1 ≡ ys)
unfolding split_operands
split-append n xs ys p q =
    rw
      (
        length-append xs ys,
        half (length xs) (length ys) (p ∙ sym q),
        take-append xs ys,
        drop-append xs ys,
      )
      (refl, take_all (length xs) ys (q ∙ sym p))
  where
    half : (m k : ℕ) → m ≡ k → (m + k) / 2 ≡ m
    half m k e = omega arith

share_bool_batch-length :
    (zs rs : List ℕ) (width : ℕ)
    → length rs ≡ length zs
    → (length (share_bool_batch zs rs width).0 ≡ length zs)
      × (length (share_bool_batch zs rs width).1 ≡ length zs)
unfolding share_bool_batch
share_bool_batch-length [] [] width e = (refl, refl)
share_bool_batch-length [] (r ∷ rs) width e = (refl, refl)
share_bool_batch-length (z ∷ zs) [] width e = absurd (omega arith)
share_bool_batch-length (z ∷ zs) (r ∷ rs) width e =
    let rest = share_bool_batch-length zs rs width (omega arith) in (ap suc rest.0, ap suc rest.1)

share_arith_batch-length :
    (zs rs : List ℕ)
    → length rs ≡ length zs
    → (length (share_arith_batch zs rs).0 ≡ length zs)
      × (length (share_arith_batch zs rs).1 ≡ length zs)
unfolding share_arith_batch
share_arith_batch-length [] [] e = (refl, refl)
share_arith_batch-length [] (r ∷ rs) e = (refl, refl)
share_arith_batch-length (z ∷ zs) [] e = absurd (omega arith)
share_arith_batch-length (z ∷ zs) (r ∷ rs) e =
    let rest = share_arith_batch-length zs rs (omega arith) in (ap suc rest.0, ap suc rest.1)

-- Sharing two batches of words of the same length with the Boolean batch operator, splitting what a
-- server gets into its operands, and reconstructing these gives the low `width` bits of each word,
-- in every width up to 64, if there is a random number for each.
pub reconstruct-share_bool_batches :
    (xs ys rs ss : List ℕ) (width : ℕ)
    → width ≤ 64
    → AreWords xs
    → AreWords ys
    → length ys ≡ length xs
    → length rs ≡ length xs
    → length ss ≡ length ys
    → (let (v0, v1) = share_bool_batches xs ys rs ss width in
        (reconstruct_bool_batch (split_operands v0).0 (split_operands v1).0 width
          ≡ map (λ z. z % 2 ^ width) xs)
        × (reconstruct_bool_batch (split_operands v0).1 (split_operands v1).1 width
            ≡ map (λ z. z % 2 ^ width) ys))
unfolding share_bool_batches
reconstruct-share_bool_batches xs ys rs ss width le hx hy e p q =
    rw (apart0.0, apart1.0, apart0.1, apart1.1)
      (
        reconstruct_bool_batch-share_bool_batch xs rs width le hx p,
        reconstruct_bool_batch-share_bool_batch ys ss width le hy q,
      )
  where
    apart0 :
        ((split_operands ((share_bool_batch xs rs width).0 ++ (share_bool_batch ys ss width).0)).0
          ≡ (share_bool_batch xs rs width).0)
        × ((split_operands ((share_bool_batch xs rs width).0 ++ (share_bool_batch ys ss width).0)).1
            ≡ (share_bool_batch ys ss width).0)
    apart0 =
        split-append (length xs) _ _ (share_bool_batch-length xs rs width p).0
          ((share_bool_batch-length ys ss width q).0 ∙ e)

    apart1 :
        ((split_operands ((share_bool_batch xs rs width).1 ++ (share_bool_batch ys ss width).1)).0
          ≡ (share_bool_batch xs rs width).1)
        × ((split_operands ((share_bool_batch xs rs width).1 ++ (share_bool_batch ys ss width).1)).1
            ≡ (share_bool_batch ys ss width).1)
    apart1 =
        split-append (length xs) _ _ (share_bool_batch-length xs rs width p).1
          ((share_bool_batch-length ys ss width q).1 ∙ e)

-- Sharing two batches of the same length with the arithmetic batch operator, splitting what a
-- server gets into its operands, and reconstructing these gives each number modulo 2 ^ 64, if there
-- is a random number for each.
pub reconstruct-share_arith_batches :
    (xs ys rs ss : List ℕ)
    → length ys ≡ length xs
    → length rs ≡ length xs
    → length ss ≡ length ys
    → (let (v0, v1) = share_arith_batches xs ys rs ss in
        (reconstruct_arith_batch (split_operands v0).0 (split_operands v1).0
          ≡ map (λ z. z % 2 ^ 64) xs)
        × (reconstruct_arith_batch (split_operands v0).1 (split_operands v1).1
            ≡ map (λ z. z % 2 ^ 64) ys))
unfolding share_arith_batches
reconstruct-share_arith_batches xs ys rs ss e p q =
    rw (apart0.0, apart1.0, apart0.1, apart1.1)
      (
        reconstruct_arith_batch-share_arith_batch xs rs p,
        reconstruct_arith_batch-share_arith_batch ys ss q,
      )
  where
    apart0 :
        ((split_operands ((share_arith_batch xs rs).0 ++ (share_arith_batch ys ss).0)).0
          ≡ (share_arith_batch xs rs).0)
        × ((split_operands ((share_arith_batch xs rs).0 ++ (share_arith_batch ys ss).0)).1
            ≡ (share_arith_batch ys ss).0)
    apart0 =
        split-append (length xs) _ _ (share_arith_batch-length xs rs p).0
          ((share_arith_batch-length ys ss q).0 ∙ e)

    apart1 :
        ((split_operands ((share_arith_batch xs rs).1 ++ (share_arith_batch ys ss).1)).0
          ≡ (share_arith_batch xs rs).1)
        × ((split_operands ((share_arith_batch xs rs).1 ++ (share_arith_batch ys ss).1)).1
            ≡ (share_arith_batch ys ss).1)
    apart1 =
        split-append (length xs) _ _ (share_arith_batch-length xs rs p).1
          ((share_arith_batch-length ys ss q).1 ∙ e)
