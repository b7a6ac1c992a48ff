-- ===== src/BoolAndBatchOperator/Entry.antt =====
-- One exchange: with a triple for each entry, the servers get shares of the conjunctions.
use mpc_package.Base.{ℕ, ◌+◌, ◌≤◌, ◌<◌, ◌≡◌, ap₂, ◌∙◌}
use mpc_package.Base.{arith, List, length, get_or}
use mpc_package.Base.{Bool, xor}
use mpc_package.Base.{bit, bit_and, bit_xor, bit-bit_and, bit-bit_xor, bit_xor-lt}
use mpc_package.Word.{IsWord}
use mpc_package.Math.{ring}
use mpc_package.Prog.Runs.{Runs, Runs-ret, Runs-exchange}
use mpc_package.Bmt.{Bmt}
use mpc_package.Bmt.Triples.{XorTriple}
use mpc_package.Shares.Xor.{XorShares, XorShares-symm, XorShares-ring}
use mpc_package.BoolAndOperator.{and_share}
use mpc_package.BoolAndOperator.Correct.{bit-and_share0, bit-and_share1, and_share-IsWord, digit}
use mpc_package.BoolAndBatchOperator.{xor_lists, and_all}
use mpc_package.BoolAndBatchOperator.Entries.{get-xor_lists, and_shares-length, get-and_shares}
use mpc_package.BoolAndBatchOperator.Entries.{sent, sent-first, sent-second, sent-length}

-- Entry by entry, Boolean shares of the values.
pub record BatchShares (width n : ℕ) (xs0 xs1 xs : List ℕ) : Type 0 where
  pub length0 : length xs0 ≡ n
  pub length1 : length xs1 ≡ n
  pub entry : (i : ℕ) → i < n → XorShares width (get_or xs0 i 0) (get_or xs1 i 0) (get_or xs i 0)

-- Entry by entry, Boolean shares of the conjunctions.
pub record AndShares (width n : ℕ) (xs ys zs0 zs1 : List ℕ) : Type 0 where
  pub length0 : length zs0 ≡ n
  pub length1 : length zs1 ≡ n
  pub entry :
      (i : ℕ)
      → i < n
      → XorShares width (get_or zs0 i 0) (get_or zs1 i 0) (bit_and (get_or xs i 0) (get_or ys i 0))

module _ {width : ℕ} (le : width ≤ 64) where
  -- An operand that both servers have masked.
  bit-masked :
      {x0 x1 x : ℕ} (a0 a1 i : ℕ)
      → i < width
      → XorShares width x0 x1 x
      → bit (bit_xor (bit_xor x0 a0) (bit_xor x1 a1)) i ≡ xor (bit x i) (xor (bit a0 i) (bit a1 i))
  bit-masked {x0} {x1} {x} a0 a1 i lt s =
      rw (bit-bit_xor i (bit_xor x0 a0) (bit_xor x1 a1), bit-bit_xor i x0 a0, bit-bit_xor i x1 a1)
        (regroup (bit x0 i) (bit x1 i) (bit a0 i) (bit a1 i) (bit x i) (s.digits i lt))
    where
      regroup :
          (x0 x1 a0 a1 x : Bool) → xor x0 x1 ≡ x → xor (xor x0 a0) (xor x1 a1) ≡ xor x (xor a0 a1)
      regroup x0 x1 a0 a1 x e = ground arith

  masked-IsWord :
      {x0 x1 x a0 a1 : ℕ}
      → XorShares width x0 x1 x
      → IsWord a0
      → IsWord a1
      → IsWord (bit_xor (bit_xor x0 a0) (bit_xor x1 a1))
  masked-IsWord {x0} {x1} {x} {a0} {a1} s h0 h1 =
      bit_xor-lt 64 _ _ (bit_xor-lt 64 x0 a0 s.word0 h0) (bit_xor-lt 64 x1 a1 s.word1 h1)

  -- One conjunction.
  entry-XorShares :
      {t0 t1 : Bmt} {x0 x1 y0 y1 x y : ℕ}
      → XorTriple width t0 t1
      → XorShares width x0 x1 x
      → XorShares width y0 y1 y
      → XorShares width
          (ring
            (and_share 0 width t0
              (bit_xor (bit_xor x0 t0.a) (bit_xor x1 t1.a))
              (bit_xor (bit_xor y0 t0.b) (bit_xor y1 t1.b)))
            width)
          (ring
            (and_share 1 width t1
              (bit_xor (bit_xor x1 t1.a) (bit_xor x0 t0.a))
              (bit_xor (bit_xor y1 t1.b) (bit_xor y0 t0.b)))
            width)
          (bit_and x y)
  entry-XorShares {t0} {t1} {x0} {x1} {y0} {y1} {x} {y} t sx sy = XorShares-ring le (record {
    word0 =
        and_share-IsWord 0 width _ _ t0 le (masked-IsWord sx t.words0.a_word t.words1.a_word)
          (masked-IsWord sy t.words0.b_word t.words1.b_word) t.words0;
    word1 =
        and_share-IsWord 1 width _ _ t1 le
          (masked-IsWord (XorShares-symm sx) t.words1.a_word t.words0.a_word)
          (masked-IsWord (XorShares-symm sy) t.words1.b_word t.words0.b_word) t.words1;
    digits = λ i lt.
        rw
          (
            bit-and_share0 width i (bit_xor (bit_xor x0 t0.a) (bit_xor x1 t1.a))
                (bit_xor (bit_xor y0 t0.b) (bit_xor y1 t1.b)) t0,
            bit-and_share1 width i (bit_xor (bit_xor x1 t1.a) (bit_xor x0 t0.a))
                (bit_xor (bit_xor y1 t1.b) (bit_xor y0 t0.b)) t1 le lt,
            bit-masked t0.a t1.a i lt sx,
            bit-masked t0.b t1.b i lt sy,
            bit-masked t1.a t0.a i lt (XorShares-symm sx),
            bit-masked t1.b t0.b i lt (XorShares-symm sy),
            bit-bit_and i x y,
          )
          (digit (bit x i) (bit y i) (bit t0.a i) (bit t1.a i) (bit t0.b i) (bit t1.b i)
            (bit t0.c i) (bit t1.c i) (t.digits i lt));
  })

  -- What both servers make of what they sent to each other.
  pub and_all-Runs :
      {n : ℕ} (m0 m1 : ℕ → Bmt) {xs0 xs1 xs ys0 ys1 ys : List ℕ}
      → ((i : ℕ) → i < n → XorTriple width (m0 i) (m1 i))
      → BatchShares width n xs0 xs1 xs
      → BatchShares width n ys0 ys1 ys
      → Runs (and_all 0 width m0 xs0 ys0) (and_all 1 width m1 xs1 ys1) (AndShares width n xs ys)
  unfolding and_all
  and_all-Runs {n} m0 m1 {xs0} {xs1} {xs} {ys0} {ys1} {ys} t sx sy = Runs-exchange _ _ (
      Runs-ret _ _ (
        rw (sx.length0, sx.length1)
          (record {
            length0 = and_shares-length 0 width m0 n _ 0 n;
            length1 = and_shares-length 1 width m1 n _ 0 n;
            entry = λ i lt.
                rw
                  (
                    get-and_shares 0 width m0 n efs0 0 n i lt,
                    get-and_shares 1 width m1 n efs1 0 n i lt,
                    zero_add i,
                    first m0 m1 xs0 xs1 ys0 ys1 sx.length0 sx.length1 sy.length0 sy.length1 i lt,
                    second m0 m1 xs0 xs1 ys0 ys1 sx.length0 sx.length1 sy.length0 sy.length1 i lt,
                    first m1 m0 xs1 xs0 ys1 ys0 sx.length1 sx.length0 sy.length1 sy.length0 i lt,
                    second m1 m0 xs1 xs0 ys1 ys0 sx.length1 sx.length0 sy.length1 sy.length0 i lt,
                  )
                  (entry-XorShares (t i lt) (sx.entry i lt) (sy.entry i lt));
          })))
    where
      zero_add : (i : ℕ) → 0 + i ≡ i
      zero_add i = omega arith

      efs0 : List ℕ
      efs0 = xor_lists (sent n m0 xs0 ys0) (sent n m1 xs1 ys1)

      efs1 : List ℕ
      efs1 = xor_lists (sent n m1 xs1 ys1) (sent n m0 xs0 ys0)

      first :
          (m m' : ℕ → Bmt) (xs xs' ys ys' : List ℕ)
          → length xs ≡ n
          → length xs' ≡ n
          → length ys ≡ n
          → length ys' ≡ n
          → (i : ℕ) → i < n
          → get_or (xor_lists (sent n m xs ys) (sent n m' xs' ys')) i 0
            ≡ bit_xor (bit_xor (get_or xs i 0) (m i).a) (bit_xor (get_or xs' i 0) (m' i).a)
      first m m' xs xs' ys ys' p p' q q' i lt =
          get-xor_lists _ _ i (omega (arith, sent-length n m xs ys p q))
            (omega (arith, sent-length n m' xs' ys' p' q'))
          ∙ ap₂ bit_xor (sent-first n m xs ys i p lt) (sent-first n m' xs' ys' i p' lt)

      second :
          (m m' : ℕ → Bmt) (xs xs' ys ys' : List ℕ)
          → length xs ≡ n
          → length xs' ≡ n
          → length ys ≡ n
          → length ys' ≡ n
          → (i : ℕ) → i < n
          → get_or (xor_lists (sent n m xs ys) (sent n m' xs' ys')) (n + i) 0
            ≡ bit_xor (bit_xor (get_or ys i 0) (m i).b) (bit_xor (get_or ys' i 0) (m' i).b)
      second m m' xs xs' ys ys' p p' q q' i lt =
          get-xor_lists _ _ (n + i) (omega (arith, sent-length n m xs ys p q))
            (omega (arith, sent-length n m' xs' ys' p' q'))
          ∙ ap₂ bit_xor (sent-second n m xs ys i p q lt) (sent-second n m' xs' ys' i p' q' lt)
