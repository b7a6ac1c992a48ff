-- ===== src/Shares/Xor.antt =====
-- Boolean shares: two words whose exclusive or is the secret in the low `width` digits.
use native.Mathlib.Nat.{mod-lt, one-le-pow}
use mpc_package.Base.{ℕ, ◌%◌, ◌^◌, ◌≤◌, ◌<◌, ◌≡◌, refl, ◌∙◌, arith, Bool, ◌&&◌, true}
use mpc_package.Base.{
  List, [], ◌∷◌, map, length, bit_xor, bit, bit-bit_xor, bit-mod, bit_ext, bit_xor-lt,
}
use mpc_package.Base.{xor, ltb-lt}
use mpc_package.Word.{IsWord}
use mpc_package.Math.{ring, rand_int}
use mpc_package.Math.Ring.{ring_lem, bit-ring, ring-IsWord, rand_int-IsWord}
use mpc_package.Shares.{share_bool, reconstruct_bool, share_bool_batch, reconstruct_bool_batch}

pub record XorShares (width z0 z1 v : ℕ) : Type 0 where
  pub word0 : IsWord z0
  pub word1 : IsWord z1
  pub digits : (i : ℕ) → i < width → xor (bit z0 i) (bit z1 i) ≡ bit v i

-- In every width up to 64, what the client reconstructs from Boolean shares of `v` are the low
-- `width` bits of `v`.
pub reconstruct_bool-XorShares :
    (width z0 z1 v : ℕ)
    → width ≤ 64
    → XorShares width z0 z1 v
    → reconstruct_bool z0 z1 width ≡ v % 2 ^ width
unfolding reconstruct_bool
reconstruct_bool-XorShares width z0 z1 v le s =
    ring_lem (bit_xor z0 z1) width word le
    ∙ bit_ext width (bit_xor z0 z1 % 2 ^ width) (v % 2 ^ width) (below (bit_xor z0 z1)) (below v)
        (λ i lt.
          rw
            (
              bit-mod width i (bit_xor z0 z1),
              bit-mod width i v,
              ltb-lt i width lt,
              bit-bit_xor i z0 z1,
            )
            (s.digits i lt))
  where
    word : IsWord (bit_xor z0 z1)
    word = bit_xor-lt 64 z0 z1 s.word0 s.word1

    below : (n : ℕ) → n % 2 ^ width < 2 ^ width
    below n = mod-lt n (one-le-pow width 2 (omega arith))

-- Two secrets with the same low digits have the same shares.
pub XorShares-same :
    {width z0 z1 v : ℕ} (v' : ℕ)
    → ((i : ℕ) → i < width → bit v i ≡ bit v' i)
    → XorShares width z0 z1 v
    → XorShares width z0 z1 v'
XorShares-same v' e s = record {
  word0 = s.word0;
  word1 = s.word1;
  digits = λ i lt. s.digits i lt ∙ e i lt;
}

pub XorShares-symm : {width z0 z1 v : ℕ} → XorShares width z0 z1 v → XorShares width z1 z0 v
XorShares-symm {z0 = z0} {z1 = z1} s = record {
  word0 = s.word1;
  word1 = s.word0;
  digits = λ i lt. xor_comm (bit z1 i) (bit z0 i) ∙ s.digits i lt;
}
  where
    xor_comm : (a b : Bool) → xor a b ≡ xor b a
    xor_comm a b = ground arith

-- A share cut to the width.
pub XorShares-ring :
    {width z0 z1 v : ℕ}
    → width ≤ 64
    → XorShares width z0 z1 v
    → XorShares width (ring z0 width) (ring z1 width) v
XorShares-ring {width} {z0} {z1} {v} le s = record {
  word0 = ring-IsWord z0 width s.word0 le;
  word1 = ring-IsWord z1 width s.word1 le;
  digits = λ i lt.
      rw (bit-ring z0 width s.word0 le i, bit-ring z1 width s.word1 le i, ltb-lt i width lt)
        (s.digits i lt);
}

-- Whatever the client draws, what it sends are shares of its input.
pub share_bool-XorShares :
    (z width r : ℕ)
    → width ≤ 64
    → IsWord z
    → XorShares width (share_bool z width r).0 (share_bool z width r).1 z
unfolding share_bool
share_bool-XorShares z width r le h = record {
  word0 = ring-IsWord (bit_xor z z1) width mixed le;
  word1 = mask;
  digits = λ i lt.
      rw (bit-ring (bit_xor z z1) width mixed le i, ltb-lt i width lt, bit-bit_xor i z z1)
        (twice (bit z i) (bit z1 i));
}
  where
    z1 : ℕ
    z1 = ring (rand_int r) width

    mask : IsWord z1
    mask = ring-IsWord (rand_int r) width (rand_int-IsWord r) le

    mixed : IsWord (bit_xor z z1)
    mixed = bit_xor-lt 64 z z1 h mask

    twice : (a b : Bool) → xor (true && xor a b) b ≡ a
    twice a b = ground arith

-- Sharing a word with the single Boolean operator and reconstructing it gives its low `width` bits,
-- whatever is drawn, in every width up to 64.
pub reconstruct_bool-share_bool :
    (z width r : ℕ)
    → width ≤ 64
    → IsWord z
    → reconstruct_bool (share_bool z width r).0 (share_bool z width r).1 width ≡ z % 2 ^ width
reconstruct_bool-share_bool z width r le h =
    reconstruct_bool-XorShares width (share_bool z width r).0 (share_bool z width r).1 z le
      (share_bool-XorShares z width r le h)

abbrev pub AreWords : List ℕ → Type 0
AreWords [] = Unit
AreWords (x ∷ xs) = IsWord x × AreWords xs

-- Sharing a batch of words with the Boolean batch operator and reconstructing it gives the low
-- `width` bits of each, in every width up to 64, if there is a random number for each.
pub reconstruct_bool_batch-share_bool_batch :
    (zs rs : List ℕ) (width : ℕ)
    → width ≤ 64
    → AreWords zs
    → length rs ≡ length zs
    → reconstruct_bool_batch (share_bool_batch zs rs width).0 (share_bool_batch zs rs width).1 width
      ≡ map (λ z. z % 2 ^ width) zs
unfolding reconstruct_bool_batch share_bool_batch reconstruct_bool
reconstruct_bool_batch-share_bool_batch [] [] width le h e = refl
reconstruct_bool_batch-share_bool_batch [] (r ∷ rs) width le h e = absurd (omega arith)
reconstruct_bool_batch-share_bool_batch (z ∷ zs) [] width le h e = absurd (omega arith)
reconstruct_bool_batch-share_bool_batch (z ∷ zs) (r ∷ rs) width le h e = λ i.
    reconstruct_bool-share_bool z width r le h.0 i
    ∷ reconstruct_bool_batch-share_bool_batch zs rs width le h.1 (omega arith) i
