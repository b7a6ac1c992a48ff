-- ===== src/BoolLessOperator/Rounds.antt =====
-- The rounds of the operator on both servers.
use native.Mathlib.Nat.{one-le-pow, pow-suc, pow-le-pow_right}
use mathlib.Core.Path.{subst}
use mpc_package.Base.{
  ℕ, zero, suc, ◌+◌, ◌-◌, ◌*◌, ◌/◌, ◌^◌, ◌≤◌, ◌<◌, ◌≡◌, refl, sym, ap, ap₂, ◌∙◌, arith,
}
use mpc_package.Base.{List, Option, Bool, false, xor, ltb}
use mpc_package.Base.{bit_and-lt}
use mpc_package.Word.{IsWord}
use mpc_package.Prog.Runs.{Runs, Runs-bind, Runs-ret, Runs-weaken}
use mpc_package.Bmt.{Bmt, Env}
use mpc_package.Bmt.Triples.{BitwiseSupply}
use mpc_package.Shares.Xor.{XorShares}
use mpc_package.BoolAndOperator
use mpc_package.BoolAndOperator.Correct.{and-XorShares}
use mpc_package.BoolLessOperator.{shift_greater, floor_log2, bmt_at, and_rounds}
use mpc_package.BoolLessOperator.Shift.{source_of, source_of-lt, shift_greater-bit}
use mpc_package.BoolLessOperator.Collects.{Collects}
use mpc_package.BoolLessOperator.Blocks.{round, round_from-Collects}

-- The logarithm of a power of two.
pub log-pow : (fuel m : ℕ) → m ≤ fuel → floor_log2 fuel (2 ^ m) ≡ m
unfolding floor_log2
log-pow zero m le = omega arith
log-pow (suc fuel) zero le = refl
log-pow (suc fuel) (suc m) le =
    rw (large (pow-suc 2 m) (one-le-pow m 2 (omega arith)), halve (pow-suc 2 m))
      (ap suc (log-pow fuel m (omega arith)))
  where
    large : 2 ^ suc m ≡ 2 ^ m * 2 → 1 ≤ 2 ^ m → ltb (2 ^ suc m) 2 ≡ false
    large e le = ground (arith, e, le)

    halve : 2 ^ suc m ≡ 2 ^ m * 2 → 2 ^ suc m / 2 ≡ 2 ^ m
    halve e = omega (arith, e)

pub le-pow : (m : ℕ) → m ≤ 2 ^ m
le-pow zero = omega arith
le-pow (suc m) = omega (arith, pow-suc 2 m, le-pow m, one-le-pow m 2 (omega arith))

-- Shares of a number that collects blocks of `p` digits.
pub record Collected (e : ℕ → Bool) (w p z0 z1 : ℕ) : Type 0 where
  pub number : ℕ
  pub word : IsWord number
  pub collects : Collects e w p number
  pub shares : XorShares w z0 z1 number

module _ (m : ℕ) (le : 2 ^ m ≤ 64) where
  shift-XorShares :
      (r z0 z1 n : ℕ)
      → 0 < r
      → r ≤ m
      → IsWord n
      → XorShares (2 ^ m) z0 z1 n
      → XorShares
          (2 ^ m)
          (shift_greater (2 ^ m) z0 r)
          (shift_greater (2 ^ m) z1 r)
          (shift_greater (2 ^ m) n r)
  shift-XorShares r z0 z1 n pos lt h s = record {
    word0 = (shift_greater-bit (2 ^ m) z0 r 0 le pos fits s.word0 some).0;
    word1 = (shift_greater-bit (2 ^ m) z1 r 0 le pos fits s.word1 some).0;
    digits = λ j below.
        ap₂ xor (shift_greater-bit (2 ^ m) z0 r j le pos fits s.word0 below).1
          (shift_greater-bit (2 ^ m) z1 r j le pos fits s.word1 below).1
        ∙ s.digits (source_of (2 ^ m) (2 ^ r) j) (source_of-lt (2 ^ m) (2 ^ r) j below)
        ∙ sym (shift_greater-bit (2 ^ m) n r j le pos fits h below).1;
  }
    where
      fits : 2 ^ r ≤ 2 ^ m
      fits = pow-le-pow_right {n = 2} (omega arith) lt

      some : 0 < 2 ^ m
      some = one-le-pow m 2 (omega arith)

  module _ (env0 env1 : Env) (bmts0 bmts1 : Option (List Bmt))
      (supply : (i : ℕ) → BitwiseSupply (2 ^ m) env0 env1 (bmt_at bmts0 i) (bmt_at bmts1 i)) where
    -- A conjunction with the shifted number doubles the blocks.
    pub round-Collected :
        (e : ℕ → Bool) (i r z0 z1 : ℕ)
        → 0 < r
        → r ≤ m
        → Collected e (2 ^ m) (2 ^ (r - 1)) z0 z1
        → Runs
            (BoolAndOperator.execute env0 0
              (2 ^ m)
              (bmt_at bmts0 i)
              z0
              (shift_greater (2 ^ m) z0 r))
            (BoolAndOperator.execute env1 1
              (2 ^ m)
              (bmt_at bmts1 i)
              z1
              (shift_greater (2 ^ m) z1 r))
            (Collected e (2 ^ m) (2 ^ r))
    round-Collected e i r z0 z1 pos lt c =
        Runs-weaken
          (and-XorShares le env0 env1 _ _ _ _ _ _ c.number (shift_greater (2 ^ m) c.number r)
            (supply i) c.shares (shift-XorShares r z0 z1 c.number pos lt c.word c.shares))
          λ u0 u1 s. record {
            number = round (2 ^ m) c.number r;
            word = bit_and-lt 64 c.number _ c.word;
            collects = round_from-Collects e m r c.number le pos lt c.word c.collects;
            shares = s;
          }

    pub and_rounds-Collected :
        (e : ℕ → Bool) (left r z0 z1 : ℕ)
        → 0 < r
        → r + left ≡ m + 1
        → Collected e (2 ^ m) (2 ^ (r - 1)) z0 z1
        → Runs
            (and_rounds env0 0 (2 ^ m) bmts0 r left z0)
            (and_rounds env1 1 (2 ^ m) bmts1 r left z1)
            (Collected e (2 ^ m) (2 ^ m))
    unfolding and_rounds
    and_rounds-Collected e zero r z0 z1 pos t c =
        Runs-ret _ _ (subst (λ k. Collected e (2 ^ m) (2 ^ k) z0 z1) (omega arith) c)
    and_rounds-Collected e (suc left) r z0 z1 pos t c =
        Runs-bind (round-Collected e r r z0 z1 pos (omega arith) c) λ u0 u1 d.
          and_rounds-Collected e left (r + 1) u0 u1 (omega arith) (omega arith)
            (subst (λ k. Collected e (2 ^ m) (2 ^ k) u0 u1) (omega arith) d)
