-- ===== src/BmtGenerator/Correct.antt =====
-- The generator's two results are a triple.
use mpc_package.Base.{ℕ, ◌+◌, ◌*◌, ◌≤◌, ◌≡◌, arith}
use mpc_package.Word.{IsWord, add, mul}
use mpc_package.Word.Cong.{Cong, Cong-of_eq, ◌∙c◌, Cong-add, Cong-refl, add-Cong, mul-Cong}
use mpc_package.Math.{ring, rand_int}
use mpc_package.Math.Ring.{ring-IsWord, ring-lt, ring-Cong, rand_int-IsWord}
use mpc_package.Shares.Sum.{add-IsWord, SumShares}
use mpc_package.Prog.Runs.{Runs, Runs-bind, Runs-ret, Runs-draw, Runs-draw_right}
use mpc_package.Bmt.Triples.{SumTriple}
use mpc_package.BmtGenerator.{execute}
use mpc_package.BmtGenerator.Mix.{compute_mix-first, compute_mix-second}

module _ {w : ℕ} (le : w ≤ 64) where
  -- `computeC`, up to the width.
  joined-Cong : (a b u v : ℕ) → Cong w (ring (add (add (mul a b) u) v) w) (a * b + u + v)
  joined-Cong a b u v =
      ring-Cong _ w (add-IsWord (add (mul a b) u) v) le
      ∙c add-Cong le (add (mul a b) u) v
      ∙c Cong-add (add-Cong le (mul a b) u ∙c Cong-add (mul-Cong le a b) Cong-refl) Cong-refl

  expand :
      (a0 a1 b0 b1 u0 u1 v0 v1 : ℕ)
      → Cong w (u0 + u1) (a0 * b1)
      → Cong w (v1 + v0) (a1 * b0)
      → Cong w (a0 * b0 + u0 + v0 + (a1 * b1 + u1 + v1)) ((a0 + a1) * (b0 + b1))
  expand a0 a1 b0 b1 u0 u1 v0 v1 p q =
      Cong-of_eq (group (a0 * b0) (a1 * b1) u0 u1 v0 v1)
      ∙c Cong-add (Cong-add {a = a0 * b0 + a1 * b1} Cong-refl p) q
      ∙c Cong-of_eq (factor a0 a1 b0 b1)
    where
      group : (x y u0 u1 v0 v1 : ℕ) → x + u0 + v0 + (y + u1 + v1) ≡ x + y + (u0 + u1) + (v1 + v0)
      group x y u0 u1 v0 v1 = omega arith

      factor : (a0 a1 b0 b1 : ℕ) → a0 * b0 + a1 * b1 + a0 * b1 + a1 * b0 ≡ (a0 + a1) * (b0 + b1)
      factor a0 a1 b0 b1 = omega arith

  -- `computeC` on the results of both rounds gives a triple.
  pub joined-SumTriple :
      (a0 a1 b0 b1 u0 u1 v0 v1 : ℕ)
      → IsWord a0
      → IsWord a1
      → IsWord b0
      → IsWord b1
      → SumShares w u0 u1 (a0 * b1)
      → SumShares w v1 v0 (a1 * b0)
      → SumTriple w
          (record { a = a0; b = b0; c = ring (add (add (mul a0 b0) u0) v0) w })
          (record { a = a1; b = b1; c = ring (add (add (mul a1 b1) u1) v1) w })
  joined-SumTriple a0 a1 b0 b1 u0 u1 v0 v1 ha0 ha1 hb0 hb1 u v = record {
    words0 = record { a_word = ha0; b_word = hb0; c_word = ring-IsWord _ w (add-IsWord _ v0) le };
    words1 = record { a_word = ha1; b_word = hb1; c_word = ring-IsWord _ w (add-IsWord _ v1) le };
    product =
        Cong-add (joined-Cong a0 b0 u0 v0) (joined-Cong a1 b1 u1 v1)
        ∙c expand a0 a1 b0 b1 u0 u1 v0 v1 u.total v.total;
  }

  -- In every width up to 64 and whatever the servers draw, both generators end with the shares of a
  -- triple: modulo 2 ^ width the generated `c` is the product of the generated `a` and `b`.
  pub execute-SumTriple : Runs (execute 0 w) (execute 1 w) (SumTriple w)
  unfolding execute
  execute-SumTriple = Runs-draw λ r0. Runs-draw λ s0. Runs-draw_right λ r1. Runs-draw_right λ s1.
      let word = λ (r : ℕ). ring-IsWord (rand_int r) w (rand_int-IsWord r) le in
      let small = λ (r : ℕ). ring-lt (rand_int r) w (rand_int-IsWord r) le in
      Runs-bind (compute_mix-first le _ _ (small s1) (word s1)) λ u0 u1 u.
        Runs-bind (compute_mix-second le _ _ (small s0) (word s0)) λ v0 v1 v. Runs-ret _ _ (
          joined-SumTriple (ring (rand_int r0) w) (ring (rand_int r1) w) (ring (rand_int s0) w)
            (ring (rand_int s1) w) u0 u1 v0 v1 (word r0) (word r1) (word s0) (word s1) u v)
