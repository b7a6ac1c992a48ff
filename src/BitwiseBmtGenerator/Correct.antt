-- ===== src/BitwiseBmtGenerator/Correct.antt =====
-- The generator's two results are a triple.
use mpc_package.Base.{ℕ, ◌≤◌, ◌<◌, ◌≡◌, refl, ◌∙◌, arith, Bool, true, false, ◌&&◌, xor, bit}
use mpc_package.Base.{bit_and, bit_xor, bit-bit_and, bit-bit_xor, bit_and-lt, bit_xor-lt, ltb-lt}
use mpc_package.Word.{IsWord}
use mpc_package.Math.{ring, rand_int}
use mpc_package.Math.Ring.{ring-IsWord, bit-ring, rand_int-IsWord}
use mpc_package.Prog.Runs.{Runs, Runs-bind, Runs-ret, Runs-draw, Runs-draw_right}
use mpc_package.Bmt.Triples.{XorTriple}
use mpc_package.BitwiseBmtGenerator.{execute}
use mpc_package.BitwiseBmtGenerator.Mix.{compute_mix-first, compute_mix-second}

module _ {width : ℕ} (le : width ≤ 64) where
  -- `computeC`
  joined : ℕ → ℕ → ℕ → ℕ → ℕ
  joined a b u v = ring (bit_xor (bit_xor (bit_and a b) u) v) width

  mixed-IsWord :
      (a b u v : ℕ) → IsWord a → IsWord u → IsWord v → IsWord (bit_xor (bit_xor (bit_and a b) u) v)
  mixed-IsWord a b u v ha hu hv = bit_xor-lt 64 _ v (bit_xor-lt 64 _ u (bit_and-lt 64 a b ha) hu) hv

  bit-joined :
      (a b u v i : ℕ)
      → IsWord a
      → IsWord u
      → IsWord v
      → i < width
      → bit (ring (bit_xor (bit_xor (bit_and a b) u) v) width) i
        ≡ xor (xor (bit a i && bit b i) (bit u i)) (bit v i)
  bit-joined a b u v i ha hu hv lt =
      bit-ring _ width (mixed-IsWord a b u v ha hu hv) le i
      ∙ rw
          (
            ltb-lt i width lt,
            bit-bit_xor i (bit_xor (bit_and a b) u) v,
            bit-bit_xor i (bit_and a b) u,
            bit-bit_and i a b,
          )
          refl

  expand :
      (a0 a1 b0 b1 u0 u1 v0 v1 : Bool)
      → xor u0 u1 ≡ (a0 && b1)
      → xor v1 v0 ≡ (a1 && b0)
      → xor (xor (xor (a0 && b0) u0) v0) (xor (xor (a1 && b1) u1) v1) ≡ (xor a0 a1 && xor b0 b1)
  expand true true b0 b1 u0 u1 v0 v1 p q = ground arith
  expand true false b0 b1 u0 u1 v0 v1 p q = ground arith
  expand false true b0 b1 u0 u1 v0 v1 p q = ground arith
  expand false false b0 b1 u0 u1 v0 v1 p q = ground arith

  -- In every width up to 64 and whatever the servers draw, both generators end with the shares of a
  -- triple: the generated `c` is the conjunction of the generated `a` and `b` in each digit.
  pub execute-XorTriple : Runs (execute 0 width) (execute 1 width) (XorTriple width)
  unfolding execute
  execute-XorTriple = Runs-draw λ r0. Runs-draw λ s0. Runs-draw_right λ r1. Runs-draw_right λ s1.
      let a0 = ring (rand_int r0) width in
      let b0 = ring (rand_int s0) width in
      let a1 = ring (rand_int r1) width in
      let b1 = ring (rand_int s1) width in
      let word = λ (r : ℕ). ring-IsWord (rand_int r) width (rand_int-IsWord r) le in
      Runs-bind (compute_mix-first le _ _ (word r0) (word s1)) λ u0 u1 u.
        Runs-bind (compute_mix-second le _ _ (word r1) (word s0)) λ v0 v1 v. Runs-ret _ _ (record {
          words0 = record {
            a_word = word r0;
            b_word = word s0;
            c_word = ring-IsWord _ width (mixed-IsWord a0 b0 u0 v0 (word r0) u.word_u v.word_v) le;
          };
          words1 = record {
            a_word = word r1;
            b_word = word s1;
            c_word = ring-IsWord _ width (mixed-IsWord a1 b1 u1 v1 (word r1) u.word_v v.word_u) le;
          };
          digits = λ i lt.
              rw
                (
                  bit-joined a0 b0 u0 v0 i (word r0) u.word_u v.word_v lt,
                  bit-joined a1 b1 u1 v1 i (word r1) u.word_v v.word_u lt,
                )
                (expand (bit a0 i) (bit a1 i) (bit b0 i) (bit b1 i) (bit u0 i) (bit u1 i) (bit v0 i)
                  (bit v1 i) (u.digits i lt) (v.digits i lt));
        })
