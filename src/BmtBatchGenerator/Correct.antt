-- ===== src/BmtBatchGenerator/Correct.antt =====
-- The generator's batches are triples, as many as it was asked for.
use mpc_package.Base.{ℕ, zero, suc, ◌^◌, ◌≤◌, ◌<◌, ◌≡◌, refl, sym, ap, ◌∙◌}
use mpc_package.Base.{List, [], ◌∷◌, length}
use mpc_package.Word.{IsWord}
use mpc_package.Math.{ring, rand_int}
use mpc_package.Math.Ring.{ring-IsWord, ring-lt, rand_int-IsWord}
use mpc_package.Prog.Runs.{Runs, Runs-bind, Runs-ret, Runs-draw, Runs-draw_right}
use mpc_package.Bmt.{Bmt}
use mpc_package.Bmt.Triples.{SumTriple}
use mpc_package.BmtGenerator.Correct.{joined-SumTriple}
use mpc_package.BmtBatchGenerator.{generate_random_ab, compute_c, execute}
use mpc_package.BmtBatchGenerator.Mix.{MixShares, AreCut, compute_mix-first, compute_mix-second}

-- Both servers have `n` triples, entry by entry.
abbrev pub SumTriples : ℕ → ℕ → List Bmt → List Bmt → Type 0
SumTriples w zero [] [] = Unit
SumTriples w (suc n) (s ∷ ss) (t ∷ ts) = SumTriple w s t × SumTriples w n ss ts
SumTriples w _ _ _ = ⊥

-- What one server has drawn: `n` entries, cut to the width.
abbrev AreDrawn : ℕ → ℕ → List Bmt → Type 0
AreDrawn w zero [] = Unit
AreDrawn w (suc n) (t ∷ ts) = IsWord t.a × (t.b < 2 ^ w) × IsWord t.b × AreDrawn w n ts
AreDrawn w _ _ = ⊥

AreDrawn-length : (w n : ℕ) (ts : List Bmt) → AreDrawn w n ts → length ts ≡ n
AreDrawn-length w zero [] h = refl
AreDrawn-length w zero (t ∷ ts) h = absurd h
AreDrawn-length w (suc n) [] h = absurd h
AreDrawn-length w (suc n) (t ∷ ts) h = ap suc (AreDrawn-length w n ts h.3)

AreDrawn-AreCut : (w n : ℕ) (ts : List Bmt) → AreDrawn w n ts → AreCut w ts
AreDrawn-AreCut w zero [] h = tt
AreDrawn-AreCut w zero (t ∷ ts) h = absurd h
AreDrawn-AreCut w (suc n) [] h = absurd h
AreDrawn-AreCut w (suc n) (t ∷ ts) h = (h.1, h.2, AreDrawn-AreCut w n ts h.3)

module _ {w : ℕ} (le : w ≤ 64) where
  generate_random_ab-Runs :
      (n : ℕ)
      → Runs
          (generate_random_ab w n)
          (generate_random_ab w n)
          (λ ts0 ts1. AreDrawn w n ts0 × AreDrawn w n ts1)
  unfolding generate_random_ab
  generate_random_ab-Runs zero = Runs-ret _ _ (tt, tt)
  generate_random_ab-Runs (suc n) = Runs-draw λ r0. Runs-draw λ s0. Runs-draw_right λ r1.
      Runs-draw_right λ s1. Runs-bind (generate_random_ab-Runs n) λ ts0 ts1 h.
        Runs-ret _ _ ((word r0, small s0, word s0, h.0), (word r1, small s1, word s1, h.1))
    where
      word : (r : ℕ) → IsWord (ring (rand_int r) w)
      word r = ring-IsWord (rand_int r) w (rand_int-IsWord r) le

      small : (r : ℕ) → ring (rand_int r) w < 2 ^ w
      small r = ring-lt (rand_int r) w (rand_int-IsWord r) le

  compute_c-SumTriples :
      (n : ℕ) (ts0 ts1 : List Bmt) (us0 us1 vs0 vs1 : List ℕ)
      → AreDrawn w n ts0
      → AreDrawn w n ts1
      → MixShares w ts0 ts1 us0 us1
      → MixShares w ts1 ts0 vs1 vs0
      → SumTriples w n (compute_c w ts0 us0 vs0) (compute_c w ts1 us1 vs1)
  unfolding compute_c
  compute_c-SumTriples zero [] [] us0 us1 vs0 vs1 h0 h1 u v = tt
  compute_c-SumTriples (suc n) (s ∷ ts0) (t ∷ ts1) (u0 ∷ us0) (u1 ∷ us1) (v0 ∷ vs0) (v1 ∷ vs1) h0 h1
        u v =
      (
        joined-SumTriple le s.a t.a s.b t.b u0 u1 v0 v1 h0.0 h1.0 h0.2 h1.2 u.0 v.0,
        compute_c-SumTriples n ts0 ts1 us0 us1 vs0 vs1 h0.3 h1.3 u.1 v.1,
      )
  compute_c-SumTriples zero (_ ∷ _) _ us0 us1 vs0 vs1 h0 h1 u v = absurd h0
  compute_c-SumTriples zero [] (_ ∷ _) us0 us1 vs0 vs1 h0 h1 u v = absurd h1
  compute_c-SumTriples (suc n) [] _ us0 us1 vs0 vs1 h0 h1 u v = absurd h0
  compute_c-SumTriples (suc n) (_ ∷ _) [] us0 us1 vs0 vs1 h0 h1 u v = absurd h1
  compute_c-SumTriples (suc n) (_ ∷ _) (_ ∷ _) [] us1 vs0 vs1 h0 h1 u v = absurd u
  compute_c-SumTriples (suc n) (_ ∷ _) (_ ∷ _) (_ ∷ _) [] vs0 vs1 h0 h1 u v = absurd u
  compute_c-SumTriples (suc n) (_ ∷ _) (_ ∷ _) (_ ∷ _) (_ ∷ _) _ [] h0 h1 u v = absurd v
  compute_c-SumTriples (suc n) (_ ∷ _) (_ ∷ _) (_ ∷ _) (_ ∷ _) [] (_ ∷ _) h0 h1 u v = absurd v

  -- In every width up to 64 and whatever the servers draw, both generators end, each with as many
  -- triples as it was asked for, and entry by entry these are the shares of an arithmetic triple.
  pub execute-SumTriples : (n : ℕ) → Runs (execute 0 n w) (execute 1 n w) (SumTriples w n)
  unfolding execute
  execute-SumTriples n = Runs-bind (generate_random_ab-Runs n) λ ts0 ts1 h.
      Runs-bind (compute_mix-first le ts0 ts1 (same ts0 ts1 h.0 h.1) (AreDrawn-AreCut w n ts1 h.1))
        λ us0 us1 u.
          Runs-bind
            (compute_mix-second le ts0 ts1 (same ts1 ts0 h.1 h.0) (AreDrawn-AreCut w n ts0 h.0))
            λ vs0 vs1 v. Runs-ret _ _ (compute_c-SumTriples n ts0 ts1 us0 us1 vs0 vs1 h.0 h.1 u v)
    where
      same : (ss ts : List Bmt) → AreDrawn w n ss → AreDrawn w n ts → length ts ≡ length ss
      same ss ts p q = AreDrawn-length w n ts q ∙ sym (AreDrawn-length w n ss p)
