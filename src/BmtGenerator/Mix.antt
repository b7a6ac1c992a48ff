-- ===== src/BmtGenerator/Mix.antt =====
-- One round of transfers: what the sender and the receiver sum up are arithmetic shares of the
-- product of the sender's `a` and the receiver's `b`.
use mathlib.Core.Path.{subst⁻¹}
use mpc_package.Base.{ℕ, zero, suc, ◌+◌, ◌*◌, ◌%◌, ◌^◌, ◌≤◌, ◌<◌, ◌≡◌, refl, ap, ◌∙◌, arith}
use mpc_package.Base.{List, [], ◌∷◌, Bool, true, false, ◌==◌, bit, bit_and, to_int, if◌then◌else◌}
use mpc_package.Word.{IsWord, add, sub, shl, sar}
use mpc_package.Word.Bits.{bit-sar, sar-IsWord}
use mpc_package.Word.Cong.{Cong, Cong-refl, Cong-of_eq, Cong-symm, ◌∙c◌, Cong-add, Cong-cancel}
use mpc_package.Word.Cong.{add-Cong, sub-Cong, shl-Cong}
use mpc_package.Math.{ring, rand_int}
use mpc_package.Math.Ring.{ring-Cong, ring-IsWord, bit_and_one, rand_int-IsWord}
use mpc_package.Shares.Sum.{add-IsWord, sub-IsWord, SumShares}
use mpc_package.Prog.{Prog, words, ◌>>=◌, ot_results, ot_pick}
use mpc_package.Prog.Runs.{
  Runs, Runs-ret, Runs-draw, Runs-draw_right, Runs-ot_send, Runs-ot_receive,
}
use mpc_package.Prog.Assoc.{bind_assoc}
use mpc_package.Bmt.{Bmt}
use mpc_package.BmtGenerator.{corr, draw_pairs, choices, sum_words, sum_chosen, compute_mix}
use mpc_package.BmtGenerator.Digits.{place_sum, place_sum_lem}

-- The sender's pairs for the digits from `i` on.
abbrev pub ArePairs : ℕ → ℕ → ℕ → ℕ → List ℕ → List ℕ → Type 0
ArePairs w a i zero [] [] = Unit
ArePairs w a i (suc n) (d ∷ ds) (e ∷ es) =
    IsWord d × (e ≡ corr w a i d) × ArePairs w a (i + 1) n ds es
ArePairs w a i _ _ _ = ⊥

module _ {A B : Type 0} (w a : ℕ) {P : A → B → Type 0} where
  pub draw_pairs-Runs :
      (n i : ℕ) (k : List ℕ × List ℕ → Prog A) {q : Prog B}
      → ((ds es : List ℕ) → ArePairs w a i n ds es → Runs (k (ds, es)) q P)
      → Runs (draw_pairs w a i n >>= k) q P
  unfolding draw_pairs
  draw_pairs-Runs zero i k h = h [] [] tt
  draw_pairs-Runs (suc n) i k {q} h = Runs-draw λ r.
      subst⁻¹ (λ p. Runs p q P) (bind_assoc (draw_pairs w a (i + 1) n) _ k)
        (draw_pairs-Runs n (i + 1) _ λ ds es pairs.
          h (rand_int r ∷ ds) (corr w a i (rand_int r) ∷ es) (rand_int-IsWord r, refl, pairs))

module _ {A B : Type 0} (w a : ℕ) {P : A → B → Type 0} where
  pub draw_pairs-Runs_right :
      (n i : ℕ) {p : Prog A} (l : List ℕ × List ℕ → Prog B)
      → ((ds es : List ℕ) → ArePairs w a i n ds es → Runs p (l (ds, es)) P)
      → Runs p (draw_pairs w a i n >>= l) P
  unfolding draw_pairs
  draw_pairs-Runs_right zero i l h = h [] [] tt
  draw_pairs-Runs_right (suc n) i {p} l h = Runs-draw_right λ r.
      subst⁻¹ (λ q. Runs p q P) (bind_assoc (draw_pairs w a (i + 1) n) _ l)
        (draw_pairs-Runs_right n (i + 1) _ λ ds es pairs.
          h (rand_int r ∷ ds) (corr w a i (rand_int r) ∷ es) (rand_int-IsWord r, refl, pairs))

pub choice_lem : (b i : ℕ) → IsWord b → i < 64 → bit_and (sar b i) 1 ≡ to_int (bit b i)
choice_lem b i h lt =
    bit_and_one (sar b i) (sar-IsWord b i h)
    ∙ low (sar b i)
    ∙ ap to_int (bit-sar b i 0 h (omega arith) ∙ ap (λ t. bit b t) (zero_add i))
  where
    low : (v : ℕ) → v % 2 ≡ to_int (bit v 0)
    low v = unfold bit in ground arith

    zero_add : (i : ℕ) → 0 + i ≡ i
    zero_add i = omega arith

module _ {w : ℕ} (le : w ≤ 64) (a : ℕ) where
  -- One transfer: the two summands together.
  one_transfer :
      (i d : ℕ) (c : Bool)
      → IsWord d
      → (let r = ot_pick (words w) d (corr w a i d) (to_int c) in
          Cong w (d + (if to_int c == 0 then sub 0 r else r)) (a * (to_int c * 2 ^ i)))
  unfolding ot_pick corr
  one_transfer i d true h =
      Cong-add Cong-refl (
        ring-Cong (ring x w) w (ring-IsWord x w (sub-IsWord (shl a i) d) le) le
        ∙c ring-Cong x w (sub-IsWord (shl a i) d) le)
      ∙c Cong-of_eq (swap d x)
      ∙c sub-Cong le (shl a i) d
      ∙c shl-Cong le a i
      ∙c Cong-of_eq (one_times a (2 ^ i))
    where
      x : ℕ
      x = sub (shl a i) d

      swap : (m n : ℕ) → m + n ≡ n + m
      swap m n = omega arith

      one_times : (a p : ℕ) → a * p ≡ a * (1 * p)
      one_times a p = omega arith
  one_transfer i d false h = Cong-cancel r (
      Cong-of_eq (regroup d (sub 0 r) r)
      ∙c Cong-add {c = sub 0 r + r} {d = 0} Cong-refl (sub-Cong le 0 r)
      ∙c Cong-of_eq (end d)
      ∙c Cong-symm (ring-Cong d w h le)
      ∙c Cong-of_eq (nothing a (2 ^ i) r))
    where
      r : ℕ
      r = ring d w

      regroup : (d m r : ℕ) → d + m + r ≡ d + (m + r)
      regroup d m r = omega arith

      end : (d : ℕ) → d + 0 ≡ d
      end d = omega arith

      nothing : (a p r : ℕ) → r ≡ a * (0 * p) + r
      nothing a p r = omega arith

  -- All transfers from digit `i` on.
  module _ (b : ℕ) (hb : IsWord b) where
    all_transfers :
        (n i s t : ℕ) (ds es : List ℕ)
        → i + n ≤ 64
        → ArePairs w a i n ds es
        → Cong w
            (sum_words s ds
              + sum_chosen t (choices b i n) (ot_results (words w) ds es (choices b i n)))
            (s + t + a * place_sum b i n)
    unfolding sum_words sum_chosen choices ot_results
    all_transfers zero i s t [] [] fits h = Cong-of_eq (end s t a)
      where
        end : (s t a : ℕ) → s + t ≡ s + t + a * 0
        end s t a = omega arith
    all_transfers zero i s t [] (e ∷ es) fits h = absurd h
    all_transfers zero i s t (d ∷ ds) es fits h = absurd h
    all_transfers (suc n) i s t [] es fits h = absurd h
    all_transfers (suc n) i s t (d ∷ ds) [] fits h = absurd h
    all_transfers (suc n) i s t (d ∷ ds) (e ∷ es) fits h =
        rw (h.1, choice_lem b i hb (omega arith))
          (next (bit b i)
            (λ v. all_transfers n (i + 1) (add s d) (add t v) ds es (omega arith) h.2))
      where
        next :
            (c : Bool)
            → ((v : ℕ)
                → Cong w
                    (sum_words (add s d) ds
                      + sum_chosen
                          (add t v)
                          (choices b (i + 1) n)
                          (ot_results (words w) ds es (choices b (i + 1) n)))
                    (add s d + add t v + a * place_sum b (i + 1) n))
            → (let r = ot_pick (words w) d (corr w a i d) (to_int c) in
                Cong w
                  (sum_words (add s d) ds
                    + sum_chosen
                        (add t (if to_int c == 0 then sub 0 r else r))
                        (choices b (i + 1) n)
                        (ot_results (words w) ds es (choices b (i + 1) n)))
                  (s + t + a * (to_int c * 2 ^ i + place_sum b (i + 1) n)))
        next c ih =
            let r = ot_pick (words w) d (corr w a i d) (to_int c) in
            let v : ℕ = if to_int c == 0 then sub 0 r else r in
            ih v
            ∙c Cong-add (Cong-add (add-Cong le s d) (add-Cong le t v)) Cong-refl
            ∙c Cong-of_eq (regroup s d t v (a * place_sum b (i + 1) n))
            ∙c Cong-add (Cong-add {a = s + t} Cong-refl (one_transfer i d c h.0)) Cong-refl
            ∙c Cong-of_eq (distribute (s + t) a (to_int c * 2 ^ i) (place_sum b (i + 1) n))
          where
            regroup : (s d t v p : ℕ) → s + d + (t + v) + p ≡ s + t + (d + v) + p
            regroup s d t v p = omega arith

            distribute : (m a x y : ℕ) → m + a * x + a * y ≡ m + a * (x + y)
            distribute m a x y = omega arith

pub sum_words-IsWord : (s : ℕ) (xs : List ℕ) → IsWord s → IsWord (sum_words s xs)
unfolding sum_words
sum_words-IsWord s [] h = h
sum_words-IsWord s (x ∷ xs) h = sum_words-IsWord (add s x) xs (add-IsWord s x)

sum_chosen-IsWord : (s : ℕ) (cs rs : List ℕ) → IsWord s → IsWord (sum_chosen s cs rs)
unfolding sum_chosen
sum_chosen-IsWord s [] rs h = h
sum_chosen-IsWord s (c ∷ cs) [] h = h
sum_chosen-IsWord s (c ∷ cs) (r ∷ rs) h = sum_chosen-IsWord (add s _) cs rs (add-IsWord s _)

module _ {w : ℕ} (le : w ≤ 64) where
  pub mix-SumShares :
      (a b : ℕ)
      → b < 2 ^ w
      → IsWord b
      → (ds es : List ℕ) → ArePairs w a 0 w ds es
      → SumShares w
          (ring (sum_words 0 ds) w)
          (ring (sum_chosen 0 (choices b 0 w) (ot_results (words w) ds es (choices b 0 w))) w)
          (a * b)
  mix-SumShares a b small hb ds es h = record {
    word0 = ring-IsWord _ w (sum_words-IsWord 0 ds (omega arith)) le;
    word1 = ring-IsWord _ w (sum_chosen-IsWord 0 (choices b 0 w) _ (omega arith)) le;
    total =
        Cong-add (ring-Cong _ w (sum_words-IsWord 0 ds (omega arith)) le)
          (ring-Cong _ w (sum_chosen-IsWord 0 (choices b 0 w) _ (omega arith)) le)
        ∙c all_transfers le a b hb w 0 0 0 ds es (omega arith) h
        ∙c Cong-of_eq (ap (λ t. 0 + 0 + a * t) (place_sum_lem w b small) ∙ start (a * b));
  }
    where
      start : (p : ℕ) → 0 + 0 + p ≡ p
      start p = omega arith

  -- Server 0 sends.
  pub compute_mix-first :
      (t0 t1 : Bmt)
      → t1.b < 2 ^ w
      → IsWord t1.b
      → Runs
          (compute_mix 0 w t0 0)
          (compute_mix 1 w t1 0)
          (λ u0 u1. SumShares w u0 u1 (t0.a * t1.b))
  unfolding compute_mix
  compute_mix-first t0 t1 small hb = draw_pairs-Runs w t0.a w 0 _ λ ds es h.
      Runs-ot_send (words w) (words w) ds es (choices t1.b 0 w)
        (Runs-ret _ _ (mix-SumShares t0.a t1.b small hb ds es h))

  -- Server 1 sends.
  pub compute_mix-second :
      (t0 t1 : Bmt)
      → t0.b < 2 ^ w
      → IsWord t0.b
      → Runs
          (compute_mix 0 w t0 1)
          (compute_mix 1 w t1 1)
          (λ v0 v1. SumShares w v1 v0 (t1.a * t0.b))
  unfolding compute_mix
  compute_mix-second t0 t1 small hb = draw_pairs-Runs_right w t1.a w 0 _ λ ds es h.
      Runs-ot_receive (words w) (words w) ds es (choices t0.b 0 w)
        (Runs-ret _ _ (mix-SumShares t1.a t0.b small hb ds es h))
