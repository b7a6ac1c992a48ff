-- ===== src/BoolToArithOperator/Correct.antt =====
-- The operator returns arithmetic shares of what the Boolean shares stand for.
use mathlib.Core.Path.{subst⁻¹}
use native.Mathlib.Nat.{mod-lt, one-le-pow}
use mpc_package.Base.{ℕ, zero, suc, ◌+◌, ◌-◌, ◌*◌, ◌/◌, ◌%◌, ◌^◌, ◌≤◌, ◌<◌, ◌≡◌, refl, sym, ap, ◌∙◌}
use mpc_package.Base.{arith, List, [], ◌∷◌, Bool, true, false, ◌==◌, bit, bit_and, to_int, xor}
use mpc_package.Base.{if◌then◌else◌, bit_and-le, bit-mod, ltb-lt, ◌&&◌, ◌⊎◌, inl, inr}
use mpc_package.Word.{IsWord, add, sub, shl}
use mpc_package.Word.Cong.{Cong, Cong-refl, Cong-of_eq, ◌∙c◌, Cong-add, Cong-mod}
use mpc_package.Word.Cong.{add-Cong, sub-Cong, shl-Cong}
use mpc_package.Math.{ring}
use mpc_package.Math.Ring.{ring-Cong, ring-IsWord, rand_int-IsWord}
use mpc_package.Shares.Sum.{sub-IsWord, SumShares}
use mpc_package.Shares.Xor.{XorShares, XorShares-ring, XorShares-symm}
use mpc_package.Prog.{Prog, words, ◌>>=◌, ot_results, ot_pick}
use mpc_package.Prog.Runs.{
  Runs, Runs-ret, Runs-draw, Runs-draw_right, Runs-ot_send, Runs-ot_receive,
}
use mpc_package.Prog.Assoc.{bind_assoc}
use mpc_package.BmtGenerator.{choices, sum_words}
use mpc_package.BmtGenerator.Digits.{place_sum, place_sum_lem}
use mpc_package.BmtGenerator.Mix.{choice_lem, sum_words-IsWord}
use mpc_package.BoolToArithOperator.{offer, Offers, draw_offers, execute}

-- The sender's offers for the digits from `i` on.
abbrev pub AreOffers : ℕ → ℕ → ℕ → List ℕ → List ℕ → List ℕ → Type 0
AreOffers x i zero [] [] [] = Unit
AreOffers x i (suc n) (r ∷ rs) (s ∷ ss) (t ∷ ts) =
    IsWord r × (s ≡ offer x i r 0) × (t ≡ offer x i r 1) × AreOffers x (i + 1) n rs ss ts
AreOffers x i _ _ _ _ = ⊥

module _ {A B : Type 0} (x : ℕ) {P : A → B → Type 0} where
  pub draw_offers-Runs :
      (n i : ℕ) (k : Offers → Prog A) {q : Prog B}
      → ((o : Offers) → AreOffers x i n o.rs o.ss0 o.ss1 → Runs (k o) q P)
      → Runs (draw_offers x i n >>= k) q P
  unfolding draw_offers
  draw_offers-Runs zero i k h = h _ tt
  draw_offers-Runs (suc n) i k {q} h = Runs-draw λ r.
      subst⁻¹ (λ p. Runs p q P) (bind_assoc (draw_offers x (i + 1) n) _ k)
        (draw_offers-Runs n (i + 1) _ λ o offers. h _ (rand_int-IsWord r, refl, refl, offers))

module _ {A B : Type 0} (x : ℕ) {P : A → B → Type 0} where
  pub draw_offers-Runs_right :
      (n i : ℕ) {p : Prog A} (l : Offers → Prog B)
      → ((o : Offers) → AreOffers x i n o.rs o.ss0 o.ss1 → Runs p (l o) P)
      → Runs p (draw_offers x i n >>= l) P
  unfolding draw_offers
  draw_offers-Runs_right zero i l h = h _ tt
  draw_offers-Runs_right (suc n) i {p} l h = Runs-draw_right λ r.
      subst⁻¹ (λ q. Runs p q P) (bind_assoc (draw_offers x (i + 1) n) _ l)
        (draw_offers-Runs_right n (i + 1) _ λ o offers. h _ (rand_int-IsWord r, refl, refl, offers))

module _ {w : ℕ} (le : w ≤ 64) where
  -- One transfer: the mask and what the receiver gets add up to the digit of the secret.
  one_transfer :
      (i r : ℕ) (b c : Bool)
      → Cong w
          (r
            + ring
                (if to_int c == 0 then sub (shl (to_int b) i) r else sub (shl (1 - to_int b) i) r)
                w)
          (to_int (xor b c) * 2 ^ i)
  one_transfer i r b c =
      Cong-add Cong-refl (ring-Cong _ w (either b c) le) ∙c Cong-of_eq (swap r _) ∙c digit b c
    where
      either :
          (b c : Bool)
          → IsWord
              (if to_int c == 0 then sub (shl (to_int b) i) r else sub (shl (1 - to_int b) i) r)
      either b true = sub-IsWord _ r
      either b false = sub-IsWord _ r

      swap : (m n : ℕ) → m + n ≡ n + m
      swap m n = omega arith

      digit :
          (b c : Bool)
          → Cong w
              ((if to_int c == 0 then sub (shl (to_int b) i) r else sub (shl (1 - to_int b) i) r)
                + r)
              (to_int (xor b c) * 2 ^ i)
      digit true true = sub-Cong le (shl 0 i) r ∙c shl-Cong le 0 i
      digit true false = sub-Cong le (shl 1 i) r ∙c shl-Cong le 1 i
      digit false true = sub-Cong le (shl 1 i) r ∙c shl-Cong le 1 i
      digit false false = sub-Cong le (shl 0 i) r ∙c shl-Cong le 0 i

  module _ (x y v : ℕ) (hx : IsWord x) (hy : IsWord y) where
    pub all_transfers :
        (n i s t : ℕ) (rs ss ts : List ℕ)
        → i + n ≤ 64
        → ((j : ℕ) → i ≤ j → j < i + n → xor (bit x j) (bit y j) ≡ bit v j)
        → AreOffers x i n rs ss ts
        → Cong w
            (sum_words s rs + sum_words t (ot_results (words w) ss ts (choices y i n)))
            (s + t + place_sum v i n)
    unfolding sum_words choices ot_results ot_pick offer
    all_transfers zero i s t [] [] [] fits same h = Cong-of_eq (end s t)
      where
        end : (s t : ℕ) → s + t ≡ s + t + 0
        end s t = omega arith
    all_transfers zero i s t [] [] (_ ∷ _) fits same h = absurd h
    all_transfers zero i s t [] (_ ∷ _) ts fits same h = absurd h
    all_transfers zero i s t (_ ∷ _) ss ts fits same h = absurd h
    all_transfers (suc n) i s t [] ss ts fits same h = absurd h
    all_transfers (suc n) i s t (_ ∷ _) [] ts fits same h = absurd h
    all_transfers (suc n) i s t (_ ∷ _) (_ ∷ _) [] fits same h = absurd h
    all_transfers (suc n) i s t (r ∷ rs) (m0 ∷ ss) (m1 ∷ ts) fits same h =
        rw
          (
            h.1,
            h.2,
            choice_lem x i hx (omega arith),
            choice_lem y i hy (omega arith),
            ← same i (omega arith) (omega arith),
          )
          (next (bit x i) (bit y i) (λ u.
            all_transfers n (i + 1) (add s r) (add t u) rs ss ts (omega arith)
              (λ j p q. same j (omega arith) (omega arith)) h.3))
      where
        next :
            (b c : Bool)
            → ((u : ℕ)
                → Cong w
                    (sum_words (add s r) rs
                      + sum_words (add t u) (ot_results (words w) ss ts (choices y (i + 1) n)))
                    (add s r + add t u + place_sum v (i + 1) n))
            → (let u =
                  ring
                    (if to_int c == 0
                      then sub (shl (to_int b) i) r
                      else sub (shl (1 - to_int b) i) r)
                    w in
                Cong w
                  (sum_words (add s r) rs
                    + sum_words (add t u) (ot_results (words w) ss ts (choices y (i + 1) n)))
                  (s + t + (to_int (xor b c) * 2 ^ i + place_sum v (i + 1) n)))
        next b c ih =
            ih _
            ∙c Cong-add (Cong-add (add-Cong le s r) (add-Cong le t _)) Cong-refl
            ∙c Cong-of_eq (regroup s r t _ (place_sum v (i + 1) n))
            ∙c Cong-add (Cong-add {a = s + t} Cong-refl (one_transfer i r b c)) Cong-refl
            ∙c Cong-of_eq (associate (s + t) (to_int (xor b c) * 2 ^ i) (place_sum v (i + 1) n))
          where
            regroup : (s r t u p : ℕ) → s + r + (t + u) + p ≡ s + t + (r + u) + p
            regroup s r t u p = omega arith

            associate : (m a p : ℕ) → m + a + p ≡ m + (a + p)
            associate m a p = omega arith

    transferred :
        (rs ss ts : List ℕ)
        → ((j : ℕ) → 0 ≤ j → j < 0 + w → xor (bit x j) (bit y j) ≡ bit v j)
        → v < 2 ^ w
        → AreOffers x 0 w rs ss ts
        → SumShares w
            (ring (sum_words 0 rs) w)
            (ring (sum_words 0 (ot_results (words w) ss ts (choices y 0 w))) w)
            v
    transferred rs ss ts same small h = record {
      word0 = ring-IsWord _ w (sum_words-IsWord 0 rs (omega arith)) le;
      word1 = ring-IsWord _ w (sum_words-IsWord 0 _ (omega arith)) le;
      total =
          Cong-add (ring-Cong _ w (sum_words-IsWord 0 rs (omega arith)) le)
            (ring-Cong _ w (sum_words-IsWord 0 _ (omega arith)) le)
          ∙c all_transfers w 0 0 0 rs ss ts (omega arith) same h
          ∙c Cong-of_eq (ap (λ t. 0 + 0 + t) (place_sum_lem w v small) ∙ start v);
    }
      where
        start : (p : ℕ) → 0 + 0 + p ≡ p
        start p = omega arith

  pub sender_cases : (tag : ℕ) → (bit_and (tag / 2) 1 ≡ 0) ⊎ (bit_and (tag / 2) 1 ≡ 1)
  sender_cases tag = parity (bit_and (tag / 2) 1) (bit_and_le (tag / 2))
    where
      parity : (p : ℕ) → p < 2 → (p ≡ 0) ⊎ (p ≡ 1)
      parity zero h = inl refl
      parity (suc zero) h = inr refl
      parity (suc (suc p)) h = absurd (omega arith)

      bit_and_le : (a : ℕ) → bit_and a 1 < 2
      bit_and_le a = omega (arith, bit_and-le a 1)

  -- Shares of any secret, cut to the width.
  abbrev low : ℕ → ℕ
  low v = v % 2 ^ w

  same_digits :
      (x0 x1 v j : ℕ)
      → XorShares w x0 x1 v
      → j < w
      → xor (bit (ring x0 w) j) (bit (ring x1 w) j) ≡ bit (v % 2 ^ w) j
  same_digits x0 x1 v j s lt =
      (XorShares-ring le s).digits j lt
      ∙ sym (bit-mod w j v ∙ ap (λ t. t && bit v j) (ltb-lt j w lt))

  -- On Boolean shares of `v`, in every width up to 64, whichever server the tag makes the sender
  -- and whatever it draws, both servers end, and what they return are arithmetic shares of `v`.
  pub to_arith-SumShares :
      (tag x0 x1 v : ℕ)
      → XorShares w x0 x1 v
      → Runs (execute 0 w tag x0) (execute 1 w tag x1) (λ z0 z1. SumShares w z0 z1 v)
  unfolding execute
  to_arith-SumShares tag x0 x1 v s = elim (sender_cases tag) [
    | inl first ↦ rw first (
        draw_offers-Runs (ring x0 w) w 0 _ λ o h.
          Runs-ot_send (words w) (words w) o.ss0 o.ss1 (choices (ring x1 w) 0 w) (
            Runs-ret _ _ (
              widen (
                transferred (ring x0 w) (ring x1 w) (low v) word0 word1 o.rs o.ss0 o.ss1
                  (λ j p q. same_digits x0 x1 v j s (omega arith)) small h))))
    | inr second ↦ rw second (
        draw_offers-Runs_right (ring x1 w) w 0 _ λ o h.
          Runs-ot_receive (words w) (words w) o.ss0 o.ss1 (choices (ring x0 w) 0 w) (
            Runs-ret _ _ (
              turn (
                widen (
                  transferred (ring x1 w) (ring x0 w) (low v) word1 word0 o.rs o.ss0 o.ss1
                    (λ j p q. same_digits x1 x0 v j (XorShares-symm s) (omega arith)) small h)))))
  ]
    where
      word0 : IsWord (ring x0 w)
      word0 = ring-IsWord x0 w s.word0 le

      word1 : IsWord (ring x1 w)
      word1 = ring-IsWord x1 w s.word1 le

      small : v % 2 ^ w < 2 ^ w
      small = mod-lt v (one-le-pow w 2 (omega arith))

      widen : {z0 z1 : ℕ} → SumShares w z0 z1 (low v) → SumShares w z0 z1 v
      widen t = record { word0 = t.word0; word1 = t.word1; total = t.total ∙c Cong-mod v }

      comm : (m n : ℕ) → m + n ≡ n + m
      comm m n = omega arith

      turn : {z0 z1 : ℕ} → SumShares w z0 z1 v → SumShares w z1 z0 v
      turn {z0} {z1} t = record {
        word0 = t.word1;
        word1 = t.word0;
        total = Cong-of_eq (comm z1 z0) ∙c t.total;
      }
