-- ===== src/BoolToArithBatchOperator/Groups.antt =====
-- The transfers of a batch, group by group: those of an entry, and the others.
use mathlib.Core.Path.{subst⁻¹}
use mpc_package.Base.{ℕ, zero, suc, ◌+◌, ◌≤◌, ◌≡◌, refl, sym, ap, ◌∙◌, arith}
use mpc_package.Base.{List, [], ◌∷◌, ◌++◌, length, drop, drop-append}
use mpc_package.Word.{IsWord, add}
use mpc_package.Word.Cong.{Cong, Cong-refl, Cong-symm, ◌∙c◌, Cong-add, add-Cong}
use mpc_package.Math.{ring}
use mpc_package.Math.Ring.{ring-Cong, ring-IsWord}
use mpc_package.Shares.Sum.{add-IsWord}
use mpc_package.Prog.{Prog, OtMode, ◌>>=◌, ot_results, ot_pick}
use mpc_package.Prog.Runs.{Runs}
use mpc_package.Prog.Assoc.{bind_assoc}
use mpc_package.BmtGenerator.{choices, sum_words}
use mpc_package.BoolToArithOperator.{Offers, draw_offers}
use mpc_package.BoolToArithOperator.Correct.{AreOffers, draw_offers-Runs, draw_offers-Runs_right}
use mpc_package.BoolToArithBatchOperator.{draw_all, sum_ring}

-- The offers for each entry, one after another.
pub data AllOffers (w : ℕ) : List ℕ → List ℕ → List ℕ → List ℕ → Type 0 where
  no_entry : AllOffers w [] [] [] []
  entry :
      {x : ℕ} {xs rs ss ts : List ℕ} (r s t : List ℕ)
      → AreOffers x 0 w r s t
      → AllOffers w xs rs ss ts
      → AllOffers w (x ∷ xs) (r ++ rs) (s ++ ss) (t ++ ts)

module _ {A B : Type 0} (w : ℕ) {P : A → B → Type 0} where
  pub draw_all-Runs :
      (xs : List ℕ) (k : Offers → Prog A) {q : Prog B}
      → ((o : Offers) → AllOffers w xs o.rs o.ss0 o.ss1 → Runs (k o) q P)
      → Runs (draw_all w xs >>= k) q P
  unfolding draw_all
  draw_all-Runs [] k h = h _ no_entry
  draw_all-Runs (x ∷ xs) k {q} h =
      subst⁻¹ (λ p. Runs p q P) (bind_assoc (draw_offers x 0 w) _ k)
        (draw_offers-Runs x w 0 _ λ o offers.
          subst⁻¹ (λ p. Runs p q P) (bind_assoc (draw_all w xs) _ k)
            (draw_all-Runs xs _ λ p others. h _ (entry o.rs o.ss0 o.ss1 offers others)))

  pub draw_all-Runs_right :
      (xs : List ℕ) {p : Prog A} (l : Offers → Prog B)
      → ((o : Offers) → AllOffers w xs o.rs o.ss0 o.ss1 → Runs p (l o) P)
      → Runs p (draw_all w xs >>= l) P
  unfolding draw_all
  draw_all-Runs_right [] l h = h _ no_entry
  draw_all-Runs_right (x ∷ xs) {p} l h =
      subst⁻¹ (λ q. Runs p q P) (bind_assoc (draw_offers x 0 w) _ l)
        (draw_offers-Runs_right x w 0 _ λ o offers.
          subst⁻¹ (λ q. Runs p q P) (bind_assoc (draw_all w xs) _ l)
            (draw_all-Runs_right xs _ λ o' others. h _ (entry o.rs o.ss0 o.ss1 offers others)))

-- There is an offer for each digit.
pub AreOffers-length :
    (x i n : ℕ) (rs ss ts : List ℕ)
    → AreOffers x i n rs ss ts
    → (length rs ≡ n) × (length ss ≡ n) × (length ts ≡ n)
AreOffers-length x i zero [] [] [] h = (refl, refl, refl)
AreOffers-length x i zero [] [] (_ ∷ _) h = absurd h
AreOffers-length x i zero [] (_ ∷ _) ts h = absurd h
AreOffers-length x i zero (_ ∷ _) ss ts h = absurd h
AreOffers-length x i (suc n) [] ss ts h = absurd h
AreOffers-length x i (suc n) (_ ∷ _) [] ts h = absurd h
AreOffers-length x i (suc n) (_ ∷ _) (_ ∷ _) [] h = absurd h
AreOffers-length x i (suc n) (r ∷ rs) (s ∷ ss) (t ∷ ts) h =
    let rest = AreOffers-length x (i + 1) n rs ss ts h.3 in
    (ap suc rest.0, ap suc rest.1, ap suc rest.2)

pub length-choices : (b i n : ℕ) → length (choices b i n) ≡ n
unfolding choices
length-choices b i zero = refl
length-choices b i (suc n) = ap suc (length-choices b (i + 1) n)

module _ (mode : OtMode) where
  pub length-ot_results :
      (ss ts cs : List ℕ)
      → length ts ≡ length ss
      → length cs ≡ length ss
      → length (ot_results mode ss ts cs) ≡ length ss
  unfolding ot_results
  length-ot_results [] ts cs p q = refl
  length-ot_results (s ∷ ss) [] cs p q = absurd (omega arith)
  length-ot_results (s ∷ ss) (t ∷ ts) [] p q = absurd (omega arith)
  length-ot_results (s ∷ ss) (t ∷ ts) (c ∷ cs) p q =
      ap suc (length-ot_results ss ts cs (omega arith) (omega arith))

  pub ot_results-append :
      (ss ts cs ss' ts' cs' : List ℕ)
      → length ts ≡ length ss
      → length cs ≡ length ss
      → ot_results mode (ss ++ ss') (ts ++ ts') (cs ++ cs')
        ≡ ot_results mode ss ts cs ++ ot_results mode ss' ts' cs'
  unfolding ot_results
  ot_results-append [] [] [] ss' ts' cs' p q = refl
  ot_results-append [] (_ ∷ _) cs ss' ts' cs' p q = absurd (omega arith)
  ot_results-append [] [] (_ ∷ _) ss' ts' cs' p q = absurd (omega arith)
  ot_results-append (s ∷ ss) [] cs ss' ts' cs' p q = absurd (omega arith)
  ot_results-append (s ∷ ss) (t ∷ ts) [] ss' ts' cs' p q = absurd (omega arith)
  ot_results-append (s ∷ ss) (t ∷ ts) (c ∷ cs) ss' ts' cs' p q =
      ap (λ r. ot_pick mode s t c ∷ r)
        (ot_results-append ss ts cs ss' ts' cs' (omega arith) (omega arith))

module _ {w : ℕ} (le : w ≤ 64) where
  -- Cutting every sum to the width keeps it the same modulo 2 ^ width.
  pub sum_ring-Cong :
      (n a b : ℕ) (r rs : List ℕ)
      → length r ≡ n
      → IsWord a
      → Cong w a b
      → IsWord (sum_ring w n a (r ++ rs)) × Cong w (sum_ring w n a (r ++ rs)) (sum_words b r)
  unfolding sum_ring sum_words
  sum_ring-Cong zero a b [] rs e h c = (h, c)
  sum_ring-Cong zero a b (_ ∷ _) rs e h c = absurd (omega arith)
  sum_ring-Cong (suc n) a b [] rs e h c = absurd (omega arith)
  sum_ring-Cong (suc n) a b (x ∷ r) rs e h c =
      sum_ring-Cong n (ring (add a x) w) (add b x) r rs (omega arith)
        (ring-IsWord (add a x) w (add-IsWord a x) le)
        (ring-Cong (add a x) w (add-IsWord a x) le
          ∙c add-Cong le a x
          ∙c Cong-add c Cong-refl
          ∙c Cong-symm (add-Cong le b x))

pub drop-group : (n : ℕ) (r rs : List ℕ) → length r ≡ n → drop n (r ++ rs) ≡ rs
drop-group n r rs e = ap (λ k. drop k (r ++ rs)) (sym e) ∙ drop-append r rs
