-- ===== src/BmtBatchGenerator/Mix.antt =====
-- One direction of the transfers of a batch: row by row, what the servers sum up are shares of the
-- product of the sender's `a` and the receiver's `b`.
use mathlib.Core.Path.{subst⁻¹}
use mpc_package.Base.{ℕ, zero, suc, ◌+◌, ◌*◌, ◌^◌, ◌≤◌, ◌<◌, ◌≡◌, refl, sym, ap, ◌∙◌, arith}
use mpc_package.Base.{List, [], ◌∷◌, ◌++◌, length, take, drop, take-append, drop-append}
use mpc_package.Word.{IsWord}
use mpc_package.Shares.Sum.{SumShares}
use mpc_package.Prog.{Prog, words, ◌>>=◌, OtMode, ot_pick, ot_results}
use mpc_package.Prog.Runs.{Runs, Runs-ret, Runs-ot_send, Runs-ot_receive}
use mpc_package.Prog.Assoc.{bind_assoc}
use mpc_package.Bmt.{Bmt}
use mpc_package.BmtGenerator.{choices, draw_pairs}
use mpc_package.BmtGenerator.Mix.{ArePairs, draw_pairs-Runs, draw_pairs-Runs_right, mix-SumShares}
use mpc_package.BmtBatchGenerator.{draw_rows, choice_rows, sum_rows, sum_chosen_rows, compute_mix}

-- Both messages of the transfers of a list of triples.
data Rows (w : ℕ) : List Bmt → List ℕ → List ℕ → Type 0 where
  no_row : Rows w [] [] []
  row :
      {t : Bmt} {ts : List Bmt} (d e : List ℕ) {ds es : List ℕ}
      → ArePairs w t.a 0 w d e
      → Rows w ts ds es
      → Rows w (t ∷ ts) (d ++ ds) (e ++ es)

module _ {B : Type 0} (w : ℕ) {P : List ℕ → B → Type 0} where
  draw_rows-Runs :
      (ts : List Bmt) (k : List ℕ × List ℕ → Prog (List ℕ)) {q : Prog B}
      → ((ds es : List ℕ) → Rows w ts ds es → Runs (k (ds, es)) q P)
      → Runs (draw_rows w ts >>= k) q P
  unfolding draw_rows
  draw_rows-Runs [] k h = h [] [] no_row
  draw_rows-Runs (t ∷ ts) k {q} h =
      subst⁻¹ (λ p. Runs p q P) (bind_assoc (draw_pairs w t.a 0 w) _ k)
        (draw_pairs-Runs w t.a w 0 _ λ d e pairs.
          subst⁻¹ (λ p. Runs p q P) (bind_assoc (draw_rows w ts) _ k)
            (draw_rows-Runs ts _ λ ds es rows. h (d ++ ds) (e ++ es) (row d e pairs rows)))

module _ {A : Type 0} (w : ℕ) {P : A → List ℕ → Type 0} where
  draw_rows-Runs_right :
      (ts : List Bmt) {p : Prog A} (l : List ℕ × List ℕ → Prog (List ℕ))
      → ((ds es : List ℕ) → Rows w ts ds es → Runs p (l (ds, es)) P)
      → Runs p (draw_rows w ts >>= l) P
  unfolding draw_rows
  draw_rows-Runs_right [] l h = h [] [] no_row
  draw_rows-Runs_right (t ∷ ts) {p} l h =
      subst⁻¹ (λ q. Runs p q P) (bind_assoc (draw_pairs w t.a 0 w) _ l)
        (draw_pairs-Runs_right w t.a w 0 _ λ d e pairs.
          subst⁻¹ (λ q. Runs p q P) (bind_assoc (draw_rows w ts) _ l)
            (draw_rows-Runs_right ts _ λ ds es rows. h (d ++ ds) (e ++ es) (row d e pairs rows)))

-- A row is as long as the width.
ArePairs-length :
    (w a i n : ℕ) (d e : List ℕ) → ArePairs w a i n d e → (length d ≡ n) × (length e ≡ n)
ArePairs-length w a i zero [] [] h = (refl, refl)
ArePairs-length w a i zero [] (y ∷ e) h = absurd h
ArePairs-length w a i zero (x ∷ d) e h = absurd h
ArePairs-length w a i (suc n) [] e h = absurd h
ArePairs-length w a i (suc n) (x ∷ d) [] h = absurd h
ArePairs-length w a i (suc n) (x ∷ d) (y ∷ e) h = (
  ap suc (ArePairs-length w a (i + 1) n d e h.2).0,
  ap suc (ArePairs-length w a (i + 1) n d e h.2).1,
)

choices-length : (b i n : ℕ) → length (choices b i n) ≡ n
unfolding choices
choices-length b i zero = refl
choices-length b i (suc n) = ap suc (choices-length b (i + 1) n)

-- Rows of the same length are transferred on their own.
ot_results-append :
    (o : OtMode) (d e c ds es cs : List ℕ)
    → length d ≡ length c
    → length e ≡ length c
    → ot_results o (d ++ ds) (e ++ es) (c ++ cs) ≡ ot_results o d e c ++ ot_results o ds es cs
unfolding ot_results
ot_results-append o [] [] [] ds es cs p q = refl
ot_results-append o [] (_ ∷ _) [] ds es cs p q = absurd (omega arith)
ot_results-append o (_ ∷ _) e [] ds es cs p q = absurd (omega arith)
ot_results-append o [] e (_ ∷ _) ds es cs p q = absurd (omega arith)
ot_results-append o (_ ∷ _) [] (_ ∷ _) ds es cs p q = absurd (omega arith)
ot_results-append o (x ∷ d) (y ∷ e) (v ∷ c) ds es cs p q =
    ap (λ t. ot_pick o x y v ∷ t) (ot_results-append o d e c ds es cs (omega arith) (omega arith))

ot_results-length :
    (o : OtMode) (d e c : List ℕ)
    → length d ≡ length c
    → length e ≡ length c
    → length (ot_results o d e c) ≡ length c
unfolding ot_results
ot_results-length o [] [] [] p q = refl
ot_results-length o [] (_ ∷ _) [] p q = absurd (omega arith)
ot_results-length o (_ ∷ _) e [] p q = absurd (omega arith)
ot_results-length o [] e (_ ∷ _) p q = absurd (omega arith)
ot_results-length o (_ ∷ _) [] (_ ∷ _) p q = absurd (omega arith)
ot_results-length o (x ∷ d) (y ∷ e) (v ∷ c) p q =
    ap suc (ot_results-length o d e c (omega arith) (omega arith))

-- A row of known length in front of the others.
take_row : (w : ℕ) (d ds : List ℕ) → length d ≡ w → take w (d ++ ds) ≡ d
take_row w d ds e = ap (λ t. take t (d ++ ds)) (sym e) ∙ take-append d ds

drop_row : (w : ℕ) (d ds : List ℕ) → length d ≡ w → drop w (d ++ ds) ≡ ds
drop_row w d ds e = ap (λ t. drop t (d ++ ds)) (sym e) ∙ drop-append d ds

-- Entry by entry, shares of the products of the senders' `a` and the receivers' `b`.
abbrev pub MixShares : ℕ → List Bmt → List Bmt → List ℕ → List ℕ → Type 0
MixShares w [] [] [] [] = Unit
MixShares w (s ∷ ss) (r ∷ rs) (u ∷ us) (v ∷ vs) =
    SumShares w u v (s.a * r.b) × MixShares w ss rs us vs
MixShares w _ _ _ _ = ⊥

-- Receivers whose `b` is cut to the width.
abbrev pub AreCut : ℕ → List Bmt → Type 0
AreCut w [] = Unit
AreCut w (t ∷ ts) = (t.b < 2 ^ w) × IsWord t.b × AreCut w ts

module _ {w : ℕ} (le : w ≤ 64) where
  Rows-MixShares :
      (ss rs : List Bmt) (ds es : List ℕ)
      → length rs ≡ length ss
      → AreCut w rs
      → Rows w ss ds es
      → MixShares w ss rs (sum_rows w (length ss) ds) (
          sum_chosen_rows w
            (length rs)
            (choice_rows w rs)
            (ot_results (words w) ds es (choice_rows w rs)))
  unfolding sum_rows sum_chosen_rows choice_rows
  Rows-MixShares [] [] _ _ n h no_row = tt
  Rows-MixShares [] (_ ∷ _) _ _ n h no_row = absurd (omega arith)
  Rows-MixShares (s ∷ ss) [] _ _ n h (row d e {ds} {es} p rows) = absurd (omega arith)
  Rows-MixShares (s ∷ ss) (r ∷ rs) _ _ n h (row d e {ds} {es} p rows) =
      rw
        (
          take_row w d ds (ArePairs-length w s.a 0 w d e p).0,
          drop_row w d ds (ArePairs-length w s.a 0 w d e p).0,
          take_row w (choices r.b 0 w) (choice_rows w rs) (choices-length r.b 0 w),
          drop_row w (choices r.b 0 w) (choice_rows w rs) (choices-length r.b 0 w),
          ot_results-append (words w) d e (choices r.b 0 w) ds es (choice_rows w rs) long0 long1,
          take_row w _ (ot_results (words w) ds es (choice_rows w rs)) long,
          drop_row w _ (ot_results (words w) ds es (choice_rows w rs)) long,
        )
        (mix-SumShares le s.a r.b h.0 h.1 d e p, Rows-MixShares ss rs ds es (omega arith) h.2 rows)
    where
      long0 : length d ≡ length (choices r.b 0 w)
      long0 = (ArePairs-length w s.a 0 w d e p).0 ∙ sym (choices-length r.b 0 w)

      long1 : length e ≡ length (choices r.b 0 w)
      long1 = (ArePairs-length w s.a 0 w d e p).1 ∙ sym (choices-length r.b 0 w)

      long : length (ot_results (words w) d e (choices r.b 0 w)) ≡ w
      long = ot_results-length (words w) d e (choices r.b 0 w) long0 long1 ∙ choices-length r.b 0 w

  -- Server 0 sends.
  pub compute_mix-first :
      (ts0 ts1 : List Bmt)
      → length ts1 ≡ length ts0
      → AreCut w ts1
      → Runs (compute_mix 0 w ts0 0) (compute_mix 1 w ts1 0) (MixShares w ts0 ts1)
  unfolding compute_mix
  compute_mix-first ts0 ts1 n cut = draw_rows-Runs w ts0 _ λ ds es h.
      Runs-ot_send (words w) (words w) ds es (choice_rows w ts1)
        (Runs-ret _ _ (Rows-MixShares ts0 ts1 ds es n cut h))

  -- Server 1 sends.
  pub compute_mix-second :
      (ts0 ts1 : List Bmt)
      → length ts0 ≡ length ts1
      → AreCut w ts0
      → Runs (compute_mix 0 w ts0 1) (compute_mix 1 w ts1 1) (λ v0 v1. MixShares w ts1 ts0 v1 v0)
  unfolding compute_mix
  compute_mix-second ts0 ts1 n cut = draw_rows-Runs_right w ts1 _ λ ds es h.
      Runs-ot_receive (words w) (words w) ds es (choice_rows w ts0)
        (Runs-ret _ _ (Rows-MixShares ts1 ts0 ds es n cut h))
