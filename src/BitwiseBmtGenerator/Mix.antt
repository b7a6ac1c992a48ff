-- ===== src/BitwiseBmtGenerator/Mix.antt =====
-- One oblivious transfer for each digit: what the sender and the receiver sum up are Boolean shares
-- of the sender's `a` and the receiver's `b`, digit by digit.
use mathlib.Core.Path.{subst⁻¹}
use mpc_package.Base.{ℕ, zero, suc, ◌+◌, ◌-◌, ◌%◌, ◌≤◌, ◌<◌, ◌≡◌, refl, ap, ◌∙◌, arith}
use mpc_package.Base.{List, [], ◌∷◌, length, get_or, Bool, true, false, ◌&&◌, ◌==◌, ltb-lt, ltb-le}
use mpc_package.Base.{bit, xor, to_int, if◌then◌else◌}
use mpc_package.Word.{IsWord, sub}
use mpc_package.Math.{ring, get_bit, rand_int_in}
use mpc_package.Math.Ring.{ring-IsWord, bit-ring, ring-fits, get_bit_lem, bit_and_one}
use mpc_package.Prog.{Prog, words, ◌>>=◌, ot_results, ot_pick}
use mpc_package.Prog.Runs.{
  Runs, Runs-ret, Runs-draw, Runs-draw_right, Runs-ot_send, Runs-ot_receive,
}
use mpc_package.Prog.Assoc.{bind_assoc}
use mpc_package.Bmt.{Bmt}
use mpc_package.BitwiseBmtGenerator.{corr, draw_pairs, choices, sum_shifted, compute_mix}
use mpc_package.BitwiseBmtGenerator.Pack.{AreFlags, sum_shifted-digits, sum_shifted-IsWord}

-- The sender's pairs for the digits from `i` on: a bit, and what `corr` makes of it.
abbrev ArePairs : ℕ → ℕ → ℕ → List ℕ → List ℕ → Type 0
ArePairs a i zero [] [] = Unit
ArePairs a i (suc n) (d ∷ ds) (e ∷ es) = (d < 2) × (e ≡ corr a i d) × ArePairs a (i + 1) n ds es
ArePairs a i _ _ _ = ⊥

module _ {B : Type 0} (a : ℕ) {P : ℕ → B → Type 0} where
  draw_pairs-Runs :
      (n i : ℕ) (k : List ℕ × List ℕ → Prog ℕ) {q : Prog B}
      → ((ds es : List ℕ) → ArePairs a i n ds es → Runs (k (ds, es)) q P)
      → Runs (draw_pairs a i n >>= k) q P
  unfolding draw_pairs
  draw_pairs-Runs zero i k h = h [] [] tt
  draw_pairs-Runs (suc n) i k {q} h = Runs-draw λ r.
      subst⁻¹ (λ p. Runs p q P) (bind_assoc (draw_pairs a (i + 1) n) _ k)
        (draw_pairs-Runs n (i + 1) _ λ ds es pairs.
          h (rand_int_in 0 1 r ∷ ds) (corr a i (rand_int_in 0 1 r) ∷ es) (flag r, refl, pairs))
    where
      flag : (r : ℕ) → rand_int_in 0 1 r < 2
      flag r = unfold rand_int_in in omega arith

module _ {A : Type 0} (a : ℕ) {P : A → ℕ → Type 0} where
  draw_pairs-Runs_right :
      (n i : ℕ) {p : Prog A} (l : List ℕ × List ℕ → Prog ℕ)
      → ((ds es : List ℕ) → ArePairs a i n ds es → Runs p (l (ds, es)) P)
      → Runs p (draw_pairs a i n >>= l) P
  unfolding draw_pairs
  draw_pairs-Runs_right zero i l h = h [] [] tt
  draw_pairs-Runs_right (suc n) i {p} l h = Runs-draw_right λ r.
      subst⁻¹ (λ q. Runs p q P) (bind_assoc (draw_pairs a (i + 1) n) _ l)
        (draw_pairs-Runs_right n (i + 1) _ λ ds es pairs.
          h (rand_int_in 0 1 r ∷ ds) (corr a i (rand_int_in 0 1 r) ∷ es) (flag r, refl, pairs))
    where
      flag : (r : ℕ) → rand_int_in 0 1 r < 2
      flag r = unfold rand_int_in in omega arith

-- `corr` is the difference of two bits modulo 2.
corr_lem :
    (a i d : ℕ)
    → IsWord a
    → i < 64
    → d < 2
    → (corr a i d < 2) × ((corr a i d == 1) ≡ xor (bit a i) (d == 1))
unfolding corr
corr_lem a i d h lt flag =
    rw
      (bit_and_one (sub (to_int (get_bit a i)) d) (unfold sub in omega arith), get_bit_lem a i h lt)
      (difference (bit a i) d flag)
  where
    difference :
        (b : Bool) (d : ℕ)
        → d < 2
        → (sub (to_int b) d % 2 < 2) × ((sub (to_int b) d % 2 == 1) ≡ xor b (d == 1))
    difference true zero h = unfold sub in (omega arith, refl)
    difference true (suc zero) h = unfold sub in (omega arith, refl)
    difference true (suc (suc d)) h = absurd (omega arith)
    difference false zero h = unfold sub in (omega arith, refl)
    difference false (suc zero) h = unfold sub in (omega arith, refl)
    difference false (suc (suc d)) h = absurd (omega arith)

-- What is transferred for one digit.
pick_lem :
    (a b i d : ℕ)
    → IsWord a
    → IsWord b
    → i < 64
    → d < 2
    → (ot_pick (words 1) d (corr a i d) (to_int (get_bit b i)) < 2)
      × (xor (d == 1) (ot_pick (words 1) d (corr a i d) (to_int (get_bit b i)) == 1)
          ≡ (bit a i && bit b i))
unfolding ot_pick
pick_lem a b i d ha hb lt flag =
    rw (get_bit_lem b i hb lt) (choose (bit b i) (corr_lem a i d ha lt flag))
  where
    choose :
        (c : Bool)
        → (corr a i d < 2) × ((corr a i d == 1) ≡ xor (bit a i) (d == 1))
        → (ring (if to_int c == 0 then d else corr a i d) 1 < 2)
          × (xor (d == 1) (ring (if to_int c == 0 then d else corr a i d) 1 == 1) ≡ (bit a i && c))
    choose true h =
        rw (ring-fits (corr a i d) 1 h.0 (omega arith), h.1) (h.0, cancel (bit a i) (d == 1))
      where
        cancel : (x y : Bool) → xor y (xor x y) ≡ (x && true)
        cancel x y = ground arith
    choose false h = rw (ring-fits d 1 flag (omega arith)) (flag, cancel (bit a i) (d == 1))
      where
        cancel : (x y : Bool) → xor y y ≡ (x && false)
        cancel x y = ground arith

-- The whole transfer, for `n` digits from `i` on.
abbrev received : ℕ → ℕ → ℕ → List ℕ → List ℕ → List ℕ
received b i n ds es = ot_results (words 1) ds es (choices b i n)

module _ (a b : ℕ) (ha : IsWord a) (hb : IsWord b) where
  transfer_shape :
      (n i : ℕ) (ds es : List ℕ)
      → i + n ≤ 64
      → ArePairs a i n ds es
      → (length ds ≡ n)
        × (length (received b i n ds es) ≡ n)
        × AreFlags ds
        × AreFlags (received b i n ds es)
  unfolding choices ot_results
  transfer_shape zero i [] [] le h = (refl, refl, tt, tt)
  transfer_shape zero i [] (e ∷ es) le h = absurd h
  transfer_shape zero i (d ∷ ds) es le h = absurd h
  transfer_shape (suc n) i [] es le h = absurd h
  transfer_shape (suc n) i (d ∷ ds) [] le h = absurd h
  transfer_shape (suc n) i (d ∷ ds) (e ∷ es) le h =
      let ih = transfer_shape n (i + 1) ds es (omega arith) h.2 in
      (
        ap suc ih.0,
        ap suc ih.1,
        (h.0, ih.2),
        (rw h.1 (pick_lem a b i d ha hb (omega arith) h.0).0, ih.3),
      )

  transfer_digits :
      (n i j : ℕ) (ds es : List ℕ)
      → i + n ≤ 64
      → j < n
      → ArePairs a i n ds es
      → xor (get_or ds j 0 == 1) (get_or (received b i n ds es) j 0 == 1)
        ≡ (bit a (i + j) && bit b (i + j))
  unfolding choices ot_results
  transfer_digits zero i j ds es le lt h = absurd (omega arith)
  transfer_digits (suc n) i j [] es le lt h = absurd h
  transfer_digits (suc n) i j (d ∷ ds) [] le lt h = absurd h
  transfer_digits (suc n) i zero (d ∷ ds) (e ∷ es) le lt h =
      rw (add_zero i, h.1) (pick_lem a b i d ha hb (omega arith) h.0).1
    where
      add_zero : (i : ℕ) → i + 0 ≡ i
      add_zero i = omega arith
  transfer_digits (suc n) i (suc j) (d ∷ ds) (e ∷ es) le lt h =
      transfer_digits n (i + 1) j ds es (omega arith) (omega arith) h.2
      ∙ ap (λ t. bit a t && bit b t) (moved i j)
    where
      moved : (i j : ℕ) → i + 1 + j ≡ i + suc j
      moved i j = omega arith

-- `u` and `v` are shares of the digits of `a` and `b` multiplied.
pub record CrossShares (width a b u v : ℕ) : Type 0 where
  pub word_u : IsWord u
  pub word_v : IsWord v
  pub digits : (i : ℕ) → i < width → xor (bit u i) (bit v i) ≡ (bit a i && bit b i)

module _ {width : ℕ} (le : width ≤ 64) where
  mix-CrossShares :
      (a b : ℕ)
      → IsWord a
      → IsWord b
      → (ds es : List ℕ) → ArePairs a 0 width ds es
      → CrossShares width a b
          (ring (sum_shifted 0 0 ds) width)
          (ring (sum_shifted 0 0 (received b 0 width ds es)) width)
  mix-CrossShares a b ha hb ds es h =
      let shape = transfer_shape a b ha hb width 0 ds es (omega arith) h in
      record {
        word_u = ring-IsWord _ width (sum_shifted-IsWord ds 0 0 (omega arith)) le;
        word_v = ring-IsWord _ width (sum_shifted-IsWord _ 0 0 (omega arith)) le;
        digits = λ i lt.
            rw
              (
                digit ds i (rw shape.0 (omega arith)) shape.2 lt,
                digit (received b 0 width ds es) i (rw shape.1 (omega arith)) shape.3 lt,
              )
              (transfer_digits a b ha hb width 0 i ds es (omega arith) lt h
                ∙ ap (λ t. bit a t && bit b t) (zero_add i));
      }
    where
      zero_add : (i : ℕ) → 0 + i ≡ i
      zero_add i = omega arith

      digit :
          (xs : List ℕ) (i : ℕ)
          → 0 + length xs ≤ 64
          → AreFlags xs
          → i < width
          → bit (ring (sum_shifted 0 0 xs) width) i ≡ (get_or xs i 0 == 1)
      digit xs i len flags lt =
          bit-ring (sum_shifted 0 0 xs) width (sum_shifted-IsWord xs 0 0 (omega arith)) le i
          ∙ rw
              (
                ltb-lt i width lt,
                sum_shifted-digits xs 0 0 i (omega arith) len flags,
                ltb-le i 0 (omega arith),
              )
              (ap (λ t. get_or xs t 0 == 1) (sub_zero i))
        where
          sub_zero : (i : ℕ) → i - 0 ≡ i
          sub_zero i = omega arith

  -- Server 0 sends.
  pub compute_mix-first :
      (t0 t1 : Bmt)
      → IsWord t0.a
      → IsWord t1.b
      → Runs (compute_mix 0 width t0 0) (compute_mix 1 width t1 0) (CrossShares width t0.a t1.b)
  unfolding compute_mix
  compute_mix-first t0 t1 ha hb = draw_pairs-Runs t0.a width 0 _ λ ds es h. Runs-draw λ s.
      Runs-draw_right λ s'.
        Runs-ot_send (words 1) (words 1) ds es (choices t1.b 0 width)
          (Runs-ret _ _ (mix-CrossShares t0.a t1.b ha hb ds es h))

  -- Server 1 sends.
  pub compute_mix-second :
      (t0 t1 : Bmt)
      → IsWord t1.a
      → IsWord t0.b
      → Runs
          (compute_mix 0 width t0 1)
          (compute_mix 1 width t1 1)
          (λ v0 v1. CrossShares width t1.a t0.b v1 v0)
  unfolding compute_mix
  compute_mix-second t0 t1 ha hb = draw_pairs-Runs_right t1.a width 0 _ λ ds es h. Runs-draw λ s.
      Runs-draw_right λ s'.
        Runs-ot_receive (words 1) (words 1) ds es (choices t0.b 0 width)
          (Runs-ret _ _ (mix-CrossShares t1.a t0.b ha hb ds es h))
