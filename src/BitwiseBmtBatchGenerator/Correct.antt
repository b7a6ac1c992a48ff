-- ===== src/BitwiseBmtBatchGenerator/Correct.antt =====
-- The generator's words are packed triples.
use mathlib.Core.Path.{subst⁻¹}
use mpc_package.Base.{ℕ, zero, suc, ◌<◌, ◌≡◌, ◌∙◌, arith}
use mpc_package.Base.{List, [], ◌∷◌, Bool, not, ◌&&◌, ◌||◌, xor, bit, bit_and, bit_xor}
use mpc_package.Base.{bit-bit_and, bit-bit_or, bit-bit_xor, bit_and-lt, bit_or-lt, bit_xor-lt}
use mpc_package.Word.{IsWord, inv}
use mpc_package.Word.Bits.{bit-inv}
use mpc_package.Math.{rand_int}
use mpc_package.Math.Ring.{rand_int-IsWord}
use mpc_package.Prog.{Prog, packed, ot_pick, ot_results, ◌>>=◌}
use mpc_package.Prog.Assoc.{bind_assoc}
use mpc_package.Prog.Runs.{
  Runs, Runs-bind, Runs-ret, Runs-draw, Runs-draw_right, Runs-ot_send, Runs-ot_receive,
}
use mpc_package.Bmt.{Bmt}
use mpc_package.Bmt.Triples.{XorTriple}
use mpc_package.BitwiseBmtBatchGenerator.{word_count, generate_random_ab, corr, draw_masks, choices}
use mpc_package.BitwiseBmtBatchGenerator.{compute_mix, compute_c, execute}

-- Both servers have `n` words of triples.
pub data XorTriples : ℕ → List Bmt → List Bmt → Type 0 where
  no_triple : XorTriples 0 [] []
  triple :
      {n : ℕ} {s t : Bmt} {ss ts : List Bmt}
      → XorTriple 64 s t
      → XorTriples n ss ts
      → XorTriples (suc n) (s ∷ ss) (t ∷ ts)

-- What both servers have drawn.
data Drawn : ℕ → List Bmt → List Bmt → Type 0 where
  no_draw : Drawn 0 [] []
  drawn :
      {n : ℕ} {s t : Bmt} {ss ts : List Bmt}
      → IsWord s.a
      → IsWord s.b
      → IsWord t.a
      → IsWord t.b
      → Drawn n ss ts
      → Drawn (suc n) (s ∷ ss) (t ∷ ts)

-- Shares of the conjunctions of the senders' `a` and the receivers' `b`, word by word.
data MixShares : List Bmt → List Bmt → List ℕ → List ℕ → Type 0 where
  no_mix : MixShares [] [] [] []
  mix :
      {s t : Bmt} {ss ts : List Bmt} {u v : ℕ} {us vs : List ℕ}
      → IsWord u
      → IsWord v
      → ((i : ℕ) → i < 64 → xor (bit u i) (bit v i) ≡ (bit s.a i && bit t.b i))
      → MixShares ss ts us vs
      → MixShares (s ∷ ss) (t ∷ ts) (u ∷ us) (v ∷ vs)

-- The masks that a sender draws.
data Masks : List Bmt → List ℕ → List ℕ → Type 0 where
  no_mask : Masks [] [] []
  mask :
      {s : Bmt} {d : ℕ} {ss : List Bmt} {ds es : List ℕ}
      → IsWord d
      → Masks ss ds es
      → Masks (s ∷ ss) (d ∷ ds) (corr s d ∷ es)

module _ {A B : Type 0} {P : A → B → Type 0} where
  draw_masks-Runs :
      (ss : List Bmt) (k : List ℕ × List ℕ → Prog A) {q : Prog B}
      → ((ds es : List ℕ) → Masks ss ds es → Runs (k (ds, es)) q P)
      → Runs (draw_masks ss >>= k) q P
  unfolding draw_masks
  draw_masks-Runs [] k h = h [] [] no_mask
  draw_masks-Runs (s ∷ ss) k {q} h = Runs-draw λ r.
      subst⁻¹ (λ p. Runs p q P) (bind_assoc (draw_masks ss) _ k)
        (draw_masks-Runs ss _
          λ ds es m. h (rand_int r ∷ ds) (corr s (rand_int r) ∷ es) (mask (rand_int-IsWord r) m))

  draw_masks-Runs_right :
      (ss : List Bmt) {p : Prog A} (l : List ℕ × List ℕ → Prog B)
      → ((ds es : List ℕ) → Masks ss ds es → Runs p (l (ds, es)) P)
      → Runs p (draw_masks ss >>= l) P
  unfolding draw_masks
  draw_masks-Runs_right [] l h = h [] [] no_mask
  draw_masks-Runs_right (s ∷ ss) {p} l h = Runs-draw_right λ r.
      subst⁻¹ (λ q. Runs p q P) (bind_assoc (draw_masks ss) _ l)
        (draw_masks-Runs_right ss _
          λ ds es m. h (rand_int r ∷ ds) (corr s (rand_int r) ∷ es) (mask (rand_int-IsWord r) m))

generate_random_ab-Runs : (n : ℕ) → Runs (generate_random_ab n) (generate_random_ab n) (Drawn n)
unfolding generate_random_ab
generate_random_ab-Runs zero = Runs-ret _ _ no_draw
generate_random_ab-Runs (suc n) = Runs-draw λ r0. Runs-draw λ s0. Runs-draw_right λ r1.
    Runs-draw_right λ s1. Runs-bind (generate_random_ab-Runs n) λ ss ts h.
      Runs-ret _ _ (
        drawn (rand_int-IsWord r0) (rand_int-IsWord s0) (rand_int-IsWord r1) (rand_int-IsWord s1) h)

Drawn-symm : {n : ℕ} {ss ts : List Bmt} → Drawn n ss ts → Drawn n ts ss
Drawn-symm no_draw = no_draw
Drawn-symm (drawn a b c d h) = drawn c d a b (Drawn-symm h)

-- One word of transfers.
transfer :
    (a d c i : ℕ)
    → i < 64
    → xor (bit d i) (bit (ot_pick packed d (bit_xor a d) c) i) ≡ (bit a i && bit c i)
unfolding ot_pick
transfer a d c i lt =
    rw
      (
        bit-bit_or i (bit_and d (inv c)) (bit_and (bit_xor a d) c),
        bit-bit_and i d (inv c),
        bit-bit_and i (bit_xor a d) c,
        bit-bit_xor i a d,
        bit-inv c i lt,
      )
      (digit (bit a i) (bit d i) (bit c i))
  where
    digit : (a d c : Bool) → xor d (d && not c || xor a d && c) ≡ (a && c)
    digit a d c = ground arith

pick-IsWord : (a d c : ℕ) → IsWord d → IsWord a → IsWord (ot_pick packed d (bit_xor a d) c)
unfolding ot_pick
pick-IsWord a d c hd ha =
    bit_or-lt 64 _ _ (bit_and-lt 64 d _ hd)
      (bit_and-lt 64 (bit_xor a d) c (bit_xor-lt 64 a d ha hd))

all_transfers :
    {n : ℕ} {ss ts : List Bmt} {ds es : List ℕ}
    → Drawn n ss ts
    → Masks ss ds es
    → MixShares ss ts ds (ot_results packed ds es (choices ts))
unfolding ot_results choices corr
all_transfers no_draw no_mask = no_mix
all_transfers (drawn {s = s} {t = t} ha hb hc hd h) (mask {d = d} w m) =
    mix w (pick-IsWord s.a d t.b w ha) (λ i lt. transfer s.a d t.b i lt) (all_transfers h m)

module _ {n : ℕ} {ss ts : List Bmt} (h : Drawn n ss ts) where
  compute_mix-first : Runs (compute_mix 0 ss 0) (compute_mix 1 ts 0) (MixShares ss ts)
  unfolding compute_mix
  compute_mix-first =
      draw_masks-Runs ss _
        λ ds es m. Runs-ot_send packed packed ds es (choices ts) (Runs-ret _ _ (all_transfers h m))

  compute_mix-second :
      Runs (compute_mix 0 ss 1) (compute_mix 1 ts 1) (λ vs0 vs1. MixShares ts ss vs1 vs0)
  unfolding compute_mix
  compute_mix-second = draw_masks-Runs_right ts _ λ ds es m.
      Runs-ot_receive packed packed ds es (choices ss)
        (Runs-ret _ _ (all_transfers (Drawn-symm h) m))

compute_c-XorTriples :
    {n : ℕ} {ss ts : List Bmt} {us0 us1 vs0 vs1 : List ℕ}
    → Drawn n ss ts
    → MixShares ss ts us0 us1
    → MixShares ts ss vs1 vs0
    → XorTriples n (compute_c ss us0 vs0) (compute_c ts us1 vs1)
unfolding compute_c
compute_c-XorTriples no_draw no_mix no_mix = no_triple
compute_c-XorTriples (drawn {s = s} {t = t} ha hb hc hd h) (mix {u = u0} {v = u1} p q e us)
      (mix {u = v1} {v = v0} p' q' e' vs) =
    triple
      (record {
        words0 = record { a_word = ha; b_word = hb; c_word = joined s.a s.b u0 v0 ha p q' };
        words1 = record { a_word = hc; b_word = hd; c_word = joined t.a t.b u1 v1 hc q p' };
        digits = λ i lt.
            rw
              (
                bit-bit_xor i (bit_xor (bit_and s.a s.b) u0) v0,
                bit-bit_xor i (bit_and s.a s.b) u0,
                bit-bit_and i s.a s.b,
                bit-bit_xor i (bit_xor (bit_and t.a t.b) u1) v1,
                bit-bit_xor i (bit_and t.a t.b) u1,
                bit-bit_and i t.a t.b,
              )
              (expand (bit s.a i) (bit t.a i) (bit s.b i) (bit t.b i) (bit u0 i) (bit u1 i)
                (bit v0 i) (bit v1 i) (e i lt) (e' i lt));
      })
      (compute_c-XorTriples h us vs)
  where
    joined :
        (a b u v : ℕ)
        → IsWord a
        → IsWord u
        → IsWord v
        → IsWord (bit_xor (bit_xor (bit_and a b) u) v)
    joined a b u v p q r = bit_xor-lt 64 _ v (bit_xor-lt 64 _ u (bit_and-lt 64 a b p) q) r

    expand :
        (a0 a1 b0 b1 u0 u1 v0 v1 : Bool)
        → xor u0 u1 ≡ (a0 && b1)
        → xor v1 v0 ≡ (a1 && b0)
        → xor (xor (xor (a0 && b0) u0) v0) (xor (xor (a1 && b1) u1) v1) ≡ (xor a0 a1 && xor b0 b1)
    expand a0 a1 b0 b1 u0 u1 v0 v1 p q =
        cross (a0 && b0) (a1 && b1) u0 u1 v0 v1 ∙ rw (p, q) (product a0 a1 b0 b1)
      where
        cross :
            (m n u0 u1 v0 v1 : Bool)
            → xor (xor (xor m u0) v0) (xor (xor n u1) v1)
              ≡ xor (xor (xor m n) (xor u0 u1)) (xor v1 v0)
        cross m n u0 u1 v0 v1 = ground arith

        product :
            (a0 a1 b0 b1 : Bool)
            → xor (xor (xor (a0 && b0) (a1 && b1)) (a0 && b1)) (a1 && b0) ≡ (xor a0 a1 && xor b0 b1)
        product a0 a1 b0 b1 = ground arith

-- Whatever the servers draw, both generators end with the words that hold `count` triples of
-- `width` bits, and word by word these are the shares of 64 Boolean triples.
pub execute-XorTriples :
    (count width : ℕ)
    → Runs (execute 0 count width) (execute 1 count width) (XorTriples (word_count count width))
unfolding execute
execute-XorTriples count width =
    Runs-bind (generate_random_ab-Runs (word_count count width)) λ ss ts h.
      Runs-bind (compute_mix-first h) λ us0 us1 u.
        Runs-bind (compute_mix-second h) λ vs0 vs1 v. Runs-ret _ _ (compute_c-XorTriples h u v)
