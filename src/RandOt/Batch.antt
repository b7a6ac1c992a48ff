-- ===== src/RandOt/Batch.antt =====
-- The transfers of words hand over what an ideal transfer does.
use mpc_package.Base.{ℕ, ◌≤◌, ◌≡◌, refl, ap, ap₂, ◌∙◌, arith, ◌⊎◌, inl, inr}
use mpc_package.Base.{List, [], ◌∷◌, map, length, get_or, Bool, true, false, xor, to_int, ◌==◌}
use mpc_package.Base.{if◌then◌else◌, bit, bit_xor, bit-bit_xor, bit_xor-lt, bit_ext}
use mpc_package.Word.{IsWord}
use mpc_package.Math.{ring}
use mpc_package.Math.Ring.{ring-IsWord, ring-fits, ring-lt}
use mpc_package.Prog.{words, ot_pick, ot_results}
use mpc_package.Prog.Runs.{Runs, Runs-ret, Runs-send, Runs-receive}
use mpc_package.Shares.Xor.{AreWords}
use mpc_package.RandOt.{SRot, RRot, mask0, mask1, send_one, receive_one}
use mpc_package.RandOt.{to_send, masked_choices, results, send_batch, receive_batch}

-- The receiver of a random transfer has the message of its random choice.
pub record IsRot (s : SRot) (r : RRot) : Type 0 where
  pub r0_word : IsWord s.r0
  pub r1_word : IsWord s.r1
  pub chosen : ((r.b ≡ 0) × (r.rb ≡ s.r0)) ⊎ ((r.b ≡ 1) × (r.rb ≡ s.r1))

pub unmask : (m r : ℕ) → IsWord m → IsWord r → bit_xor (bit_xor m r) r ≡ m
unmask m r hm hr =
    bit_ext 64 (bit_xor (bit_xor m r) r) m (bit_xor-lt 64 _ r (bit_xor-lt 64 m r hm hr) hr) hm
      (λ i lt. rw (bit-bit_xor i (bit_xor m r) r, bit-bit_xor i m r) (cancel (bit m i) (bit r i)))
  where
    cancel : (m r : Bool) → xor (xor m r) r ≡ m
    cancel m r = ground arith

-- One message, opened with what the receiver holds.
open_one :
    (s : SRot) (r : RRot) (m0 m1 : ℕ) (c : Bool) (more : List ℕ)
    → IsRot s r
    → IsWord m0
    → IsWord m1
    → bit_xor
        (get_or
          (mask0 s (bit_xor r.b (to_int c)) m0 ∷ mask1 s (bit_xor r.b (to_int c)) m1 ∷ more)
          (to_int c)
          0)
        r.rb
      ≡ (if to_int c == 0 then m0 else m1)
unfolding mask0 mask1
open_one s r m0 m1 c more h h0 h1 = elim h.chosen [
  | inl p ↦ rw (p.0, p.1) (first c)
  | inr p ↦ rw (p.0, p.1) (second c)
]
  where
    first :
        (c : Bool)
        → bit_xor
            (get_or
              (bit_xor m0 (if bit_xor 0 (to_int c) == 0 then s.r0 else s.r1)
                ∷ bit_xor m1 (if bit_xor 0 (to_int c) == 0 then s.r1 else s.r0)
                ∷ more)
              (to_int c)
              0)
            s.r0
          ≡ (if to_int c == 0 then m0 else m1)
    first true = unmask m1 s.r0 h1 h.r0_word
    first false = unmask m0 s.r0 h0 h.r0_word

    second :
        (c : Bool)
        → bit_xor
            (get_or
              (bit_xor m0 (if bit_xor 1 (to_int c) == 0 then s.r0 else s.r1)
                ∷ bit_xor m1 (if bit_xor 1 (to_int c) == 0 then s.r1 else s.r0)
                ∷ more)
              (to_int c)
              0)
            s.r1
          ≡ (if to_int c == 0 then m0 else m1)
    second true = unmask m1 s.r1 h1 h.r1_word
    second false = unmask m0 s.r1 h0 h.r1_word

-- On a random transfer and two words, in every width up to 64, the operator hands over the message
-- of the receiver's choice, cut to the width: what an ideal transfer hands over.
pub receive_one-Runs :
    {s : SRot} {r : RRot} (width m0 m1 : ℕ) (c : Bool)
    → width ≤ 64
    → IsRot s r
    → IsWord m0
    → IsWord m1
    → Runs
        (send_one s width m0 m1)
        (receive_one r width (to_int c))
        (λ _ got. got ≡ ot_results (words width) (m0 ∷ []) (m1 ∷ []) (to_int c ∷ []))
unfolding send_one receive_one ot_results ot_pick
receive_one-Runs {s} {r} width m0 m1 c le h h0 h1 = Runs-receive _ (
    Runs-send _ (
      Runs-ret _ _ (
        ap (λ t. ring t width ∷ [])
          (open_one s r (ring m0 width) (ring m1 width) c [] h (ring-IsWord m0 width h0 le)
            (ring-IsWord m1 width h1 le))
        ∙ ap (λ t. t ∷ []) (pick c))))
  where
    again : (m : ℕ) → IsWord m → ring (ring m width) width ≡ ring m width
    again m h = ring-fits (ring m width) width (ring-lt m width h le) le

    pick :
        (c : Bool)
        → ring (if to_int c == 0 then ring m0 width else ring m1 width) width
          ≡ ring (if to_int c == 0 then m0 else m1) width
    pick true = again m1 h1
    pick false = again m0 h0

module _ {s : SRot} {r : RRot} (width : ℕ) (h : IsRot s r) where
  results-ot_results :
      (ms0 ms1 : List ℕ) (cs : List Bool)
      → length ms0 ≡ length cs
      → length ms1 ≡ length cs
      → AreWords ms0
      → AreWords ms1
      → results r width (map to_int cs) (to_send s (masked_choices r (map to_int cs)) ms0 ms1)
        ≡ ot_results (words width) ms0 ms1 (map to_int cs)
  unfolding results to_send masked_choices ot_results ot_pick
  results-ot_results [] [] [] p q h0 h1 = refl
  results-ot_results [] (_ ∷ _) [] p q h0 h1 = absurd (omega arith)
  results-ot_results (_ ∷ _) ms1 [] p q h0 h1 = absurd (omega arith)
  results-ot_results [] ms1 (_ ∷ _) p q h0 h1 = absurd (omega arith)
  results-ot_results (_ ∷ _) [] (_ ∷ _) p q h0 h1 = absurd (omega arith)
  results-ot_results (m0 ∷ ms0) (m1 ∷ ms1) (c ∷ cs) p q h0 h1 =
      ap₂ (λ t ts. ring t width ∷ ts)
        (open_one s r m0 m1 c (to_send s (masked_choices r (map to_int cs)) ms0 ms1) h h0.0 h1.0)
        (results-ot_results ms0 ms1 cs (omega arith) (omega arith) h0.1 h1.1)

  -- On a random transfer, and as many pairs of words as choices, the batch hands over what an ideal
  -- transfer does, however long it is.
  pub receive_batch-Runs :
      (ms0 ms1 : List ℕ) (cs : List Bool)
      → length ms0 ≡ length cs
      → length ms1 ≡ length cs
      → AreWords ms0
      → AreWords ms1
      → Runs
          (send_batch s ms0 ms1)
          (receive_batch r width (map to_int cs))
          (λ _ got. got ≡ ot_results (words width) ms0 ms1 (map to_int cs))
  unfolding send_batch receive_batch
  receive_batch-Runs ms0 ms1 cs p q h0 h1 =
      Runs-receive _ (Runs-send _ (Runs-ret _ _ (results-ot_results ms0 ms1 cs p q h0 h1)))
