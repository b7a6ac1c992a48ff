-- ===== src/RandOt/Bits.antt =====
-- The transfers of packed bits.
use mpc_package.Base.{ℕ, ◌<◌, ◌≡◌, refl, ap₂, ◌∙◌, arith}
use mpc_package.Base.{inl, inr, List, [], ◌∷◌, length, Bool, true, false, not, ◌&&◌, ◌||◌}
use mpc_package.Base.{xor, ◌==◌, if◌then◌else◌, ltb-lt, bit, bit_and, bit_xor, bit-bit_and}
use mpc_package.Base.{
  bit-bit_or, bit-bit_xor, bit_xor-lt, bit_and-lt, bit_or-lt, bit_ext, bit-zero, bit-ones,
}
use mpc_package.Word.{IsWord, inv, ones}
use mpc_package.Word.Bits.{bit-inv}
use mpc_package.Prog.{packed, ot_pick, ot_results}
use mpc_package.Prog.Runs.{Runs, Runs-ret, Runs-send, Runs-receive}
use mpc_package.Shares.Xor.{AreWords}
use mpc_package.RandOt.{SRot, RRot, select, to_send_bits, masked_choice_bits, result_bits}
use mpc_package.RandOt.{send_bits, receive_bits}
use mpc_package.RandOt.Batch.{IsRot}

pub bit-select :
    (x y c i : ℕ) → i < 64 → bit (select x y c) i ≡ (bit x i && not (bit c i) || bit y i && bit c i)
unfolding select
bit-select x y c i lt =
    bit-bit_or i (bit_and x (inv c)) (bit_and y c)
    ∙ rw (bit-bit_and i x (inv c), bit-bit_and i y c, bit-inv c i lt) refl

pub select-IsWord : (x y c : ℕ) → IsWord x → IsWord y → IsWord (select x y c)
unfolding select
select-IsWord x y c hx hy = bit_or-lt 64 _ _ (bit_and-lt 64 x _ hx) (bit_and-lt 64 y c hy)

-- On one digit: `p` is the receiver's random choice and `c` the true one.
digit :
    (c p m0 m1 r0 r1 : Bool)
    → (let k = xor p c in
        xor
          (xor m0 (r0 && not k || r1 && k) && not c || xor m1 (r1 && not k || r0 && k) && c)
          (if p then r1 else r0))
      ≡ (m0 && not c || m1 && c)
digit true true m0 m1 r0 r1 = ground arith
digit true false m0 m1 r0 r1 = ground arith
digit false true m0 m1 r0 r1 = ground arith
digit false false m0 m1 r0 r1 = ground arith

-- One word of messages, opened with what the receiver holds.
open_bits :
    (s : SRot) (p : Bool) (ib rb m0 m1 c : ℕ)
    → ((i : ℕ) → i < 64 → bit ib i ≡ p)
    → rb ≡ (if p then s.r1 else s.r0)
    → IsWord s.r0
    → IsWord s.r1
    → IsWord m0
    → IsWord m1
    → bit_xor
        (select
          (bit_xor m0 (select s.r0 s.r1 (bit_xor ib c)))
          (bit_xor m1 (select s.r1 s.r0 (bit_xor ib c)))
          c)
        rb
      ≡ select m0 m1 c
open_bits s p ib rb m0 m1 c spread e w0 w1 h0 h1 =
    bit_ext 64 _ _
      (bit_xor-lt 64 _ rb
        (select-IsWord _ _ c (bit_xor-lt 64 m0 _ h0 (select-IsWord s.r0 s.r1 _ w0 w1))
          (bit_xor-lt 64 m1 _ h1 (select-IsWord s.r1 s.r0 _ w1 w0)))
        (rw e (held p)))
      (select-IsWord m0 m1 c h0 h1)
      λ i lt.
        rw
          (
            bit-bit_xor i
                (select (bit_xor m0 (select s.r0 s.r1 (bit_xor ib c)))
                  (bit_xor m1 (select s.r1 s.r0 (bit_xor ib c))) c)
                rb,
            bit-select (bit_xor m0 (select s.r0 s.r1 (bit_xor ib c)))
                (bit_xor m1 (select s.r1 s.r0 (bit_xor ib c))) c i lt,
            bit-bit_xor i m0 (select s.r0 s.r1 (bit_xor ib c)),
            bit-bit_xor i m1 (select s.r1 s.r0 (bit_xor ib c)),
            bit-select s.r0 s.r1 (bit_xor ib c) i lt,
            bit-select s.r1 s.r0 (bit_xor ib c) i lt,
            bit-bit_xor i ib c,
            spread i lt,
            e,
            held_bit p i,
            bit-select m0 m1 c i lt,
          )
          (digit (bit c i) p (bit m0 i) (bit m1 i) (bit s.r0 i) (bit s.r1 i))
  where
    held : (p : Bool) → IsWord (if p then s.r1 else s.r0)
    held true = w1
    held false = w0

    held_bit :
        (p : Bool) (i : ℕ)
        → bit (if p then s.r1 else s.r0) i ≡ (if p then bit s.r1 i else bit s.r0 i)
    held_bit true i = refl
    held_bit false i = refl

-- What the receiver makes of its random choice and message.
data Held (s : SRot) : ℕ → ℕ → Type 0 where
  held :
      (p : Bool) {ib rb : ℕ}
      → ((i : ℕ) → i < 64 → bit ib i ≡ p)
      → rb ≡ (if p then s.r1 else s.r0)
      → Held s ib rb

IsRot-Held : {s : SRot} {r : RRot} → IsRot s r → Held s (if r.b == 1 then ones else r.b) r.rb
IsRot-Held {s} {r} h = elim h.chosen [
  | inl p ↦ rw (p.0, p.1) (held false (λ i lt. bit-zero i) refl)
  | inr p ↦ rw (p.0, p.1) (held true (λ i lt. bit-ones 64 i ∙ ltb-lt i 64 lt) refl)
]

module _ {s : SRot} {ib rb : ℕ} (w0 : IsWord s.r0) (w1 : IsWord s.r1) (known : Held s ib rb) where
  result_bits-ot_results :
      (ms0 ms1 cs : List ℕ)
      → length ms0 ≡ length cs
      → length ms1 ≡ length cs
      → AreWords ms0
      → AreWords ms1
      → result_bits rb cs (to_send_bits s (masked_choice_bits ib cs) ms0 ms1)
        ≡ ot_results packed ms0 ms1 cs
  unfolding result_bits to_send_bits masked_choice_bits ot_results ot_pick
  result_bits-ot_results [] [] [] p q h0 h1 = refl
  result_bits-ot_results [] (_ ∷ _) [] p q h0 h1 = absurd (omega arith)
  result_bits-ot_results (_ ∷ _) ms1 [] p q h0 h1 = absurd (omega arith)
  result_bits-ot_results [] ms1 (_ ∷ _) p q h0 h1 = absurd (omega arith)
  result_bits-ot_results (_ ∷ _) [] (_ ∷ _) p q h0 h1 = absurd (omega arith)
  result_bits-ot_results (m0 ∷ ms0) (m1 ∷ ms1) (c ∷ cs) p q h0 h1 =
      ap₂ ◌∷◌ (opened known ∙ unfold select in refl)
        (result_bits-ot_results ms0 ms1 cs (omega arith) (omega arith) h0.1 h1.1)
    where
      opened :
          Held s ib rb
          → bit_xor
              (select
                (bit_xor m0 (select s.r0 s.r1 (bit_xor ib c)))
                (bit_xor m1 (select s.r1 s.r0 (bit_xor ib c)))
                c)
              rb
            ≡ select m0 m1 c
      opened (held p spread e) = open_bits s p ib rb m0 m1 c spread e w0 w1 h0.0 h1.0

-- On a random transfer, and as many pairs of words of messages as words of choices, the batch hands
-- over, bit by bit, what an ideal transfer does.
pub receive_bits-Runs :
    {s : SRot} {r : RRot} (ms0 ms1 cs : List ℕ)
    → IsRot s r
    → length ms0 ≡ length cs
    → length ms1 ≡ length cs
    → AreWords ms0
    → AreWords ms1
    → Runs (send_bits s ms0 ms1) (receive_bits r cs) (λ _ got. got ≡ ot_results packed ms0 ms1 cs)
unfolding send_bits receive_bits
receive_bits-Runs ms0 ms1 cs h p q h0 h1 = Runs-receive _ (
    Runs-send _ (
      Runs-ret _ _
        (result_bits-ot_results h.r0_word h.r1_word (IsRot-Held h) ms0 ms1 cs p q h0 h1)))
