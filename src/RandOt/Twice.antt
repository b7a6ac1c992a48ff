-- ===== src/RandOt/Twice.antt =====
-- The transfers of packed bits in a single message: what the receiver gets, and what it could get.
use mpc_package.Base.{ℕ, ◌-◌, ◌<◌, ◌≡◌, refl, ap₂, ◌∙◌, arith}
use mpc_package.Base.{inl, inr, List, [], ◌∷◌, length, Bool, true, false, not, ◌&&◌, ◌||◌}
use mpc_package.Base.{xor, ◌==◌, if◌then◌else◌, bit, bit_and, bit_or, bit_xor, bit-bit_and}
use mpc_package.Base.{bit-bit_or, bit-bit_xor, bit_xor-lt, bit_and-lt, bit_or-lt, bit_ext}
use mpc_package.Word.{IsWord, inv}
use mpc_package.Word.Bits.{bit-inv}
use mpc_package.Prog.{packed, ot_pick, ot_results}
use mpc_package.Prog.Runs.{Runs, Runs-ret, Runs-send}
use mpc_package.Shares.Xor.{AreWords}
use mpc_package.RandOt.{SRot, RRot, select, to_send_twice, result_twice, send_twice, receive_twice}
use mpc_package.RandOt.Batch.{IsRot, unmask}
use mpc_package.RandOt.Bits.{bit-select, select-IsWord}

-- The two random transfers that the servers make at the start: with opposite choices.
pub record AreRots (s0 s1 : SRot) (r0 r1 : RRot) : Type 0 where
  pub rot0 : IsRot s0 r0
  pub rot1 : IsRot s1 r1
  pub opposite : r1.b ≡ 1 - r0.b

-- What the receiver holds, by its first random choice.
data Held (s0 s1 : SRot) : ℕ → ℕ → ℕ → ℕ → Type 0 where
  held0 : Held s0 s1 0 s0.r0 1 s1.r1
  held1 : Held s0 s1 1 s0.r1 0 s1.r0

AreRots-Held :
    {s0 s1 : SRot} {r0 r1 : RRot} → AreRots s0 s1 r0 r1 → Held s0 s1 r0.b r0.rb r1.b r1.rb
AreRots-Held {s0} {s1} {r0} {r1} h = elim h.rot0.chosen [
  | inl p ↦ elim h.rot1.chosen [
    | inl q ↦ absurd (omega (arith, p.0, q.0, h.opposite))
    | inr q ↦ rw (p.0, p.1, q.0, q.1) held0
  ]
  | inr p ↦ elim h.rot1.chosen [
    | inl q ↦ rw (p.0, p.1, q.0, q.1) held1
    | inr q ↦ absurd (omega (arith, p.0, q.0, h.opposite))
  ]
]

-- On one digit of the choice, with the mask `k` that says which transfer serves it.
digit0 :
    (c m0 m1 a0 a1 b0 b1 : Bool)
    → (let k = not c in
        let y = xor m0 a0 && not c || xor m1 a1 && c in
        let y' = xor m0 b0 && not c || xor m1 b1 && c in
        xor (y && k || y' && not k) (a0 && k || b1 && not k))
      ≡ (m0 && not c || m1 && c)
digit0 true m0 m1 a0 a1 b0 b1 = ground arith
digit0 false m0 m1 a0 a1 b0 b1 = ground arith

digit1 :
    (c m0 m1 a0 a1 b0 b1 : Bool)
    → (let y = xor m0 a0 && not c || xor m1 a1 && c in
        let y' = xor m0 b0 && not c || xor m1 b1 && c in
        xor (y && c || y' && not c) (a1 && c || b0 && not c))
      ≡ (m0 && not c || m1 && c)
digit1 true m0 m1 a0 a1 b0 b1 = ground arith
digit1 false m0 m1 a0 a1 b0 b1 = ground arith

module _ {s0 s1 : SRot} (a0 : IsWord s0.r0) (a1 : IsWord s0.r1) (b0 : IsWord s1.r0)
    (b1 : IsWord s1.r1) where
  -- Both messages, as the receiver selects them.
  sel0 : ℕ → ℕ → ℕ → ℕ
  sel0 m0 m1 c = select (bit_xor m0 s0.r0) (bit_xor m1 s0.r1) c

  sel1 : ℕ → ℕ → ℕ → ℕ
  sel1 m0 m1 c = select (bit_xor m0 s1.r0) (bit_xor m1 s1.r1) c

  -- One word, opened under a mask `k`.
  opened : ℕ → ℕ → ℕ → ℕ → ℕ → ℕ → ℕ
  opened m0 m1 c k rb0 rb1 =
      bit_xor (bit_or (bit_and (sel0 m0 m1 c) k) (bit_and (sel1 m0 m1 c) (inv k)))
        (bit_or (bit_and rb0 k) (bit_and rb1 (inv k)))

  module _ (m0 m1 c : ℕ) (h0 : IsWord m0) (h1 : IsWord m1) where
    opened-IsWord : (k rb0 rb1 : ℕ) → IsWord rb0 → IsWord rb1 → IsWord (opened m0 m1 c k rb0 rb1)
    unfolding opened sel0 sel1
    opened-IsWord k rb0 rb1 p q =
        bit_xor-lt 64 _ _
          (bit_or-lt 64 _ _
            (bit_and-lt 64 _ k
              (select-IsWord _ _ c (bit_xor-lt 64 m0 _ h0 a0) (bit_xor-lt 64 m1 _ h1 a1)))
            (bit_and-lt 64 _ (inv k)
              (select-IsWord _ _ c (bit_xor-lt 64 m0 _ h0 b0) (bit_xor-lt 64 m1 _ h1 b1))))
          (bit_or-lt 64 _ _ (bit_and-lt 64 rb0 k p) (bit_and-lt 64 rb1 (inv k) q))

    bit-opened :
        (k rb0 rb1 i : ℕ)
        → i < 64
        → bit (opened m0 m1 c k rb0 rb1) i ≡ (
            let y =
              xor (bit m0 i) (bit s0.r0 i) && not (bit c i)
              || xor (bit m1 i) (bit s0.r1 i) && bit c i in
            let y' =
              xor (bit m0 i) (bit s1.r0 i) && not (bit c i)
              || xor (bit m1 i) (bit s1.r1 i) && bit c i in
            xor
              (y && bit k i || y' && not (bit k i))
              (bit rb0 i && bit k i || bit rb1 i && not (bit k i)))
    unfolding opened sel0 sel1
    bit-opened k rb0 rb1 i lt =
        simp (bit-bit_xor, bit-bit_or, bit-bit_and, bit-inv k i lt)
          (rw
            (
              bit-select (bit_xor m0 s0.r0) (bit_xor m1 s0.r1) c i lt,
              bit-select (bit_xor m0 s1.r0) (bit_xor m1 s1.r1) c i lt,
              bit-bit_xor i m0 s0.r0,
              bit-bit_xor i m1 s0.r1,
              bit-bit_xor i m0 s1.r0,
              bit-bit_xor i m1 s1.r1,
            )
            refl)

    opened-select :
        {d0 rb0 d1 rb1 : ℕ}
        → Held s0 s1 d0 rb0 d1 rb1
        → opened m0 m1 c (if d0 == 0 then inv c else c) rb0 rb1 ≡ select m0 m1 c
    opened-select held0 =
        bit_ext 64 _ _ (opened-IsWord (inv c) s0.r0 s1.r1 a0 b1) (select-IsWord m0 m1 c h0 h1)
          λ i lt.
            bit-opened (inv c) s0.r0 s1.r1 i lt
            ∙ rw (bit-inv c i lt, bit-select m0 m1 c i lt)
                (digit0 (bit c i) (bit m0 i) (bit m1 i) (bit s0.r0 i) (bit s0.r1 i) (bit s1.r0 i)
                  (bit s1.r1 i))
    opened-select held1 =
        bit_ext 64 _ _ (opened-IsWord c s0.r1 s1.r0 a1 b0) (select-IsWord m0 m1 c h0 h1) λ i lt.
          bit-opened c s0.r1 s1.r0 i lt
          ∙ rw (bit-select m0 m1 c i lt) (
              digit1 (bit c i) (bit m0 i) (bit m1 i) (bit s0.r0 i) (bit s0.r1 i) (bit s1.r0 i)
                (bit s1.r1 i))

  result_twice-ot_results :
      (r0 r1 : RRot) (ms0 ms1 cs : List ℕ)
      → Held s0 s1 r0.b r0.rb r1.b r1.rb
      → length ms0 ≡ length cs
      → length ms1 ≡ length cs
      → AreWords ms0
      → AreWords ms1
      → result_twice r0 r1 cs (to_send_twice s0 s1 ms0 ms1) ≡ ot_results packed ms0 ms1 cs
  unfolding result_twice to_send_twice ot_results ot_pick opened sel0 sel1
  result_twice-ot_results r0 r1 [] [] [] h p q w w' = refl
  result_twice-ot_results r0 r1 [] (_ ∷ _) [] h p q w w' = absurd (omega arith)
  result_twice-ot_results r0 r1 (_ ∷ _) ms1 [] h p q w w' = absurd (omega arith)
  result_twice-ot_results r0 r1 [] ms1 (_ ∷ _) h p q w w' = absurd (omega arith)
  result_twice-ot_results r0 r1 (_ ∷ _) [] (_ ∷ _) h p q w w' = absurd (omega arith)
  result_twice-ot_results r0 r1 (m0 ∷ ms0) (m1 ∷ ms1) (c ∷ cs) h p q w w' =
      ap₂ ◌∷◌ (opened-select m0 m1 c w.0 w'.0 h ∙ unfold select in refl)
        (result_twice-ot_results r0 r1 ms0 ms1 cs h (omega arith) (omega arith) w.1 w'.1)

-- On two random transfers with opposite choices, and as many pairs of words of messages as words of
-- choices, the batch hands over in one message, bit by bit, what an ideal transfer does.
pub receive_twice-Runs :
    {s0 s1 : SRot} {r0 r1 : RRot} (ms0 ms1 cs : List ℕ)
    → AreRots s0 s1 r0 r1
    → length ms0 ≡ length cs
    → length ms1 ≡ length cs
    → AreWords ms0
    → AreWords ms1
    → Runs
        (send_twice s0 s1 ms0 ms1)
        (receive_twice r0 r1 cs)
        (λ _ got. got ≡ ot_results packed ms0 ms1 cs)
unfolding send_twice receive_twice
receive_twice-Runs {s0} {s1} {r0} {r1} ms0 ms1 cs h p q h0 h1 = Runs-send _ (
    Runs-ret _ _ (
      result_twice-ot_results h.rot0.r0_word h.rot0.r1_word h.rot1.r0_word h.rot1.r1_word r0 r1 ms0
        ms1 cs (AreRots-Held h) p q h0 h1))

-- What a receiver can read off the message with the random messages that it holds, whatever it chose:
-- the pair that its first random choice opens under the first transfer, and the other under the second.
abbrev pub both_messages : RRot → RRot → List ℕ → List (ℕ × ℕ)
both_messages r0 r1 (y00 ∷ y01 ∷ y10 ∷ y11 ∷ more) =
    (if r0.b == 0
      then (bit_xor y00 r0.rb, bit_xor y11 r1.rb)
      else (bit_xor y10 r1.rb, bit_xor y01 r0.rb))
    ∷ both_messages r0 r1 more
both_messages r0 r1 _ = []

abbrev pub zip : List ℕ → List ℕ → List (ℕ × ℕ)
zip (x ∷ xs) (y ∷ ys) = (x, y) ∷ zip xs ys
zip _ _ = []

-- The message of `executeForBitsSingleTransfer` hides neither of the two messages of a pair: with
-- what it holds of the two random transfers, which have opposite choices, a receiver computes both.
pub to_send_twice-reveals :
    {s0 s1 : SRot} {r0 r1 : RRot} (ms0 ms1 : List ℕ)
    → AreRots s0 s1 r0 r1
    → AreWords ms0
    → AreWords ms1
    → both_messages r0 r1 (to_send_twice s0 s1 ms0 ms1) ≡ zip ms0 ms1
unfolding to_send_twice
to_send_twice-reveals [] ms1 h h0 h1 = refl
to_send_twice-reveals (_ ∷ _) [] h h0 h1 = refl
to_send_twice-reveals {s0} {s1} {r0} {r1} (m0 ∷ ms0) (m1 ∷ ms1) h h0 h1 =
    ap₂ ◌∷◌ (pair (AreRots-Held h)) (to_send_twice-reveals ms0 ms1 h h0.1 h1.1)
  where
    pair :
        {d0 rb0 d1 rb1 : ℕ}
        → Held s0 s1 d0 rb0 d1 rb1
        → ◌≡◌ {A = ℕ × ℕ}
            (if d0 == 0
              then (bit_xor (bit_xor m0 s0.r0) rb0, bit_xor (bit_xor m1 s1.r1) rb1)
              else (bit_xor (bit_xor m0 s1.r0) rb1, bit_xor (bit_xor m1 s0.r1) rb0))
            (m0, m1)
    pair held0 = λ i. (unmask m0 s0.r0 h0.0 h.rot0.r0_word i, unmask m1 s1.r1 h1.0 h.rot1.r1_word i)
    pair held1 = λ i. (unmask m0 s1.r0 h0.0 h.rot1.r0_word i, unmask m1 s0.r1 h1.0 h.rot0.r1_word i)
