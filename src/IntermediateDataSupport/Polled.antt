-- ===== src/IntermediateDataSupport/Polled.antt =====
-- What two servers poll are triples, and the operators can use them.
use mpc_package.Base.{ℕ, zero, suc, ◌+◌, ◌≤◌, ◌<◌, ◌≡◌, refl, arith}
use mpc_package.Base.{List, [], Option, none, some, Bool, true, false, xor, ◌&&◌, ltb, bit}
use mathlib.Core.Path.{subst⁻¹}
use mpc_package.Base.{replicate, ◌-◌, ◌==◌}
use mpc_package.Math.Ring.{ring-IsWord, bit-ring, ring-Cong}
use mpc_package.Word.Cong.{Cong-add, Cong-mul, Cong-symm, ◌∙c◌, Cong_down}
use mpc_package.Bmt.{Bmt}
use mpc_package.Bmt.Triples.{XorTriple, SumTriple}
use mpc_package.IntermediateDataSupport.{
  Queues, Supply, Support, Limits, cut, fresh, used_up, read, min, poll_loop, give,
}
use mpc_package.IntermediateDataSupport.{poll_bmts, poll_bitwise_bmts}
use mpc_package.IntermediateDataSupport.Lockstep.{
  Pairwise, no_pair, InStep, BothPolled, Pairwise-eq,
}
use mpc_package.IntermediateDataSupport.Lockstep.{poll_loop-BothPolled}

-- Both polls end with `n` triples each, one by one related, and the supplies stay in step.
abbrev pub BothGot :
    (Support → Supply)
    → (Bmt → Bmt → Type 0)
    → (Bmt → Bmt → Type 0)
    → ℕ
    → Option (List Bmt × Support)
    → Option (List Bmt × Support)
    → Type 0
BothGot kind Q R n (some (r0, s0)) (some (r1, s1)) =
    Pairwise R n r0 r1 × InStep Q R (kind s0) (kind s1)
BothGot kind Q R n _ _ = ⊥

-- A Boolean triple that is cut stays a triple in all 64 digits.
cut-XorTriple :
    (width : ℕ) (s t : Bmt)
    → width ≤ 64
    → XorTriple 64 s t
    → XorTriple 64 (cut width s) (cut width t)
unfolding cut
cut-XorTriple width s t le h = record {
  words0 = record {
    a_word = ring-IsWord s.a width h.words0.a_word le;
    b_word = ring-IsWord s.b width h.words0.b_word le;
    c_word = ring-IsWord s.c width h.words0.c_word le;
  };
  words1 = record {
    a_word = ring-IsWord t.a width h.words1.a_word le;
    b_word = ring-IsWord t.b width h.words1.b_word le;
    c_word = ring-IsWord t.c width h.words1.c_word le;
  };
  digits = λ i lt.
      rw
        (
          bit-ring s.a width h.words0.a_word le i,
          bit-ring s.b width h.words0.b_word le i,
          bit-ring s.c width h.words0.c_word le i,
          bit-ring t.a width h.words1.a_word le i,
          bit-ring t.b width h.words1.b_word le i,
          bit-ring t.c width h.words1.c_word le i,
        )
        (within (ltb i width) (bit s.a i) (bit s.b i) (bit s.c i) (bit t.a i) (bit t.b i)
          (bit t.c i) (h.digits i lt));
}
  where
    within :
        (k a b c d e f : Bool)
        → xor c f ≡ (xor a d && xor b e)
        → xor (k && c) (k && f) ≡ (xor (k && a) (k && d) && xor (k && b) (k && e))
    within true a b c d e f h = h
    within false a b c d e f h = refl

-- An arithmetic triple that is cut to a width is a triple of that width.
cut-SumTriple :
    (width : ℕ) (s t : Bmt)
    → width ≤ 64
    → SumTriple 64 s t
    → SumTriple width (cut width s) (cut width t)
unfolding cut
cut-SumTriple width s t le h = record {
  words0 = record {
    a_word = ring-IsWord s.a width h.words0.a_word le;
    b_word = ring-IsWord s.b width h.words0.b_word le;
    c_word = ring-IsWord s.c width h.words0.c_word le;
  };
  words1 = record {
    a_word = ring-IsWord t.a width h.words1.a_word le;
    b_word = ring-IsWord t.b width h.words1.b_word le;
    c_word = ring-IsWord t.c width h.words1.c_word le;
  };
  product =
      Cong-add (ring-Cong s.c width h.words0.c_word le) (ring-Cong t.c width h.words1.c_word le)
      ∙c Cong_down le h.product.same
      ∙c Cong-symm (
          Cong-mul
            (Cong-add (ring-Cong s.a width h.words0.a_word le)
              (ring-Cong t.a width h.words1.a_word le))
            (Cong-add (ring-Cong s.b width h.words0.b_word le)
              (ring-Cong t.b width h.words1.b_word le)));
}

give-BothGot :
    (Q R : Bmt → Bmt → Type 0) (kind : Support → Supply) (put0 put1 : Supply → Support) (n : ℕ)
    (o0 o1 : Option (List Bmt × Supply))
    → ((x : Supply) → kind (put0 x) ≡ x)
    → ((x : Supply) → kind (put1 x) ≡ x)
    → BothPolled Q R (0 + n) o0 o1
    → BothGot kind Q R n (give put0 o0) (give put1 o1)
give-BothGot Q R kind put0 put1 n (some (r0, x0)) (some (r1, x1)) e0 e1 p = (
  Pairwise-eq R r0 r1 (zero_add n) p.0,
  subst⁻¹ (λ x. InStep Q R x (kind (put1 x1))) (e0 x0) (subst⁻¹ (InStep Q R x0) (e1 x1) p.1),
)
  where
    zero_add : (n : ℕ) → 0 + n ≡ n
    zero_add n = omega arith
give-BothGot Q R kind put0 put1 n none _ e0 e1 p = absurd p
give-BothGot Q R kind put0 put1 n (some _) none e0 e1 p = absurd p

-- With a usage limit above 0, in every width up to 64, and on two supplies in step whose triples
-- are Boolean triples, both polls end with `count` triples each, and the supplies stay in step.
pub poll_bitwise_bmts-InStep :
    (conf : Limits) (count width : ℕ) (s0 s1 : Support)
    → 0 < conf.usage_limit
    → width ≤ 64
    → InStep (XorTriple 64) (XorTriple 64) s0.bitwise_bmts s1.bitwise_bmts
    → BothGot
        (λ s. s.bitwise_bmts)
        (XorTriple 64)
        (XorTriple 64)
        count
        (poll_bitwise_bmts conf count width s0)
        (poll_bitwise_bmts conf count width s1)
unfolding poll_bitwise_bmts
poll_bitwise_bmts-InStep conf count width s0 s1 pos le h =
    give-BothGot (XorTriple 64) (XorTriple 64) (λ s. s.bitwise_bmts) _ _ count _ _ (λ x. refl)
      (λ x. refl)
      (poll_loop-BothPolled conf width pos (λ s t. cut-XorTriple width s t le) (suc count) count 0
        s0.bitwise_bmts s1.bitwise_bmts [] [] (omega arith) h no_pair)

-- With a usage limit above 0, in every width up to 64, and on two supplies in step whose queues
-- hold arithmetic triples of 64 bits and whose current ones are triples of the width, both servers'
-- polls end with `count` triples of the width each, and the supplies stay in step.
pub poll_bmts-InStep :
    (conf : Limits) (count width : ℕ) (s0 s1 : Support)
    → 0 < conf.usage_limit
    → width ≤ 64
    → InStep (SumTriple 64) (SumTriple width) s0.bmts s1.bmts
    → BothGot
        (λ s. s.bmts)
        (SumTriple 64)
        (SumTriple width)
        count
        (poll_bmts conf count width s0)
        (poll_bmts conf count width s1)
unfolding poll_bmts
poll_bmts-InStep conf count width s0 s1 pos le h =
    give-BothGot (SumTriple 64) (SumTriple width) (λ s. s.bmts) _ _ count _ _ (λ x. refl)
      (λ x. refl)
      (poll_loop-BothPolled conf width pos (λ s t. cut-SumTriple width s t le) (suc count) count 0
        s0.bmts s1.bmts [] [] (omega arith) h no_pair)

-- A supply in which a triple is in use.
abbrev pub using : Queues → ℕ → Bmt → ℕ → Supply
using queues q bmt left = record {
  queues = queues;
  current_q = q;
  current = some bmt;
  left_times = left;
}

fresh-using :
    (conf : Limits) (width q left : ℕ) (queues : Queues) (bmt : Bmt)
    → 0 < left
    → fresh conf width (using queues q bmt left) ≡ using queues q bmt left
unfolding fresh used_up
fresh-using conf width q left queues bmt pos = rw (in_use left pos)
  where
    in_use : (left : ℕ) → 0 < left → (left == 0) ≡ false
    in_use left pos = ground arith

-- A triple in use that has at least `count` uses left, and at least one, is handed out `count`
-- times as it is, whatever width is asked for now and whatever width it was cut to.
pub poll_bmts-stale :
    (conf : Limits) (count width q left : ℕ) (queues : Queues) (bmt : Bmt) (s : Support)
    → 0 < left
    → count ≤ left
    → poll_bmts conf count width (record s { bmts = using queues q bmt left })
      ≡ some (replicate count bmt, record s { bmts = using queues q bmt (left - count) })
unfolding poll_bmts poll_loop read
poll_bmts-stale conf zero width q left queues bmt s pos le = rw (sub_zero left)
  where
    sub_zero : (left : ℕ) → left - 0 ≡ left
    sub_zero left = omega arith
poll_bmts-stale conf (suc count) width q left queues bmt s pos le =
    rw
      (fresh-using conf width q left queues bmt pos, all left le, none_left count, some_count count)
  where
    all : (left : ℕ) → suc count ≤ left → min (suc count) left ≡ suc count
    all left le = ground arith

    none_left : (count : ℕ) → suc count - suc count ≡ 0
    none_left count = omega arith

    some_count : (count : ℕ) → ltb 0 (suc count) ≡ true
    some_count count = ground arith
