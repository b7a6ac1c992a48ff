-- ===== src/IntermediateDataSupport/Lockstep.antt =====
-- Two servers that poll in the same order get shares of the same triples.
use mathlib.Core.Path.{subst}
use mpc_package.Base.{ℕ, zero, suc, ◌+◌, ◌-◌, ◌%◌, ◌<◌, ◌≡◌, refl, sym, ap, ◌∙◌, arith}
use mpc_package.Base.{List, [], ◌∷◌, ◌++◌, Option, none, some, Bool, true, false, ltb, ◌==◌}
use mpc_package.Base.{if◌then◌else◌, replicate, Bool-cases, inl, inr}
use mpc_package.Bmt.{Bmt}
use mpc_package.IntermediateDataSupport.{Supply, Limits, cut, refill, fresh, used_up, read, min}
use mpc_package.IntermediateDataSupport.{poll_queue, poll_loop}

-- As many on either side, and related one by one.
pub data Pairwise (R : Bmt → Bmt → Type 0) : ℕ → List Bmt → List Bmt → Type 0 where
  no_pair : Pairwise R 0 [] []
  pair :
      {n : ℕ} {s t : Bmt} {ss ts : List Bmt}
      → R s t
      → Pairwise R n ss ts
      → Pairwise R (suc n) (s ∷ ss) (t ∷ ts)

-- Both servers hold a current triple, and these are related, or neither does.
abbrev pub SameCurrent : (Bmt → Bmt → Type 0) → Option Bmt → Option Bmt → Type 0
SameCurrent R none none = Unit {0}
SameCurrent R (some s) (some t) = R s t
SameCurrent R _ _ = ⊥

-- The invariant of the two servers' supplies: what is queued is related by `Q`, and what is in use
-- by `R`.
pub record InStep (Q R : Bmt → Bmt → Type 0) (s0 s1 : Supply) : Type 0 where
  pub queued : (i n : ℕ) → Q (s0.queues i n) (s1.queues i n)
  pub same_q : s0.current_q ≡ s1.current_q
  pub same_left : s0.left_times ≡ s1.left_times
  pub same_current : SameCurrent R s0.current s1.current

-- What both polls end with.
abbrev pub BothPolled :
    (Bmt → Bmt → Type 0)
    → (Bmt → Bmt → Type 0)
    → ℕ
    → Option (List Bmt × Supply)
    → Option (List Bmt × Supply)
    → Type 0
BothPolled Q R n (some (r0, s0)) (some (r1, s1)) = Pairwise R n r0 r1 × InStep Q R s0 s1
BothPolled Q R n _ _ = ⊥

module _ (R : Bmt → Bmt → Type 0) where
  pub Pairwise-eq : {n m : ℕ} (ss ts : List Bmt) → n ≡ m → Pairwise R n ss ts → Pairwise R m ss ts
  Pairwise-eq ss ts e p = subst (λ k. Pairwise R k ss ts) e p

  Pairwise-append :
      {n m : ℕ} {ss ts us vs : List Bmt}
      → Pairwise R n ss ts
      → Pairwise R m us vs
      → Pairwise R (n + m) (ss ++ us) (ts ++ vs)
  Pairwise-append {us = us} {vs = vs} no_pair q = Pairwise-eq us vs (omega arith) q
  Pairwise-append {us = us} {vs = vs} (pair {ss = ss} {ts = ts} r p) q =
      Pairwise-eq _ _ (omega arith) (pair r (Pairwise-append p q))

  Pairwise-replicate : (n : ℕ) (s t : Bmt) → R s t → Pairwise R n (replicate n s) (replicate n t)
  Pairwise-replicate zero s t r = no_pair
  Pairwise-replicate (suc n) s t r = pair r (Pairwise-replicate n s t r)

  used_up-same : (c0 c1 : Option Bmt) (l : ℕ) → SameCurrent R c0 c1 → used_up c0 l ≡ used_up c1 l
  unfolding used_up
  used_up-same none none l h = refl
  used_up-same (some _) (some _) l h = refl
  used_up-same none (some _) l h = absurd h
  used_up-same (some _) none l h = absurd h

  read-SameCurrent :
      (c0 c1 : Option Bmt) (l : ℕ)
      → SameCurrent R c0 c1
      → used_up c0 l ≡ false
      → R (read c0) (read c1)
  unfolding used_up read
  read-SameCurrent none none l h e = cc
  read-SameCurrent (some _) (some _) l h e = h
  read-SameCurrent none (some _) l h e = absurd h
  read-SameCurrent (some _) none l h e = absurd h

used_up-left : (c : Option Bmt) (l : ℕ) → used_up c l ≡ false → 0 < l
unfolding used_up
used_up-left none l e = cc
used_up-left (some _) l e = ground arith

-- A supply whose current triple can be used.
abbrev Ready : Supply → Type 0
Ready s = (0 < s.left_times) × (used_up s.current s.left_times ≡ false)

fresh-Ready :
    (conf : Limits) (width : ℕ) (s : Supply) → 0 < conf.usage_limit → Ready (fresh conf width s)
unfolding fresh
fresh-Ready conf width s some_use = elim (Bool-cases (used_up s.current s.left_times)) [
  | inl e ↦ rw e (some_use, unfold refill used_up in (positive conf.usage_limit some_use))
  | inr e ↦ rw e (used_up-left s.current s.left_times e, e)
]
  where
    positive : (n : ℕ) → 0 < n → (n == 0) ≡ false
    positive n h = ground arith

module _ {Q R : Bmt → Bmt → Type 0} (conf : Limits) (width : ℕ) (some_use : 0 < conf.usage_limit)
    (cuts : (s t : Bmt) → Q s t → R (cut width s) (cut width t)) where
  refill-InStep :
      {s0 s1 : Supply} → InStep Q R s0 s1 → InStep Q R (refill conf width s0) (refill conf width s1)
  unfolding refill poll_queue
  refill-InStep {s0} {s1} h = rw h.same_q (record {
    queued = λ i n. after i n (i == s1.current_q % conf.queue_num);
    same_q = refl;
    same_left = refl;
    same_current = cuts _ _ (h.queued _ 0);
  })
    where
      after :
          (i n : ℕ) (here : Bool)
          → Q
              (if here then s0.queues i (suc n) else s0.queues i n)
              (if here then s1.queues i (suc n) else s1.queues i n)
      after i n true = h.queued i (suc n)
      after i n false = h.queued i n

  fresh-InStep :
      {s0 s1 : Supply} → InStep Q R s0 s1 → InStep Q R (fresh conf width s0) (fresh conf width s1)
  unfolding fresh
  fresh-InStep {s0} {s1} h = elim (Bool-cases (used_up s0.current s0.left_times)) [
    | inl e ↦ rw (e, sym same ∙ e) (refill-InStep h)
    | inr e ↦ rw (e, sym same ∙ e) h
  ]
    where
      same : used_up s0.current s0.left_times ≡ used_up s1.current s1.left_times
      same =
          used_up-same R s0.current s1.current s0.left_times h.same_current
          ∙ ap (used_up s1.current) h.same_left

  -- One round, before the next ones.
  handed-Pairwise :
      (count n : ℕ) {f0 f1 : Supply} {r0 r1 : List Bmt}
      → InStep Q R f0 f1
      → Ready f0
      → Pairwise R n r0 r1
      → Pairwise R
          (n + min count f0.left_times)
          (r0 ++ replicate (min count f0.left_times) (read f0.current))
          (r1 ++ replicate (min count f0.left_times) (read f1.current))
  handed-Pairwise count n {f0} {f1} h ready p = Pairwise-append R p (
      Pairwise-replicate R _ _ _
        (read-SameCurrent R f0.current f1.current f0.left_times h.same_current ready.1))

  used-InStep :
      (used : ℕ) {f0 f1 : Supply}
      → InStep Q R f0 f1
      → InStep Q R
          (record f0 { left_times = f0.left_times - used })
          (record f1 { left_times = f0.left_times - used })
  used-InStep used h = record {
    queued = h.queued;
    same_q = h.same_q;
    same_left = refl;
    same_current = h.same_current;
  }

  pub poll_loop-BothPolled :
      (fuel count n : ℕ) (s0 s1 : Supply) (r0 r1 : List Bmt)
      → count < fuel
      → InStep Q R s0 s1
      → Pairwise R n r0 r1
      → BothPolled Q R
          (n + count)
          (poll_loop fuel conf width count s0 r0)
          (poll_loop fuel conf width count s1 r1)
  unfolding poll_loop
  poll_loop-BothPolled zero count n s0 s1 r0 r1 lt h p = absurd (omega arith)
  poll_loop-BothPolled (suc fuel) count n s0 s1 r0 r1 lt h p = elim (Bool-cases (ltb 0 count)) [
    | inl e ↦
        rw (e, ← (fresh-InStep h).same_left)
          (subst
            (λ k.
              BothPolled Q R k
                (poll_loop fuel conf width (count - use_count)
                  (record f0 { left_times = f0.left_times - use_count })
                  (r0 ++ replicate use_count (read f0.current)))
                (poll_loop fuel conf width (count - use_count)
                  (record f1 { left_times = f0.left_times - use_count })
                  (r1 ++ replicate use_count (read f1.current))))
            (total n count f0.left_times)
            (poll_loop-BothPolled fuel (count - use_count) (n + use_count) _ _ _ _
              (less count f0.left_times lt e (fresh-Ready conf width s0 some_use).0)
              (used-InStep use_count (fresh-InStep h))
              (handed-Pairwise count n (fresh-InStep h) (fresh-Ready conf width s0 some_use) p)))
    | inr e ↦ rw e (Pairwise-eq R r0 r1 (none_left count e) p, h)
  ]
    where
      f0 : Supply
      f0 = fresh conf width s0

      f1 : Supply
      f1 = fresh conf width s1

      use_count : ℕ
      use_count = min count f0.left_times

      total : (n count left : ℕ) → n + min count left + (count - min count left) ≡ n + count
      total n count left = ground arith

      less :
          (count left : ℕ)
          → count < suc fuel
          → ltb 0 count ≡ true
          → 0 < left
          → count - min count left < fuel
      less count left lt e pos = ground arith

      none_left : (count : ℕ) → ltb 0 count ≡ false → n ≡ n + count
      none_left count e = ground arith
