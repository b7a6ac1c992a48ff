-- ===== src/IntermediateDataSupport/Usage.antt =====
-- Polling a number of triples hands out the next ones.
use native.Mathlib.Nat.{div-eq_of_lt-le}
use mathlib.Core.Path.{subst}
use mpc_package.Base.{ℕ, zero, suc, ◌+◌, ◌-◌, ◌*◌, ◌/◌, ◌≤◌, ◌<◌, ◌≡◌, refl, sym, ap, ◌∙◌, arith}
use mpc_package.Base.{List, [], ◌++◌, Option, none, some, true, false, ltb}
use mpc_package.Base.{replicate, Bool-cases, inl, inr}
use mathlib.Core.List.{append-nil, append_assoc}
use mpc_package.Bmt.{Bmt}
use mpc_package.IntermediateDataSupport.{Queues, Supply, Support, Limits, cut, fresh, read, min}
use mpc_package.IntermediateDataSupport.{poll_loop, give, poll_bmts, initial}
use mpc_package.IntermediateDataSupport.Served.{
  Serving, InUse, fresh-InUse, handed, handed-append, item, pulled,
}

-- The loop ends, after what it was given, with the next `n` triples.
abbrev HandedOut : Limits → Queues → ℕ → ℕ → ℕ → List Bmt → Option (List Bmt × Supply) → Type 0
HandedOut conf queues width k n before none = ⊥
HandedOut conf queues width k n before (some (result, s)) =
    (result ≡ before ++ handed conf queues width k n)
    × ((j : ℕ) × Serving conf queues width (k + n) j s)

-- Using a triple `u` times.
use-Serving :
    {conf : Limits} {queues : Queues} {width k i : ℕ} {s : Supply} (u : ℕ)
    → InUse conf queues width k i s
    → u ≤ s.left_times
    → Serving conf queues width (k + u) (suc i) (record s { left_times = s.left_times - u })
use-Serving {conf} {queues} {width} {k} {i} {s} u h le = record {
  left_queues = h.left_queues;
  next_turn = h.next_turn;
  count =
      h.count ∙ part k u s.left_times le ∙ ap (λ t. k + u + t) (sym (h.there (s.left_times - u)));
  within = omega (arith, h.there (s.left_times - u), h.within);
  current = λ m e pos. h.current ∙ ap (λ t. cut width (item conf queues t)) (same e);
}
  where
    part : (k u l : ℕ) → u ≤ l → k + l ≡ k + u + (l - u)
    part k u l le = omega arith

    same : {m : ℕ} → suc i ≡ suc m → i ≡ m
    same e = omega arith

handed-InUse :
    {conf : Limits} {queues : Queues} {width k i : ℕ} {s : Supply} (u m : ℕ)
    → InUse conf queues width k i s
    → u ≤ s.left_times
    → handed conf queues width k (u + m)
      ≡ replicate u (read s.current) ++ handed conf queues width (k + u) m
handed-InUse {conf} {queues} {width} {k} {i} {s} u m h le =
    handed-append conf queues width k u m (read s.current)
      λ x lt. ap (λ t. cut width (item conf queues t)) (turn_of x (omega arith)) ∙ sym h.current
  where
    turn_of : (x : ℕ) → x < s.left_times → (k + x) / conf.usage_limit ≡ i
    turn_of x lt =
        div-eq_of_lt-le conf.usage_limit
          (below i conf.usage_limit k s.left_times x h.count h.within)
          (above i conf.usage_limit k s.left_times x h.count lt)
      where
        below : (i l k u x : ℕ) → suc i * l ≡ k + u → u ≤ l → i * l ≤ k + x
        below i l k u x e le = grind arith

        above : (i l k u x : ℕ) → suc i * l ≡ k + u → x < u → k + x < (i + 1) * l
        above i l k u x e lt = grind arith

nothing :
    (conf : Limits) (queues : Queues) (width k count : ℕ) (before : List Bmt)
    → ltb 0 count ≡ false
    → before ≡ before ++ handed conf queues width k count
unfolding handed
nothing conf queues width k zero before e = sym (append-nil before)
nothing conf queues width k (suc count) before e = absurd (ground arith)

-- A round and what the next ones hand out.
HandedOut-round :
    {conf : Limits} {queues : Queues} {width k i : ℕ} {f : Supply} (u count : ℕ) (before : List Bmt)
    → InUse conf queues width k i f
    → u ≤ f.left_times
    → u ≤ count
    → (o : Option (List Bmt × Supply))
    → HandedOut conf queues width (k + u) (count - u) (before ++ replicate u (read f.current)) o
    → HandedOut conf queues width k count before o
HandedOut-round u count before h le lt none p = p
HandedOut-round {conf} {queues} {width} {k} {i} {f} u count before h le lt (some (result, s)) p = (
  p.0
      ∙ append_assoc before _ _
      ∙ ap (λ t. before ++ t)
          (sym (handed-InUse u (count - u) h le)
            ∙ ap (handed conf queues width k) (whole u count lt)),
  (p.1.0, subst (λ n. Serving conf queues width n p.1.0 s) (all k u count lt) p.1.1),
)
  where
    whole : (u count : ℕ) → u ≤ count → u + (count - u) ≡ count
    whole u count lt = omega arith

    all : (k u count : ℕ) → u ≤ count → k + u + (count - u) ≡ k + count
    all k u count lt = omega arith

min_le : (a b : ℕ) → (min a b ≤ a) × (min a b ≤ b)
min_le a b = ground arith

module _ {conf : Limits} {queues : Queues} {width : ℕ} (some_use : 0 < conf.usage_limit) where
  poll_loop-HandedOut :
      (fuel count k j : ℕ) (s : Supply) (before : List Bmt)
      → count < fuel
      → Serving conf queues width k j s
      → HandedOut conf queues width k count before (poll_loop fuel conf width count s before)
  unfolding poll_loop
  poll_loop-HandedOut zero count k j s before lt h = absurd (omega arith)
  poll_loop-HandedOut (suc fuel) count k j s before lt h = elim (Bool-cases (ltb 0 count)) [
    | inl e ↦ rw e (
        HandedOut-round use_count count before used (min_le count f.left_times).1
          (min_le count f.left_times).0 _
          (poll_loop-HandedOut fuel (count - use_count) (k + use_count) (suc i) _ _
            (less count f.left_times lt e used.some_left)
            (use-Serving use_count used (min_le count f.left_times).1)))
    | inr e ↦ rw e (
      nothing conf queues width k count before e,
      (j, subst (λ n. Serving conf queues width n j s) (here count e) h),
    )
  ]
    where
      f : Supply
      f = fresh conf width s

      i : ℕ
      i = (fresh-InUse some_use h).0

      used : InUse conf queues width k i f
      used = (fresh-InUse some_use h).1

      use_count : ℕ
      use_count = min count f.left_times

      less :
          (count left : ℕ)
          → count < suc fuel
          → ltb 0 count ≡ true
          → 0 < left
          → count - min count left < fuel
      less count left lt e pos = ground arith

      here : (count : ℕ) → ltb 0 count ≡ false → k ≡ k + count
      here count e = ground arith

  -- With a usage limit above 0, and on a state that has handed out `k` triples of the queues'
  -- round-robin sequence, each as often as the limit says, the loop ends within its fuel, hands out
  -- the next `count` of that sequence, and leaves a state that has handed out `k + count`.
  pub poll_bmts-handed :
      (count k j : ℕ) (s : Support)
      → Serving conf queues width k j s.bmts
      → (s' : Support) × (j' : ℕ) × (poll_bmts conf count width s
          ≡ some (handed conf queues width k count, s'))
        × Serving conf queues width (k + count) j' s'.bmts
  unfolding poll_bmts
  poll_bmts-handed count k j s h =
      given (poll_loop (suc count) conf width count s.bmts [])
        (poll_loop-HandedOut (suc count) count k j s.bmts [] (omega arith) h)
    where
      given :
          (o : Option (List Bmt × Supply))
          → HandedOut conf queues width k count [] o
          → (s' : Support) × (j' : ℕ) × (give (λ supply. record s { bmts = supply }) o
              ≡ some (handed conf queues width k count, s'))
            × Serving conf queues width (k + count) j' s'.bmts
      given none p = absurd p
      given (some (result, supply)) p = (
        record s { bmts = supply },
        p.1.0,
        ap (λ t. some (t, record s { bmts = supply })) p.0,
        p.1.1,
      )

pub initial-Serving :
    (conf : Limits) (queues : Queues) (width : ℕ)
    → Serving conf queues width 0 0 (initial conf queues)
unfolding initial pulled
initial-Serving conf queues width = record {
  left_queues = refl;
  next_turn = refl;
  count = none_yet conf.usage_limit;
  within = omega arith;
  current = λ i e pos. absurd (omega arith);
}
  where
    none_yet : (l : ℕ) → 0 * l ≡ 0 + 0
    none_yet l = omega arith
