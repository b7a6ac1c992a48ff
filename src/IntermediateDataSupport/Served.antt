-- ===== src/IntermediateDataSupport/Served.antt =====
-- Every triple is handed out as often as the usage limit says, and the queues take turns.
use mpc_package.Base.{
  ℕ, zero, suc, ◌+◌, ◌*◌, ◌/◌, ◌%◌, ◌^◌, ◌≤◌, ◌<◌, ◌≡◌, refl, ap, ap₂, ◌∙◌, arith,
}
use mpc_package.Base.{List, [], ◌∷◌, ◌++◌, Option, none, some, true, false}
use mpc_package.Base.{replicate, Bool-cases, inl, inr}
use mpc_package.Bmt.{Bmt}
use mpc_package.IntermediateDataSupport.{Queues, Supply, Limits, cut, refill, fresh, used_up, read}
use mpc_package.IntermediateDataSupport.{poll_queue}

module _ (conf : Limits) (queues : Queues) where
  -- The queue whose turn it is.
  abbrev pub turn : ℕ → ℕ
  turn k = k % 2 ^ 32 % conf.queue_num

  -- What is left after `k` polls.
  unfoldable pub pulled : ℕ → Queues
  pulled zero = queues
  pulled (suc k) = (poll_queue (pulled k) (turn k)).1

  -- The triple that the poll `k` takes.
  abbrev pub item : ℕ → Bmt
  item k = (poll_queue (pulled k) (turn k)).0

  -- `n` triples, from the one that is handed out as number `k`.
  unfoldable pub handed : ℕ → ℕ → ℕ → List Bmt
  handed width k zero = []
  handed width k (suc n) = cut width (item (k / conf.usage_limit)) ∷ handed width (suc k) n

  -- How often the current triple can still be used.
  abbrev pub uses : Option Bmt → ℕ → ℕ
  uses none left = 0
  uses (some bmt) left = left

  -- The supply after `k` triples of a width have been handed out and `j` have been polled.
  pub record Serving (width k j : ℕ) (s : Supply) : Type 0 where
    pub left_queues : s.queues ≡ pulled j
    pub next_turn : s.current_q ≡ j % 2 ^ 32
    pub count : j * conf.usage_limit ≡ k + uses s.current s.left_times
    pub within : uses s.current s.left_times ≤ conf.usage_limit
    pub current :
        (i : ℕ) → j ≡ suc i → 0 < uses s.current s.left_times → read s.current ≡ cut width (item i)

  pub handed-append :
      (width k u m : ℕ) (t : Bmt)
      → ((i : ℕ) → i < u → cut width (item ((k + i) / conf.usage_limit)) ≡ t)
      → handed width k (u + m) ≡ replicate u t ++ handed width (k + u) m
  unfolding handed
  handed-append width k zero m t h = ap₂ (handed width) (add_zero k) (zero_add m)
    where
      add_zero : (k : ℕ) → k ≡ k + 0
      add_zero k = omega arith

      zero_add : (m : ℕ) → 0 + m ≡ m
      zero_add m = omega arith
  handed-append width k (suc u) m t h =
      ap (handed width k) (suc_add u m)
      ∙ ap₂ ◌∷◌ (ap (λ n. cut width (item (n / conf.usage_limit))) (add_zero k) ∙ h 0 (omega arith))
          (handed-append width (suc k) u m t (λ i lt.
              ap (λ n. cut width (item (n / conf.usage_limit))) (shift k i)
              ∙ h (suc i) (omega arith))
            ∙ ap (λ n. replicate u t ++ handed width n m) (shift k u))
    where
      suc_add : (u m : ℕ) → suc u + m ≡ suc (u + m)
      suc_add u m = omega arith

      add_zero : (k : ℕ) → k ≡ k + 0
      add_zero k = omega arith

      shift : (k i : ℕ) → suc k + i ≡ k + suc i
      shift k i = omega arith

-- A supply whose current triple, the one that was polled as number `i`, can be used.
pub record InUse (conf : Limits) (queues : Queues) (width k i : ℕ) (s : Supply) : Type 0 where
  pub left_queues : s.queues ≡ pulled conf queues (suc i)
  pub next_turn : s.current_q ≡ suc i % 2 ^ 32
  pub count : suc i * conf.usage_limit ≡ k + s.left_times
  pub within : s.left_times ≤ conf.usage_limit
  pub some_left : 0 < s.left_times
  pub current : read s.current ≡ cut width (item conf queues i)
  pub there : (left : ℕ) → uses conf queues s.current left ≡ left

used_up-uses :
    (conf : Limits) (queues : Queues) (c : Option Bmt) (left : ℕ)
    → used_up c left ≡ true
    → uses conf queues c left ≡ 0
unfolding used_up
used_up-uses conf queues none left e = refl
used_up-uses conf queues (some _) left e = ground arith

not_used_up-uses :
    (conf : Limits) (queues : Queues) (c : Option Bmt) (left : ℕ)
    → used_up c left ≡ false
    → (0 < left) × ((l : ℕ) → uses conf queues c l ≡ l)
unfolding used_up
not_used_up-uses conf queues none left e = cc
not_used_up-uses conf queues (some _) left e = (ground arith, λ l. refl)

module _ {conf : Limits} {queues : Queues} {width k : ℕ} (some_use : 0 < conf.usage_limit) where
  refill-InUse :
      {j : ℕ} {s : Supply}
      → Serving conf queues width k j s
      → uses conf queues s.current s.left_times ≡ 0
      → InUse conf queues width k j (refill conf width s)
  unfolding refill pulled poll_queue
  refill-InUse {j} {s} h e =
      rw (h.left_queues, h.next_turn)
        (record {
          left_queues = refl;
          next_turn = turn_after j;
          count = one_more j conf.usage_limit k (uses conf queues s.current s.left_times) h.count e;
          within = omega arith;
          some_left = some_use;
          current = unfold read in refl;
          there = λ left. refl;
        })
    where
      turn_after : (j : ℕ) → (j % 2 ^ 32 + 1) % 2 ^ 32 ≡ suc j % 2 ^ 32
      turn_after j = omega arith

      one_more : (j l k u : ℕ) → j * l ≡ k + u → u ≡ 0 → suc j * l ≡ k + l
      one_more j l k u p q = grind arith

  pub fresh-InUse :
      {j : ℕ} {s : Supply}
      → Serving conf queues width k j s
      → (i : ℕ) × InUse conf queues width k i (fresh conf width s)
  unfolding fresh
  fresh-InUse {j} {s} h = elim (Bool-cases (used_up s.current s.left_times)) [
    | inl e ↦ rw e (j, refill-InUse h (used_up-uses conf queues s.current s.left_times e))
    | inr e ↦ rw e (held j h (not_used_up-uses conf queues s.current s.left_times e))
  ]
    where
      held :
          (j : ℕ)
          → Serving conf queues width k j s
          → (0 < s.left_times) × ((l : ℕ) → uses conf queues s.current l ≡ l)
          → (i : ℕ) × InUse conf queues width k i s
      held zero h p = absurd (
          none_polled conf.usage_limit k (uses conf queues s.current s.left_times) h.count
            (p.1 s.left_times) p.0)
        where
          none_polled : (l k u : ℕ) → 0 * l ≡ k + u → u ≡ s.left_times → 0 < s.left_times → ⊥
          none_polled l k u e f pos = grind arith
      held (suc i) h p = (
        i,
        record {
          left_queues = h.left_queues;
          next_turn = h.next_turn;
          count = h.count ∙ ap (λ u. k + u) (p.1 s.left_times);
          within = omega (arith, h.within, p.1 s.left_times);
          some_left = p.0;
          current = h.current i refl (omega (arith, p.0, p.1 s.left_times));
          there = p.1;
        },
      )
