-- ===== src/BoolEqualOperator/Polls.antt =====
-- What `BoolEqualOperator::execute` polls before its conjunctions.
use mathlib.Core.Option
use mpc_package.Base.{ℕ, ◌≤◌, ◌<◌, ◌≡◌, refl, Option, none, some, arith}
use mpc_package.Base.{List, true, false}
use mpc_package.Bmt.{Bmt, Env, BmtMethod, background, jit, fixed, pipeline}
use mpc_package.Bmt.Triples.{XorTriple, XorTriple-down, SuppliedBy}
use mpc_package.IntermediateDataSupport.{
  Limits, Support, used_up, has_queues, first, poll_bitwise_bmt,
}
use mpc_package.IntermediateDataSupport.Lockstep.{Pairwise, pair}
use mpc_package.IntermediateDataSupport.Both.{BitwiseInStep, Both, Both-map}
use mpc_package.IntermediateDataSupport.Polled.{BothGot, poll_bitwise_bmts-InStep}
use mpc_package.BoolEqualOperator.{given_bmt}

-- Both servers run under the same method, and both or neither are given a triple. Without queues
-- no triple has been polled before.
abbrev pub Source : BmtMethod → BmtMethod → Option Bmt → Option Bmt → Support → Support → Type 0
Source m0 m1 (some b0) (some b1) s0 s1 = XorTriple 1 b0 b1
Source background background none none s0 s1 = Unit
Source pipeline pipeline none none s0 s1 = Unit
Source jit jit none none s0 s1 = (s0.bitwise_bmts.current ≡ none) × (s1.bitwise_bmts.current ≡ none)
Source fixed fixed none none s0 s1 =
    (s0.bitwise_bmts.current ≡ none) × (s1.bitwise_bmts.current ≡ none)
Source m0 m1 _ _ s0 s1 = ⊥

-- Both servers read beyond the end of a vector.
abbrev pub Neither : {A : Type 0} → Option (A × Support) → Option (A × Support) → Type 0
Neither none none = Unit {0}
Neither _ _ = ⊥

-- What becomes of a poll: without a triple that is given, it needs the queues.
abbrev pub Outcome :
    {A : Type 0}
    → BmtMethod
    → Option Bmt
    → (A → A → Type 0)
    → Option (A × Support)
    → Option (A × Support)
    → Type 0
Outcome jit none Q o0 o1 = Neither o0 o1
Outcome fixed none Q o0 o1 = Neither o0 o1
Outcome background none Q o0 o1 = Both Q o0 o1
Outcome pipeline none Q o0 o1 = Both Q o0 o1
Outcome m (some bmt) Q o0 o1 = Both Q o0 o1

Neither-map :
    {A B : Type 0} (f g : A → B) (o0 o1 : Option (A × Support))
    → Neither o0 o1
    → Neither (Option.map (λ p. (f p.0, p.1)) o0) (Option.map (λ p. (g p.0, p.1)) o1)
Neither-map f g none none h = tt
Neither-map f g none (some _) h = absurd h
Neither-map f g (some _) _ h = absurd h

module _ {A B : Type 0} (P : A → A → Type 0) (Q : B → B → Type 0) (f g : A → B)
    (next : (a b : A) → P a b → Q (f a) (g b)) where
  pub Outcome-map :
      (m : BmtMethod) (bmt : Option Bmt) (o0 o1 : Option (A × Support))
      → Outcome m bmt P o0 o1
      → Outcome m bmt Q (Option.map (λ p. (f p.0, p.1)) o0) (Option.map (λ p. (g p.0, p.1)) o1)
  Outcome-map jit none o0 o1 h = Neither-map f g o0 o1 h
  Outcome-map fixed none o0 o1 h = Neither-map f g o0 o1 h
  Outcome-map background none o0 o1 h = Both-map P Q f g next o0 o1 h
  Outcome-map pipeline none o0 o1 h = Both-map P Q f g next o0 o1 h
  Outcome-map m (some bmt) o0 o1 h = Both-map P Q f g next o0 o1 h

first-Pairwise :
    {bs0 bs1 : List Bmt} (s0 s1 : Support)
    → Pairwise (XorTriple 64) 1 bs0 bs1
    → BitwiseInStep s0 s1
    → Both (XorTriple 64) (first (some (bs0, s0))) (first (some (bs1, s1)))
unfolding first
first-Pairwise s0 s1 (pair r p) h = (r, h)

first-Both :
    (o0 o1 : Option (List Bmt × Support))
    → BothGot (λ s. s.bitwise_bmts) (XorTriple 64) (XorTriple 64) 1 o0 o1
    → Both (XorTriple 64) (first o0) (first o1)
first-Both (some (bs0, s0)) (some (bs1, s1)) h = first-Pairwise s0 s1 h.0 h.1
first-Both none _ h = absurd h
first-Both (some _) none h = absurd h

module _ (conf : Limits) (width : ℕ) (some_use : 0 < conf.usage_limit) (le : width ≤ 64) where
  poll-Both :
      (m : BmtMethod) (s0 s1 : Support)
      → has_queues m ≡ true
      → BitwiseInStep s0 s1
      → Both (XorTriple 64) (poll_bitwise_bmt m conf width s0) (poll_bitwise_bmt m conf width s1)
  unfolding poll_bitwise_bmt
  poll-Both m s0 s1 e h =
      rw e (first-Both _ _ (poll_bitwise_bmts-InStep conf 1 width s0 s1 some_use le h))

  again-Both :
      (m : BmtMethod) (o0 o1 : Option (Bmt × Support))
      → has_queues m ≡ true
      → Both (XorTriple 64) o0 o1
      → Both
          (XorTriple 64)
          (Option.bind o0 (λ p. poll_bitwise_bmt m conf width p.1))
          (Option.bind o1 (λ p. poll_bitwise_bmt m conf width p.1))
  unfolding Option.bind
  again-Both m (some (b0, s0)) (some (b1, s1)) e h = poll-Both m s0 s1 e h.1
  again-Both m none _ e h = absurd h
  again-Both m (some _) none e h = absurd h

  poll-none :
      (m : BmtMethod) (s : Support)
      → has_queues m ≡ false
      → s.bitwise_bmts.current ≡ none
      → poll_bitwise_bmt m conf width s ≡ none
  unfolding poll_bitwise_bmt used_up
  poll-none m s e h = rw (e, h)

  pub given_bmt-Outcome :
      (env0 env1 : Env) (m0 m1 : BmtMethod) (g0 g1 : Option Bmt) (s0 s1 : Support)
      → Source m0 m1 g0 g1 s0 s1
      → BitwiseInStep s0 s1
      → Outcome m0 g0
          (SuppliedBy 1 env0 env1 m0 m1)
          (given_bmt conf m0 width g0 s0)
          (given_bmt conf m1 width g1 s1)
  unfolding given_bmt has_queues
  given_bmt-Outcome env0 env1 m0 m1 (some b0) (some b1) s0 s1 t h = (t, h)
  given_bmt-Outcome env0 env1 background background none none s0 s1 t h =
      Both-map (XorTriple 64) (SuppliedBy 1 env0 env1 background background) some some
        (λ b0 b1 r. XorTriple-down (omega arith) r) _ _
        (again-Both background _ _ refl (poll-Both background s0 s1 refl h))
  given_bmt-Outcome env0 env1 pipeline pipeline none none s0 s1 t h =
      Both-map (XorTriple 64) (SuppliedBy 1 env0 env1 pipeline pipeline) (λ b. none) (λ b. none)
        (λ b0 b1 r. tt) _ _ (poll-Both pipeline s0 s1 refl h)
  given_bmt-Outcome env0 env1 jit jit none none s0 s1 t h =
      rw (poll-none jit s0 refl t.0, poll-none jit s1 refl t.1) tt
  given_bmt-Outcome env0 env1 fixed fixed none none s0 s1 t h =
      rw (poll-none fixed s0 refl t.0, poll-none fixed s1 refl t.1) tt
  given_bmt-Outcome env0 env1 m0 m1 _ _ s0 s1 t h = absurd t
