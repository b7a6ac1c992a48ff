-- ===== src/IntermediateDataSupport/Both.antt =====
-- Both servers' results, each with what is left of its supplies.
use mathlib.Core.Option
use mpc_package.Base.{Option, none, some}
use mpc_package.Bmt.Triples.{XorTriple}
use mpc_package.IntermediateDataSupport.{Support}
use mpc_package.IntermediateDataSupport.Lockstep.{InStep}

-- The supplies of Boolean triples are in step.
abbrev pub BitwiseInStep : Support → Support → Type 0
BitwiseInStep s0 s1 = InStep (XorTriple 64) (XorTriple 64) s0.bitwise_bmts s1.bitwise_bmts

-- Both servers have a result, these are related, and the supplies are in step.
abbrev pub Both :
    {A : Type 0} → (A → A → Type 0) → Option (A × Support) → Option (A × Support) → Type 0
Both Q (some (a, s)) (some (b, t)) = Q a b × BitwiseInStep s t
Both Q _ _ = ⊥

module _ {A B : Type 0} (P : A → A → Type 0) (Q : B → B → Type 0) (f g : A → B)
    (next : (a b : A) → P a b → Q (f a) (g b)) where
  pub Both-map :
      (o0 o1 : Option (A × Support))
      → Both P o0 o1
      → Both Q (Option.map (λ p. (f p.0, p.1)) o0) (Option.map (λ p. (g p.0, p.1)) o1)
  Both-map (some (a, s)) (some (b, t)) h = (next a b h.0, h.1)
  Both-map none _ h = absurd h
  Both-map (some _) none h = absurd h
