-- ===== src/Tests/Supply.antt =====
-- The triples that are polled from the queues.
use mpc_package.Base.{ℕ, ◌≡◌, refl, arith, some, [], ◌∷◌, replicate, ◌-◌}
use mpc_package.Bmt.{Bmt, Env, background}
use mpc_package.Bmt.Triples.{XorTriple, SumTriple}
use mpc_package.IntermediateDataSupport.{Limits, Support, initial, poll_bmts}
use mpc_package.IntermediateDataSupport.{poll_for}
use mpc_package.IntermediateDataSupport.Served.{Serving, handed}
use mpc_package.IntermediateDataSupport.Usage.{poll_bmts-handed, initial-Serving}
use mpc_package.IntermediateDataSupport.Lockstep.{InStep}
use mpc_package.IntermediateDataSupport.Polled.{poll_bmts-InStep}
use mpc_package.IntermediateDataSupport.Polled.{poll_bmts-stale, BothGot, using}
use mpc_package.IntermediateDataSupport.Operators.{poll_for-AndPolled, AndPolled}
use mpc_package.Tests.Inputs.{triples0, triples1, are_triples, jit_env}
use mpc_package.Tests.Batches.{two_shares}

-- Two queues, and three uses of a triple.
abbrev pub limits : Limits
limits = record { queue_num = 2; usage_limit = 3 }

-- Shares of 4, of 6 and of their product.
abbrev sums0 : Bmt
sums0 = record { a = 1; b = 2; c = 20 }

abbrev sums1 : Bmt
sums1 = record { a = 3; b = 4; c = 4 }

abbrev pub support0 : Support
support0 = record {
  bmts = initial limits (λ i n. sums0);
  bitwise_bmts = initial limits (λ i n. triples0.b0);
}

abbrev pub support1 : Support
support1 = record {
  bmts = initial limits (λ i n. sums1);
  bitwise_bmts = initial limits (λ i n. triples1.b0);
}

abbrev pub background_env : Env
background_env = record jit_env { method = background }

sums-InStep : InStep (SumTriple 64) (SumTriple 8) support0.bmts support1.bmts
unfolding initial
sums-InStep = record {
  queued = λ i n. record {
    words0 = record { a_word = omega arith; b_word = omega arith; c_word = omega arith };
    words1 = record { a_word = omega arith; b_word = omega arith; c_word = omega arith };
    product = record { same = refl };
  };
  same_q = refl;
  same_left = refl;
  same_current = tt;
}

pub bits-InStep : InStep (XorTriple 64) (XorTriple 64) support0.bitwise_bmts support1.bitwise_bmts
unfolding initial
bits-InStep = record {
  queued = λ i n. are_triples.triple0;
  same_q = refl;
  same_left = refl;
  same_current = tt;
}

poll_bmts-handed_example :
    (s' : Support) × (j' : ℕ) × (poll_bmts limits 7 8 support0
      ≡ some (handed limits (λ i n. sums0) 8 0 7, s'))
    × Serving limits (λ i n. sums0) 8 7 j' s'.bmts
poll_bmts-handed_example =
    poll_bmts-handed (omega arith) 7 0 0 support0 (initial-Serving limits (λ i n. sums0) 8)

poll_bmts-InStep_example :
    BothGot
      (λ s. s.bmts)
      (SumTriple 64)
      (SumTriple 8)
      5
      (poll_bmts limits 5 8 support0)
      (poll_bmts limits 5 8 support1)
poll_bmts-InStep_example =
    poll_bmts-InStep limits 5 8 support0 support1 (omega arith) (omega arith) sums-InStep

poll_bmts-stale_example :
    poll_bmts limits 2 64 (record support0 { bmts = using (λ i n. sums0) 1 sums1 3 })
    ≡ some (replicate 2 sums1, record support0 { bmts = using (λ i n. sums0) 1 sums1 (3 - 2) })
poll_bmts-stale_example =
    poll_bmts-stale limits 2 64 1 3 (λ i n. sums0) sums1 support0 (omega arith) (omega arith)

poll_for-AndPolled_example :
    AndPolled background_env background_env 8 2
      (6 ∷ 15 ∷ [])
      (3 ∷ 3 ∷ [])
      (6 ∷ 15 ∷ [])
      (3 ∷ 3 ∷ [])
      (5 ∷ 12 ∷ [])
      (5 ∷ 12 ∷ [])
      (poll_for limits 2 8 support0)
      (poll_for limits 2 8 support1)
poll_for-AndPolled_example =
    poll_for-AndPolled limits background_env background_env 8 2 support0 support1 (omega arith)
      (omega arith) (omega arith) (omega arith) refl refl refl bits-InStep two_shares two_shares
