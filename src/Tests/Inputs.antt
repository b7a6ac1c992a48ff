-- ===== src/Tests/Inputs.antt =====
-- Shares, triples and a configuration to try the operators on.
use mpc_package.Base.{ℕ, ◌≡◌, arith}
use mpc_package.Base.{Bool, ◌&&◌, xor}
use mpc_package.Base.{bit, bit_and, bit_xor, bit-bit_and, bit-bit_xor, bit_and-lt, bit_xor-lt}
use mpc_package.Word.{IsWord, shl, sub}
use mpc_package.Math.{ring, rand_int, rand_int_in}
use mpc_package.Bmt.{Env, jit}
use mpc_package.Bmt.Triples.{XorTriple}
use mpc_package.Shares.{share_bool}
use mpc_package.Shares.Xor.{XorShares, share_bool-XorShares}
use mpc_package.ArithToBoolOperator.{ThreeBmts}
use mpc_package.ArithToBoolOperator.Correct.{AreTriples}

-- A server that generates its triples when it needs them.
abbrev pub jit_env : Env
jit_env = record {
  method = jit;
  fixed_bmt = record { a = 0; b = 0; c = 0 };
  fixed_bitwise_bmt = record { a = 0; b = 0; c = 0 };
  polled_bmt = record { a = 0; b = 0; c = 0 };
  polled_bitwise_bmt = record { a = 0; b = 0; c = 0 };
}

-- Shares of 5, of 12 and of 9 in 8 bits.
pub five_shares : XorShares 8 6 3 5
unfolding share_bool ring rand_int rand_int_in sub shl
five_shares = share_bool-XorShares 5 8 3 (omega arith) (omega arith)

pub twelve_shares : XorShares 8 15 3 12
unfolding share_bool ring rand_int rand_int_in sub shl
twelve_shares = share_bool-XorShares 12 8 3 (omega arith) (omega arith)

-- Any five words make a triple.
pub triple_of :
    (a0 a1 b0 b1 c1 : ℕ)
    → IsWord a0
    → IsWord a1
    → IsWord b0
    → IsWord b1
    → IsWord c1
    → XorTriple 64
        (record { a = a0; b = b0; c = bit_xor (bit_and (bit_xor a0 a1) (bit_xor b0 b1)) c1 })
        (record { a = a1; b = b1; c = c1 })
triple_of a0 a1 b0 b1 c1 ha0 ha1 hb0 hb1 hc1 = record {
  words0 = record {
    a_word = ha0;
    b_word = hb0;
    c_word = bit_xor-lt 64 _ c1 (bit_and-lt 64 _ _ (bit_xor-lt 64 a0 a1 ha0 ha1)) hc1;
  };
  words1 = record { a_word = ha1; b_word = hb1; c_word = hc1 };
  digits = λ i lt.
      rw
        (
          bit-bit_xor i (bit_and (bit_xor a0 a1) (bit_xor b0 b1)) c1,
          bit-bit_and i (bit_xor a0 a1) (bit_xor b0 b1),
          bit-bit_xor i a0 a1,
          bit-bit_xor i b0 b1,
        )
        (twice (xor (bit a0 i) (bit a1 i) && xor (bit b0 i) (bit b1 i)) (bit c1 i));
}
  where
    twice : (p c : Bool) → xor (xor p c) c ≡ p
    twice p c = ground arith

-- (77 ^ 201) & (90 ^ 33) is 0, (77 ^ 201) & (170 ^ 33) is 128.
abbrev pub triples0 : ThreeBmts
triples0 = record {
  b0 = record { a = 77; b = 90; c = bit_xor (bit_and (bit_xor 77 201) (bit_xor 90 33)) 7 };
  b1 = record { a = 77; b = 170; c = bit_xor (bit_and (bit_xor 77 201) (bit_xor 170 33)) 9 };
  b2 = record { a = 1; b = 3; c = bit_xor (bit_and (bit_xor 1 254) (bit_xor 3 252)) 100 };
}

abbrev pub triples1 : ThreeBmts
triples1 = record {
  b0 = record { a = 201; b = 33; c = 7 };
  b1 = record { a = 201; b = 33; c = 9 };
  b2 = record { a = 254; b = 252; c = 100 };
}

pub are_triples : AreTriples 64 triples0 triples1
are_triples = record {
  triple0 =
      triple_of 77 201 90 33 7 (omega arith) (omega arith) (omega arith) (omega arith)
        (omega arith);
  triple1 =
      triple_of 77 201 170 33 9 (omega arith) (omega arith) (omega arith) (omega arith)
        (omega arith);
  triple2 =
      triple_of 1 254 3 252 100 (omega arith) (omega arith) (omega arith) (omega arith)
        (omega arith);
}
