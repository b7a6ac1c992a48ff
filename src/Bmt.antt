-- ===== src/Bmt.antt =====
-- Beaver multiplication triples (primitives/include/intermediate/item) and where an operator takes
-- them from (primitives/src/intermediate/IntermediateDataSupport.cpp, runtime/config/include/conf/Conf.h).
pub mod Triples
use mpc_package.Base.{ℕ, to_int}
use mpc_package.Math.{get_bit}

-- `Bmt` and `BitwiseBmt`: a server's share of a triple.
pub record Bmt : Type 0 where
  pub a : ℕ
  pub b : ℕ
  pub c : ℕ

-- `BitwiseBmt::extract(i)`
unfoldable pub extract : Bmt → ℕ → Bmt
extract bmt i = record {
  a = to_int (get_bit bmt.a i);
  b = to_int (get_bit bmt.b i);
  c = to_int (get_bit bmt.c i);
}

-- `Conf::BmtT`
pub data BmtMethod : Type 0 where
  background jit fixed pipeline : BmtMethod

-- `Conf::BMT_METHOD`, the fixed triples, and what the queues of a server hand out next.
pub record Env : Type 0 where
  pub method : BmtMethod
  pub fixed_bmt : Bmt
  pub fixed_bitwise_bmt : Bmt
  pub polled_bmt : Bmt
  pub polled_bitwise_bmt : Bmt
