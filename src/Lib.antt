-- ===== src/Lib.antt =====
-- Secure two-party computation on secret shares (primitives/ and runtime/) and the catalogue of the
-- database on top of it (db/), verified.
--
-- Two servers hold shares of the data and run the same code under the ranks 0 and 1. A client
-- shares its inputs out and reconstructs results. An operator (primitives/src/compute) takes a
-- server's shares, exchanges masked values with the other server and leaves a share of the result;
-- it spends Beaver triples, which the generators (primitives/src/intermediate) make from oblivious
-- transfers (primitives/src/ot), when they are needed or ahead of time.
--
-- Words: `int64_t` is the number below 2 ^ 64 with its bit pattern (Word), and every operation wraps
-- around. Math has the helpers of runtime/utils/src/utils/Math.cpp that the operators use. A random
-- number is whatever the source of numbers gives, and every theorem holds for all of them.
--
-- Servers: Prog is what one server does: the numbers it draws, the messages it exchanges, the
-- transfers it takes part in, and an exception. `run` plays two of them against each other. `Runs p q
-- Q` says that both come to their ends, on all random numbers, and that `Q` relates their results:
-- nothing waits for a message that never comes, and nothing throws. The transfers are ideal: they
-- stand for IknpOtBatchOperator, whose own cryptography is not modelled. Messages arrive as they were
-- sent: Conf::ENABLE_TRANSFER_COMPRESSION is off, as by default. What it changes is modelled apart, in
-- MpiComm: what a receiver makes of the elements of a message that the MPI library hands over.
--
-- Shares (Shares): XorShares says that two words are Boolean shares of a value in the low `width`
-- digits, SumShares that they are arithmetic shares modulo 2 ^ width. The records XorTriple and
-- SumTriple (Bmt.Triples) say what makes a triple.
--
-- Which file models what, with the functions of the same names:
--   Shares                       single/bool/BoolOperator.cpp, single/arith/ArithOperator.cpp and
--                                the batch operators beside them: constructors and reconstruct
--   Bmt                          intermediate/item/Bmt.h and BitwiseBmt.h, Conf::BmtT
--   BitwiseBmtGenerator          intermediate/BitwiseBmtGenerator.cpp
--   BmtGenerator                 intermediate/BmtGenerator.cpp
--   BmtBatchGenerator            intermediate/BmtBatchGenerator.cpp
--   BitwiseBmtBatchGenerator     intermediate/BitwiseBmtBatchGenerator.cpp
--   RandOt                       ot/RandOtOperator.cpp and ot/RandOtBatchOperator.cpp
--   BoolAndOperator              compute/single/bool/BoolAndOperator.cpp
--   BoolEqualOperator            compute/single/bool/BoolEqualOperator.cpp
--   BoolLessOperator             compute/single/bool/BoolLessOperator.cpp and its header
--   BoolToArithOperator          compute/single/bool/BoolToArithOperator.cpp
--   BoolMutexOperator            compute/single/bool/BoolMutexOperator.cpp
--   ArithMultiplyOperator        compute/single/arith/ArithMultiplyOperator.cpp
--   ArithMutexOperator           compute/single/arith/ArithMutexOperator.cpp
--   ArithToBoolOperator          compute/single/arith/ArithToBoolOperator.cpp
--   ArithLessOperator            compute/single/arith/ArithLessOperator.cpp
--   Linear                       the operators for sums and exclusive or, single and batch
--   BoolAndBatchOperator         compute/batch/bool/BoolAndBatchOperator.cpp
--   BoolMutexBatchOperator       compute/batch/bool/BoolMutexBatchOperator.cpp
--   ArithMultiplyBatchOperator   compute/batch/arith/ArithMultiplyBatchOperator.cpp
--   BoolToArithBatchOperator     compute/batch/bool/BoolToArithBatchOperator.cpp
--   ArithMutexBatchOperator      compute/batch/arith/ArithMutexBatchOperator.cpp
--   MpiComm                      runtime/comm/src/comm/MpiComm.cpp, item/MpiRequestWrapper.cpp
--   IntermediateDataSupport      intermediate/IntermediateDataSupport.cpp: the polls, prepareRot
--   Table, Database              db/src/basis/Table.cpp and Database.cpp
--   SystemManager                db/src/dbms/SystemManager.cpp, db/src/operator/CreateSupport.cpp and
--                                DropSupport.cpp
--   InsertSupport                db/src/operator/InsertSupport.cpp
--
-- Queues: IntermediateDataSupport hands out each triple of its queues several times. A queue is the
-- sequence of what its thread offers; `InStep` is the invariant of two servers that poll alike. The
-- operators BoolEqualOperator and ArithMutexOperator are modelled together with their polls, since
-- they poll where another operator would not: the one in every method, also where there are no
-- queues (`none`), the other Boolean triples for arithmetic products.
--
-- Database: the client and each server have a Manager. The client's statement changes its own and
-- sends a message, which a server carries out; `Mirrors` says that a server has the client's databases
-- and schemas. What the SQL parser makes of a command is data: a Statement or an InsertStatement. A row
-- is shared out with the Boolean batch operator and stands in both servers' tables.
--
-- Configuration: Env holds Conf::BMT_METHOD, the fixed triples and what the queues hand out next. A
-- theorem on an operator assumes that both servers take their triples from the same place and that
-- what is given, stored or queued there are triples; the triples that the operator has generated on
-- the spot are proved to be. Both rounds of a generator, and both products of ArithMutexOperator or
-- of its batch, run one after another, as they do by default.
--
-- Bounds: widths go up to 64. The loop of `Math::pow` has fuel for 64 rounds, which is enough since
-- a positive exponent is below 2 ^ 63. The loop of a poll for `count` triples has fuel for `count +
-- 1` rounds, enough since each hands one out, that of shiftGreater for `width` rounds, each a step
-- of at least one digit. All other loops are structural. A shift by 64 or more, which
-- BitwiseBmt::extract makes and C++ leaves undefined, is that of the x86-64 register: the distance
-- modulo 64.
--
-- Not modelled: the other operators on batches and the sort (primitives/src/secret), the threads that
-- fill the queues, sockets, the vector instructions (the loops are modelled in their scalar form),
-- timing, the cryptography of the base transfers (OpenSSL), and views and SELECT (db/src/basis/View.cpp,
-- Views.cpp, db/src/operator/SelectSupport.cpp).
pub mod Base
pub mod Word
pub mod Math
pub mod Prog
pub mod Shares
pub mod Bmt
pub mod BitwiseBmtGenerator
pub mod BoolAndOperator
pub mod BmtGenerator
pub mod ArithMultiplyOperator
pub mod BoolToArithOperator
pub mod ArithMutexOperator
pub mod ArithToBoolOperator
pub mod ArithLessOperator
pub mod BoolEqualOperator
pub mod Linear
pub mod RandOt
pub mod BitwiseBmtBatchGenerator
pub mod BoolAndBatchOperator
pub mod BmtBatchGenerator
pub mod ArithMultiplyBatchOperator
pub mod BoolMutexBatchOperator
pub mod BoolMutexOperator
pub mod BoolToArithBatchOperator
pub mod ArithMutexBatchOperator
pub mod BoolLessOperator
pub mod MpiComm
pub mod IntermediateDataSupport
pub mod Table
pub mod Database
pub mod SystemManager
pub mod InsertSupport
pub mod Tests
