-- ===== src/Prog.antt =====
-- The two servers as a pair of programs that run the same code under different ranks: what a
-- server computes, the random numbers it draws and the messages it waits for
-- (runtime/comm/src/comm/Comm.cpp, without transfer compression).
pub mod Runs
pub mod Assoc
use mpc_package.Base.{ℕ, zero, suc, ◌+◌, List, [], ◌∷◌, Option, none, some, Bool, bit_and, bit_or}
use mpc_package.Base.{if◌then◌else◌, ◌==◌}
use mpc_package.Word.{inv}
use mpc_package.Math.{ring}

-- How an oblivious transfer hands over: a message for each choice, cut to a width, or 64 packed
-- bits for each word of choices.
pub data OtMode : Type 0 where
  words : ℕ → OtMode
  packed : OtMode

-- `draw` takes a random number. `exchange` is `serverSend` and then `serverReceive`; `send` and
-- `receive` are one of them alone. `ot_send` and `ot_receive` are `IknpOtBatchOperator` as its
-- sender and as its receiver. `throw` is an exception.
pub data Prog (A : Type 0) : Type 0 where
  ret : A → Prog A
  draw : (ℕ → Prog A) → Prog A
  exchange : List ℕ → (List ℕ → Prog A) → Prog A
  send : List ℕ → Prog A → Prog A
  receive : (List ℕ → Prog A) → Prog A
  ot_send : OtMode → List ℕ → List ℕ → Prog A → Prog A
  ot_receive : OtMode → List ℕ → (List ℕ → Prog A) → Prog A
  throw : Prog A

infixl 5 ◌>>=◌ ◌>>◌
abbrev pub ◌>>=◌ : {A B : Type 0} → Prog A → (A → Prog B) → Prog B
ret a >>= f = f a
draw k >>= f = draw (λ r. k r >>= f)
exchange s k >>= f = exchange s (λ m. k m >>= f)
send s k >>= f = send s (k >>= f)
receive k >>= f = receive (λ m. k m >>= f)
ot_send o x y k >>= f = ot_send o x y (k >>= f)
ot_receive o c k >>= f = ot_receive o c (λ m. k m >>= f)
throw >>= f = throw

abbrev pub ◌>>◌ : {A B : Type 0} → Prog A → Prog B → Prog B
p >> q = p >>= λ _. q

-- What the receiver of an oblivious transfer gets for one choice.
unfoldable pub ot_pick : OtMode → ℕ → ℕ → ℕ → ℕ
ot_pick (words width) m0 m1 choice = ring (if choice == 0 then m0 else m1) width
ot_pick packed m0 m1 choice = bit_or (bit_and m0 (inv choice)) (bit_and m1 choice)

unfoldable pub ot_results : OtMode → List ℕ → List ℕ → List ℕ → List ℕ
ot_results mode (x ∷ xs) (y ∷ ys) (c ∷ cs) = ot_pick mode x y c ∷ ot_results mode xs ys cs
ot_results mode _ _ _ = []

-- A server's source of random numbers.
abbrev pub Tape : Type 0
Tape = ℕ → ℕ

abbrev pub rest : Tape → Tape
rest t n = t (suc n)

-- Both servers to their ends: `none` if one throws or waits for a message that never comes.
unfoldable pub run : {A B : Type 0} → Tape → Tape → Prog A → Prog B → Option (A × B)
run t u (draw k) q = run (rest t) u (k (t 0)) q
run t u (ret a) (draw l) = run t (rest u) (ret a) (l (u 0))
run t u (exchange s k) (draw l) = run t (rest u) (exchange s k) (l (u 0))
run t u (send s k) (draw l) = run t (rest u) (send s k) (l (u 0))
run t u (receive k) (draw l) = run t (rest u) (receive k) (l (u 0))
run t u (ot_send o x y k) (draw l) = run t (rest u) (ot_send o x y k) (l (u 0))
run t u (ot_receive o c k) (draw l) = run t (rest u) (ot_receive o c k) (l (u 0))
run t u (ret a) (ret b) = some (a, b)
run t u (exchange s k) (exchange r l) = run t u (k r) (l s)
run t u (send s k) (receive l) = run t u k (l s)
run t u (receive k) (send r l) = run t u (k r) l
run t u (ot_send o x y k) (ot_receive o' c l) = run t u k (l (ot_results o x y c))
run t u (ot_receive o c k) (ot_send o' x y l) = run t u (k (ot_results o' x y c)) l
run t u _ _ = none
