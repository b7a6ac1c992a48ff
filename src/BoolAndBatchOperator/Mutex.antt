-- ===== src/BoolAndBatchOperator/Mutex.antt =====
-- The variant for choices: both operands of a choice together with its condition.
use native.Mathlib.Nat.{mod-eq_of_lt, add-mod_left}
use native.Mathlib.Decide.{dec_lt}
use mpc_package.Base.{ℕ, zero, suc, ◌+◌, ◌-◌, ◌%◌, ◌≤◌, ◌<◌, ◌≡◌, refl, sym, ap, ap₂, ◌∙◌}
use mpc_package.Base.{arith, Option, List, [], ◌∷◌, ◌++◌, length, length-append, get_or, drop}
use mpc_package.Prog.Runs.{Runs, Runs-bind}
use mpc_package.Bmt.{Bmt, Env, BmtMethod, background, jit, fixed, pipeline}
use mpc_package.BoolAndBatchOperator.{repeat_conds, conds_for, execute_for_mutex}
use mpc_package.BoolAndBatchOperator.Entries.{get-append_left, get-append_right}
use mpc_package.BoolAndBatchOperator.Entry.{BatchShares, AndShares, and_all-Runs}
use mpc_package.BoolAndBatchOperator.Correct.{BatchSupply, prepare_bmts-Runs}

drop_all : (c : List ℕ) → drop (length c) c ≡ []
drop_all [] = refl
drop_all (x ∷ c) = drop_all c

drop-get : (c : List ℕ) (k : ℕ) → k < length c → drop k c ≡ get_or c k 0 ∷ drop (suc k) c
drop-get [] k lt = absurd (omega arith)
drop-get (x ∷ c) zero lt = refl
drop-get (x ∷ c) (suc k) lt = drop-get c k (omega arith)

-- The conditions from a whole number of rounds on.
repeat_conds-drop :
    (c : List ℕ) (m k left : ℕ)
    → ((j : ℕ) → j < length c → (m + j) % length c ≡ j)
    → k + left ≡ length c
    → repeat_conds c (m + k) left ≡ drop k c
unfolding repeat_conds
repeat_conds-drop c m k zero whole e = sym (ap (λ t. drop t c) (end k (length c) e) ∙ drop_all c)
  where
    end : (k n : ℕ) → k + 0 ≡ n → k ≡ n
    end k n e = omega arith
repeat_conds-drop c m k (suc left) whole e =
    ap₂ (λ t ts. get_or c t 0 ∷ ts) (whole k (omega arith))
      (ap (λ t. repeat_conds c t left) (next m k)
        ∙ repeat_conds-drop c m (suc k) left whole (omega arith))
    ∙ sym (drop-get c k (omega arith))
  where
    next : (m k : ℕ) → suc (m + k) ≡ m + suc k
    next m k = omega arith

repeat_conds-append :
    (c : List ℕ) (k l r : ℕ)
    → repeat_conds c k (l + r) ≡ repeat_conds c k l ++ repeat_conds c (k + l) r
unfolding repeat_conds
repeat_conds-append c k zero r = ap₂ (λ s t. repeat_conds c s t) (add_zero k) (zero_add r)
  where
    add_zero : (k : ℕ) → k ≡ k + 0
    add_zero k = omega arith

    zero_add : (r : ℕ) → 0 + r ≡ r
    zero_add r = omega arith
repeat_conds-append c k (suc l) r =
    ap (λ t. repeat_conds c k t) (suc_add l r)
    ∙ ap (λ ts. get_or c (k % length c) 0 ∷ ts)
        (repeat_conds-append c (suc k) l r
          ∙ ap (λ t. repeat_conds c (suc k) l ++ repeat_conds c t r) (shift k l))
  where
    suc_add : (l r : ℕ) → suc l + r ≡ suc (l + r)
    suc_add l r = omega arith

    shift : (k l : ℕ) → suc k + l ≡ k + suc l
    shift k l = omega arith

-- One condition for each choice: both halves get all of them.
conds_for-twice : (m : BmtMethod) (c : List ℕ) (n : ℕ) → length c ≡ n → conds_for m c n ≡ c ++ c
unfolding conds_for
conds_for-twice m c n e = by_method m
  where
    zero_add : (j : ℕ) → 0 + j ≡ j
    zero_add j = omega arith

    swap : (n : ℕ) → 0 + n ≡ n + 0
    swap n = omega arith

    around : (j : ℕ) → j < length c → (n + j) % length c ≡ j
    around j lt = ap (λ t. (t + j) % length c) (sym e) ∙ add-mod_left (length c) j ∙ mod-eq_of_lt lt

    first : repeat_conds c 0 n ≡ c
    first =
        repeat_conds-drop c 0 0 n (λ j lt. ap (λ t. t % length c) (zero_add j) ∙ mod-eq_of_lt lt)
          (zero_add n ∙ sym e)

    second : repeat_conds c (0 + n) n ≡ c
    second =
        ap (λ t. repeat_conds c t n) (swap n)
        ∙ repeat_conds-drop c n 0 n around (zero_add n ∙ sym e)

    both : repeat_conds c 0 (n + n) ≡ c ++ c
    both = repeat_conds-append c 0 n n ∙ ap₂ ◌++◌ first second

    by_method : (m : BmtMethod) → conds_for m c n ≡ c ++ c
    by_method fixed = ap₂ ◌++◌ first first
    by_method background = both
    by_method jit = both
    by_method pipeline = both

pub BatchShares-append :
    {width n : ℕ} {xs0 xs1 xs ys0 ys1 ys : List ℕ}
    → length xs ≡ n
    → BatchShares width n xs0 xs1 xs
    → BatchShares width n ys0 ys1 ys
    → BatchShares width (n + n) (xs0 ++ ys0) (xs1 ++ ys1) (xs ++ ys)
BatchShares-append {width} {n} {xs0} {xs1} {xs} {ys0} {ys1} {ys} e sx sy = record {
  length0 = length-append xs0 ys0 ∙ ap₂ ◌+◌ sx.length0 sy.length0;
  length1 = length-append xs1 ys1 ∙ ap₂ ◌+◌ sx.length1 sy.length1;
  entry = λ i lt. elim (dec_lt i n) [
    | yes p ↦
        rw
          (
            get-append_left xs0 ys0 i (omega (arith, sx.length0)),
            get-append_left xs1 ys1 i (omega (arith, sx.length1)),
            get-append_left xs ys i (omega (arith, e)),
          )
          (sx.entry i p)
    | no p ↦
        rw
          (
            later xs0 ys0 i sx.length0 (omega arith),
            later xs1 ys1 i sx.length1 (omega arith),
            later xs ys i e (omega arith),
          )
          (sy.entry (i - n) (omega arith))
  ];
}
  where
    later :
        (us vs : List ℕ) (i : ℕ)
        → length us ≡ n
        → n ≤ i
        → get_or (us ++ vs) i 0 ≡ get_or vs (i - n) 0
    later us vs i p q =
        ap (λ t. get_or (us ++ vs) t 0) (split i n (length us) p q) ∙ get-append_right us vs (i - n)
      where
        split : (i n l : ℕ) → l ≡ n → n ≤ i → i ≡ l + (i - n)
        split i n l p q = omega arith

-- On two batches of Boolean shares and a mask for each pair of entries, in every width that divides
-- 64, and if both servers take their triples from the same place and what is given or stored there
-- are triples, enough for twice the number of entries, both servers end with shares of the
-- conjunctions of the first batch with the masks, followed by those of the second batch with the
-- same masks.
pub mutex-AndShares :
    {width n : ℕ} (env0 env1 : Env) (p0 p1 : List Bmt) (g0 g1 : Option (List Bmt))
    {xs0 xs1 xs ys0 ys1 ys cs0 cs1 cs : List ℕ}
    → 0 < width
    → width ≤ 64
    → 64 % width ≡ 0
    → length xs ≡ n
    → length cs ≡ n
    → BatchSupply width (n + n) env0 env1 env0.method env1.method p0 p1 g0 g1
    → BatchShares width n xs0 xs1 xs
    → BatchShares width n ys0 ys1 ys
    → BatchShares width n cs0 cs1 cs
    → Runs
        (execute_for_mutex env0 0 width p0 g0 xs0 ys0 cs0)
        (execute_for_mutex env1 1 width p1 g1 xs1 ys1 cs1)
        (AndShares width (n + n) (xs ++ ys) (cs ++ cs))
unfolding execute_for_mutex
mutex-AndShares {width} {n} env0 env1 p0 p1 g0 g1 {xs0} {xs1} {xs} {ys0} {ys1} {ys} {cs0} {cs1} {cs}
      pos le divides e f supply sx sy sc =
    rw
      (
        sx.length0,
        sx.length1,
        conds_for-twice env0.method cs0 n sc.length0,
        conds_for-twice env1.method cs1 n sc.length1,
      )
      (Runs-bind
        (prepare_bmts-Runs pos le divides (n + n) env0 env1 env0.method env1.method p0 p1 g0 g1
          supply)
        λ b0 b1 t. and_all-Runs le _ _ t (BatchShares-append e sx sy) (BatchShares-append f sc sc))
