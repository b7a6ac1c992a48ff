-- ===== src/Prog/Runs.antt =====
-- Total correctness of two programs that run against one another, and its rules.
use mpc_package.Base.{ℕ, List, Option, none, some, ◌≡◌, refl, sym}
use mathlib.Core.Path.{subst, subst⁻¹}
use mpc_package.Prog.{Prog, ret, draw, exchange, send, receive, ot_send, ot_receive, throw, ◌>>=◌}
use mpc_package.Prog.{Tape, rest, run, ot_results, OtMode}

abbrev pub Ends : {A B : Type 0} → Option (A × B) → (A → B → Type 0) → Type 0
Ends none Q = ⊥
Ends (some (a, b)) Q = Q a b

-- Whatever the servers draw, both return, and their results are related by `Q`.
pub record Runs {A B : Type 0} (p : Prog A) (q : Prog B) (Q : A → B → Type 0) : Type 0 where
  pub at : (t u : Tape) → Ends (run t u p q) Q

run-throw :
    {A B : Type 0} (t u : Tape) (q : Prog B) → ◌≡◌ {A = Option (A × B)} (run t u throw q) none
unfolding run
run-throw t u (draw l) = refl
run-throw t u _ = refl

run-draw :
    {A B : Type 0} (t u : Tape) (p : Prog A) (l : ℕ → Prog B)
    → run t u p (draw l) ≡ run t (rest u) p (l (u 0))
unfolding run
run-draw t u (draw k) l = run-draw (rest t) u (k (t 0)) l
run-draw t u (ret a) l = refl
run-draw t u (exchange s k) l = refl
run-draw t u (send s k) l = refl
run-draw t u (receive k) l = refl
run-draw t u (ot_send o x y k) l = refl
run-draw t u (ot_receive o c k) l = refl
run-draw t u throw l = sym (run-throw t (rest u) (l (u 0)))

module _ {A B C D : Type 0} (f : A → Prog C) (g : B → Prog D) (Q : C → D → Type 0)
    (P : A → B → Type 0)
    (next : (a : A) (b : B) → P a b → (t u : Tape) → Ends (run t u (f a) (g b)) Q) where
  run-bind :
      (t u : Tape) (p : Prog A) (q : Prog B)
      → Ends (run t u p q) P
      → Ends (run t u (p >>= f) (q >>= g)) Q
  unfolding run
  run-bind t u (draw k) q h = run-bind (rest t) u (k (t 0)) q h
  run-bind t u (ret a) (draw l) h =
      subst⁻¹ (λ o. Ends o Q) (run-draw t u ((ret a) >>= f) (λ r. l r >>= g))
        (run-bind t (rest u) (ret a) (l (u 0)) (subst (λ o. Ends o P) (run-draw t u (ret a) l) h))
  run-bind t u (exchange s k) (draw l) h =
      subst⁻¹ (λ o. Ends o Q) (run-draw t u ((exchange s k) >>= f) (λ r. l r >>= g))
        (run-bind t (rest u) (exchange s k) (l (u 0))
          (subst (λ o. Ends o P) (run-draw t u (exchange s k) l) h))
  run-bind t u (send s k) (draw l) h =
      subst⁻¹ (λ o. Ends o Q) (run-draw t u ((send s k) >>= f) (λ r. l r >>= g))
        (run-bind t (rest u) (send s k) (l (u 0))
          (subst (λ o. Ends o P) (run-draw t u (send s k) l) h))
  run-bind t u (receive k) (draw l) h =
      subst⁻¹ (λ o. Ends o Q) (run-draw t u ((receive k) >>= f) (λ r. l r >>= g))
        (run-bind t (rest u) (receive k) (l (u 0))
          (subst (λ o. Ends o P) (run-draw t u (receive k) l) h))
  run-bind t u (ot_send o x y k) (draw l) h =
      subst⁻¹ (λ o. Ends o Q) (run-draw t u ((ot_send o x y k) >>= f) (λ r. l r >>= g))
        (run-bind t (rest u) (ot_send o x y k) (l (u 0))
          (subst (λ o. Ends o P) (run-draw t u (ot_send o x y k) l) h))
  run-bind t u (ot_receive o c k) (draw l) h =
      subst⁻¹ (λ o. Ends o Q) (run-draw t u ((ot_receive o c k) >>= f) (λ r. l r >>= g))
        (run-bind t (rest u) (ot_receive o c k) (l (u 0))
          (subst (λ o. Ends o P) (run-draw t u (ot_receive o c k) l) h))
  run-bind t u throw (draw l) h =
      subst⁻¹ (λ o. Ends o Q) (run-draw t u (throw >>= f) (λ r. l r >>= g))
        (run-bind t (rest u) throw (l (u 0)) (subst (λ o. Ends o P) (run-draw t u throw l) h))
  run-bind t u (ret a) (ret b) h = next a b h t u
  run-bind t u (ret a) (exchange r l) h = absurd h
  run-bind t u (ret a) (send r l) h = absurd h
  run-bind t u (ret a) (receive l) h = absurd h
  run-bind t u (ret a) (ot_send o' x' y' l) h = absurd h
  run-bind t u (ret a) (ot_receive o' c' l) h = absurd h
  run-bind t u (ret a) throw h = absurd h
  run-bind t u (exchange s k) (ret b) h = absurd h
  run-bind t u (exchange s k) (exchange r l) h = run-bind t u (k r) (l s) h
  run-bind t u (exchange s k) (send r l) h = absurd h
  run-bind t u (exchange s k) (receive l) h = absurd h
  run-bind t u (exchange s k) (ot_send o' x' y' l) h = absurd h
  run-bind t u (exchange s k) (ot_receive o' c' l) h = absurd h
  run-bind t u (exchange s k) throw h = absurd h
  run-bind t u (send s k) (ret b) h = absurd h
  run-bind t u (send s k) (exchange r l) h = absurd h
  run-bind t u (send s k) (send r l) h = absurd h
  run-bind t u (send s k) (receive l) h = run-bind t u k (l s) h
  run-bind t u (send s k) (ot_send o' x' y' l) h = absurd h
  run-bind t u (send s k) (ot_receive o' c' l) h = absurd h
  run-bind t u (send s k) throw h = absurd h
  run-bind t u (receive k) (ret b) h = absurd h
  run-bind t u (receive k) (exchange r l) h = absurd h
  run-bind t u (receive k) (send r l) h = run-bind t u (k r) l h
  run-bind t u (receive k) (receive l) h = absurd h
  run-bind t u (receive k) (ot_send o' x' y' l) h = absurd h
  run-bind t u (receive k) (ot_receive o' c' l) h = absurd h
  run-bind t u (receive k) throw h = absurd h
  run-bind t u (ot_send o x y k) (ret b) h = absurd h
  run-bind t u (ot_send o x y k) (exchange r l) h = absurd h
  run-bind t u (ot_send o x y k) (send r l) h = absurd h
  run-bind t u (ot_send o x y k) (receive l) h = absurd h
  run-bind t u (ot_send o x y k) (ot_send o' x' y' l) h = absurd h
  run-bind t u (ot_send o x y k) (ot_receive o' c' l) h = run-bind t u k (l (ot_results o x y c')) h
  run-bind t u (ot_send o x y k) throw h = absurd h
  run-bind t u (ot_receive o c k) (ret b) h = absurd h
  run-bind t u (ot_receive o c k) (exchange r l) h = absurd h
  run-bind t u (ot_receive o c k) (send r l) h = absurd h
  run-bind t u (ot_receive o c k) (receive l) h = absurd h
  run-bind t u (ot_receive o c k) (ot_send o' x' y' l) h =
      run-bind t u (k (ot_results o' x' y' c)) l h
  run-bind t u (ot_receive o c k) (ot_receive o' c' l) h = absurd h
  run-bind t u (ot_receive o c k) throw h = absurd h
  run-bind t u throw (ret b) h = absurd h
  run-bind t u throw (exchange r l) h = absurd h
  run-bind t u throw (send r l) h = absurd h
  run-bind t u throw (receive l) h = absurd h
  run-bind t u throw (ot_send o' x' y' l) h = absurd h
  run-bind t u throw (ot_receive o' c' l) h = absurd h
  run-bind t u throw throw h = absurd h

module _ {A B : Type 0} {P : A → B → Type 0} where
  pub Runs-ret : (a : A) (b : B) → P a b → Runs (ret a) (ret b) P
  Runs-ret a b h = record { at = λ t u. unfold run in h }

  pub Runs-draw : {p : ℕ → Prog A} {q : Prog B} → ((r : ℕ) → Runs (p r) q P) → Runs (draw p) q P
  Runs-draw h = record { at = λ t u. unfold run in (h (t 0)).at (rest t) u }

  pub Runs-draw_right :
      {p : Prog A} {q : ℕ → Prog B} → ((r : ℕ) → Runs p (q r) P) → Runs p (draw q) P
  Runs-draw_right {p} {q} h = record {
    at = λ t u. subst⁻¹ (λ o. Ends o P) (run-draw t u p q) ((h (u 0)).at t (rest u));
  }

  pub Runs-exchange :
      (s r : List ℕ) {k : List ℕ → Prog A} {l : List ℕ → Prog B}
      → Runs (k r) (l s) P
      → Runs (exchange s k) (exchange r l) P
  Runs-exchange s r h = record { at = λ t u. unfold run in h.at t u }

  pub Runs-send :
      (s : List ℕ) {k : Prog A} {l : List ℕ → Prog B}
      → Runs k (l s) P
      → Runs (send s k) (receive l) P
  Runs-send s h = record { at = λ t u. unfold run in h.at t u }

  pub Runs-receive :
      (r : List ℕ) {k : List ℕ → Prog A} {l : Prog B}
      → Runs (k r) l P
      → Runs (receive k) (send r l) P
  Runs-receive r h = record { at = λ t u. unfold run in h.at t u }

  pub Runs-ot_send :
      (o o' : OtMode) (x y c : List ℕ) {k : Prog A} {l : List ℕ → Prog B}
      → Runs k (l (ot_results o x y c)) P
      → Runs (ot_send o x y k) (ot_receive o' c l) P
  Runs-ot_send o o' x y c h = record { at = λ t u. unfold run in h.at t u }

  pub Runs-ot_receive :
      (o o' : OtMode) (x y c : List ℕ) {k : List ℕ → Prog A} {l : Prog B}
      → Runs (k (ot_results o' x y c)) l P
      → Runs (ot_receive o c k) (ot_send o' x y l) P
  Runs-ot_receive o o' x y c h = record { at = λ t u. unfold run in h.at t u }

  pub Runs-weaken :
      {p : Prog A} {q : Prog B} {R : A → B → Type 0}
      → Runs p q P
      → ((a : A) (b : B) → P a b → R a b)
      → Runs p q R
  Runs-weaken {p} {q} {R} h sub = record { at = λ t u. go (run t u p q) (h.at t u) }
    where
      go : (o : Option (A × B)) → Ends o P → Ends o R
      go none e = e
      go (some (a, b)) e = sub a b e

-- Two facts about one pair of runs.
pub Runs-both :
    {A B : Type 0} {P Q : A → B → Type 0} {p : Prog A} {q : Prog B}
    → Runs p q P
    → Runs p q Q
    → Runs p q (λ a b. P a b × Q a b)
Runs-both {A} {B} {P} {Q} {p} {q} h k = record {
  at = λ t u. go (run t u p q) (h.at t u) (k.at t u);
}
  where
    go : (o : Option (A × B)) → Ends o P → Ends o Q → Ends o (λ a b. P a b × Q a b)
    go none e f = e
    go (some (a, b)) e f = (e, f)

-- One operator after another.
pub Runs-bind :
    {A B C D : Type 0} {P : A → B → Type 0} {Q : C → D → Type 0} {p : Prog A} {q : Prog B}
    {f : A → Prog C} {g : B → Prog D}
    → Runs p q P
    → ((a : A) (b : B) → P a b → Runs (f a) (g b) Q)
    → Runs (p >>= f) (q >>= g) Q
Runs-bind {P = P} {Q = Q} {p = p} {q = q} {f = f} {g = g} h next = record {
  at = λ t u. run-bind f g Q P (λ a b e t u. (next a b e).at t u) t u p q (h.at t u);
}
