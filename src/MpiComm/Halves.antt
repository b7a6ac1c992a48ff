-- ===== src/MpiComm/Halves.antt =====
-- What arrives of an array of `int` that is sent as half as many 16-bit values as it holds.
use native.Mathlib.Nat.{mod-eq_of_lt, pow-le-pow_right, one-le-pow}
use mpc_package.Base.{ℕ, zero, suc, ◌+◌, ◌-◌, ◌*◌, ◌/◌, ◌%◌, ◌^◌, ◌≤◌, ◌<◌, ◌≡◌, refl, ap, ap₂, ◌∙◌}
use mpc_package.Base.{arith, List, [], ◌∷◌, ◌++◌, map, length, take, replicate}
use mpc_package.MpiComm.{narrow, extend, halves, join_halves}
use mpc_package.MpiComm.Extend.{FitAll}

pub FitAll-take : (width n : ℕ) (vs : List ℕ) → FitAll width vs → FitAll width (take n vs)
FitAll-take width zero vs h = tt
FitAll-take width (suc n) [] h = tt
FitAll-take width (suc n) (v ∷ vs) h = (h.0, FitAll-take width n vs h.1)

length-take : (n : ℕ) (vs : List ℕ) → n ≤ length vs → length (take n vs) ≡ n
length-take zero vs h = refl
length-take (suc n) [] h = absurd (omega arith)
length-take (suc n) (v ∷ vs) h = ap suc (length-take n vs (omega arith))

map-narrow : (vs : List ℕ) → FitAll 16 vs → map (narrow 32) vs ≡ vs
unfolding narrow
map-narrow [] h = refl
map-narrow (v ∷ vs) h = ap₂ ◌∷◌ (small v h.0) (map-narrow vs h.1)
  where
    small : (v : ℕ) → v < 2 ^ 16 → v % 2 ^ 32 ≡ v
    small v h = omega arith

map-extend : (vs : List ℕ) → FitAll 16 vs → map (extend 32) vs ≡ vs
unfolding extend
map-extend [] h = refl
map-extend (v ∷ vs) h = ap₂ ◌∷◌ (small v h.0) (map-extend vs h.1)
  where
    small : (v : ℕ) → v < 2 ^ 16 → extend 32 v ≡ v
    small v h = ground arith

map-extend_zeros : (n : ℕ) → map (extend 32) (replicate n 0) ≡ replicate n 0
unfolding extend
map-extend_zeros zero = refl
map-extend_zeros (suc n) = ap (λ t. 0 ∷ t) (map-extend_zeros n)

join_halves-take :
    (n : ℕ) (vs : List ℕ)
    → n ≤ 2 * length vs
    → FitAll 16 vs
    → join_halves (take n (halves vs)) ≡ take ((n + 1) / 2) vs
unfolding halves join_halves
join_halves-take zero vs le h = refl
join_halves-take (suc n) [] le h = absurd (omega arith)
join_halves-take (suc zero) (v ∷ vs) le h = ap (λ t. t ∷ []) (mod-eq_of_lt h.0)
join_halves-take (suc (suc n)) (v ∷ vs) le h =
    ap₂ ◌∷◌ (whole v) (join_halves-take n vs (omega arith) h.1) ∙ ap (λ t. take t (v ∷ vs)) (half n)
  where
    whole : (v : ℕ) → v % 2 ^ 16 + 2 ^ 16 * (v / 2 ^ 16) ≡ v
    whole v = omega arith

    half : (n : ℕ) → suc ((n + 1) / 2) ≡ (suc (suc n) + 1) / 2
    half n = omega arith

-- The first half of the values, and zeros for the others.
abbrev pub first_half : List ℕ → List ℕ
first_half vs = take ((length vs + 1) / 2) vs ++ replicate (length vs - (length vs + 1) / 2) 0

map-append_lem : (f : ℕ → ℕ) (xs ys : List ℕ) → map f (xs ++ ys) ≡ map f xs ++ map f ys
map-append_lem f [] ys = refl
map-append_lem f (x ∷ xs) ys = ap (λ t. f x ∷ t) (map-append_lem f xs ys)

length-join :
    (vs : List ℕ)
    → FitAll 16 vs
    → length (join_halves (take (length vs) (halves vs))) ≡ (length vs + 1) / 2
length-join vs h =
    ap length (join_halves-take (length vs) vs (omega arith) h)
    ∙ length-take ((length vs + 1) / 2) vs (omega arith)

length-halves : (vs : List ℕ) → length (halves vs) ≡ 2 * length vs
unfolding halves
length-halves [] = refl
length-halves (v ∷ vs) = omega (arith, length-halves vs)

pub receive-half :
    (vs : List ℕ)
    → FitAll 16 vs
    → (let wire = take (length vs) (halves (map (narrow 32) vs)) in
        let ints = join_halves wire in
        map (extend 32) (ints ++ replicate (length wire - length ints) 0))
      ≡ first_half vs
receive-half vs h =
    rw (map-narrow vs h, length-join vs h, sent, join_halves-take (length vs) vs (omega arith) h)
      (map-append_lem (extend 32) (take ((length vs + 1) / 2) vs) _
        ∙ ap₂ ◌++◌ (map-extend _ (FitAll-take 16 ((length vs + 1) / 2) vs h)) (map-extend_zeros _))
  where
    sent : length (take (length vs) (halves vs)) ≡ length vs
    sent = length-take (length vs) (halves vs) (omega (arith, length-halves vs))

pub FitAll-up : (w : ℕ) (vs : List ℕ) → w ≤ 16 → FitAll w vs → FitAll 16 vs
FitAll-up w [] le h = tt
FitAll-up w (v ∷ vs) le h =
    (more v (2 ^ w) h.0 (pow-le-pow_right (omega arith) le), FitAll-up w vs le h.1)
  where
    more : (v p : ℕ) → v < p → p ≤ 2 ^ 16 → v < 2 ^ 16
    more v p a b = omega arith

-- Cutting to the width changes none of the values.
pub FitAll-first_half : (w : ℕ) (vs : List ℕ) → FitAll w vs → FitAll w (first_half vs)
FitAll-first_half w vs h = both (take ((length vs + 1) / 2) vs) (FitAll-take w _ vs h)
  where
    zeros : (n : ℕ) → FitAll w (replicate n 0)
    zeros zero = tt
    zeros (suc n) = (one-le-pow w 2 (omega arith), zeros n)

    both :
        (us : List ℕ) → FitAll w us → FitAll w (us ++ replicate (length vs - (length vs + 1) / 2) 0)
    both [] k = zeros (length vs - (length vs + 1) / 2)
    both (u ∷ us) k = (k.0, both us k.1)
