-- ===== src/MpiComm/Extend.antt =====
-- An integer that is cut to some bits and extended again keeps those bits.
use native.Mathlib.Nat.{mod-eq_of_lt}
use mpc_package.Base.{ℕ, ◌+◌, ◌*◌, ◌%◌, ◌^◌, ◌≤◌, ◌<◌, ◌≡◌, refl, ap, ap₂, ◌∙◌, arith}
use mpc_package.Base.{List, [], ◌∷◌, map}
use mathlib.Core.Path.{subst}
use mpc_package.Word.Cong.{Cong, Cong_down}
use mpc_package.MpiComm.{narrow, extend, to_bool}

-- The values of a message fit its width.
abbrev pub FitAll : ℕ → List ℕ → Type 0
FitAll width [] = Unit {0}
FitAll width (v ∷ vs) = (v < 2 ^ width) × FitAll width vs

extend-Cong8 : (p : ℕ) → p < 2 ^ 8 → extend 8 p % 2 ^ 8 ≡ p
unfolding extend
extend-Cong8 p h = ground arith

extend-Cong16 : (p : ℕ) → p < 2 ^ 16 → extend 16 p % 2 ^ 16 ≡ p
unfolding extend
extend-Cong16 p h = ground arith

extend-Cong32 : (p : ℕ) → p < 2 ^ 32 → extend 32 p % 2 ^ 32 ≡ p
unfolding extend
extend-Cong32 p h = ground arith

module _ {width : ℕ} (v : ℕ) where
  pub extend8-mod : width ≤ 8 → extend 8 (v % 2 ^ 8) % 2 ^ width ≡ v % 2 ^ width
  extend8-mod le =
      let c : Cong width (extend 8 (v % 2 ^ 8)) v =
        Cong_down le (extend-Cong8 (v % 2 ^ 8) (omega arith)) in
      c.same

  pub extend16-mod : width ≤ 16 → extend 16 (v % 2 ^ 16) % 2 ^ width ≡ v % 2 ^ width
  extend16-mod le =
      let c : Cong width (extend 16 (v % 2 ^ 16)) v =
        Cong_down le (extend-Cong16 (v % 2 ^ 16) (omega arith)) in
      c.same

  pub extend32-mod : width ≤ 32 → extend 32 (v % 2 ^ 32) % 2 ^ width ≡ v % 2 ^ width
  extend32-mod le =
      let c : Cong width (extend 32 (v % 2 ^ 32)) v =
        Cong_down le (extend-Cong32 (v % 2 ^ 32) (omega arith)) in
      c.same

  -- The upper half of the array of `int` does not matter.
  pub extend32-garbage :
      (garbage : ℕ)
      → garbage < 2 ^ 16
      → width ≤ 16
      → extend 32 (v % 2 ^ 32 % 2 ^ 16 + 2 ^ 16 * garbage) % 2 ^ width ≡ v % 2 ^ width
  extend32-garbage garbage h le =
      let c : Cong width (extend 32 (v % 2 ^ 32 % 2 ^ 16 + 2 ^ 16 * garbage)) v = Cong_down le (
        low (v % 2 ^ 32 % 2 ^ 16 + 2 ^ 16 * garbage)
          (extend-Cong32 (v % 2 ^ 32 % 2 ^ 16 + 2 ^ 16 * garbage) (omega arith))) in
      c.same
    where
      low :
          (p : ℕ)
          → extend 32 p % 2 ^ 32 ≡ v % 2 ^ 32 % 2 ^ 16 + 2 ^ 16 * garbage
          → extend 32 p % 2 ^ 16 ≡ v % 2 ^ 16
      low p e = omega arith

to_bool_lem : (v : ℕ) → v < 2 → to_bool v ≡ v
unfolding to_bool
to_bool_lem v h = ground arith

pub to_bool-mod : (width v : ℕ) → v < 2 ^ width → width ≡ 1 → to_bool v % 2 ^ width ≡ v
to_bool-mod width v h e =
    ap (λ t. t % 2 ^ width) (to_bool_lem v (subst (λ w. v < 2 ^ w) e h)) ∙ mod-eq_of_lt h

module _ (width : ℕ) where
  map_mod :
      (f : ℕ → ℕ)
      → ((v : ℕ) → f v % 2 ^ width ≡ v % 2 ^ width)
      → (vs : List ℕ) → FitAll width vs
      → map (λ v. v % 2 ^ width) (map f vs) ≡ vs
  map_mod f h [] fit = refl
  map_mod f h (v ∷ vs) fit = ap₂ ◌∷◌ (h v ∙ mod-eq_of_lt fit.0) (map_mod f h vs fit.1)

  pub map-mod_self : (vs : List ℕ) → FitAll width vs → map (λ v. v % 2 ^ width) vs ≡ vs
  map-mod_self [] fit = refl
  map-mod_self (v ∷ vs) fit = ap₂ ◌∷◌ (mod-eq_of_lt fit.0) (map-mod_self vs fit.1)

map-to_bool : (vs : List ℕ) → FitAll 1 vs → map to_bool vs ≡ vs
map-to_bool [] fit = refl
map-to_bool (v ∷ vs) fit = ap₂ ◌∷◌ (to_bool_lem v fit.0) (map-to_bool vs fit.1)

map-map : (f g : ℕ → ℕ) (vs : List ℕ) → map f (map g vs) ≡ map (λ v. f (g v)) vs
map-map f g [] = refl
map-map f g (v ∷ vs) = ap (λ t. f (g v) ∷ t) (map-map f g vs)

-- The values of a message, cut to a datatype and extended again.
module _ (width : ℕ) (vs : List ℕ) (h : FitAll width vs) where
  pub mod-map_bool : width ≡ 1 → map (λ r. r % 2 ^ width) (map to_bool vs) ≡ vs
  mod-map_bool e =
      ap (map (λ r. r % 2 ^ width)) (map-to_bool vs (subst (λ w. FitAll w vs) e h))
      ∙ map-mod_self width vs h

  pub mod-map8 : width ≤ 8 → map (λ r. r % 2 ^ width) (map (extend 8) (map (narrow 8) vs)) ≡ vs
  unfolding narrow
  mod-map8 e =
      ap (map (λ r. r % 2 ^ width)) (map-map (extend 8) (narrow 8) vs)
      ∙ map_mod width (λ v. extend 8 (narrow 8 v)) (λ v. extend8-mod v e) vs h

  pub mod-map16 : width ≤ 16 → map (λ r. r % 2 ^ width) (map (extend 16) (map (narrow 16) vs)) ≡ vs
  unfolding narrow
  mod-map16 e =
      ap (map (λ r. r % 2 ^ width)) (map-map (extend 16) (narrow 16) vs)
      ∙ map_mod width (λ v. extend 16 (narrow 16 v)) (λ v. extend16-mod v e) vs h

  pub mod-map32 : width ≤ 32 → map (λ r. r % 2 ^ width) (map (extend 32) (map (narrow 32) vs)) ≡ vs
  unfolding narrow
  mod-map32 e =
      ap (map (λ r. r % 2 ^ width)) (map-map (extend 32) (narrow 32) vs)
      ∙ map_mod width (λ v. extend 32 (narrow 32 v)) (λ v. extend32-mod v e) vs h
