-- ===== src/Base/Dict.antt =====
-- A `std::map` from names, as an association list, and the laws of its operations.
use Prim.Native.String.{String}
use text.Mathlib.TextEquality.{eq_iff}
use text.Mathlib.Text.{◌==◌ as str_eq}
use mathlib.Core.Path.{◌≡◌, refl, ◌∙◌}
use mathlib.Core.Bool.{Bool, true}
use mathlib.Core.Option.{Option, none, some}
use mathlib.Core.List.{List, [], ◌∷◌}
use native.Mathlib.Omega.{arith}
use mpc_package.Base.Tests.{if◌then◌else◌, Bool-cases}
use mathlib.Core.Logic.{inl, inr}

-- Equality of names.
abbrev pub same : String → String → Bool
same s t = str_eq s t

pub same_iff : (s t : String) → ((same s t ≡ true) → s ≡ t) × ((s ≡ t) → same s t ≡ true)
same_iff s t = eq_iff s t

abbrev pub Dict {ℓ} : Type ℓ → Type ℓ
Dict V = List (String × V)

module _ {ℓ} {V : Type ℓ} where
  -- `find`, with the value that it leads to.
  unfoldable pub lookup : String → Dict V → Option V
  lookup name [] = none
  lookup name ((n, v) ∷ rest) =
      let later = lookup name rest in if same n name then some v else later

  unfoldable pub erase : String → Dict V → Dict V
  erase name [] = []
  erase name ((n, v) ∷ rest) =
      let others = erase name rest in if same n name then others else (n, v) ∷ others

  -- An assignment to `m[name]`: the old entry, if there is one, is replaced.
  unfoldable pub insert : String → V → Dict V → Dict V
  unfolding erase
  insert name v d = (name, v) ∷ erase name d

  pub lookup-erase :
      (name other : String) (d : Dict V)
      → lookup other (erase name d) ≡ (if same name other then none else lookup other d)
  unfolding lookup erase
  lookup-erase name other [] = ground arith
  lookup-erase name other ((n, v) ∷ rest) =
      ground (arith, lookup-erase name other rest, eq_iff name other, eq_iff n other, eq_iff n name)

  pub lookup-insert :
      (name other : String) (v : V) (d : Dict V)
      → lookup other (insert name v d) ≡ (if same name other then some v else lookup other d)
  unfolding lookup insert
  lookup-insert name other v d = elim (Bool-cases (same name other)) [
    | inl e ↦ rw e refl
    | inr e ↦ rw e (lookup-erase name other d ∙ rw e refl)
  ]
