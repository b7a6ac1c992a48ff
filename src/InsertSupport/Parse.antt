-- ===== src/InsertSupport/Parse.antt =====
-- What the values come to: each is a word, and fits the width of its column.
use Prim.Native.String.{String}
use native.Mathlib.Nat.{one-le-pow}
use mathlib.Core.Path.{subst}
use mpc_package.Base.{◌⊎◌, ℕ, ◌^◌, ◌≤◌, ◌<◌, ◌≡◌, refl, sym, arith, length}
use mpc_package.Base.{List, [], ◌∷◌, Option, none, some, same, Bool-cases, inl, inr}
use mpc_package.Base.{true, false, if◌then◌else◌, bit_and, bit_and-le}
use mpc_package.Word.{IsWord, sub, shl}
use mpc_package.Math.Ring.{mask-eq}
use mpc_package.Table.{Table, bucket_tag}
use mpc_package.InsertSupport.{Expr, int_literal, operator, other_expr, value_of, is_out_of_range}
use mpc_package.InsertSupport.{
  ParseResult, gave_up, parsed_all, parse, put_first, width_of, bad_value, out_of_range,
}

-- A value that can stand in the column: the tag's own width is not asked for.
abbrev pub Fits : Table → String → ℕ → Type 0
Fits t c v =
    IsWord v × (same c (bucket_tag t.key_field) ≡ false → width_of t c < 64 → v < 2 ^ width_of t c)

-- One value for each column, and each fits.
abbrev pub AllFit : Table → List String → List ℕ → Type 0
AllFit t [] [] = Unit {0}
AllFit t (c ∷ cols) (v ∷ vs) = Fits t c v × AllFit t cols vs
AllFit t _ _ = ⊥

-- The literals are `int64_t`.
abbrev pub AreLiterals : List Expr → Type 0
AreLiterals [] = Unit {0}
AreLiterals (int_literal v ∷ es) = IsWord v × AreLiterals es
AreLiterals (operator neg v ∷ es) = AreLiterals es
AreLiterals (other_expr ∷ es) = AreLiterals es

abbrev pub ParsedFit : Table → List String → ParseResult → Type 0
ParsedFit t cols (gave_up r) = Unit {0}
ParsedFit t cols (parsed_all p) = AllFit t cols p.parsed

in_range : (type v : ℕ) → is_out_of_range type v ≡ false → type < 64 → v < 2 ^ type
unfolding is_out_of_range
in_range type v e lt = below (subst (λ m. bit_and v m ≤ m) (sym (mask-eq type lt)) (bit_and-le v _))
  where
    below : bit_and v (sub (shl 1 type) 1) ≤ sub (shl 1 type) 1 → v < 2 ^ type
    below le = ground (arith, le, e, lt, mask-eq type lt, one-le-pow type 2 (omega arith))

put_first-ParsedFit :
    (t : Table) (c : String) (cols : List String) (v : ℕ) (r : ParseResult)
    → Fits t c v
    → ParsedFit t cols r
    → ParsedFit t (c ∷ cols) (put_first v r)
put_first-ParsedFit t c cols v (gave_up r) f h = tt
put_first-ParsedFit t c cols v (parsed_all p) f h = (f, h)

pub Value-cases : (o : Option ℕ) → (o ≡ none) ⊎ ((v : ℕ) × (o ≡ some v))
Value-cases none = inl refl
Value-cases (some v) = inr (v, refl)

same_value : {a b : ℕ} → some a ≡ some b → a ≡ b
same_value e = cc

value_of-IsWord :
    (garbage : ℕ) (e : Expr) (es : List Expr) (v : ℕ)
    → IsWord garbage
    → AreLiterals (e ∷ es)
    → value_of garbage e ≡ some v
    → IsWord v
unfolding value_of sub
value_of-IsWord garbage (int_literal w) es v g h e = subst IsWord (same_value e) h.0
value_of-IsWord garbage (operator true w) es v g h e = subst IsWord (same_value e) (omega arith)
value_of-IsWord garbage (operator false w) es v g h e = subst IsWord (same_value e) g
value_of-IsWord garbage other_expr es v g h e = absurd (ground arith)

rest-AreLiterals : (e : Expr) (es : List Expr) → AreLiterals (e ∷ es) → AreLiterals es
rest-AreLiterals (int_literal v) es h = h.1
rest-AreLiterals (operator neg v) es h = h
rest-AreLiterals other_expr es h = h

pub parse-none :
    (garbage : ℕ) (t : Table) (es : List Expr) (key_value : ℕ)
    → parse garbage t [] es key_value ≡ parsed_all (record { parsed = []; key_value = key_value })
unfolding parse
parse-none garbage t es key_value = refl

module _ (garbage : ℕ) (t : Table) (c : String) (cols : List String) (x : Expr) (es : List Expr)
    (key_value : ℕ) where
  abbrev pub rest : ℕ → ParseResult
  rest v = put_first v (parse garbage t cols es (if same c t.key_field then v else key_value))

  pub parse-bad :
      value_of garbage x ≡ none → parse garbage t (c ∷ cols) (x ∷ es) key_value ≡ gave_up bad_value
  unfolding parse
  parse-bad n = rw (n, parse) refl

  pub parse-good :
      (v : ℕ)
      → value_of garbage x ≡ some v
      → parse garbage t (c ∷ cols) (x ∷ es) key_value
        ≡ (if is_out_of_range (width_of t c) v then gave_up out_of_range else rest v)
  unfolding parse
  parse-good v s = rw (s, parse) refl

pub parse-ParsedFit :
    (garbage : ℕ) (t : Table) (cols : List String) (es : List Expr) (key_value : ℕ)
    → IsWord garbage
    → AreLiterals es
    → length cols ≡ length es
    → ParsedFit t cols (parse garbage t cols es key_value)
parse-ParsedFit garbage t [] es key_value g h e = rw (parse-none garbage t es key_value) tt
parse-ParsedFit garbage t (c ∷ cols) [] key_value g h e = absurd (omega arith)
parse-ParsedFit garbage t (c ∷ cols) (x ∷ es) key_value g h e =
    let kept =
      λ (k : ℕ). parse-ParsedFit garbage t cols es k g (rest-AreLiterals x es h) (omega arith) in
    elim (Value-cases (value_of garbage x)) [
      | inl n ↦ rw (parse-bad garbage t c cols x es key_value n) tt
      | inr (v, s) ↦
          rw (parse-good garbage t c cols x es key_value v s)
            (elim (Bool-cases (is_out_of_range (width_of t c) v)) [
              | inl o ↦ rw (o, ParsedFit) tt
              | inr o ↦
                  rw (o, ParsedFit)
                    (put_first-ParsedFit t c cols v _
                      (value_of-IsWord garbage x es v g h s, λ _. in_range (width_of t c) v o)
                      (kept (if same c t.key_field then v else key_value)))
            ])
    ]
