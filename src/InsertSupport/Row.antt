-- ===== src/InsertSupport/Row.antt =====
-- The row that the client shares out: a fitting value for every field, or no row at all.
use Prim.Native.String.{String}
use native.Mathlib.Nat.{one-le-pow, mod-le}
use mathlib.Core.Path.{subst}
use mpc_package.Base.{ℕ, ◌%◌, ◌^◌, ◌≤◌, ◌<◌, ◌≡◌, refl, sym, arith, length, get_or}
use mpc_package.Base.{List, [], ◌∷◌, ◌++◌, Option, none, some, same, same_iff, Bool-cases, inl, inr}
use mpc_package.Base.{Bool, true, false, not, ◌||◌, ◌&&◌, ltb, ◌==◌, if◌then◌else◌}
use mpc_package.Word.{IsWord, sub, add, mul}
use mpc_package.Table.{Table, bucket_tag}
use mpc_package.InsertSupport.{InsertStatement, InsertReply, refused, abandoned, inserted}
use mpc_package.InsertSupport.{
  ParseResult, ParsedValues, gave_up, parsed_all, parse, hash, reply_of,
}
use mpc_package.InsertSupport.{
  has, distance, arrange, share_values, columns_of, contains_key, all_known, client_insert,
}
use mpc_package.InsertSupport.{key_needed, unmatched, unknown_field}
use mpc_package.InsertSupport.Parse.{Fits, AllFit, AreLiterals, ParsedFit, parse-ParsedFit}

hash-IsWord : (bucket_num key_value : ℕ) → IsWord (hash bucket_num key_value)
unfolding hash sub add
hash-IsWord bucket_num key_value = elim (Bool-cases (ltb h (2 ^ 63))) [
  | inl s ↦ rw s (below (mod-le h bucket_num))
  | inr s ↦ rw s (omega arith)
]
  where
    h : ℕ
    h = add (mul key_value 31) 17

    below : h % bucket_num ≤ h → h % bucket_num < 2 ^ 64
    below le = omega (arith, le)

AllFit-append :
    (t : Table) (cols : List String) (vs : List ℕ) (c : String) (v : ℕ)
    → AllFit t cols vs
    → Fits t c v
    → AllFit t (cols ++ c ∷ []) (vs ++ v ∷ [])
AllFit-append t [] [] c v h f = (f, tt)
AllFit-append t [] (w ∷ vs) c v h f = absurd h
AllFit-append t (d ∷ cols) [] c v h f = absurd h
AllFit-append t (d ∷ cols) (w ∷ vs) c v h f = (h.0, AllFit-append t cols vs c v h.1 f)

Fits-tag : (t : Table) (v : ℕ) → IsWord v → Fits t (bucket_tag t.key_field) v
Fits-tag t v w = (w, λ e. absurd (clash e ((same_iff tag tag).1 refl)))
  where
    tag : String
    tag = bucket_tag t.key_field

    clash : {b : Bool} → b ≡ false → b ≡ true → ⊥
    clash e f = ground arith

Fits-zero : (t : Table) (c : String) → Fits t c 0
Fits-zero t c = (omega arith, λ _ _. one-le-pow _ 2 (omega arith))

-- What is found for a field fits it.
found-Fits :
    (t : Table) (n : String) (cols : List String) (vs : List ℕ)
    → AllFit t cols vs
    → Fits t n (if has n cols then get_or vs (distance n cols) 0 else 0)
unfolding has distance
found-Fits t n [] vs h = Fits-zero t n
found-Fits t n (c ∷ cols) [] h = absurd h
found-Fits t n (c ∷ cols) (v ∷ vs) h = elim (Bool-cases (same c n)) [
  | inl e ↦ rw e (subst (λ d. Fits t d v) ((same_iff c n).0 e) h.0)
  | inr e ↦ rw e (found-Fits t n cols vs h.1)
]

arrange-AllFit :
    (t : Table) (cols : List String) (vs : List ℕ) (names : List String)
    → AllFit t cols vs
    → AllFit t names (arrange cols vs names)
unfolding arrange
arrange-AllFit t cols vs [] h = tt
arrange-AllFit t cols vs (n ∷ names) h =
    (found-Fits t n cols vs h, arrange-AllFit t cols vs names h)

share_values-AllFit :
    (bucket_num : ℕ) (t : Table) (cols : List String) (p : ParsedValues)
    → AllFit t cols p.parsed
    → AllFit t t.field_names (share_values bucket_num t cols p)
unfolding share_values
share_values-AllFit bucket_num t cols p h = arrange-AllFit t _ _ t.field_names (
    AllFit-append t cols p.parsed (bucket_tag t.key_field) _ h
      (Fits-tag t _ (hash-IsWord bucket_num p.key_value)))

-- An inserted row has a word for each field, below 2 ^ width if that is not the tag of the bucket.
abbrev pub RowFits : Table → InsertReply → Type 0
RowFits t (inserted row) = AllFit t t.field_names row
RowFits t (refused r) = Unit {0}
RowFits t (abandoned r) = Unit {0}

reply_of-RowFits :
    (bucket_num : ℕ) (t : Table) (cols : List String) (r : ParseResult)
    → ParsedFit t cols r
    → RowFits t (reply_of bucket_num t cols r)
reply_of-RowFits bucket_num t cols (gave_up r) h = tt
reply_of-RowFits bucket_num t cols (parsed_all p) h = share_values-AllFit bucket_num t cols p h

-- If the literals are words, an accepted insertion makes a row of one word for each field, and
-- where the field is not the tag of the bucket and is narrower than 64 bits, the word is below 2 ^
-- width.
pub client_insert-RowFits :
    (bucket_num garbage : ℕ) (stmt : InsertStatement) (t : Table)
    → IsWord garbage
    → AreLiterals stmt.values
    → RowFits t (client_insert bucket_num garbage stmt (some t))
unfolding client_insert
client_insert-RowFits bucket_num garbage stmt t g h =
    go (contains_key t stmt.columns) (length cols == length stmt.values)
      (all_known t.field_names cols) refl
  where
    cols : List String
    cols = columns_of t stmt.columns

    go :
        (a b c : Bool)
        → (length cols == length stmt.values) ≡ b
        → RowFits t (
            if not a
            then refused key_needed
            else if not b
            then refused unmatched
            else if not c
            then refused unknown_field
            else reply_of bucket_num t cols (parse garbage t cols stmt.values 0))
    go false b c e = tt
    go true false c e = tt
    go true true false e = tt
    go true true true e =
        reply_of-RowFits bucket_num t cols _
          (parse-ParsedFit garbage t cols stmt.values 0 g h (ground arith))

-- The servers hear nothing of it.
abbrev pub IsRefused : InsertReply → Type 0
IsRefused (refused r) = Unit {0}
IsRefused (abandoned r) = ⊥
IsRefused (inserted row) = ⊥

has-all_known :
    (c : String) (names cols : List String)
    → has c cols ≡ true
    → has c names ≡ false
    → all_known names cols ≡ false
unfolding has all_known
has-all_known c names [] h e = absurd (ground arith)
has-all_known c names (d ∷ cols) h e = elim (Bool-cases (same d c)) [
  | inl s ↦ first _ (subst (λ d. has d names ≡ false) (sym ((same_iff d c).0 s)) e)
  | inr s ↦ rest _ (has-all_known c names cols (drop_first s h) e)
]
  where
    drop_first : {a b : Bool} → a ≡ false → (a || b) ≡ true → b ≡ true
    drop_first s h = ground arith

    first : {a : Bool} → (b : Bool) → a ≡ false → (a && b) ≡ false
    first b s = ground arith

    rest : (a : Bool) → {b : Bool} → b ≡ false → (a && b) ≡ false
    rest a s = ground arith

contains_key-all_known :
    (t : Table) (columns : Option (List String))
    → t.key_field ≡ ""
    → has "" t.field_names ≡ false
    → contains_key t columns ≡ true
    → all_known t.field_names (columns_of t columns) ≡ false
unfolding contains_key columns_of
contains_key-all_known t none k e c = absurd (clash c ((same_iff t.key_field "").1 k))
  where
    clash : {a : Bool} → not a ≡ true → a ≡ true → ⊥
    clash p q = ground arith
contains_key-all_known t (some columns) k e c =
    has-all_known "" t.field_names columns
      (subst (λ n. has n columns ≡ true) k (second c ((same_iff t.key_field "").1 k))) e
  where
    second : {a b : Bool} → (not a || b) ≡ true → a ≡ true → b ≡ true
    second p q = ground arith

-- On a table without a key field, and without a field of the empty name, every insertion is refused
-- before the servers hear of it.
pub client_insert-IsRefused :
    (bucket_num garbage : ℕ) (stmt : InsertStatement) (t : Table)
    → t.key_field ≡ ""
    → has "" t.field_names ≡ false
    → IsRefused (client_insert bucket_num garbage stmt (some t))
unfolding client_insert
client_insert-IsRefused bucket_num garbage stmt t k e =
    go (contains_key t stmt.columns) (length cols == length stmt.values)
      (all_known t.field_names cols) (contains_key-all_known t stmt.columns k e)
  where
    cols : List String
    cols = columns_of t stmt.columns

    go :
        (a b c : Bool)
        → (a ≡ true → c ≡ false)
        → IsRefused (
            if not a
            then refused key_needed
            else if not b
            then refused unmatched
            else if not c
            then refused unknown_field
            else reply_of bucket_num t cols (parse garbage t cols stmt.values 0))
    go false b c f = tt
    go true false c f = tt
    go true true false f = tt
    go true true true f = absurd (ground (arith, f refl))
