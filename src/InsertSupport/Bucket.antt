-- ===== src/InsertSupport/Bucket.antt =====
-- The tag of the bucket of a row whose statement does not name the key field.
use Prim.Native.String.{String}
use mathlib.Core.Path.{subst}
use mpc_package.Base.{ℕ, suc, ◌≡◌, refl, sym, ◌∙◌, ap, arith, length, get_or}
use mpc_package.Base.{List, [], ◌∷◌, ◌++◌, some, same, same_iff, Bool-cases, inl, inr}
use mpc_package.Base.{Bool, true, false, not, ◌||◌, ◌==◌, if◌then◌else◌}
use mpc_package.Table.{Table, bucket_tag}
use mpc_package.Table.Shape.{get-push_back}
use mpc_package.InsertSupport.{InsertStatement, InsertReply, refused, abandoned, inserted, Expr}
use mpc_package.InsertSupport.{ParseResult, gave_up, parsed_all, parse, hash, reply_of}
use mpc_package.InsertSupport.{has, distance, arrange, share_values, columns_of, client_insert}
use mpc_package.InsertSupport.{
  contains_key, all_known, put_first, value_of, is_out_of_range, width_of,
}
use mpc_package.InsertSupport.{key_needed, unmatched, unknown_field}
use mpc_package.InsertSupport.Parse.{parse-bad, parse-good, parse-none, Value-cases}

-- As many values as columns, and the value of the key is `k`.
abbrev pub ParsedFor : ℕ → List String → ParseResult → Type 0
ParsedFor k cols (gave_up r) = Unit {0}
ParsedFor k cols (parsed_all p) = (length p.parsed ≡ length cols) × (p.key_value ≡ k)

put_first-ParsedFor :
    (k v : ℕ) (c : String) (cols : List String) (r : ParseResult)
    → ParsedFor k cols r
    → ParsedFor k (c ∷ cols) (put_first v r)
put_first-ParsedFor k v c cols (gave_up r) h = tt
put_first-ParsedFor k v c cols (parsed_all p) h = (ap suc h.0, h.1)

neither : (a b : Bool) → (a || b) ≡ false → (a ≡ false) × (b ≡ false)
neither a b e = (ground arith, ground arith)

has-cons :
    (n c : String) (cols : List String)
    → has n (c ∷ cols) ≡ false
    → (same c n ≡ false) × (has n cols ≡ false)
unfolding has
has-cons n c cols e = neither (same c n) (has n cols) e

parse-ParsedFor :
    (garbage : ℕ) (t : Table) (cols : List String) (es : List Expr) (k : ℕ)
    → length cols ≡ length es
    → has t.key_field cols ≡ false
    → ParsedFor k cols (parse garbage t cols es k)
parse-ParsedFor garbage t [] es k e n = rw (parse-none garbage t es k) (refl, refl)
parse-ParsedFor garbage t (c ∷ cols) [] k e n = absurd (omega arith)
parse-ParsedFor garbage t (c ∷ cols) (x ∷ es) k e n =
    let apart = has-cons t.key_field c cols n in
    elim (Value-cases (value_of garbage x)) [
      | inl b ↦ rw (parse-bad garbage t c cols x es k b) tt
      | inr (v, s) ↦
          rw (parse-good garbage t c cols x es k v s)
            (elim (Bool-cases (is_out_of_range (width_of t c) v)) [
              | inl o ↦ rw (o, ParsedFor) tt
              | inr o ↦
                  rw (o, ParsedFor, apart.0)
                    (put_first-ParsedFor k v c cols (parse garbage t cols es k)
                      (parse-ParsedFor garbage t cols es k (omega arith) apart.1))
            ])
    ]

-- What a name is found at that stands at the end only.
last-has : (n : String) (cols : List String) → has n (cols ++ n ∷ []) ≡ true
unfolding has
last-has n [] = rw ((same_iff n n).1 refl) refl
last-has n (c ∷ cols) = rw (last-has n cols) (or_true (same c n))
  where
    or_true : (b : Bool) → (b || true) ≡ true
    or_true b = ground arith

last-distance :
    (n : String) (cols : List String)
    → has n cols ≡ false
    → distance n (cols ++ n ∷ []) ≡ length cols
unfolding has distance
last-distance n [] h = rw ((same_iff n n).1 refl) refl
last-distance n (c ∷ cols) h =
    let apart = has-cons n c cols h in rw apart.0 (ap suc (last-distance n cols apart.1))

-- The tag in a row, wherever it stands.
abbrev pub TagsAre : String → ℕ → List String → List ℕ → Type 0
TagsAre tag h [] [] = Unit {0}
TagsAre tag h (n ∷ names) (v ∷ row) = (same n tag ≡ true → v ≡ h) × TagsAre tag h names row
TagsAre tag h _ _ = ⊥

arrange-TagsAre :
    (tag : String) (h : ℕ) (cols : List String) (vs : List ℕ) (names : List String)
    → length vs ≡ length cols
    → has tag cols ≡ false
    → TagsAre tag h names (arrange (cols ++ tag ∷ []) (vs ++ h ∷ []) names)
unfolding arrange
arrange-TagsAre tag h cols vs [] e f = tt
arrange-TagsAre tag h cols vs (n ∷ names) e f = (
  λ s. subst (λ m. found m ≡ h) (sym ((same_iff n tag).0 s)) at_tag,
  arrange-TagsAre tag h cols vs names e f,
)
  where
    found : String → ℕ
    found m =
        if has m (cols ++ tag ∷ [])
        then get_or (vs ++ h ∷ []) (distance m (cols ++ tag ∷ [])) 0
        else 0

    at_tag : found tag ≡ h
    at_tag =
        rw (last-has tag cols, last-distance tag cols f)
          (ap (λ i. get_or (vs ++ h ∷ []) i 0) (sym e) ∙ get-push_back vs h)

-- The tag of an inserted row is the hash of the key value 0.
abbrev pub InFirstBucket : ℕ → Table → InsertReply → Type 0
InFirstBucket bucket_num t (inserted row) =
    TagsAre (bucket_tag t.key_field) (hash bucket_num 0) t.field_names row
InFirstBucket bucket_num t (refused r) = Unit {0}
InFirstBucket bucket_num t (abandoned r) = Unit {0}

reply_of-InFirstBucket :
    (bucket_num : ℕ) (t : Table) (cols : List String) (r : ParseResult)
    → has (bucket_tag t.key_field) cols ≡ false
    → ParsedFor 0 cols r
    → InFirstBucket bucket_num t (reply_of bucket_num t cols r)
unfolding share_values
reply_of-InFirstBucket bucket_num t cols (gave_up r) f h = tt
reply_of-InFirstBucket bucket_num t cols (parsed_all p) f h =
    subst
      (λ k. TagsAre (bucket_tag t.key_field) (hash bucket_num 0) t.field_names (
        arrange (cols ++ bucket_tag t.key_field ∷ []) (p.parsed ++ hash bucket_num k ∷ [])
          t.field_names))
      (sym h.1)
      (arrange-TagsAre (bucket_tag t.key_field) (hash bucket_num 0) cols p.parsed t.field_names h.0
        f)

-- If neither the key field nor its tag is among the columns that a statement gives values to, the
-- tag of an accepted row is the hash of 0, whatever the values are.
pub client_insert-InFirstBucket :
    (bucket_num garbage : ℕ) (stmt : InsertStatement) (t : Table)
    → has t.key_field (columns_of t stmt.columns) ≡ false
    → has (bucket_tag t.key_field) (columns_of t stmt.columns) ≡ false
    → InFirstBucket bucket_num t (client_insert bucket_num garbage stmt (some t))
unfolding client_insert
client_insert-InFirstBucket bucket_num garbage stmt t k f =
    go (contains_key t stmt.columns) (length cols == length stmt.values)
      (all_known t.field_names cols) refl
  where
    cols : List String
    cols = columns_of t stmt.columns

    go :
        (a b c : Bool)
        → (length cols == length stmt.values) ≡ b
        → InFirstBucket bucket_num t (
            if not a
            then refused key_needed
            else if not b
            then refused unmatched
            else if not c
            then refused unknown_field
            else reply_of bucket_num t cols (parse garbage t cols stmt.values 0))
    go false b c e = tt
    go true false c e = tt
    go true true false e = tt
    go true true true e =
        reply_of-InFirstBucket bucket_num t cols _ f
          (parse-ParsedFor garbage t cols stmt.values 0 (ground arith) k)
