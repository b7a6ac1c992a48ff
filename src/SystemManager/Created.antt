-- ===== src/SystemManager/Created.antt =====
-- The table that a statement creates, and the one that a statement drops.
use Prim.Native.String.{String, char_at}
use Prim.Native.String.compare
use text.Mathlib.Text.{is_eq}
use mathlib.Core.List.{append-nil, append_assoc}
use mathlib.Core.Path.{subst}
use mpc_package.Base.{ℕ, suc, ◌+◌, ◌%◌, ◌^◌, ◌≤◌, ◌≡◌, refl, sym, ap, ◌∙◌, arith}
use mpc_package.Base.{
  List, [], ◌∷◌, ◌++◌, map, length, length-append, length-map, Option, none, some,
}
use mpc_package.Base.{Bool, true, false, ltb, if◌then◌else◌, lookup, insert, lookup-insert, same}
use mpc_package.Base.{same_iff, inl, inr, Bool-cases}
use mpc_package.Table.{Table, new_table, is_empty, max_of, bucket_tag}
use mpc_package.Table.Shape.{IsTable, new_table-IsTable, AllLe}
use mpc_package.Database.{Database, create_table, drop_table, get_table}
use mpc_package.SystemManager.{Column, Fields, Constraint, DataType, boolean, int, other_type}
use mpc_package.SystemManager.{
  collect, next_key, is_primary_key, first_char, type_of, is_int_length, client_create_table,
  Message,
}
use mpc_package.SystemManager.Tables.{no_fields, client_create_table-found}
use mpc_package.SystemManager.Tables.{client_create_table-refused, client_create_table-created}

-- The key of the columns: the first character of the name of the first one that is a primary key,
-- or the empty name if there is none.
abbrev pub first_key : List Column → String
first_key [] = ""
first_key (c ∷ cs) = if is_primary_key c.column_constraints then first_char c.name else first_key cs

-- The key once `columns` have followed the key `k`.
abbrev kept_key : List Column → String → String
kept_key columns k = if is_empty k then first_key columns else k

-- What the loop over the columns has made of them.
pub record Collected (columns : List Column) (before f : Fields) : Type 0 where
  pub names : f.names ≡ before.names ++ map (λ c. c.name) columns
  pub types : length f.types ≡ length before.types + length columns
  pub widths : AllLe 64 before.types → AllLe 64 f.types
  pub key : f.key ≡ kept_key columns before.key

first_char-is_empty : (name : String) → is_empty (first_char name) ≡ false
unfolding first_char
first_char-is_empty name = ap is_eq (compare.cons-nil (char_at name 0) "")

is_empty-eq : (k : String) → is_empty k ≡ true → "" ≡ k
is_empty-eq k e = sym ((same_iff k "").0 e)

kept_key-none : (k : String) → k ≡ kept_key [] k
kept_key-none k = elim (Bool-cases (is_empty k)) [
  | inl e ↦ rw e (sym (is_empty-eq k e))
  | inr e ↦ rw e refl
]

-- A column that does not fail does to the key what the first of the columns does.
next_key-kept_key :
    (c : Column) (cs : List Column) (k k' : String)
    → next_key c k ≡ some k'
    → kept_key cs k' ≡ kept_key (c ∷ cs) k
unfolding next_key is_primary_key
next_key-kept_key c cs k k' e = by_constraints c.column_constraints e
  where
    by_constraints :
        (xs : List Constraint)
        → (elim xs [
          | [] ↦ some k
          | y ∷ ys ↦
              if is_empty k
              then (if is_primary_key (y ∷ ys) then some (first_char c.name) else none)
              else some k
        ])
          ≡ some k'
        → kept_key cs k' ≡ (
            if is_empty k
            then (if is_primary_key xs then first_char c.name else first_key cs)
            else k)
    by_constraints [] e = ap (kept_key cs) (sym (inside e))
      where
        inside : {a b : String} → ◌≡◌ {A = Option String} (some a) (some b) → a ≡ b
        inside e = cc
    by_constraints (y ∷ ys) e = by_tests (is_empty k) (is_primary_key (y ∷ ys)) refl e
      where
        inside : {a b : String} → ◌≡◌ {A = Option String} (some a) (some b) → a ≡ b
        inside e = cc

        by_tests :
            (a b : Bool)
            → is_empty k ≡ a
            → (if a then (if b then some (first_char c.name) else none) else some k) ≡ some k'
            → kept_key cs k' ≡ (if a then (if b then first_char c.name else first_key cs) else k)
        by_tests true true p e = rw (← inside e) (rw (first_char-is_empty c.name) refl)
        by_tests true false p e = absurd cc
        by_tests false b p e = rw (← inside e) (rw p refl)

AllLe-append : (m : ℕ) (ws : List ℕ) (w : ℕ) → w ≤ m → AllLe m ws → AllLe m (ws ++ w ∷ [])
AllLe-append m [] w le h = (le, tt)
AllLe-append m (v ∷ ws) w le h = (h.0, AllLe-append m ws w le h.1)

type_of-le : (t : DataType) (w : ℕ) → type_of t ≡ some w → w ≤ 64
unfolding type_of
type_of-le boolean w e = ground arith
type_of-le (int l) w e = by_length (l % 2 ^ 32) e
  where
    by_length : (t : ℕ) → (if is_int_length t then some t else none) ≡ some w → w ≤ 64
    by_length t e = unfold is_int_length in (ground arith)
type_of-le other_type w e = cc

-- What the loop collects, if it does not fail.
pub collect-Collected :
    (columns : List Column) (before f : Fields)
    → collect columns before ≡ some f
    → Collected columns before f
unfolding collect
collect-Collected [] before f e = subst (Collected [] before) (inside e) (record {
  names = sym (append-nil before.names);
  types = add_zero (length before.types);
  widths = λ h. h;
  key = kept_key-none before.key;
})
  where
    inside : {a b : Fields} → ◌≡◌ {A = Option Fields} (some a) (some b) → a ≡ b
    inside e = cc

    add_zero : (n : ℕ) → n ≡ n + 0
    add_zero n = omega arith
collect-Collected (c ∷ cs) before f e =
    by_parts (next_key c before.key) (type_of c.data_type) refl refl e (collect-Collected cs)
  where
    by_parts :
        (k : Option String) (t : Option ℕ)
        → type_of c.data_type ≡ t
        → next_key c before.key ≡ k
        → (elim k [
          | none ↦ none
          | some key' ↦ elim t [
            | none ↦ none
            | some w ↦ collect cs (record {
              names = before.names ++ c.name ∷ [];
              key = key';
              types = before.types ++ w ∷ [];
            })
          ]
        ])
          ≡ some f
        → ((before' f' : Fields) → collect cs before' ≡ some f' → Collected cs before' f')
        → Collected (c ∷ cs) before f
    by_parts none t g n e ih = absurd (nothing e)
      where
        nothing : ◌≡◌ {A = Option Fields} none (some f) → ⊥
        nothing e = cc
    by_parts (some key') none g n e ih = absurd (nothing e)
      where
        nothing : ◌≡◌ {A = Option Fields} none (some f) → ⊥
        nothing e = cc
    by_parts (some key') (some w) g n e ih =
        let rest = ih _ f e in
        record {
          names = rest.names ∙ append_assoc before.names (c.name ∷ []) (map (λ c. c.name) cs);
          types =
              rest.types
              ∙ more (length before.types) (length cs) (length-append before.types (w ∷ []));
          widths = λ h. rest.widths (AllLe-append 64 before.types w (type_of-le c.data_type w g) h);
          key = rest.key ∙ next_key-kept_key c cs before.key key' n;
        }
      where
        more : {k : ℕ} (n m : ℕ) → k ≡ n + 1 → k + m ≡ n + suc m
        more n m e = omega arith

max_of-le : (k m : ℕ) (ws : List ℕ) → m ≤ k → AllLe k ws → max_of m ws ≤ k
unfolding max_of
max_of-le k m [] le h = le
max_of-le k m (w ∷ ws) le h = max_of-le k (if ltb w m then m else w) ws (either (ltb w m)) h.1
  where
    either : (b : Bool) → (if b then m else w) ≤ k
    either true = le
    either false = h.0

-- The names of a table's fields, with the one for the bucket of the key.
abbrev pub with_tag : List String → String → List String
with_tag names key = if is_empty key then names else names ++ bucket_tag key ∷ []

new_table-max_width :
    (name : String) (names : List String) (types : List ℕ) (key : String)
    → AllLe 64 types
    → (new_table name names types key).max_width ≤ 64
unfolding new_table
new_table-max_width name names types key h = by_key (is_empty key)
  where
    by_key : (b : Bool) → max_of 0 (if b then types else types ++ 32 ∷ []) ≤ 64
    by_key true = max_of-le 64 0 types (omega arith) h
    by_key false =
        max_of-le 64 0 (types ++ 32 ∷ []) (omega arith) (AllLe-append 64 types 32 (omega arith) h)

-- What a statement that creates a table has done to the current database.
pub record CreatedTable (name : String) (columns : List Column) (d d' : Database) : Type 0 where
  pub absent : get_table name d ≡ none
  pub table : Table
  pub present : get_table name d' ≡ some table
  pub shape : IsTable 0 table
  pub names : table.field_names ≡ with_tag (map (λ c. c.name) columns) table.key_field
  pub key : table.key_field ≡ first_key columns
  pub at_most : table.max_width ≤ 64
  pub others : (other : String) → same name other ≡ false → get_table other d' ≡ get_table other d

created :
    (name : String) (columns : List Column) (d : Database) (f : Fields)
    → lookup name d.tables ≡ none
    → Collected columns (record { names = []; key = ""; types = [] }) f
    → CreatedTable name columns d
        (record d { tables = insert name (new_table name f.names f.types f.key) d.tables })
unfolding get_table
created name columns d f e c = record {
  absent = e;
  table = new_table name f.names f.types f.key;
  present = lookup-insert name name _ d.tables ∙ rw ((same_iff name name).1 refl) refl;
  shape = new_table-IsTable name f.names f.types f.key (lengths c.names c.types);
  names = unfold new_table in ap (λ ns. with_tag ns f.key) c.names;
  key = unfold new_table in (c.key ∙ from_none);
  at_most = new_table-max_width name f.names f.types f.key (c.widths tt);
  others = λ other g. lookup-insert name other _ d.tables ∙ rw g refl;
}
  where
    from_none : kept_key columns "" ≡ first_key columns
    from_none = refl

    lengths :
        f.names ≡ map (λ c. c.name) columns
        → length f.types ≡ 0 + length columns
        → length f.types ≡ length f.names
    lengths p q =
        q
        ∙ zero_add (length columns)
        ∙ sym (length-map (λ (c : Column). c.name) columns)
        ∙ sym (ap length p)
      where
        zero_add : (n : ℕ) → 0 + n ≡ n
        zero_add n = omega arith

-- A statement that creates a table does so only where there was none of the name; the table is
-- empty, with the named columns and a tag if it has a key, of at most 64 bits, its key is the first
-- character of the name of the first column that is a primary key, and empty only if there is none,
-- and every other table is as before.
pub client_create_table-CreatedTable :
    (name : String) (columns : List Column) (d d' : Database) (message : Message)
    → client_create_table name columns d ≡ some (d', message)
    → CreatedTable name columns d d'
client_create_table-CreatedTable name columns d d' message e =
    by_parts (lookup name d.tables) (collect columns no_fields) refl refl
  where
    nothing : ◌≡◌ {A = Option (Database × Message)} none (some (d', message)) → ⊥
    nothing e = cc

    inside :
        {a b : Database} {u v : Message}
        → ◌≡◌ {A = Option (Database × Message)} (some (a, u)) (some (b, v))
        → a ≡ b
    inside e = cc

    by_parts :
        (t : Option Table) (f : Option Fields)
        → lookup name d.tables ≡ t
        → collect columns no_fields ≡ f
        → CreatedTable name columns d d'
    by_parts (some t) f p q =
        absurd (nothing (sym (client_create_table-found name columns d t p) ∙ e))
    by_parts none none p q =
        absurd (nothing (sym (client_create_table-refused name columns d p q) ∙ e))
    by_parts none (some f) p q =
        subst (CreatedTable name columns d)
          (inside (sym (client_create_table-created name columns d f p q) ∙ e))
          (created name columns d f p (collect-Collected columns _ f q))

-- After a table has been dropped, creating one of its name fails as if it were still there,
-- whatever the columns are.
pub create_table-drop_table :
    (name : String) (names : List String) (types : List ℕ) (key : String) (d d' : Database)
    → drop_table name d ≡ some d'
    → create_table name names types key d' ≡ none
unfolding drop_table create_table
create_table-drop_table name names types key d d' e = by_table (lookup name d.tables) refl e
  where
    by_table :
        (t : Option Table)
        → lookup name d.tables ≡ t
        → (elim t [ none ↦ none | some _ ↦ some d ]) ≡ some d'
        → create_table name names types key d' ≡ none
    by_table none p e = absurd (nothing e)
      where
        nothing : ◌≡◌ {A = Option Database} none (some d') → ⊥
        nothing e = cc
    by_table (some t) p e = rw (← inside e) (rw (p, create_table) refl)
      where
        inside : {a b : Database} → ◌≡◌ {A = Option Database} (some a) (some b) → a ≡ b
        inside e = cc
