-- ===== src/Table/Shape.antt =====
-- The shape of a table: every field has a width and a column, and all columns are as long.
use Prim.Native.String.{String}
use mpc_package.Base.{ℕ, zero, suc, ◌+◌, ◌≤◌, ◌≡◌, refl, sym, ap, ap₂, ◌∙◌, arith}
use mpc_package.Base.{List, [], ◌∷◌, ◌++◌, Option, none, some, if◌then◌else◌, ltb, ◌==◌}
use mpc_package.Base.{
  length, length-append, get_or, ◌≢◌, replicate, Bool-cases, inl, inr, true, false,
}
use mpc_package.Table.{Table, new_table, insert_row, push_row, max_of, is_empty, bucket_tag}

-- All columns have `n` rows.
abbrev pub HaveRows : ℕ → List (List ℕ) → Type 0
HaveRows n [] = Unit {0}
HaveRows n (col ∷ cols) = (length col ≡ n) × HaveRows n cols

-- No width exceeds `m`.
abbrev pub AllLe : ℕ → List ℕ → Type 0
AllLe m [] = Unit {0}
AllLe m (w ∷ ws) = (w ≤ m) × AllLe m ws

pub record IsTable (n : ℕ) (t : Table) : Type 0 where
  pub widths : length t.field_widths ≡ length t.field_names
  pub columns : length t.data_cols ≡ length t.field_names
  pub rows : HaveRows n t.data_cols
  pub max_width : AllLe t.max_width t.field_widths

AllLe-max_of : (m : ℕ) (ws : List ℕ) → (m ≤ max_of m ws) × AllLe (max_of m ws) ws
unfolding max_of
AllLe-max_of m [] = (omega arith, tt)
AllLe-max_of m (w ∷ ws) =
    let up = AllLe-max_of (if ltb w m then m else w) ws in
    (ground (arith, up.0), (ground (arith, up.0), up.1))

HaveRows-replicate : (k : ℕ) → HaveRows 0 (replicate k [])
HaveRows-replicate zero = tt
HaveRows-replicate (suc k) = (refl, HaveRows-replicate k)

length-replicate {ℓ} : {A : Type ℓ} (k : ℕ) (a : A) → length (replicate k a) ≡ k
length-replicate zero a = refl
length-replicate (suc k) a = ap suc (length-replicate k a)

HaveRows-push_row :
    (n : ℕ) (cols : List (List ℕ)) (r : List ℕ)
    → length r ≡ length cols
    → HaveRows n cols
    → HaveRows (suc n) (push_row cols r)
unfolding push_row
HaveRows-push_row n [] r e h = tt
HaveRows-push_row n (col ∷ cols) [] e h = absurd (omega arith)
HaveRows-push_row n (col ∷ cols) (v ∷ r) e h =
    (omega (arith, length-append col (v ∷ []), h.0), HaveRows-push_row n cols r (omega arith) h.1)

length-push_row : (cols : List (List ℕ)) (r : List ℕ) → length (push_row cols r) ≡ length cols
unfolding push_row
length-push_row [] r = refl
length-push_row (col ∷ cols) [] = refl
length-push_row (col ∷ cols) (v ∷ r) = ap suc (length-push_row cols r)

-- If there is a width for each field, a new table has the shape of a table, without rows.
pub new_table-IsTable :
    (table_name : String) (field_names : List String) (field_widths : List ℕ) (key_field : String)
    → length field_widths ≡ length field_names
    → IsTable 0 (new_table table_name field_names field_widths key_field)
unfolding new_table
new_table-IsTable table_name field_names field_widths key_field e =
    elim (Bool-cases (is_empty key_field)) [
      | inl k ↦ rw k (record {
        widths = e;
        columns = length-replicate (length field_names) [];
        rows = HaveRows-replicate (length field_names);
        max_width = (AllLe-max_of 0 field_widths).1;
      })
      | inr k ↦ rw k (record {
        widths =
            length-append field_widths (32 ∷ [])
            ∙ ap (λ n. n + 1) e
            ∙ sym (length-append field_names (bucket_tag key_field ∷ []));
        columns = length-replicate _ [];
        rows = HaveRows-replicate _;
        max_width = (AllLe-max_of 0 (field_widths ++ 32 ∷ [])).1;
      })
    ]

-- What stands in row `i`.
abbrev pub row_at : ℕ → List (List ℕ) → List ℕ
row_at i [] = []
row_at i (col ∷ cols) = get_or col i 0 ∷ row_at i cols

pub get-push_back : (col : List ℕ) (v : ℕ) → get_or (col ++ v ∷ []) (length col) 0 ≡ v
get-push_back [] v = refl
get-push_back (x ∷ col) v = get-push_back col v

row_at-push_row :
    (n : ℕ) (cols : List (List ℕ)) (r : List ℕ)
    → length r ≡ length cols
    → HaveRows n cols
    → row_at n (push_row cols r) ≡ r
unfolding push_row
row_at-push_row n [] [] e h = refl
row_at-push_row n [] (v ∷ r) e h = absurd (omega arith)
row_at-push_row n (col ∷ cols) [] e h = absurd (omega arith)
row_at-push_row n (col ∷ cols) (v ∷ r) e h =
    ap₂ ◌∷◌ (ap (λ i. get_or (col ++ v ∷ []) i 0) (sym h.0) ∙ get-push_back col v)
      (row_at-push_row n cols r (omega arith) h.1)

-- An insertion of the row `r` into a table of `n` rows: it throws if the row has another number of
-- columns, and else `r` is the last row of the table.
abbrev pub InsertedRow : ℕ → List ℕ → Table → Option Table → Type 0
InsertedRow n r t none = length r ≢ length t.field_names
InsertedRow n r t (some t') =
    (length r ≡ length t.field_names)
    × IsTable (suc n) t'
    × (row_at n t'.data_cols ≡ r)
    × (t'.field_names ≡ t.field_names)
    × (t'.field_widths ≡ t.field_widths)
    × (t'.max_width ≡ t.max_width)

-- On a table of `n` rows whose columns, names and widths are as many, an insertion throws only if
-- the row has another number of columns; else the table keeps this shape with `n + 1` rows, the
-- last of which is the row, and its schema.
pub insert_row-InsertedRow :
    (n : ℕ) (r : List ℕ) (t : Table) → IsTable n t → InsertedRow n r t (insert_row r t)
unfolding insert_row
insert_row-InsertedRow n r t h = elim (Bool-cases (length r == length t.data_cols)) [
  | inl e ↦ rw e (
    equal e h.columns,
    record {
      widths = h.widths;
      columns = length-push_row t.data_cols r ∙ h.columns;
      rows = HaveRows-push_row n t.data_cols r (equal e refl) h.rows;
      max_width = h.max_width;
    },
    row_at-push_row n t.data_cols r (equal e refl) h.rows,
    refl,
    refl,
    refl,
  )
  | inr e ↦ rw e (different e h.columns)
]
  where
    equal : {a b c : ℕ} → (a == b) ≡ true → b ≡ c → a ≡ c
    equal e f = ground arith

    different : {a b c : ℕ} → (a == b) ≡ false → b ≡ c → a ≢ c
    different e f g = ground arith
