-- ===== src/Table.antt =====
-- `Table` (db/src/basis/Table.cpp): the columns of a table, as shares on a server and empty at the
-- client.
pub mod Shape
use Prim.Native.String.{String}
use Prim.Native.String as Str
use mpc_package.Base.{ℕ, zero, suc, ◌+◌, List, [], ◌∷◌, ◌++◌, Option, none, some, Bool, same}
use mpc_package.Base.{if◌then◌else◌, ltb, ◌==◌, length, replicate}

pub record Table : Type 0 where
  pub table_name : String
  pub field_names : List String
  pub key_field : String
  pub field_widths : List ℕ
  pub data_cols : List (List ℕ)
  pub max_width : ℕ

-- `BUCKET_TAG_PREFIX`
abbrev pub bucket_tag_prefix : String
bucket_tag_prefix = "$tag:"

abbrev pub bucket_tag : String → String
bucket_tag key_field = Str.◌++◌ bucket_tag_prefix key_field

-- `empty()`
abbrev pub is_empty : String → Bool
is_empty s = same s ""

-- `std::max(w, _maxWidth)`, over all widths.
unfoldable pub max_of : ℕ → List ℕ → ℕ
max_of m [] = m
max_of m (w ∷ ws) = max_of (if ltb w m then m else w) ws

-- The constructor.
unfoldable pub new_table : String → List String → List ℕ → String → Table
unfolding max_of
new_table table_name field_names field_widths key_field =
    let names =
      if is_empty key_field then field_names else field_names ++ bucket_tag key_field ∷ [] in
    let widths = if is_empty key_field then field_widths else field_widths ++ 32 ∷ [] in
    record {
      table_name = table_name;
      field_names = names;
      key_field = key_field;
      field_widths = widths;
      data_cols = replicate (length names) [];
      max_width = max_of 0 widths;
    }

-- `colNum`
unfoldable pub col_num : Table → ℕ
col_num t = length t.data_cols

-- `rowNum`
unfoldable pub row_count : List (List ℕ) → ℕ
row_count [] = 0
row_count (col ∷ cols) = length col

unfoldable pub row_num : Table → ℕ
unfolding row_count
row_num t = row_count t.data_cols

-- `_dataCols[i].push_back(r[i])`, for every column.
unfoldable pub push_row : List (List ℕ) → List ℕ → List (List ℕ)
push_row (col ∷ cols) (v ∷ r) = (col ++ v ∷ []) ∷ push_row cols r
push_row cols _ = cols

-- `insert`; `none` is the exception on a wrong number of columns.
unfoldable pub insert_row : List ℕ → Table → Option Table
unfolding push_row col_num
insert_row r t =
    if length r == col_num t then some (record t { data_cols = push_row t.data_cols r }) else none

-- The loop of `colIndex`, over the columns that there are; `none` is -1.
unfoldable pub col_index_from : ℕ → String → List String → List (List ℕ) → Option ℕ
col_index_from i col_name (name ∷ names) (col ∷ cols) =
    let rest = col_index_from (suc i) col_name names cols in
    if same name col_name then some i else rest
col_index_from i col_name _ _ = none

-- `colIndex`
unfoldable pub col_index : String → Table → Option ℕ
unfolding col_index_from
col_index col_name t = col_index_from 0 col_name t.field_names t.data_cols
