-- ===== src/InsertSupport.antt =====
-- `InsertSupport` (db/src/operator/InsertSupport.cpp): a client checks the values of a new row, and
-- shares the row out to the servers.
pub mod Parse
pub mod Row
pub mod Shared
pub mod Bucket
use Prim.Native.String.{String}
use text.Mathlib.Text.{starts_with}
use mpc_package.Base.{ℕ, zero, suc, ◌+◌, ◌-◌, ◌%◌, ◌^◌, List, [], ◌∷◌, ◌++◌, Option, none, some}
use mpc_package.Base.{Bool, true, false, not, ◌&&◌, ◌||◌, ltb, ◌==◌, if◌then◌else◌, same}
use mpc_package.Base.{length, get_or, bit_and}
use mpc_package.Word.{shl, sub, add, mul}
use mpc_package.Table.{Table, is_empty, bucket_tag, bucket_tag_prefix, col_num}
use mpc_package.Shares.{share_bool_batch}

-- `hsql::Expr`, as far as it is read: a literal integer, an operator on one, with whether it is the
-- unary minus, and anything else.
pub data Expr : Type 0 where
  int_literal : ℕ → Expr
  operator : Bool → ℕ → Expr
  other_expr : Expr

-- `hsql::InsertStatement`; without columns `columns` is null.
pub record InsertStatement : Type 0 where
  pub table_name : String
  pub columns : Option (List String)
  pub values : List Expr

pub data Refusal : Type 0 where
  no_table key_needed unmatched unknown_field bad_value out_of_range : Refusal

-- Before it parses the values the client tells the servers to wait for the shares of a row. If it
-- gives up after that it is `abandoned`.
pub data InsertReply : Type 0 where
  refused abandoned : Refusal → InsertReply
  inserted : List ℕ → InsertReply

-- `Views::hash` (db/src/basis/Views.cpp). The remainder of a negative number is negative.
unfoldable pub hash : ℕ → ℕ → ℕ
hash bucket_num key_value =
    let h = add (mul key_value 31) 17 in
    if ltb h (2 ^ 63) then h % bucket_num else sub 0 ((2 ^ 64 - h) % bucket_num)

-- `std::distance(names.begin(), std::find(…, name))`
unfoldable pub distance : String → List String → ℕ
distance name [] = 0
distance name (n ∷ names) = let rest = suc (distance name names) in if same n name then 0 else rest

unfoldable pub has : String → List String → Bool
has name [] = false
has name (n ∷ names) = same n name || has name names

-- The columns that are meant if the statement names none.
unfoldable pub own_columns : List String → List String
own_columns [] = []
own_columns (n ∷ names) =
    let rest = own_columns names in if starts_with n bucket_tag_prefix then rest else n ∷ rest

unfoldable pub columns_of : Table → Option (List String) → List String
unfolding own_columns
columns_of t none = own_columns t.field_names
columns_of t (some columns) = columns

-- `containsKey`
unfoldable pub contains_key : Table → Option (List String) → Bool
unfolding has
contains_key t none = not (is_empty t.key_field)
contains_key t (some columns) = not (is_empty t.key_field) || has t.key_field columns

-- Every column is a field of the table.
unfoldable pub all_known : List String → List String → Bool
unfolding has
all_known names [] = true
all_known names (c ∷ cols) = has c names && all_known names cols

-- The value of an expression; `garbage` is what the variable holds for another operator than minus.
unfoldable pub value_of : ℕ → Expr → Option ℕ
value_of garbage (int_literal ival) = some ival
value_of garbage (operator true ival) = some (sub 0 ival)
value_of garbage (operator false ival) = some garbage
value_of garbage other_expr = none

-- `type < 64 && masked != v`
unfoldable pub is_out_of_range : ℕ → ℕ → Bool
is_out_of_range type v = ltb type 64 && not (bit_and v (sub (shl 1 type) 1) == v)

-- `table->_fieldWidths[idx]`
unfoldable pub width_of : Table → String → ℕ
unfolding distance
width_of t col = get_or t.field_widths (distance col t.field_names) 0

-- `parsedValues` and `keyValue`
pub record ParsedValues : Type 0 where
  pub parsed : List ℕ
  pub key_value : ℕ

pub data ParseResult : Type 0 where
  gave_up : Refusal → ParseResult
  parsed_all : ParsedValues → ParseResult

abbrev pub put_first : ℕ → ParseResult → ParseResult
put_first v (gave_up r) = gave_up r
put_first v (parsed_all p) = parsed_all (record p { parsed = v ∷ p.parsed })

-- The loop over the values, each with its column.
unfoldable pub parse : ℕ → Table → List String → List Expr → ℕ → ParseResult
unfolding value_of is_out_of_range width_of
parse garbage t (col ∷ cols) (e ∷ es) key_value = elim (value_of garbage e) [
  | none ↦ gave_up bad_value
  | some v ↦
      let rest =
        put_first v (parse garbage t cols es (if same col t.key_field then v else key_value)) in
      if is_out_of_range (width_of t col) v then gave_up out_of_range else rest
]
parse garbage t _ _ key_value = parsed_all (record { parsed = []; key_value = key_value })

-- The loop that puts the values in the order of the fields.
unfoldable pub arrange : List String → List ℕ → List String → List ℕ
unfolding distance has
arrange cols parsed [] = []
arrange cols parsed (n ∷ names) =
    (if has n cols then get_or parsed (distance n cols) 0 else 0) ∷ arrange cols parsed names

-- `shareValues`
unfoldable pub share_values : ℕ → Table → List String → ParsedValues → List ℕ
unfolding arrange hash
share_values bucket_num t cols p =
    arrange (cols ++ bucket_tag t.key_field ∷ []) (p.parsed ++ hash bucket_num p.key_value ∷ [])
      t.field_names

abbrev pub reply_of : ℕ → Table → List String → ParseResult → InsertReply
reply_of bucket_num t cols (gave_up r) = abandoned r
reply_of bucket_num t cols (parsed_all p) = inserted (share_values bucket_num t cols p)

-- `clientInsert` on what the table's name stands for.
unfoldable pub client_insert : ℕ → ℕ → InsertStatement → Option Table → InsertReply
unfolding columns_of contains_key all_known parse share_values
client_insert bucket_num garbage stmt none = refused no_table
client_insert bucket_num garbage stmt (some t) =
    let cols = columns_of t stmt.columns in
    if not (contains_key t stmt.columns)
    then refused key_needed
    else if not (length cols == length stmt.values)
    then refused unmatched
    else if not (all_known t.field_names cols)
    then refused unknown_field
    else reply_of bucket_num t cols (parse garbage t cols stmt.values 0)

-- `Secrets::boolShare` of the row: what servers 0 and 1 are sent.
unfoldable pub send_row : Table → List ℕ → List ℕ → List ℕ × List ℕ
send_row t row rs = share_bool_batch row rs t.max_width
