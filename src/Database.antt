-- ===== src/Database.antt =====
-- `Database` (db/src/basis/Database.cpp): the tables of a database by their names.
use Prim.Native.String.{String}
use mpc_package.Base.{ℕ, List, [], Option, none, some, lookup, insert}
use mpc_package.Table.{Table, new_table}

pub record Database : Type 0 where
  pub database_name : String
  pub tables : List (String × Table)

-- The constructor.
unfoldable pub new_database : String → Database
new_database name = record { database_name = name; tables = [] }

-- `getTable`
unfoldable pub get_table : String → Database → Option Table
get_table table_name d = lookup table_name d.tables

-- `createTable`; `none` is the message that the table exists.
unfoldable pub create_table : String → List String → List ℕ → String → Database → Option Database
create_table table_name field_names field_widths key_field d = elim (lookup table_name d.tables) [
  | some _ ↦ none
  | none ↦ some (record d {
    tables = insert table_name (new_table table_name field_names field_widths key_field) d.tables;
  })
]

-- `dropTable`, which only looks the table up; `none` is the message that there is none.
unfoldable pub drop_table : String → Database → Option Database
drop_table table_name d = elim (lookup table_name d.tables) [ none ↦ none | some _ ↦ some d ]
