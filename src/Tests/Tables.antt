-- ===== src/Tests/Tables.antt =====
-- The catalogue of a client and the servers, and the insertion of rows.
use mpc_package.Base.{◌≡◌, refl, arith, some, none, [], ◌∷◌, List, lookup, insert}
use mpc_package.Table.{Table, new_table, insert_row}
use mpc_package.Table.Shape.{IsTable, InsertedRow, new_table-IsTable, insert_row-InsertedRow}
use mpc_package.Database.{Database, new_database, drop_table, create_table, get_table}
use mpc_package.SystemManager.{Manager, initial, Column, int, primary_key, create_db, cdb}
use mpc_package.SystemManager.{
  client_execute, server_execute, create_database, client_create_table, ctb,
}
use mpc_package.SystemManager.Mirror.{IsManager, Mirrors}
use mpc_package.SystemManager.Follow.{Follows}
use mpc_package.SystemManager.Session.{Session, start, obey, client_execute-Follows, Session-Kept}
use mpc_package.SystemManager.Created.{CreatedTable, client_create_table-CreatedTable}
use mpc_package.SystemManager.Created.{create_table-drop_table}
use mpc_package.InsertSupport.{InsertStatement, int_literal, client_insert, has}
use mpc_package.InsertSupport.Row.{
  RowFits, client_insert-RowFits, IsRefused, client_insert-IsRefused,
}
use mpc_package.InsertSupport.{own_columns, columns_of}
use mpc_package.InsertSupport.Bucket.{InFirstBucket, client_insert-InFirstBucket}
use mpc_package.InsertSupport.Shared.{Stored, client_insert-Stored}

-- A table with a key and a column of 8 bits.
abbrev keyed : Table
keyed = new_table "t" ("id" ∷ "v" ∷ []) (32 ∷ 8 ∷ []) "id"

abbrev keyless : Table
keyless = new_table "t" ("id" ∷ "v" ∷ []) (32 ∷ 8 ∷ []) ""

abbrev columns : List Column
columns =
    record { name = "id"; column_constraints = primary_key ∷ []; data_type = int 32 }
    ∷ record { name = "v"; column_constraints = []; data_type = int 8 }
    ∷ []

abbrev seven : InsertStatement
seven = record { table_name = "t"; columns = none; values = int_literal 7 ∷ int_literal 200 ∷ [] }

-- The key of the created table is the first character of `id`.
abbrev made : Table
made = new_table "t" ("id" ∷ "v" ∷ []) (32 ∷ 8 ∷ []) "i"

abbrev database : Database
database = record { database_name = "d"; tables = insert "t" made [] }

abbrev opened : Manager
opened = record { databases = insert "d" (new_database "d") []; current = none }

keyed-IsTable : IsTable 0 keyed
keyed-IsTable = new_table-IsTable "t" ("id" ∷ "v" ∷ []) (32 ∷ 8 ∷ []) "id" refl

insert_row-InsertedRow_example :
    InsertedRow 0 (7 ∷ 200 ∷ 5 ∷ []) keyed (insert_row (7 ∷ 200 ∷ 5 ∷ []) keyed)
insert_row-InsertedRow_example = insert_row-InsertedRow 0 (7 ∷ 200 ∷ 5 ∷ []) keyed keyed-IsTable

client_execute-Follows_example : Follows (client_execute (create_db "d") initial) initial
client_execute-Follows_example =
    client_execute-Follows (create_db "d") initial initial (Session-Kept start).0
      (Session-Kept start).1

-- A client that has created a database, with its server.
opened-Session : Session opened opened
unfolding client_execute server_execute initial create_database lookup
opened-Session = obey (create_db "d") (cdb "d") start refl refl

Session-Kept_example : IsManager opened × Mirrors opened opened
Session-Kept_example = Session-Kept opened-Session

created_database :
    client_create_table "t" columns (new_database "d")
    ≡ some (database, ctb "t" ("id" ∷ "v" ∷ []) "i" (32 ∷ 8 ∷ []))
unfolding client_create_table new_database lookup get_table create_table
created_database = refl

client_create_table-CreatedTable_example : CreatedTable "t" columns (new_database "d") database
client_create_table-CreatedTable_example =
    client_create_table-CreatedTable "t" columns (new_database "d") database _ created_database

create_table-drop_table_example : create_table "t" [] [] "" database ≡ none
unfolding drop_table lookup insert
create_table-drop_table_example = create_table-drop_table "t" [] [] "" database database refl

client_insert-RowFits_example : RowFits keyed (client_insert 8 0 seven (some keyed))
client_insert-RowFits_example =
    client_insert-RowFits 8 0 seven keyed (omega arith) (omega arith, (omega arith, tt))

client_insert-IsRefused_example : IsRefused (client_insert 8 0 seven (some keyless))
unfolding new_table has
client_insert-IsRefused_example = client_insert-IsRefused 8 0 seven keyless refl refl

client_insert-Stored_example :
    Stored 0 keyed (11 ∷ 12 ∷ 13 ∷ []) keyed keyed (client_insert 8 0 seven (some keyed))
unfolding new_table
client_insert-Stored_example =
    client_insert-Stored 0 keyed keyed keyed (11 ∷ 12 ∷ 13 ∷ []) keyed-IsTable keyed-IsTable refl
      refl (omega arith) refl 8 0 seven (omega arith) (omega arith, (omega arith, tt))

-- The statement on the table as it is made gives no value to the column `i`, the key field.
client_insert-InFirstBucket_example : InFirstBucket 8 made (client_insert 8 0 seven (some made))
unfolding new_table has own_columns columns_of
client_insert-InFirstBucket_example = client_insert-InFirstBucket 8 0 seven made refl refl
