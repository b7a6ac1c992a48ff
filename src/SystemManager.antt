-- ===== src/SystemManager.antt =====
-- `SystemManager` (db/src/dbms/SystemManager.cpp) with `CreateSupport` and `DropSupport`
-- (db/src/operator): the databases of a client or of a server, what a client's statement changes and
-- tells the servers, and what a server does on a message.
pub mod Mirror
pub mod Follow
pub mod Session
pub mod Created
pub mod Tables
use Prim.Native.String.{String}
use Prim.Native.String as Str
use mpc_package.Base.{ℕ, ◌%◌, ◌^◌, List, [], ◌∷◌, ◌++◌, Option, none, some, Bool, true, false, ◌||◌}
use mpc_package.Base.{lookup, insert, erase, same, if◌then◌else◌, ◌==◌}
use mathlib.Core.Option
use mpc_package.Table.{is_empty, insert_row}
use mpc_package.Database.{Database, new_database, get_table, create_table, drop_table}

-- `_databases`, and the database that `_currentDatabase` points to.
pub record Manager : Type 0 where
  pub databases : List (String × Database)
  pub current : Option String

unfoldable pub initial : Manager
initial = record { databases = []; current = none }

-- `createDatabase`; in each of these `none` is the message of a failure.
unfoldable pub create_database : String → Manager → Option Manager
create_database db_name m = elim (lookup db_name m.databases) [
  | some _ ↦ none
  | none ↦ some (record m { databases = insert db_name (new_database db_name) m.databases })
]

-- `_currentDatabase && _currentDatabase->name() == dbName`
unfoldable pub points_to : String → Option String → Bool
points_to db_name none = false
points_to db_name (some name) = same name db_name

-- `dropDatabase`. The pointer is cleared before the name is looked up.
unfoldable pub drop_database : String → Manager → Manager × Bool
unfolding points_to
drop_database db_name m =
    let current' = if points_to db_name m.current then none else m.current in
    elim (lookup db_name m.databases) [
      | some _ ↦ (record { databases = erase db_name m.databases; current = current' }, true)
      | none ↦ (record m { current = current' }, false)
    ]

-- `useDatabase`
unfoldable pub use_database : String → Manager → Option Manager
use_database db_name m = elim (lookup db_name m.databases) [
  | some _ ↦ some (record m { current = some db_name })
  | none ↦ none
]

-- `*_currentDatabase`, with its name.
unfoldable pub named : List (String × Database) → Option String → Option (String × Database)
named databases none = none
named databases (some name) = Option.map (λ d. (name, d)) (lookup name databases)

unfoldable pub current_database : Manager → Option (String × Database)
unfolding named
current_database m = named m.databases m.current

-- The current database after a change; a change that fails leaves it as it is.
unfoldable pub store : String → Option Database → Manager → Manager
store name none m = m
store name (some d) m = record m { databases = insert name d m.databases }

-- The messages to the servers, by their prefixes `cdb`, `ddb`, `udb`, `ctb` and `dtb`.
pub data Message : Type 0 where
  cdb : String → Message
  ddb : String → Message
  udb : String → Message
  ctb : String → List String → String → List ℕ → Message
  dtb : String → Message

-- `hsql::ColumnDefinition`, as far as it is read: its constraints, each of them a primary key or
-- another one, and its type, with the length of an integer.
pub data DataType : Type 0 where
  boolean : DataType
  int : ℕ → DataType
  other_type : DataType

pub data Constraint : Type 0 where
  primary_key other_constraint : Constraint

pub record Column : Type 0 where
  pub name : String
  pub column_constraints : List Constraint
  pub data_type : DataType

-- The statements that change what databases and tables there are. `create` of something else than a
-- table, and `drop` of it, are `other`.
pub data Statement : Type 0 where
  create_db : String → Statement
  drop_db : String → Statement
  use_db : String → Statement
  create_tb : String → List Column → Statement
  drop_tb : String → Statement
  other : Statement

-- `column_constraints->size() != 1 || *begin() != PrimaryKey` fails.
unfoldable pub is_primary_key : List Constraint → Bool
is_primary_key (primary_key ∷ []) = true
is_primary_key _ = false

-- `keyField = *column->name`: the text of the first character. Names are ASCII.
unfoldable pub first_char : String → String
first_char name = Str.◌∷◌ (Str.char_at name 0) Str.[]

-- The key field after a column; `none` is the failure.
unfoldable pub next_key : Column → String → Option String
unfolding is_primary_key first_char
next_key c key_field = elim c.column_constraints [
  | [] ↦ some key_field
  | x ∷ xs ↦
      if is_empty key_field
      then (if is_primary_key (x ∷ xs) then some (first_char c.name) else none)
      else some key_field
]

-- `static_cast<int>(length)` is one of the lengths of an integer.
unfoldable pub is_int_length : ℕ → Bool
is_int_length t = t == 2 || t == 4 || t == 8 || t == 16 || t == 32 || t == 64

unfoldable pub type_of : DataType → Option ℕ
unfolding is_int_length
type_of boolean = some 1
type_of (int l) = let t = l % 2 ^ 32 in if is_int_length t then some t else none
type_of other_type = none

-- What the loop over the columns collects.
pub record Fields : Type 0 where
  pub names : List String
  pub key : String
  pub types : List ℕ

unfoldable pub collect : List Column → Fields → Option Fields
unfolding next_key type_of
collect [] f = some f
collect (c ∷ cs) f = elim (next_key c f.key) [
  | none ↦ none
  | some key' ↦ elim (type_of c.data_type) [
    | none ↦ none
    | some t ↦
        collect cs
          (record { names = f.names ++ c.name ∷ []; key = key'; types = f.types ++ t ∷ [] })
  ]
]

-- `clientCreateTable` on the current database, and the message to the servers.
unfoldable pub client_create_table : String → List Column → Database → Option (Database × Message)
unfolding collect
client_create_table table_name columns d = elim (get_table table_name d) [
  | some _ ↦ none
  | none ↦ elim (collect columns (record { names = []; key = ""; types = [] })) [
    | none ↦ none
    | some f ↦ elim (create_table table_name f.names f.types f.key d) [
      | none ↦ none
      | some d' ↦ some (d', ctb table_name f.names f.key f.types)
    ]
  ]
]

-- A client's statement that fails, or that changes the client's state and sends a message.
pub data Reply : Type 0 where
  failed : Manager → Reply
  done : Manager → Message → Reply

-- `clientCreateOrDeleteDb`, `clientUseDb` and `clientDropTable` after the names have been read.
unfoldable pub client_execute : Statement → Manager → Reply
client_execute (create_db name) m = elim (create_database name m) [
  | none ↦ failed m
  | some m' ↦ done m' (cdb name)
]
client_execute (drop_db name) m =
    let (m', found) = drop_database name m in if found then done m' (ddb name) else failed m'
client_execute (use_db name) m = elim (use_database name m) [
  | none ↦ failed m
  | some m' ↦ done m' (udb name)
]
client_execute (create_tb name columns) m = elim (current_database m) [
  | none ↦ failed m
  | some (db_name, d) ↦ elim (client_create_table name columns d) [
    | none ↦ failed m
    | some (d', message) ↦ done (store db_name (some d') m) message
  ]
]
client_execute (drop_tb name) m = elim (current_database m) [
  | none ↦ failed m
  | some (db_name, d) ↦ elim (drop_table name d) [
    | none ↦ failed m
    | some d' ↦ done (store db_name (some d') m) (dtb name)
  ]
]
client_execute other m = failed m

abbrev pub or_same : Manager → Option Manager → Manager
or_same m none = m
or_same m (some m') = m'

-- A change of the current database at a server, which does not test the pointer: `none` is a null
-- pointer that is dereferenced.
unfoldable pub on_current : (Database → Option Database) → Manager → Option Manager
on_current f m = elim (current_database m) [
  | none ↦ none
  | some (name, d) ↦ some (store name (f d) m)
]

-- A round of `serverExecute`, whose failures change nothing.
unfoldable pub server_execute : Message → Manager → Option Manager
unfolding on_current
server_execute (cdb name) m = some (or_same m (create_database name m))
server_execute (ddb name) m = some (drop_database name m).0
server_execute (udb name) m = some (or_same m (use_database name m))
server_execute (ctb name field_names key_field field_types) m =
    on_current (create_table name field_names field_types key_field) m
server_execute (dtb name) m = on_current (drop_table name) m

-- `serverInsert` of a row of shares (db/src/operator/InsertSupport.cpp); `none` is a null pointer
-- or the exception on a wrong number of columns.
unfoldable pub fill_table : String → List ℕ → Database → Option Database
fill_table table_name r d = elim (get_table table_name d) [
  | none ↦ none
  | some t ↦ Option.map (λ t'. record d { tables = insert table_name t' d.tables }) (insert_row r t)
]

unfoldable pub server_insert : String → List ℕ → Manager → Option Manager
unfolding fill_table
server_insert table_name r m = elim (current_database m) [
  | none ↦ none
  | some (name, d) ↦ Option.map (λ d'. store name (some d') m) (fill_table table_name r d)
]
