-- ===== src/SystemManager/Tables.antt =====
-- The statements on the tables of the current database, and the rows that are inserted.
use Prim.Native.String.{String}
use mathlib.Core.Option
use mpc_package.Base.{◌≡◌, refl, ap, ◌∙◌, List, [], Option, none, some}
use mpc_package.Base.{lookup, insert}
use mpc_package.Table.{Table, new_table}
use mpc_package.Database.{Database, get_table, create_table, drop_table}
use mpc_package.SystemManager.{Manager, Message, Reply, failed, done, client_execute}
use mpc_package.SystemManager.{create_tb, drop_tb, Column, Fields}
use mpc_package.SystemManager.{ctb, dtb, collect}
use mpc_package.SystemManager.{server_execute}
use mpc_package.SystemManager.{current_database, store}
use mpc_package.SystemManager.{client_create_table, on_current}
use mpc_package.SystemManager.Mirror.{SameSchema, BothOrNone, SameDatabase}
use mpc_package.SystemManager.Mirror.{both_insert}
use mpc_package.SystemManager.Mirror.{Kept, store-Kept}
use mpc_package.SystemManager.Follow.{Follows}

abbrev pub no_fields : Fields
no_fields = record { names = []; key = ""; types = [] }

SameSchema-refl : (t : Table) → SameSchema t t
SameSchema-refl t = record {
  same_name = refl;
  same_fields = refl;
  same_key = refl;
  same_widths = refl;
  same_max = refl;
}

-- The current database after a table was created.
abbrev pub with_table : String → Fields → Database → Database
with_table name f d = record d {
  tables = insert name (new_table name f.names f.types f.key) d.tables;
}

pub create_table-absent :
    (name : String) (f : Fields) (d : Database)
    → lookup name d.tables ≡ none
    → create_table name f.names f.types f.key d ≡ some (with_table name f d)
unfolding create_table
create_table-absent name f d e = rw (e, create_table) refl

pub client_create_table-found :
    (name : String) (columns : List Column) (d : Database) (t : Table)
    → lookup name d.tables ≡ some t
    → client_create_table name columns d ≡ none
unfolding client_create_table get_table
client_create_table-found name columns d t e = rw (e, client_create_table) refl

pub client_create_table-refused :
    (name : String) (columns : List Column) (d : Database)
    → lookup name d.tables ≡ none
    → collect columns no_fields ≡ none
    → client_create_table name columns d ≡ none
unfolding client_create_table get_table
client_create_table-refused name columns d e f = rw (e, client_create_table) (rw f refl)

pub client_create_table-created :
    (name : String) (columns : List Column) (d : Database) (f : Fields)
    → lookup name d.tables ≡ none
    → collect columns no_fields ≡ some f
    → client_create_table name columns d
      ≡ some (with_table name f d, ctb name f.names f.key f.types)
unfolding client_create_table get_table
client_create_table-created name columns d f e g =
    rw (e, client_create_table) (rw g (rw (create_table-absent name f d e) refl))

with_table-SameDatabase :
    (name : String) (f : Fields) (d0 d1 : Database)
    → SameDatabase d0 d1
    → SameDatabase (with_table name f d0) (with_table name f d1)
with_table-SameDatabase name f d0 d1 r = record {
  same_name = r.same_name;
  same_tables =
      both_insert SameSchema name _ _ d0.tables d1.tables (SameSchema-refl _) r.same_tables;
}

-- The reply to a statement on the current database.
abbrev replied : Manager → String → Option (Database × Message) → Reply
replied c n none = failed c
replied c n (some (d, message)) = done (store n (some d) c) message

client_execute-create_tb :
    (name : String) (columns : List Column) (c : Manager) (n : String) (d : Database)
    (o : Option (Database × Message))
    → current_database c ≡ some (n, d)
    → client_create_table name columns d ≡ o
    → client_execute (create_tb name columns) c ≡ replied c n o
unfolding client_execute
client_execute-create_tb name columns c n d none e f = rw (e, client_execute) (rw f refl)
client_execute-create_tb name columns c n d (some (d', message)) e f =
    rw (e, client_execute) (rw f refl)

drop_table-absent :
    (name : String) (d : Database) → lookup name d.tables ≡ none → drop_table name d ≡ none
unfolding drop_table
drop_table-absent name d e = rw (e, drop_table) refl

drop_table-found :
    (name : String) (d : Database) (t : Table)
    → lookup name d.tables ≡ some t
    → drop_table name d ≡ some d
unfolding drop_table
drop_table-found name d t e = rw (e, drop_table) refl

client_execute-drop_tb :
    (name : String) (c : Manager) (n : String) (d : Database)
    → current_database c ≡ some (n, d)
    → client_execute (drop_tb name) c
      ≡ replied c n (Option.map (λ d'. (d', dtb name)) (drop_table name d))
unfolding client_execute
client_execute-drop_tb name c n d e = rw (e, client_execute) (by_result (drop_table name d))
  where
    by_result :
        (o : Option Database)
        → (elim o [ none ↦ failed c | some d' ↦ done (store n (some d') c) (dtb name) ])
          ≡ replied c n (Option.map (λ d'. (d', dtb name)) o)
    by_result none = refl
    by_result (some d') = refl

on_current-store :
    (f : Database → Option Database) (s : Manager) (n : String) (d : Database)
    → current_database s ≡ some (n, d)
    → on_current f s ≡ some (store n (f d) s)
unfolding on_current
on_current-store f s n d e = rw (e, on_current) refl

module _ {c s : Manager} (h : Kept c s) where
  pub create_tb-Follows :
      (name : String) (columns : List Column) (n : String) (d0 d1 : Database)
      → current_database c ≡ some (n, d0)
      → current_database s ≡ some (n, d1)
      → SameDatabase d0 d1
      → Follows (client_execute (create_tb name columns) c) s
  create_tb-Follows name columns n d0 d1 e0 e1 r =
      by_case (lookup name d0.tables) (lookup name d1.tables) (collect columns no_fields) refl refl
        refl (r.same_tables name)
    where
      by_case :
          (t0 t1 : Option Table) (f : Option Fields)
          → lookup name d0.tables ≡ t0
          → lookup name d1.tables ≡ t1
          → collect columns no_fields ≡ f
          → BothOrNone SameSchema t0 t1
          → Follows (client_execute (create_tb name columns) c) s
      by_case none none none p q g _ =
          rw
            (
              client_execute-create_tb name columns c n d0 none e0
                  (client_create_table-refused name columns d0 p g),
              Follows,
            )
            h
      by_case none none (some f) p q g _ =
          rw
            (
              client_execute-create_tb name columns c n d0 _ e0
                  (client_create_table-created name columns d0 f p g),
              Follows,
            )
            (
              store n (some (with_table name f d1)) s,
              (unfold server_execute in
                  on_current-store _ s n d1 e1
                  ∙ ap (λ o. some (store n o s)) (create_table-absent name f d1 q)),
              store-Kept n _ _ (with_table-SameDatabase name f d0 d1 r) h,
            )
      by_case (some t0) (some t1) f p q g _ =
          rw
            (
              client_execute-create_tb name columns c n d0 none e0
                  (client_create_table-found name columns d0 t0 p),
              Follows,
            )
            h
      by_case none (some _) f p q g b = absurd b
      by_case (some _) none f p q g b = absurd b

  pub drop_tb-Follows :
      (name : String) (n : String) (d0 d1 : Database)
      → current_database c ≡ some (n, d0)
      → current_database s ≡ some (n, d1)
      → SameDatabase d0 d1
      → Follows (client_execute (drop_tb name) c) s
  drop_tb-Follows name n d0 d1 e0 e1 r =
      by_case (lookup name d0.tables) (lookup name d1.tables) refl refl (r.same_tables name)
    where
      by_case :
          (t0 t1 : Option Table)
          → lookup name d0.tables ≡ t0
          → lookup name d1.tables ≡ t1
          → BothOrNone SameSchema t0 t1
          → Follows (client_execute (drop_tb name) c) s
      by_case none none p q _ =
          rw (client_execute-drop_tb name c n d0 e0, drop_table-absent name d0 p, Follows) h
      by_case (some t0) (some t1) p q _ =
          rw (client_execute-drop_tb name c n d0 e0, drop_table-found name d0 t0 p, Follows)
            (
              store n (some d1) s,
              (unfold server_execute in
                  on_current-store _ s n d1 e1
                  ∙ ap (λ o. some (store n o s)) (drop_table-found name d1 t1 q)),
              store-Kept n d0 d1 r h,
            )
      by_case none (some _) p q b = absurd b
      by_case (some _) none p q b = absurd b
