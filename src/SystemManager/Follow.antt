-- ===== src/SystemManager/Follow.antt =====
-- A server that follows a client's messages keeps up with it.
use Prim.Native.String.{String}
use mpc_package.Base.{◌≡◌, refl, ap, Option, none, some}
use mpc_package.Base.{true, false, if◌then◌else◌, lookup, insert, erase}
use mpc_package.Database.{Database, new_database}
use mpc_package.SystemManager.{Manager, Reply, failed, done, client_execute}
use mpc_package.SystemManager.{create_db, drop_db, use_db}
use mpc_package.SystemManager.{server_execute, create_database, drop_database}
use mpc_package.SystemManager.{use_database, points_to, or_same}
use mpc_package.SystemManager.Mirror.{BothOrNone, SameDatabase}
use mpc_package.SystemManager.Mirror.{both_insert, both_erase, Exists-insert, Exists-erase}
use mpc_package.SystemManager.Mirror.{points_to-absent, Kept}

-- A statement at the client, and its message at a server.
abbrev pub Follows : Reply → Manager → Type 0
Follows (failed c') s = Kept c' s
Follows (done c' message) s = (s' : Manager) × (server_execute message s ≡ some s') × Kept c' s'

drop_database-absent :
    (name : String) (m : Manager)
    → lookup name m.databases ≡ none
    → points_to name m.current ≡ false
    → drop_database name m ≡ (m, false)
unfolding drop_database
drop_database-absent name m e p = rw (e, drop_database) (rw p refl)

create_database-absent :
    (name : String) (m : Manager)
    → lookup name m.databases ≡ none
    → create_database name m
      ≡ some (record m { databases = insert name (new_database name) m.databases })
unfolding create_database
create_database-absent name m e = rw (e, create_database) refl

create_database-found :
    (name : String) (m : Manager) (d : Database)
    → lookup name m.databases ≡ some d
    → create_database name m ≡ none
unfolding create_database
create_database-found name m d e = rw (e, create_database) refl

use_database-absent :
    (name : String) (m : Manager) → lookup name m.databases ≡ none → use_database name m ≡ none
unfolding use_database
use_database-absent name m e = rw (e, use_database) refl

use_database-found :
    (name : String) (m : Manager) (d : Database)
    → lookup name m.databases ≡ some d
    → use_database name m ≡ some (record m { current = some name })
unfolding use_database
use_database-found name m d e = rw (e, use_database) refl

drop_database-found :
    (name : String) (m : Manager) (d : Database)
    → lookup name m.databases ≡ some d
    → drop_database name m ≡ (
      record {
        databases = erase name m.databases;
        current = if points_to name m.current then none else m.current;
      },
      true,
    )
unfolding drop_database
drop_database-found name m d e = rw (e, drop_database) refl

module _ {c s : Manager} (h : Kept c s) where
  pub create_db-Follows :
      (name : String) (o0 o1 : Option Database)
      → lookup name c.databases ≡ o0
      → lookup name s.databases ≡ o1
      → BothOrNone SameDatabase o0 o1
      → Follows (client_execute (create_db name) c) s
  unfolding client_execute server_execute
  create_db-Follows name none none e0 e1 r =
      rw (create_database-absent name c e0, Follows)
        (
          record s { databases = insert name (new_database name) s.databases },
          ap (λ o. some (or_same s o)) (create_database-absent name s e1),
          (
            Exists-insert name (new_database name) c.databases c.current h.0,
            record {
              same_databases =
                  both_insert SameDatabase name (new_database name) (new_database name) c.databases
                    s.databases
                    (record {
                      same_name = refl;
                      same_tables = λ t. unfold new_database lookup in tt;
                    })
                    h.1.same_databases;
              same_current = h.1.same_current;
            },
          ),
        )
  create_db-Follows name (some d0) (some d1) e0 e1 r =
      rw (create_database-found name c d0 e0, Follows) h
  create_db-Follows name none (some d1) e0 e1 r = absurd r
  create_db-Follows name (some d0) none e0 e1 r = absurd r

  pub drop_db-Follows :
      (name : String) (o0 o1 : Option Database)
      → lookup name c.databases ≡ o0
      → lookup name s.databases ≡ o1
      → BothOrNone SameDatabase o0 o1
      → Follows (client_execute (drop_db name) c) s
  unfolding client_execute server_execute
  drop_db-Follows name none none e0 e1 r =
      rw
        (
          drop_database-absent name c e0 (points_to-absent name c.databases c.current h.0 e0),
          Follows,
        )
        h
  drop_db-Follows name (some d0) (some d1) e0 e1 r =
      rw (drop_database-found name c d0 e0, Follows)
        (
          record {
            databases = erase name s.databases;
            current = if points_to name s.current then none else s.current;
          },
          ap (λ p. some p.0) (drop_database-found name s d1 e1),
          (
            Exists-erase name c.databases c.current h.0,
            record {
              same_databases =
                  both_erase SameDatabase name c.databases s.databases h.1.same_databases;
              same_current = ap (λ o. if points_to name o then none else o) h.1.same_current;
            },
          ),
        )
  drop_db-Follows name none (some d1) e0 e1 r = absurd r
  drop_db-Follows name (some d0) none e0 e1 r = absurd r

  pub use_db-Follows :
      (name : String) (o0 o1 : Option Database)
      → lookup name c.databases ≡ o0
      → lookup name s.databases ≡ o1
      → BothOrNone SameDatabase o0 o1
      → Follows (client_execute (use_db name) c) s
  unfolding client_execute server_execute
  use_db-Follows name none none e0 e1 r = rw (use_database-absent name c e0, Follows) h
  use_db-Follows name (some d0) (some d1) e0 e1 r =
      rw (use_database-found name c d0 e0, Follows)
        (
          record s { current = some name },
          ap (λ o. some (or_same s o)) (use_database-found name s d1 e1),
          ((d0, e0), record { same_databases = h.1.same_databases; same_current = refl }),
        )
  use_db-Follows name none (some d1) e0 e1 r = absurd r
  use_db-Follows name (some d0) none e0 e1 r = absurd r
