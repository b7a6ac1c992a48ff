-- ===== src/SystemManager/Session.antt =====
-- Whatever a client asks for, and whatever rows are inserted, the servers keep up with the client.
use Prim.Native.String.{String}
use mathlib.Core.Option
use mathlib.Core.Path.{subst}
use mpc_package.Base.{ℕ, ◌≡◌, refl, sym, ap, ◌∙◌, List, Option, none, some}
use mpc_package.Base.{Bool, true, false, if◌then◌else◌, lookup, insert, length}
use mpc_package.Table.{Table, insert_row, col_num}
use mpc_package.Database.{Database, get_table}
use mpc_package.SystemManager.{Manager, Statement, Message, failed, done, client_execute}
use mpc_package.SystemManager.{create_db, drop_db, use_db, create_tb, drop_tb, other}
use mpc_package.SystemManager.{server_execute, server_insert}
use mpc_package.SystemManager.{current_database, named, store}
use mpc_package.SystemManager.{fill_table}
use mpc_package.SystemManager.Mirror.{SameSchema, BothOrNone, SameDatabase, Mirrors, IsManager}
use mpc_package.SystemManager.Mirror.{SamePair, current_database-Both, Kept}
use mpc_package.SystemManager.Follow.{Follows}
use mpc_package.Base.{same, same_iff, lookup-insert, Bool-cases, inl, inr, ◌==◌}
use mpc_package.SystemManager.{initial}
use mpc_package.SystemManager.Follow.{create_db-Follows, drop_db-Follows, use_db-Follows}
use mpc_package.SystemManager.Tables.{create_tb-Follows, drop_tb-Follows}

-- On whatever statement, and if the server has the databases and schemas of the client and the
-- current database exists, a statement that fails leaves them in step, and the message of one that
-- succeeds is carried out by the server, without a null pointer, and leaves them in step.
pub client_execute-Follows :
    (statement : Statement) (c s : Manager)
    → IsManager c
    → Mirrors c s
    → Follows (client_execute statement c) s
client_execute-Follows (create_db name) c s h m =
    create_db-Follows (h, m) name _ _ refl refl (m.same_databases name)
client_execute-Follows (drop_db name) c s h m =
    drop_db-Follows (h, m) name _ _ refl refl (m.same_databases name)
client_execute-Follows (use_db name) c s h m =
    use_db-Follows (h, m) name _ _ refl refl (m.same_databases name)
client_execute-Follows (create_tb name columns) c s h m =
    by_pair (current_database c) (current_database s) refl refl (current_database-Both m)
  where
    by_pair :
        (o0 o1 : Option (String × Database))
        → current_database c ≡ o0
        → current_database s ≡ o1
        → BothOrNone SamePair o0 o1
        → Follows (client_execute (create_tb name columns) c) s
    by_pair none none e0 e1 r = unfold client_execute in rw (e0, client_execute, Follows) (h, m)
    by_pair (some (n, d0)) (some (n', d1)) e0 e1 r =
        create_tb-Follows (h, m) name columns n d0 d1 e0 (e1 ∙ ap (λ t. some (t, d1)) (sym r.0)) r.1
    by_pair none (some _) e0 e1 r = absurd r
    by_pair (some _) none e0 e1 r = absurd r
client_execute-Follows (drop_tb name) c s h m =
    by_pair (current_database c) (current_database s) refl refl (current_database-Both m)
  where
    by_pair :
        (o0 o1 : Option (String × Database))
        → current_database c ≡ o0
        → current_database s ≡ o1
        → BothOrNone SamePair o0 o1
        → Follows (client_execute (drop_tb name) c) s
    by_pair none none e0 e1 r = unfold client_execute in rw (e0, client_execute, Follows) (h, m)
    by_pair (some (n, d0)) (some (n', d1)) e0 e1 r =
        drop_tb-Follows (h, m) name n d0 d1 e0 (e1 ∙ ap (λ t. some (t, d1)) (sym r.0)) r.1
    by_pair none (some _) e0 e1 r = absurd r
    by_pair (some _) none e0 e1 r = absurd r
client_execute-Follows other c s h m = unfold client_execute in (h, m)

-- A row changes no schema.
insert_row-SameSchema :
    (r : List ℕ) (t0 t t' : Table) → SameSchema t0 t → insert_row r t ≡ some t' → SameSchema t0 t'
unfolding insert_row
insert_row-SameSchema r t0 t t' h e = elim (Bool-cases (length r == col_num t)) [
  | inl p ↦ subst (SameSchema t0) (inside (rw p at e)) (record {
    same_name = h.same_name;
    same_fields = h.same_fields;
    same_key = h.same_key;
    same_widths = h.same_widths;
    same_max = h.same_max;
  })
  | inr p ↦ absurd (nothing (rw p at e))
]
  where
    inside : {a b : Table} → ◌≡◌ {A = Option Table} (some a) (some b) → a ≡ b
    inside e = cc

    nothing : {a : Table} → ◌≡◌ {A = Option Table} none (some a) → ⊥
    nothing e = cc

-- A client's entries, and those of a server where one of them was changed.
module _ {V : Type 0} (R : V → V → Type 0) where
  one_sided :
      (k : String) (t t' : V) (m0 m1 : List (String × V))
      → lookup k m1 ≡ some t
      → ((t0 : V) → R t0 t → R t0 t')
      → ((j : String) → BothOrNone R (lookup j m0) (lookup j m1))
      → (j : String) → BothOrNone R (lookup j m0) (lookup j (insert k t' m1))
  one_sided k t t' m0 m1 e keep h j = rw (lookup-insert k j t' m1) (by_test (same k j) refl)
    where
      moved : (o : Option V) → BothOrNone R o (some t) → BothOrNone R o (some t')
      moved none b = absurd b
      moved (some t0) b = keep t0 b

      by_test :
          (b : Bool)
          → same k j ≡ b
          → BothOrNone R (lookup j m0) (if b then some t' else lookup j m1)
      by_test false f = h j
      by_test true f = moved (lookup j m0) (
          subst (BothOrNone R (lookup j m0)) (ap (λ i. lookup i m1) (sym ((same_iff k j).0 f)) ∙ e)
            (h j))

-- Inversion of what the server's insertion goes through.
map-some :
    {A B : Type 0} (f : A → B) (o : Option A) (b : B)
    → Option.map f o ≡ some b
    → (a : A) × (o ≡ some a) × (f a ≡ b)
map-some {A} {B} f (some a) b e = (a, refl, inside e)
  where
    inside : {x y : B} → ◌≡◌ {A = Option B} (some x) (some y) → x ≡ y
    inside e = cc
map-some f none b e = cc

current_database-lookup :
    (m : Manager) (n : String) (d : Database)
    → current_database m ≡ some (n, d)
    → lookup n m.databases ≡ some d
unfolding current_database
current_database-lookup m n d e = by_current m.current e
  where
    by_current :
        (o : Option String) → named m.databases o ≡ some (n, d) → lookup n m.databases ≡ some d
    by_current none e = absurd (nothing (unfold named in e))
      where
        nothing : ◌≡◌ {A = Option (String × Database)} none (some (n, d)) → ⊥
        nothing e = cc
    by_current (some name) e =
        let found =
          map-some (λ x. (name, x)) (lookup name m.databases) (n, d) (unfold named in e) in
        ap (λ i. lookup i m.databases) (sym (ap (λ t. t.0) found.2))
        ∙ found.1
        ∙ ap (λ t. some t.1) found.2

fill_table-SameDatabase :
    (name : String) (r : List ℕ) (d0 d d' : Database)
    → SameDatabase d0 d
    → fill_table name r d ≡ some d'
    → SameDatabase d0 d'
unfolding fill_table get_table
fill_table-SameDatabase name r d0 d d' h e = by_table (lookup name d.tables) refl e
  where
    by_table :
        (o : Option Table)
        → lookup name d.tables ≡ o
        → (elim o [
          | none ↦ none
          | some t ↦
              Option.map (λ t'. record d { tables = insert name t' d.tables }) (insert_row r t)
        ])
          ≡ some d'
        → SameDatabase d0 d'
    by_table none f e = absurd (nothing e)
      where
        nothing : ◌≡◌ {A = Option Database} none (some d') → ⊥
        nothing e = cc
    by_table (some t) f e =
        let filled =
          map-some (λ t'. record d { tables = insert name t' d.tables }) (insert_row r t) d' e in
        subst (SameDatabase d0) filled.2 (record {
          same_name = h.same_name;
          same_tables =
              one_sided SameSchema name t filled.0 d0.tables d.tables f
                (λ t0 k. insert_row-SameSchema r t0 t filled.0 k filled.1) h.same_tables;
        })

-- A row that a server inserts leaves its databases and schemas those of the client.
pub server_insert-Mirrors :
    (name : String) (r : List ℕ) (c s s' : Manager)
    → Mirrors c s
    → server_insert name r s ≡ some s'
    → Mirrors c s'
unfolding server_insert
server_insert-Mirrors name r c s s' h e = by_pair (current_database s) refl e
  where
    by_pair :
        (o : Option (String × Database))
        → current_database s ≡ o
        → (elim o [
          | none ↦ none
          | some (n, d) ↦ Option.map (λ d'. store n (some d') s) (fill_table name r d)
        ])
          ≡ some s'
        → Mirrors c s'
    by_pair none f e = absurd (nothing e)
      where
        nothing : ◌≡◌ {A = Option Manager} none (some s') → ⊥
        nothing e = cc
    by_pair (some (n, d)) f e =
        let filled = map-some (λ d'. store n (some d') s) (fill_table name r d) s' e in
        subst (Mirrors c) filled.2 (
          unfold store in
          record {
            same_databases =
                one_sided SameDatabase n d filled.0 c.databases s.databases
                  (current_database-lookup s n d f)
                  (λ d0 k. fill_table-SameDatabase name r d0 d filled.0 k filled.1)
                  h.same_databases;
            same_current = h.same_current;
          })

-- A client and a server, from the start on: a statement that the client refuses, one that it carries
-- out and tells the server, or a row that the server inserts.
pub data Session : Manager → Manager → Type 0 where
  start : Session initial initial
  refuse :
      {c s c' : Manager} (statement : Statement)
      → Session c s
      → client_execute statement c ≡ failed c'
      → Session c' s
  obey :
      {c s c' s' : Manager} (statement : Statement) (message : Message)
      → Session c s
      → client_execute statement c ≡ done c' message
      → server_execute message s ≡ some s'
      → Session c' s'
  fill :
      {c s s' : Manager} (name : String) (r : List ℕ)
      → Session c s
      → server_insert name r s ≡ some s'
      → Session c s'

obeyed :
    (c' s s' : Manager) (message : Message)
    → server_execute message s ≡ some s'
    → Follows (done c' message) s
    → Kept c' s'
obeyed c' s s' message e f = subst (Kept c') (inside (sym f.1 ∙ e)) f.2
  where
    inside : {a b : Manager} → ◌≡◌ {A = Option Manager} (some a) (some b) → a ≡ b
    inside e = cc

-- In every session from the start on, whatever statements the client refuses or carries out and
-- whatever rows the server inserts, the current database exists and the server's databases and
-- schemas are those of the client.
pub Session-Kept : {c s : Manager} → Session c s → IsManager c × Mirrors c s
Session-Kept start =
    unfold initial in
    (tt, record { same_databases = λ n. unfold lookup in tt; same_current = refl })
Session-Kept (refuse {c} {s} {c'} statement h e) =
    subst (λ r. Follows r s) e
      (client_execute-Follows statement c s (Session-Kept h).0 (Session-Kept h).1)
Session-Kept (obey {c} {s} {c'} {s'} statement message h e f) = obeyed c' s s' message f (
    subst (λ r. Follows r s) e
      (client_execute-Follows statement c s (Session-Kept h).0 (Session-Kept h).1))
Session-Kept (fill {c} {s} {s'} name r h e) =
    ((Session-Kept h).0, server_insert-Mirrors name r c s s' (Session-Kept h).1 e)
