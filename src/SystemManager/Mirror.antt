-- ===== src/SystemManager/Mirror.antt =====
-- The servers have the databases and tables of the client, and the current database exists.
use Prim.Native.String.{String}
use mathlib.Core.Option
use mathlib.Core.Path.{subst}
use mpc_package.Base.{◌≡◌, refl, sym, ap, ◌∙◌, arith, List, Option, none, some}
use mpc_package.Base.{Bool, true, false, if◌then◌else◌, lookup, insert, erase, same, same_iff}
use mpc_package.Base.{lookup-insert, lookup-erase}
use mpc_package.Table.{Table}
use mpc_package.Database.{Database}
use mpc_package.SystemManager.{Manager}
use mpc_package.SystemManager.{points_to, current_database, named, store}

-- The table of a client and that of a server, which differ in what the columns hold.
pub record SameSchema (t0 t1 : Table) : Type 0 where
  pub same_name : t0.table_name ≡ t1.table_name
  pub same_fields : t0.field_names ≡ t1.field_names
  pub same_key : t0.key_field ≡ t1.key_field
  pub same_widths : t0.field_widths ≡ t1.field_widths
  pub same_max : t0.max_width ≡ t1.max_width

-- Both are there and related, or neither is.
abbrev pub BothOrNone {ℓ} : {A : Type ℓ} → (A → A → Type 0) → Option A → Option A → Type 0
BothOrNone R none none = Unit {0}
BothOrNone R (some a) (some b) = R a b
BothOrNone R _ _ = ⊥

pub record SameDatabase (d0 d1 : Database) : Type 0 where
  pub same_name : d0.database_name ≡ d1.database_name
  pub same_tables : (t : String) → BothOrNone SameSchema (lookup t d0.tables) (lookup t d1.tables)

pub record Mirrors (c s : Manager) : Type 0 where
  pub same_databases :
      (n : String) → BothOrNone SameDatabase (lookup n c.databases) (lookup n s.databases)
  pub same_current : c.current ≡ s.current

-- What `_currentDatabase` points to is there.
abbrev pub Exists : List (String × Database) → Option String → Type 0
Exists databases none = Unit {0}
Exists databases (some name) = (d : Database) × (lookup name databases ≡ some d)

abbrev pub IsManager : Manager → Type 0
IsManager m = Exists m.databases m.current

module _ {V : Type 0} (R : V → V → Type 0) where
  pub both_insert :
      (k : String) (v w : V) (m0 m1 : List (String × V))
      → R v w
      → ((j : String) → BothOrNone R (lookup j m0) (lookup j m1))
      → (j : String) → BothOrNone R (lookup j (insert k v m0)) (lookup j (insert k w m1))
  both_insert k v w m0 m1 r h j =
      rw (lookup-insert k j v m0, lookup-insert k j w m1) (by_test (same k j))
    where
      by_test :
          (b : Bool)
          → BothOrNone R (if b then some v else lookup j m0) (if b then some w else lookup j m1)
      by_test true = r
      by_test false = h j

  pub both_erase :
      (k : String) (m0 m1 : List (String × V))
      → ((j : String) → BothOrNone R (lookup j m0) (lookup j m1))
      → (j : String) → BothOrNone R (lookup j (erase k m0)) (lookup j (erase k m1))
  both_erase k m0 m1 h j = rw (lookup-erase k j m0, lookup-erase k j m1) (by_test (same k j))
    where
      by_test :
          (b : Bool)
          → BothOrNone R (if b then none else lookup j m0) (if b then none else lookup j m1)
      by_test true = tt
      by_test false = h j

pub Exists-insert :
    (k : String) (v : Database) (m : List (String × Database)) (current : Option String)
    → Exists m current
    → Exists (insert k v m) current
Exists-insert k v m none h = tt
Exists-insert k v m (some name) h = by_test (same k name) refl
  where
    by_test : (b : Bool) → same k name ≡ b → Exists (insert k v m) (some name)
    by_test true e = (v, lookup-insert k name v m ∙ rw e refl)
    by_test false e = (h.0, lookup-insert k name v m ∙ rw e h.1)

same_swap : (s t : String) → same s t ≡ false → same t s ≡ false
same_swap s t e = ground (arith, same_iff s t, same_iff t s)

pub Exists-erase :
    (k : String) (m : List (String × Database)) (current : Option String)
    → Exists m current
    → Exists (erase k m) (if points_to k current then none else current)
unfolding points_to
Exists-erase k m none h = tt
Exists-erase k m (some name) h = by_test (same name k) refl
  where
    by_test :
        (b : Bool) → same name k ≡ b → Exists (erase k m) (if same name k then none else some name)
    by_test true e = rw e tt
    by_test false e = rw e (h.0, lookup-erase k name m ∙ rw (same_swap name k e) h.1)

-- A name that is not there is not that of the current database.
pub points_to-absent :
    (k : String) (m : List (String × Database)) (current : Option String)
    → Exists m current
    → lookup k m ≡ none
    → points_to k current ≡ false
unfolding points_to
points_to-absent k m none h e = refl
points_to-absent k m (some name) h e = by_test (same name k) refl
  where
    by_test : (b : Bool) → same name k ≡ b → same name k ≡ false
    by_test false f = f
    by_test true f = absurd (clash (sym h.1 ∙ ap (λ t. lookup t m) ((same_iff name k).0 f) ∙ e))
      where
        clash : {d : Database} → ◌≡◌ {A = Option Database} (some d) none → ⊥
        clash p = cc

-- The two pairs of a name and a database.
abbrev pub SamePair : String × Database → String × Database → Type 0
SamePair (n0, d0) (n1, d1) = (n0 ≡ n1) × SameDatabase d0 d1

pub current_database-Both :
    {c s : Manager} → Mirrors c s → BothOrNone SamePair (current_database c) (current_database s)
unfolding current_database
current_database-Both {c} {s} h =
    subst (λ o. BothOrNone SamePair (named c.databases c.current) (named s.databases o))
      h.same_current (by_current c.current)
  where
    by_lookup :
        (name : String) (o0 o1 : Option Database)
        → BothOrNone SameDatabase o0 o1
        → BothOrNone SamePair (Option.map (λ d. (name, d)) o0) (Option.map (λ d. (name, d)) o1)
    by_lookup name none none r = tt
    by_lookup name (some d0) (some d1) r = (refl, r)
    by_lookup name none (some _) r = absurd r
    by_lookup name (some _) none r = absurd r

    by_current :
        (o : Option String) → BothOrNone SamePair (named c.databases o) (named s.databases o)
    by_current none = unfold named in tt
    by_current (some name) =
        unfold named in
        by_lookup name (lookup name c.databases) (lookup name s.databases) (h.same_databases name)

abbrev pub Kept : Manager → Manager → Type 0
Kept c s = IsManager c × Mirrors c s

pub store-Kept :
    {c s : Manager} (name : String) (d0 d1 : Database)
    → SameDatabase d0 d1
    → Kept c s
    → Kept (store name (some d0) c) (store name (some d1) s)
unfolding store
store-Kept {c} {s} name d0 d1 r h = (
  Exists-insert name d0 c.databases c.current h.0,
  record {
    same_databases =
        both_insert SameDatabase name d0 d1 c.databases s.databases r h.1.same_databases;
    same_current = h.1.same_current;
  },
)
