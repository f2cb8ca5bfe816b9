-- ===== src/Database/Pool.antt =====
-- Database::initialize and class DatabasePool, common/Database.cpp: connections on one file, lent
-- one at a time. A connection is named by its index.
pub mod Lending
use protokol_javni_prevoz.Prelude.{
  ℕ, zero, suc, ◌+◌, ◌≡◌, Bool, true, false, not, ◌&&◌, Option, none, some, List, [], ◌∷◌, ◌++◌,
  ltb, length, take, drop, if◌then◌else◌,
}
use protokol_javni_prevoz.Text.{Str, str}
use protokol_javni_prevoz.Platform.{Platform}
use protokol_javni_prevoz.Database.Rows.{Tables}
use protokol_javni_prevoz.Database.{Rc, sqlite_ok, failure, Database, Db, ◌>>=◌, ◌>>◌, pure}

-- What a Database object keeps for itself.
pub record Conn : Type 0 where
  pub foreign_keys : Bool
  pub last_error : Str
  pub last_error_code : Rc

-- What the connections share.
pub record File (Real : Type 0) : Type 0 where
  pub tables : Tables Real
  pub calls : ℕ

pub record Pool (Real : Type 0) : Type 0 where
  pub connections : List Conn
  pub available : List Bool
  pub initialized : Bool
  pub file : File Real

-- Database::Database.
abbrev pub fresh : Conn
fresh = record { foreign_keys = false; last_error = []; last_error_code = sqlite_ok }

abbrev pub attach : {R : Type 0} → Conn → File R → Database R
attach c f = record {
  tables = f.tables;
  calls = f.calls;
  foreign_keys = c.foreign_keys;
  last_error = c.last_error;
  last_error_code = c.last_error_code;
}

abbrev pub conn_of : {R : Type 0} → Database R → Conn
conn_of db = record {
  foreign_keys = db.foreign_keys;
  last_error = db.last_error;
  last_error_code = db.last_error_code;
}

abbrev pub file_of : {R : Type 0} → Database R → File R
file_of db = record { tables = db.tables; calls = db.calls }

unfoldable pub conn_at : List Conn → ℕ → Conn
conn_at [] i = fresh
conn_at (c ∷ cs) zero = c
conn_at (c ∷ cs) (suc i) = conn_at cs i

unfoldable pub set_at {ℓ} : {A : Type ℓ} → List A → ℕ → A → List A
set_at [] i a = []
set_at (x ∷ xs) zero a = a ∷ xs
set_at (x ∷ xs) (suc i) a = x ∷ set_at xs i a

-- A method called on the i-th connection.
unfoldable pub with_connection : {R A : Type 0} → ℕ → Db R A → Pool R → A × Pool R
with_connection i m p =
    let (a, db) = m (attach (conn_at p.connections i) p.file) in
    (a, record p { connections = set_at p.connections i (conn_of db); file = file_of db })

-- The loop of getConnection: the first free index.
unfoldable pub first_available : List Bool → Option ℕ
first_available [] = none
first_available (true ∷ bs) = some 0
first_available (false ∷ bs) = elim (first_available bs) [ none ↦ none | some i ↦ some (suc i) ]

unfoldable pub lend : {R : Type 0} → Pool R → Option ℕ → Option (ℕ × Pool R)
lend p none = none
lend p (some i) = some (i, record p { available = set_at p.available i false })

-- DatabasePool::getConnection; `none` stands for a caller that waits.
unfoldable pub get_connection : {R : Type 0} → Pool R → Option (ℕ × Pool R)
unfolding lend
get_connection p = lend p (first_available p.available)

-- DatabasePool::returnConnection.
unfoldable pub return_connection : {R : Type 0} → ℕ → Pool R → Pool R
return_connection i p =
    if ltb i (length p.connections) then record p { available = set_at p.available i true } else p

-- DatabasePool::shutdown.
unfoldable pub shutdown : {R : Type 0} → Pool R → Pool R
shutdown p = record p { connections = []; available = []; initialized = false }

-- vector::resize with a value for the new places.
unfoldable pub resize {ℓ} : {A : Type ℓ} → ℕ → A → List A → List A
resize zero a xs = []
resize (suc n) a [] = a ∷ resize n a []
resize (suc n) a (x ∷ xs) = x ∷ resize n a xs

module _ (env : Platform) where
  open env use {Real, fault, errmsg}

  call_or_fail : Str → (Database Real → Database Real) → Db Real Bool
  call_or_fail message effect db = elim (fault db.calls) [
    | none ↦ (true, record (effect db) { calls = db.calls + 1 })
    | some code ↦ (
      false,
      record db {
        calls = db.calls + 1;
        last_error = message ++ errmsg code;
        last_error_code = failure code;
      },
    )
  ]

  -- Database::executeSQL, with what the statement does to the object.
  unfoldable pub execute_sql : (Database Real → Database Real) → Db Real Bool
  unfolding call_or_fail
  execute_sql effect = call_or_fail [] effect

  -- Database::createTables: CREATE TABLE IF NOT EXISTS, `n` times, until one fails.
  unfoldable pub create_tables : ℕ → Db Real Bool
  create_tables zero = pure true
  create_tables (suc n) = do
    created ← execute_sql (λ db. db)
    let rest = create_tables n
    if created then rest else pure false

  -- Database::initialize. The result of the pragma is not looked at.
  unfoldable pub initialize : Db Real Bool
  unfolding call_or_fail
  initialize = do
    opened ← call_or_fail (str "Failed to open database: ") (λ db. db)
    if not opened
        then pure false
        else do execute_sql (λ db. record db { foreign_keys = true }) >>= λ _. create_tables 8

  -- The loop of DatabasePool::initialize. After a failure the places that are left keep what they
  -- had; null places at the end are left out.
  unfoldable pub initialize_connections : ℕ → List Conn → File Real → Bool × List Conn × File Real
  initialize_connections zero old f = (true, [], f)
  initialize_connections (suc n) old f =
      let (good, db) = initialize (attach fresh f) in
      let (all, cs, f') = initialize_connections n (drop 1 old) (file_of db) in
      if good
      then (all, conn_of db ∷ cs, f')
      else (false, conn_of db ∷ take n (drop 1 old), file_of db)

  -- DatabasePool::initialize.
  unfoldable pub initialize_pool : ℕ → Pool Real → Bool × Pool Real
  initialize_pool pool_size p =
      let (all, cs, f) = initialize_connections pool_size p.connections p.file in
      (
        all,
        record {
          connections = cs;
          available = resize pool_size true p.available;
          initialized = if all then true else p.initialized;
          file = f;
        },
      )
