-- ===== src/Database.antt =====
-- common/Database.h and common/Database.cpp: a connection to the database file, and the calls of
-- SQLite that the methods are built from. The SQL statements are functions on the tables, in the
-- modules below; that a call fails for a reason of its own is the platform's choice.
pub mod Rows
pub mod Users
pub mod Groups
pub mod Vehicles
pub mod Tickets
pub mod Prices
pub mod Pool
use Rows.{Tables}
use protokol_javni_prevoz.Prelude.{
  ℕ, zero, suc, ◌+◌, ◌≡◌, Bool, true, false, not, Option, none, some, List, [], ◌∷◌, ◌++◌, ◌==◌,
  if◌then◌else◌,
}
use protokol_javni_prevoz.Text.{Str, str}
use protokol_javni_prevoz.Platform.{Platform}

-- The result codes that the program names: SQLITE_OK, ROW, DONE, CONSTRAINT, NOTFOUND, MISUSE; the
-- code -1 of its own; and any other.
pub data Rc : Type 0 where
  sqlite_ok sqlite_row sqlite_done sqlite_constraint sqlite_notfound sqlite_misuse own_error : Rc
  failure : ℕ → Rc

-- One Database object on the file. `calls` numbers what is asked of the platform.
pub record Database (Real : Type 0) : Type 0 where
  pub tables : Tables Real
  pub calls : ℕ
  pub foreign_keys : Bool
  pub last_error : Str
  pub last_error_code : Rc

-- A method: its result, and the object afterwards.
abbrev pub Db : Type 0 → Type 0 → Type 0
Db Real A = Database Real → A × Database Real

infixl 5 ◌>>=◌ ◌>>◌
abbrev pub ◌>>=◌ : {R A B : Type 0} → Db R A → (A → Db R B) → Db R B
◌>>=◌ m f db = let (a, db') = m db in f a db'

abbrev pub ◌>>◌ : {R B : Type 0} → Db R (Unit {0}) → Db R B → Db R B
m >> k = m >>= λ _. k

abbrev pub pure : {R A : Type 0} → A → Db R A
pure a db = (a, db)

-- Database::setLastError.
abbrev pub set_last_error : {R : Type 0} → Str → Rc → Db R (Unit {0})
set_last_error error code db = (tt, record db { last_error = error; last_error_code = code })

-- last_error_.clear(); last_error_code_ = 0.
abbrev pub clear_last_error : {R : Type 0} → Db R (Unit {0})
clear_last_error = set_last_error [] sqlite_ok

-- c_str(): a text is bound up to its first NUL.
unfoldable pub c_str : Str → Str
c_str [] = []
c_str (c ∷ s) = if c == 0 then [] else c ∷ c_str s

-- What a statement does to the tables: its code, the rows that it changed, the tables after it.
abbrev pub Statement : Type 0 → Type 0
Statement R = Tables R → Rc × ℕ × Tables R

-- The reads of sqlite3_step: a row, or SQLITE_DONE.
pub data Row {ℓ} (A : Type ℓ) : Type ℓ where
  row : A → Row A
  no_row : Row A
  failed : Rc → Row A

module _ (env : Platform) where
  open env use {Real, real_zero, is_nan, fault, errmsg, clock, local_time}

  -- A double behind sqlite3_bind_double, as sqlite3_column_double reads it: SQLite stores a NaN as
  -- NULL, and a NULL reads as 0.0. A row of a table here holds what is read.
  unfoldable pub stored_double : Real → Real
  stored_double r = if is_nan r then real_zero else r

  -- sqlite3_prepare_v2 in Database::prepareStatement.
  unfoldable pub prepare_statement : Db Real Bool
  prepare_statement db = elim (fault db.calls) [
    | none ↦ (true, record db { calls = db.calls + 1 })
    | some code ↦ (
      false,
      record db {
        calls = db.calls + 1;
        last_error = str "Failed to prepare statement: " ++ errmsg code;
        last_error_code = failure code;
      },
    )
  ]

  -- sqlite3_step of a statement that writes, with sqlite3_changes. A failed statement leaves the
  -- tables as they were.
  unfoldable pub step : Statement Real → Db Real (Rc × ℕ)
  step statement db = elim (fault db.calls) [
    | none ↦
        let (rc, changes, tables) = statement db.tables in
        ((rc, changes), record db { calls = db.calls + 1; tables = tables })
    | some code ↦ ((failure code, 0), record db { calls = db.calls + 1 })
  ]

  -- sqlite3_step of a SELECT, and its first row.
  unfoldable pub select : {A : Type 0} → (Tables Real → Option A) → Db Real (Row A)
  select query db = elim (fault db.calls) [
    | none ↦ (
      elim (query db.tables) [ none ↦ no_row | some a ↦ row a ],
      record db { calls = db.calls + 1 },
    )
    | some code ↦ (failed (failure code), record db { calls = db.calls + 1 })
  ]

  -- No call of SQLite fails from the n-th on, for `k` calls.
  abbrev pub NoFault : ℕ → ℕ → Type 0
  NoFault zero n = Unit {0}
  NoFault (suc k) n = (env.fault n ≡ none) × NoFault k (n + 1)

  -- nowISO.
  unfoldable pub now_iso : Db Real Str
  now_iso db = (local_time (clock db.calls), record db { calls = db.calls + 1 })

-- `if (rc != SQLITE_DONE) { setLastError(message, rc); return false; } return true;`
unfoldable pub expect_done : {R : Type 0} → Str → Rc → Db R Bool
expect_done message sqlite_done = pure true
expect_done message rc = do set_last_error message rc; pure false
