-- ===== src/Database/Users.antt =====
-- The table `users` and its methods, common/Database.cpp.
pub mod Registration
pub mod Refinement
use protokol_javni_prevoz.Prelude.{
  ℕ, ◌≡◌, Bool, true, false, not, ◌&&◌, ◌||◌, Option, none, some, List, [], ◌∷◌, ◌++◌, ◌==◌,
  if◌then◌else◌,
}
use protokol_javni_prevoz.Text.{Str, str, eq_str}
use protokol_javni_prevoz.Text.Decimal.{nat_to_string}
use protokol_javni_prevoz.Platform.{Platform}
use protokol_javni_prevoz.Database.Rows.{User, Group, Member, Ticket, Tables}
use protokol_javni_prevoz.Database.{
  Rc, sqlite_done, sqlite_constraint, Database, Db, ◌>>=◌, ◌>>◌, pure, set_last_error, c_str,
  Statement, Row, row, no_row, failed, prepare_statement, step, select, expect_done,
}

unfoldable pub find_user : Str → List User → Option User
find_user urn [] = none
find_user urn (u ∷ us) = if eq_str u.urn urn then some u else find_user urn us

unfoldable pub has_user : Str → List User → Bool
has_user urn users = elim (find_user urn users) [ none ↦ false | some u ↦ true ]

-- The row that the bound parameters make.
unfoldable pub user_row : User → User
user_row u = record u {
  urn = c_str u.urn;
  name = c_str u.name;
  registration_date = c_str u.registration_date;
  pin_hash = c_str u.pin_hash;
}

-- INSERT INTO users, with its primary key.
unfoldable pub insert_user : {R : Type 0} → User → Statement R
insert_user u t =
    if has_user u.urn t.users
    then (sqlite_constraint, 0, t)
    else (sqlite_done, 1, record t { users = t.users ++ u ∷ [] })

-- UPDATE users ... WHERE urn = ?
unfoldable pub replace_user : User → List User → List User
replace_user u [] = []
replace_user u (w ∷ us) = (if eq_str w.urn u.urn then u else w) ∷ replace_user u us

unfoldable pub update_user_row : {R : Type 0} → User → Statement R
update_user_row u t = (
  sqlite_done,
  if has_user u.urn t.users then 1 else 0,
  record t { users = replace_user u t.users },
)

unfoldable pub remove_user : Str → List User → List User
remove_user urn [] = []
remove_user urn (u ∷ us) =
    let rest = remove_user urn us in if eq_str u.urn urn then rest else u ∷ rest

unfoldable pub leads_group : Str → List Group → Bool
leads_group urn [] = false
leads_group urn (g ∷ gs) = eq_str g.leader_urn urn || leads_group urn gs

unfoldable pub is_member : Str → List Member → Bool
is_member urn [] = false
is_member urn (m ∷ ms) = eq_str m.member_urn urn || is_member urn ms

unfoldable pub has_ticket : {R : Type 0} → Str → List (Ticket R) → Bool
has_ticket urn [] = false
has_ticket urn (k ∷ ks) = eq_str k.user_urn urn || has_ticket urn ks

-- A foreign key of another table refers to the user.
unfoldable pub is_referenced : {R : Type 0} → Str → Tables R → Bool
is_referenced urn t =
    leads_group urn t.groups || is_member urn t.group_members || has_ticket urn t.tickets

-- DELETE FROM users WHERE urn = ?
unfoldable pub delete_user_row : {R : Type 0} → Bool → Str → Statement R
delete_user_row foreign_keys urn t =
    if foreign_keys && has_user urn t.users && is_referenced urn t
    then (sqlite_constraint, 0, t)
    else (
      sqlite_done,
      if has_user urn t.users then 1 else 0,
      record t { users = remove_user urn t.users },
    )

module _ (env : Platform) where
  open env use {Real, hash}

  unfoldable pub registered : Rc → Db Real Bool
  registered sqlite_done = pure true
  registered sqlite_constraint = do
    set_last_error (str "User already registered") sqlite_constraint
    pure false
  registered rc = do set_last_error (str "Failed to register user") rc; pure false

  -- Database::registerUser.
  unfoldable pub register_user : User → Db Real Bool
  unfolding registered
  register_user user = do
    ready ← prepare_statement env
    if not ready
        then pure false
        else do (rc, changes) ← step env (insert_user (user_row user)); registered rc

  found : {A : Type 0} → Row A → Option A
  found (row a) = some a
  found no_row = none
  found (failed rc) = none

  -- Database::getUser. A failed step and a missing row are both a null pointer.
  unfoldable pub get_user : Str → Db Real (Option User)
  unfolding found
  get_user urn = do
    ready ← prepare_statement env
    if not ready
        then pure none
        else do answer ← select env (λ t. find_user (c_str urn) t.users); pure (found answer)

  -- Database::hashPassword and verifyPassword.
  unfoldable pub hash_password : Str → Str
  hash_password password = nat_to_string (hash (password ++ str "salt"))

  unfoldable pub verify_password : Str → Str → Bool
  verify_password password stored = eq_str (hash_password password) stored

  check_pin : Str → Option User → Bool
  check_pin pin none = false
  check_pin pin (some user) = verify_password pin user.pin_hash

  -- Database::authenticateUser.
  unfoldable pub authenticate_user : Str → Str → Db Real Bool
  unfolding check_pin
  authenticate_user urn pin = do user ← get_user urn; pure (check_pin pin user)

  -- Database::updateUser.
  unfoldable pub update_user : User → Db Real Bool
  update_user user = do
    ready ← prepare_statement env
    if not ready then pure false else do
      (rc, changes) ← step env (update_user_row (user_row user))
      expect_done (str "Failed to update user") rc

  -- Database::deleteUser.
  unfoldable pub delete_user : Str → Db Real Bool
  delete_user urn = do
    ready ← prepare_statement env
    if not ready then pure false else do
      foreign_keys ← λ db. (db.foreign_keys, db)
      (rc, changes) ← step env (delete_user_row foreign_keys (c_str urn))
      expect_done (str "Failed to delete user") rc
