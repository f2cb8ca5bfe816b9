-- ===== src/Database/Users/Registration.antt =====
-- registerUser, getUser and deleteUser together.
use protokol_javni_prevoz.Prelude.{
  ◌+◌, ◌↔◌, ◌∙◌, ap, subst, ◌≡◌, refl, Bool, true, false, ◌&&◌, none, some, List, [], ◌∷◌, ◌++◌,
  arith, if◌then◌else◌,
}
use protokol_javni_prevoz.Text.{Str, str, eq_str, eq_str_iff}
use protokol_javni_prevoz.Platform.{Platform}
use protokol_javni_prevoz.Database.Rows.{User}
use protokol_javni_prevoz.Database.{
  NoFault, sqlite_constraint, Database, c_str, prepare_statement, step, select, expect_done,
}
use protokol_javni_prevoz.Database.Users.{
  find_user, has_user, user_row, insert_user, register_user, get_user, remove_user, delete_user,
  delete_user_row, is_referenced,
}

pub find_user-append :
    (urn : Str) (u : User) (us : List User)
    → find_user urn (us ++ u ∷ []) ≡ elim (find_user urn us) [
      | some w ↦ some w
      | none ↦ if eq_str u.urn urn then some u else none
    ]
unfolding find_user
find_user-append urn u [] = refl
find_user-append urn u (w ∷ us) = ground (arith, find_user-append urn u us)

pub find_user-remove_user :
    (urn other : Str) (us : List User)
    → find_user other (remove_user urn us) ≡ (if eq_str other urn then none else find_user other us)
unfolding find_user remove_user
find_user-remove_user urn other [] = ground arith
find_user-remove_user urn other (u ∷ us) = ground (
  arith,
  find_user-remove_user urn other us,
  eq_str_iff other urn,
  eq_str_iff u.urn urn,
  eq_str_iff u.urn other,
)

new_or_old :
    (urn key : Str) (u : User) (us : List User)
    → find_user urn us ≡ none
    → elim (find_user key us) [ some w ↦ some w | none ↦ if eq_str urn key then some u else none ]
      ≡ (if eq_str urn key then some u else find_user key us)
new_or_old urn key u us h = ground (arith, eq_str_iff urn key)

module _ (env : Platform) where
  open env use {Real}

  -- What registerUser has done when it returns true, and that it has changed no table when it
  -- returns false.
  abbrev pub Registered : User → Database Real → Bool × Database Real → Type 0
  Registered user db (true, db') =
      (find_user (c_str user.urn) db.tables.users ≡ none)
      × (db'.tables ≡ record db.tables { users = db.tables.users ++ user_row user ∷ [] })
  Registered user db (false, db') = db'.tables ≡ db.tables

  -- When registerUser returns true, no user had that URN and exactly the row of the new user has
  -- been appended to the tables; when it returns false, no table has changed.
  pub register_user-Registered :
      (user : User) (db : Database Real) → Registered user db (register_user env user db)
  unfolding register_user prepare_statement step insert_user has_user user_row
  register_user-Registered user db = ground arith

  pub get_user_lem :
      (urn : Str) (db : Database Real)
      → NoFault env 2 db.calls
      → get_user env urn db
        ≡ (find_user (c_str urn) db.tables.users, record db { calls = db.calls + 1 + 1 })
  unfolding get_user prepare_statement select
  get_user_lem urn db h = ground arith

  -- Without a failure of SQLite, registerUser returns true exactly for a user that is not there
  -- yet.
  pub register_user_iff :
      (user : User) (db : Database Real)
      → NoFault env 2 db.calls
      → ((register_user env user db).0 ≡ true) ↔ (find_user (c_str user.urn) db.tables.users ≡ none)
  unfolding register_user prepare_statement step insert_user has_user user_row
  register_user_iff user db h = (λ e. ground arith, λ e. ground arith)

  -- After registerUser has returned true, getUser without a failure of SQLite finds the new user
  -- under its URN, and every other user as before.
  pub register_user-get_user :
      (user : User) (key : Str) (db db' : Database Real)
      → register_user env user db ≡ (true, db')
      → NoFault env 2 db'.calls
      → (get_user env key db').0 ≡ (
          if eq_str (c_str user.urn) (c_str key)
          then some (user_row user)
          else find_user (c_str key) db.tables.users)
  unfolding user_row c_str
  register_user-get_user user key db db' e h =
      let facts = subst (Registered user db) e (register_user-Registered user db) in
      let users = db.tables.users in
      ap (λ r. r.0) (get_user_lem key db' h)
      ∙ ap (λ t. find_user (c_str key) t.users) facts.1
      ∙ find_user-append (c_str key) (user_row user) users
      ∙ new_or_old (c_str user.urn) (c_str key) (user_row user) users facts.0

  -- A registration that finds the user in place is refused with SQLITE_CONSTRAINT, and only the
  -- error fields change.
  pub register_user_again :
      (user old : User) (db : Database Real)
      → NoFault env 2 db.calls
      → find_user (c_str user.urn) db.tables.users ≡ some old
      → register_user env user db ≡ (
        false,
        record db {
          calls = db.calls + 1 + 1;
          last_error = str "User already registered";
          last_error_code = sqlite_constraint;
        },
      )
  unfolding register_user prepare_statement step insert_user has_user user_row
  register_user_again user old db h e = ground arith

  -- What deleteUser has done when it returns true, and that it has changed no table when it returns
  -- false. With foreign keys on, a user that a group, a membership or a ticket refers to stays.
  abbrev pub Deleted : Str → Database Real → Bool × Database Real → Type 0
  Deleted urn db (true, db') =
      (db'.tables ≡ record db.tables { users = remove_user (c_str urn) db.tables.users })
      × (db.foreign_keys
            && has_user (c_str urn) db.tables.users
            && is_referenced (c_str urn) db.tables
          ≡ false)
  Deleted urn db (false, db') = db'.tables ≡ db.tables

  -- When deleteUser returns true, exactly the rows of that URN are gone, and with foreign keys on
  -- no group, membership or ticket referred to a user who was there; when it returns false, no
  -- table has changed.
  pub delete_user-Deleted :
      (urn : Str) (db : Database Real) → Deleted urn db (delete_user env urn db)
  unfolding delete_user prepare_statement step delete_user_row expect_done
  delete_user-Deleted urn db = ground arith

  -- After deleteUser has returned true, getUser without a failure of SQLite finds every other user
  -- as before, and not the deleted one.
  pub delete_user-get_user :
      (urn key : Str) (db db' : Database Real)
      → delete_user env urn db ≡ (true, db')
      → NoFault env 2 db'.calls
      → (get_user env key db').0
        ≡ (if eq_str (c_str key) (c_str urn) then none else find_user (c_str key) db.tables.users)
  delete_user-get_user urn key db db' e h =
      let facts = subst (Deleted urn db) e (delete_user-Deleted urn db) in
      ap (λ r. r.0) (get_user_lem key db' h)
      ∙ ap (λ t. find_user (c_str key) t.users) facts.0
      ∙ find_user-remove_user (c_str urn) (c_str key) db.tables.users
