-- ===== src/Database/Users/Refinement.antt =====
-- The users of common/Database.cpp as a partial map from URNs to rows: a sequence of calls of
-- registerUser, getUser, authenticateUser, updateUser and deleteUser, on the table and on the map.
use protokol_javni_prevoz.Prelude.{
  ℕ, ◌+◌, ◌≡◌, refl, Bool, true, false, ◌&&◌, Option, none, some, List, [], ◌∷◌, arith,
  if◌then◌else◌,
}
use protokol_javni_prevoz.Text.{Str, eq_str, eq_str_iff}
use protokol_javni_prevoz.Platform.{Platform}
use protokol_javni_prevoz.Database.Rows.{User}
use protokol_javni_prevoz.Database.{Database, c_str, prepare_statement, step, select, expect_done}
use protokol_javni_prevoz.Database.Users.{
  find_user, has_user, user_row, insert_user, register_user, get_user, delete_user, delete_user_row,
  is_referenced, update_user, update_user_row, replace_user, authenticate_user, verify_password,
}
use protokol_javni_prevoz.Database.Users.Registration.{find_user-append, find_user-remove_user}

-- A call, with its arguments, and what it returns.
pub data Call : Type 0 where
  register : User → Call
  get : Str → Call
  authenticate : Str → Str → Call
  update : User → Call
  delete : Str → Call

pub data Answer : Type 0 where
  said : Bool → Answer
  shown : Option User → Answer

-- The abstract view: the user of each URN, if there is one.
abbrev pub Directory : Type 0
Directory = Str → Option User

abbrev pub has : Option User → Bool
has none = false
has (some u) = true

abbrev pub set : Str → Option User → Directory → Directory
set key value d k = if eq_str key k then value else d k

module _ (env : Platform) where
  open env use {Real}

  -- The call on the database.
  abbrev pub perform : Call → Database Real → Answer × Database Real
  perform (register user) db = let (b, db') = register_user env user db in (said b, db')
  perform (get urn) db = let (u, db') = get_user env urn db in (shown u, db')
  perform (authenticate urn pin) db =
      let (b, db') = authenticate_user env urn pin db in (said b, db')
  perform (update user) db = let (b, db') = update_user env user db in (said b, db')
  perform (delete urn) db = let (b, db') = delete_user env urn db in (said b, db')

  abbrev pub perform_all : List Call → Database Real → List Answer × Database Real
  perform_all [] db = ([], db)
  perform_all (call ∷ calls) db =
      let (a, db') = perform call db in let (rest, db'') = perform_all calls db' in (a ∷ rest, db'')

  abbrev pub checked : Str → Option User → Bool
  checked pin none = false
  checked pin (some user) = verify_password env pin user.pin_hash

  -- What the call promises, on the map. `held` tells who is referred to from another table, on a
  -- connection that heeds foreign keys.
  abbrev pub promised : (Str → Bool) → Call → Directory → Answer × Directory
  promised held (register user) d =
      let key = c_str user.urn in
      if has (d key) then (said false, d) else (said true, set key (some (user_row user)) d)
  promised held (get urn) d = (shown (d (c_str urn)), d)
  promised held (authenticate urn pin) d = (said (checked pin (d (c_str urn))), d)
  promised held (update user) d =
      let key = c_str user.urn in
      (said true, if has (d key) then set key (some (user_row user)) d else d)
  promised held (delete urn) d =
      let key = c_str urn in
      if held key && has (d key) then (said false, d) else (said true, set key none d)

  abbrev pub promised_all : (Str → Bool) → List Call → Directory → List Answer × Directory
  promised_all held [] d = ([], d)
  promised_all held (call ∷ calls) d =
      let (a, d') = promised held call d in
      let (rest, d'') = promised_all held calls d' in (a ∷ rest, d'')

  -- The table shows the map, and the other tables hold who is held.
  pub record Shows (held : Str → Bool) (d : Directory) (db : Database Real) : Type 0 where
    pub users : (k : Str) → find_user k db.tables.users ≡ d k
    pub others : (k : Str) → (db.foreign_keys && is_referenced k db.tables) ≡ held k

  pub record Meets (held : Str → Bool) (want : Answer × Directory) (got : Answer × Database Real)
      : Type 0 where
    pub same : got.0 ≡ want.0
    pub after : Shows held want.1 got.1

  find_user-replace_user :
      (u : User) (k : Str) (us : List User)
      → find_user k (replace_user u us) ≡ (
          if eq_str u.urn k
          then (if has (find_user k us) then some u else none)
          else find_user k us)
  unfolding find_user replace_user
  find_user-replace_user u k [] = ground arith
  find_user-replace_user u k (w ∷ us) = ground (
    arith,
    find_user-replace_user u k us,
    eq_str_iff u.urn k,
    eq_str_iff w.urn u.urn,
    eq_str_iff w.urn k,
  )

  module _ (sound : (n : ℕ) → env.fault n ≡ none) (held : Str → Bool) (d : Directory)
      (db : Database Real) (h : Shows held d db) where
    register_lem :
        (user : User) → Meets held (promised held (register user) d) (perform (register user) db)
    unfolding register_user prepare_statement step insert_user has_user user_row is_referenced
    register_lem user = record {
      same = ground (arith, sound db.calls, sound (db.calls + 1), h.users (c_str user.urn));
      after = record {
        users = λ k. ground (
          arith,
          sound db.calls,
          sound (db.calls + 1),
          h.users (c_str user.urn),
          h.users k,
          find_user-append k (user_row user) db.tables.users,
          eq_str_iff (c_str user.urn) k,
        );
        others = λ k. ground (arith, sound db.calls, sound (db.calls + 1), h.others k);
      };
    }

    get_lem : (urn : Str) → Meets held (promised held (get urn) d) (perform (get urn) db)
    unfolding get_user prepare_statement select is_referenced
    get_lem urn = record {
      same = ground (arith, sound db.calls, sound (db.calls + 1), h.users (c_str urn));
      after = record {
        users = λ k. ground (arith, sound db.calls, sound (db.calls + 1), h.users k);
        others = λ k. ground (arith, sound db.calls, sound (db.calls + 1), h.others k);
      };
    }

    authenticate_lem :
        (urn pin : Str)
        → Meets held (promised held (authenticate urn pin) d) (perform (authenticate urn pin) db)
    unfolding authenticate_user get_user prepare_statement select is_referenced
    authenticate_lem urn pin = record {
      same = ground (arith, sound db.calls, sound (db.calls + 1), h.users (c_str urn));
      after = record {
        users = λ k. ground (arith, sound db.calls, sound (db.calls + 1), h.users k);
        others = λ k. ground (arith, sound db.calls, sound (db.calls + 1), h.others k);
      };
    }

    update_lem :
        (user : User) → Meets held (promised held (update user) d) (perform (update user) db)
    unfolding update_user prepare_statement step update_user_row user_row expect_done is_referenced
    update_lem user = record {
      same = ground (arith, sound db.calls, sound (db.calls + 1));
      after = record {
        users = λ k. ground (
          arith,
          sound db.calls,
          sound (db.calls + 1),
          h.users (c_str user.urn),
          h.users k,
          find_user-replace_user (user_row user) k db.tables.users,
          eq_str_iff (c_str user.urn) k,
        );
        others = λ k. ground (arith, sound db.calls, sound (db.calls + 1), h.others k);
      };
    }

    delete_lem : (urn : Str) → Meets held (promised held (delete urn) d) (perform (delete urn) db)
    unfolding delete_user prepare_statement step delete_user_row has_user expect_done is_referenced
    delete_lem urn = record {
      same =
          ground (
            arith,
            sound db.calls,
            sound (db.calls + 1),
            h.users (c_str urn),
            h.others (c_str urn),
          );
      after = record {
        users = λ k. ground (
          arith,
          sound db.calls,
          sound (db.calls + 1),
          h.users (c_str urn),
          h.others (c_str urn),
          h.users k,
          find_user-remove_user (c_str urn) k db.tables.users,
          eq_str_iff (c_str urn) k,
          eq_str_iff k (c_str urn),
        );
        others = λ k. ground (arith, sound db.calls, sound (db.calls + 1), h.others k);
      };
    }

    perform_lem : (call : Call) → Meets held (promised held call d) (perform call db)
    perform_lem (register user) = register_lem user
    perform_lem (get urn) = get_lem urn
    perform_lem (authenticate urn pin) = authenticate_lem urn pin
    perform_lem (update user) = update_lem user
    perform_lem (delete urn) = delete_lem urn

  -- With an SQLite that does not fail, and a table that shows a partial map from URNs to rows: a
  -- sequence of calls of registerUser, getUser, authenticateUser, updateUser and deleteUser
  -- returns what the map promises, and afterwards the table shows the map that is promised then;
  -- who is referred to from another table counts as held on a connection that heeds foreign keys,
  -- and is not deleted.
  pub perform_all-Shows :
      (held : Str → Bool) (calls : List Call) (d : Directory) (db : Database Real)
      → ((n : ℕ) → env.fault n ≡ none)
      → Shows held d db
      → ((perform_all calls db).0 ≡ (promised_all held calls d).0)
        × Shows held (promised_all held calls d).1 (perform_all calls db).1
  perform_all-Shows held [] d db sound h = (refl, h)
  perform_all-Shows held (call ∷ calls) d db sound h =
      let one = perform_lem sound held d db h call in
      let rest = perform_all-Shows held calls _ _ sound one.after in (cc (one.same, rest.0), rest.1)
