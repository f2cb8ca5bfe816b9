-- ===== src/Database/Groups.antt =====
-- The tables `groups` and `group_members` and their methods, common/Database.cpp.
pub mod Rows
use Rows.{
  find_group, find_active_group, insert_group, find_member, put_member, reactivate_member,
  insert_member, delete_member,
}
use protokol_javni_prevoz.Prelude.{
  ℕ, zero, suc, ◌+◌, ◌≡◌, Bool, true, false, not, ◌&&◌, ◌||◌, Option, none, some, List, [], ◌∷◌,
  ◌++◌, ◌==◌, if◌then◌else◌,
}
use protokol_javni_prevoz.Prelude.Int.{ℤ, pos, negsuc, pos_part, leb_ℤ, ltb_ℤ}
use protokol_javni_prevoz.Text.{Str, str, eq_str, is_empty}
use protokol_javni_prevoz.Platform.{Platform}
use protokol_javni_prevoz.Database.Rows.{User, Group, Member, Tables}
use protokol_javni_prevoz.Database.Users.{has_user}
use protokol_javni_prevoz.Database.{
  Rc, sqlite_done, sqlite_constraint, sqlite_notfound, own_error, Database, Db, ◌>>=◌, ◌>>◌, pure,
  set_last_error, clear_last_error, c_str, Row, row, no_row, failed, prepare_statement, step,
  select, now_iso, expect_done,
}

module _ (env : Platform) where
  open env use {Real}

  -- The id of the row, or -1.
  unfoldable pub id_or_minus_one : Row Group → ℤ
  id_or_minus_one (row g) = pos g.group_id
  id_or_minus_one no_row = negsuc 0
  id_or_minus_one (failed rc) = negsuc 0

  -- The third part of createGroup: the leader becomes a member.
  unfoldable pub add_leader : Group → ℕ → Db Real Bool
  add_leader group id = do
    ready ← prepare_statement env
    if not ready then pure false else do
      joined ← now_iso env
      foreign_keys ← λ db. (db.foreign_keys, db)
      (rc, changes) ← step env (put_member foreign_keys id (c_str group.leader_urn) joined)
      expect_done (str "Failed to add leader as group member") rc

  -- The second part: the id of the new row.
  unfoldable pub resolve_id : Group → Db Real Bool
  resolve_id group = do
    ready ← prepare_statement env
    if not ready then pure false else do
      answer ← select env (λ t. find_group (c_str group.group_name) t.groups)
      if ltb_ℤ (id_or_minus_one answer) (pos 0)
          then (do set_last_error (str "Failed to resolve new group_id") own_error; pure false)
          else add_leader group (pos_part (id_or_minus_one answer))

  unfoldable pub creation_date : Group → Db Real Str
  creation_date group =
      if is_empty group.creation_date then now_iso env else pure group.creation_date

  -- Database::createGroup.
  unfoldable pub create_group : Group → Db Real Bool
  create_group group = do
    ready ← prepare_statement env
    if not ready then pure false else do
      created ← creation_date group
      foreign_keys ← λ db. (db.foreign_keys, db)
      (rc, changes) ← step env (
          insert_group foreign_keys (c_str group.group_name) (c_str group.leader_urn)
            (c_str created) group.active)
      inserted ← expect_done (str "Failed to create group (is name unique?)") rc
      if not inserted then pure false else resolve_id group

  -- Database::getGroupIdByName.
  unfoldable pub get_group_id_by_name : Str → Db Real ℤ
  unfolding id_or_minus_one
  get_group_id_by_name group_name = do
    ready ← prepare_statement env
    if not ready then pure (negsuc 0) else do
      answer ← select env (λ t. find_active_group (c_str group_name) t.groups)
      pure (id_or_minus_one answer)

  unfoldable pub is_row : {A : Type 0} → Row A → Bool
  is_row (row a) = true
  is_row no_row = false
  is_row (failed rc) = false

  -- Database::userExists.
  unfoldable pub user_exists : Str → Db Real Bool
  unfolding is_row
  user_exists urn = do
    ready ← prepare_statement env
    if not ready then pure false else do
      answer ← select env (λ t. if has_user (c_str urn) t.users then some tt else none)
      pure (is_row {A = Unit {0}} answer)

  leader_of : Row Group → Str
  leader_of (row g) = g.leader_urn
  leader_of no_row = []
  leader_of (failed rc) = []

  -- Database::getGroupLeader: the empty text where there is no row.
  unfoldable pub get_group_leader : Str → Db Real Str
  unfolding leader_of
  get_group_leader group_name = do
    ready ← prepare_statement env
    if not ready then pure [] else do
      answer ← select env (λ t. find_active_group (c_str group_name) t.groups)
      pure (leader_of answer)

  -- The member's row is there and inactive.
  unfoldable pub reactivate : Str → ℕ → Db Real Bool
  reactivate urn id = do
    ready ← prepare_statement env
    if not ready then pure false else do
      joined ← now_iso env
      (rc, changes) ← step env (reactivate_member id (c_str urn) joined)
      done ← expect_done (str "Failed to reactivate user in group") rc
      if not done
          then pure false
          else if changes == 1
          then pure true
          else do set_last_error (str "Failed to reactivate user in group") rc; pure false

  -- There is no row of the member.
  unfoldable pub add_new_member : Str → ℕ → Db Real Bool
  add_new_member urn id = do
    ready ← prepare_statement env
    if not ready then pure false else do
      joined ← now_iso env
      foreign_keys ← λ db. (db.foreign_keys, db)
      (rc, changes) ← step env (insert_member foreign_keys id (c_str urn) joined)
      done ← expect_done (str "Failed to add user to group") rc
      pure (done && changes == 1)

  -- A failed look-up goes on as if there were no row.
  unfoldable pub add_or_reactivate : Str → ℕ → Row Member → Db Real Bool
  add_or_reactivate urn id (row m) =
      if m.active
      then (do set_last_error (str "User already in group") sqlite_constraint; pure false)
      else reactivate urn id
  add_or_reactivate urn id no_row = add_new_member urn id
  add_or_reactivate urn id (failed rc) = add_new_member urn id

  unfoldable pub check_member : Str → ℕ → Db Real Bool
  check_member urn id = do
    ready ← prepare_statement env
    if not ready then pure false else do
      answer ← select env (λ t. find_member id (c_str urn) t.group_members)
      add_or_reactivate urn id answer

  -- Database::addUserToGroup.
  unfoldable pub add_user_to_group : Str → Str → Db Real Bool
  add_user_to_group urn group_name = do
    clear_last_error
    exists ← user_exists urn
    if not exists
        then (do set_last_error (str "User not found") sqlite_notfound; pure false)
        else do
          id ← get_group_id_by_name group_name
          if leb_ℤ id (pos 0)
              then (do set_last_error (str "Group not found") sqlite_notfound; pure false)
              else check_member urn (pos_part id)

  unfoldable pub remove_member : Str → ℕ → Db Real Bool
  remove_member urn id = do
    ready ← prepare_statement env
    if not ready then pure false else do
      (rc, changes) ← step env (delete_member id (c_str urn))
      done ← expect_done (str "Failed to remove user from group") rc
      if not done
          then pure false
          else if changes == 0
          then (do set_last_error (str "User not in group") sqlite_notfound; pure false)
          else pure true

  -- Database::removeUserFromGroup.
  unfoldable pub remove_user_from_group : Str → Str → Db Real Bool
  remove_user_from_group urn group_name = do
    clear_last_error
    id ← get_group_id_by_name group_name
    if leb_ℤ id (pos 0)
        then (do set_last_error (str "Group not found") sqlite_notfound; pure false)
        else remove_member urn (pos_part id)
