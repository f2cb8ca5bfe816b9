-- ===== src/Central/Groups.antt =====
-- handleGroupCreation, handleAddMemberToGroup, requireGroupLeader and handleRemoveMemberFromGroup
-- of server/CentralServer.cpp.
pub mod Leadership
pub mod Removal
use protokol_javni_prevoz.Prelude.{
  ℕ, Bool, true, false, not, ◌||◌, Option, none, some, if◌then◌else◌,
}
use protokol_javni_prevoz.Prelude.Int.{pos}
use protokol_javni_prevoz.Text.{Str, str, eq_str, is_empty}
use protokol_javni_prevoz.Message.{Message, get_string}
use protokol_javni_prevoz.Platform.{Platform}
use protokol_javni_prevoz.Database.Rows.{Group}
use protokol_javni_prevoz.Database.Groups.{
  create_group, get_group_leader, add_user_to_group, remove_user_from_group,
}
use protokol_javni_prevoz.Central.{
  Session, Handler, ◌>>=◌, ◌>>◌, pure, acquire, call, release, now, current_timestamp,
  send_error_response, send_success_response,
}
use protokol_javni_prevoz.Central.Sessions.{find_session, touch_session}

unfoldable pub new_group : Str → Str → Str → Group
new_group group_name leader_urn date = record {
  group_id = 0;
  group_name = group_name;
  leader_urn = leader_urn;
  creation_date = date;
  active = true;
}

module _ (env : Platform) where
  open env use {Real}

  unfoldable pub handle_group_creation : Message → ℕ → Handler Real (Unit {0})
  handle_group_creation m client =
      let group_name = get_string m (str "group_name") in
      let leader_urn = get_string m (str "leader_urn") in
      if is_empty group_name || is_empty leader_urn
      then send_error_response env client (str "Missing group_name or leader_urn") (pos 400)
      else do
        date ← current_timestamp env
        i ← acquire
        good ← call i (create_group env (new_group group_name leader_urn date))
        release i
        if good
            then send_success_response env client (str "Group created successfully")
            else send_error_response env client (str "Failed to create group") (pos 500)

  unfoldable pub add_member_as : ℕ → Str → Str → Str → Option Session → Handler Real (Unit {0})
  add_member_as client session_id urn group none =
      send_error_response env client (str "Invalid or expired session") (pos 401)
  add_member_as client session_id urn group (some session) = do
    t ← now env
    touch_session session_id session t
    i ← acquire
    good ← call i (add_user_to_group env urn group)
    release i
    if good
        then send_success_response env client (str "User added to group")
        else send_error_response env client (str "Failed to add user to group") (pos 500)

  unfoldable pub handle_add_member_to_group : Message → ℕ → Handler Real (Unit {0})
  handle_add_member_to_group m client =
      let session_id = get_string m (str "session_id") in
      let urn = get_string m (str "urn") in
      let group = get_string m (str "group_name") in
      if is_empty session_id || is_empty group || is_empty urn
      then send_error_response env client
          (str "Missing required fields (session_id, group_name, urn)") (pos 400)
      else do session ← find_session session_id; add_member_as client session_id urn group session

  unfoldable pub check_leader : ℕ → Str → Str → Option Session → Handler Real Bool
  check_leader client session_id group_name none = do
    send_error_response env client (str "Invalid or expired session") (pos 401)
    pure false
  check_leader client session_id group_name (some session) = do
    t ← now env
    touch_session session_id session t
    i ← acquire
    leader ← call i (get_group_leader env group_name)
    release i
    if is_empty leader
        then (do
          send_error_response env client (str "Group not found or no leader set") (pos 404)
          pure false)
        else if not (eq_str leader session.user_urn)
        then (do
          send_error_response env client (str "Admin (group leader) privileges required") (pos 403)
          pure false)
        else pure true

  -- CentralServer::requireGroupLeader.
  unfoldable pub require_group_leader : Str → Str → ℕ → Handler Real Bool
  require_group_leader session_id group_name client = do
    session ← find_session session_id
    check_leader client session_id group_name session

  unfoldable pub remove_as_leader : ℕ → Str → Str → Handler Real (Unit {0})
  remove_as_leader client urn group = do
    i ← acquire
    good ← call i (remove_user_from_group env urn group)
    release i
    if good
        then send_success_response env client (str "User removed from group")
        else send_error_response env client (str "Failed to remove user from group") (pos 500)

  unfoldable pub handle_remove_member_from_group : Message → ℕ → Handler Real (Unit {0})
  handle_remove_member_from_group m client =
      let session_id = get_string m (str "session_id") in
      let urn = get_string m (str "urn") in
      let group = get_string m (str "group_name") in
      if is_empty session_id || is_empty group || is_empty urn
      then send_error_response env client
          (str "Missing required fields (session_id, group_name, urn)") (pos 400)
      else do
        allowed ← require_group_leader session_id group client
        if allowed then remove_as_leader client urn group else pure tt
