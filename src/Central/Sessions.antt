-- ===== src/Central/Sessions.antt =====
-- Connections and sessions of server/CentralServer.cpp: handleConnectRequest, handleAuthRequest,
-- validateSession, removeSession, cleanupExpiredSessions.
pub mod Authentication
use protokol_javni_prevoz.Prelude.{
  ℕ, ◌-◌, Bool, true, false, not, ◌||◌, Option, none, some, [], ◌∷◌, ◌++◌, ltb, if◌then◌else◌,
}
use protokol_javni_prevoz.Result.{done}
use protokol_javni_prevoz.Text.{Str, str, is_empty}
use protokol_javni_prevoz.StdMap.{StdMap, find, insert, erase}
use protokol_javni_prevoz.Message.{Message, get_string}
use protokol_javni_prevoz.Message.Factory.{create_connect_response, create_auth_response}
use protokol_javni_prevoz.Platform.{Platform}
use protokol_javni_prevoz.Database.{Db}
use protokol_javni_prevoz.Database.Users.{get_user}
use protokol_javni_prevoz.Central.{
  Session, Server, Handler, ◌>>=◌, ◌>>◌, acquire, call, release, now, send_response,
  generate_session_id,
}

unfoldable pub is_some {ℓ} : {A : Type ℓ} → Option A → Bool
is_some none = false
is_some (some a) = true

-- CentralServer::validateSession and removeSession.
unfoldable pub validate_session : {R : Type 0} → Str → Server R → Bool
unfolding is_some
validate_session session_id s = is_some (find session_id s.sessions)

unfoldable pub remove_session : {R : Type 0} → Str → Server R → Server R
remove_session session_id s = record s { sessions = erase session_id s.sessions }

-- The loop of cleanupExpiredSessions. A clock that went back gives a negative age, which is no
-- more than the limit.
unfoldable pub drop_expired : ℕ → ℕ → StdMap Session → StdMap Session
drop_expired t ttl [] = []
drop_expired t ttl ((id, s) ∷ rest) =
    let kept = drop_expired t ttl rest in
    if not s.authenticated || ltb ttl (t - s.last_activity) then kept else (id, s) ∷ kept

unfoldable pub store_session : {R : Type 0} → Session → Handler R (Unit {0})
store_session session s =
    (done tt, record s { sessions = insert session.session_id session s.sessions })

-- it->second.last_activity = now.
unfoldable pub touch_session : {R : Type 0} → Str → Session → ℕ → Handler R (Unit {0})
touch_session session_id session t s = (
  done tt,
  record s { sessions = insert session_id (record session { last_activity = t }) s.sessions },
)

unfoldable pub find_session : {R : Type 0} → Str → Handler R (Option Session)
find_session session_id s = (done (find session_id s.sessions), s)

unfoldable pub subscribe : {R : Type 0} → ℕ → Handler R (Unit {0})
subscribe client s = (done tt, record s { subscribers = s.subscribers ++ client ∷ [] })

module _ (env : Platform) where
  open env use {Real}

  unfoldable pub cleanup_expired_sessions : Handler Real (Unit {0})
  cleanup_expired_sessions = do
    t ← now env
    λ s. (done tt, record s { sessions = drop_expired t s.session_timeout s.sessions })

  unfoldable pub handle_connect_request : Message → ℕ → Handler Real (Unit {0})
  handle_connect_request m client =
      send_response env client (create_connect_response true (str "Connection established"))

  -- `!urn.empty() && db->getUser(urn)`.
  unfoldable pub user_known : Str → Db Real Bool
  unfolding is_some
  user_known urn db =
      if is_empty urn
      then (false, db)
      else let (user, db') = get_user env urn db in (is_some user, db')

  unfoldable pub open_session : ℕ → Str → Handler Real (Unit {0})
  open_session client urn = do
    session_id ← generate_session_id env
    t ← now env
    store_session (record {
      session_id = session_id;
      user_urn = urn;
      authenticated = true;
      last_activity = t;
    })
    send_response env client (create_auth_response true session_id)
    subscribe client

  unfoldable pub handle_auth_request : Message → ℕ → Handler Real (Unit {0})
  handle_auth_request m client = do
    i ← acquire
    authenticated ← call i (user_known (get_string m (str "urn")))
    if authenticated
        then open_session client (get_string m (str "urn"))
        else send_response env client (create_auth_response false [])
    release i
