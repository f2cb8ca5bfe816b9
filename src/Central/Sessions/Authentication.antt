-- ===== src/Central/Sessions/Authentication.antt =====
-- handleAuthRequest of server/CentralServer.cpp: who gets a session, and what the server then keeps.
use protokol_javni_prevoz.Prelude.{
  ℕ, ◌+◌, ◌<◌, ◌≡◌, refl, ◌∙◌, sym, Bool, true, false, not, ◌&&◌, some, [], ◌∷◌, ◌++◌, arith,
  Option-cases, Bool-cases, inl, inr,
}
use protokol_javni_prevoz.Result.{Result, done}
use protokol_javni_prevoz.Text.{Str, str, is_empty}
use protokol_javni_prevoz.Text.Decimal.{nat_to_string}
use protokol_javni_prevoz.StdMap.{insert}
use protokol_javni_prevoz.Message.{Message, get_string}
use protokol_javni_prevoz.Message.Factory.{create_auth_response}
use protokol_javni_prevoz.Platform.{Platform}
use protokol_javni_prevoz.Database.{Database, c_str, prepare_statement, select}
use protokol_javni_prevoz.Database.Users.{has_user, get_user}
use protokol_javni_prevoz.Database.Pool.{
  attach, conn_at, set_at, lend, first_available, get_connection, with_connection,
}
use protokol_javni_prevoz.Database.Pool.Lending.{count_free, first_available-none}
use protokol_javni_prevoz.Central.{
  Server, acquire, call, release, now, send, send_response, generate_session_id, count_call,
}
use protokol_javni_prevoz.Central.Sessions.{
  is_some, user_known, open_session, store_session, subscribe, handle_auth_request,
}
use protokol_javni_prevoz.Central.World.{Reliable}

-- The session that opens at a time.
abbrev pub session_id_of : ℕ → Str
session_id_of n = str "session_" ++ nat_to_string n

-- What the request has changed, if the user is known and if not.
abbrev pub Authenticated :
    {R : Type 0} → ℕ → Str → ℕ → Server R → Bool → Result (Unit {0}) × Server R → Type 0
Authenticated client urn time s true (r, s') =
    let id = session_id_of (s.session_counter + 1) in
    (r ≡ done tt)
    × (s'.sessions
        ≡ insert id
            (record { session_id = id; user_urn = urn; authenticated = true; last_activity = time })
            s.sessions)
    × (s'.subscribers ≡ s.subscribers ++ client ∷ [])
    × (s'.sent ≡ s.sent ++ (client, create_auth_response true id) ∷ [])
Authenticated client urn time s false (r, s') =
    (r ≡ done tt)
    × (s'.sessions ≡ s.sessions)
    × (s'.subscribers ≡ s.subscribers)
    × (s'.sent ≡ s.sent ++ (client, create_auth_response false []) ∷ [])

module _ (env : Platform) (reliable : Reliable env) where
  open env use {Real, clock}

  user_known_lem :
      (urn : Str) (db : Database Real)
      → (user_known env urn db).0 ≡ (not (is_empty urn) && has_user (c_str urn) db.tables.users)
  unfolding user_known has_user get_user prepare_statement select is_some
  user_known_lem urn db =
      ground (arith, reliable.never_fails db.calls, reliable.never_fails (db.calls + 1))

  acquired :
      (i : ℕ) (s : Server Real)
      → first_available s.pool.available ≡ some i
      → acquire s ≡ (
        done i,
        record s { pool = record s.pool { available = set_at s.pool.available i false } },
      )
  unfolding acquire get_connection lend
  acquired i s f = rw (f, acquire, get_connection, lend) refl

  delivered :
      (client : ℕ) (m : Message) (s : Server Real)
      → send_response env client m s
        ≡ (done tt, record (count_call env s) { sent = s.sent ++ (client, m) ∷ [] })
  unfolding send_response send
  delivered client m s = rw (reliable.reaches s.pool.file.calls client) refl

  -- The look-up of the user on the i-th connection.
  abbrev looked_up : Message → ℕ → Server Real → Bool × Database Real
  looked_up m i s =
      user_known env (get_string m (str "urn")) (attach (conn_at s.pool.connections i) s.pool.file)

  auth_known :
      (m : Message) (client i : ℕ) (s : Server Real)
      → first_available s.pool.available ≡ some i
      → (looked_up m i s).0 ≡ true
      → Authenticated client
          (get_string m (str "urn"))
          (clock (looked_up m i s).1.calls)
          s
          true
          (handle_auth_request env m client s)
  unfolding handle_auth_request call with_connection open_session generate_session_id now
      store_session subscribe release
  auth_known m client i s f k =
      rw (acquired i s f) (rw k (rw (delivered client _ _) (refl, refl, refl, refl)))

  auth_unknown :
      (m : Message) (client i : ℕ) (s : Server Real)
      → first_available s.pool.available ≡ some i
      → (looked_up m i s).0 ≡ false
      → Authenticated client
          (get_string m (str "urn"))
          0
          s
          false
          (handle_auth_request env m client s)
  unfolding handle_auth_request call with_connection release
  auth_unknown m client i s f k =
      rw (acquired i s f) (rw k (rw (delivered client _ _) (refl, refl, refl, refl)))

-- With SQLite and the network reliable and a connection free, a request to authenticate always
-- returns. It opens a session exactly when its URN is not empty and is that of a user: the session
-- has the next id, belongs to that URN, and the client gets the id and becomes a subscriber. Else
-- no session opens, nobody subscribes, and the client gets a refusal.
pub handle_auth_request-Authenticated :
    (env : Platform) (m : Message) (client : ℕ) (s : Server env.Real)
    → Reliable env
    → 0 < count_free s.pool.available
    → (time : ℕ) × Authenticated client
        (get_string m (str "urn"))
        time
        s
        (not (is_empty (get_string m (str "urn")))
          && has_user (c_str (get_string m (str "urn"))) s.pool.file.tables.users)
        (handle_auth_request env m client s)
handle_auth_request-Authenticated env m client s reliable free =
    elim (Option-cases (first_available s.pool.available)) [
      | inl n ↦ absurd (omega (arith, free, first_available-none s.pool.available n))
      | inr (i, f) ↦
          let e =
            user_known_lem env reliable (get_string m (str "urn"))
              (attach (conn_at s.pool.connections i) s.pool.file) in
          elim (Bool-cases (looked_up env reliable m i s).0) [
            | inl k ↦ (
              env.clock (looked_up env reliable m i s).1.calls,
              rw (sym e ∙ k) (auth_known env reliable m client i s f k),
            )
            | inr k ↦ (0, rw (sym e ∙ k) (auth_unknown env reliable m client i s f k))
          ]
    ]
