-- ===== src/Central.antt =====
-- server/CentralServer.h, server/CentralServer.cpp and server/ServerBase.cpp: the state of the
-- central server, and the steps that its handlers are made of. A handler runs to its end; a client
-- is named by a number. Log lines are left out.
pub mod Triple
pub mod Pooling
pub mod World
pub mod Quiet
pub mod Answers
pub mod Validation
pub mod Sessions
pub mod Registration
pub mod Reservation
pub mod Purchase
pub mod Groups
pub mod Admin
pub mod Dispatch
pub mod Discovery
pub mod Lifecycle
use protokol_javni_prevoz.Prelude.{
  ℕ, suc, ◌+◌, ◌%◌, ◌-◌, ◌≡◌, Bool, true, false, Option, none, some, List, [], ◌∷◌, ◌++◌,
  if◌then◌else◌,
}
unfoldable pub use protokol_javni_prevoz.Prelude.Int.{to_byte}
use protokol_javni_prevoz.Prelude.Int.{ℤ, pos, negsuc}
use protokol_javni_prevoz.Result.{Result, done, threw, blocked}
use protokol_javni_prevoz.Text.{Str, str}
use protokol_javni_prevoz.Text.Decimal.{to_string, nat_to_string}
use protokol_javni_prevoz.StdMap.{StdMap}
use protokol_javni_prevoz.StdMap.Append.{insert_all}
use protokol_javni_prevoz.Message.{Message, get_int, get_string, has_key}
use protokol_javni_prevoz.Message.Factory.{
  create_error_response, create_success_response, create_multicast_update,
}
use protokol_javni_prevoz.Platform.{Platform}
use protokol_javni_prevoz.Database.{Database, Db}
use protokol_javni_prevoz.Database.Pool.{
  Pool, File, with_connection, get_connection, return_connection,
}

-- struct ClientSession; the times are seconds.
pub record Session : Type 0 where
  pub session_id : Str
  pub user_urn : Str
  pub authenticated : Bool
  pub last_activity : ℕ

-- The members of CentralServer that handlers read or write, the counters of the id generators, and
-- what has reached which client.
pub record Server (Real : Type 0) : Type 0 where
  pub pool : Pool Real
  pub sessions : StdMap Session
  pub subscribers : List ℕ
  pub session_counter : ℕ
  pub ticket_counter : ℕ
  pub transaction_counter : ℕ
  pub session_timeout : ℕ
  pub sent : List (ℕ × Message)

-- What a handler does: how it ends, and the server afterwards.
abbrev pub Handler : Type 0 → Type 0 → Type 0
Handler Real A = Server Real → Result A × Server Real

infixl 5 ◌>>=◌ ◌>>◌
abbrev pub continue : {R A B : Type 0} → Result A → (A → Handler R B) → Handler R B
continue (done a) f s = f a s
continue (threw e) f s = (threw e, s)
continue blocked f s = (blocked, s)

abbrev pub ◌>>=◌ : {R A B : Type 0} → Handler R A → (A → Handler R B) → Handler R B
◌>>=◌ m f s = let (r, s') = m s in continue r f s'

abbrev pub ◌>>◌ : {R B : Type 0} → Handler R (Unit {0}) → Handler R B → Handler R B
m >> k = m >>= λ _. k

abbrev pub pure : {R A : Type 0} → A → Handler R A
pure a s = (done a, s)

-- message->getInt(key), which throws on a text that is no `int`.
unfoldable pub read_int : {R : Type 0} → Message → Str → Handler R ℤ
read_int m key s = (get_int m key, s)

-- `hasKey(key) ? getInt(key) : otherwise`.
unfoldable pub read_int_or : {R : Type 0} → Message → Str → ℤ → Handler R ℤ
unfolding read_int
read_int_or m key otherwise = if has_key m key then read_int m key else pure otherwise

-- `hasKey(key) ? getString(key) : otherwise`.
unfoldable pub get_string_or : Message → Str → Str → Str
get_string_or m key otherwise = if has_key m key then get_string m key else otherwise

-- DatabasePool::getConnection, a method on the connection, DatabasePool::returnConnection.
unfoldable pub acquire : {R : Type 0} → Handler R ℕ
acquire s = elim (get_connection s.pool) [
  | none ↦ (blocked, s)
  | some lent ↦ (done lent.0, record s { pool = lent.1 })
]

unfoldable pub call : {R A : Type 0} → ℕ → Db R A → Handler R A
call i m s = let (a, p) = with_connection i m s.pool in (done a, record s { pool = p })

unfoldable pub release : {R : Type 0} → ℕ → Handler R (Unit {0})
release i s = (done tt, record s { pool = return_connection i s.pool })

-- db->getLastError().
unfoldable pub last_error : {R : Type 0} → Db R Str
last_error db = (db.last_error, db)

-- The entries of an initialiser list of a std::map.
unfoldable pub map_of : List (Str × Str) → StdMap Str
map_of l = insert_all l []

module _ (env : Platform) where
  open env use {Real, clock, local_time, delivers}

  abbrev count_call : Server Real → Server Real
  count_call s = record s {
    pool = record s.pool { file = record s.pool.file { calls = s.pool.file.calls + 1 } };
  }

  -- The clock.
  unfoldable pub now : Handler Real ℕ
  now s = (done (clock s.pool.file.calls), count_call s)

  -- getCurrentTimestamp.
  unfoldable pub current_timestamp : Handler Real Str
  unfolding now
  current_timestamp = do t ← now; pure (local_time t)

  -- TLSSocket::sendMessage to a client.
  unfoldable pub send : ℕ → Message → Handler Real Bool
  send client m s =
      if delivers s.pool.file.calls client
      then (done true, record (count_call s) { sent = s.sent ++ (client, m) ∷ [] })
      else (done false, count_call s)

  -- ServerBase::sendResponse, which drops the result.
  unfoldable pub send_response : ℕ → Message → Handler Real (Unit {0})
  unfolding send
  send_response client m = do delivered ← send client m; pure tt

  -- ServerBase::sendErrorResponse and sendSuccessResponse.
  unfoldable pub send_error_response : ℕ → Str → ℤ → Handler Real (Unit {0})
  unfolding send_response
  send_error_response client error code = send_response client (create_error_response error code)

  unfoldable pub send_success_response : ℕ → Str → Handler Real (Unit {0})
  unfolding send_response
  send_success_response client text = send_response client (create_success_response text [])

  -- std::remove_if over the subscribers: who cannot be reached is dropped.
  unfoldable pub broadcast : List ℕ → Message → Handler Real (List ℕ)
  broadcast [] m = pure []
  broadcast (c ∷ cs) m = do
    delivered ← send c m
    rest ← broadcast cs m
    pure (if delivered then c ∷ rest else rest)

  -- CentralServer::sendMulticastUpdate.
  unfoldable pub send_multicast_update : Str → StdMap Str → Handler Real (Unit {0})
  send_multicast_update update_type extra s =
      let (r, s') = broadcast s.subscribers (create_multicast_update update_type extra) s in
      continue r (λ reached t. (done tt, record t { subscribers = reached })) s'

  -- generateSessionId, generateTicketId and generateTransactionId.
  unfoldable pub generate_session_id : Handler Real Str
  generate_session_id s =
      let n = s.session_counter + 1 in
      (done (str "session_" ++ nat_to_string n), record s { session_counter = n })

  unfoldable pub generate_ticket_id : Handler Real Str
  unfolding now
  generate_ticket_id s =
      let n = s.ticket_counter + 1 in
      (now >>= λ t. pure (str "TKT_" ++ nat_to_string n ++ str "_" ++ nat_to_string t))
        (record s { ticket_counter = n })

  unfoldable pub generate_transaction_id : Handler Real Str
  unfolding now
  generate_transaction_id s =
      let n = s.transaction_counter + 1 in
      (now >>= λ t. pure (str "TX_" ++ nat_to_string n ++ str "_" ++ nat_to_string t))
        (record s { transaction_counter = n })
