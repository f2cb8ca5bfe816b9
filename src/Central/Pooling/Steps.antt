-- ===== src/Central/Pooling/Steps.antt =====
-- The steps of the handlers of server/CentralServer.cpp that borrow no connection.
use protokol_javni_prevoz.Prelude.{ℕ, ◌≢◌, refl, Bool-cases, inl, inr, List, [], ◌∷◌}
use protokol_javni_prevoz.Result.{Result, done, threw, blocked}
use protokol_javni_prevoz.Prelude.Int.{ℤ}
use protokol_javni_prevoz.Text.{Str}
use protokol_javni_prevoz.StdMap.{StdMap}
use protokol_javni_prevoz.Message.{Message, get_int, get_int_returns, has_key}
use protokol_javni_prevoz.Platform.{Platform}
use protokol_javni_prevoz.Central.{
  Session, Handler, ◌>>=◌, pure, now, current_timestamp, send, send_response, send_error_response,
  send_success_response, broadcast, send_multicast_update, generate_session_id, generate_ticket_id,
  generate_transaction_id, read_int, read_int_or,
}
use protokol_javni_prevoz.Central.Sessions.{find_session, touch_session, store_session, subscribe}
use protokol_javni_prevoz.Central.Triple.{Ends, bind}
use protokol_javni_prevoz.Central.Pooling.{Steady}

pub pure-Steady : {R A : Type 0} (a : A) → Steady (pure {R = R} a)
pure-Steady a av n = record { run = λ s p. p }

pub next :
    {R A B : Type 0} {m : Handler R A} {f : A → Handler R B}
    → Steady m
    → ((a : A) → Steady (f a))
    → Steady (m >>= f)
next t h av n = bind (t av n) (λ a. h a av n)

-- A handler that only reads the message.
pub reader-Steady : {R A : Type 0} (r : Result A) → r ≢ blocked → Steady {R = R} (λ s. (r, s))
reader-Steady (done a) h av n = record { run = λ s p. p }
reader-Steady (threw e) h av n = record { run = λ s p. tt }
reader-Steady blocked h av n = absurd (h refl)

pub read_int-Steady : {R : Type 0} (m : Message) (key : Str) → Steady (read_int {R = R} m key)
unfolding read_int
read_int-Steady m key = reader-Steady (get_int m key) (get_int_returns m key)

pub read_int_or-Steady :
    {R : Type 0} (m : Message) (key : Str) (z : ℤ) → Steady (read_int_or {R = R} m key z)
unfolding read_int_or
read_int_or-Steady m key z av n = elim (Bool-cases (has_key m key)) [
  | inl e ↦ rw e (read_int-Steady m key av n)
  | inr e ↦ rw e (pure-Steady z av n)
]

pub find_session-Steady : {R : Type 0} (id : Str) → Steady (find_session {R = R} id)
unfolding find_session
find_session-Steady id av n = record { run = λ s p. p }

pub touch_session-Steady :
    {R : Type 0} (id : Str) (session : Session) (t : ℕ)
    → Steady (touch_session {R = R} id session t)
unfolding touch_session
touch_session-Steady id session t av n = record {
  run = λ s p. record { places = p.places; connections = p.connections };
}

pub store_session-Steady : {R : Type 0} (session : Session) → Steady (store_session {R = R} session)
unfolding store_session
store_session-Steady session av n = record {
  run = λ s p. record { places = p.places; connections = p.connections };
}

pub subscribe-Steady : {R : Type 0} (client : ℕ) → Steady (subscribe {R = R} client)
unfolding subscribe
subscribe-Steady client av n = record {
  run = λ s p. record { places = p.places; connections = p.connections };
}

module _ (env : Platform) where
  open env use {Real, delivers}

  pub now-Steady : Steady (now env)
  unfolding now
  now-Steady av n = record {
    run = λ s p. record { places = p.places; connections = p.connections };
  }

  pub current_timestamp-Steady : Steady (current_timestamp env)
  unfolding current_timestamp
  current_timestamp-Steady = next now-Steady (λ t. pure-Steady (env.local_time t))

  pub send-Steady : (client : ℕ) (m : Message) → Steady (send env client m)
  unfolding send
  send-Steady client m av n = record {
    run = λ s p. elim (Bool-cases (delivers s.pool.file.calls client)) [
      | inl e ↦ rw (e, Ends) (record { places = p.places; connections = p.connections })
      | inr e ↦ rw (e, Ends) (record { places = p.places; connections = p.connections })
    ];
  }

  pub send_response-Steady : (client : ℕ) (m : Message) → Steady (send_response env client m)
  unfolding send_response
  send_response-Steady client m = next (send-Steady client m) (λ _. pure-Steady tt)

  pub error-Steady :
      (client : ℕ) (text : Str) (code : ℤ) → Steady (send_error_response env client text code)
  unfolding send_error_response
  error-Steady client text code = send_response-Steady client _

  pub success-Steady : (client : ℕ) (text : Str) → Steady (send_success_response env client text)
  unfolding send_success_response
  success-Steady client text = send_response-Steady client _

  broadcast-Steady : (cs : List ℕ) (m : Message) → Steady (broadcast env cs m)
  unfolding broadcast
  broadcast-Steady [] m = pure-Steady []
  broadcast-Steady (c ∷ cs) m =
      next (send-Steady c m) (λ _. next (broadcast-Steady cs m) (λ _. pure-Steady _))

  keep_reached : List ℕ → Handler Real (Unit {0})
  keep_reached reached s = (done tt, record s { subscribers = reached })

  keep_reached-Steady : (reached : List ℕ) → Steady (keep_reached reached)
  unfolding keep_reached
  keep_reached-Steady reached av n = record {
    run = λ s p. record { places = p.places; connections = p.connections };
  }

  pub multicast-Steady :
      (type : Str) (extra : StdMap Str) → Steady (send_multicast_update env type extra)
  unfolding send_multicast_update keep_reached
  multicast-Steady type extra av n = record {
    run = λ s p. (next (broadcast-Steady s.subscribers _) keep_reached-Steady av n).run s p;
  }

  pub session_id-Steady : Steady (generate_session_id env)
  unfolding generate_session_id
  session_id-Steady av n = record {
    run = λ s p. record { places = p.places; connections = p.connections };
  }

  pub ticket_id-Steady : Steady (generate_ticket_id env)
  unfolding generate_ticket_id now
  ticket_id-Steady av n = record {
    run = λ s p. record { places = p.places; connections = p.connections };
  }

  pub transaction_id-Steady : Steady (generate_transaction_id env)
  unfolding generate_transaction_id now
  transaction_id-Steady av n = record {
    run = λ s p. record { places = p.places; connections = p.connections };
  }
