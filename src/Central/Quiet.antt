-- ===== src/Central/Quiet.antt =====
-- Properties of the tables along the steps of server/CentralServer.cpp that only answer, wait or
-- count.
use protokol_javni_prevoz.Prelude.{ℕ, ◌≡◌, subst, sym, Bool-cases, inl, inr, List, [], ◌∷◌, arith}
use protokol_javni_prevoz.Prelude.Int.{ℤ}
use protokol_javni_prevoz.Result.{done}
use protokol_javni_prevoz.Text.{Str}
use protokol_javni_prevoz.StdMap.{StdMap}
use protokol_javni_prevoz.Message.{Message}
use protokol_javni_prevoz.Platform.{Platform}
use protokol_javni_prevoz.Database.Rows.{Tables}
use protokol_javni_prevoz.Database.{Db, Database}
use protokol_javni_prevoz.Database.Pool.{Pool, return_connection, with_connection}
use protokol_javni_prevoz.Central.{
  Server, Handler, ◌>>=◌, pure, call, release, last_error, now, current_timestamp, send,
  send_response, send_error_response, broadcast, send_multicast_update, generate_ticket_id,
  generate_transaction_id,
}
use protokol_javni_prevoz.Central.Triple.{Triple, Ends, NeverThrows, bind}

-- A property of the tables, of a server.
abbrev pub On : {R : Type 0} → (Tables R → Type 0) → Server R → Type 0
On P s = P s.pool.file.tables

abbrev pub Quiet : {R A : Type 0} → Handler R A → Type 1
Quiet {R} m = (P : Tables R → Type 0) → Triple NeverThrows (On P) m (λ a. On P)

pub pure-Quiet : {R A : Type 0} (a : A) → Quiet (pure {R = R} a)
pure-Quiet a P = record { run = λ s p. p }

pub next :
    {R A B : Type 0} {m : Handler R A} {f : A → Handler R B}
    → Quiet m
    → ((a : A) → Quiet (f a))
    → Quiet (m >>= f)
next t u P = bind (t P) (λ a. u a P)

pub call-On :
    {R A : Type 0} (i : ℕ) (m : Db R A) (P : Tables R → Type 0) (Q : A → Tables R → Type 0)
    → ((db : Database R) → P db.tables → Q (m db).0 (m db).1.tables)
    → Triple NeverThrows (On P) (call i m) (λ a. On (Q a))
unfolding call with_connection
call-On i m P Q h = record { run = λ s p. h _ p }

pub last_error-Quiet : {R : Type 0} (i : ℕ) → Quiet (call {R = R} i last_error)
unfolding last_error
last_error-Quiet i P = call-On i last_error P (λ a. P) (λ db p. p)

return_connection-file : {R : Type 0} (i : ℕ) (p : Pool R) → (return_connection i p).file ≡ p.file
unfolding return_connection
return_connection-file i p = ground arith

pub release-Quiet : {R : Type 0} (i : ℕ) → Quiet (release {R = R} i)
unfolding release
release-Quiet i P = record {
  run = λ s p. subst (λ f. P f.tables) (sym (return_connection-file i s.pool)) p;
}

module _ (env : Platform) where
  open env use {Real, delivers}

  now-Quiet : Quiet (now env)
  unfolding now
  now-Quiet P = record { run = λ s p. p }

  pub current_timestamp-Quiet : Quiet (current_timestamp env)
  unfolding current_timestamp
  current_timestamp-Quiet = next now-Quiet (λ t. pure-Quiet (env.local_time t))

  send-Quiet : (client : ℕ) (m : Message) → Quiet (send env client m)
  unfolding send
  send-Quiet client m P = record {
    run = λ s p. elim (Bool-cases (delivers s.pool.file.calls client)) [
      | inl e ↦ rw (e, Ends) p
      | inr e ↦ rw (e, Ends) p
    ];
  }

  pub send_response-Quiet : (client : ℕ) (m : Message) → Quiet (send_response env client m)
  unfolding send_response
  send_response-Quiet client m = next (send-Quiet client m) (λ _. pure-Quiet tt)

  pub error-Quiet :
      (client : ℕ) (text : Str) (code : ℤ) → Quiet (send_error_response env client text code)
  unfolding send_error_response
  error-Quiet client text code = send_response-Quiet client _

  broadcast-Quiet : (cs : List ℕ) (m : Message) → Quiet (broadcast env cs m)
  unfolding broadcast
  broadcast-Quiet [] m = pure-Quiet []
  broadcast-Quiet (c ∷ cs) m =
      next (send-Quiet c m) (λ _. next (broadcast-Quiet cs m) (λ _. pure-Quiet _))

  keep_reached : List ℕ → Handler Real (Unit {0})
  keep_reached reached s = (done tt, record s { subscribers = reached })

  keep_reached-Quiet : (reached : List ℕ) → Quiet (keep_reached reached)
  unfolding keep_reached
  keep_reached-Quiet reached P = record { run = λ s p. p }

  pub multicast-Quiet :
      (type : Str) (extra : StdMap Str) → Quiet (send_multicast_update env type extra)
  unfolding send_multicast_update keep_reached
  multicast-Quiet type extra P = record {
    run = λ s p. (next (broadcast-Quiet s.subscribers _) keep_reached-Quiet P).run s p;
  }

  pub ticket_id-Quiet : Quiet (generate_ticket_id env)
  unfolding generate_ticket_id now
  ticket_id-Quiet P = record { run = λ s p. p }

  pub transaction_id-Quiet : Quiet (generate_transaction_id env)
  unfolding generate_transaction_id now
  transaction_id-Quiet P = record { run = λ s p. p }
