-- ===== src/Central/Answers/Steps.antt =====
-- The steps that the handlers of server/CentralServer.cpp are made of: which of them answer.
use protokol_javni_prevoz.Prelude.{
  ℕ, ◌≡◌, refl, sym, ◌∙◌, ap, subst, true, false, List, [], ◌∷◌, arith, Bool-cases, Option-cases,
  inl, inr,
}
use protokol_javni_prevoz.Prelude.Int.{ℤ}
use protokol_javni_prevoz.Result.{Exception, Result, done, threw, blocked}
use protokol_javni_prevoz.Text.{Str}
use protokol_javni_prevoz.StdMap.{StdMap}
use protokol_javni_prevoz.Message.{Message, get_int, has_key}
use protokol_javni_prevoz.Platform.{Platform}
use protokol_javni_prevoz.Database.{Db}
use protokol_javni_prevoz.Database.Pool.{
  Pool, lend, first_available, get_connection, return_connection, with_connection,
}
use protokol_javni_prevoz.Database.Vehicles.Bounds.{Keeps, SeatedIn}
use protokol_javni_prevoz.Central.{
  Session, Server, Handler, pure, read_int, read_int_or, acquire, call, release, now,
  current_timestamp, send, send_response, send_error_response, send_success_response, broadcast,
  send_multicast_update, generate_session_id, generate_ticket_id, generate_transaction_id,
}
use protokol_javni_prevoz.Central.Sessions.{store_session, touch_session, find_session, subscribe}
use protokol_javni_prevoz.Central.Answers.Kinds.{
  count_answers-append, error-is_update, success-is_update, update-is_update, counts_one,
  counts_none,
}
use protokol_javni_prevoz.Central.Answers.{
  is_update, count_answers, NumberField, key_of, Throws, Fine, Leaves, Silent, Answers, silently,
  behind, either_Silent,
}

return_connection-file : {R : Type 0} (i : ℕ) (p : Pool R) → (return_connection i p).file ≡ p.file
unfolding return_connection
return_connection-file i p = ground arith

keep_reached : {R : Type 0} → List ℕ → Handler R (Unit {0})
keep_reached reached s = (done tt, record s { subscribers = reached })

module _ {env : Platform} {U : Type 0} {client : ℕ} where
  open env use {Real, delivers}

  -- A step that keeps the tables and what was sent.
  still :
      {A : Type 0} {m : Handler Real A}
      → ((s : Server Real)
          → (a : A) × (s' : Server Real) × (m s ≡ (done a, s'))
            × (s'.pool.file.tables ≡ s.pool.file.tables)
            × (s'.sent ≡ s.sent))
      → Silent env U client m
  still {m} h n = record {
    run = λ s p.
        let (a, s', e, t, o) = h s in
        subst (λ r. Leaves env U (λ _. Fine env client n) r) (sym e)
          (record {
            seats = subst SeatedIn (sym t) p.seats;
            answered = λ reaches. ap (count_answers client) o ∙ p.answered reaches;
          });
  }

  pub pure-Silent : {A : Type 0} (a : A) → Silent env U client (pure a)
  pure-Silent a n = record { run = λ s p. p }

  pub now-Silent : Silent env U client (now env)
  unfolding now
  now-Silent = still (λ s. (_, _, refl, refl, refl))

  pub current_timestamp-Silent : Silent env U client (current_timestamp env)
  unfolding current_timestamp
  current_timestamp-Silent = silently now-Silent (λ t. pure-Silent (env.local_time t))

  pub find_session-Silent : (id : Str) → Silent env U client (find_session id)
  unfolding find_session
  find_session-Silent id = still (λ s. (_, _, refl, refl, refl))

  pub touch_session-Silent :
      (id : Str) (session : Session) (t : ℕ) → Silent env U client (touch_session id session t)
  unfolding touch_session
  touch_session-Silent id session t = still (λ s. (_, _, refl, refl, refl))

  pub store_session-Silent : (session : Session) → Silent env U client (store_session session)
  unfolding store_session
  store_session-Silent session = still (λ s. (_, _, refl, refl, refl))

  pub subscribe-Silent : (c : ℕ) → Silent env U client (subscribe c)
  unfolding subscribe
  subscribe-Silent c = still (λ s. (_, _, refl, refl, refl))

  pub session_id-Silent : Silent env U client (generate_session_id env)
  unfolding generate_session_id
  session_id-Silent = still (λ s. (_, _, refl, refl, refl))

  pub ticket_id-Silent : Silent env U client (generate_ticket_id env)
  unfolding generate_ticket_id now
  ticket_id-Silent = still (λ s. (_, _, refl, refl, refl))

  pub transaction_id-Silent : Silent env U client (generate_transaction_id env)
  unfolding generate_transaction_id now
  transaction_id-Silent = still (λ s. (_, _, refl, refl, refl))

  reader-Silent :
      (r : Result ℤ) → ((e : Exception) → r ≡ threw e → U) → Silent env U client (λ s. (r, s))
  reader-Silent (done a) h n = record { run = λ s p. p }
  reader-Silent (threw e) h n = record { run = λ s p. (p.seats, h e refl) }
  reader-Silent blocked h n = record { run = λ s p. p.seats }

  pub read_int-Silent :
      (m : Message) (f : NumberField) → Throws U m → Silent env U client (read_int m (key_of f))
  unfolding read_int
  read_int-Silent m f h = reader-Silent (get_int m (key_of f)) (h f)

  pub read_int_or-Silent :
      (m : Message) (f : NumberField) (z : ℤ)
      → Throws U m
      → Silent env U client (read_int_or m (key_of f) z)
  unfolding read_int_or
  read_int_or-Silent m f z h =
      either_Silent (has_key m (key_of f)) (read_int-Silent m f h) (pure-Silent z)

  pub acquire-Silent : Silent env U client acquire
  unfolding acquire get_connection lend
  acquire-Silent n = record {
    run = λ s p. elim (Option-cases (first_available s.pool.available)) [
      | inl e ↦ rw (e, acquire, get_connection, lend, Leaves) p.seats
      | inr (i, e) ↦
          rw (e, acquire, get_connection, lend, Leaves)
            (record { seats = p.seats; answered = p.answered })
    ];
  }

  pub call-Silent : {A : Type 0} {m : Db Real A} (i : ℕ) → Keeps m → Silent env U client (call i m)
  unfolding call with_connection
  call-Silent i h n = record {
    run = λ s p. record { seats = h.run _ p.seats; answered = p.answered };
  }

  pub release-Silent : (i : ℕ) → Silent env U client (release i)
  unfolding release return_connection
  release-Silent i n = record {
    run = λ s p. record {
      seats = subst (λ f. SeatedIn f.tables) (sym (return_connection-file i s.pool)) p.seats;
      answered = p.answered;
    };
  }

  send-Answers : (m : Message) → is_update m ≡ false → Answers env U client (send env client m)
  unfolding send
  send-Answers m h n = record {
    run = λ s p. elim (Bool-cases (delivers s.pool.file.calls client)) [
      | inl e ↦
          rw (e, Leaves)
            (record {
              seats = p.seats;
              answered = λ reaches.
                  count_answers-append client client m s.sent
                  ∙ omega (arith, p.answered reaches, counts_one client m h);
            })
      | inr e ↦
          rw (e, Leaves)
            (record {
              seats = p.seats;
              answered = λ reaches. absurd (ground (arith, reaches s.pool.file.calls client));
            })
    ];
  }

  send-Silent : (c : ℕ) (m : Message) → is_update m ≡ true → Silent env U client (send env c m)
  unfolding send
  send-Silent c m h n = record {
    run = λ s p. elim (Bool-cases (delivers s.pool.file.calls c)) [
      | inl e ↦
          rw (e, Leaves)
            (record {
              seats = p.seats;
              answered = λ reaches.
                  count_answers-append client c m s.sent
                  ∙ omega (arith, p.answered reaches, counts_none client c m h);
            })
      | inr e ↦ rw (e, Leaves) (record { seats = p.seats; answered = p.answered })
    ];
  }

  pub send_response-Answers :
      (m : Message) → is_update m ≡ false → Answers env U client (send_response env client m)
  unfolding send_response
  send_response-Answers m h = behind (send-Answers m h) (λ _. pure-Silent tt)

  pub error-Answers :
      (text : Str) (code : ℤ) → Answers env U client (send_error_response env client text code)
  unfolding send_error_response
  error-Answers text code = send_response-Answers _ (error-is_update text code)

  pub success-Answers : (text : Str) → Answers env U client (send_success_response env client text)
  unfolding send_success_response
  success-Answers text = send_response-Answers _ (success-is_update text [])

  broadcast-Silent :
      (cs : List ℕ) (m : Message) → is_update m ≡ true → Silent env U client (broadcast env cs m)
  unfolding broadcast
  broadcast-Silent [] m h = pure-Silent []
  broadcast-Silent (c ∷ cs) m h =
      silently (send-Silent c m h) (λ _. silently (broadcast-Silent cs m h) (λ _. pure-Silent _))

  keep_reached-Silent : (reached : List ℕ) → Silent env U client (keep_reached reached)
  unfolding keep_reached
  keep_reached-Silent reached = still (λ s. (_, _, refl, refl, refl))

  pub multicast-Silent :
      (type : Str) (extra : StdMap Str) → Silent env U client (send_multicast_update env type extra)
  unfolding send_multicast_update keep_reached
  multicast-Silent type extra n = record {
    run = λ s p.
        (silently (broadcast-Silent s.subscribers _ (update-is_update type extra))
            keep_reached-Silent n).run
          s p;
  }
