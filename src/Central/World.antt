-- ===== src/Central/World.antt =====
-- What the steps of server/CentralServer.cpp do to the tables and to what the clients have received,
-- when no call of SQLite fails and every client can be reached.
pub mod Finds
use protokol_javni_prevoz.Prelude.{
  ℕ, ◌+◌, ◌<◌, ◌≡◌, refl, sym, ◌∙◌, ap, Bool, true, false, none, some, List, [], ◌∷◌, ◌++◌, map,
  arith, Option-cases, inl, inr, subst,
}
use mathlib.Core.List.{append_assoc, append-nil}
use protokol_javni_prevoz.Text.{Str}
use protokol_javni_prevoz.Prelude.Int.{ℤ}
use protokol_javni_prevoz.StdMap.{StdMap}
use protokol_javni_prevoz.Message.{Message}
use protokol_javni_prevoz.Message.Factory.{
  create_error_response, create_success_response, create_multicast_update,
}
use protokol_javni_prevoz.Platform.{Platform}
use protokol_javni_prevoz.Database.Rows.{Tables}
use protokol_javni_prevoz.Database.{Db, Database}
use protokol_javni_prevoz.Database.Pool.{
  Pool, lend, first_available, get_connection, return_connection, with_connection,
}
use protokol_javni_prevoz.Database.Pool.Lending.{count_free, first_available-none}
use protokol_javni_prevoz.Central.{
  Server, Handler, ◌>>=◌, ◌>>◌, pure, acquire, call, release, now, send, send_response,
  send_error_response, send_success_response, broadcast, send_multicast_update,
}
use protokol_javni_prevoz.Central.Triple.{Triple, Ends, NeverThrows, bind, map_Ends, given}

-- The tables, the subscribers, and all that was sent so far.
pub record World {R : Type 0} (t : Tables R) (subs : List ℕ) (out : List (ℕ × Message))
    (s : Server R) : Type 0 where
  pub tables : s.pool.file.tables ≡ t
  pub subscribers : s.subscribers ≡ subs
  pub sent : s.sent ≡ out

-- Such a state with a free connection.
pub record Open {R : Type 0} (t : Tables R) (subs : List ℕ) (out : List (ℕ × Message))
    (s : Server R) : Type 0 where
  pub world : World t subs out s
  pub free : 0 < count_free s.pool.available

-- One message to each client of a list.
abbrev pub to_all : List ℕ → Message → List (ℕ × Message)
to_all [] m = []
to_all (c ∷ cs) m = (c, m) ∷ to_all cs m

return_connection-file : {R : Type 0} (i : ℕ) (p : Pool R) → (return_connection i p).file ≡ p.file
unfolding return_connection
return_connection-file i p = ground arith

module _ {R : Type 0} (t : Tables R) (subs : List ℕ) (out : List (ℕ × Message)) where
  acquire-Ends :
      (s : Server R) → Open t subs out s → Ends NeverThrows (λ i. World t subs out) (acquire s)
  unfolding acquire get_connection lend
  acquire-Ends s p = elim (Option-cases (first_available s.pool.available)) [
    | inl e ↦ absurd (omega (arith, p.free, first_available-none s.pool.available e))
    | inr (i, e) ↦
        rw (e, Ends, acquire, get_connection, lend)
          (record {
            tables = p.world.tables;
            subscribers = p.world.subscribers;
            sent = p.world.sent;
          })
  ]

  pub acquire_lem : Triple NeverThrows (Open t subs out) acquire (λ i. World t subs out)
  acquire_lem = record { run = acquire-Ends }

  pub release_lem :
      (i : ℕ) → Triple NeverThrows (World t subs out) (release i) (λ _. World t subs out)
  unfolding release return_connection
  release_lem i = record {
    run = λ s p. record {
      tables = ap (λ f. f.tables) (return_connection-file i s.pool) ∙ p.tables;
      subscribers = p.subscribers;
      sent = p.sent;
    };
  }

  -- A method of which it is known what it makes of the tables.
  pub call_lem :
      {A : Type 0} (i : ℕ) (m : Db R A) (Q : A → Type 0) (t' : Tables R)
      → ((db : Database R) → db.tables ≡ t → Q (m db).0 × ((m db).1.tables ≡ t'))
      → Triple NeverThrows (World t subs out) (call i m) (λ a s. Q a × World t' subs out s)
  unfolding call with_connection
  call_lem i m Q t' h = record {
    run = λ s p.
        let r = h _ p.tables in
        (r.0, record { tables = r.1; subscribers = p.subscribers; sent = p.sent });
  }

-- No call of SQLite fails, and every write arrives.
pub record Reliable (env : Platform) : Type 1 where
  pub never_fails : (n : ℕ) → env.fault n ≡ none
  pub reaches : (n c : ℕ) → env.delivers n c ≡ true

module _ (env : Platform) (reliable : Reliable env) (t : Tables env.Real) (subs : List ℕ) where
  open env use {Real}

  pub now_lem :
      (out : List (ℕ × Message))
      → Triple NeverThrows (World t subs out) (now env) (λ _. World t subs out)
  unfolding now
  now_lem out = record {
    run = λ s p. record { tables = p.tables; subscribers = p.subscribers; sent = p.sent };
  }

  pub send_lem :
      (client : ℕ) (m : Message) (out : List (ℕ × Message))
      → Triple NeverThrows
          (World t subs out)
          (send env client m)
          (λ arrived s. (arrived ≡ true) × World t subs (out ++ (client, m) ∷ []) s)
  unfolding send
  send_lem client m out = record {
    run = λ s p.
        rw (reliable.reaches s.pool.file.calls client, Ends)
          (
            refl,
            record {
              tables = p.tables;
              subscribers = p.subscribers;
              sent = ap (λ l. l ++ (client, m) ∷ []) p.sent;
            },
          );
  }

  pub send_response_lem :
      (client : ℕ) (m : Message) (out : List (ℕ × Message))
      → Triple NeverThrows
          (World t subs out)
          (send_response env client m)
          (λ _. World t subs (out ++ (client, m) ∷ []))
  unfolding send_response
  send_response_lem client m out =
      bind (send_lem client m out) (λ arrived. record { run = λ s p. p.1 })

  broadcast_lem :
      (cs : List ℕ) (m : Message) (out : List (ℕ × Message))
      → Triple NeverThrows
          (World t subs out)
          (broadcast env cs m)
          (λ reached s. (reached ≡ cs) × World t subs (out ++ to_all cs m) s)
  unfolding broadcast
  broadcast_lem [] m out = record { run = λ s p. (refl, rw (append-nil out) p) }
  broadcast_lem (c ∷ cs) m out = bind (send_lem c m out) (λ arrived. given (λ a.
      bind (broadcast_lem cs m (out ++ (c, m) ∷ [])) (λ reached. record {
        run = λ s p. (
          rw a (ap (λ l. c ∷ l) p.0),
          rw (sym (append_assoc out ((c, m) ∷ []) (to_all cs m))) p.1,
        );
      })))

  pub multicast_lem :
      (type : Str) (extra : StdMap Str) (out : List (ℕ × Message))
      → Triple NeverThrows
          (World t subs out)
          (send_multicast_update env type extra)
          (λ _. World t subs (out ++ to_all subs (create_multicast_update type extra)))
  unfolding send_multicast_update
  multicast_lem type extra out = record {
    run = λ s p.
        let update = create_multicast_update type extra in
        (bind (broadcast_lem s.subscribers update out) (λ reached. record {
          run = λ s' q. record {
            tables = q.1.tables;
            subscribers = q.0 ∙ p.subscribers;
            sent = q.1.sent ∙ ap (λ l. out ++ to_all l update) p.subscribers;
          };
        })).run
          s p;
  }

pub map_World :
    {R A : Type 0} {t : Tables R} {subs : List ℕ} {out out' : List (ℕ × Message)} {m : Handler R A}
    {P : Server R → Type 0}
    → out ≡ out'
    → Triple NeverThrows P m (λ _. World t subs out)
    → Triple NeverThrows P m (λ _. World t subs out')
map_World {R} {A} {t} {subs} {m} {P} e h =
    subst (λ o. Triple {R = R} {A = A} NeverThrows P m (λ _. World t subs o)) e h
