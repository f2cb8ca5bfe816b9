-- ===== src/Central/Dispatch/Answering.antt =====
-- processMessage and handleClientMessage of server/CentralServer.cpp: that every request is
-- answered, and that no request leaves a vehicle with a negative number of free seats.
use protokol_javni_prevoz.Prelude.{ℕ, ◌+◌, ◌<◌, ◌≡◌, ◌≢◌, refl, List, [], ◌∷◌, ◌==◌, length, arith}
use protokol_javni_prevoz.Result.{Exception, Result, done, threw, blocked}
use protokol_javni_prevoz.Message.{Message, get_int}
use protokol_javni_prevoz.Message.Kind
use protokol_javni_prevoz.Platform.{Platform}
use protokol_javni_prevoz.Database.Pool.Lending.{count_free, IsPool}
use protokol_javni_prevoz.Central.{Server}
use protokol_javni_prevoz.Central.Triple.{Ends, NeverThrows}
use protokol_javni_prevoz.Central.Dispatch.{
  process_message, process_all, disconnect, handle_client_message,
}
use protokol_javni_prevoz.Central.Dispatch.Pooling.{PoolKept, handle_client_message-PoolKept}
use protokol_javni_prevoz.Central.Answers.{
  count_answers, NumberField, key_of, Throws, Reaches, Seats, Fine, Leaves, Walk, Answers, chain,
  either,
}
use protokol_javni_prevoz.Central.Answers.Steps.{error-Answers}
use protokol_javni_prevoz.Central.Answers.Handlers.{
  connect-Answers, auth-Answers, registration-Answers, device-Answers, deletion-Answers,
}
use protokol_javni_prevoz.Central.Answers.Trips.{reservation-Answers, purchase-Answers}
use protokol_javni_prevoz.Central.Answers.Management.{
  creation-Answers, add_member-Answers, remove_member-Answers, price-Answers, vehicle-Answers,
  capacity-Answers,
}

-- Of each message of a list.
abbrev pub Each : (Message → Type 0) → List Message → Type 0
Each P [] = Unit {0}
Each P (m ∷ ms) = P m × Each P ms

-- Every number that a handler may ask for can be read.
abbrev pub IsReadable : Message → Type 0
IsReadable m = (f : NumberField) (e : Exception) → get_int m (key_of f) ≢ threw e

module _ (env : Platform) (U : Type 0) (client : ℕ) where
  process_message-Answers :
      (m : Message) → Throws U m → Answers env U client (process_message env m client)
  unfolding process_message
  process_message-Answers m bad =
      either (m.header.type == Kind.connect_request) (connect-Answers env U client m) (
        either (m.header.type == Kind.auth_request) (auth-Answers env U client m) (
          either (m.header.type == Kind.register_user) (registration-Answers env U client m bad) (
            either (m.header.type == Kind.register_device) (device-Answers env U client m bad) (
              either (m.header.type == Kind.reserve_seat) (reservation-Answers env U client m bad) (
                either (m.header.type == Kind.purchase_ticket) (purchase-Answers env U client m bad)
                  (either (m.header.type == Kind.create_group) (creation-Answers env U client m) (
                    either (m.header.type == Kind.add_member_to_group)
                      (add_member-Answers env U client m)
                      (either (m.header.type == Kind.delete_group_member)
                        (remove_member-Answers env U client m)
                        (either (m.header.type == Kind.delete_user)
                          (deletion-Answers env U client m)
                          (either (m.header.type == Kind.update_price)
                            (price-Answers env U client m bad)
                            (either (m.header.type == Kind.update_vehicle)
                              (vehicle-Answers env U client m bad)
                              (either (m.header.type == Kind.update_capacity)
                                (capacity-Answers env U client m bad)
                                (error-Answers _ _)))))))))))))

  process_all-Walk :
      (ms : List Message) (n k : ℕ)
      → n + length ms ≡ k
      → Each (Throws U) ms
      → Walk env U (Fine env client n) (process_all env ms client) (λ _. Fine env client k)
  unfolding process_all
  process_all-Walk [] n k e bad = record {
    run =
        λ s p. record { seats = p.seats; answered = λ reaches. omega (arith, p.answered reaches) };
  }
  process_all-Walk (m ∷ ms) n k e bad =
      chain env U (process_message-Answers m bad.0 n)
        (λ _. process_all-Walk ms (n + 1) k (omega arith) bad.1)

  handled :
      (ms : List Message) (n : ℕ)
      → Each (Throws U) ms
      → Walk env U
          (Fine env client n)
          (handle_client_message env ms client)
          (λ _. Fine env client (n + length ms))
  unfolding handle_client_message disconnect
  handled ms n bad =
      chain env U (process_all-Walk ms n (n + length ms) refl bad)
        (λ _. record { run = λ s p. record { seats = p.seats; answered = p.answered } })

any_Throws : (ms : List Message) → Each (Throws (Unit {0})) ms
any_Throws [] = tt
any_Throws (m ∷ ms) = (λ f e h. tt, any_Throws ms)

readable_Throws : (ms : List Message) → Each IsReadable ms → Each (Throws ⊥) ms
readable_Throws [] h = tt
readable_Throws (m ∷ ms) h = (λ f e x. h.0 f e x, readable_Throws ms h.1)

module _ (env : Platform) where
  at_start :
      (client : ℕ) (s : Server env.Real)
      → Seats env s
      → Fine env client (count_answers client s.sent) s
  at_start client s p = record { seats = p; answered = λ reaches. refl }

  left_over :
      (client n : ℕ) (r : Result (Unit {0}) × Server env.Real)
      → Leaves env (Unit {0}) (λ _. Fine env client n) r
      → Seats env r.1
  left_over client n (done x, s) h = h.seats
  left_over client n (threw x, s) h = h.0
  left_over client n (blocked, s) h = h

  -- No client makes the free seats of a vehicle negative: if no vehicle has a negative number,
  -- then none has after a client's messages were handled, whatever they are, whatever fails, and
  -- also where a handler ends in an exception or waits.
  pub handle_client_message-Seats :
      (ms : List Message) (client : ℕ) (s : Server env.Real)
      → Seats env s
      → Seats env (handle_client_message env ms client s).1
  handle_client_message-Seats ms client s p =
      left_over client _ (handle_client_message env ms client s)
        ((handled env (Unit {0}) client ms _ (any_Throws ms)).run s (at_start client s p))

  all_answered :
      (client n : ℕ) (s : Server env.Real) (r : Result (Unit {0}) × Server env.Real)
      → Reaches env
      → PoolKept env s r
      → Leaves env ⊥ (λ _. Fine env client n) r
      → Ends NeverThrows (λ _ s'. count_answers client s'.sent ≡ n) r
  all_answered client n s (done x, s') reaches p h = h.answered reaches
  all_answered client n s (threw x, s') reaches p h = h.1
  all_answered client n s (blocked, s') reaches p h = p

  -- Where every write arrives, the pool has a place for each connection and one of them free, no
  -- vehicle has a negative number of free seats, and the numeric fields of the messages can be
  -- read: handleClientMessage ends without a wait and without an exception, and it has sent the
  -- client exactly one answer for each of its messages, whatever the messages are and whichever
  -- calls of SQLite fail; updates do not count as answers.
  pub handle_client_message_answers :
      (ms : List Message) (client : ℕ) (s : Server env.Real)
      → IsPool s.pool
      → 0 < count_free s.pool.available
      → Seats env s
      → Reaches env
      → Each IsReadable ms
      → Ends NeverThrows
          (λ _ s'. count_answers client s'.sent ≡ count_answers client s.sent + length ms)
          (handle_client_message env ms client s)
  handle_client_message_answers ms client s pool free p reaches readable =
      all_answered client _ s (handle_client_message env ms client s) reaches
        (handle_client_message-PoolKept env ms client s pool free)
        ((handled env ⊥ client ms _ (readable_Throws ms readable)).run s (at_start client s p))
