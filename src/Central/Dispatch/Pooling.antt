-- ===== src/Central/Dispatch/Pooling.antt =====
-- processMessage and handleClientMessage of server/CentralServer.cpp, and the connections of the
-- pool.
use protokol_javni_prevoz.Prelude.{ℕ, sym, ◌<◌, ◌≡◌, refl, List, [], ◌∷◌, ◌==◌, length}
use protokol_javni_prevoz.Result.{Result, done, threw, blocked}
use protokol_javni_prevoz.Message.{Message}
use protokol_javni_prevoz.Message.Kind
use protokol_javni_prevoz.Platform.{Platform}
use protokol_javni_prevoz.Database.Pool.Lending.{count_free, IsPool}
use protokol_javni_prevoz.Central.{Server}
use protokol_javni_prevoz.Central.Triple.{Ends, MayThrow}
use protokol_javni_prevoz.Central.Pooling.{At, Steady}
use protokol_javni_prevoz.Central.Pooling.Rules.{Settles, steady, either, and_then}
use protokol_javni_prevoz.Central.Pooling.Steps.{pure-Steady, error-Steady}
use protokol_javni_prevoz.Central.Pooling.Handlers.{
  connect-Settles, auth-Settles, registration-Settles, device-Settles, deletion-Settles,
}
use protokol_javni_prevoz.Central.Pooling.Trips.{reservation-Settles, purchase-Settles}
use protokol_javni_prevoz.Central.Pooling.Management.{
  creation-Settles, add_member-Settles, remove_member-Settles, price-Settles, vehicle-Settles,
  capacity-Settles,
}
use protokol_javni_prevoz.Central.Dispatch.{
  process_message, process_all, handle_client_message, disconnect,
}

module _ (env : Platform) where
  process_message-Settles : (m : Message) (client : ℕ) → Settles (process_message env m client)
  unfolding process_message
  process_message-Settles m client =
      either (m.header.type == Kind.connect_request) (connect-Settles env m client) (
        either (m.header.type == Kind.auth_request) (auth-Settles env m client) (
          either (m.header.type == Kind.register_user) (registration-Settles env m client) (
            either (m.header.type == Kind.register_device) (device-Settles env m client) (
              either (m.header.type == Kind.reserve_seat) (reservation-Settles env m client) (
                either (m.header.type == Kind.purchase_ticket) (purchase-Settles env m client) (
                  either (m.header.type == Kind.create_group) (creation-Settles env m client) (
                    either (m.header.type == Kind.add_member_to_group)
                      (add_member-Settles env m client)
                      (either (m.header.type == Kind.delete_group_member)
                        (remove_member-Settles env m client)
                        (either (m.header.type == Kind.delete_user) (deletion-Settles env m client)
                          (either (m.header.type == Kind.update_price) (price-Settles env m client)
                            (either (m.header.type == Kind.update_vehicle)
                              (vehicle-Settles env m client)
                              (either (m.header.type == Kind.update_capacity)
                                (capacity-Settles env m client)
                                (steady (error-Steady env client _ _))))))))))))))

  process_all-Settles : (ms : List Message) (client : ℕ) → Settles (process_all env ms client)
  unfolding process_all
  process_all-Settles [] client = steady (pure-Steady tt)
  process_all-Settles (m ∷ ms) client =
      and_then (process_message-Settles m client) (λ _. process_all-Settles ms client)

  abbrev pub PoolKept : Server env.Real → Result (Unit {0}) × Server env.Real → Type 0
  PoolKept s (done x, s') = s'.pool.available ≡ s.pool.available
  PoolKept s (threw e, s') = Unit {0}
  PoolKept s (blocked, s') = ⊥

  disconnect-Steady : (client : ℕ) → Steady (disconnect env client)
  unfolding disconnect
  disconnect-Steady client av n = record {
    run = λ s p. record { places = p.places; connections = p.connections };
  }

  handle_client_message-Settles :
      (ms : List Message) (client : ℕ) → Settles (handle_client_message env ms client)
  unfolding handle_client_message
  handle_client_message-Settles ms client =
      and_then (process_all-Settles ms client) (λ _. steady (disconnect-Steady client))

  Ends-PoolKept :
      (s : Server env.Real) (n : ℕ) (r : Result (Unit {0}) × Server env.Real)
      → Ends MayThrow (λ _. At s.pool.available n) r
      → PoolKept s r
  Ends-PoolKept s n (done x, s') e = e.places
  Ends-PoolKept s n (threw x, s') e = tt
  Ends-PoolKept s n (blocked, s') e = e

  -- On a pool with a place for each connection and one of them free, a client whose messages are
  -- handled, whatever they are and whatever fails, never waits for a connection; and when no
  -- handler throws, exactly the connections that were free before are free after the client has
  -- gone.
  pub handle_client_message-PoolKept :
      (ms : List Message) (client : ℕ) (s : Server env.Real)
      → IsPool s.pool
      → 0 < count_free s.pool.available
      → PoolKept s (handle_client_message env ms client s)
  unfolding handle_client_message disconnect
  handle_client_message-PoolKept ms client s p h =
      Ends-PoolKept s _ (handle_client_message env ms client s) (
        (handle_client_message-Settles ms client s.pool.available (length s.pool.available)
            (record { free = h; full_size = refl })).run
          s (record { places = refl; connections = sym p.places }))
