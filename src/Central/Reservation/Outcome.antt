-- ===== src/Central/Reservation/Outcome.antt =====
-- handleSeatReservation of server/CentralServer.cpp against a description of what a reservation is:
-- which vehicle a request means, what becomes of the tables, and who is told what.
use protokol_javni_prevoz.Central.Reservation.Meaning.{
  by_uri, by_other_type, by_route, meant, reserved_tables, reserved_messages,
}
use protokol_javni_prevoz.StdMap.{StdMap}
use protokol_javni_prevoz.Prelude.{
  ℕ, ◌+◌, ◌<◌, ◌≡◌, refl, true, false, Option, none, some, List, [], ◌∷◌, ◌++◌, ◌==◌, arith,
  Bool-cases, inl, inr,
}
use mathlib.Core.List.{append_assoc}
use protokol_javni_prevoz.Prelude.Int.{ℤ, pos, leb_ℤ, ◌-ℤ◌}
use protokol_javni_prevoz.Result.{done}
use protokol_javni_prevoz.Text.{Str, str, is_empty}
use protokol_javni_prevoz.Message.{Message, get_int}
use protokol_javni_prevoz.Message.Factory.{create_error_response, create_multicast_update}
use protokol_javni_prevoz.Platform.{Platform}
use protokol_javni_prevoz.Database.Rows.{Vehicle, Tables}
use protokol_javni_prevoz.Database.{c_str, prepare_statement, select, step, expect_done}
use protokol_javni_prevoz.Database.Vehicles.{
  find_vehicle, find_on_route, update_rows, get_vehicle, get_vehicle_by_route_and_type, found,
  update_seat_availability, update_vehicles,
}
use protokol_javni_prevoz.Database.Vehicles.Seats.{with_seats}
use protokol_javni_prevoz.Database.Pool.Lending.{count_free}
use protokol_javni_prevoz.Central.{
  Server, ◌>>◌, to_byte, call, release, get_string_or, send_error_response, send_response,
  send_multicast_update,
}
use protokol_javni_prevoz.Central.Reservation.{
  vehicle_types, route_or, find_by_uri, find_other_type, find_by_route, find_reserved, reserve_on,
  reserve_found, handle_seat_reservation,
}
use protokol_javni_prevoz.Central.Triple.{Triple, Ends, NeverThrows, bind, given}
use protokol_javni_prevoz.Central.World.{
  World, Open, Reliable, to_all, acquire_lem, call_lem, release_lem, send_response_lem,
  multicast_lem, map_World,
}
use protokol_javni_prevoz.Central.World.Finds.{
  Finds, pure-Finds, read_first, after, either-Finds, choose-Finds,
}

module _ (env : Platform) (reliable : Reliable env) (t : Tables env.Real) (subs : List ℕ)
    (out : List (ℕ × Message)) where
  open env use {Real}

  error_lem :
      (client : ℕ) (text : Str) (code : ℤ)
      → Triple NeverThrows
          (World t subs out)
          (send_error_response env client text code)
          (λ _. World t subs (out ++ (client, create_error_response text code) ∷ []))
  unfolding send_error_response
  error_lem client text code = send_response_lem env reliable t subs client _ out

  vehicle-Finds :
      (i : ℕ) (uri : Str)
      → Finds t subs out (call i (get_vehicle env uri)) (find_vehicle (c_str uri) t.vehicles)
  unfolding get_vehicle prepare_statement select found
  vehicle-Finds i uri = call_lem t subs out i (get_vehicle env uri) _ t (λ db e.
      ground (arith, e, reliable.never_fails db.calls, reliable.never_fails (db.calls + 1)))

  route-Finds :
      (i : ℕ) (route : Str) (type : ℕ)
      → Finds t subs out
          (call i (get_vehicle_by_route_and_type env route type))
          (find_on_route (c_str route) type t.vehicles)
  unfolding get_vehicle_by_route_and_type prepare_statement select found
  route-Finds i route type =
      call_lem t subs out i (get_vehicle_by_route_and_type env route type) _ t (λ db e.
        ground (arith, e, reliable.never_fails db.calls, reliable.never_fails (db.calls + 1)))

  find_by_uri-Finds :
      (i : ℕ) (uri : Str) → Finds t subs out (find_by_uri env i uri) (by_uri uri t.vehicles)
  unfolding find_by_uri
  find_by_uri-Finds i uri =
      either-Finds t subs out (is_empty uri) (pure-Finds t subs out none) (vehicle-Finds i uri)

  find_other_type-Finds :
      (i : ℕ) (route : Str) (type : ℕ) (ts : List ℕ)
      → Finds t subs out
          (find_other_type env i route type ts)
          (by_other_type route type ts t.vehicles)
  unfolding find_other_type
  find_other_type-Finds i route type [] = pure-Finds t subs out none
  find_other_type-Finds i route type (k ∷ ts) =
      let rest = find_other_type-Finds i route type ts in
      either-Finds t subs out (k == type) rest (
        after t subs out _ (route-Finds i route k) (
          choose-Finds t subs out (find_on_route (c_str route) k t.vehicles) rest
            (λ v. pure-Finds t subs out (some v))))

  find_by_route-Finds :
      (i : ℕ) (route : Str) (type : ℕ)
      → Finds t subs out (find_by_route env i route type) (by_route route type t.vehicles)
  unfolding find_by_route
  find_by_route-Finds i route type =
      either-Finds t subs out (is_empty route) (pure-Finds t subs out none) (
        after t subs out _ (route-Finds i route type) (
          choose-Finds t subs out (find_on_route (c_str route) type t.vehicles)
            (find_other_type-Finds i route type vehicle_types)
            (λ v. pure-Finds t subs out (some v))))

  pub find_reserved-Finds :
      (i : ℕ) (uri route : Str) (type : ℕ)
      → Finds t subs out (find_reserved env i uri route type) (meant uri route type t.vehicles)
  unfolding find_reserved
  find_reserved-Finds i uri route type = after t subs out _ (find_by_uri-Finds i uri) (
      choose-Finds t subs out (by_uri uri t.vehicles)
        (after t subs out _ (find_by_route-Finds i route type) (
          choose-Finds t subs out (by_route route type t.vehicles) (pure-Finds t subs out none)
            (λ v. pure-Finds t subs out (some (v, route)))))
        (λ v. pure-Finds t subs out (some (v, v.route))))

  seats-Finds :
      (i : ℕ) (uri : Str) (n : ℤ)
      → Triple NeverThrows
          (World t subs out)
          (call i (update_seat_availability env uri n))
          (λ good s.
            (good ≡ true)
            × World
                (record t { vehicles = update_rows (c_str uri) (with_seats n) t.vehicles })
                subs
                out
                s)
  unfolding update_seat_availability prepare_statement step update_vehicles expect_done
  seats-Finds i uri n = call_lem t subs out i (update_seat_availability env uri n) _ _ (λ db e.
      ground (arith, e, reliable.never_fails db.calls, reliable.never_fails (db.calls + 1)))

  refuse :
      (client i : ℕ) (text : Str) (code : ℤ)
      → Triple NeverThrows
          (World t subs out)
          (release i >> send_error_response env client text code)
          (λ _. World t subs (out ++ (client, create_error_response text code) ∷ []))
  refuse client i text code = bind (release_lem t subs out i) (λ _. error_lem client text code)

-- The announcement of a change: an answer and the update for all subscribers.
announce :
    (env : Platform) (reliable : Reliable env) (t : Tables env.Real) (subs : List ℕ)
    (out : List (ℕ × Message)) (client : ℕ) (m : Message) (type : Str) (extra : StdMap Str)
    → Triple NeverThrows
        (World t subs out)
        (send_response env client m >> send_multicast_update env type extra)
        (λ _. World t subs (out ++ (client, m) ∷ to_all subs (create_multicast_update type extra)))
announce env reliable t subs out client m type extra =
    bind (send_response_lem env reliable t subs client m out) (λ _.
      map_World
        (append_assoc out ((client, m) ∷ []) (to_all subs (create_multicast_update type extra)))
        (multicast_lem env reliable t subs type extra (out ++ (client, m) ∷ [])))

module _ (env : Platform) (reliable : Reliable env) (t : Tables env.Real) (subs : List ℕ)
    (out : List (ℕ × Message)) where
  reserve_on_lem :
      (client i : ℕ) (v : Vehicle) (route : Str)
      → Triple NeverThrows
          (World t subs out)
          (reserve_on env client i v (route_or route v.route))
          (λ _.
            World
              (reserved_tables (some (v, route)) t)
              subs
              (out ++ reserved_messages client subs (some (v, route))))
  unfolding reserve_on
  reserve_on_lem client i v route =
      let n = v.available_seats -ℤ pos 1 in
      let t' : Tables env.Real = record t {
        vehicles = update_rows (c_str v.uri) (with_seats n) t.vehicles;
      } in
      elim (Bool-cases (leb_ℤ v.available_seats (pos 0))) [
        | inl e ↦ rw e (refuse env reliable t subs out client i _ _)
        | inr e ↦ rw e (
            bind (seats-Finds env reliable t subs out i v.uri n) (λ good. given (λ g. rw g (
              bind (release_lem t' subs out i)
                (λ _. announce env reliable t' subs out client _ _ _)))))
      ]

  pub reserve_found_lem :
      (client i : ℕ) (found : Option (Vehicle × Str))
      → Triple NeverThrows
          (World t subs out)
          (reserve_found env client i found)
          (λ _. World (reserved_tables found t) subs (out ++ reserved_messages client subs found))
  unfolding reserve_found
  reserve_found_lem client i none = refuse env reliable t subs out client i _ _
  reserve_found_lem client i (some (v, route)) = reserve_on_lem client i v route

abbrev pub sought : {R : Type 0} → Message → ℤ → Tables R → Option (Vehicle × Str)
sought m type t =
    meant (get_string_or m (str "uri") []) (get_string_or m (str "route") []) (to_byte type)
      t.vehicles

reservation_lem :
    (env : Platform) (reliable : Reliable env) (t : Tables env.Real) (subs : List ℕ)
    (out : List (ℕ × Message)) (m : Message) (client : ℕ) (type : ℤ)
    → get_int m (str "vehicle_type") ≡ done type
    → is_empty (get_string_or m (str "urn") []) ≡ false
    → Triple NeverThrows (Open t subs out) (handle_seat_reservation env m client) (λ _.
      World
        (reserved_tables (sought m type t) t)
        subs
        (out ++ reserved_messages client subs (sought m type t)))
unfolding handle_seat_reservation
reservation_lem env reliable t subs out m client type h u =
    read_first _ m (str "vehicle_type") type h (
      rw u (
        bind (acquire_lem t subs out) (λ i.
          after t subs out _ (find_reserved-Finds env reliable t subs out i _ _ _)
            (reserve_found_lem env reliable t subs out client i _))))

-- With SQLite and the network reliable and a connection free, a request with a readable vehicle
-- type and a user does what the description says, on every branch: the vehicle that the request
-- means is found, one seat is taken in the rows of its uri if it has one and nothing else in the
-- tables changes, the client gets the answer, and after a reservation every subscriber gets the
-- update.
pub handle_seat_reservation_lem :
    (env : Platform) (m : Message) (client : ℕ) (type : ℤ) (s : Server env.Real)
    → Reliable env
    → 0 < count_free s.pool.available
    → get_int m (str "vehicle_type") ≡ done type
    → is_empty (get_string_or m (str "urn") []) ≡ false
    → Ends NeverThrows
        (λ _.
          World
            (reserved_tables (sought m type s.pool.file.tables) s.pool.file.tables)
            s.subscribers
            (s.sent ++ reserved_messages client s.subscribers (sought m type s.pool.file.tables)))
        (handle_seat_reservation env m client s)
handle_seat_reservation_lem env m client type s reliable free h u =
    (reservation_lem env reliable s.pool.file.tables s.subscribers s.sent m client type h u).run s
      (record { world = record { tables = refl; subscribers = refl; sent = refl }; free = free })
