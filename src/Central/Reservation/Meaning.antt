-- ===== src/Central/Reservation/Meaning.antt =====
-- What a request for a seat means, as handleSeatReservation of server/CentralServer.cpp is to take
-- it: the vehicle, the tables afterwards, and who is told what.
use protokol_javni_prevoz.Prelude.{ℕ, Option, none, some, List, [], ◌∷◌, ◌==◌, if◌then◌else◌}
use protokol_javni_prevoz.Prelude.Int.{pos, negsuc, leb_ℤ, ◌-ℤ◌}
use protokol_javni_prevoz.Text.{Str, str, is_empty}
use protokol_javni_prevoz.Message.{Message}
use protokol_javni_prevoz.Message.Factory.{
  create_success_response, create_error_response, create_multicast_update,
}
use protokol_javni_prevoz.Database.Rows.{Vehicle, Tables}
use protokol_javni_prevoz.Database.{c_str}
use protokol_javni_prevoz.Database.Vehicles.{find_vehicle, find_on_route, update_rows}
use protokol_javni_prevoz.Database.Vehicles.Seats.{with_seats}
use protokol_javni_prevoz.Central.Reservation.{vehicle_types, seat_details, route_or}
use protokol_javni_prevoz.Central.World.{to_all}

-- The vehicle that a request means: the one of its uri, else one of its route and type, else one of
-- its route and another type.
abbrev pub by_uri : Str → List Vehicle → Option Vehicle
by_uri uri vs = if is_empty uri then none else find_vehicle (c_str uri) vs

abbrev pub by_other_type : Str → ℕ → List ℕ → List Vehicle → Option Vehicle
by_other_type route type [] vs = none
by_other_type route type (t ∷ ts) vs =
    if t == type then by_other_type route type ts vs else elim (find_on_route (c_str route) t vs) [
      | none ↦ by_other_type route type ts vs
      | some v ↦ some v
    ]

abbrev pub by_route : Str → ℕ → List Vehicle → Option Vehicle
by_route route type vs =
    if is_empty route then none else elim (find_on_route (c_str route) type vs) [
      | none ↦ by_other_type route type vehicle_types vs
      | some v ↦ some v
    ]

abbrev pub meant : Str → Str → ℕ → List Vehicle → Option (Vehicle × Str)
meant uri route type vs = elim (by_uri uri vs) [
  | none ↦ elim (by_route route type vs) [ none ↦ none | some v ↦ some (v, route) ]
  | some v ↦ some (v, v.route)
]

-- One seat less in the vehicle, if it has one.
abbrev pub reserved_tables : {R : Type 0} → Option (Vehicle × Str) → Tables R → Tables R
reserved_tables none t = t
reserved_tables (some (v, route)) t = if leb_ℤ v.available_seats (pos 0) then t else record t {
  vehicles = update_rows (c_str v.uri) (with_seats (v.available_seats -ℤ pos 1)) t.vehicles;
}

-- The answer, and the update for all subscribers.
abbrev pub reserved_messages : ℕ → List ℕ → Option (Vehicle × Str) → List (ℕ × Message)
reserved_messages client subs none =
    (client, create_error_response (str "Vehicle/route not found") (negsuc 0)) ∷ []
reserved_messages client subs (some (v, route)) =
    if leb_ℤ v.available_seats (pos 0)
    then (
      client,
      create_error_response (str "No available seats for this route/vehicle") (negsuc 0),
    )
      ∷ []
    else let details = seat_details (route_or route v.route) v (v.available_seats -ℤ pos 1) in
      (client, create_success_response (str "Seat reserved successfully") details)
      ∷ to_all subs (create_multicast_update (str "seat_reserved") details)
