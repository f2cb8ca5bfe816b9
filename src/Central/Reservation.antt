-- ===== src/Central/Reservation.antt =====
-- handleSeatReservation of server/CentralServer.cpp.
pub mod Meaning
pub mod Outcome
pub mod Race
use protokol_javni_prevoz.Prelude.{ℕ, not, Option, none, some, List, [], ◌∷◌, ◌==◌, if◌then◌else◌}
use protokol_javni_prevoz.Prelude.Int.{ℤ, pos, negsuc, leb_ℤ, ◌-ℤ◌}
use protokol_javni_prevoz.Text.{Str, str, is_empty}
use protokol_javni_prevoz.Text.Decimal.{to_string}
use protokol_javni_prevoz.StdMap.{StdMap}
use protokol_javni_prevoz.Message.{Message}
use protokol_javni_prevoz.Message.Factory.{create_success_response}
use protokol_javni_prevoz.Platform.{Platform}
use protokol_javni_prevoz.Database.Rows.{Vehicle}
use protokol_javni_prevoz.Database.Vehicles.{
  get_vehicle, get_vehicle_by_route_and_type, update_seat_availability,
}
use protokol_javni_prevoz.Central.{
  Handler, ◌>>=◌, ◌>>◌, pure, to_byte, read_int, get_string_or, acquire, call, release, map_of,
  send_response, send_error_response, send_multicast_update,
}

-- VehicleType::BUS, TRAM, TROLLEYBUS.
abbrev pub vehicle_types : List ℕ
vehicle_types = 1 ∷ 2 ∷ 3 ∷ []

unfoldable pub seat_details : Str → Vehicle → ℤ → StdMap Str
seat_details route v available = map_of (
    (str "route", route)
    ∷ (str "vehicle_uri", v.uri)
    ∷ (str "available_seats", to_string available)
    ∷ [])

abbrev pub route_or : Str → Str → Str
route_or [] otherwise = otherwise
route_or (c ∷ s) otherwise = c ∷ s

module _ (env : Platform) where
  open env use {Real}

  -- `if (!uri.empty()) db->getVehicle(uri)`.
  unfoldable pub find_by_uri : ℕ → Str → Handler Real (Option Vehicle)
  find_by_uri i uri = if is_empty uri then pure none else call i (get_vehicle env uri)

  -- The loop over the other types.
  unfoldable pub find_other_type : ℕ → Str → ℕ → List ℕ → Handler Real (Option Vehicle)
  find_other_type i route type [] = pure none
  find_other_type i route type (t ∷ ts) =
      let rest = find_other_type i route type ts in
      if t == type then rest else do
        found ← call i (get_vehicle_by_route_and_type env route t)
        elim found [ some v ↦ pure (some v) | none ↦ rest ]

  unfoldable pub find_by_route : ℕ → Str → ℕ → Handler Real (Option Vehicle)
  find_by_route i route type = if is_empty route then pure none else do
    found ← call i (get_vehicle_by_route_and_type env route type)
    elim found [ some v ↦ pure (some v) | none ↦ find_other_type i route type vehicle_types ]

  -- The vehicle, with the route that the request then stands for.
  unfoldable pub find_reserved : ℕ → Str → Str → ℕ → Handler Real (Option (Vehicle × Str))
  find_reserved i uri route type = do
    by_uri ← find_by_uri i uri
    elim by_uri [
      | some v ↦ pure (some (v, v.route))
      | none ↦ (do
        by_route ← find_by_route i route type
        elim by_route [ some v ↦ pure (some (v, route)) | none ↦ pure none ])
    ]

  -- The part behind the look-up.
  unfoldable pub reserve_on : ℕ → ℕ → Vehicle → Str → Handler Real (Unit {0})
  reserve_on client i v route =
      if leb_ℤ v.available_seats (pos 0)
      then (do
        release i
        send_error_response env client (str "No available seats for this route/vehicle") (negsuc 0))
      else do
        let available = v.available_seats -ℤ pos 1
        good ← call i (update_seat_availability env v.uri available)
        release i
        if not good
            then send_error_response env client (str "Failed to reserve seat") (negsuc 0)
            else do
              send_response env client (
                  create_success_response (str "Seat reserved successfully")
                    (seat_details route v available))
              send_multicast_update env (str "seat_reserved") (seat_details route v available)

  unfoldable pub reserve_found : ℕ → ℕ → Option (Vehicle × Str) → Handler Real (Unit {0})
  reserve_found client i none = do
    release i
    send_error_response env client (str "Vehicle/route not found") (negsuc 0)
  reserve_found client i (some (v, route)) = reserve_on client i v (route_or route v.route)

  unfoldable pub handle_seat_reservation : Message → ℕ → Handler Real (Unit {0})
  handle_seat_reservation m client = do
    type ← read_int m (str "vehicle_type")
    let route = get_string_or m (str "route") []
    let uri = get_string_or m (str "uri") []
    if is_empty (get_string_or m (str "urn") [])
        then send_error_response env client (str "Missing user URN") (negsuc 0)
        else do
          i ← acquire
          found ← find_reserved i uri route (to_byte type)
          reserve_found client i found
