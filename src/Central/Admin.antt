-- ===== src/Central/Admin.antt =====
-- handleUpdatePrice, handleUpdateVehicle and handleUpdateCapacity of server/CentralServer.cpp.
use protokol_javni_prevoz.Prelude.{
  ℕ, Bool, not, ◌||◌, Option, none, some, [], ◌∷◌, ◌==◌, if◌then◌else◌,
}
use protokol_javni_prevoz.Prelude.Int.{pos, pos_part, neg_part}
use protokol_javni_prevoz.Text.{Str, str}
use protokol_javni_prevoz.Text.Decimal.{to_string}
use protokol_javni_prevoz.Message.{Message, get_string, has_key}
use protokol_javni_prevoz.Platform.{Platform}
use protokol_javni_prevoz.Database.Prices.{update_price}
use protokol_javni_prevoz.Database.Vehicles.{update_vehicle, update_vehicle_capacity}
use protokol_javni_prevoz.Central.{
  Handler, ◌>>=◌, ◌>>◌, pure, to_byte, read_int, read_int_or, acquire, call, release, last_error,
  map_of, send_error_response, send_success_response, send_multicast_update,
}
use protokol_javni_prevoz.Central.Registration.{or_text}

-- The flag of an `int` field that may be absent: `getInt(key) != 0`.
unfoldable pub read_flag : {R : Type 0} → Message → Str → Handler R (Option Bool)
read_flag m key =
    if has_key m key
    then (do n ← read_int m key; pure (some (not (pos_part n == 0) || not (neg_part n == 0))))
    else pure none

unfoldable pub read_type : {R : Type 0} → Message → Str → Handler R (Option ℕ)
read_type m key =
    if has_key m key then (do n ← read_int m key; pure (some (to_byte n))) else pure none

unfoldable pub optional_string : Message → Str → Option Str
optional_string m key = if has_key m key then some (get_string m key) else none

module _ (env : Platform) where
  open env use {Real, stod}

  unfoldable pub change_price : Message → ℕ → ℕ → ℕ → Option Real → Handler Real (Unit {0})
  change_price m client vt tt' none =
      send_error_response env client (str "Invalid price format") (pos 400)
  change_price m client vt tt' (some price) = do
    i ← acquire
    good ← call i (update_price env vt tt' price)
    error ← call i last_error
    release i
    if not good
        then send_error_response env client (or_text error (str "Failed to update price")) (pos 500)
        else do
          send_success_response env client (str "Price updated")
          send_multicast_update env (str "price_updated") (
              map_of (
                (str "vehicle_type", to_string (pos vt))
                ∷ (str "ticket_type", to_string (pos tt'))
                ∷ (str "price", get_string m (str "price"))
                ∷ []))

  unfoldable pub handle_update_price : Message → ℕ → Handler Real (Unit {0})
  handle_update_price m client =
      if not (has_key m (str "vehicle_type"))
        || not (has_key m (str "ticket_type"))
        || not (has_key m (str "price"))
      then send_error_response env client (str "Missing vehicle_type/ticket_type/price") (pos 400)
      else do
        vt ← read_int m (str "vehicle_type")
        kind ← read_int m (str "ticket_type")
        change_price m client (to_byte vt) (to_byte kind) (stod (get_string m (str "price")))

  unfoldable pub handle_update_vehicle : Message → ℕ → Handler Real (Unit {0})
  handle_update_vehicle m client =
      if not (has_key m (str "uri"))
      then send_error_response env client (str "Missing uri") (pos 400)
      else do
        let uri = get_string m (str "uri")
        active ← read_flag m (str "active")
        let route = optional_string m (str "route")
        type ← read_type m (str "vehicle_type")
        i ← acquire
        good ← call i (update_vehicle env uri active route type)
        error ← call i last_error
        release i
        if not good
            then send_error_response env client (or_text error (str "Failed to update vehicle"))
                (pos 500)
            else do
              send_success_response env client (str "Vehicle updated")
              send_multicast_update env (str "vehicle_updated") (map_of ((str "uri", uri) ∷ []))

  unfoldable pub handle_update_capacity : Message → ℕ → Handler Real (Unit {0})
  handle_update_capacity m client =
      if not (has_key m (str "uri")) || not (has_key m (str "capacity"))
      then send_error_response env client (str "Missing uri/capacity") (pos 400)
      else do
        let uri = get_string m (str "uri")
        capacity ← read_int m (str "capacity")
        available ← read_int_or m (str "available_seats") capacity
        i ← acquire
        good ← call i (update_vehicle_capacity env uri capacity available)
        error ← call i last_error
        release i
        if not good
            then send_error_response env client (or_text error (str "Failed to update capacity"))
                (pos 500)
            else do
              send_success_response env client (str "Capacity updated")
              send_multicast_update env (str "capacity_updated") (
                  map_of (
                    (str "uri", uri)
                    ∷ (str "capacity", to_string capacity)
                    ∷ (str "available_seats", to_string available)
                    ∷ []))
