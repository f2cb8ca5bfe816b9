-- ===== src/Database/Vehicles/Seats.antt =====
-- updateSeatAvailability and getVehicle of common/Database.cpp together.
use protokol_javni_prevoz.Prelude.{
  ◌+◌, ◌≡◌, refl, ◌∙◌, ap, subst, Bool, true, false, Option, none, some, List, [], ◌∷◌, arith,
  if◌then◌else◌,
}
use protokol_javni_prevoz.Prelude.Int.{ℤ}
use protokol_javni_prevoz.Text.{Str, eq_str}
use protokol_javni_prevoz.Platform.{Platform}
use protokol_javni_prevoz.Database.Rows.{Vehicle}
use protokol_javni_prevoz.Database.{
  Database, NoFault, c_str, prepare_statement, step, select, expect_done,
}
use protokol_javni_prevoz.Database.Vehicles.{
  find_vehicle, update_rows, update_vehicles, get_vehicle, found, update_seat_availability,
}

abbrev pub with_seats : ℤ → Vehicle → Vehicle
with_seats n v = record v { available_seats = n }

-- What UPDATE did to a row that is looked up.
abbrev pub updated : Str → ℤ → Option Vehicle → Option Vehicle
updated uri n none = none
updated uri n (some v) = some (if eq_str v.uri uri then with_seats n v else v)

pub find_vehicle-update_rows :
    (key uri : Str) (n : ℤ) (vs : List Vehicle)
    → find_vehicle key (update_rows uri (with_seats n) vs) ≡ updated uri n (find_vehicle key vs)
unfolding find_vehicle update_rows
find_vehicle-update_rows key uri n [] = refl
find_vehicle-update_rows key uri n (v ∷ vs) = ground (arith, find_vehicle-update_rows key uri n vs)

module _ (env : Platform) where
  open env use {Real}

  pub get_vehicle_lem :
      (uri : Str) (db : Database Real)
      → NoFault env 2 db.calls
      → get_vehicle env uri db
        ≡ (find_vehicle (c_str uri) db.tables.vehicles, record db { calls = db.calls + 1 + 1 })
  unfolding get_vehicle prepare_statement select found
  get_vehicle_lem uri db h = ground arith

  abbrev pub SeatsUpdated : Str → ℤ → Database Real → Bool × Database Real → Type 0
  SeatsUpdated uri n db (true, db') =
      db'.tables
      ≡ record db.tables { vehicles = update_rows (c_str uri) (with_seats n) db.tables.vehicles }
  SeatsUpdated uri n db (false, db') = db'.tables ≡ db.tables

  pub update_seat_availability-SeatsUpdated :
      (uri : Str) (n : ℤ) (db : Database Real)
      → SeatsUpdated uri n db (update_seat_availability env uri n db)
  unfolding update_seat_availability prepare_statement step update_vehicles expect_done
  update_seat_availability-SeatsUpdated uri n db = ground arith

  pub update_seat_availability_lem :
      (uri : Str) (n : ℤ) (db : Database Real)
      → NoFault env 2 db.calls
      → update_seat_availability env uri n db ≡ (
        true,
        record db {
          calls = db.calls + 1 + 1;
          tables = record db.tables {
            vehicles = update_rows (c_str uri) (with_seats n) db.tables.vehicles;
          };
        },
      )
  unfolding update_seat_availability prepare_statement step update_vehicles expect_done
  update_seat_availability_lem uri n db h = ground arith

  -- After updateSeatAvailability has returned true, getVehicle without a failure of SQLite finds
  -- the vehicle of that uri with the new number of free seats and otherwise as it was, and every
  -- other vehicle as before; a vehicle that was not there is still not there.
  pub update_seat_availability-get_vehicle :
      (uri key : Str) (n : ℤ) (db db' : Database Real)
      → update_seat_availability env uri n db ≡ (true, db')
      → NoFault env 2 db'.calls
      → (get_vehicle env key db').0
        ≡ updated (c_str uri) n (find_vehicle (c_str key) db.tables.vehicles)
  update_seat_availability-get_vehicle uri key n db db' e h =
      let facts =
        subst (SeatsUpdated uri n db) e (update_seat_availability-SeatsUpdated uri n db) in
      ap (λ r. r.0) (get_vehicle_lem key db' h)
      ∙ ap (λ t. find_vehicle (c_str key) t.vehicles) facts
      ∙ find_vehicle-update_rows (c_str key) (c_str uri) n db.tables.vehicles
