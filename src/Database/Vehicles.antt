-- ===== src/Database/Vehicles.antt =====
-- The table `vehicles` and its methods, common/Database.cpp.
pub mod Seats
pub mod Bounds
pub mod Untouched
use protokol_javni_prevoz.Prelude.{
  ℕ, ◌+◌, Bool, true, false, not, ◌&&◌, ◌||◌, Option, none, some, List, [], ◌∷◌, ◌++◌, ◌==◌,
  if◌then◌else◌,
}
use protokol_javni_prevoz.Prelude.Int.{ℤ, pos, ltb_ℤ}
use protokol_javni_prevoz.Text.{Str, str, eq_str, is_empty}
use protokol_javni_prevoz.Platform.{Platform}
use protokol_javni_prevoz.Database.Rows.{Vehicle}
use protokol_javni_prevoz.Database.{
  sqlite_done, sqlite_notfound, sqlite_misuse, Db, ◌>>=◌, ◌>>◌, pure, set_last_error,
  clear_last_error, c_str, Statement, Row, row, no_row, failed, prepare_statement, step, select,
  now_iso, expect_done,
}

-- SELECT ... FROM vehicles WHERE uri = ? LIMIT 1
unfoldable pub find_vehicle : Str → List Vehicle → Option Vehicle
find_vehicle uri [] = none
find_vehicle uri (v ∷ vs) = if eq_str v.uri uri then some v else find_vehicle uri vs

-- SELECT ... FROM vehicles WHERE route = ? AND type = ? LIMIT 1
unfoldable pub find_on_route : Str → ℕ → List Vehicle → Option Vehicle
find_on_route route type [] = none
find_on_route route type (v ∷ vs) =
    if eq_str v.route route && v.type == type then some v else find_on_route route type vs

-- UPDATE vehicles SET ... WHERE uri = ?, with what the SET part does to a row.
unfoldable pub update_rows : Str → (Vehicle → Vehicle) → List Vehicle → List Vehicle
update_rows uri change [] = []
update_rows uri change (v ∷ vs) =
    (if eq_str v.uri uri then change v else v) ∷ update_rows uri change vs

unfoldable pub count_rows : Str → List Vehicle → ℕ
count_rows uri [] = 0
count_rows uri (v ∷ vs) = (if eq_str v.uri uri then 1 else 0) + count_rows uri vs

unfoldable pub update_vehicles : {R : Type 0} → Str → (Vehicle → Vehicle) → Statement R
update_vehicles uri change t = (
  sqlite_done,
  count_rows uri t.vehicles,
  record t { vehicles = update_rows uri change t.vehicles },
)

unfoldable pub without_vehicle : Str → List Vehicle → List Vehicle
without_vehicle uri [] = []
without_vehicle uri (v ∷ vs) =
    let rest = without_vehicle uri vs in if eq_str v.uri uri then rest else v ∷ rest

unfoldable pub vehicle_row : Vehicle → Vehicle
vehicle_row v = record v {
  uri = c_str v.uri;
  route = c_str v.route;
  last_update = c_str v.last_update;
}

-- INSERT OR REPLACE INTO vehicles: a row of the same key gives way.
unfoldable pub put_vehicle : {R : Type 0} → Vehicle → Statement R
put_vehicle v t =
    (sqlite_done, 1, record t { vehicles = without_vehicle v.uri t.vehicles ++ v ∷ [] })

abbrev pub or_keep {ℓ} : {A : Type ℓ} → Option A → A → A
or_keep none a = a
or_keep (some b) a = b

-- The SET part of updateVehicle has the given fields and the time.
unfoldable pub set_fields : Option Bool → Option Str → Option ℕ → Str → Vehicle → Vehicle
set_fields active route type now v = record v {
  active = or_keep active v.active;
  route = or_keep route v.route;
  type = or_keep type v.type;
  last_update = now;
}

unfoldable pub has_value {ℓ} : {A : Type ℓ} → Option A → Bool
has_value none = false
has_value (some a) = true

unfoldable pub map_c_str : Option Str → Option Str
map_c_str none = none
map_c_str (some s) = some (c_str s)

module _ (env : Platform) where
  open env use {Real}

  -- Database::registerVehicle.
  unfoldable pub register_vehicle : Vehicle → Db Real Bool
  register_vehicle vehicle = do
    ready ← prepare_statement env
    if not ready then pure false else do
      (rc, changes) ← step env (put_vehicle (vehicle_row vehicle))
      expect_done (str "Failed to register vehicle") rc

  unfoldable pub found : Row Vehicle → Option Vehicle
  found (row v) = some v
  found no_row = none
  found (failed rc) = none

  -- Database::getVehicle.
  unfoldable pub get_vehicle : Str → Db Real (Option Vehicle)
  unfolding found
  get_vehicle uri = do
    ready ← prepare_statement env
    if not ready
        then pure none
        else do answer ← select env (λ t. find_vehicle (c_str uri) t.vehicles); pure (found answer)

  -- Database::getVehicleByRouteAndType.
  unfoldable pub get_vehicle_by_route_and_type : Str → ℕ → Db Real (Option Vehicle)
  unfolding found
  get_vehicle_by_route_and_type route type = do
    ready ← prepare_statement env
    if not ready then pure none else do
      answer ← select env (λ t. find_on_route (c_str route) type t.vehicles)
      pure (found answer)

  -- Database::updateSeatAvailability. The rows changed are not looked at.
  unfoldable pub update_seat_availability : Str → ℤ → Db Real Bool
  update_seat_availability uri available_seats = do
    ready ← prepare_statement env
    if not ready then pure false else do
      (rc, changes) ←
          step env
            (update_vehicles (c_str uri) (λ v. record v { available_seats = available_seats }))
      expect_done (str "Failed to update available seats") rc

  -- `if (changes == 0)` behind an UPDATE by key.
  unfoldable pub expect_change : Bool → ℕ → Db Real Bool
  expect_change done changes =
      if not done
      then pure false
      else if changes == 0
      then (do set_last_error (str "Vehicle not found") sqlite_notfound; pure false)
      else pure true

  -- Database::updateVehicle.
  unfoldable pub update_vehicle : Str → Option Bool → Option Str → Option ℕ → Db Real Bool
  unfolding has_value
  update_vehicle uri active route type = do
    clear_last_error
    if is_empty uri
        then (do set_last_error (str "Empty URI") sqlite_misuse; pure false)
        else if not (has_value active) && not (has_value route) && not (has_value type)
        then (do set_last_error (str "Nothing to update") sqlite_misuse; pure false)
        else do
          ready ← prepare_statement env
          if not ready then pure false else do
            now ← now_iso env
            (rc, changes) ←
                step env (
                  update_vehicles (c_str uri)
                    (set_fields active (map_c_str route) type (c_str now)))
            done ← expect_done (str "Failed to update vehicle") rc
            expect_change done changes

  -- Database::updateVehicleCapacity.
  unfoldable pub update_vehicle_capacity : Str → ℤ → ℤ → Db Real Bool
  update_vehicle_capacity uri capacity available_seats = do
    clear_last_error
    if is_empty uri
        then (do set_last_error (str "Empty URI") sqlite_misuse; pure false)
        else if ltb_ℤ capacity (pos 0)
            || ltb_ℤ available_seats (pos 0)
            || ltb_ℤ capacity available_seats
        then (do set_last_error (str "Invalid capacity/available_seats") sqlite_misuse; pure false)
        else do
          ready ← prepare_statement env
          if not ready then pure false else do
            now ← now_iso env
            (rc, changes) ← step env (
                update_vehicles (c_str uri) (λ v. record v {
                  capacity = capacity;
                  available_seats = available_seats;
                  last_update = c_str now;
                }))
            done ← expect_done (str "Failed to update vehicle capacity") rc
            expect_change done changes
