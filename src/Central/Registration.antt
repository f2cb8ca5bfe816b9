-- ===== src/Central/Registration.antt =====
-- handleUserRegistration, handleDeviceRegistration, handleUserDeletion and processUserDeletion of
-- server/CentralServer.cpp.
pub mod Leak
use protokol_javni_prevoz.Prelude.{
  ℕ, Bool, true, false, not, ◌&&◌, ◌||◌, ◌==◌, Option, none, some, [], ◌∷◌, ◌++◌, if◌then◌else◌,
}
use protokol_javni_prevoz.Prelude.Int.{ℤ, pos}
use protokol_javni_prevoz.Text.{Str, str, has_prefix}
use protokol_javni_prevoz.Message.{Message, get_string}
use protokol_javni_prevoz.Platform.{Platform}
use protokol_javni_prevoz.Database.Rows.{User, Vehicle}
use protokol_javni_prevoz.Database.{Db, Rc, sqlite_constraint}
use protokol_javni_prevoz.Database.Users.{get_user, register_user, delete_user}
use protokol_javni_prevoz.Database.Vehicles.{register_vehicle}
use protokol_javni_prevoz.Central.{
  Handler, ◌>>=◌, ◌>>◌, pure, to_byte, read_int, read_int_or, get_string_or, acquire, call, release,
  last_error, current_timestamp, send_error_response, send_success_response,
}
use protokol_javni_prevoz.Central.Validation.{validate_urn, validate_uri}
use protokol_javni_prevoz.Central.Sessions.{is_some}

-- dbErr.empty() ? otherwise : dbErr
abbrev pub or_text : Str → Str → Str
or_text [] otherwise = otherwise
or_text (c ∷ s) otherwise = c ∷ s

-- text.find(part) != npos.
unfoldable pub contains : Str → Str → Bool
unfolding has_prefix
contains part [] = has_prefix part []
contains part (c ∷ s) = has_prefix part (c ∷ s) || contains part s

-- db->getLastErrorCode() == SQLITE_CONSTRAINT.
unfoldable pub is_constraint : Rc → Bool
is_constraint sqlite_constraint = true
is_constraint rc = false

-- The answer of a registerVehicle that failed.
unfoldable pub refusal : Rc → Str → Str × ℤ
unfolding is_constraint contains
refusal code error =
    if is_constraint code || contains (str "exists") error
    then (str "Device already exists", pos 409)
    else (or_text error (str "Failed to register device"), pos 500)

unfoldable pub error_state : {R : Type 0} → Db R (Rc × Str)
error_state db = ((db.last_error_code, db.last_error), db)

unfoldable pub new_vehicle : Str → ℤ → Str → Vehicle
new_vehicle uri type date = record {
  uri = uri;
  type = to_byte type;
  capacity = pos 50;
  available_seats = pos 50;
  route = str "Route_" ++ uri;
  active = true;
  last_update = date;
}

module _ (env : Platform) where
  open env use {Real}

  -- The fields of the new user; `age` is read, and may throw, before the clock is.
  unfoldable pub new_user : Message → Str → Handler Real User
  new_user m urn = do
    age ← read_int_or m (str "age") (pos 25)
    date ← current_timestamp env
    pure (record {
      urn = urn;
      name = get_string_or m (str "name") (str "User_" ++ urn);
      age = age;
      registration_date = date;
      active = true;
      pin_hash = get_string_or m (str "pin_hash") (str "default_hash");
    })

  unfoldable pub register_new_user : Message → ℕ → Str → ℕ → Handler Real (Unit {0})
  register_new_user m client urn i = do
    user ← new_user m urn
    good ← call i (register_user env user)
    error ← call i last_error
    release i
    if good
        then send_success_response env client (str "User registered successfully")
        else send_error_response env client (or_text error (str "Failed to register user"))
            (pos 500)

  unfoldable pub handle_user_registration : Message → ℕ → Handler Real (Unit {0})
  handle_user_registration m client =
      let urn = get_string m (str "urn") in
      if not (validate_urn urn)
      then send_error_response env client (str "Invalid URN format") (pos 400)
      else do
        i ← acquire
        exists ← call i (get_user env urn)
        if is_some exists
            then (do
              release i
              send_error_response env client (str "User already registered") (pos 409))
            else register_new_user m client urn i

  unfoldable pub handle_device_registration : Message → ℕ → Handler Real (Unit {0})
  handle_device_registration m client = do
    let uri = get_string m (str "uri")
    type ← read_int m (str "vehicle_type")
    if not (validate_uri uri)
        then send_error_response env client (str "Invalid URI format") (pos 400)
        else do
          date ← current_timestamp env
          i ← acquire
          good ← call i (register_vehicle env (new_vehicle uri type date))
          (code, error) ← call i error_state
          release i
          if good
              then send_success_response env client (str "Device registered successfully")
              else (let (text, number) = refusal code error in
                  send_error_response env client text number)

  -- The request is acknowledged, and nothing is deleted.
  unfoldable pub handle_user_deletion : Message → ℕ → Handler Real (Unit {0})
  handle_user_deletion m client =
      send_success_response env client (str "User deletion request submitted")

  unfoldable pub delete_known_user : Str → ℕ → Option User → Handler Real Bool
  delete_known_user urn i none = do release i; pure false
  delete_known_user urn i (some user) = do good ← call i (delete_user env urn); release i; pure good

  -- CentralServer::processUserDeletion; getConnection never returns null.
  unfoldable pub process_user_deletion : Str → Bool → Handler Real Bool
  process_user_deletion urn admin_approved =
      if not admin_approved
      then pure false
      else do i ← acquire; user ← call i (get_user env urn); delete_known_user urn i user
