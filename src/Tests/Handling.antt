-- ===== src/Tests/Handling.antt =====
-- The central server at concrete states: a vehicle with one seat left, two connections of which the
-- first is lent, and one subscriber.
use protokol_javni_prevoz.Central.Sessions.Authentication.{
  Authenticated, handle_auth_request-Authenticated,
}
use protokol_javni_prevoz.Central.Sessions.{handle_auth_request}
use protokol_javni_prevoz.Database.Prices.Upsert.{base_of, update_price-get_price}
use protokol_javni_prevoz.Database.Prices.{
  update_price, get_price, find_price, update_prices, change_prices, count_prices, insert_if_none,
  insert_price,
}
use protokol_javni_prevoz.Central.Purchase.{Order}
use protokol_javni_prevoz.Central.Groups.Removal.{handle_remove_member_from_group_lem}
use protokol_javni_prevoz.Central.Groups.Leadership.{tables_after, refusal, removal, answer}
use protokol_javni_prevoz.Central.Groups.{handle_remove_member_from_group}
use protokol_javni_prevoz.Prelude.{
  ℕ, ◌+◌, ◌<◌, ◌≡◌, refl, true, false, some, [], ◌∷◌, ◌++◌, arith, ◌||◌, ◌==◌, ◌&&◌, if◌then◌else◌,
  not,
}
use protokol_javni_prevoz.Prelude.Int.{pos, ◌-ℤ◌}
use protokol_javni_prevoz.Result.{threw, invalid_argument}
use protokol_javni_prevoz.Text.{str, is_empty, compare_str, eq_str}
use protokol_javni_prevoz.Text.Decimal.{to_string, stoi, nat_to_string}
use protokol_javni_prevoz.StdMap.{find, insert}
use protokol_javni_prevoz.Message.{Message, new, add_string, add_int, get_int, get_string, has_key}
use protokol_javni_prevoz.Message.Access.{get_int-add_int}
use protokol_javni_prevoz.Database.Rows.{Vehicle, Tables}
use protokol_javni_prevoz.Database.{
  stored_double, Database, c_str, prepare_statement, step, expect_done, sqlite_ok, now_iso,
}
use protokol_javni_prevoz.Database.Vehicles.{
  find_vehicle, update_rows, update_vehicles, get_vehicle, update_seat_availability,
}
use protokol_javni_prevoz.Database.Vehicles.Seats.{
  with_seats, updated, update_seat_availability-get_vehicle,
}
use protokol_javni_prevoz.Database.Users.{find_user, has_user}
use protokol_javni_prevoz.Database.Pool.{fresh}
use protokol_javni_prevoz.Database.Pool.Lending.{count_free}
use protokol_javni_prevoz.Central.{Server, get_string_or}
use protokol_javni_prevoz.Central.Triple.{Ends, NeverThrows}
use protokol_javni_prevoz.Central.World.{World, Reliable}
use protokol_javni_prevoz.Central.Validation.{validate_urn, all_digits}
use protokol_javni_prevoz.Central.Registration.{handle_user_registration}
use protokol_javni_prevoz.Central.Registration.Leak.{handle_user_registration_leak}
use protokol_javni_prevoz.Central.Reservation.{handle_seat_reservation}
use protokol_javni_prevoz.Central.Reservation.Meaning.{reserved_tables, reserved_messages}
use protokol_javni_prevoz.Central.Reservation.Outcome.{sought, handle_seat_reservation_lem}
use protokol_javni_prevoz.Central.Reservation.Race.{
  both_look_first, reservation_done, both_look_first_lem,
}
use protokol_javni_prevoz.Central.Dispatch.{handle_client_message}
use protokol_javni_prevoz.Central.Dispatch.Pooling.{PoolKept, handle_client_message-PoolKept}
use protokol_javni_prevoz.Tests.{ideal, no_tables, started, script, urn_1}

abbrev bus : Vehicle
bus = record {
  uri = str "bus1";
  type = 1;
  capacity = pos 50;
  available_seats = pos 1;
  route = str "Linija 6";
  active = true;
  last_update = [];
}

abbrev pub fleet : Tables ℕ
fleet = record no_tables { vehicles = bus ∷ [] }

abbrev pub served : Server ℕ
served = record started {
  pool = record {
    connections = fresh ∷ fresh ∷ [];
    available = false ∷ true ∷ [];
    initialized = true;
    file = record { tables = fleet; calls = 0 };
  };
  subscribers = 9 ∷ [];
}

pub one_free : 0 < count_free (false ∷ true ∷ [])
unfolding count_free
one_free = omega arith

pub ideal-Reliable : Reliable ideal
ideal-Reliable = record { never_fails = λ n. refl; reaches = λ n c. refl }

handle_client_message-PoolKept_example :
    PoolKept ideal served (handle_client_message ideal script 7 served)
handle_client_message-PoolKept_example =
    handle_client_message-PoolKept ideal script 7 served (record { places = refl }) one_free

abbrev pub seat_request : Message
seat_request =
    add_int (str "vehicle_type") (pos 1)
      (add_string (str "urn") urn_1 (add_string (str "uri") (str "bus1") (new 5)))

has_urn : is_empty (get_string_or seat_request (str "urn") []) ≡ false
unfolding get_string_or has_key get_string add_int add_string find insert str to_string compare_str
    new eq_str
has_urn = refl

handle_seat_reservation_lem_example :
    Ends NeverThrows
      (λ _.
        World
          (reserved_tables (sought seat_request (pos 1) fleet) fleet)
          (9 ∷ [])
          ([] ++ reserved_messages 7 (9 ∷ []) (sought seat_request (pos 1) fleet)))
      (handle_seat_reservation ideal seat_request 7 served)
handle_seat_reservation_lem_example =
    handle_seat_reservation_lem ideal seat_request 7 (pos 1) served ideal-Reliable one_free
      (get_int-add_int (str "vehicle_type") (pos 1) _ (omega arith)) has_urn

finds_bus : find_vehicle (c_str (str "bus1")) (bus ∷ []) ≡ some bus
unfolding find_vehicle c_str str eq_str
finds_bus = refl

both_look_first_lem_example :
    Ends NeverThrows
      (λ _.
        World
          (record fleet {
            vehicles = update_rows (c_str (str "bus1")) (with_seats (pos 1 -ℤ pos 1)) (bus ∷ []);
          })
          (9 ∷ [])
          ([] ++ (reservation_done 7 (9 ∷ []) bus ++ reservation_done 8 (9 ∷ []) bus)))
      (both_look_first ideal (str "bus1") 7 0 8 1 served)
both_look_first_lem_example =
    both_look_first_lem ideal (str "bus1") bus 7 0 8 1 served ideal-Reliable (unfold str in refl)
      finds_bus refl

abbrev bad_age : Message
bad_age = add_string (str "age") (str "x") (add_string (str "urn") urn_1 (new 3))

bad_age-urn : validate_urn (get_string bad_age (str "urn")) ≡ true
unfolding validate_urn all_digits get_string add_string find insert str compare_str new eq_str
bad_age-urn = refl

bad_age-has_key : has_key bad_age (str "age") ≡ true
unfolding has_key add_string find insert str compare_str new eq_str
bad_age-has_key = refl

bad_age-get_int : get_int bad_age (str "age") ≡ threw invalid_argument
unfolding get_int add_string find insert str compare_str new stoi eq_str
bad_age-get_int = refl

handle_user_registration_leak_example :
    ((handle_user_registration ideal bad_age 7 served).0 ≡ threw invalid_argument)
    × (count_free (handle_user_registration ideal bad_age 7 served).1.pool.available + 1
        ≡ count_free (false ∷ true ∷ []))
handle_user_registration_leak_example =
    handle_user_registration_leak ideal bad_age 7 invalid_argument served one_free bad_age-urn
      (unfold find_user in refl) bad_age-has_key bad_age-get_int

abbrev opened : Database ℕ
opened = record {
  tables = fleet;
  calls = 0;
  foreign_keys = true;
  last_error = [];
  last_error_code = sqlite_ok;
}

abbrev sold_out : Database ℕ
sold_out = record opened {
  tables = record fleet { vehicles = record bus { available_seats = pos 0 } ∷ [] };
  calls = 2;
}

sells : update_seat_availability ideal (str "bus1") (pos 0) opened ≡ (true, sold_out)
unfolding update_seat_availability prepare_statement step update_vehicles update_rows expect_done
    c_str str eq_str
sells = refl

update_seat_availability-get_vehicle_example :
    (get_vehicle ideal (str "bus1") sold_out).0
    ≡ updated (c_str (str "bus1")) (pos 0) (find_vehicle (c_str (str "bus1")) (bus ∷ []))
update_seat_availability-get_vehicle_example =
    update_seat_availability-get_vehicle ideal (str "bus1") (str "bus1") (pos 0) opened sold_out
      sells (refl, (refl, tt))

abbrev led : Server ℕ
led = record served {
  pool = record served.pool {
    file = record {
      tables = record fleet {
        groups =
            record {
              group_id = 1;
              group_name = str "g";
              leader_urn = urn_1;
              creation_date = [];
              active = true;
            }
            ∷ [];
        group_members =
            record { group_id = 1; member_urn = str "42"; join_date = []; active = true } ∷ [];
      };
      calls = 0;
    };
  };
  sessions =
      (
        str "s",
        record { session_id = str "s"; user_urn = urn_1; authenticated = true; last_activity = 0 },
      )
      ∷ [];
}

abbrev removal_request : Message
removal_request =
    add_string (str "urn") (str "42")
      (add_string (str "group_name") (str "g") (add_string (str "session_id") (str "s") (new 13)))

has_fields :
    (is_empty (get_string removal_request (str "session_id"))
      || is_empty (get_string removal_request (str "group_name"))
      || is_empty (get_string removal_request (str "urn")))
    ≡ false
unfolding get_string add_string find insert str compare_str new eq_str
has_fields = refl

handle_remove_member_from_group_lem_example :
    Ends NeverThrows
      (λ _.
        World
          (tables_after
            (refusal
              (find (get_string removal_request (str "session_id")) led.sessions)
              (get_string removal_request (str "group_name"))
              led.pool.file.tables)
            (removal
              (get_string removal_request (str "urn"))
              (get_string removal_request (str "group_name"))
              led.pool.file.tables)
            led.pool.file.tables)
          (9 ∷ [])
          ([]
            ++ (
              7,
              answer
                  (refusal
                    (find (get_string removal_request (str "session_id")) led.sessions)
                    (get_string removal_request (str "group_name"))
                    led.pool.file.tables)
                  (removal
                    (get_string removal_request (str "urn"))
                    (get_string removal_request (str "group_name"))
                    led.pool.file.tables),
            )
              ∷ []))
      (handle_remove_member_from_group ideal removal_request 7 led)
handle_remove_member_from_group_lem_example =
    handle_remove_member_from_group_lem ideal removal_request 7 led ideal-Reliable
      (record { places = refl }) one_free has_fields

abbrev order : Order
order = record {
  urn = urn_1;
  ticket_type = 1;
  vehicle_type = 1;
  route = str "Linija 6";
  uri = str "bus1";
  passengers = pos 1;
}

abbrev priced_tables : Database ℕ
priced_tables = record opened {
  tables = record fleet {
    price_list =
        record {
          vehicle_type = 1;
          ticket_type = 2;
          base_price = 150;
          distance_multiplier = 100;
          time_multiplier = 100;
          last_update = str "1";
        }
        ∷ [];
  };
  calls = 5;
}

sets_price : update_price ideal 1 2 150 opened ≡ (true, priced_tables)
unfolding update_price prepare_statement now_iso step update_prices change_prices count_prices
    expect_done insert_if_none insert_price stored_double c_str str nat_to_string
sets_price = refl

update_price-get_price_example : base_of (get_price ideal 1 2 priced_tables).0 ≡ (
    if 1 == 1 && 2 == 2
    then some (stored_double ideal 150)
    else base_of (find_price 1 2 fleet.price_list))
update_price-get_price_example =
    update_price-get_price ideal 1 2 1 2 150 opened priced_tables sets_price (refl, (refl, tt))

abbrev login : Message
login = add_string (str "urn") urn_1 (new 2)

handle_auth_request-Authenticated_example :
    (time : ℕ) × Authenticated 7
      (get_string login (str "urn"))
      time
      served
      (not (is_empty (get_string login (str "urn")))
        && has_user (c_str (get_string login (str "urn"))) served.pool.file.tables.users)
      (handle_auth_request ideal login 7 served)
handle_auth_request-Authenticated_example =
    handle_auth_request-Authenticated ideal login 7 served ideal-Reliable one_free
