-- ===== src/Tests.antt =====
-- Runs of the server at concrete inputs, and its theorems at states that meet their hypotheses.
pub mod Messages
pub mod Startup
pub mod Accounts
pub mod Handling
pub mod Console
pub mod Answering
use protokol_javni_prevoz.Prelude.{
  ℕ, ◌+◌, ◌*◌, ◌≡◌, refl, Bool, true, false, Option, none, some, List, [], ◌∷◌, ◌++◌, length, map,
  ◌==◌,
}
use protokol_javni_prevoz.Prelude.Int.{ℤ, pos, pos_part}
use protokol_javni_prevoz.Result.{Result, done}
use protokol_javni_prevoz.Text.{Str, str, eq_str}
use protokol_javni_prevoz.Text.Decimal.{to_string, nat_to_string}
use protokol_javni_prevoz.Message.{Message, add_string, calculate_checksum}
use protokol_javni_prevoz.Message.Factory.{
  create_register_user, create_auth_request, create_register_device, create_reserve_seat,
  create_purchase_ticket, create_group_create,
}
use protokol_javni_prevoz.Platform.{Platform}
use protokol_javni_prevoz.Database.Rows.{User, Vehicle, Tables}
use protokol_javni_prevoz.Database.Pool.{Pool, Conn, fresh, initialize_pool}
use protokol_javni_prevoz.Central.{Server}
use protokol_javni_prevoz.Central.Dispatch.{process_all, process_message}

-- Prices in cents, with 9999 for a NaN; nothing fails.
abbrev pub ideal : Platform
ideal = record {
  Real = ℕ;
  real_zero = 0;
  real_tenth = 10;
  real_one = 100;
  real_times = λ r n. r * pos_part n;
  real_to_string = λ r. nat_to_string r;
  is_nan = λ r. r == 9999;
  stod = λ s. some 0;
  hash = λ s. length s;
  fault = λ n. none;
  errmsg = λ n. [];
  clock = λ n. n;
  local_time = λ n. nat_to_string n;
  delivers = λ n c. true;
}

abbrev pub no_tables : Tables ℕ
no_tables = record {
  users = [];
  groups = [];
  next_group_id = 1;
  group_members = [];
  vehicles = [];
  tickets = [];
  payments = [];
  price_list = [];
}

abbrev pub no_pool : Pool ℕ
no_pool = record {
  connections = [];
  available = [];
  initialized = false;
  file = record { tables = no_tables; calls = 0 };
}

abbrev pub started : Server ℕ
started = record {
  pool = (initialize_pool ideal 2 no_pool).1;
  sessions = [];
  subscribers = [];
  session_counter = 0;
  ticket_counter = 0;
  transaction_counter = 0;
  session_timeout = 3600;
  sent = [];
}

abbrev pub urn_1 : Str
urn_1 = str "1234567890123"

abbrev pub script : List Message
script =
    create_register_user urn_1
    ∷ create_auth_request urn_1 []
    ∷ create_register_device (str "bus1") 1
    ∷ add_string (str "urn") urn_1 (add_string (str "uri") (str "bus1") (create_reserve_seat 1 []))
    ∷ add_string (str "session_id") (str "session_1")
        (create_purchase_ticket 1 1 (str "Route_bus1") (pos 3))
    ∷ create_group_create (str "g") urn_1
    ∷ []
