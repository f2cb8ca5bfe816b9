-- ===== src/Central/Purchase.antt =====
-- handleTicketPurchase of server/CentralServer.cpp.
pub mod Records
pub mod Outcome
use protokol_javni_prevoz.Prelude.{
  ℕ, zero, suc, ◌+◌, true, false, not, Option, none, some, List, [], ◌∷◌, ◌++◌, if◌then◌else◌,
}
use protokol_javni_prevoz.Prelude.Int.{ℤ, pos, pos_part, ltb_ℤ, ◌-ℤ◌, ◌+ℤ◌}
use protokol_javni_prevoz.Text.{Str, str, is_empty}
use protokol_javni_prevoz.Text.Decimal.{to_string}
use protokol_javni_prevoz.StdMap.{StdMap}
use protokol_javni_prevoz.Message.{Message, get_string, has_key}
use protokol_javni_prevoz.Message.Factory.{create_success_response}
use protokol_javni_prevoz.Platform.{Platform}
use protokol_javni_prevoz.Database.Rows.{Vehicle, Ticket, Payment}
use protokol_javni_prevoz.Database.Vehicles.{update_seat_availability}
use protokol_javni_prevoz.Database.Tickets.{create_ticket, record_payment}
use protokol_javni_prevoz.Database.Prices.{calculate_ticket_price}
use protokol_javni_prevoz.Central.{
  Session, Handler, ◌>>=◌, ◌>>◌, pure, to_byte, read_int, read_int_or, get_string_or, acquire, call,
  release, last_error, map_of, now, current_timestamp, send_response, send_error_response,
  send_multicast_update, generate_ticket_id, generate_transaction_id,
}
use protokol_javni_prevoz.Central.Sessions.{find_session, touch_session}
use protokol_javni_prevoz.Central.Reservation.{find_by_uri, route_or}
use protokol_javni_prevoz.Database.Vehicles.{get_vehicle_by_route_and_type}

-- The fields of a request.
pub record Order : Type 0 where
  pub urn : Str
  pub ticket_type : ℕ
  pub vehicle_type : ℕ
  pub route : Str
  pub uri : Str
  pub passengers : ℤ

-- `": " + err` unless it is empty.
abbrev colon : Str → Str
colon [] = []
colon (c ∷ s) = str ": " ++ c ∷ s

at_least_one : ℤ → ℤ
at_least_one n = if ltb_ℤ n (pos 1) then pos 1 else n

abbrev first_or_empty : List Str → Str
first_or_empty [] = []
first_or_empty (id ∷ ids) = id

unfoldable pub ordered_details : Order → Vehicle → ℤ → StdMap Str
ordered_details o v available = map_of (
    (str "route", o.route)
    ∷ (str "vehicle_uri", v.uri)
    ∷ (str "passengers", to_string o.passengers)
    ∷ (str "available_seats", to_string available)
    ∷ [])

module _ (env : Platform) where
  open env use {Real, real_zero, real_one, real_times, real_to_string}

  unfoldable pub session_urn : ℕ → Str → Option Session → Handler Real (Option Str)
  session_urn client session_id none = do
    send_error_response env client (str "Invalid or expired session") (pos 401)
    pure none
  session_urn client session_id (some session) = do
    t ← now env
    touch_session session_id session t
    pure (some session.user_urn)

  -- Who buys: the session's user, or else the `urn` field. `none`: the request is answered already.
  unfoldable pub buyer : Message → ℕ → Handler Real (Option Str)
  buyer m client =
      if has_key m (str "session_id")
      then (do
        session ← find_session (get_string m (str "session_id"))
        session_urn client (get_string m (str "session_id")) session)
      else pure (some (get_string_or m (str "urn") []))

  unfoldable pub read_order : Message → Str → Handler Real Order
  unfolding at_least_one
  read_order m urn = do
    kind ← read_int m (str "ticket_type")
    vehicle ← read_int m (str "vehicle_type")
    count ← read_int_or m (str "passengers") (pos 1)
    pure (record {
      urn = urn;
      ticket_type = to_byte kind;
      vehicle_type = to_byte vehicle;
      route = get_string_or m (str "route") [];
      uri = get_string_or m (str "uri") [];
      passengers = at_least_one count;
    })

  unfoldable pub find_on_order : ℕ → Order → Handler Real (Option Vehicle)
  find_on_order i o =
      if is_empty o.route
      then pure none
      else call i (get_vehicle_by_route_and_type env o.route o.vehicle_type)

  -- The vehicle, and the order with the type and route of the vehicle that its uri names.
  unfoldable pub find_ordered : ℕ → Order → Handler Real (Option (Vehicle × Order))
  find_ordered i o = do
    by_uri ← find_by_uri env i o.uri
    elim by_uri [
      | some v ↦ pure (some (v, record o { vehicle_type = v.type; route = v.route }))
      | none ↦ (do
        by_route ← find_on_order i o
        elim by_route [ some v ↦ pure (some (v, o)) | none ↦ pure none ])
    ]

  unfoldable pub new_ticket : Order → Vehicle → Str → Str → ℕ → Ticket Real
  new_ticket o v id date n = record {
    ticket_id = id;
    user_urn = o.urn;
    type = o.ticket_type;
    vehicle_type = o.vehicle_type;
    route = o.route;
    price = calculate_ticket_price env o.vehicle_type o.ticket_type (pos 1) real_one real_one;
    discount = real_zero;
    purchase_date = date;
    seat_number = to_string (v.capacity -ℤ v.available_seats +ℤ pos n +ℤ pos 1);
    used = false;
  }

  -- The loop over the passengers: `left` to go, the next is number `n`. `none`: a ticket failed.
  unfoldable pub create_tickets :
      ℕ → Order → Vehicle → Str → ℕ → ℕ → Handler Real (Option (List Str))
  create_tickets i o v date zero n = pure (some [])
  create_tickets i o v date (suc left) n = do
    id ← generate_ticket_id env
    good ← call i (create_ticket env (new_ticket o v id date n))
    if not good then pure none else do
      ids ← create_tickets i o v date left (n + 1)
      elim ids [ none ↦ pure none | some rest ↦ pure (some (id ∷ rest)) ]

  -- Database error: the connection goes back, and the client hears of it.
  unfoldable pub fail : ℕ → ℕ → Str → Handler Real (Unit {0})
  fail client i text = do
    error ← call i last_error
    release i
    send_error_response env client (text ++ colon error) (pos 500)

  unfoldable pub new_payment : Order → Str → List Str → Str → Payment Real
  new_payment o id ids date = record {
    transaction_id = id;
    ticket_id = first_or_empty ids;
    amount =
        real_times
          (calculate_ticket_price env o.vehicle_type o.ticket_type (pos 1) real_one real_one)
          o.passengers;
    payment_method = str "card";
    payment_date = date;
    successful = true;
  }

  unfoldable pub receipt : Order → Vehicle → ℤ → StdMap Str
  receipt o v available = map_of (
      (
        str "total_amount",
        real_to_string (
            real_times
              (calculate_ticket_price env o.vehicle_type o.ticket_type (pos 1) real_one real_one)
              o.passengers),
      )
      ∷ (str "route", o.route)
      ∷ (str "vehicle_uri", v.uri)
      ∷ (str "available_seats", to_string available)
      ∷ (str "passengers", to_string o.passengers)
      ∷ (str "user_urn", o.urn)
      ∷ [])

  -- The seats, once the tickets and the payment are recorded.
  unfoldable pub take_seats : ℕ → ℕ → Order → Vehicle → Handler Real (Unit {0})
  take_seats client i o v = do
    let available = v.available_seats -ℤ o.passengers
    good ← call i (update_seat_availability env v.uri available)
    if not good then fail client i (str "Failed to update seat availability") else do
      release i
      send_response env client
          (create_success_response (str "Ticket purchased successfully") (receipt o v available))
      send_multicast_update env (str "ticket_purchased") (ordered_details o v available)

  unfoldable pub pay : ℕ → ℕ → Order → Vehicle → Str → Option (List Str) → Handler Real (Unit {0})
  pay client i o v date none = fail client i (str "Failed to create ticket record")
  pay client i o v date (some ids) = do
    id ← generate_transaction_id env
    good ← call i (record_payment env (new_payment o id ids date))
    if not good then fail client i (str "Failed to record payment") else take_seats client i o v

  unfoldable pub purchase_on : ℕ → ℕ → Order → Vehicle → Handler Real (Unit {0})
  purchase_on client i o v =
      if ltb_ℤ v.available_seats o.passengers
      then (do
        release i
        send_error_response env client (str "Insufficient seats available") (pos 409))
      else do
        date ← current_timestamp env
        ids ← create_tickets i o v date (pos_part o.passengers) 0
        pay client i o v date ids

  unfoldable pub purchase_found : ℕ → ℕ → Option (Vehicle × Order) → Handler Real (Unit {0})
  purchase_found client i none = do
    release i
    send_error_response env client (str "Vehicle/route not found") (pos 404)
  purchase_found client i (some (v, o)) =
      purchase_on client i (record o { route = route_or o.route v.route }) v

  unfoldable pub purchase_for : Message → ℕ → Option Str → Handler Real (Unit {0})
  purchase_for m client none = pure tt
  purchase_for m client (some urn) =
      if is_empty urn
      then send_error_response env client (str "Missing user identity (session_id or urn)")
          (pos 400)
      else do
        o ← read_order m urn
        i ← acquire
        found ← find_ordered i o
        purchase_found client i found

  unfoldable pub handle_ticket_purchase : Message → ℕ → Handler Real (Unit {0})
  handle_ticket_purchase m client = do urn ← buyer m client; purchase_for m client urn
