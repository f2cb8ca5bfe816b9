-- ===== src/Message/Factory.antt =====
-- class MessageFactory, common/Message.cpp. An empty optional text leaves its key out.
use protokol_javni_prevoz.Prelude.{ℕ, Bool, Option, none, some, [], ◌∷◌, if◌then◌else◌}
use protokol_javni_prevoz.Prelude.Int.{ℤ, pos}
use protokol_javni_prevoz.Text.{Str, str, is_empty}
use protokol_javni_prevoz.StdMap.{StdMap}
use protokol_javni_prevoz.Message.{Message, new, add_string, add_int, add_bool, calculate_checksum}
use protokol_javni_prevoz.Message.Kind

-- The loop over a map of texts.
unfoldable pub add_all : StdMap Str → Message → Message
add_all [] m = m
add_all ((k, v) ∷ rest) m = add_all rest (add_string k v m)

unfoldable pub add_nonempty : Str → Str → Message → Message
add_nonempty key value m = if is_empty value then m else add_string key value m

unfoldable pub create_connect_request : Str → Message
create_connect_request client_id = calculate_checksum (
    add_string (str "protocol_version") (str "1.0")
      (add_string (str "client_id") client_id (new Kind.connect_request)))

unfoldable pub create_connect_response : Bool → Str → Message
create_connect_response success reason = calculate_checksum (
    add_nonempty (str "reason") reason
      (add_bool (str "success") success (new Kind.connect_response)))

unfoldable pub create_auth_request : Str → Str → Message
create_auth_request urn pin =
    calculate_checksum
      (add_nonempty (str "pin") pin (add_string (str "urn") urn (new Kind.auth_request)))

unfoldable pub create_auth_response : Bool → Str → Message
create_auth_response success token =
    calculate_checksum
      (add_nonempty (str "token") token (add_bool (str "success") success (new Kind.auth_response)))

unfoldable pub create_register_user : Str → Message
create_register_user urn = calculate_checksum (add_string (str "urn") urn (new Kind.register_user))

-- A vehicle type or ticket type is its uint8_t.
unfoldable pub create_register_device : Str → ℕ → Message
create_register_device uri vehicle_type = calculate_checksum (
    add_int (str "vehicle_type") (pos vehicle_type)
      (add_string (str "uri") uri (new Kind.register_device)))

unfoldable pub create_reserve_seat : ℕ → Str → Message
create_reserve_seat vehicle_type route = calculate_checksum (
    add_nonempty (str "route") route
      (add_int (str "vehicle_type") (pos vehicle_type) (new Kind.reserve_seat)))

unfoldable pub create_purchase_ticket : ℕ → ℕ → Str → ℤ → Message
create_purchase_ticket ticket_type vehicle_type route passengers = calculate_checksum (
    add_int (str "passengers") passengers (
      add_nonempty (str "route") route (
        add_int (str "vehicle_type") (pos vehicle_type)
          (add_int (str "ticket_type") (pos ticket_type) (new Kind.purchase_ticket)))))

unfoldable pub create_group_create : Str → Str → Message
create_group_create group_name leader_urn = calculate_checksum (
    add_nonempty (str "leader_urn") leader_urn
      (add_string (str "group_name") group_name (new Kind.create_group)))

unfoldable pub create_delete_user : Str → Str → Message
create_delete_user urn reason =
    calculate_checksum
      (add_nonempty (str "reason") reason (add_string (str "urn") urn (new Kind.delete_user)))

unfoldable pub create_add_member_to_group : Str → Str → Str → Message
create_add_member_to_group group_name member_urn session_id = calculate_checksum (
    add_nonempty (str "session_id") session_id (
      add_string (str "urn") member_urn
        (add_string (str "group_name") group_name (new Kind.add_member_to_group))))

unfoldable pub create_remove_member_from_group : Str → Str → Str → Message
create_remove_member_from_group group_name member_urn session_id = calculate_checksum (
    add_nonempty (str "session_id") session_id (
      add_string (str "urn") member_urn
        (add_string (str "group_name") group_name (new Kind.delete_group_member))))

-- `price` is the text that std::to_string(double) prints.
unfoldable pub create_update_price : ℕ → ℕ → Str → Message
create_update_price vehicle_type ticket_type price = calculate_checksum (
    add_string (str "price") price (
      add_int (str "ticket_type") (pos ticket_type)
        (add_int (str "vehicle_type") (pos vehicle_type) (new Kind.update_price))))

unfoldable pub add_optional {ℓ} :
    {A : Type ℓ} → (A → Message → Message) → Option A → Message → Message
add_optional add none m = m
add_optional add (some a) m = add a m

unfoldable pub create_update_vehicle : Str → Option Bool → Option Str → Option ℕ → Message
create_update_vehicle uri active route type = calculate_checksum (
    add_optional (λ t. add_int (str "vehicle_type") (pos t)) type
      (add_optional (add_string (str "route")) route (
        add_optional (λ b. add_int (str "active") (pos (if b then 1 else 0))) active
          (add_string (str "uri") uri (new Kind.update_vehicle)))))

unfoldable pub create_update_capacity : Str → ℤ → ℤ → Message
create_update_capacity uri capacity available_seats = calculate_checksum (
    add_int (str "available_seats") available_seats
      (add_int (str "capacity") capacity (add_string (str "uri") uri (new Kind.update_capacity))))

unfoldable pub create_success_response : Str → StdMap Str → Message
create_success_response message_text extra =
    calculate_checksum
      (add_all extra (add_nonempty (str "message") message_text (new Kind.response_success)))

unfoldable pub create_error_response : Str → ℤ → Message
create_error_response error_message error_code = calculate_checksum (
    add_int (str "error_code") error_code
      (add_string (str "error") error_message (new Kind.response_error)))

-- `now` is the text of std::time.
unfoldable pub create_heartbeat : Str → Message
create_heartbeat now = calculate_checksum (add_string (str "timestamp") now (new Kind.heartbeat))

unfoldable pub create_disconnect : Message
create_disconnect = calculate_checksum (new Kind.disconnect)

unfoldable pub create_multicast_update : Str → StdMap Str → Message
create_multicast_update update_type extra =
    calculate_checksum
      (add_all extra (add_string (str "update_type") update_type (new Kind.multicast_update)))
