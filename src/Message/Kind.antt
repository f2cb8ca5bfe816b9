-- ===== src/Message/Kind.antt =====
-- enum class MessageType : uint16_t, common/Message.h.
use protokol_javni_prevoz.Prelude.{ℕ}

abbrev pub connect_request : ℕ
connect_request = 1

abbrev pub connect_response : ℕ
connect_response = 2

abbrev pub auth_request : ℕ
auth_request = 3

abbrev pub auth_response : ℕ
auth_response = 4

abbrev pub register_user : ℕ
register_user = 5

abbrev pub register_device : ℕ
register_device = 6

abbrev pub reserve_seat : ℕ
reserve_seat = 7

abbrev pub purchase_ticket : ℕ
purchase_ticket = 8

abbrev pub create_group : ℕ
create_group = 9

abbrev pub delete_user : ℕ
delete_user = 10

abbrev pub delete_group_member : ℕ
delete_group_member = 11

abbrev pub update_price_list : ℕ
update_price_list = 12

abbrev pub get_vehicle_status : ℕ
get_vehicle_status = 13

abbrev pub multicast_update : ℕ
multicast_update = 14

abbrev pub response_success : ℕ
response_success = 15

abbrev pub response_error : ℕ
response_error = 16

abbrev pub heartbeat : ℕ
heartbeat = 17

abbrev pub disconnect : ℕ
disconnect = 18

abbrev pub update_price : ℕ
update_price = 19

abbrev pub update_vehicle : ℕ
update_vehicle = 20

abbrev pub update_capacity : ℕ
update_capacity = 21

abbrev pub add_member_to_group : ℕ
add_member_to_group = 1001
