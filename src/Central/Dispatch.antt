-- ===== src/Central/Dispatch.antt =====
-- processMessage and the loop of handleClientMessage, server/CentralServer.cpp.
pub mod Pooling
pub mod Answering
use protokol_javni_prevoz.Prelude.{
  ℕ, ◌≡◌, Bool, true, false, not, Option, none, some, List, [], ◌∷◌, ◌==◌, if◌then◌else◌,
}
use protokol_javni_prevoz.Prelude.Int.{negsuc}
use protokol_javni_prevoz.Result.{Result, done}
use protokol_javni_prevoz.Text.{str}
use protokol_javni_prevoz.Message.{Message}
use protokol_javni_prevoz.Message.Kind
use protokol_javni_prevoz.Platform.{Platform}
use protokol_javni_prevoz.Central.{Server, Handler, ◌>>=◌, ◌>>◌, pure, send_error_response}
use protokol_javni_prevoz.Central.Sessions.{handle_connect_request, handle_auth_request}
use protokol_javni_prevoz.Central.Registration.{
  handle_user_registration, handle_device_registration, handle_user_deletion,
}
use protokol_javni_prevoz.Central.Reservation.{handle_seat_reservation}
use protokol_javni_prevoz.Central.Purchase.{handle_ticket_purchase}
use protokol_javni_prevoz.Central.Groups.{
  handle_group_creation, handle_add_member_to_group, handle_remove_member_from_group,
}
use protokol_javni_prevoz.Central.Admin.{
  handle_update_price, handle_update_vehicle, handle_update_capacity,
}

module _ (env : Platform) where
  open env use {Real}

  -- CentralServer::processMessage.
  unfoldable pub process_message : Message → ℕ → Handler Real (Unit {0})
  process_message m client =
      let kind = m.header.type in
      if kind == Kind.connect_request
      then handle_connect_request env m client
      else if kind == Kind.auth_request
      then handle_auth_request env m client
      else if kind == Kind.register_user
      then handle_user_registration env m client
      else if kind == Kind.register_device
      then handle_device_registration env m client
      else if kind == Kind.reserve_seat
      then handle_seat_reservation env m client
      else if kind == Kind.purchase_ticket
      then handle_ticket_purchase env m client
      else if kind == Kind.create_group
      then handle_group_creation env m client
      else if kind == Kind.add_member_to_group
      then handle_add_member_to_group env m client
      else if kind == Kind.delete_group_member
      then handle_remove_member_from_group env m client
      else if kind == Kind.delete_user
      then handle_user_deletion env m client
      else if kind == Kind.update_price
      then handle_update_price env m client
      else if kind == Kind.update_vehicle
      then handle_update_vehicle env m client
      else if kind == Kind.update_capacity
      then handle_update_capacity env m client
      else send_error_response env client (str "Unknown message type") (negsuc 0)

  -- The messages of one client in turn, up to the first that throws or waits for ever.
  unfoldable pub process_all : List Message → ℕ → Handler Real (Unit {0})
  process_all [] client = pure tt
  process_all (m ∷ ms) client = do process_message m client; process_all ms client

  unfoldable pub without : ℕ → List ℕ → List ℕ
  without client [] = []
  without client (c ∷ cs) = let rest = without client cs in if c == client then rest else c ∷ rest

  -- The end of handleClientMessage: the client leaves the subscribers.
  unfoldable pub disconnect : ℕ → Handler Real (Unit {0})
  disconnect client s = (done tt, record s { subscribers = without client s.subscribers })

  -- CentralServer::handleClientMessage, with the messages that the client's socket yields.
  unfoldable pub handle_client_message : List Message → ℕ → Handler Real (Unit {0})
  handle_client_message ms client = do process_all ms client; disconnect client
