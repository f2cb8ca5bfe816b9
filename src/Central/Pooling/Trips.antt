-- ===== src/Central/Pooling/Trips.antt =====
-- handleSeatReservation and handleTicketPurchase of server/CentralServer.cpp, and the connections
-- that they borrow.
use protokol_javni_prevoz.Prelude.{ℕ, zero, suc, ◌+◌, Option, none, some, List, [], ◌∷◌}
use protokol_javni_prevoz.Text.{Str}
use protokol_javni_prevoz.Message.{Message}
use protokol_javni_prevoz.Platform.{Platform}
use protokol_javni_prevoz.Database.Rows.{Vehicle}
use protokol_javni_prevoz.Central.{Session}
use protokol_javni_prevoz.Central.Pooling.{Steady, call-Steady}
use protokol_javni_prevoz.Central.Pooling.Rules.{
  Settles, Repays, steady, borrow, first, using, repay, either, either_Steady, either_Repays,
  choose_Steady,
}
use protokol_javni_prevoz.Central.Pooling.Steps.{
  pure-Steady, next, read_int-Steady, read_int_or-Steady, find_session-Steady, touch_session-Steady,
  now-Steady, current_timestamp-Steady, send_response-Steady, error-Steady, multicast-Steady,
  ticket_id-Steady, transaction_id-Steady,
}
use protokol_javni_prevoz.Central.Reservation.{
  find_by_uri, find_other_type, find_by_route, find_reserved, reserve_on, reserve_found,
  vehicle_types, handle_seat_reservation,
}
use protokol_javni_prevoz.Central.Purchase.{
  Order, session_urn, buyer, read_order, find_on_order, find_ordered, create_tickets, fail,
  take_seats, pay, purchase_on, purchase_found, purchase_for, handle_ticket_purchase,
}

module _ (env : Platform) where
  open env use {Real}

  find_by_uri-Steady : (i : ℕ) (uri : Str) → Steady (find_by_uri env i uri)
  unfolding find_by_uri
  find_by_uri-Steady i uri = either_Steady _ (pure-Steady none) (call-Steady i _)

  find_other_type-Steady :
      (i : ℕ) (route : Str) (type : ℕ) (ts : List ℕ) → Steady (find_other_type env i route type ts)
  unfolding find_other_type
  find_other_type-Steady i route type [] = pure-Steady none
  find_other_type-Steady i route type (t ∷ ts) =
      let rest = find_other_type-Steady i route type ts in
      either_Steady _ rest
        (next (call-Steady i _) (λ found. choose_Steady found rest (λ v. pure-Steady (some v))))

  find_by_route-Steady : (i : ℕ) (route : Str) (type : ℕ) → Steady (find_by_route env i route type)
  unfolding find_by_route
  find_by_route-Steady i route type = either_Steady _ (pure-Steady none) (
      next (call-Steady i _) (λ found.
        choose_Steady found (find_other_type-Steady i route type vehicle_types)
          (λ v. pure-Steady (some v))))

  find_reserved-Steady :
      (i : ℕ) (uri route : Str) (type : ℕ) → Steady (find_reserved env i uri route type)
  unfolding find_reserved
  find_reserved-Steady i uri route type = next (find_by_uri-Steady i uri) (λ by_uri.
      choose_Steady by_uri
        (next (find_by_route-Steady i route type) (λ by_route.
          choose_Steady by_route (pure-Steady none) (λ v. pure-Steady (some (v, route)))))
        (λ v. pure-Steady (some (v, v.route))))

  reserve_on-Repays :
      (client i : ℕ) (v : Vehicle) (route : Str) → Repays i (reserve_on env client i v route)
  unfolding reserve_on
  reserve_on-Repays client i v route = either_Repays _ (repay (error-Steady env client _ _)) (
      using (call-Steady i _) (λ good. repay (
        either_Steady _ (error-Steady env client _ _)
          (next (send_response-Steady env client _) (λ _. multicast-Steady env _ _)))))

  reserve_found-Repays :
      (client i : ℕ) (found : Option (Vehicle × Str)) → Repays i (reserve_found env client i found)
  unfolding reserve_found
  reserve_found-Repays client i none = repay (error-Steady env client _ _)
  reserve_found-Repays client i (some (v, route)) = reserve_on-Repays client i v _

  pub reservation-Settles :
      (m : Message) (client : ℕ) → Settles (handle_seat_reservation env m client)
  unfolding handle_seat_reservation
  reservation-Settles m client = first (read_int-Steady m _) (λ type.
      either _ (steady (error-Steady env client _ _)) (
        borrow (λ i.
          using (find_reserved-Steady i _ _ _) (λ found. reserve_found-Repays client i found))))

  session_urn-Steady :
      (client : ℕ) (id : Str) (session : Option Session)
      → Steady (session_urn env client id session)
  unfolding session_urn
  session_urn-Steady client id none = next (error-Steady env client _ _) (λ _. pure-Steady none)
  session_urn-Steady client id (some session) =
      next (now-Steady env) (λ t. next (touch_session-Steady id session t) (λ _. pure-Steady _))

  buyer-Steady : (m : Message) (client : ℕ) → Steady (buyer env m client)
  unfolding buyer
  buyer-Steady m client =
      either_Steady _ (next (find_session-Steady _) (λ s. session_urn-Steady client _ s))
        (pure-Steady _)

  read_order-Steady : (m : Message) (urn : Str) → Steady (read_order env m urn)
  unfolding read_order
  read_order-Steady m urn = next (read_int-Steady m _) (λ kind.
      next (read_int-Steady m _)
        (λ vehicle. next (read_int_or-Steady m _ _) (λ count. pure-Steady _)))

  find_ordered-Steady : (i : ℕ) (o : Order) → Steady (find_ordered env i o)
  unfolding find_ordered find_on_order
  find_ordered-Steady i o = next (find_by_uri-Steady i o.uri) (λ by_uri.
      choose_Steady by_uri
        (next (either_Steady _ (pure-Steady none) (call-Steady i _))
          (λ by_route. choose_Steady by_route (pure-Steady none) (λ v. pure-Steady (some (v, o)))))
        (λ v. pure-Steady _))

  create_tickets-Steady :
      (i : ℕ) (o : Order) (v : Vehicle) (date : Str) (left n : ℕ)
      → Steady (create_tickets env i o v date left n)
  unfolding create_tickets
  create_tickets-Steady i o v date zero n = pure-Steady (some [])
  create_tickets-Steady i o v date (suc left) n = next (ticket_id-Steady env) (λ id.
      next (call-Steady i _) (λ good. either_Steady _ (pure-Steady none) (
        next (create_tickets-Steady i o v date left (n + 1))
          (λ ids. choose_Steady ids (pure-Steady none) (λ rest. pure-Steady _)))))

  fail-Repays : (client i : ℕ) (text : Str) → Repays i (fail env client i text)
  unfolding fail
  fail-Repays client i text = using (call-Steady i _) (λ error. repay (error-Steady env client _ _))

  take_seats-Repays :
      (client i : ℕ) (o : Order) (v : Vehicle) → Repays i (take_seats env client i o v)
  unfolding take_seats
  take_seats-Repays client i o v = using (call-Steady i _) (λ good.
      either_Repays _ (fail-Repays client i _)
        (repay (next (send_response-Steady env client _) (λ _. multicast-Steady env _ _))))

  pay-Repays :
      (client i : ℕ) (o : Order) (v : Vehicle) (date : Str) (ids : Option (List Str))
      → Repays i (pay env client i o v date ids)
  unfolding pay
  pay-Repays client i o v date none = fail-Repays client i _
  pay-Repays client i o v date (some ids) = using (transaction_id-Steady env) (λ id.
      using (call-Steady i _)
        (λ good. either_Repays _ (fail-Repays client i _) (take_seats-Repays client i o v)))

  purchase_on-Repays :
      (client i : ℕ) (o : Order) (v : Vehicle) → Repays i (purchase_on env client i o v)
  unfolding purchase_on
  purchase_on-Repays client i o v = either_Repays _ (repay (error-Steady env client _ _)) (
      using (current_timestamp-Steady env) (λ date.
        using (create_tickets-Steady i o v date _ 0) (λ ids. pay-Repays client i o v date ids)))

  purchase_found-Repays :
      (client i : ℕ) (found : Option (Vehicle × Order))
      → Repays i (purchase_found env client i found)
  unfolding purchase_found
  purchase_found-Repays client i none = repay (error-Steady env client _ _)
  purchase_found-Repays client i (some (v, o)) = purchase_on-Repays client i _ v

  purchase_for-Settles :
      (m : Message) (client : ℕ) (urn : Option Str) → Settles (purchase_for env m client urn)
  unfolding purchase_for
  purchase_for-Settles m client none = steady (pure-Steady tt)
  purchase_for-Settles m client (some urn) = either _ (steady (error-Steady env client _ _)) (
      first (read_order-Steady m urn) (λ o.
        borrow
          (λ i. using (find_ordered-Steady i o) (λ found. purchase_found-Repays client i found))))

  pub purchase-Settles : (m : Message) (client : ℕ) → Settles (handle_ticket_purchase env m client)
  unfolding handle_ticket_purchase
  purchase-Settles m client =
      first (buyer-Steady m client) (λ urn. purchase_for-Settles m client urn)
