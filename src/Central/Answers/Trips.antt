-- ===== src/Central/Answers/Trips.antt =====
-- handleSeatReservation and handleTicketPurchase of server/CentralServer.cpp: each answers its
-- client once, and takes no more seats than there are.
use protokol_javni_prevoz.Prelude.{
  ℕ, zero, suc, ◌+◌, ◌≡◌, Bool, true, false, not, Option, none, some, List, [], ◌∷◌, arith,
  if◌then◌else◌,
}
use protokol_javni_prevoz.Prelude.Int.{ℤ, pos, neg_part, ◌-ℤ◌, leb_ℤ, ltb_ℤ}
use protokol_javni_prevoz.Text.{Str, str, is_empty}
use protokol_javni_prevoz.Message.{Message, has_key}
use protokol_javni_prevoz.Platform.{Platform}
use protokol_javni_prevoz.Database.Rows.{Vehicle}
use protokol_javni_prevoz.Database.Vehicles.Bounds.{update_seat_availability-Keeps}
use protokol_javni_prevoz.Database.Vehicles.Untouched.{
  get_vehicle-Keeps, on_route-Keeps, create_ticket-Keeps, record_payment-Keeps,
}
use protokol_javni_prevoz.Central.{Session, Handler}
use protokol_javni_prevoz.Central.Reservation.{
  find_by_uri, find_other_type, find_by_route, find_reserved, reserve_on, reserve_found,
  vehicle_types, handle_seat_reservation,
}
use protokol_javni_prevoz.Central.Purchase.{
  Order, session_urn, buyer, read_order, find_on_order, find_ordered, create_tickets, fail,
  take_seats, pay, purchase_on, purchase_found, purchase_for, handle_ticket_purchase,
}
use protokol_javni_prevoz.Central.Answers.{
  vehicle_type, ticket_type, passengers, Throws, Fine, Walk, Silent, Answers, AnswersIf, chain,
  silently, before, behind, either, either_Silent, guarded, choose_Silent,
}
use protokol_javni_prevoz.Central.Answers.Steps.{
  pure-Silent, now-Silent, current_timestamp-Silent, find_session-Silent, touch_session-Silent,
  ticket_id-Silent, transaction_id-Silent, read_int-Silent, read_int_or-Silent, acquire-Silent,
  call-Silent, release-Silent, send_response-Answers, error-Answers, multicast-Silent,
}
use protokol_javni_prevoz.Central.Answers.Kinds.{success-is_update}
use protokol_javni_prevoz.Central.Answers.Handlers.{last_error-Keeps}

-- Seats are taken only where they are there.
one_less : (n : ℤ) → leb_ℤ n (pos 0) ≡ false → neg_part (n -ℤ pos 1) ≡ 0
unfolding ◌-ℤ◌
one_less n h = ground arith

some_less : (n k : ℤ) → ltb_ℤ n k ≡ false → neg_part (n -ℤ k) ≡ 0
unfolding ◌-ℤ◌
some_less n k h = ground arith

module _ (env : Platform) (U : Type 0) (client : ℕ) where
  open env use {Real}

  find_by_uri-Silent : (i : ℕ) (uri : Str) → Silent env U client (find_by_uri env i uri)
  unfolding find_by_uri
  find_by_uri-Silent i uri =
      either_Silent _ (pure-Silent none) (call-Silent i (get_vehicle-Keeps env uri))

  find_other_type-Silent :
      (i : ℕ) (route : Str) (type : ℕ) (ts : List ℕ)
      → Silent env U client (find_other_type env i route type ts)
  unfolding find_other_type
  find_other_type-Silent i route type [] = pure-Silent none
  find_other_type-Silent i route type (t ∷ ts) =
      let rest = find_other_type-Silent i route type ts in
      either_Silent _ rest (
        silently (call-Silent i (on_route-Keeps env route t))
          (λ found. choose_Silent found rest (λ v. pure-Silent (some v))))

  find_by_route-Silent :
      (i : ℕ) (route : Str) (type : ℕ) → Silent env U client (find_by_route env i route type)
  unfolding find_by_route
  find_by_route-Silent i route type = either_Silent _ (pure-Silent none) (
      silently (call-Silent i (on_route-Keeps env route type)) (λ found.
        choose_Silent found (find_other_type-Silent i route type vehicle_types)
          (λ v. pure-Silent (some v))))

  find_reserved-Silent :
      (i : ℕ) (uri route : Str) (type : ℕ)
      → Silent env U client (find_reserved env i uri route type)
  unfolding find_reserved
  find_reserved-Silent i uri route type = silently (find_by_uri-Silent i uri) (λ by_uri.
      choose_Silent by_uri
        (silently (find_by_route-Silent i route type) (λ by_route.
          choose_Silent by_route (pure-Silent none) (λ v. pure-Silent (some (v, route)))))
        (λ v. pure-Silent (some (v, v.route))))

  reserve_on-Answers :
      (i : ℕ) (v : Vehicle) (route : Str) → Answers env U client (reserve_on env client i v route)
  unfolding reserve_on
  reserve_on-Answers i v route =
      guarded (leb_ℤ v.available_seats (pos 0)) (before (release-Silent i) (λ _. error-Answers _ _))
        (λ free.
          before
            (call-Silent i
              (update_seat_availability-Keeps env v.uri _ (one_less v.available_seats free)))
            (λ good. before (release-Silent i) (λ _. either (not good) (error-Answers _ _) (
              behind (send_response-Answers _ (success-is_update _ _))
                (λ _. multicast-Silent _ _)))))

  reserve_found-Answers :
      (i : ℕ) (found : Option (Vehicle × Str))
      → Answers env U client (reserve_found env client i found)
  unfolding reserve_found
  reserve_found-Answers i none = before (release-Silent i) (λ _. error-Answers _ _)
  reserve_found-Answers i (some (v, route)) = reserve_on-Answers i v _

  pub reservation-Answers :
      (m : Message) (bad : Throws U m) → Answers env U client (handle_seat_reservation env m client)
  unfolding handle_seat_reservation
  reservation-Answers m bad = before (read_int-Silent m vehicle_type bad) (λ type.
      either _ (error-Answers _ _) (
        before acquire-Silent
          (λ i. before (find_reserved-Silent i _ _ _) (λ found. reserve_found-Answers i found))))

  -- Without a buyer, the request has been answered.
  abbrev answered_already : Option Str → Bool
  answered_already none = true
  answered_already (some urn) = false

  session_urn-AnswersIf :
      (id : Str) (session : Option Session)
      → AnswersIf env U client answered_already (session_urn env client id session)
  unfolding session_urn
  session_urn-AnswersIf id none n =
      chain env U (error-Answers _ _ n) (λ _. record { run = λ s p. p })
  session_urn-AnswersIf id (some session) n =
      chain env U (now-Silent n)
        (λ t. chain env U (touch_session-Silent id session t n) (λ _. record { run = λ s p. p }))

  choose_if :
      {m k : Handler Real (Option Str)} (b : Bool)
      → AnswersIf env U client answered_already m
      → AnswersIf env U client answered_already k
      → AnswersIf env U client answered_already (if b then m else k)
  choose_if true t u = t
  choose_if false t u = u

  buyer-AnswersIf : (m : Message) → AnswersIf env U client answered_already (buyer env m client)
  unfolding buyer
  buyer-AnswersIf m =
      choose_if (has_key m (str "session_id"))
        (λ n. chain env U (find_session-Silent _ n) (λ s. session_urn-AnswersIf _ s n))
        (λ n. record { run = λ s p. p })

  read_order-Silent :
      (m : Message) (bad : Throws U m) (urn : Str) → Silent env U client (read_order env m urn)
  unfolding read_order
  read_order-Silent m bad urn = silently (read_int-Silent m ticket_type bad) (λ kind.
      silently (read_int-Silent m vehicle_type bad)
        (λ vehicle. silently (read_int_or-Silent m passengers _ bad) (λ count. pure-Silent _)))

  find_ordered-Silent : (i : ℕ) (o : Order) → Silent env U client (find_ordered env i o)
  unfolding find_ordered find_on_order
  find_ordered-Silent i o = silently (find_by_uri-Silent i o.uri) (λ by_uri.
      choose_Silent by_uri
        (silently (either_Silent _ (pure-Silent none) (call-Silent i (on_route-Keeps env _ _)))
          (λ by_route. choose_Silent by_route (pure-Silent none) (λ v. pure-Silent (some (v, o)))))
        (λ v. pure-Silent _))

  create_tickets-Silent :
      (i : ℕ) (o : Order) (v : Vehicle) (date : Str) (left n : ℕ)
      → Silent env U client (create_tickets env i o v date left n)
  unfolding create_tickets
  create_tickets-Silent i o v date zero n = pure-Silent (some [])
  create_tickets-Silent i o v date (suc left) n = silently ticket_id-Silent (λ id.
      silently (call-Silent i (create_ticket-Keeps env _)) (λ good.
        either_Silent _ (pure-Silent none) (
          silently (create_tickets-Silent i o v date left (n + 1))
            (λ ids. choose_Silent ids (pure-Silent none) (λ rest. pure-Silent _)))))

  fail-Answers : (i : ℕ) (text : Str) → Answers env U client (fail env client i text)
  unfolding fail
  fail-Answers i text =
      before (call-Silent i last_error-Keeps)
        (λ error. before (release-Silent i) (λ _. error-Answers _ _))

  take_seats-Answers :
      (i : ℕ) (o : Order) (v : Vehicle)
      → ltb_ℤ v.available_seats o.passengers ≡ false
      → Answers env U client (take_seats env client i o v)
  unfolding take_seats
  take_seats-Answers i o v h =
      before
        (call-Silent i
          (update_seat_availability-Keeps env v.uri _ (some_less v.available_seats o.passengers h)))
        (λ good. either (not good) (fail-Answers i _) (
          before (release-Silent i) (λ _.
            behind (send_response-Answers _ (success-is_update _ _)) (λ _. multicast-Silent _ _))))

  pay-Answers :
      (i : ℕ) (o : Order) (v : Vehicle) (date : Str) (ids : Option (List Str))
      → ltb_ℤ v.available_seats o.passengers ≡ false
      → Answers env U client (pay env client i o v date ids)
  unfolding pay
  pay-Answers i o v date none h = fail-Answers i _
  pay-Answers i o v date (some ids) h = before transaction_id-Silent (λ id.
      before (call-Silent i (record_payment-Keeps env _))
        (λ good. either (not good) (fail-Answers i _) (take_seats-Answers i o v h)))

  purchase_on-Answers :
      (i : ℕ) (o : Order) (v : Vehicle) → Answers env U client (purchase_on env client i o v)
  unfolding purchase_on
  purchase_on-Answers i o v =
      guarded (ltb_ℤ v.available_seats o.passengers)
        (before (release-Silent i) (λ _. error-Answers _ _))
        (λ h. before current_timestamp-Silent (λ date.
          before (create_tickets-Silent i o v date _ 0) (λ ids. pay-Answers i o v date ids h)))

  purchase_found-Answers :
      (i : ℕ) (found : Option (Vehicle × Order))
      → Answers env U client (purchase_found env client i found)
  unfolding purchase_found
  purchase_found-Answers i none = before (release-Silent i) (λ _. error-Answers _ _)
  purchase_found-Answers i (some (v, o)) = purchase_on-Answers i _ v

  purchase_for-Walk :
      (m : Message) (bad : Throws U m) (n : ℕ) (urn : Option Str)
      → Walk env U
          (Fine env client (if answered_already urn then n + 1 else n))
          (purchase_for env m client urn)
          (λ _. Fine env client (n + 1))
  unfolding purchase_for
  purchase_for-Walk m bad n none = record { run = λ s p. p }
  purchase_for-Walk m bad n (some urn) =
      either (is_empty urn) (error-Answers _ _)
        (before (read_order-Silent m bad urn) (λ o.
          before acquire-Silent
            (λ i. before (find_ordered-Silent i o) (λ found. purchase_found-Answers i found))))
        n

  pub purchase-Answers :
      (m : Message) (bad : Throws U m) → Answers env U client (handle_ticket_purchase env m client)
  unfolding handle_ticket_purchase
  purchase-Answers m bad n =
      chain env U (buyer-AnswersIf m n) (λ urn. purchase_for-Walk m bad n urn)
