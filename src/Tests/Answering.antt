-- ===== src/Tests/Answering.antt =====
-- A client that registers, signs in and reserves the last seat.
use protokol_javni_prevoz.Prelude.{◌+◌, ◌≡◌, ◌≢◌, refl, List, [], ◌∷◌, length, arith}
use protokol_javni_prevoz.Prelude.Int.{ℤ, pos}
use protokol_javni_prevoz.Result.{Exception, Result, done, threw}
use protokol_javni_prevoz.Text.{str, compare_str, eq_str}
use protokol_javni_prevoz.StdMap.{find, insert}
use protokol_javni_prevoz.Message.{
  Message, new, add_string, add_int, get_int, calculate_checksum, with_checksum,
}
use protokol_javni_prevoz.Message.Kind
use protokol_javni_prevoz.Message.Access.{get_int-add_int}
use protokol_javni_prevoz.Message.Factory.{add_nonempty, create_register_user, create_auth_request}
use protokol_javni_prevoz.Central.Triple.{Ends, NeverThrows}
use protokol_javni_prevoz.Central.Answers.{
  NumberField, key_of, age, vehicle_type, ticket_type, passengers, active, capacity,
  available_seats, count_answers, Seats,
}
use protokol_javni_prevoz.Central.Dispatch.{handle_client_message}
use protokol_javni_prevoz.Central.Dispatch.Answering.{
  handle_client_message-Seats, handle_client_message_answers,
}
use protokol_javni_prevoz.Tests.{ideal, urn_1}
use protokol_javni_prevoz.Tests.Handling.{served, one_free}

done_threw : (r : Result ℤ) (z : ℤ) (e : Exception) → r ≡ done z → r ≢ threw e
done_threw r z e h k = cc

registration : (f : NumberField) → get_int (create_register_user urn_1) (key_of f) ≡ done (pos 0)
unfolding create_register_user calculate_checksum with_checksum add_string new get_int insert find
    eq_str compare_str str
registration age = refl
registration vehicle_type = refl
registration ticket_type = refl
registration passengers = refl
registration active = refl
registration capacity = refl
registration available_seats = refl

authentication :
    (f : NumberField) → get_int (create_auth_request urn_1 []) (key_of f) ≡ done (pos 0)
unfolding create_auth_request add_nonempty calculate_checksum with_checksum add_string new get_int
    insert find eq_str compare_str str
authentication age = refl
authentication vehicle_type = refl
authentication ticket_type = refl
authentication passengers = refl
authentication active = refl
authentication capacity = refl
authentication available_seats = refl

abbrev named : Message
named = add_string (str "urn") urn_1 (add_string (str "uri") (str "bus1") (new Kind.reserve_seat))

abbrev seat : Message
seat = add_int (str "vehicle_type") (pos 1) named

reservation : (f : NumberField) → (z : ℤ) × (get_int seat (key_of f) ≡ done z)
unfolding add_int add_string new get_int insert find eq_str compare_str str
reservation age = (_, refl)
reservation vehicle_type = (_, get_int-add_int (str "vehicle_type") (pos 1) named (omega arith))
reservation ticket_type = (_, refl)
reservation passengers = (_, refl)
reservation active = (_, refl)
reservation capacity = (_, refl)
reservation available_seats = (_, refl)

abbrev visit : List Message
visit = create_register_user urn_1 ∷ create_auth_request urn_1 [] ∷ seat ∷ []

handle_client_message-Seats_example : Seats ideal (handle_client_message ideal visit 7 served).1
handle_client_message-Seats_example = handle_client_message-Seats ideal visit 7 served (refl, tt)

handle_client_message_answers_example :
    Ends NeverThrows
      (λ _ s. count_answers 7 s.sent ≡ count_answers 7 [] + length visit)
      (handle_client_message ideal visit 7 served)
handle_client_message_answers_example =
    handle_client_message_answers ideal visit 7 served (record { places = refl }) one_free
      (refl, tt) (λ n c. refl)
      (
        λ f e. done_threw _ _ e (registration f),
        (
          λ f e. done_threw _ _ e (authentication f),
          (λ f e. done_threw _ _ e (reservation f).1, tt),
        ),
      )
