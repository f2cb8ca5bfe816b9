-- ===== src/Tests/Console.antt =====
-- The console client at concrete states and inputs.
use protokol_javni_prevoz.Prelude.{
  ◌+◌, ◌<◌, ◌≡◌, ◌∙◌, ap, subst, if◌then◌else◌, refl, true, false, none, some, List, [], ◌∷◌, ◌++◌,
  arith, length,
}
use protokol_javni_prevoz.Text.{Str, str, eq_str, compare_str, has_prefix}
use protokol_javni_prevoz.Text.Split.{
  IsWord, Spaced, join, split_string, split_string-join, split_string-Spaced,
}
use protokol_javni_prevoz.StdMap.{find, insert}
use protokol_javni_prevoz.Codec.{encode_data, put_field}
use protokol_javni_prevoz.Message.{Message, new, serialize, add_string, get_bool}
use protokol_javni_prevoz.Message.Kind
use protokol_javni_prevoz.Message.WellFormed.{
  IsWellFormed, new-IsWellFormed, add_string-IsWellFormed,
}
use protokol_javni_prevoz.Message.Factory.{create_auth_request}
use protokol_javni_prevoz.Wire.{Socket, receive_message}
use protokol_javni_prevoz.Central.Dispatch.{process_message}
use protokol_javni_prevoz.Client.{Network, UserInterface, authenticate, receive_response}
use protokol_javni_prevoz.Client.Commands.{space, parse_vehicle, normalize_uri_arg, reserve_request}
use protokol_javni_prevoz.Client.Session.{next, interpret, session_loop}
use protokol_javni_prevoz.Client.Frames.{Leads}
use protokol_javni_prevoz.Client.Guest.{Silenced, session_loop-Guest}
use protokol_javni_prevoz.Client.Authentication.{SignedIn, Ended, heard, authenticate_lem}
use protokol_javni_prevoz.Client.EndOfInput.{shows, prompts, session_loop-nil}
use protokol_javni_prevoz.Client.Reserve.{
  sent, received, posted, went_out, answered, shown_for, Served, reserve_round_trip,
}
use protokol_javni_prevoz.Tests.{ideal, urn_1}
use protokol_javni_prevoz.Tests.Handling.{served, one_free, ideal-Reliable}

abbrev granted : Message
granted = new Kind.response_success

abbrev line_to_server : Socket
line_to_server = record {
  tls_established = true;
  inbox = serialize granted ++ [];
  outbox = [];
  last_error = [];
}

abbrev network : Network
network = record {
  discovered = none;
  opened = λ host port ca_file. (true, line_to_server);
  goes = λ n. true;
}

abbrev guest : UserInterface
guest = record {
  socket = some line_to_server;
  session_token = [];
  current_urn = [];
  authenticated = false;
  output = [];
  writes = 0;
}

abbrev passenger : UserInterface
passenger = record guest {
  session_token = str "session_1";
  current_urn = urn_1;
  authenticated = true;
}

abbrev typed : List Str
typed = (str "register " ++ urn_1) ∷ str "reserve bus bus1" ∷ str "quit" ∷ []

session_loop-Guest_example : Leads (Silenced guest) (session_loop network 3 typed guest)
session_loop-Guest_example = session_loop-Guest network 3 typed guest

session_loop-nil_example : session_loop network 5 [] guest ≡ next (shows guest (prompts 5))
session_loop-nil_example = session_loop-nil network 5 guest

abbrev with_token : Message
with_token = add_string (str "token") (str "session_1") (new Kind.response_success)

abbrev session : Message
session = add_string (str "success") (str "true") with_token

abbrev session_line : Socket
session_line = record line_to_server { inbox = serialize session ++ [] }

abbrev newcomer : UserInterface
newcomer = record guest { socket = some session_line }

token_length :
    length
      (encode_data (insert (str "token") (str "session_1") (new Kind.response_success).entries))
    ≡ 22
unfolding encode_data put_field insert new str compare_str add_string
token_length = refl

session_length : length (encode_data (insert (str "success") (str "true") with_token.entries)) ≡ 41
unfolding encode_data put_field insert new str compare_str add_string
session_length = refl

session-IsWellFormed : IsWellFormed session
session-IsWellFormed =
    add_string-IsWellFormed (str "success") (str "true") with_token
      (add_string-IsWellFormed (str "token") (str "session_1") (new Kind.response_success)
        (new-IsWellFormed Kind.response_success (omega arith)) (omega (arith, token_length)))
      (omega (arith, session_length))

heard-session : heard network urn_1 newcomer ≡ some session
heard-session =
    ap (λ r. if r.0 then (receive_response r.1).0 else none)
      (sent network newcomer session_line (create_auth_request urn_1 [])
        (record { connected = refl; established = refl; goes = refl }))
    ∙ ap (λ r. r.0)
        (received (went_out newcomer session_line (create_auth_request urn_1 []))
          (posted session_line (create_auth_request urn_1 [])) session [] refl refl refl
          session-IsWellFormed)

granted_session : get_bool session (str "success") ≡ true
unfolding get_bool add_string str find insert new compare_str eq_str
granted_session = refl

authenticate_lem_example : SignedIn urn_1 session (authenticate network urn_1 newcomer)
authenticate_lem_example =
    (subst (λ o. Ended urn_1 newcomer o (authenticate network urn_1 newcomer)) heard-session
        (authenticate_lem urn_1 newcomer network)).0
      granted_session

bus-IsWord : IsWord space (str "bus")
unfolding str
bus-IsWord = (refl, (refl, (refl, (refl, tt))))

bus1-IsWord : IsWord space (str "bus1")
unfolding str
bus1-IsWord = (refl, (refl, (refl, (refl, (refl, tt)))))

short_request : length (normalize_uri_arg (str "bus1")) + length urn_1 < 2147483648
unfolding normalize_uri_arg str has_prefix
short_request = omega arith

abbrev at_server : Socket
at_server = record line_to_server {
  inbox = serialize (reserve_request 1 (normalize_uri_arg (str "bus1")) urn_1) ++ [];
}

reserve_round_trip_example :
    (interpret network (join space (str "reserve" ∷ str "bus" ∷ str "bus1" ∷ [])) passenger
      ≡ next (
          answered passenger line_to_server
            (reserve_request 1 (normalize_uri_arg (str "bus1")) urn_1)
            []
            (shown_for (str "Seat reserved successfully!") (str "Reservation failed: ") granted)))
    × (receive_message at_server ≡ (
      some (reserve_request 1 (normalize_uri_arg (str "bus1")) urn_1),
      record at_server { inbox = [] },
    ))
    × Served ideal 7
        (normalize_uri_arg (str "bus1"))
        1
        served
        (process_message ideal (reserve_request 1 (normalize_uri_arg (str "bus1")) urn_1) 7 served)
reserve_round_trip_example =
    reserve_round_trip network ideal (str "bus") (str "bus1") 1 7 passenger line_to_server at_server
      granted [] [] served bus-IsWord bus1-IsWord
      (unfold parse_vehicle eq_str compare_str str in refl) refl (unfold str in refl) short_request
      (record { connected = refl; established = refl; goes = refl })
      (new-IsWellFormed Kind.response_success (omega arith)) refl refl refl ideal-Reliable one_free

abbrev three_words : List Str
three_words = str "bus" ∷ str "bus1" ∷ str "bus" ∷ []

split_string-join_example : split_string (join space three_words) space ≡ three_words
split_string-join_example =
    split_string-join space three_words (bus-IsWord, (bus1-IsWord, (bus-IsWord, tt)))

split_string-Spaced_example : Spaced space (str " a  b ") (split_string (str " a  b ") space)
split_string-Spaced_example = split_string-Spaced space (str " a  b ")
