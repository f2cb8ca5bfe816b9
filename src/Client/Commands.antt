-- ===== src/Client/Commands.antt =====
-- The commands of client/UserInterface.cpp.
use protokol_javni_prevoz.Prelude.{
  ℕ, zero, suc, not, ◌&&◌, Option, none, some, List, [], ◌∷◌, ◌++◌, ◌==◌, length, drop,
  if◌then◌else◌,
}
use protokol_javni_prevoz.Prelude.Int.{ℤ, pos, ltb_ℤ}
use protokol_javni_prevoz.Result.{done, threw, blocked}
use protokol_javni_prevoz.Text.{Str, str, eq_str, has_prefix}
use protokol_javni_prevoz.Text.Decimal.{stoi, nat_to_string}
use protokol_javni_prevoz.Text.Split.{split_string}
use protokol_javni_prevoz.Message.{Message, new, add_string, get_string, calculate_checksum}
use protokol_javni_prevoz.Message.Kind
use protokol_javni_prevoz.Message.Factory.{
  add_nonempty, create_register_user, create_register_device, create_reserve_seat,
  create_purchase_ticket, create_group_create,
}
use protokol_javni_prevoz.Wire.{Socket, receive_message}
use protokol_javni_prevoz.Central.Validation.{all_digits}
use protokol_javni_prevoz.Client.{
  Network, UserInterface, Step, ◌>>=◌, ◌>>◌, print, current_urn, session_token, submit,
  authenticate,
}

abbrev pub space : ℕ
space = b' '

-- The words of an input line.
abbrev pub words : Str → List Str
words input = split_string input space

unfoldable pub parse_vehicle : Str → Option ℕ
parse_vehicle s =
    if eq_str s (str "bus")
    then some 1
    else if eq_str s (str "tram")
    then some 2
    else if eq_str s (str "trolleybus")
    then some 3
    else none

unfoldable pub parse_ticket : Str → Option ℕ
parse_ticket s =
    if eq_str s (str "individual")
    then some 1
    else if eq_str s (str "family")
    then some 2
    else if eq_str s (str "business")
    then some 3
    else if eq_str s (str "tourist")
    then some 4
    else none

-- normalizeUriArg.
unfoldable pub normalize_uri_arg : Str → Str
normalize_uri_arg s = if has_prefix (str "uri=") s then drop 4 s else s

-- The request of `reserve`: the factory's, then the uri and the user, then the checksum again.
unfoldable pub reserve_request : ℕ → Str → Str → Message
reserve_request vehicle_type uri urn = calculate_checksum (
    add_nonempty (str "urn") urn (add_string (str "uri") uri (create_reserve_seat vehicle_type [])))

unfoldable pub purchase_request : ℕ → ℕ → Str → ℤ → Str → Message
purchase_request ticket_type vehicle_type uri passengers token = calculate_checksum (
    add_nonempty (str "session_id") token
      (add_string (str "uri") uri (create_purchase_ticket ticket_type vehicle_type [] passengers)))

-- The request of `add_member` and `rm_member`.
unfoldable pub member_request : ℕ → Str → Str → Str → Message
member_request kind token group urn = calculate_checksum (
    add_string (str "urn") urn
      (add_string (str "group_name") group (add_string (str "session_id") token (new kind))))

-- The fifth word of `purchase`, if there is one; `none` is an exception of std::stoi.
unfoldable pub parse_passengers : List Str → Option ℤ
parse_passengers [] = some (pos 1)
parse_passengers (s ∷ rest) = elim (stoi s) [
  | done n ↦ some (if ltb_ℤ n (pos 1) then pos 1 else n)
  | threw e ↦ none
  | blocked ↦ none
]

-- `if (!authenticated_) { std::cout << ...; return; }`.
unfoldable pub guarded : Step (Unit {0}) → Step (Unit {0})
unfolding print
guarded command ui =
    if ui.authenticated then command ui else print (str "Please authenticate first") ui

module _ (net : Network) where
  unfoldable pub register_words : List Str → Step (Unit {0})
  register_words (command ∷ urn ∷ []) =
      if not (length urn == 13 && all_digits urn)
      then print (str "Error: URN must be exactly 13 digits")
      else submit net (create_register_user urn) (str "User registered successfully!")
          (str "Registration failed: ") (str "Failed to send registration request")
  register_words _ = print (str "Usage: register <URN>")

  -- UserInterface::handleRegister.
  unfoldable pub handle_register : Str → Step (Unit {0})
  unfolding register_words
  handle_register input = register_words (words input)

  unfoldable pub register_device_as : Str → Option ℕ → Step (Unit {0})
  register_device_as uri none = print (str "Invalid vehicle type. Use: bus, tram, or trolleybus")
  register_device_as uri (some vehicle_type) =
      submit net (create_register_device uri vehicle_type) (str "Device registered successfully!")
        (str "Device registration failed: ") (str "Failed to send device registration request")

  unfoldable pub register_device_words : List Str → Step (Unit {0})
  unfolding register_device_as
  register_device_words (command ∷ uri ∷ vehicle ∷ []) =
      register_device_as uri (parse_vehicle vehicle)
  register_device_words _ = print (str "Usage: register_device <URI> <vehicle>")

  -- UserInterface::handleRegisterDevice.
  unfoldable pub handle_register_device : Str → Step (Unit {0})
  unfolding register_device_words
  handle_register_device input = guarded (register_device_words (words input))

  unfoldable pub authenticate_words : List Str → Step (Unit {0})
  authenticate_words (command ∷ urn ∷ []) = do
    good ← authenticate net urn
    if good then print (str "Authentication successful!") else print (str "Authentication failed!")
  authenticate_words _ = print (str "Usage: authenticate <URN>")

  -- UserInterface::handleAuthenticate.
  unfoldable pub handle_authenticate : Str → Step (Unit {0})
  unfolding authenticate_words
  handle_authenticate input = authenticate_words (words input)

  unfoldable pub reserve_as : Str → Option ℕ → Step (Unit {0})
  reserve_as uri none = print (str "Invalid vehicle type. Use: bus, tram, or trolleybus")
  reserve_as uri (some vehicle_type) = do
    urn ← current_urn
    submit net (reserve_request vehicle_type (normalize_uri_arg uri) urn)
        (str "Seat reserved successfully!") (str "Reservation failed: ")
        (str "Failed to send reservation request")

  unfoldable pub reserve_words : List Str → Step (Unit {0})
  unfolding reserve_as
  reserve_words (command ∷ vehicle ∷ uri ∷ []) = reserve_as uri (parse_vehicle vehicle)
  reserve_words _ = print (str "Usage: reserve <vehicle> <URI>")

  -- UserInterface::handleReserve.
  unfoldable pub handle_reserve : Str → Step (Unit {0})
  unfolding reserve_words
  handle_reserve input = guarded (reserve_words (words input))

  unfoldable pub purchase_as : Str → Option ℕ → Option ℕ → Option ℤ → Step (Unit {0})
  purchase_as uri none vehicle count =
      print (str "Invalid ticket type. Use: individual, family, business, or tourist")
  purchase_as uri (some ticket) none count =
      print (str "Invalid vehicle type. Use: bus, tram, or trolleybus")
  purchase_as uri (some ticket) (some vehicle) none = print (str "Invalid passengers number")
  purchase_as uri (some ticket) (some vehicle) (some passengers) = do
    token ← session_token
    submit net (purchase_request ticket vehicle (normalize_uri_arg uri) passengers token)
        (str "Ticket purchased successfully!") (str "Purchase failed: ")
        (str "Failed to send purchase request")

  unfoldable pub purchase_words : List Str → Step (Unit {0})
  unfolding purchase_as
  purchase_words (command ∷ ticket ∷ vehicle ∷ uri ∷ rest) =
      purchase_as uri (parse_ticket ticket) (parse_vehicle vehicle) (parse_passengers rest)
  purchase_words _ = print (str "Usage: purchase <type> <vehicle> <URI> [passengers]")

  -- UserInterface::handlePurchase.
  unfoldable pub handle_purchase : Str → Step (Unit {0})
  unfolding purchase_words
  handle_purchase input = guarded (purchase_words (words input))

  unfoldable pub create_group_words : List Str → Step (Unit {0})
  create_group_words (command ∷ name ∷ leader ∷ []) =
      submit net (create_group_create name leader) (str "Group created successfully!")
        (str "Group creation failed: ") (str "Failed to send create_group request")
  create_group_words _ = print (str "Usage: create_group <name> <leader_urn>")

  -- UserInterface::handleCreateGroup.
  unfoldable pub handle_create_group : Str → Step (Unit {0})
  unfolding create_group_words
  handle_create_group input = guarded (create_group_words (words input))

  unfoldable pub add_member_words : List Str → Step (Unit {0})
  add_member_words (command ∷ group ∷ urn ∷ []) = do
    token ← session_token
    submit net (member_request Kind.add_member_to_group token group urn) (str "User added to group")
        (str "Failed to add member: ") (str "Failed to send add_member request")
  add_member_words _ = print (str "Usage: add_member <group_name> <member_urn>")

  -- UserInterface::handleAddMember.
  unfoldable pub handle_add_member : Str → Step (Unit {0})
  unfolding add_member_words
  handle_add_member input = guarded (add_member_words (words input))

  unfoldable pub remove_member_words : List Str → Step (Unit {0})
  remove_member_words (command ∷ group ∷ urn ∷ []) = do
    print (str "(Note: only group leader can successfully remove members)")
    token ← session_token
    submit net (member_request Kind.delete_group_member token group urn)
        (str "User removed from group") (str "Failed to remove member: ")
        (str "Failed to send rm_member request")
  remove_member_words _ = print (str "Usage: rm_member <group_name> <member_urn>")

  -- UserInterface::handleRemoveMember.
  unfoldable pub handle_remove_member : Str → Step (Unit {0})
  unfolding remove_member_words
  handle_remove_member input = guarded (remove_member_words (words input))

-- One line for a message that came by itself.
unfoldable pub async_line : Message → Str
async_line m =
    if m.header.type == Kind.multicast_update
    then str "[Update] " ++ get_string m (str "update_type")
    else str "[Async] type=" ++ nat_to_string m.header.type

-- The loop of handleListen; every message takes bytes off the stream.
unfoldable pub listen_loop : ℕ → Socket → Step (Unit {0})
listen_loop zero s ui = (tt, record ui { socket = some s })
listen_loop (suc f) s ui =
    let (got, s') = receive_message s in
    elim got [
      | none ↦ print (str "Listener stopped or connection closed") (record ui { socket = some s' })
      | some m ↦ listen_loop f s' (print (async_line m) ui).1
    ]

-- UserInterface::handleListen; `none` stands for the null pointer that it goes through when there
-- is no socket.
unfoldable pub handle_listen : UserInterface → Option UserInterface
handle_listen ui =
    let ui' = (print (str "Listening for async updates... (Ctrl+C to stop)") ui).1 in
    elim ui.socket [ none ↦ none | some s ↦ some (listen_loop (suc (length s.inbox)) s ui').1 ]
