-- ===== src/Client/Reserve.antt =====
-- The command `reserve` of client/UserInterface.cpp, over the wire and through handleSeatReservation
-- of server/CentralServer.cpp.
pub mod Request
use protokol_javni_prevoz.Prelude.{
  ℕ, ◌<◌, ◌≤◌, ◌+◌, ◌^◌, ◌≡◌, refl, sym, ◌∙◌, ap, Bool, true, false, Option, none, some, List, [],
  ◌∷◌, ◌++◌, arith, if◌then◌else◌, length, subst, ◌==◌, Bool-cases, inl, inr,
}
use mathlib.Core.List.{append_assoc, append-nil}
use protokol_javni_prevoz.Prelude.Int.{ℤ, pos}
use protokol_javni_prevoz.Text.{Str, str, is_empty, eq_str, compare_str, has_prefix}
use protokol_javni_prevoz.Text.Split.{IsWord, join, split_string-join, Lacks}
use protokol_javni_prevoz.Codec.{Bytes}
use protokol_javni_prevoz.Message.{Message, serialize, get_string}
use protokol_javni_prevoz.Message.Kind
use protokol_javni_prevoz.Message.WellFormed.{IsWellFormed}
use protokol_javni_prevoz.Wire.{Socket, send, send_message, receive_message}
use protokol_javni_prevoz.Wire.Framing.{receive_message-serialize}
use protokol_javni_prevoz.Client.{
  Network, UserInterface, print, submit, send_request, send_on, receive_response, receive_on,
  succeeded, reason, Step,
}
use protokol_javni_prevoz.Client.Commands.{
  space, words, parse_vehicle, normalize_uri_arg, reserve_request, guarded, reserve_as,
  reserve_words, handle_reserve,
}
use protokol_javni_prevoz.Client.Session.{Turn, next, interpret, went}
use protokol_javni_prevoz.Platform.{Platform}
use protokol_javni_prevoz.Result.{Result}
use protokol_javni_prevoz.Database.Pool.Lending.{count_free}
use protokol_javni_prevoz.Central.{Server, to_byte, get_string_or}
use protokol_javni_prevoz.Central.Triple.{Ends, NeverThrows}
use protokol_javni_prevoz.Central.World.{World, Reliable}
use protokol_javni_prevoz.Central.Dispatch.{process_message}
use protokol_javni_prevoz.Central.Reservation.{handle_seat_reservation}
use protokol_javni_prevoz.Central.Reservation.Meaning.{meant, reserved_tables, reserved_messages}
use protokol_javni_prevoz.Central.Reservation.Outcome.{sought, handle_seat_reservation_lem}
use Request.{
  reserve_request-type, type_read, urn_read, uri_read, route_read, reserve_request-IsWellFormed,
  parse_vehicle_range,
}

-- A user who is signed in, on an established connection that takes the next write.
pub record Ready (net : Network) (ui : UserInterface) (s : Socket) : Type 0 where
  pub connected : ui.socket ≡ some s
  pub established : s.tls_established ≡ true
  pub goes : net.goes ui.writes ≡ true

-- What is shown for an answer.
abbrev pub shown_for : Str → Str → Message → Str
shown_for success failure r =
    if r.header.type == Kind.response_success
    then success
    else failure ++ get_string r (str "error")

-- The client behind a request that was answered.
abbrev pub answered : UserInterface → Socket → Message → Bytes → Str → UserInterface
answered ui s m rest line = record ui {
  socket = some (record s { outbox = s.outbox ++ serialize m; inbox = rest });
  output = ui.output ++ line ∷ [];
  writes = ui.writes + 1;
}

abbrev pub posted : Socket → Message → Socket
posted s m = record s { outbox = s.outbox ++ serialize m }

abbrev pub went_out : UserInterface → Socket → Message → UserInterface
went_out ui s m = record ui { socket = some (posted s m); writes = ui.writes + 1 }

pub sent :
    (net : Network) (ui : UserInterface) (s : Socket) (m : Message)
    → Ready net ui s
    → send_request net m ui ≡ (true, went_out ui s m)
unfolding send_request send_on send_message send
sent net ui s m h = rw (h.connected, send_on, send_message, h.established, h.goes, send) refl

pub received :
    (ui : UserInterface) (s : Socket) (r : Message) (rest : Bytes)
    → ui.socket ≡ some s
    → s.tls_established ≡ true
    → s.inbox ≡ serialize r ++ rest
    → IsWellFormed r
    → receive_response ui ≡ (some r, record ui { socket = some (record s { inbox = rest }) })
unfolding receive_response receive_on
received ui s r rest c t e w = rw (c, receive_on, receive_message-serialize r rest s w t e) refl

guarded_in :
    (command : Step (Unit {0})) (ui : UserInterface)
    → ui.authenticated ≡ true
    → guarded command ui ≡ command ui
unfolding guarded
guarded_in command ui a =
    ap (λ b. (if b then command ui else print (str "Please authenticate first") ui)) a

command-Lacks : Lacks space (str "reserve")
unfolding str
command-Lacks = (refl, (refl, (refl, (refl, (refl, (refl, (refl, tt)))))))

module _ (net : Network) where
  submit_lem :
      (ui : UserInterface) (s : Socket) (m r : Message) (rest : Bytes)
      (success failure unsent : Str)
      → Ready net ui s
      → s.inbox ≡ serialize r ++ rest
      → IsWellFormed r
      → submit net m success failure unsent ui
        ≡ (tt, answered ui s m rest (shown_for success failure r))
  unfolding submit succeeded reason print
  submit_lem ui s m r rest success failure unsent h e w = rw (sent net ui s m h) (
      ap told (received (went_out ui s m) (posted s m) r rest refl h.established e w)
      ∙ elim (Bool-cases (r.header.type == Kind.response_success)) [
        | inl t ↦ rw (t, print) refl
        | inr t ↦ rw (t, print) refl
      ])
    where
      told : Option Message × UserInterface → Unit {0} × UserInterface
      told q = (if succeeded q.0 then print success else print (failure ++ reason q.0)) q.1

  reserve_lem :
      (vehicle uri : Str) (type : ℕ) (ui : UserInterface) (s : Socket) (r : Message) (rest : Bytes)
      → IsWord space vehicle
      → IsWord space uri
      → parse_vehicle vehicle ≡ some type
      → Ready net ui s
      → ui.authenticated ≡ true
      → s.inbox ≡ serialize r ++ rest
      → IsWellFormed r
      → interpret net (join space (str "reserve" ∷ vehicle ∷ uri ∷ [])) ui
        ≡ next (
            answered ui s
              (reserve_request type (normalize_uri_arg uri) ui.current_urn)
              rest
              (shown_for (str "Seat reserved successfully!") (str "Reservation failed: ") r))
  unfolding interpret has_prefix eq_str compare_str str handle_reserve reserve_words reserve_as
  reserve_lem vehicle uri type ui s r rest v u t h a e w =
      let ws : List Str = str "reserve" ∷ vehicle ∷ uri ∷ [] in
      let split : words (join space ws) ≡ ws =
        split_string-join space ws ((refl, command-Lacks), (v, (u, tt))) in
      ap went (
        guarded_in _ ui a
        ∙ ap (λ l. reserve_words net l ui) split
        ∙ ap (λ o. reserve_as net uri o ui) t
        ∙ submit_lem ui s _ r rest _ _ _ h e w)

to_byte_small : (type : ℕ) → type ≤ 3 → to_byte (pos type) ≡ type
unfolding to_byte
to_byte_small type h = omega arith

processed :
    (env : Platform) (m : Message) (client : ℕ)
    → m.header.type ≡ Kind.reserve_seat
    → process_message env m client ≡ handle_seat_reservation env m client
unfolding process_message
processed env m client h = rw h refl

-- What the description of a reservation says of a server, for a vehicle type, a uri and no route.
abbrev pub Served :
    (env : Platform) → ℕ → Str → ℕ → Server env.Real → Result (Unit {0}) × Server env.Real → Type 0
Served env client uri type srv =
    let t = srv.pool.file.tables in
    let v = meant uri [] type t.vehicles in
    Ends NeverThrows (λ _.
      World (reserved_tables v t) srv.subscribers
        (srv.sent ++ reserved_messages client srv.subscribers v))

served_lem :
    (env : Platform) (client type : ℕ) (uri urn : Str) (srv : Server env.Real)
    → type ≤ 3
    → is_empty urn ≡ false
    → Reliable env
    → 0 < count_free srv.pool.available
    → Served env client uri type srv (process_message env (reserve_request type uri urn) client srv)
served_lem env client type uri urn srv range named reliable free =
    let m = reserve_request type uri urn in
    let found : sought m (pos type) srv.pool.file.tables
        ≡ meant uri [] type srv.pool.file.tables.vehicles =
      rw (uri_read type uri urn named, route_read type uri urn named, to_byte_small type range)
        refl in
    rw (processed env m client (reserve_request-type type uri urn), ← found)
      (handle_seat_reservation_lem env m client (pos type) srv reliable free
        (type_read type uri urn named (omega arith)) (rw (urn_read type uri urn named) named))

-- When a user who is signed in types `reserve`, a vehicle and a uri, over an established
-- connection on which a well-formed answer comes, then exactly the frame of the request goes out
-- and the line for the answer is shown; the other side of an established connection reads that
-- frame as the request and takes nothing behind it; and a server that can reach everybody, whose
-- SQLite does not fail and that has a free connection, takes a seat of the vehicle of that uri, as
-- the description of a reservation says.
pub reserve_round_trip :
    (net : Network) (env : Platform) (vehicle uri : Str) (type client : ℕ) (ui : UserInterface)
    (s theirs : Socket) (answer : Message) (rest more : Bytes) (srv : Server env.Real)
    → IsWord space vehicle
    → IsWord space uri
    → parse_vehicle vehicle ≡ some type
    → ui.authenticated ≡ true
    → is_empty ui.current_urn ≡ false
    → length (normalize_uri_arg uri) + length ui.current_urn < 2 ^ 31
    → Ready net ui s
    → IsWellFormed answer
    → s.inbox ≡ serialize answer ++ rest
    → theirs.tls_established ≡ true
    → theirs.inbox ≡ serialize (reserve_request type (normalize_uri_arg uri) ui.current_urn) ++ more
    → Reliable env
    → 0 < count_free srv.pool.available
    → let request = reserve_request type (normalize_uri_arg uri) ui.current_urn in
      (interpret net (join space (str "reserve" ∷ vehicle ∷ uri ∷ [])) ui
        ≡ next (
            answered ui s request rest
              (shown_for (str "Seat reserved successfully!") (str "Reservation failed: ") answer)))
      × (receive_message theirs ≡ (some request, record theirs { inbox = more }))
      × Served env client (normalize_uri_arg uri) type srv (process_message env request client srv)
reserve_round_trip net env vehicle uri type client ui s theirs answer rest more srv v u t signed
      named short h w e established i reliable free =
    let range = parse_vehicle_range vehicle type t in
    (
      reserve_lem net vehicle uri type ui s answer rest v u t h signed e w,
      receive_message-serialize _ more theirs
          (reserve_request-IsWellFormed type _ ui.current_urn range short) established i,
      served_lem env client type (normalize_uri_arg uri) ui.current_urn srv range named reliable
          free,
    )
