-- ===== src/Client.antt =====
-- client/UserInterface.h and client/UserInterface.cpp: the state of the console client, and the
-- steps that its commands are made of. What is printed is a list of lines; log lines are left out.
pub mod Says
pub mod Frames
pub mod Reserve
pub mod Guest
pub mod Authentication
pub mod EndOfInput
pub mod Discovery
pub mod Commands
pub mod Session
use protokol_javni_prevoz.Prelude.{
  ℕ, ◌+◌, ◌≡◌, Bool, true, false, not, Option, none, some, List, [], ◌∷◌, ◌++◌, ◌==◌, if◌then◌else◌,
}
use protokol_javni_prevoz.Text.{Str, str, eq_str}
use protokol_javni_prevoz.Message.{Message, get_string, get_bool}
use protokol_javni_prevoz.Message.Kind
use protokol_javni_prevoz.Message.Factory.{create_auth_request}
use protokol_javni_prevoz.Wire.{Socket, send_message, receive_message}

-- What the client takes from the network: the answer to the multicast request, the socket that
-- TLSSocket::connect leaves for a host, a port and a CA file with its result, and whether the n-th
-- write succeeds.
pub record Network : Type 0 where
  pub discovered : Option (Str × ℕ)
  pub opened : Str → ℕ → Str → Bool × Socket
  pub goes : ℕ → Bool

-- The members of UserInterface, what stands on the console, and the number of writes so far.
pub record UserInterface : Type 0 where
  pub socket : Option Socket
  pub session_token : Str
  pub current_urn : Str
  pub authenticated : Bool
  pub output : List Str
  pub writes : ℕ

abbrev pub Step : Type 0 → Type 0
Step A = UserInterface → A × UserInterface

infixl 5 ◌>>=◌ ◌>>◌
abbrev pub ◌>>=◌ : {A B : Type 0} → Step A → (A → Step B) → Step B
◌>>=◌ m f ui = let (a, ui') = m ui in f a ui'

abbrev pub ◌>>◌ : {B : Type 0} → Step (Unit {0}) → Step B → Step B
m >> k = m >>= λ _. k

abbrev pub pure : {A : Type 0} → A → Step A
pure a ui = (a, ui)

-- std::cout << text << "\n".
unfoldable pub print : Str → Step (Unit {0})
print line ui = (tt, record ui { output = ui.output ++ line ∷ [] })

-- The members current_urn_ and session_token_.
abbrev pub current_urn : Step Str
current_urn ui = (ui.current_urn, ui)

abbrev pub session_token : Step Str
session_token ui = (ui.session_token, ui)

-- `response ? response->getString("error") : "No response"`.
unfoldable pub reason : Option Message → Str
reason none = str "No response"
reason (some m) = get_string m (str "error")

-- `response && response->getType() == MessageType::RESPONSE_SUCCESS`.
unfoldable pub succeeded : Option Message → Bool
succeeded none = false
succeeded (some m) = m.header.type == Kind.response_success

-- UserInterface::connect chooses whom to connect to.
unfoldable pub target : Option (Str × ℕ) → Str → ℕ → Str × ℕ
target discovered server port =
    if eq_str server (str "auto")
    then elim discovered [ some found ↦ found | none ↦ (str "127.0.0.1", port) ]
    else (server, port)

unfoldable pub receive_on : Option Socket → Step (Option Message)
receive_on none ui = (none, ui)
receive_on (some s) ui = let (m, s') = receive_message s in (m, record ui { socket = some s' })

-- socket_->receiveMessage().
unfoldable pub receive_response : Step (Option Message)
unfolding receive_on
receive_response ui = receive_on ui.socket ui

-- What authenticate makes of the answer.
unfoldable pub store_session : Str → Message → Step Bool
store_session urn response ui =
    if get_bool response (str "success")
    then (
      true,
      record ui {
        session_token = get_string response (str "token");
        current_urn = urn;
        authenticated = true;
      },
    )
    else (false, ui)

unfoldable pub read_answer : Str → Option Message → Step Bool
read_answer urn none = pure false
read_answer urn (some response) = store_session urn response

module _ (net : Network) where
  -- UserInterface::connect.
  unfoldable pub connect : Str → ℕ → Str → Step Bool
  connect server port ca_file ui =
      let (host, target_port) = target net.discovered server port in
      let (connected, s) = net.opened host target_port ca_file in
      (connected, record ui { socket = some s })

  unfoldable pub send_on : Option Socket → Message → Step Bool
  send_on none m ui = (false, ui)
  send_on (some s) m ui =
      let (sent, s') = send_message (net.goes ui.writes) m s in
      (sent, record ui { socket = some s'; writes = ui.writes + 1 })

  -- `socket_ && socket_->sendMessage(message)`.
  unfoldable pub send_request : Message → Step Bool
  unfolding send_on
  send_request m ui = send_on ui.socket m ui

  -- The end of a command: the request goes out, and its answer or its failure is printed.
  unfoldable pub submit : Message → Str → Str → Str → Step (Unit {0})
  unfolding send_request receive_response
  submit m success failure unsent = do
    sent ← send_request m
    if not sent then print unsent else do
      response ← receive_response
      if succeeded response then print success else print (failure ++ reason response)

  -- UserInterface::authenticate.
  unfoldable pub authenticate : Str → Step Bool
  unfolding send_request receive_response
  authenticate urn = do
    sent ← send_request (create_auth_request urn [])
    if not sent then pure false else do response ← receive_response; read_answer urn response
