-- ===== src/Client/Session.antt =====
-- startInteractiveSession and showHelp of client/UserInterface.cpp.
use protokol_javni_prevoz.Prelude.{
  ℕ, zero, suc, ◌||◌, Option, none, some, List, [], ◌∷◌, ◌++◌, if◌then◌else◌,
}
use protokol_javni_prevoz.Text.{Str, str, eq_str, is_empty, has_prefix}
use protokol_javni_prevoz.Client.{Network, UserInterface, Step, print}
use protokol_javni_prevoz.Client.Commands.{
  handle_register, handle_register_device, handle_authenticate, handle_reserve, handle_purchase,
  handle_create_group, handle_add_member, handle_remove_member, handle_listen,
}

abbrev help : List Str
help =
    []
    ∷ str "Available commands:"
    ∷ str "  register <URN>                        - Register user with 13-digit URN"
    ∷ str "  authenticate <URN>                    - Authenticate with URN"
    ∷ str
        "  register_device <URI> <vehicle>       - Register a vehicle device (bus/tram/trolleybus)"
    ∷ str "  reserve <vehicle> <URI>               - Reserve seat by URI (bus/tram/trolleybus)"
    ∷ str "  purchase <type> <vehicle> <URI> [n]   - Purchase ticket(s) by URI"
    ∷ str "    - type: individual/family/business/tourist"
    ∷ str "    - vehicle: bus/tram/trolleybus"
    ∷ str "    - URI: either 'uri=bus125' or just 'bus125'"
    ∷ str "    - n: number of seats (default 1)"
    ∷ str "  listen                                - Listen for async multicast updates"
    ∷ str "  create_group <name> <leader_urn>      - Create user group"
    ∷ str "  add_member <name> <member_urn>        - Add member to group"
    ∷ str "  rm_member <name> <member_urn>         - Remove member from group (leader only)"
    ∷ str "  help                                  - Show this help"
    ∷ str "  quit                                  - Exit the client"
    ∷ []
    ∷ []

-- UserInterface::showHelp.
unfoldable pub show_help : Step (Unit {0})
show_help ui = (tt, record ui { output = ui.output ++ help })

-- After a line: the next one, the end, or a null pointer.
pub data Turn : Type 0 where
  next : UserInterface → Turn
  ended : UserInterface → Turn
  crashed : Turn

abbrev pub went : Unit {0} × UserInterface → Turn
went (u, ui) = next ui

abbrev pub listened : Option UserInterface → Turn
listened none = crashed
listened (some ui) = next ui

-- One round of the loop, with the line that std::getline read.
unfoldable pub interpret : Network → Str → UserInterface → Turn
interpret net input ui =
    if eq_str input (str "quit") || eq_str input (str "exit")
    then ended ui
    else if eq_str input (str "help")
    then went (show_help ui)
    else if has_prefix (str "register_device") input
    then went (handle_register_device net input ui)
    else if has_prefix (str "register") input
    then went (handle_register net input ui)
    else if has_prefix (str "authenticate") input
    then went (handle_authenticate net input ui)
    else if eq_str input (str "listen")
    then listened (handle_listen ui)
    else if has_prefix (str "reserve") input
    then went (handle_reserve net input ui)
    else if has_prefix (str "purchase") input
    then went (handle_purchase net input ui)
    else if has_prefix (str "create_group") input
    then went (handle_create_group net input ui)
    else if has_prefix (str "add_member") input
    then went (handle_add_member net input ui)
    else if has_prefix (str "rm_member") input
    then went (handle_remove_member net input ui)
    else if is_empty input
    then next ui
    else went
        (print (str "Unknown command: " ++ input ++ str ". Type 'help' for available commands.") ui)

abbrev prompt : UserInterface → UserInterface
prompt ui = (print (str "transport> ") ui).1

-- std::getline: behind the last line it leaves the text empty, and does not stop the loop.
unfoldable pub read_line : List Str → Str × List Str
read_line [] = ([], [])
read_line (line ∷ lines) = (line, lines)

-- The loop, for a number of rounds and the lines of the standard input, each with its newline.
unfoldable pub session_loop : Network → ℕ → List Str → UserInterface → Turn
session_loop net zero lines ui = next ui
session_loop net (suc rounds) lines ui =
    let (input, rest) = read_line lines in
    elim (interpret net input (prompt ui)) [
      | next ui' ↦ session_loop net rounds rest ui'
      | ended ui' ↦ ended (print (str "Goodbye!") ui').1
      | crashed ↦ crashed
    ]

-- UserInterface::startInteractiveSession.
unfoldable pub start_interactive_session : Network → ℕ → List Str → UserInterface → Turn
start_interactive_session net rounds lines ui = session_loop net rounds lines (record ui {
  output =
      ui.output
      ++ []
        ∷ str "Transport Protocol Client - Interactive Session"
        ∷ str "Type 'help' for available commands"
        ∷ []
        ∷ [];
})
