-- ===== src/Client/Frames.antt =====
-- What each command of client/UserInterface.cpp writes to the server.
use protokol_javni_prevoz.Prelude.{
  ℕ, zero, suc, ◌≡◌, refl, sym, ◌∙◌, Bool, true, ◌&&◌, Option, none, some, ◌⊎◌, List, [], ◌∷◌, ◌==◌,
  if◌then◌else◌, subst, Bool-cases, Option-cases, inl, inr, length, arith,
}
use protokol_javni_prevoz.Prelude.Int.{ℤ}
use protokol_javni_prevoz.Text.{Str, str}
use protokol_javni_prevoz.Message.{
  Message, get_bool, add_string, new, calculate_checksum, with_checksum,
}
use protokol_javni_prevoz.Message.Kind
use protokol_javni_prevoz.Message.Factory.{add_nonempty, create_auth_request, create_register_user}
use protokol_javni_prevoz.Wire.{Socket, receive_message}
use protokol_javni_prevoz.Central.Validation.{all_digits}
use protokol_javni_prevoz.Client.{
  Network, UserInterface, Step, print, send_request, store_session, read_answer, authenticate,
}
use protokol_javni_prevoz.Client.Commands.{
  guarded, register_words, authenticate_words, listen_loop, handle_listen, async_line,
  register_device_words, register_device_as, reserve_words, reserve_as, purchase_words, purchase_as,
  create_group_words, add_member_words, remove_member_words, parse_vehicle, parse_ticket,
  parse_passengers,
}
use protokol_javni_prevoz.Client.Session.{listened, Turn, next, ended, crashed}
use protokol_javni_prevoz.Client.Says.{
  Says, wire, silent, then_says, print-Says, submit-Says, send_request-Says, receive_response-Says,
  receive_message-outbox,
}

-- The requests for which one need not have signed in.
abbrev pub IsOpening : Message → Type 0
IsOpening m = (m.header.type ≡ Kind.register_user) ⊎ (m.header.type ≡ Kind.auth_request)

-- What may be sent in a state.
abbrev pub May : UserInterface → Message → Type 0
May ui m = (ui.authenticated ≡ true) ⊎ IsOpening m

auth-IsOpening : (urn : Str) → IsOpening (create_auth_request urn [])
unfolding create_auth_request add_nonempty add_string new calculate_checksum with_checksum
auth-IsOpening urn = inr refl

register-IsOpening : (urn : Str) → IsOpening (create_register_user urn)
unfolding create_register_user add_string new calculate_checksum with_checksum
register-IsOpening urn = inl refl

-- The state after a round, if there is one.
abbrev pub Leads : (UserInterface → Type 0) → Turn → Type 0
Leads P (next ui) = P ui
Leads P (ended ui) = P ui
Leads P crashed = Unit {0}

module _ {K : Message → Type 0} where
  store_session-Says :
      (urn : Str) (response : Message) (ui : UserInterface)
      → Says K ui (store_session urn response ui).1
  unfolding store_session
  store_session-Says urn response ui = elim (Bool-cases (get_bool response (str "success"))) [
    | inl e ↦ rw e (silent ui _ refl (λ a. absurd (ground arith)))
    | inr e ↦ rw e (silent ui ui refl (λ a. a))
  ]

  read_answer-Says :
      (urn : Str) (response : Option Message) (ui : UserInterface)
      → Says K ui (read_answer urn response ui).1
  unfolding read_answer
  read_answer-Says urn none ui = silent ui ui refl (λ a. a)
  read_answer-Says urn (some response) ui = store_session-Says urn response ui

  listen_loop-Says :
      (rounds : ℕ) (s : Socket) (ui : UserInterface)
      → s.outbox ≡ wire ui
      → Says K ui (listen_loop rounds s ui).1
  unfolding listen_loop
  listen_loop-Says zero s ui e = silent ui _ e (λ a. a)
  listen_loop-Says (suc rounds) s ui e =
      let same = receive_message-outbox s ∙ e in
      let got : UserInterface = record ui { socket = some (receive_message s).1 } in
      elim (Option-cases (receive_message s).0) [
        | inl n ↦ rw (n, listen_loop) (then_says (silent ui got same (λ a. a)) (print-Says _ got))
        | inr (m, n) ↦
            rw (n, listen_loop)
              (then_says (print-Says (async_line m) ui)
                (listen_loop-Says rounds _ _ (same ∙ unfold print in refl)))
      ]

pub handle_listen-Says :
    (K : Message → Type 0) (ui : UserInterface) → Leads (Says K ui) (listened (handle_listen ui))
unfolding handle_listen print
handle_listen-Says K ui = on ui.socket
  where
    on :
        (o : Option Socket)
        → Leads
            (Says K (record ui { socket = o }))
            (listened (handle_listen (record ui { socket = o })))
    on none = tt
    on (some s) = then_says (print-Says _ _) (listen_loop-Says _ s _ refl)

pub guarded-Says :
    (command : Step (Unit {0})) (ui : UserInterface)
    → (ui.authenticated ≡ true → Says (May ui) ui (command ui).1)
    → Says (May ui) ui (guarded command ui).1
unfolding guarded
guarded-Says command ui h = elim (Bool-cases ui.authenticated) [
  | inl e ↦ subst (branch ui) (sym e) (h e)
  | inr e ↦ subst (branch ui) (sym e) (print-Says _ ui)
]
  where
    branch : UserInterface → Bool → Type 0
    branch ui b =
        Says (May ui) ui ((if b then command ui else print (str "Please authenticate first") ui)).1

module _ (net : Network) where
  authenticate-Says :
      (urn : Str) (ui : UserInterface) → Says (May ui) ui (authenticate net urn ui).1
  unfolding authenticate
  authenticate-Says urn ui =
      let request = create_auth_request urn [] in
      let first = send_request-Says net request ui (inr (auth-IsOpening urn)) in
      elim (Bool-cases (send_request net request ui).0) [
        | inr e ↦ rw e first
        | inl e ↦
            rw e (then_says first (then_says (receive_response-Says _) (read_answer-Says urn _ _)))
      ]

  pub authenticate_words-Says :
      (ws : List Str) (ui : UserInterface) → Says (May ui) ui (authenticate_words net ws ui).1
  unfolding authenticate_words
  authenticate_words-Says (command ∷ urn ∷ []) ui =
      let first = authenticate-Says urn ui in
      elim (Bool-cases (authenticate net urn ui).0) [
        | inl e ↦ rw e (then_says first (print-Says _ _))
        | inr e ↦ rw e (then_says first (print-Says _ _))
      ]
  authenticate_words-Says [] ui = print-Says _ ui
  authenticate_words-Says (command ∷ []) ui = print-Says _ ui
  authenticate_words-Says (command ∷ urn ∷ more ∷ ws) ui = print-Says _ ui

  pub register_words-Says :
      (ws : List Str) (ui : UserInterface) → Says (May ui) ui (register_words net ws ui).1
  unfolding register_words
  register_words-Says (command ∷ urn ∷ []) ui =
      elim (Bool-cases (length urn == 13 && all_digits urn)) [
        | inl e ↦ rw e (submit-Says net _ _ _ _ ui (inr (register-IsOpening urn)))
        | inr e ↦ rw e (print-Says _ ui)
      ]
  register_words-Says [] ui = print-Says _ ui
  register_words-Says (command ∷ []) ui = print-Says _ ui
  register_words-Says (command ∷ urn ∷ more ∷ ws) ui = print-Says _ ui

  -- What the commands behind the guard do, where every request may be sent.
  module _ {K : Message → Type 0} (every : (m : Message) → K m) where
    pub register_device_words-Says :
        (ws : List Str) (ui : UserInterface) → Says K ui (register_device_words net ws ui).1
    unfolding register_device_words
    register_device_words-Says (command ∷ uri ∷ vehicle ∷ []) ui = device (parse_vehicle vehicle)
      where
        device : (v : Option ℕ) → Says K ui (register_device_as net uri v ui).1
        device none = print-Says _ ui
        device (some v) = submit-Says net _ _ _ _ ui (every _)
    register_device_words-Says [] ui = print-Says _ ui
    register_device_words-Says (a ∷ []) ui = print-Says _ ui
    register_device_words-Says (a ∷ b ∷ []) ui = print-Says _ ui
    register_device_words-Says (a ∷ b ∷ c ∷ d ∷ ws) ui = print-Says _ ui

    pub reserve_words-Says :
        (ws : List Str) (ui : UserInterface) → Says K ui (reserve_words net ws ui).1
    unfolding reserve_words
    reserve_words-Says (command ∷ vehicle ∷ uri ∷ []) ui = reserve (parse_vehicle vehicle)
      where
        reserve : (v : Option ℕ) → Says K ui (reserve_as net uri v ui).1
        reserve none = print-Says _ ui
        reserve (some v) = submit-Says net _ _ _ _ ui (every _)
    reserve_words-Says [] ui = print-Says _ ui
    reserve_words-Says (a ∷ []) ui = print-Says _ ui
    reserve_words-Says (a ∷ b ∷ []) ui = print-Says _ ui
    reserve_words-Says (a ∷ b ∷ c ∷ d ∷ ws) ui = print-Says _ ui

    pub purchase_words-Says :
        (ws : List Str) (ui : UserInterface) → Says K ui (purchase_words net ws ui).1
    unfolding purchase_words
    purchase_words-Says (command ∷ ticket ∷ vehicle ∷ uri ∷ rest) ui =
        purchase (parse_ticket ticket) (parse_vehicle vehicle) (parse_passengers rest)
      where
        purchase : (t v : Option ℕ) (n : Option ℤ) → Says K ui (purchase_as net uri t v n ui).1
        purchase none v n = print-Says _ ui
        purchase (some t) none n = print-Says _ ui
        purchase (some t) (some v) none = print-Says _ ui
        purchase (some t) (some v) (some n) = submit-Says net _ _ _ _ ui (every _)
    purchase_words-Says [] ui = print-Says _ ui
    purchase_words-Says (a ∷ []) ui = print-Says _ ui
    purchase_words-Says (a ∷ b ∷ []) ui = print-Says _ ui
    purchase_words-Says (a ∷ b ∷ c ∷ []) ui = print-Says _ ui

    pub create_group_words-Says :
        (ws : List Str) (ui : UserInterface) → Says K ui (create_group_words net ws ui).1
    unfolding create_group_words
    create_group_words-Says (command ∷ name ∷ leader ∷ []) ui = submit-Says net _ _ _ _ ui (every _)
    create_group_words-Says [] ui = print-Says _ ui
    create_group_words-Says (a ∷ []) ui = print-Says _ ui
    create_group_words-Says (a ∷ b ∷ []) ui = print-Says _ ui
    create_group_words-Says (a ∷ b ∷ c ∷ d ∷ ws) ui = print-Says _ ui

    pub add_member_words-Says :
        (ws : List Str) (ui : UserInterface) → Says K ui (add_member_words net ws ui).1
    unfolding add_member_words
    add_member_words-Says (command ∷ group ∷ urn ∷ []) ui = submit-Says net _ _ _ _ ui (every _)
    add_member_words-Says [] ui = print-Says _ ui
    add_member_words-Says (a ∷ []) ui = print-Says _ ui
    add_member_words-Says (a ∷ b ∷ []) ui = print-Says _ ui
    add_member_words-Says (a ∷ b ∷ c ∷ d ∷ ws) ui = print-Says _ ui

    pub remove_member_words-Says :
        (ws : List Str) (ui : UserInterface) → Says K ui (remove_member_words net ws ui).1
    unfolding remove_member_words
    remove_member_words-Says (command ∷ group ∷ urn ∷ []) ui =
        then_says (print-Says _ ui) (submit-Says net _ _ _ _ _ (every _))
    remove_member_words-Says [] ui = print-Says _ ui
    remove_member_words-Says (a ∷ []) ui = print-Says _ ui
    remove_member_words-Says (a ∷ b ∷ []) ui = print-Says _ ui
    remove_member_words-Says (a ∷ b ∷ c ∷ d ∷ ws) ui = print-Says _ ui
