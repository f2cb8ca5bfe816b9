-- ===== src/Client/Authentication.antt =====
-- How UserInterface::authenticate of client/UserInterface.cpp can end.
use protokol_javni_prevoz.Prelude.{
  ◌≡◌, refl, Bool, true, false, Option, none, some, [], Bool-cases, inl, inr, if◌then◌else◌,
}
use protokol_javni_prevoz.Text.{Str, str}
use protokol_javni_prevoz.Message.{Message, get_bool, get_string}
use protokol_javni_prevoz.Message.Factory.{create_auth_request}
use protokol_javni_prevoz.Wire.{Socket}
use protokol_javni_prevoz.Client.{
  Network, UserInterface, receive_response, send_request, store_session, read_answer, authenticate,
  receive_on, send_on,
}

-- What the client hears: the answer, if the request went out and one came.
abbrev pub heard : Network → Str → UserInterface → Option Message
heard net urn ui =
    let (sent, ui') = send_request net (create_auth_request urn []) ui in
    if sent then (receive_response ui').0 else none

-- Signed in with the session of an answer.
abbrev pub SignedIn : Str → Message → Bool × UserInterface → Type 0
SignedIn urn answer (signed, ui') =
    (signed ≡ true)
    × (ui'.session_token ≡ get_string answer (str "token"))
    × (ui'.current_urn ≡ urn)
    × (ui'.authenticated ≡ true)

abbrev pub Unchanged : UserInterface → Bool × UserInterface → Type 0
Unchanged ui (signed, ui') =
    (signed ≡ false)
    × (ui'.session_token ≡ ui.session_token)
    × (ui'.current_urn ≡ ui.current_urn)
    × (ui'.authenticated ≡ ui.authenticated)

-- How authenticate ends, for what was heard.
abbrev pub Ended : Str → UserInterface → Option Message → Bool × UserInterface → Type 0
Ended urn ui none r = Unchanged ui r
Ended urn ui (some answer) r =
    ((get_bool answer (str "success") ≡ true) → SignedIn urn answer r)
    × ((get_bool answer (str "success") ≡ false) → Unchanged ui r)

module _ (urn : Str) (ui : UserInterface) where
  -- The other members are as they were.
  record Kept (a : UserInterface) : Type 0 where
    token : a.session_token ≡ ui.session_token
    current : a.current_urn ≡ ui.current_urn
    signed : a.authenticated ≡ ui.authenticated

  read_answer-Ended :
      (o : Option Message) (a : UserInterface) → Kept a → Ended urn ui o (read_answer urn o a)
  unfolding read_answer store_session
  read_answer-Ended none a k = (refl, k.token, k.current, k.signed)
  read_answer-Ended (some answer) a k =
      (λ e. rw e (refl, refl, refl, refl), λ e. rw e (refl, k.token, k.current, k.signed))

  sent-Kept : (net : Network) (m : Message) → Kept (send_request net m ui).1
  unfolding send_request send_on
  sent-Kept net m = on ui.socket
    where
      on : (o : Option Socket) → Kept (send_on net o m ui).1
      on none = record { token = refl; current = refl; signed = refl }
      on (some s) = record { token = refl; current = refl; signed = refl }

  received-Kept : (a : UserInterface) → Kept a → Kept (receive_response a).1
  unfolding receive_response receive_on
  received-Kept a k = on a.socket
    where
      on : (o : Option Socket) → Kept (receive_on o a).1
      on none = k
      on (some s) = record { token = k.token; current = k.current; signed = k.signed }

  -- If the request goes out and an answer comes that grants it, authenticate returns true, and the
  -- user is signed in with the token of the answer and the URN that was given. If the answer does
  -- not grant it, no answer comes or the request does not go out, it returns false, and the token,
  -- the URN and whether the user is signed in are as before.
  pub authenticate_lem : (net : Network) → Ended urn ui (heard net urn ui) (authenticate net urn ui)
  unfolding authenticate
  authenticate_lem net =
      let request = create_auth_request urn [] in
      let kept = sent-Kept net request in
      elim (Bool-cases (send_request net request ui).0) [
        | inr e ↦ rw e (refl, kept.token, kept.current, kept.signed)
        | inl e ↦ rw e (read_answer-Ended _ _ (received-Kept _ kept))
      ]
