-- ===== src/Client/Says.antt =====
-- What the steps of client/UserInterface.cpp write to the server: frames of whole messages, in the
-- order in which they are sent.
use protokol_javni_prevoz.Prelude.{
  ◌≡◌, refl, sym, ◌∙◌, ap, Bool, true, false, Option, none, some, ◌⊎◌, List, [], ◌∷◌, ◌++◌, arith,
  if◌then◌else◌, Bool-cases, inl, inr,
}
use mathlib.Core.List.{append_assoc, append-nil}
use protokol_javni_prevoz.Text.{Str}
use protokol_javni_prevoz.Codec.{Bytes}
use protokol_javni_prevoz.Message.{Message, serialize}
use protokol_javni_prevoz.Wire.{
  Socket, send, send_message, receive, receive_payload, join_payload, accept_frame, receive_body,
  receive_message,
}
use protokol_javni_prevoz.Wire.Delivery.{frames}
use protokol_javni_prevoz.Client.{
  Network, UserInterface, print, succeeded, reason, receive_on, receive_response, send_on,
  send_request, submit,
}

-- What was written to the socket, if there is one.
abbrev pub written_to : Option Socket → Bytes
written_to none = []
written_to (some s) = s.outbox

abbrev pub wire : UserInterface → Bytes
wire ui = written_to ui.socket

abbrev pub AllOf : (Message → Type 0) → List Message → Type 0
AllOf K [] = Unit {0}
AllOf K (m ∷ ms) = K m × AllOf K ms

-- From the one state to the other, only frames of messages in `K` were written, and who was signed
-- in still is.
pub record Says (K : Message → Type 0) (ui ui' : UserInterface) : Type 0 where
  pub messages : List Message
  pub all : AllOf K messages
  pub wrote : wire ui' ≡ wire ui ++ frames messages
  pub signed : ui'.authenticated ≡ false → ui.authenticated ≡ false

AllOf-append :
    (K : Message → Type 0) (ms ns : List Message) → AllOf K ms → AllOf K ns → AllOf K (ms ++ ns)
AllOf-append K [] ns h k = k
AllOf-append K (m ∷ ms) ns h k = (h.0, AllOf-append K ms ns h.1 k)

frames-append : (ms ns : List Message) → frames (ms ++ ns) ≡ frames ms ++ frames ns
frames-append [] ns = refl
frames-append (m ∷ ms) ns =
    ap (λ l. serialize m ++ l) (frames-append ms ns)
    ∙ sym (append_assoc (serialize m) (frames ms) (frames ns))

accept_frame-outbox : (r : Bool × Message) (s : Socket) → (accept_frame r s).1.outbox ≡ s.outbox
unfolding accept_frame
accept_frame-outbox (true, m) s = refl
accept_frame-outbox (false, m) s = refl

join_payload-outbox :
    (head : Bytes) (r : Option Bytes × Socket) → (join_payload head r).1.outbox ≡ r.1.outbox
unfolding join_payload
join_payload-outbox head (none, s) = refl
join_payload-outbox head (some payload, s) = accept_frame-outbox _ s

receive_body-outbox : (r : Option Bytes × Socket) → (receive_body r).1.outbox ≡ r.1.outbox
unfolding receive_body receive_payload receive
receive_body-outbox (none, s) = refl
receive_body-outbox (some head, s) = grind (arith, join_payload-outbox)

pub receive_message-outbox : (s : Socket) → (receive_message s).1.outbox ≡ s.outbox
unfolding receive_message receive
receive_message-outbox s = grind (arith, receive_body-outbox)

-- A message is written whole or not at all.
pub send_message-outbox :
    (goes : Bool) (m : Message) (s : Socket)
    → ((send_message goes m s).1.outbox ≡ s.outbox)
      ⊎ ((send_message goes m s).1.outbox ≡ s.outbox ++ serialize m)
unfolding send_message send
send_message-outbox goes m s = elim (Bool-cases s.tls_established) [
  | inr t ↦ inl (ground arith)
  | inl t ↦ elim (Bool-cases goes) [ inl g ↦ inr (ground arith) | inr g ↦ inl (ground arith) ]
]

module _ {K : Message → Type 0} where
  pub silent :
      (ui ui' : UserInterface)
      → wire ui' ≡ wire ui
      → (ui'.authenticated ≡ false → ui.authenticated ≡ false)
      → Says K ui ui'
  silent ui ui' e a = record {
    messages = [];
    all = tt;
    wrote = e ∙ sym (append-nil (wire ui));
    signed = a;
  }

  pub then_says : {a b c : UserInterface} → Says K a b → Says K b c → Says K a c
  then_says {a} {b} {c} p q = record {
    messages = p.messages ++ q.messages;
    all = AllOf-append K p.messages q.messages p.all q.all;
    wrote =
        q.wrote
        ∙ ap (λ l. l ++ frames q.messages) p.wrote
        ∙ append_assoc (wire a) (frames p.messages) (frames q.messages)
        ∙ ap (λ l. wire a ++ l) (sym (frames-append p.messages q.messages));
    signed = λ e. p.signed (q.signed e);
  }

  received_on :
      (o : Option Socket) (ui : UserInterface)
      → written_to o ≡ wire ui
      → Says K ui (receive_on o ui).1
  unfolding receive_on
  received_on none ui e = silent ui ui refl (λ a. a)
  received_on (some s) ui e = silent ui _ (receive_message-outbox s ∙ e) (λ a. a)

  pub receive_response-Says : (ui : UserInterface) → Says K ui (receive_response ui).1
  unfolding receive_response
  receive_response-Says ui = received_on ui.socket ui refl

  pub print-Says : (line : Str) (ui : UserInterface) → Says K ui (print line ui).1
  unfolding print
  print-Says line ui = silent ui _ refl (λ a. a)

  sent_on :
      (net : Network) (o : Option Socket) (m : Message) (ui : UserInterface)
      → K m
      → written_to o ≡ wire ui
      → Says K ui (send_on net o m ui).1
  unfolding send_on
  sent_on net none m ui k e = silent ui ui refl (λ a. a)
  sent_on net (some s) m ui k e = elim (send_message-outbox (net.goes ui.writes) m s) [
    | inl same ↦ silent ui _ (same ∙ e) (λ a. a)
    | inr more ↦ record {
      messages = m ∷ [];
      all = (k, tt);
      wrote =
          more
          ∙ ap (λ l. l ++ serialize m) e
          ∙ ap (λ l. wire ui ++ l) (sym (append-nil (serialize m)));
      signed = λ a. a;
    }
  ]

  module _ (net : Network) where
    pub send_request-Says :
        (m : Message) (ui : UserInterface) → K m → Says K ui (send_request net m ui).1
    unfolding send_request
    send_request-Says m ui k = sent_on net ui.socket m ui k refl

    answered :
        (success failure : Str) (response : Option Message) (ui : UserInterface)
        → Says K ui
            ((if succeeded response then print success else print (failure ++ reason response))
              ui).1
    answered success failure response ui = elim (Bool-cases (succeeded response)) [
      | inl e ↦ rw e (print-Says success ui)
      | inr e ↦ rw e (print-Says (failure ++ reason response) ui)
    ]

    pub submit-Says :
        (m : Message) (success failure unsent : Str) (ui : UserInterface)
        → K m
        → Says K ui (submit net m success failure unsent ui).1
    unfolding submit
    submit-Says m success failure unsent ui k =
        let first = send_request-Says m ui k in
        elim (Bool-cases (send_request net m ui).0) [
          | inr e ↦ rw e (then_says first (print-Says unsent _))
          | inl e ↦
              rw e (
                then_says first
                  (then_says (receive_response-Says _) (answered success failure _ _)))
        ]
