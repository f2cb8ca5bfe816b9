-- ===== src/Wire/Delivery.antt =====
-- Sequences of frames through a TLSSocket: what one side sends, the reading loop of the other side
-- receives; and what the reader does not check.
use protokol_javni_prevoz.Prelude.{
  ℕ, zero, suc, ◌<◌, ◌≤◌, ◌≡◌, ◌≢◌, refl, sym, ◌∙◌, ap, inl, inr, true, false, none, some, List, [],
  ◌∷◌, ◌++◌, arith, length, length-append, Bool-cases,
}
use mathlib.Core.List.{append_assoc, append-nil}
use protokol_javni_prevoz.Codec.{Bytes}
use protokol_javni_prevoz.Message.{
  Message, serialize, with_checksum, is_valid, calculate_checksum, header_bytes,
}
use protokol_javni_prevoz.Message.WellFormed.{IsWellFormed}
use protokol_javni_prevoz.Message.Checksum.{HasFrame, is_valid-with_checksum}
use protokol_javni_prevoz.Message.RoundTrip.{length-header_bytes}
use protokol_javni_prevoz.Wire.{
  Socket, receive, receive_body, receive_message, receive_loop, send, send_message,
}
use protokol_javni_prevoz.Wire.Framing.{receive_message-serialize}

-- The frames of the messages, one behind the other.
abbrev pub frames : List Message → Bytes
frames [] = []
frames (m ∷ ms) = serialize m ++ frames ms

abbrev pub AllWellFormed : List Message → Type 0
AllWellFormed [] = Unit {0}
AllWellFormed (m ∷ ms) = IsWellFormed m × AllWellFormed ms

-- Sending every message of a list, where every write goes through.
unfoldable pub send_all : List Message → Socket → Socket
send_all [] s = s
send_all (m ∷ ms) s = send_all ms (send_message true m s).1

send_message-outbox :
    (m : Message) (s : Socket)
    → s.tls_established ≡ true
    → send_message true m s ≡ (true, record s { outbox = s.outbox ++ serialize m })
unfolding send_message send
send_message-outbox m s t = ground arith

send_all-outbox :
    (ms : List Message) (s : Socket)
    → s.tls_established ≡ true
    → (send_all ms s).outbox ≡ s.outbox ++ frames ms
unfolding send_all
send_all-outbox [] s t = sym (append-nil s.outbox)
send_all-outbox (m ∷ ms) s t =
    ap (λ r. (send_all ms r.1).outbox) (send_message-outbox m s t)
    ∙ send_all-outbox ms (record s { outbox = s.outbox ++ serialize m }) t
    ∙ append_assoc s.outbox (serialize m) (frames ms)

receive_message-nil : (s : Socket) → s.inbox ≡ [] → (receive_message s).0 ≡ none
unfolding receive_message receive_body receive
receive_message-nil s e = ground arith

length-serialize_pos : (m : Message) → 0 < length (serialize m)
unfolding serialize
length-serialize_pos m =
    omega (arith, length-append (header_bytes m.header) _, length-header_bytes m.header)

receive_loop-frames :
    (ms : List Message) (f : ℕ) (s : Socket)
    → AllWellFormed ms
    → s.tls_established ≡ true
    → s.inbox ≡ frames ms
    → length (frames ms) ≤ f
    → receive_loop f s ≡ ms
unfolding receive_loop
receive_loop-frames [] zero s w t e h = refl
receive_loop-frames [] (suc f) s w t e h = rw (receive_message-nil s e, receive_loop) refl
receive_loop-frames (m ∷ ms) zero s w t e h =
    absurd (omega (arith, length-serialize_pos m, length-append (serialize m) (frames ms)))
receive_loop-frames (m ∷ ms) (suc f) s w t e h =
    let got = receive_message-serialize m (frames ms) s w.0 t e in
    rw (ap (λ r. r.0) got, receive_loop)
      (rw (ap (λ r. r.1) got) (
        ap (λ l. m ∷ l)
          (receive_loop-frames ms f (record s { inbox = frames ms }) w.1 t refl
            (omega (arith, length-serialize_pos m, length-append (serialize m) (frames ms))))))

-- What one side sends over an established connection with nothing sent before, the reading loop of
-- the other side, which has received exactly that, yields: the same well-formed messages, in
-- order, and then it ends.
pub receive_loop-send_all :
    (ms : List Message) (sender receiver : Socket)
    → AllWellFormed ms
    → sender.tls_established ≡ true
    → receiver.tls_established ≡ true
    → sender.outbox ≡ []
    → receiver.inbox ≡ (send_all ms sender).outbox
    → receive_loop (length receiver.inbox) receiver ≡ ms
receive_loop-send_all ms sender receiver w t t' e r =
    let sent : receiver.inbox ≡ frames ms =
      r ∙ send_all-outbox ms sender t ∙ ap (λ b. b ++ frames ms) e in
    receive_loop-frames ms (length receiver.inbox) receiver w t' sent
      (omega (arith, ap length sent))

-- On an established connection, a well-formed frame with the protocol's magic and version whose
-- checksum is not the computed one is handed on by receiveMessage, though isValid refuses it.
pub receive_message-bad_checksum :
    (m : Message) (c : ℕ) (rest : Bytes) (s : Socket)
    → IsWellFormed (with_checksum c m)
    → HasFrame m
    → with_checksum c m ≢ calculate_checksum m
    → s.tls_established ≡ true
    → s.inbox ≡ serialize (with_checksum c m) ++ rest
    → (receive_message s ≡ (some (with_checksum c m), record s { inbox = rest }))
      × (is_valid (with_checksum c m) ≡ false)
receive_message-bad_checksum m c rest s w h bad t e = (
  receive_message-serialize (with_checksum c m) rest s w t e,
  elim (Bool-cases (is_valid (with_checksum c m))) [
    | inl good ↦ absurd (bad ((is_valid-with_checksum m c h).0 good))
    | inr refused ↦ refused
  ],
)
