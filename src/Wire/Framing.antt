-- ===== src/Wire/Framing.antt =====
-- One frame through TLSSocket::receiveMessage.
use protokol_javni_prevoz.Prelude.{
  ℕ, ◌≡◌, refl, sym, ◌∙◌, ap, true, some, [], ◌∷◌, ◌++◌, arith, le→leb, length, take-append,
  drop-append, length-append,
}
use protokol_javni_prevoz.Codec.{Bytes, encode_data}
use protokol_javni_prevoz.Message.{
  Message, header_size, clear, header_bytes, read_header, serialize, deserialize,
}
use protokol_javni_prevoz.Message.WellFormed.{IsWellFormed}
use protokol_javni_prevoz.Message.RoundTrip.{
  read_header-header_bytes, length-header_bytes, deserialize-serialize,
}
use mathlib.Core.List.{append_assoc, append-nil}
use protokol_javni_prevoz.Wire.{
  Socket, receive, receive_payload, receive_body, join_payload, accept_frame, receive_message,
}

receive-append :
    (a rest : Bytes) (s : Socket)
    → s.tls_established ≡ true
    → s.inbox ≡ a ++ rest
    → receive (length a) s ≡ (some a, record s { inbox = rest })
unfolding receive
receive-append a rest s t e =
    rw (t, e, le→leb (length a) (length (a ++ rest)) (omega (arith, length-append a rest)))
      (rw (take-append a rest, drop-append a rest) refl)

receive_payload-append :
    (n : ℕ) (a rest : Bytes) (s : Socket)
    → n ≡ length a
    → s.tls_established ≡ true
    → s.inbox ≡ a ++ rest
    → receive_payload n s ≡ (some a, record s { inbox = rest })
unfolding receive_payload
receive_payload-append n [] rest s l t e = rw (l, ← e) refl
receive_payload-append n (x ∷ a) rest s l t e =
    rw l (ground (arith, receive-append (x ∷ a) rest s t e))

-- A well-formed frame at the front of the stream of an established connection is read whole, and
-- nothing behind it is taken.
pub receive_message-serialize :
    (m : Message) (rest : Bytes) (s : Socket)
    → IsWellFormed m
    → s.tls_established ≡ true
    → s.inbox ≡ serialize m ++ rest
    → receive_message s ≡ (some m, record s { inbox = rest })
unfolding receive_message receive_body join_payload accept_frame serialize
receive_message-serialize m rest s w t e =
    let head = header_bytes m.header in
    let body = encode_data m.entries in
    let s' : Socket = record s { inbox = body ++ rest } in
    let first : receive header_size s ≡ (some head, s') =
      ap (λ n. receive n s) (sym (length-header_bytes m.header))
      ∙ receive-append head (body ++ rest) s t (e ∙ append_assoc head body rest) in
    let second = receive_payload-append m.header.length_field body rest s' w.body_length t refl in
    let header : read_header head ≡ m.header =
      ap read_header (sym (append-nil head)) ∙ read_header-header_bytes m.header [] w.widths in
    let whole : deserialize clear (head ++ body) ≡ (true, m) =
      ap (deserialize clear) (sym (append-nil (head ++ body)))
      ∙ deserialize-serialize clear m [] w in
    ground (arith, first, header, w.widths.magic, second, whole)
