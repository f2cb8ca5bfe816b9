-- ===== src/Wire.antt =====
-- common/TLSSocket.cpp: frames over a TLS stream. The stream is Boost.Asio's: what the peer sent
-- before the stream ended is the list `inbox`, what was written is `outbox`, and whether a write
-- goes through is an argument. boost::asio::read and write return with the whole buffer or throw,
-- so the loops of `send` and `receive` make one round.
pub mod Framing
pub mod Delivery
use protokol_javni_prevoz.Prelude.{
  ℕ, ◌≡◌, Bool, true, false, not, Option, none, some, List, [], ◌∷◌, ◌++◌, leb, ◌==◌, length, take,
  drop, if◌then◌else◌, zero, suc,
}
use protokol_javni_prevoz.Text.{Str, str}
use protokol_javni_prevoz.Codec.{Bytes}
use protokol_javni_prevoz.Message.{
  Header, Message, magic_value, header_size, clear, read_header, serialize, deserialize,
}

-- The fields of TLSSocket that sending and receiving use.
pub record Socket : Type 0 where
  pub tls_established : Bool
  pub inbox : Bytes
  pub outbox : Bytes
  pub last_error : Str

unfoldable pub set_last_error : Str → Socket → Socket
set_last_error e s = record s { last_error = e }

-- TLSSocket::receive of `n` bytes; `none` stands for -1.
unfoldable pub receive : ℕ → Socket → Option Bytes × Socket
unfolding set_last_error
receive n s =
    if not s.tls_established
    then (none, set_last_error (str "TLS not established") s)
    else if leb n (length s.inbox)
    then (some (take n s.inbox), record s { inbox = drop n s.inbox })
    else (none, set_last_error (str "Asio TLS read failed: ") (record s { inbox = [] }))

-- TLSSocket::send; `goes` tells whether the write succeeds.
unfoldable pub send : Bool → Bytes → Socket → Bool × Socket
unfolding set_last_error
send goes bytes s =
    if not s.tls_established
    then (false, set_last_error (str "TLS not established") s)
    else if goes
    then (true, record s { outbox = s.outbox ++ bytes })
    else (false, set_last_error (str "Asio TLS write failed: ") s)

-- TLSSocket::sendMessage.
unfoldable pub send_message : Bool → Message → Socket → Bool × Socket
unfolding send
send_message goes m s =
    if not s.tls_established
    then (false, set_last_error (str "TLS not established") s)
    else send goes (serialize m) s

unfoldable pub accept_frame : Bool × Message → Socket → Option Message × Socket
unfolding set_last_error
accept_frame (true, m) s = (some m, s)
accept_frame (false, m) s = (none, set_last_error (str "Failed to deserialize message") s)

unfoldable pub join_payload : Bytes → Option Bytes × Socket → Option Message × Socket
join_payload header_bytes (none, s) = (none, s)
join_payload header_bytes (some payload, s) =
    accept_frame (deserialize clear (header_bytes ++ payload)) s

-- A frame with an empty body needs no second read.
unfoldable pub receive_payload : ℕ → Socket → Option Bytes × Socket
receive_payload n s = if n == 0 then (some [], s) else receive n s

unfoldable pub receive_body : Option Bytes × Socket → Option Message × Socket
receive_body (none, s) = (none, s)
receive_body (some header_bytes, s) =
    if (read_header header_bytes).magic == magic_value
    then join_payload header_bytes (receive_payload (read_header header_bytes).length_field s)
    else (none, record s { last_error = str "Invalid message magic" })

-- TLSSocket::receiveMessage.
unfoldable pub receive_message : Socket → Option Message × Socket
receive_message s =
    if not s.tls_established
    then (none, set_last_error (str "TLS not established") s)
    else receive_body (receive header_size s)

-- The reading loop of handleClientMessage: messages until the first failure. Every message takes
-- at least a header, so as many rounds as there are bytes are enough.
unfoldable pub receive_loop : ℕ → Socket → List Message
receive_loop zero s = []
receive_loop (suc f) s =
    let (got, s') = receive_message s in elim got [ none ↦ [] | some m ↦ m ∷ receive_loop f s' ]
