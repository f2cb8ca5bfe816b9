-- ===== src/Tests/Messages.antt =====
-- Runs of the wire format, and its theorems at messages that meet their hypotheses.
use protokol_javni_prevoz.Prelude.{
  ◌≡◌, ◌≢◌, ◌↔◌, refl, true, false, some, List, [], ◌∷◌, ◌++◌, length, arith, if◌then◌else◌,
}
use protokol_javni_prevoz.Prelude.Int.{pos, negsuc}
use protokol_javni_prevoz.Result.{done}
use protokol_javni_prevoz.Text.{Str, str, eq_str}
use protokol_javni_prevoz.Text.Decimal.{to_string, stoi, stoi-to_string}
use protokol_javni_prevoz.StdMap.{StdMap, insert}
use protokol_javni_prevoz.Codec.Entries.{Decoded, decode_data-Decoded}
use protokol_javni_prevoz.Codec.{
  Bytes, AreBytes, be32, put_field, encode_data, decode_loop, decode_data, Fits,
}
use protokol_javni_prevoz.Codec.RoundTrip.{decode_loop_fuel, decode_data-encode_data}
use protokol_javni_prevoz.Codec.Truncation.{decode_data_dangling_key, decode_data_missing_value}
use protokol_javni_prevoz.Message.{
  Message, new, add_string, add_int, get_string, get_int, has_key, serialize, header_bytes,
  deserialize, serialize_stream, deserialize_stream, with_checksum, calculate_checksum,
  verify_checksum, is_valid,
}
use protokol_javni_prevoz.Message.Crc.{crc32, crc_loop, crc_rounds, crc_shift}
use protokol_javni_prevoz.Message.Checksum.{
  HasFrame, new-HasFrame, add_string-HasFrame, is_valid-with_checksum,
}
use protokol_javni_prevoz.Message.WellFormed.{
  IsWellFormed, new-IsWellFormed, add_string-IsWellFormed, with_checksum-IsWellFormed,
}
use protokol_javni_prevoz.Message.RoundTrip.{
  deserialize-serialize, deserialize_stream-serialize_stream,
}
use protokol_javni_prevoz.Message.Kind
use protokol_javni_prevoz.Message.Binary.{add_binary, get_binary, get_binary-add_binary}
use protokol_javni_prevoz.Message.Access.{get_string-add_string, get_int-add_int}
use protokol_javni_prevoz.Wire.{Socket, receive_message, receive_loop}
use protokol_javni_prevoz.Wire.Framing.{receive_message-serialize}
use protokol_javni_prevoz.Wire.Delivery.{
  send_all, receive_loop-send_all, receive_message-bad_checksum,
}

abbrev urn : Str
urn = str "12"

abbrev request : Message
request = add_string (str "urn") urn (new 5)

abbrev heartbeat : Message
heartbeat = new 14

abbrev entries : StdMap Str
entries = (str "urn", urn) ∷ []

entries_short : length (encode_data entries) ≡ 13
unfolding encode_data put_field str
entries_short = refl

entries-Fits : Fits entries
unfolding str
entries-Fits = (omega arith, omega arith, tt)

request-IsWellFormed : IsWellFormed request
request-IsWellFormed =
    add_string-IsWellFormed (str "urn") urn (new 5) (new-IsWellFormed 5 (omega arith))
      (unfold new insert in omega (arith, entries_short))

heartbeat-IsWellFormed : IsWellFormed heartbeat
heartbeat-IsWellFormed = new-IsWellFormed 14 (omega arith)

abbrev open_socket : Socket
open_socket = record { tls_established = true; inbox = []; outbox = []; last_error = [] }

deserialize-serialize_example :
    deserialize heartbeat (serialize request ++ 7 ∷ []) ≡ (true, request)
deserialize-serialize_example =
    deserialize-serialize heartbeat request (7 ∷ []) request-IsWellFormed

heartbeat_short : length (serialize heartbeat) ≡ 24
unfolding serialize header_bytes new encode_data
heartbeat_short = refl

deserialize_stream-serialize_stream_example :
    deserialize_stream request (serialize_stream heartbeat ++ []) ≡ (true, heartbeat)
deserialize_stream-serialize_stream_example =
    deserialize_stream-serialize_stream request heartbeat [] heartbeat-IsWellFormed
      (omega (arith, heartbeat_short))

decode_data-encode_data_example : decode_data (encode_data entries) ≡ (true, entries)
decode_data-encode_data_example = decode_data-encode_data entries entries-Fits (tt, tt)

decode_loop_fuel_example : decode_loop 3 (1 ∷ 2 ∷ []) [] ≡ decode_loop 9 (1 ∷ 2 ∷ []) []
decode_loop_fuel_example = decode_loop_fuel 3 9 (1 ∷ 2 ∷ []) [] (omega arith) (omega arith)

-- An entry, and the length of a key with nothing behind it.
abbrev cut_body : Bytes
cut_body = 0 ∷ 0 ∷ 0 ∷ 1 ∷ 97 ∷ 0 ∷ 0 ∷ 0 ∷ 1 ∷ 98 ∷ 0 ∷ 0 ∷ 0 ∷ 9 ∷ []

cut_body-AreBytes : AreBytes cut_body
cut_body-AreBytes = (
  omega arith,
  (
    omega arith,
    (
      omega arith,
      (
        omega arith,
        (
          omega arith,
          (
            omega arith,
            (
              omega arith,
              (
                omega arith,
                (
                  omega arith,
                  (omega arith, (omega arith, (omega arith, (omega arith, (omega arith, tt))))),
                ),
              ),
            ),
          ),
        ),
      ),
    ),
  ),
)

decode_data-Decoded_example : Decoded cut_body [] (decode_data cut_body)
decode_data-Decoded_example = decode_data-Decoded cut_body cut_body-AreBytes

decode_data_dangling_key_example : decode_data (encode_data entries ++ be32 4) ≡ (true, entries)
decode_data_dangling_key_example =
    decode_data_dangling_key entries 4 entries-Fits (tt, tt) (omega arith) (omega arith)

decode_data_missing_value_example :
    decode_data (encode_data entries ++ put_field urn []) ≡ (true, entries)
decode_data_missing_value_example =
    decode_data_missing_value entries urn entries-Fits (tt, tt) (unfold str in omega arith)

request-HasFrame : HasFrame request
request-HasFrame = add_string-HasFrame (str "urn") urn (new 5) (new-HasFrame 5)

is_valid-with_checksum_example :
    (is_valid (with_checksum 1 request) ≡ true)
    ↔ (with_checksum 1 request ≡ calculate_checksum request)
is_valid-with_checksum_example = is_valid-with_checksum request 1 request-HasFrame

stoi-to_string_example : stoi (to_string (negsuc 41)) ≡ done (negsuc 41)
stoi-to_string_example = stoi-to_string (negsuc 41) (omega arith)

get_string-add_string_example :
    (get_string (add_string (str "uri") urn request) (str "urn")
      ≡ (if eq_str (str "urn") (str "uri") then urn else get_string request (str "urn")))
    × (has_key (add_string (str "uri") urn request) (str "urn")
        ≡ (if eq_str (str "urn") (str "uri") then true else has_key request (str "urn")))
get_string-add_string_example = get_string-add_string (str "uri") (str "urn") urn request

get_int-add_int_example : get_int (add_int (str "age") (pos 25) request) (str "age") ≡ done (pos 25)
get_int-add_int_example = get_int-add_int (str "age") (pos 25) request (omega arith)

receive_message-serialize_example :
    receive_message (record open_socket { inbox = serialize request ++ 9 ∷ [] })
    ≡ (some request, record open_socket { inbox = 9 ∷ [] })
receive_message-serialize_example =
    receive_message-serialize request (9 ∷ [])
      (record open_socket { inbox = serialize request ++ 9 ∷ [] }) request-IsWellFormed refl refl

abbrev batch : List Message
batch = request ∷ heartbeat ∷ request ∷ []

abbrev batch_receiver : Socket
batch_receiver = record open_socket { inbox = (send_all batch open_socket).outbox }

receive_loop-send_all_example : receive_loop (length batch_receiver.inbox) batch_receiver ≡ batch
receive_loop-send_all_example =
    receive_loop-send_all batch open_socket batch_receiver
      (request-IsWellFormed, (heartbeat-IsWellFormed, (request-IsWellFormed, tt))) refl refl refl
      refl

abbrev forged : Message
forged = with_checksum 1 heartbeat

forged-IsWellFormed : IsWellFormed forged
forged-IsWellFormed = with_checksum-IsWellFormed 1 heartbeat (omega arith) heartbeat-IsWellFormed

forged_invalid : is_valid forged ≡ false
unfolding is_valid verify_checksum with_checksum calculate_checksum serialize header_bytes
    encode_data new crc32 crc_loop crc_rounds crc_shift
forged_invalid = refl

forged_differs : forged ≢ calculate_checksum heartbeat
forged_differs e = cc (forged_invalid, (is_valid-with_checksum heartbeat 1 (new-HasFrame 14)).1 e)

receive_message-bad_checksum_example :
    (receive_message (record open_socket { inbox = serialize forged ++ [] })
      ≡ (some forged, record open_socket { inbox = [] }))
    × (is_valid forged ≡ false)
receive_message-bad_checksum_example =
    receive_message-bad_checksum heartbeat 1 []
      (record open_socket { inbox = serialize forged ++ [] }) forged-IsWellFormed (new-HasFrame 14)
      forged_differs refl refl

get_binary-add_binary_example :
    get_binary
      (add_binary (str "payload") (0 ∷ 44 ∷ 255 ∷ []) (new Kind.response_success))
      (str "payload")
    ≡ done (0 ∷ 44 ∷ 255 ∷ [])
get_binary-add_binary_example =
    get_binary-add_binary (str "payload") (0 ∷ 44 ∷ 255 ∷ []) (new Kind.response_success)
      (omega arith, (omega arith, (omega arith, tt)))
