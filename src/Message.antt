-- ===== src/Message.antt =====
-- common/Message.h and common/Message.cpp: the frame header, the key-value body, the typed
-- accessors, and the frame format. The body's own format is in Codec.
pub mod Kind
pub mod Crc
pub mod Factory
pub mod WellFormed
pub mod RoundTrip
pub mod Access
pub mod Checksum
pub mod Binary
use Crc.{crc32}
use protokol_javni_prevoz.Prelude.{
  ℕ, ◌+◌, ◌%◌, ◌^◌, Bool, true, false, not, ◌&&◌, Option, none, some, List, [], ◌∷◌, ◌++◌, ltb,
  ◌==◌, length, take, drop, if◌then◌else◌, ◌≢◌, Option-cases, inl, inr, sym, ap, ◌∙◌,
}
use protokol_javni_prevoz.Prelude.Int.{ℤ, pos}
use protokol_javni_prevoz.Result.{Result, done, blocked}
use protokol_javni_prevoz.Text.{Str, str, eq_str}
use protokol_javni_prevoz.Text.Decimal.{to_string, stoi, stoi_returns}
use protokol_javni_prevoz.StdMap.{StdMap, find, insert}
use protokol_javni_prevoz.Codec.{Bytes, be16, be32, read16, read32, encode_data, decode_data}

-- struct Header. `type` is an enum over uint16_t: any 16-bit number can come from the wire.
pub record Header : Type 0 where
  pub magic : ℕ
  pub version : ℕ
  pub type : ℕ
  pub length_field : ℕ
  pub sequence_id : ℕ
  pub session_id : ℕ
  pub checksum : ℕ

-- class Message.
pub record Message : Type 0 where
  pub header : Header
  pub entries : StdMap Str

-- "TPMP".
abbrev pub magic_value : ℕ
magic_value = 0x54504D50

-- sizeof(Header), packed.
abbrev pub header_size : ℕ
header_size = 24

-- Message::clear, which the constructors call.
unfoldable pub clear : Message
clear = record {
  header = record {
    magic = magic_value;
    version = 1;
    type = 0;
    length_field = 0;
    sequence_id = 0;
    session_id = 0;
    checksum = 0;
  };
  entries = [];
}

-- Message::Message(MessageType).
unfoldable pub new : ℕ → Message
unfolding clear
new type = record clear { header = record clear.header { type = type } }

-- data_[key] = value, and the length of the body anew.
unfoldable pub add_string : Str → Str → Message → Message
add_string key value m = record {
  header = record m.header { length_field = length (encode_data entries) % 2 ^ 32 };
  entries = entries;
}
  where
    entries : StdMap Str
    entries = insert key value m.entries

unfoldable pub add_int : Str → ℤ → Message → Message
add_int key value = add_string key (to_string value)

unfoldable pub add_bool : Str → Bool → Message → Message
add_bool key value = add_string key (if value then str "true" else str "false")

abbrev or_default {ℓ} : {A : Type ℓ} → Option A → A → A
or_default none d = d
or_default (some a) d = a

unfoldable pub get_string : Message → Str → Str
get_string m key = or_default (find key m.entries) []

-- std::stoi throws on a text that is no `int`.
read_or_zero : Option Str → Result ℤ
read_or_zero none = done (pos 0)
read_or_zero (some text) = stoi text

unfoldable pub get_int : Message → Str → Result ℤ
unfolding read_or_zero
get_int m key = read_or_zero (find key m.entries)

-- Reading a number returns or throws.
pub get_int_returns : (m : Message) (key : Str) → get_int m key ≢ blocked
unfolding get_int
get_int_returns m key e = elim (Option-cases (find key m.entries)) [
  | inl f ↦ cc (e, ap read_or_zero f)
  | inr (text, f) ↦ stoi_returns text (sym (ap read_or_zero f) ∙ e)
]

unfoldable pub get_bool : Message → Str → Bool
get_bool m key = elim (find key m.entries) [ none ↦ false | some v ↦ eq_str v (str "true") ]

unfoldable pub has_key : Message → Str → Bool
has_key m key = elim (find key m.entries) [ none ↦ false | some v ↦ true ]

-- The header in network order.
unfoldable pub header_bytes : Header → Bytes
header_bytes h =
    be32 h.magic
    ++ (be16 h.version
        ++ (be16 h.type
            ++ (be32 h.length_field
                ++ (be32 h.sequence_id ++ (be32 h.session_id ++ be32 h.checksum)))))

-- memcpy into the header and back to host order; callers see to the length.
unfoldable pub read_header : Bytes → Header
read_header b = record {
  magic = read32 b;
  version = read16 (drop 4 b);
  type = read16 (drop 6 b);
  length_field = read32 (drop 8 b);
  sequence_id = read32 (drop 12 b);
  session_id = read32 (drop 16 b);
  checksum = read32 (drop 20 b);
}

-- Message::serialize.
unfoldable pub serialize : Message → Bytes
serialize m = header_bytes m.header ++ encode_data m.entries

unfoldable pub with_body : Header → Bool × StdMap Str → Bool × Message
with_body h (good, entries) = (good, record { header = h; entries = entries })

unfoldable pub read_body : Message → Header → Bytes → Bool × Message
read_body old h body =
    if ltb (length body) h.length_field
    then (false, record old { header = h })
    else with_body h (decode_data (take h.length_field body))

-- Message::deserialize: the result, and what the object holds afterwards.
unfoldable pub deserialize : Message → Bytes → Bool × Message
deserialize old b =
    if ltb (length b) header_size
    then (false, old)
    else if not ((read_header b).magic == magic_value)
    then (false, record old { header = read_header b })
    else read_body old (read_header b) (drop header_size b)

-- Message::serializeStream and deserializeStream: the frame behind its length.
unfoldable pub serialize_stream : Message → Bytes
serialize_stream m = be32 (length (serialize m) % 2 ^ 32) ++ serialize m

unfoldable pub read_stream : Message → ℕ → Bytes → Bool × Message
read_stream old n body = if ltb (length body) n then (false, old) else deserialize old (take n body)

unfoldable pub deserialize_stream : Message → Bytes → Bool × Message
deserialize_stream old b =
    if ltb (length b) 4 then (false, old) else read_stream old (read32 b) (drop 4 b)

unfoldable pub with_checksum : ℕ → Message → Message
with_checksum c m = record m { header = record m.header { checksum = c } }

-- Message::calculateChecksum, over the whole frame with a checksum of 0.
unfoldable pub calculate_checksum : Message → Message
calculate_checksum m = with_checksum (crc32 (serialize (with_checksum 0 m))) m

-- Message::verifyChecksum.
unfoldable pub verify_checksum : Message → Bool
verify_checksum m = m.header.checksum == crc32 (serialize (with_checksum 0 m))

-- Message::isValid.
unfoldable pub is_valid : Message → Bool
is_valid m = m.header.magic == magic_value && m.header.version == 1 && verify_checksum m
