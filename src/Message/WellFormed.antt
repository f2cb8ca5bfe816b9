-- ===== src/Message/WellFormed.antt =====
-- The messages that the class Message can hold: common/Message.cpp keeps the entries in order, the
-- length field at the size of the body, and each header field within its width.
use protokol_javni_prevoz.Prelude.{
  ℕ, ◌+◌, ◌^◌, ◌≤◌, ◌<◌, ◌≡◌, refl, [], ◌∷◌, arith, length, length-append,
}
use protokol_javni_prevoz.Text.{Str}
use protokol_javni_prevoz.StdMap.{StdMap, insert, IsSorted, insert-IsSorted}
use protokol_javni_prevoz.Codec.{Bytes, put_field, encode_data, Fits}
use protokol_javni_prevoz.Message.{
  Header, Message, magic_value, new, add_string, with_checksum, calculate_checksum,
}
use protokol_javni_prevoz.Message.Crc.{crc32-lt}

pub record InWidth (h : Header) : Type 0 where
  pub magic : h.magic ≡ magic_value
  pub version : h.version < 2 ^ 16
  pub type : h.type < 2 ^ 16
  pub length_field : h.length_field < 2 ^ 32
  pub sequence_id : h.sequence_id < 2 ^ 32
  pub session_id : h.session_id < 2 ^ 32
  pub checksum : h.checksum < 2 ^ 32

pub record IsWellFormed (m : Message) : Type 0 where
  pub widths : InWidth m.header
  pub body_length : m.header.length_field ≡ length (encode_data m.entries)
  pub sorted : IsSorted m.entries

length-put_field : (s rest : Bytes) → length (put_field s rest) ≡ 4 + length s + length rest
unfolding put_field
length-put_field s rest = omega (arith, length-append s rest)

-- A body below 4 GiB has no key or value too long for its length prefix.
pub encode_data-Fits : (m : StdMap Str) → length (encode_data m) < 2 ^ 32 → Fits m
unfolding encode_data
encode_data-Fits [] h = tt
encode_data-Fits ((k, v) ∷ m) h =
    let e = length-put_field k (put_field v (encode_data m)) in
    let d = length-put_field v (encode_data m) in
    (omega arith, omega arith, encode_data-Fits m (omega arith))

pub new-IsWellFormed : (type : ℕ) → type < 2 ^ 16 → IsWellFormed (new type)
unfolding new encode_data
new-IsWellFormed type h = record {
  widths = record {
    magic = refl;
    version = omega arith;
    type = h;
    length_field = omega arith;
    sequence_id = omega arith;
    session_id = omega arith;
    checksum = omega arith;
  };
  body_length = refl;
  sorted = tt;
}

pub add_string-IsWellFormed :
    (key value : Str) (m : Message)
    → IsWellFormed m
    → length (encode_data (insert key value m.entries)) < 2 ^ 32
    → IsWellFormed (add_string key value m)
unfolding add_string
add_string-IsWellFormed key value m w h = record {
  widths = record {
    magic = w.widths.magic;
    version = w.widths.version;
    type = w.widths.type;
    length_field = omega arith;
    sequence_id = w.widths.sequence_id;
    session_id = w.widths.session_id;
    checksum = w.widths.checksum;
  };
  body_length = omega arith;
  sorted = insert-IsSorted key value m.entries w.sorted;
}

-- An entry more makes the body longer by no more than its own bytes.
pub length-encode_data-insert :
    (k v : Str) (m : StdMap Str)
    → length (encode_data (insert k v m)) ≤ 8 + length k + length v + length (encode_data m)
unfolding insert encode_data
length-encode_data-insert k v [] =
    omega (arith, length-put_field k (put_field v []), length-put_field v [])
length-encode_data-insert k v ((j, w) ∷ m) = ground (
  arith,
  length-encode_data-insert k v m,
  length-put_field k (put_field v (put_field j (put_field w (encode_data m)))),
  length-put_field v (put_field j (put_field w (encode_data m))),
  length-put_field j (put_field w (encode_data m)),
  length-put_field w (encode_data m),
  length-put_field j (put_field v (encode_data m)),
  length-put_field v (encode_data m),
  length-put_field j (put_field w (encode_data (insert k v m))),
  length-put_field w (encode_data (insert k v m)),
)

pub with_checksum-IsWellFormed :
    (c : ℕ) (m : Message) → c < 2 ^ 32 → IsWellFormed m → IsWellFormed (with_checksum c m)
unfolding with_checksum
with_checksum-IsWellFormed c m h w = record {
  widths = record {
    magic = w.widths.magic;
    version = w.widths.version;
    type = w.widths.type;
    length_field = w.widths.length_field;
    sequence_id = w.widths.sequence_id;
    session_id = w.widths.session_id;
    checksum = h;
  };
  body_length = w.body_length;
  sorted = w.sorted;
}

pub calculate_checksum-IsWellFormed :
    (m : Message) → IsWellFormed m → IsWellFormed (calculate_checksum m)
unfolding calculate_checksum
calculate_checksum-IsWellFormed m w = with_checksum-IsWellFormed _ m (crc32-lt _) w
