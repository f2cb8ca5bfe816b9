-- ===== src/Codec.antt =====
-- common/Message.cpp, encodeData and decodeData: the body of a frame is a sequence of keys and
-- values, each behind its length as four bytes in network order.
-- The offset `pos` of the source is the list of the bytes that are left.
pub mod RoundTrip
pub mod Truncation
pub mod Fields
pub mod Entries
use protokol_javni_prevoz.Prelude.{
  ℕ, zero, suc, ◌+◌, ◌*◌, ◌/◌, ◌%◌, ◌^◌, ◌<◌, Bool, true, false, List, [], ◌∷◌, ◌++◌, ltb, length,
  take, drop, if◌then◌else◌,
}
use protokol_javni_prevoz.Text.{Str, is_empty}
use protokol_javni_prevoz.StdMap.{StdMap, insert}

abbrev pub Bytes : Type 0
Bytes = List ℕ

-- htonl and htons, followed by a copy of the bytes.
abbrev pub be32 : ℕ → Bytes
be32 w = (w / 2 ^ 24 % 256) ∷ (w / 2 ^ 16 % 256) ∷ (w / 2 ^ 8 % 256) ∷ (w % 256) ∷ []

abbrev pub be16 : ℕ → Bytes
be16 w = (w / 2 ^ 8 % 256) ∷ (w % 256) ∷ []

-- memcpy of four bytes, followed by ntohl; callers see to the length.
abbrev pub read32 : Bytes → ℕ
read32 (a ∷ b ∷ c ∷ d ∷ rest) = a * 2 ^ 24 + b * 2 ^ 16 + c * 2 ^ 8 + d
read32 _ = 0

abbrev pub read16 : Bytes → ℕ
read16 (a ∷ b ∷ rest) = a * 2 ^ 8 + b
read16 _ = 0

unfoldable pub put_field : Str → Bytes → Bytes
put_field s rest = be32 (length s % 2 ^ 32) ++ (s ++ rest)

unfoldable pub encode_data : StdMap Str → Bytes
encode_data [] = []
encode_data ((k, v) ∷ m) = put_field k (put_field v (encode_data m))

-- One length and the text behind it. `broken` is a `break` of the loop, with what is left then.
pub data Field : Type 0 where
  broken : Bytes → Field
  field : Str → Bytes → Field

unfoldable pub read_text : ℕ → Bytes → Field
read_text n rest = if ltb (length rest) n then broken rest else field (take n rest) (drop n rest)

unfoldable pub read_field : Bytes → Field
read_field rest = if ltb (length rest) 4 then broken rest else read_text (read32 rest) (drop 4 rest)

-- The `while` loop. The fuel bounds the rounds.
unfoldable pub decode_loop : ℕ → Bytes → StdMap Str → Bool × StdMap Str
decode_loop zero rest acc = (is_empty rest, acc)
decode_loop (suc f) rest acc = elim (read_field rest) [
  | broken left ↦ (is_empty left, acc)
  | field key behind ↦ elim (read_field behind) [
    | broken left ↦ (is_empty left, acc)
    | field value left ↦ decode_loop f left (insert key value acc)
  ]
]

-- A round that goes on takes eight bytes at least.
unfoldable pub decode_data : Bytes → Bool × StdMap Str
decode_data bytes = decode_loop (length bytes) bytes []

-- Every key and value is short enough for its length to fit 32 bits.
abbrev pub Fits : StdMap Str → Type 0
Fits [] = Unit {0}
Fits ((k, v) ∷ m) = (length k < 2 ^ 32) × (length v < 2 ^ 32) × Fits m

abbrev pub AreBytes : Bytes → Type 0
AreBytes [] = Unit {0}
AreBytes (b ∷ bs) = (b < 256) × AreBytes bs
