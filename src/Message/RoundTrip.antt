-- ===== src/Message/RoundTrip.antt =====
-- Message::serialize and Message::deserialize, common/Message.cpp, together.
use protokol_javni_prevoz.Prelude.{
  ◌%◌, ◌^◌, ◌≤◌, ◌<◌, ◌≡◌, refl, ◌∙◌, true, [], ◌++◌, arith, not_ltb, length, drop, take-append,
  length-append,
}
use protokol_javni_prevoz.Codec.{Bytes, encode_data, be32}
use protokol_javni_prevoz.Codec.RoundTrip.{decode_data-encode_data, read32-be32}
use mathlib.Core.List.{append_assoc, append-nil}
use protokol_javni_prevoz.Message.{
  Header, Message, header_size, header_bytes, read_header, serialize, deserialize, read_body,
  with_body, serialize_stream, deserialize_stream, read_stream,
}
use protokol_javni_prevoz.Message.WellFormed.{InWidth, IsWellFormed, encode_data-Fits}

pub read_header-header_bytes :
    (h : Header) (rest : Bytes) → InWidth h → read_header (header_bytes h ++ rest) ≡ h
unfolding read_header header_bytes
read_header-header_bytes h rest w = ground arith

pub length-header_bytes : (h : Header) → length (header_bytes h) ≡ header_size
unfolding header_bytes
length-header_bytes h = refl

pub drop-header_bytes :
    (h : Header) (rest : Bytes) → drop header_size (header_bytes h ++ rest) ≡ rest
unfolding header_bytes
drop-header_bytes h rest = refl

deserialize_lem :
    (old : Message) (h : Header) (body : Bytes)
    → InWidth h
    → deserialize old (header_bytes h ++ body) ≡ read_body old h body
unfolding deserialize
deserialize_lem old h body w =
    let long : header_size ≤ length (header_bytes h ++ body) =
      omega (arith, length-append (header_bytes h) body, length-header_bytes h) in
    rw
      (
        not_ltb (length (header_bytes h ++ body)) header_size long,
        read_header-header_bytes h body w,
        drop-header_bytes h body,
        w.magic,
      )
      refl

read_body_lem :
    (old : Message) (m : Message) (rest : Bytes)
    → IsWellFormed m
    → read_body old m.header (encode_data m.entries ++ rest) ≡ (true, m)
unfolding read_body with_body
read_body_lem old m rest w =
    let body = encode_data m.entries in
    rw
      (not_ltb (length (body ++ rest)) m.header.length_field
        (omega (arith, length-append body rest, w.body_length)))
      (rw (w.body_length, take-append body rest)
        (rw
          (decode_data-encode_data m.entries
            (encode_data-Fits m.entries (omega (arith, w.body_length, w.widths.length_field)))
            w.sorted)
          refl))

-- A well-formed message survives serialize and deserialize, whatever the object held before and
-- whatever bytes follow the frame.
pub deserialize-serialize :
    (old m : Message) (rest : Bytes)
    → IsWellFormed m
    → deserialize old (serialize m ++ rest) ≡ (true, m)
unfolding serialize
deserialize-serialize old m rest w =
    rw (append_assoc (header_bytes m.header) (encode_data m.entries) rest) (
      deserialize_lem old m.header (encode_data m.entries ++ rest) w.widths
      ∙ read_body_lem old m rest w)

-- A well-formed message of less than 4 GiB survives the length-prefixed stream format, whatever
-- the object held before and whatever bytes follow.
pub deserialize_stream-serialize_stream :
    (old m : Message) (rest : Bytes)
    → IsWellFormed m
    → length (serialize m) < 2 ^ 32
    → deserialize_stream old (serialize_stream m ++ rest) ≡ (true, m)
unfolding deserialize_stream serialize_stream read_stream
deserialize_stream-serialize_stream old m rest w h =
    let s = serialize m in
    let n = length s % 2 ^ 32 in
    let e : n ≡ length s = omega arith in
    rw (not_ltb (length ((be32 n ++ s) ++ rest)) 4 (omega arith)) (
      rw (read32-be32 n (s ++ rest) (omega arith)) (
        rw e (
          rw (not_ltb (length (s ++ rest)) (length s) (omega (arith, length-append s rest)))
            (rw (take-append s rest, ← append-nil s) (deserialize-serialize old m [] w)))))
