-- ===== src/Codec/RoundTrip.antt =====
-- encodeData and decodeData of common/Message.cpp together.
use Prim.Native.Nat.add
use native.Mathlib.Nat.{zero-add}
use mathlib.Core.List.{append_assoc, append-nil}
use protokol_javni_prevoz.Prelude.{
  ℕ, zero, suc, ◌+◌, ◌%◌, ◌^◌, ◌≤◌, ◌<◌, ◌≡◌, refl, ◌∙◌, ◌⊎◌, inl, inr, true, [], ◌∷◌, ◌++◌, arith,
  not_ltb, length, drop, take-append, drop-append, length-append, length-drop, ap,
}
use protokol_javni_prevoz.Text.{Str}
use protokol_javni_prevoz.StdMap.{StdMap, insert, IsSorted}
use protokol_javni_prevoz.StdMap.Append.{insert_all, insert_all-nil}
use protokol_javni_prevoz.Codec.{
  Bytes, be32, read32, Field, broken, field, put_field, encode_data, read_text, read_field,
  decode_loop, decode_data, Fits,
}

pub read32-be32 : (w : ℕ) (rest : Bytes) → w < 2 ^ 32 → read32 (be32 w ++ rest) ≡ w
read32-be32 w rest h = omega arith

read_text-append : (s rest : Bytes) → read_text (length s) (s ++ rest) ≡ field s rest
unfolding read_text
read_text-append s rest = rw (
  not_ltb (length (s ++ rest)) (length s) (omega (arith, length-append s rest)),
  take-append s rest,
  drop-append s rest,
)

pub read_field-put_field :
    (s rest : Bytes) → length s < 2 ^ 32 → read_field (put_field s rest) ≡ field s rest
unfolding read_field put_field
read_field-put_field s rest h =
    rw (not_ltb (length (be32 (length s % 2 ^ 32) ++ (s ++ rest))) 4 (omega arith)) (
      rw (read32-be32 (length s % 2 ^ 32) (s ++ rest) (omega arith))
        (let e : length s % 2 ^ 32 ≡ length s = omega arith in rw e (read_text-append s rest)))

pub decode_loop-put_field :
    (f : ℕ) (k v rest : Bytes) (acc : StdMap Str)
    → length k < 2 ^ 32
    → length v < 2 ^ 32
    → decode_loop (suc f) (put_field k (put_field v rest)) acc ≡ decode_loop f rest (insert k v acc)
unfolding decode_loop
decode_loop-put_field f k v rest acc hk hv =
    ground (arith, read_field-put_field k (put_field v rest) hk, read_field-put_field v rest hv)

pub put_field-append : (s rest t : Bytes) → put_field s rest ++ t ≡ put_field s (rest ++ t)
unfolding put_field
put_field-append s rest t = ap (λ l. be32 (length s % 2 ^ 32) ++ l) (append_assoc s rest t)

-- What stands behind an encoded map is decoded next.
pub decode_loop-encode_data :
    (m : StdMap Str) (f : ℕ) (acc : StdMap Str) (rest : Bytes)
    → Fits m
    → decode_loop (length m + f) (encode_data m ++ rest) acc ≡ decode_loop f rest (insert_all m acc)
unfolding encode_data insert_all
decode_loop-encode_data [] f acc rest h = rw zero-add
decode_loop-encode_data ((k, v) ∷ m) f acc rest h =
    rw
      (
        add.suc (length m) f,
        put_field-append k (put_field v (encode_data m)) rest,
        put_field-append v (encode_data m) rest,
        decode_loop-put_field (length m + f) k v (encode_data m ++ rest) acc h.0 h.1,
      )
      (decode_loop-encode_data m f (insert k v acc) rest h.2)

pub read_field_shrinks :
    (s key behind : Bytes) → read_field s ≡ field key behind → length behind < length s
unfolding read_field read_text
read_field_shrinks s key behind e =
    ground (arith, length-drop 4 s, length-drop (read32 s) (drop 4 s))

abbrev pub FieldCases : Field → Type 0
FieldCases x =
    ((left : Bytes) × (x ≡ broken left)) ⊎ ((key : Str) × (behind : Bytes) × (x ≡ field key behind))

pub Field-cases : (x : Field) → FieldCases x
Field-cases (broken left) = inl (left, refl)
Field-cases (field key behind) = inr (key, behind, refl)

-- Any two numbers of rounds that are at least the number of bytes left give the same result, so
-- decodeData never stops for want of rounds.
pub decode_loop_fuel :
    (f g : ℕ) (rest : Bytes) (acc : StdMap Str)
    → length rest ≤ f
    → length rest ≤ g
    → decode_loop f rest acc ≡ decode_loop g rest acc
unfolding decode_loop read_field
decode_loop_fuel zero zero rest acc h k = refl
decode_loop_fuel zero (suc g) [] acc h k = refl
decode_loop_fuel zero (suc g) (b ∷ rest) acc h k = absurd (omega arith)
decode_loop_fuel (suc f) zero [] acc h k = refl
decode_loop_fuel (suc f) zero (b ∷ rest) acc h k = absurd (omega arith)
decode_loop_fuel (suc f) (suc g) rest acc h k = elim (Field-cases (read_field rest)) [
  | inl (left, e) ↦ rw (e, decode_loop) refl
  | inr (key, behind, e) ↦ elim (Field-cases (read_field behind)) [
    | inl (left, d) ↦ rw (e, decode_loop) (rw d refl)
    | inr (value, left, d) ↦
        rw (e, decode_loop)
          (rw d (
            let shorter = read_field_shrinks behind value left d in
            let short = read_field_shrinks rest key behind e in
            decode_loop_fuel f g left (insert key value acc) (omega arith) (omega arith)))
  ]
]

-- decodeData of an encoded map with anything behind it goes on with what stands behind.
pub decode_data-encode_data-append :
    (m : StdMap Str) (rest : Bytes)
    → Fits m
    → IsSorted m
    → decode_data (encode_data m ++ rest) ≡ decode_loop (length rest) rest m
unfolding decode_data
decode_data-encode_data-append m rest h s =
    let all = encode_data m ++ rest in
    decode_loop_fuel (length all) (length m + (length all + length rest)) all [] (omega arith)
      (omega arith)
    ∙ decode_loop-encode_data m (length all + length rest) [] rest h
    ∙ rw (insert_all-nil m s) (
        decode_loop_fuel (length all + length rest) (length rest) rest m (omega arith)
          (omega arith))

-- For a map in order whose keys and values are shorter than 4 GiB, decodeData reads back exactly
-- the map that encodeData wrote, and takes the body as valid.
pub decode_data-encode_data :
    (m : StdMap Str) → Fits m → IsSorted m → decode_data (encode_data m) ≡ (true, m)
unfolding decode_loop
decode_data-encode_data m h s =
    rw (← append-nil (encode_data m)) (decode_data-encode_data-append m [] h s)
