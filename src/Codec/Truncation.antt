-- ===== src/Codec/Truncation.antt =====
-- How decodeData treats bodies that stop short of a whole entry.
use protokol_javni_prevoz.Prelude.{ℕ, suc, ◌^◌, ◌<◌, ◌≡◌, refl, ◌∙◌, true, [], ◌++◌, arith, length}
use protokol_javni_prevoz.Text.{Str}
use protokol_javni_prevoz.StdMap.{StdMap, IsSorted}
use protokol_javni_prevoz.Codec.{
  be32, put_field, encode_data, read_text, read_field, broken, decode_loop, decode_data, Fits,
}
use protokol_javni_prevoz.Codec.RoundTrip.{
  decode_data-encode_data-append, decode_loop_fuel, read32-be32, read_field-put_field,
}

pub read_field_dangling : (n : ℕ) → 0 < n → n < 2 ^ 32 → read_field (be32 n) ≡ broken []
unfolding read_field read_text
read_field_dangling n p h = ground (arith, read32-be32 n [] h)

pub read_field-nil : read_field [] ≡ broken []
unfolding read_field
read_field-nil = refl

-- A body that ends directly behind the non-zero length of a key, after the entries of a map in
-- order whose texts are shorter than 4 GiB, is reported as valid, with the entries before it.
pub decode_data_dangling_key :
    (m : StdMap Str) (n : ℕ)
    → Fits m
    → IsSorted m
    → 0 < n
    → n < 2 ^ 32
    → decode_data (encode_data m ++ be32 n) ≡ (true, m)
unfolding decode_loop
decode_data_dangling_key m n f s p h =
    decode_data-encode_data-append m (be32 n) f s ∙ rw (read_field_dangling n p h, decode_loop) refl

-- A body that ends directly behind a key, with no value, after the entries of a map in order whose
-- texts are shorter than 4 GiB, is reported as valid, with the entries before it.
pub decode_data_missing_value :
    (m : StdMap Str) (key : Str)
    → Fits m
    → IsSorted m
    → length key < 2 ^ 32
    → decode_data (encode_data m ++ put_field key []) ≡ (true, m)
unfolding decode_loop
decode_data_missing_value m key f s h =
    let rest = put_field key [] in
    decode_data-encode_data-append m rest f s
    ∙ decode_loop_fuel (length rest) (suc (length rest)) rest m (omega arith) (omega arith)
    ∙ rw (read_field-put_field key [] h, decode_loop) (rw read_field-nil refl)
