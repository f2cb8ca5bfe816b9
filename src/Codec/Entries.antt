-- ===== src/Codec/Entries.antt =====
-- What decodeData of common/Message.cpp makes of any bytes: the whole entries at their front, and what
-- is left behind them.
use protokol_javni_prevoz.Prelude.{
  ℕ, zero, suc, ◌^◌, ◌≤◌, ◌<◌, ◌≡◌, ◌≢◌, ◌↔◌, refl, sym, ◌∙◌, ap, subst, inl, inr, Bool, true, [],
  ◌∷◌, ◌++◌, arith, length,
}
use protokol_javni_prevoz.Text.{Str, is_empty}
use protokol_javni_prevoz.StdMap.{StdMap, insert}
use protokol_javni_prevoz.StdMap.Append.{insert_all}
use protokol_javni_prevoz.Codec.{
  Bytes, AreBytes, be32, Field, broken, field, put_field, encode_data, read_field, decode_loop,
  decode_data, Fits,
}
use protokol_javni_prevoz.Codec.RoundTrip.{
  read_field-put_field, put_field-append, read_field_shrinks, Field-cases,
}
use protokol_javni_prevoz.Codec.Truncation.{read_field_dangling, read_field-nil}
use protokol_javni_prevoz.Codec.Fields.{WasField, WasCut, read_field-WasField, read_field-WasCut}

-- No key with a value stands at the front of the bytes.
abbrev pub NoEntry : Bytes → Type 0
NoEntry left =
    (key value : Str) (behind : Bytes)
    → length key < 2 ^ 32
    → length value < 2 ^ 32
    → left ≢ put_field key (put_field value behind)

-- The bytes end behind an entry, behind the length of a key or value that is not empty, or behind a
-- key.
pub data Cut : Bytes → Type 0 where
  at_end : Cut []
  behind_key_length : (n : ℕ) → 0 < n → n < 2 ^ 32 → Cut (be32 n)
  behind_key : (key : Str) → length key < 2 ^ 32 → Cut (put_field key [])
  behind_value_length :
      (key : Str) (n : ℕ) → length key < 2 ^ 32 → 0 < n → n < 2 ^ 32 → Cut (put_field key (be32 n))

-- The entries in the order of the bytes, what is left, the map, and the flag.
pub record Decoded (bytes : Bytes) (acc : StdMap Str) (r : Bool × StdMap Str) : Type 0 where
  pub entries : StdMap Str
  pub left : Bytes
  pub front : bytes ≡ encode_data entries ++ left
  pub fits : Fits entries
  pub none_left : NoEntry left
  pub filled : r.1 ≡ insert_all entries acc
  pub flag : (r.0 ≡ true) ↔ Cut left

abbrev left_of : Field → Bytes
left_of (broken left) = left
left_of (field key behind) = behind

differ : (left behind : Bytes) (key : Str) → broken left ≡ field key behind → ⊥
differ left behind key e = cc

is_empty-left :
    (s left : Bytes) → read_field s ≡ broken left → read_field s ≡ broken [] → is_empty left ≡ true
is_empty-left s left e q = ap is_empty (ap left_of (sym e ∙ q))

none_at_broken : (rest left : Bytes) → read_field rest ≡ broken left → NoEntry rest
none_at_broken rest left e key value behind hk hv w =
    differ left (put_field value behind) key
      (sym e ∙ ap read_field w ∙ read_field-put_field key (put_field value behind) hk)

none_behind_key :
    (rest left : Bytes) (key : Str) (behind : Bytes)
    → read_field rest ≡ field key behind
    → read_field behind ≡ broken left
    → NoEntry rest
none_behind_key rest left key behind e d key' value behind' hk hv w =
    let next : behind ≡ put_field value behind' =
      ap left_of
        (sym e ∙ ap read_field w ∙ read_field-put_field key' (put_field value behind') hk) in
    differ left behind' value (sym d ∙ ap read_field next ∙ read_field-put_field value behind' hv)

Cut-broken :
    {rest : Bytes} (left : Bytes) → Cut rest → read_field rest ≡ broken left → is_empty left ≡ true
Cut-broken left at_end e = is_empty-left [] left e read_field-nil
Cut-broken left (behind_key_length n p h) e =
    is_empty-left (be32 n) left e (read_field_dangling n p h)
Cut-broken left (behind_key key h) e =
    absurd (differ left [] key (sym e ∙ read_field-put_field key [] h))
Cut-broken left (behind_value_length key n h p q) e =
    absurd (differ left (be32 n) key (sym e ∙ read_field-put_field key (be32 n) h))

Cut-field :
    {rest : Bytes} (left : Bytes) (key : Str) (behind : Bytes)
    → Cut rest
    → read_field rest ≡ field key behind
    → read_field behind ≡ broken left
    → is_empty left ≡ true
Cut-field left key behind at_end e d = absurd (differ [] behind key (sym read_field-nil ∙ e))
Cut-field left key behind (behind_key_length n p h) e d =
    absurd (differ [] behind key (sym (read_field_dangling n p h) ∙ e))
Cut-field left key behind (behind_key key' h) e d =
    let same : behind ≡ [] = ap left_of (sym e ∙ read_field-put_field key' [] h) in
    is_empty-left behind left d (ap read_field same ∙ read_field-nil)
Cut-field left key behind (behind_value_length key' n h p q) e d =
    let same : behind ≡ be32 n = ap left_of (sym e ∙ read_field-put_field key' (be32 n) h) in
    is_empty-left behind left d (ap read_field same ∙ read_field_dangling n p q)

WasCut-Cut : (s : Bytes) → WasCut s → Cut s
WasCut-Cut s w = elim w.shape [
  | inl e ↦ subst Cut (sym e) at_end
  | inr (n, p, h, e) ↦ subst Cut (sym e) (behind_key_length n p h)
]

WasCut-behind_key : (key : Str) (s : Bytes) → length key < 2 ^ 32 → WasCut s → Cut (put_field key s)
WasCut-behind_key key s h w = elim w.shape [
  | inl e ↦ subst (λ s. Cut (put_field key s)) (sym e) (behind_key key h)
  | inr (n, p, q, e) ↦ subst (λ s. Cut (put_field key s)) (sym e) (behind_value_length key n h p q)
]

-- The loop stops with nothing more to decode.
stopped :
    (rest : Bytes) (acc : StdMap Str) (b : Bool)
    → NoEntry rest
    → (b ≡ true) ↔ Cut rest
    → Decoded rest acc (b, acc)
unfolding encode_data insert_all
stopped rest acc b n f = record {
  entries = [];
  left = rest;
  front = refl;
  fits = tt;
  none_left = n;
  filled = refl;
  flag = f;
}

with_entry :
    (key value : Str) (rest behind left : Bytes) (acc : StdMap Str) (r : Bool × StdMap Str)
    → WasField rest key behind
    → WasField behind value left
    → Decoded left (insert key value acc) r
    → Decoded rest acc r
unfolding encode_data insert_all
with_entry key value rest behind left acc r w v d = record {
  entries = (key, value) ∷ d.entries;
  left = d.left;
  front =
      w.written
      ∙ ap (put_field key) (v.written ∙ ap (put_field value) d.front)
      ∙ ap (put_field key) (sym (put_field-append value (encode_data d.entries) d.left))
      ∙ sym (put_field-append key (put_field value (encode_data d.entries)) d.left);
  fits = (w.short, v.short, d.fits);
  none_left = d.none_left;
  filled = d.filled;
  flag = d.flag;
}

decode_loop-Decoded :
    (f : ℕ) (rest : Bytes) (acc : StdMap Str)
    → AreBytes rest
    → length rest ≤ f
    → Decoded rest acc (decode_loop f rest acc)
unfolding decode_loop
decode_loop-Decoded zero [] acc h k =
    stopped [] acc true (none_at_broken [] [] read_field-nil) (λ e. at_end, λ c. refl)
decode_loop-Decoded zero (b ∷ rest) acc h k = absurd (omega (arith, k))
decode_loop-Decoded (suc f) rest acc h k = elim (Field-cases (read_field rest)) [
  | inl (left, e) ↦
      rw (e, decode_loop)
        (stopped rest acc (is_empty left) (none_at_broken rest left e)
          (λ b. WasCut-Cut rest (read_field-WasCut rest left h e b), λ c. Cut-broken left c e))
  | inr (key, behind, e) ↦
      let w = read_field-WasField rest key behind h e in
      elim (Field-cases (read_field behind)) [
        | inl (left, d) ↦
            rw (e, decode_loop)
              (rw d (
                stopped rest acc (is_empty left) (none_behind_key rest left key behind e d) (
                  λ b. subst Cut (sym w.written) (
                      WasCut-behind_key key behind w.short
                        (read_field-WasCut behind left w.bytes d b)),
                  λ c. Cut-field left key behind c e d,
                )))
        | inr (value, left, d) ↦
            let v = read_field-WasField behind value left w.bytes d in
            let shorter = read_field_shrinks behind value left d in
            let short = read_field_shrinks rest key behind e in
            rw (e, decode_loop)
              (rw d (
                with_entry key value rest behind left acc _ w v (
                  decode_loop-Decoded f left (insert key value acc) v.bytes
                    (omega (arith, k, shorter, short)))))
      ]
]

-- Whatever the bytes, decodeData finds the whole entries at their front: the bytes are the
-- encoding of some entries, in that order and each of its texts below 4 GiB, with something behind
-- them that begins with no whole entry; the map is filled with exactly these entries, in that
-- order. It reports the bytes as valid exactly when they end behind an entry, behind a key, or
-- behind the length of a key or value that is not empty.
pub decode_data-Decoded : (bytes : Bytes) → AreBytes bytes → Decoded bytes [] (decode_data bytes)
unfolding decode_data
decode_data-Decoded bytes h = decode_loop-Decoded (length bytes) bytes [] h (omega arith)
