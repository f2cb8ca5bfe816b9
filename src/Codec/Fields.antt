-- ===== src/Codec/Fields.antt =====
-- One length with its text, as decodeData of common/Message.cpp reads it from any bytes.
use protokol_javni_prevoz.Prelude.{
  ℕ, zero, suc, ◌+◌, ◌*◌, ◌/◌, ◌%◌, ◌^◌, ◌≤◌, ◌<◌, ◌≡◌, refl, sym, ◌∙◌, ap, subst, ◌⊎◌, inl, inr,
  true, [], ◌∷◌, ◌++◌, arith, ltb, length, take, drop, Bool-cases, length-take, append-take-drop,
  not_ltb, if◌then◌else◌,
}
use protokol_javni_prevoz.Text.{Str, is_empty}
use protokol_javni_prevoz.Codec.{
  Bytes, AreBytes, be32, read32, broken, field, put_field, read_text, read_field,
}

be32-read32 :
    (a b c d : ℕ)
    → a < 256
    → b < 256
    → c < 256
    → d < 256
    → be32 (read32 (a ∷ b ∷ c ∷ d ∷ [])) ≡ a ∷ b ∷ c ∷ d ∷ []
be32-read32 a b c d ha hb hc hd =
    let n = a * 2 ^ 24 + b * 2 ^ 16 + c * 2 ^ 8 + d in
    let ea : n / 2 ^ 24 % 256 ≡ a = omega (arith, ha, hb, hc, hd) in
    let eb : n / 2 ^ 16 % 256 ≡ b = omega (arith, ha, hb, hc, hd) in
    let ec : n / 2 ^ 8 % 256 ≡ c = omega (arith, ha, hb, hc, hd) in
    let ed : n % 256 ≡ d = omega (arith, ha, hb, hc, hd) in rw (ea, eb, ec, ed) refl

AreBytes-drop : (n : ℕ) (s : Bytes) → AreBytes s → AreBytes (drop n s)
AreBytes-drop zero s h = h
AreBytes-drop (suc n) [] h = tt
AreBytes-drop (suc n) (b ∷ s) h = AreBytes-drop n s h.1

-- A field that was read is the field that would be written.
pub record WasField (s : Bytes) (key : Str) (behind : Bytes) : Type 0 where
  pub written : s ≡ put_field key behind
  pub short : length key < 2 ^ 32
  pub bytes : AreBytes behind

pub record WasCut (s : Bytes) : Type 0 where
  pub shape : (s ≡ []) ⊎ ((n : ℕ) × (0 < n) × (n < 2 ^ 32) × (s ≡ be32 n))

read_text-field :
    (n : ℕ) (t : Bytes) (key : Str) (behind : Bytes)
    → read_text n t ≡ field key behind
    → (n ≤ length t) × (take n t ≡ key) × (drop n t ≡ behind)
unfolding read_text
read_text-field n t key behind e = elim (Bool-cases (ltb (length t) n)) [
  | inl l ↦ absurd (ground (arith, l, e))
  | inr l ↦ (ground (arith, l), ground (arith, l, e), ground (arith, l, e))
]

read_text-broken :
    (n : ℕ) (t left : Bytes) → read_text n t ≡ broken left → (length t < n) × (t ≡ left)
unfolding read_text
read_text-broken n t left e = elim (Bool-cases (ltb (length t) n)) [
  | inl l ↦ (ground (arith, l), ground (arith, l, e))
  | inr l ↦ absurd (ground (arith, l, e))
]

read_field-read_text :
    (a b c d : ℕ) (t : Bytes)
    → read_field (a ∷ b ∷ c ∷ d ∷ t) ≡ read_text (read32 (a ∷ b ∷ c ∷ d ∷ [])) t
unfolding read_field
read_field-read_text a b c d t =
    ap
      (λ short.
        if short then broken (a ∷ b ∷ c ∷ d ∷ t) else read_text (read32 (a ∷ b ∷ c ∷ d ∷ [])) t)
      (not_ltb (length (a ∷ b ∷ c ∷ d ∷ t)) 4 (omega arith))

pub read_field-WasField :
    (s : Bytes) (key : Str) (behind : Bytes)
    → AreBytes s
    → read_field s ≡ field key behind
    → WasField s key behind
unfolding read_field put_field
read_field-WasField [] key behind h e = absurd (ground (arith, e))
read_field-WasField (a ∷ []) key behind h e = absurd (ground (arith, e))
read_field-WasField (a ∷ b ∷ []) key behind h e = absurd (ground (arith, e))
read_field-WasField (a ∷ b ∷ c ∷ []) key behind h e = absurd (ground (arith, e))
read_field-WasField (a ∷ b ∷ c ∷ d ∷ t) key behind h e =
    let n = read32 (a ∷ b ∷ c ∷ d ∷ []) in
    let r = read_text-field n t key behind (sym (read_field-read_text a b c d t) ∙ e) in
    let long : length key ≡ n = ap length (sym r.1) ∙ length-take n t r.0 in
    let small : n < 2 ^ 32 = omega (arith, h.0, h.1.0, h.1.1.0, h.1.1.1.0) in
    let width : length key % 2 ^ 32 ≡ n = omega (arith, long, small) in
    record {
      written =
          sym (ap (λ l. l ++ t) (be32-read32 a b c d h.0 h.1.0 h.1.1.0 h.1.1.1.0))
          ∙ ap (λ m. be32 m ++ t) (sym width)
          ∙ ap (λ l. be32 (length key % 2 ^ 32) ++ l)
              (sym (append-take-drop n t) ∙ ap (λ k. k ++ drop n t) r.1 ∙ ap (λ l. key ++ l) r.2);
      short = omega (arith, long, small);
      bytes = subst AreBytes r.2 (AreBytes-drop n t h.1.1.1.1);
    }

pub read_field-WasCut :
    (s left : Bytes) → AreBytes s → read_field s ≡ broken left → is_empty left ≡ true → WasCut s
unfolding read_field
read_field-WasCut [] left h e l = record { shape = inl refl }
read_field-WasCut (a ∷ []) left h e l = absurd (ground (arith, e, l))
read_field-WasCut (a ∷ b ∷ []) left h e l = absurd (ground (arith, e, l))
read_field-WasCut (a ∷ b ∷ c ∷ []) left h e l = absurd (ground (arith, e, l))
read_field-WasCut (a ∷ b ∷ c ∷ d ∷ []) left h e l =
    let n = read32 (a ∷ b ∷ c ∷ d ∷ []) in
    let r = read_text-broken n [] left (sym (read_field-read_text a b c d []) ∙ e) in
    record {
      shape = inr (
        n,
        r.0,
        omega (arith, h.0, h.1.0, h.1.1.0, h.1.1.1.0),
        sym (be32-read32 a b c d h.0 h.1.0 h.1.1.0 h.1.1.1.0),
      );
    }
read_field-WasCut (a ∷ b ∷ c ∷ d ∷ x ∷ t) left h e l =
    let r =
      read_text-broken (read32 (a ∷ b ∷ c ∷ d ∷ [])) (x ∷ t) left
        (sym (read_field-read_text a b c d (x ∷ t)) ∙ e) in
    absurd (let q = r.1 in ground (arith, q, l))
