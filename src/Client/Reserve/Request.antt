-- ===== src/Client/Reserve/Request.antt =====
-- The request of the command `reserve`, client/UserInterface.cpp: what the server reads of it, and
-- that it is a well-formed frame.
use protokol_javni_prevoz.Prelude.{
  ℕ, ◌<◌, ◌^◌, ◌≡◌, refl, ◌∙◌, ap, false, Option, none, some, [], arith, if◌then◌else◌, length, ◌≤◌,
  ◌+◌, suc, Bool-cases, inl, inr, zero,
}
use protokol_javni_prevoz.Prelude.Int.{pos}
use protokol_javni_prevoz.Result.{done}
use protokol_javni_prevoz.Text.{Str, str, is_empty, eq_str, compare_str}
use protokol_javni_prevoz.Text.Decimal.{nat_to_string, to_string, FitsInt, stoi-to_string}
use protokol_javni_prevoz.StdMap.{find, find-insert}
use protokol_javni_prevoz.Message.{
  Message, get_int, get_string, has_key, add_string, add_int, new, calculate_checksum,
  with_checksum,
}
use protokol_javni_prevoz.Message.Access.{get_int_found}
use protokol_javni_prevoz.Message.Factory.{create_reserve_seat, add_nonempty}
use protokol_javni_prevoz.Message.WellFormed.{
  IsWellFormed, new-IsWellFormed, add_string-IsWellFormed, calculate_checksum-IsWellFormed,
  length-encode_data-insert,
}
use protokol_javni_prevoz.Codec.{encode_data}
use protokol_javni_prevoz.Message.Kind
use protokol_javni_prevoz.Central.{get_string_or}
use protokol_javni_prevoz.Client.Commands.{reserve_request, parse_vehicle}

get_string_or_found :
    (m : Message) (key v : Str) → find key m.entries ≡ some v → get_string_or m key [] ≡ v
unfolding get_string_or get_string has_key
get_string_or_found m key v e = rw (e, has_key, get_string) refl

get_string_or_missing :
    (m : Message) (key : Str) → find key m.entries ≡ none → get_string_or m key [] ≡ []
unfolding get_string_or get_string has_key
get_string_or_missing m key e = rw (e, has_key, get_string) refl

module _ (type : ℕ) (uri urn : Str) where
  abbrev fields : Str → Option Str
  fields j =
      if eq_str j (str "urn")
      then some urn
      else if eq_str j (str "uri")
      then some uri
      else if eq_str j (str "vehicle_type")
      then some (to_string (pos type))
      else none

  reserve_request-find :
      (j : Str) → is_empty urn ≡ false → find j (reserve_request type uri urn).entries ≡ fields j
  unfolding reserve_request create_reserve_seat calculate_checksum with_checksum add_nonempty
      add_int add_string new find
  reserve_request-find j h = rw h (
      find-insert (str "urn") j urn _
      ∙ ap (λ o. if eq_str j (str "urn") then some urn else o)
          (find-insert (str "uri") j uri _
            ∙ ap (λ o. if eq_str j (str "uri") then some uri else o)
                (find-insert (str "vehicle_type") j (to_string (pos type)) [])))

  module _ (named : is_empty urn ≡ false) where
    -- What the server reads of it.
    pub type_read :
        FitsInt (pos type)
        → get_int (reserve_request type uri urn) (str "vehicle_type") ≡ done (pos type)
    unfolding eq_str compare_str str
    type_read fits =
        get_int_found _ (str "vehicle_type") _ (reserve_request-find (str "vehicle_type") named)
        ∙ stoi-to_string (pos type) fits

    pub urn_read : get_string_or (reserve_request type uri urn) (str "urn") [] ≡ urn
    unfolding eq_str compare_str str
    urn_read = get_string_or_found _ _ urn (reserve_request-find (str "urn") named)

    pub uri_read : get_string_or (reserve_request type uri urn) (str "uri") [] ≡ uri
    unfolding eq_str compare_str str
    uri_read = get_string_or_found _ _ uri (reserve_request-find (str "uri") named)

    pub route_read : get_string_or (reserve_request type uri urn) (str "route") [] ≡ []
    unfolding eq_str compare_str str
    route_read = get_string_or_missing _ _ (reserve_request-find (str "route") named)

pub reserve_request-type :
    (type : ℕ) (uri urn : Str) → (reserve_request type uri urn).header.type ≡ Kind.reserve_seat
unfolding reserve_request create_reserve_seat calculate_checksum with_checksum add_nonempty add_int
    add_string new
reserve_request-type type uri urn = elim (Bool-cases (is_empty urn)) [
  | inl e ↦ rw e refl
  | inr e ↦ rw e refl
]

-- The three vehicle types that can be typed.
pub parse_vehicle_range : (s : Str) (type : ℕ) → parse_vehicle s ≡ some type → type ≤ 3
unfolding parse_vehicle
parse_vehicle_range s type e = ground arith

length-to_string : (type : ℕ) → type ≤ 3 → length (to_string (pos type)) ≡ 1
unfolding to_string nat_to_string
length-to_string zero h = refl
length-to_string (suc zero) h = refl
length-to_string (suc (suc zero)) h = refl
length-to_string (suc (suc (suc zero))) h = refl
length-to_string (suc (suc (suc (suc n)))) h = absurd (omega arith)

-- A message that a text was added to is well-formed, and its body is not much longer.
abbrev Sized : ℕ → Message → Type 0
Sized n m = IsWellFormed m × (length (encode_data m.entries) ≤ n)

add_string-Sized :
    (n : ℕ) (key value : Str) (m : Message)
    → Sized n m
    → 8 + length key + length value + n < 2 ^ 32
    → Sized (8 + length key + length value + n) (add_string key value m)
unfolding add_string
add_string-Sized n key value m h l =
    let bound = length-encode_data-insert key value m.entries in
    (add_string-IsWellFormed key value m h.0 (omega (arith, h.1)), omega (arith, h.1))

calculate_checksum-Sized : (n : ℕ) (m : Message) → Sized n m → Sized n (calculate_checksum m)
unfolding calculate_checksum with_checksum
calculate_checksum-Sized n m h =
    (unfold calculate_checksum with_checksum in calculate_checksum-IsWellFormed m h.0, h.1)

new-Sized : (type : ℕ) → type < 2 ^ 16 → Sized 0 (new type)
unfolding new
new-Sized type h = (unfold new in new-IsWellFormed type h, unfold encode_data in omega arith)

module _ (type : ℕ) (uri urn : Str) (range : type ≤ 3)
    (short : length uri + length urn < 2 ^ 31) where
  pub reserve_request-IsWellFormed : IsWellFormed (reserve_request type uri urn)
  unfolding reserve_request create_reserve_seat add_nonempty add_int str
  reserve_request-IsWellFormed =
      let one = length-to_string type range in
      let first = new-Sized Kind.reserve_seat (omega arith) in
      let typed =
        calculate_checksum-Sized _ _
          (add_string-Sized 0 (str "vehicle_type") _ _ first (omega arith)) in
      let placed = add_string-Sized _ (str "uri") uri _ typed (omega arith) in
      elim (Bool-cases (is_empty urn)) [
        | inl e ↦ rw e (calculate_checksum-IsWellFormed _ placed.0)
        | inr e ↦ rw e (
            calculate_checksum-IsWellFormed _
              ((add_string-Sized _ (str "urn") urn _ placed (omega arith)).0))
      ]
