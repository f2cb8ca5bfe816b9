-- ===== src/Text/Decimal.antt =====
-- std::to_string(int) and std::stoi in base 10.
use protokol_javni_prevoz.Prelude.{
  ℕ, zero, suc, ◌+◌, ◌-◌, ◌*◌, ◌/◌, ◌%◌, ◌^◌, ◌<◌, ◌≡◌, refl, Bool, true, false, ◌&&◌, ◌||◌, [],
  ◌∷◌, ◌++◌, arith, ltb, leb, ◌==◌, if◌then◌else◌, ◌≢◌,
}
use protokol_javni_prevoz.Prelude.Int.{ℤ, pos, negsuc, sub_ℕ}
use protokol_javni_prevoz.Result.{Result, done, threw, invalid_argument, out_of_range, blocked}
use protokol_javni_prevoz.Text.{Str}

-- Twenty rounds write every number below 10 ^ 20, so every 64-bit value.
digits : ℕ → ℕ → Str
digits zero n = []
digits (suc f) n =
    let rest = digits f (n / 10) in
    if ltb n 10 then (b'0' + n) ∷ [] else rest ++ (b'0' + n % 10) ∷ []

unfoldable pub nat_to_string : ℕ → Str
unfolding digits
nat_to_string n = digits 20 n

-- std::to_string(int).
unfoldable pub to_string : ℤ → Str
to_string (pos n) = nat_to_string n
to_string (negsuc n) = b'-' ∷ nat_to_string (n + 1)

unfoldable pub is_digit : ℕ → Bool
is_digit c = leb b'0' c && leb c b'9'

-- isspace in the C locale.
unfoldable pub is_space : ℕ → Bool
is_space c = c == 32 || leb 9 c && leb c 13

unfoldable pub skip_space : Str → Str
unfolding is_space
skip_space [] = []
skip_space (c ∷ s) = if is_space c then skip_space s else c ∷ s

unfoldable pub take_digits : ℕ → Str → ℕ
unfolding is_digit
take_digits acc [] = acc
take_digits acc (c ∷ s) =
    let rest = take_digits (acc * 10 + (c - b'0')) s in if is_digit c then rest else acc

unfoldable pub starts_digit : Str → Bool
unfolding is_digit
starts_digit [] = false
starts_digit (c ∷ s) = is_digit c

-- The value with its sign, if it fits an `int`.
in_int_range : Bool → ℕ → Result ℤ
in_int_range false n = if ltb n (2 ^ 31) then done (pos n) else threw out_of_range
in_int_range true n = if leb n (2 ^ 31) then done (sub_ℕ 0 n) else threw out_of_range

read_int : Bool → Str → Result ℤ
unfolding starts_digit take_digits in_int_range
read_int neg s =
    if starts_digit s then in_int_range neg (take_digits 0 s) else threw invalid_argument

read_sign : Str → Result ℤ
unfolding read_int
read_sign [] = threw invalid_argument
read_sign (c ∷ s) =
    if c == b'-'
    then read_int true s
    else if c == b'+'
    then read_int false s
    else read_int false (c ∷ s)

-- std::stoi.
unfoldable pub stoi : Str → Result ℤ
unfolding skip_space read_sign
stoi s = read_sign (skip_space s)

read_int_returns : (neg : Bool) (s : Str) → read_int neg s ≢ blocked
unfolding read_int in_int_range
read_int_returns false s e = ground arith
read_int_returns true s e = ground arith

read_sign_returns : (s : Str) → read_sign s ≢ blocked
unfolding read_sign
read_sign_returns [] e = cc
read_sign_returns (c ∷ s) e =
    ground
      (arith, read_int_returns true s, read_int_returns false s, read_int_returns false (c ∷ s))

-- It returns or throws.
pub stoi_returns : (s : Str) → stoi s ≢ blocked
unfolding stoi
stoi_returns s e = read_sign_returns (skip_space s) e

abbrev pub AllDigits : Str → Type 0
AllDigits [] = Unit {0}
AllDigits (c ∷ s) = (is_digit c ≡ true) × AllDigits s

AllDigits-append : (s t : Str) → AllDigits s → AllDigits t → AllDigits (s ++ t)
AllDigits-append [] t h k = k
AllDigits-append (c ∷ s) t h k = (h.0, AllDigits-append s t h.1 k)

digits-AllDigits : (f n : ℕ) → AllDigits (digits f n)
unfolding digits is_digit
digits-AllDigits zero n = tt
digits-AllDigits (suc f) n = ground (
  arith,
  digits-AllDigits f (n / 10),
  AllDigits-append (digits f (n / 10)) ((b'0' + n % 10) ∷ []),
)

pub nat_to_string-AllDigits : (n : ℕ) → AllDigits (nat_to_string n)
unfolding nat_to_string
nat_to_string-AllDigits n = digits-AllDigits 20 n

take_digits-append :
    (s t : Str) (acc : ℕ)
    → AllDigits s
    → take_digits acc (s ++ t) ≡ take_digits (take_digits acc s) t
unfolding take_digits
take_digits-append [] t acc h = refl
take_digits-append (c ∷ s) t acc h =
    ground (arith, take_digits-append s t (acc * 10 + (c - b'0')) h.1)

take_digits-digits : (f n : ℕ) → n < 10 ^ f → take_digits 0 (digits f n) ≡ n
unfolding digits take_digits is_digit
take_digits-digits zero n h = omega arith
take_digits-digits (suc f) n h = ground (
  arith,
  take_digits-digits f (n / 10),
  take_digits-append (digits f (n / 10)) ((b'0' + n % 10) ∷ []) 0 (digits-AllDigits f (n / 10)),
)

digits_start : (f n : ℕ) → n < 10 ^ suc f → starts_digit (digits (suc f) n) ≡ true
unfolding digits starts_digit
digits_start zero n h = ground arith
digits_start (suc f) n h = ground (arith, digits_start f (n / 10))

read_sign_digits : (s : Str) → starts_digit s ≡ true → read_sign (skip_space s) ≡ read_int false s
unfolding read_sign skip_space starts_digit
read_sign_digits [] h = cc
read_sign_digits (c ∷ s) h = ground arith

abbrev pub FitsInt : ℤ → Type 0
FitsInt (pos n) = n < 2 ^ 31
FitsInt (negsuc n) = n < 2 ^ 31

pub record ReadsBack (n : ℕ) (s : Str) : Type 0 where
  pub starts : starts_digit s ≡ true
  pub value : take_digits 0 s ≡ n

pub nat_to_string-ReadsBack : (n : ℕ) → n < 10 ^ 20 → ReadsBack n (nat_to_string n)
nat_to_string-ReadsBack n h = record {
  starts = unfold nat_to_string in digits_start 19 n h;
  value = unfold nat_to_string in take_digits-digits 20 n h;
}

read_int_lem : (neg : Bool) (n : ℕ) (s : Str) → ReadsBack n s → read_int neg s ≡ in_int_range neg n
unfolding read_int
read_int_lem neg n s r = rw (r.starts, r.value) refl

-- What std::to_string prints for a number that fits an `int`, std::stoi reads back.
pub stoi-to_string : (z : ℤ) → FitsInt z → stoi (to_string z) ≡ done z
unfolding stoi to_string in_int_range
stoi-to_string (pos n) h =
    let r = nat_to_string-ReadsBack n (omega arith) in
    rw (read_sign_digits (nat_to_string n) r.starts, read_int_lem false n _ r) (ground arith)
stoi-to_string (negsuc n) h =
    rw (read_int_lem true (n + 1) _ (nat_to_string-ReadsBack (n + 1) (omega arith))) (ground arith)
