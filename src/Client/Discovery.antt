-- ===== src/Client/Discovery.antt =====
-- discoverServer of client/UserInterface.cpp: what it makes of a datagram, and the server's answer.
use protokol_javni_prevoz.Prelude.{
  ℕ, ◌<◌, ◌-◌, ◌^◌, ◌≡◌, refl, ◌∙◌, ap, Bool, true, false, ◌||◌, Option, none, some, [], ◌∷◌, ◌++◌,
  ◌==◌, ltb, leb, arith, if◌then◌else◌,
}
use protokol_javni_prevoz.Prelude.Int.{ℤ, pos, negsuc, leb_ℤ, ltb_ℤ, sub_ℕ}
use protokol_javni_prevoz.Text.{Str, str, eq_str, compare_str}
use protokol_javni_prevoz.Text.Decimal.{
  to_string, nat_to_string, is_space, skip_space, is_digit, starts_digit, take_digits, ReadsBack,
  nat_to_string-ReadsBack,
}
use protokol_javni_prevoz.Central.Discovery.{announce, answer_datagram, strip_end, is_blank}

-- The datagram that is sent to the group.
abbrev pub discover : Str
discover = str "DISCOVER"

-- The text up to the next space, and the rest.
unfoldable pub take_word : Str → Str × Str
unfolding is_space
take_word [] = ([], [])
take_word (c ∷ s) =
    let more = take_word s in if is_space c then ([], c ∷ s) else (c ∷ more.0, more.1)

-- stream >> text.
unfoldable pub next_word : Str → Str × Str
unfolding take_word skip_space
next_word s = take_word (skip_space s)

-- A number beyond the range of `int` becomes the nearest one.
unfoldable pub clamp : Bool → ℕ → ℤ
clamp false n = if ltb n (2 ^ 31) then pos n else pos (2 ^ 31 - 1)
clamp true n = if leb n (2 ^ 31) then sub_ℕ 0 n else negsuc (2 ^ 31 - 1)

unfoldable pub read_digits : Bool → Str → ℤ
unfolding clamp starts_digit take_digits
read_digits negative s = if starts_digit s then clamp negative (take_digits 0 s) else pos 0

unfoldable pub read_signed : Str → ℤ
unfolding read_digits
read_signed [] = pos 0
read_signed (c ∷ s) =
    if c == b'-'
    then read_digits true s
    else if c == b'+'
    then read_digits false s
    else read_digits false (c ∷ s)

-- stream >> number, where the number was 0.
unfoldable pub next_int : Str → ℤ
unfolding read_signed skip_space
next_int s = read_signed (skip_space s)

-- The third word as a port, if it is one.
unfoldable pub parse_announce : Str → Option ℤ
unfolding next_word next_int
parse_announce answer =
    let port = next_int (next_word (next_word answer).1).1 in
    if leb_ℤ port (pos 0) || ltb_ℤ (pos 65535) port then none else some port

-- UserInterface::discoverServer, with the sender's address and the text that came before the timer
-- ran out, if one came.
unfoldable pub discover_server : Option (Str × Str) → Option (Str × ℤ)
unfolding parse_announce
discover_server none = none
discover_server (some (address, answer)) = elim (parse_announce answer) [
  | none ↦ none
  | some port ↦ some (address, port)
]

answered : (port : ℤ) → answer_datagram port discover ≡ some (announce port)
unfolding answer_datagram strip_end is_blank str eq_str compare_str
answered port = refl

skipped : (s : Str) → starts_digit s ≡ true → skip_space (b' ' ∷ s) ≡ s
unfolding skip_space is_space starts_digit is_digit
skipped [] h = cc
skipped (c ∷ s) h = ground arith

-- Behind the two words comes the number.
words_read :
    (s : Str)
    → next_int (next_word (next_word (str "ANNOUNCE central " ++ s)).1).1 ≡ next_int (b' ' ∷ s)
unfolding next_word take_word skip_space is_space str
words_read s = refl

number_read : (n : ℕ) (s : Str) → n < 2 ^ 31 → ReadsBack n s → read_signed s ≡ pos n
unfolding read_signed read_digits clamp starts_digit is_digit
number_read n [] h r = absurd (ground (arith, r.starts))
number_read n (c ∷ s) h r = ground (arith, r.starts, r.value)

-- What is made of the number.
abbrev accepted : Str → ℤ → Option (Str × ℤ)
accepted address port =
    elim (if leb_ℤ port (pos 0) || ltb_ℤ (pos 65535) port then none else some port) [
      | none ↦ none
      | some port ↦ some (address, port)
    ]

accepted_port :
    (address : Str) (port : ℕ)
    → accepted address (pos port)
      ≡ (if port == 0 || ltb 65535 port then none else some (address, pos port))
accepted_port address port = ground arith

-- The datagram of discoverServer makes the central server send its announcement, and when that
-- comes back, discoverServer finds the sender's address with the server's port; the port 0 and
-- those above 65535 are refused. The port fits an int and is not negative.
pub discover_server-announce :
    (address : Str) (port : ℕ)
    → port < 2 ^ 31
    → (answer_datagram (pos port) discover ≡ some (announce (pos port)))
      × (discover_server (some (address, announce (pos port)))
          ≡ (if port == 0 || ltb 65535 port then none else some (address, pos port)))
unfolding discover_server parse_announce announce to_string
discover_server-announce address port h =
    let r = nat_to_string-ReadsBack port (omega arith) in
    let read : next_int (next_word (next_word (str "ANNOUNCE central " ++ nat_to_string port)).1).1
        ≡ pos port =
      words_read (nat_to_string port)
      ∙ unfold next_int in
        (ap read_signed (skipped (nat_to_string port) r.starts)
          ∙ number_read port (nat_to_string port) h r) in
    (
      unfold announce to_string in answered (pos port),
      ap (accepted address) read ∙ accepted_port address port,
    )
