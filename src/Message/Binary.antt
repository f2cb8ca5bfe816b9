-- ===== src/Message/Binary.antt =====
-- Message::addBinary and getBinary, common/Message.cpp: bytes as decimal numbers with commas between
-- them.
use protokol_javni_prevoz.Prelude.{
  ℕ, ◌≡◌, refl, sym, ◌∙◌, ap, true, false, none, some, List, [], ◌∷◌, ◌++◌, arith,
}
use mathlib.Core.List.{append-nil}
use protokol_javni_prevoz.Prelude.Int.{ℤ, pos, to_byte}
use protokol_javni_prevoz.Result.{Result, done, threw, blocked}
use protokol_javni_prevoz.Text.{Str, eq_str_refl, is_empty}
use protokol_javni_prevoz.Text.Decimal.{
  to_string, nat_to_string, stoi, is_digit, starts_digit, AllDigits, nat_to_string-AllDigits,
  nat_to_string-ReadsBack, stoi-to_string,
}
use protokol_javni_prevoz.Text.Split.{
  split_string, AllWords, Lacks, terminate, join, split_string-join,
}
use protokol_javni_prevoz.Codec.{AreBytes}
use protokol_javni_prevoz.StdMap.{find, find-insert}
use protokol_javni_prevoz.Message.{Message, add_string}

abbrev pub comma : ℕ
comma = b','

-- The loop over the bytes.
unfoldable pub encode_bytes : List ℕ → Str
encode_bytes [] = []
encode_bytes (b ∷ bs) = nat_to_string b ++ comma ∷ encode_bytes bs

-- `if (!encoded.empty()) encoded.pop_back();`
unfoldable pub pop_back : Str → Str
pop_back [] = []
pop_back (c ∷ []) = []
pop_back (c ∷ d ∷ s) = c ∷ pop_back (d ∷ s)

-- Message::addBinary.
unfoldable pub add_binary : Str → List ℕ → Message → Message
add_binary key bytes = add_string key (pop_back (encode_bytes bytes))

abbrev also_byte : Result ℤ → Result (List ℕ) → Result (List ℕ)
also_byte (done z) (done bs) = done (to_byte z ∷ bs)
also_byte (done z) (threw e) = threw e
also_byte (done z) blocked = blocked
also_byte (threw e) r = threw e
also_byte blocked r = blocked

-- The loop over the tokens; the first that std::stoi refuses ends it.
unfoldable pub read_bytes : List Str → Result (List ℕ)
read_bytes [] = done []
read_bytes (token ∷ tokens) = also_byte (stoi token) (read_bytes tokens)

-- Message::getBinary.
unfoldable pub get_binary : Message → Str → Result (List ℕ)
get_binary m key = elim (find key m.entries) [
  | none ↦ done []
  | some text ↦ read_bytes (split_string text comma)
]

abbrev texts : List ℕ → List Str
texts [] = []
texts (b ∷ bs) = nat_to_string b ∷ texts bs

encode_bytes-terminate : (bs : List ℕ) → encode_bytes bs ≡ terminate comma (texts bs)
unfolding encode_bytes
encode_bytes-terminate [] = refl
encode_bytes-terminate (b ∷ bs) = ap (λ s. nat_to_string b ++ comma ∷ s) (encode_bytes-terminate bs)

pop_back-append :
    (w : Str) (d : ℕ) (s : Str) → is_empty s ≡ false → pop_back (w ++ s) ≡ w ++ pop_back s
unfolding pop_back
pop_back-append [] d s h = refl
pop_back-append (c ∷ []) d [] h = cc
pop_back-append (c ∷ []) d (x ∷ s) h = refl
pop_back-append (c ∷ e ∷ w) d s h = ap (λ l. c ∷ l) (pop_back-append (e ∷ w) d s h)

is_empty-append : (v : Str) (d : ℕ) (s : Str) → is_empty (v ++ d ∷ s) ≡ false
is_empty-append [] d s = refl
is_empty-append (c ∷ v) d s = refl

pop_back-terminate : (d : ℕ) (ws : List Str) → pop_back (terminate d ws) ≡ join d ws
unfolding pop_back
pop_back-terminate d [] = refl
pop_back-terminate d (w ∷ []) = pop_back-append w d (d ∷ []) refl ∙ append-nil w
pop_back-terminate d (w ∷ v ∷ ws) =
    pop_back-append w d (d ∷ terminate d (v ∷ ws)) refl
    ∙ ap (λ s. w ++ s)
        (pop_back-append (d ∷ []) d (terminate d (v ∷ ws)) (is_empty-append v d (terminate d ws))
          ∙ ap (λ s. d ∷ s) (pop_back-terminate d (v ∷ ws)))

Lacks-comma : (s : Str) → AllDigits s → Lacks comma s
unfolding is_digit
Lacks-comma [] h = tt
Lacks-comma (c ∷ s) h = (ground (arith, h.0), Lacks-comma s h.1)

starts_digit-is_empty : (s : Str) → starts_digit s ≡ true → is_empty s ≡ false
unfolding starts_digit
starts_digit-is_empty [] h = sym h
starts_digit-is_empty (c ∷ s) h = refl

texts-AllWords : (bs : List ℕ) → AreBytes bs → AllWords comma (texts bs)
texts-AllWords [] h = tt
texts-AllWords (b ∷ bs) h = (
  (
    starts_digit-is_empty (nat_to_string b)
        ((nat_to_string-ReadsBack b (omega (arith, h.0))).starts),
    Lacks-comma _ (nat_to_string-AllDigits b),
  ),
  texts-AllWords bs h.1,
)

read_bytes-texts : (bs : List ℕ) → AreBytes bs → read_bytes (texts bs) ≡ done bs
unfolding read_bytes
read_bytes-texts [] h = refl
read_bytes-texts (b ∷ bs) h =
    let one : stoi (nat_to_string b) ≡ done (pos b) =
      unfold to_string in stoi-to_string (pos b) (omega (arith, h.0)) in
    rw (one, read_bytes-texts bs h.1)
      (ap (λ c. done (c ∷ bs)) (unfold to_byte in omega (arith, h.0)))

-- Bytes that were added by addBinary come back from getBinary as they were, whatever they are and
-- also when there are none.
pub get_binary-add_binary :
    (key : Str) (bytes : List ℕ) (m : Message)
    → AreBytes bytes
    → get_binary (add_binary key bytes m) key ≡ done bytes
unfolding get_binary add_binary add_string
get_binary-add_binary key bytes m h =
    rw (find-insert key key (pop_back (encode_bytes bytes)) m.entries, eq_str_refl key, get_binary)
      (ap (λ s. read_bytes (split_string s comma))
          (ap pop_back (encode_bytes-terminate bytes) ∙ pop_back-terminate comma (texts bytes))
        ∙ ap read_bytes (split_string-join comma (texts bytes) (texts-AllWords bytes h))
        ∙ read_bytes-texts bytes h)
