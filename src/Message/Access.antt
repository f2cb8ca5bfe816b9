-- ===== src/Message/Access.antt =====
-- The typed accessors of common/Message.cpp: what a getter reads after a setter.
use protokol_javni_prevoz.Prelude.{
  ◌≡◌, refl, ◌∙◌, Bool, true, false, some, List, arith, if◌then◌else◌,
}
use protokol_javni_prevoz.Prelude.Int.{ℤ}
use protokol_javni_prevoz.Result.{Exception, done, threw}
use protokol_javni_prevoz.Text.{Str, str, eq_str, eq_str_refl}
use protokol_javni_prevoz.Text.Decimal.{to_string, stoi, FitsInt, stoi-to_string}
use protokol_javni_prevoz.StdMap.{find, insert, find-insert}
use protokol_javni_prevoz.Message.{
  Message, add_string, add_int, add_bool, get_string, get_int, get_bool, has_key, read_or_zero,
}

find-insert_self {ℓ} :
    {V : Type ℓ} (k : Str) (v : V) (m : List (Str × V)) → find k (insert k v m) ≡ some v
find-insert_self k v m = rw (find-insert k k v m, eq_str_refl k) refl

-- After addString, getString and hasKey find the new text under its key, and read every other key
-- as before.
pub get_string-add_string :
    (k j v : Str) (m : Message)
    → (get_string (add_string k v m) j ≡ (if eq_str j k then v else get_string m j))
      × (has_key (add_string k v m) j ≡ (if eq_str j k then true else has_key m j))
unfolding get_string has_key add_string
get_string-add_string k j v m =
    (ground (arith, find-insert k j v m.entries), ground (arith, find-insert k j v m.entries))

-- A number that fits an int and was added by addInt comes back from getInt as it was.
pub get_int-add_int :
    (k : Str) (z : ℤ) (m : Message) → FitsInt z → get_int (add_int k z m) k ≡ done z
unfolding get_int add_int add_string
get_int-add_int k z m h = rw (find-insert_self k (to_string z) m.entries) (stoi-to_string z h)

get_bool-add_string :
    (k v : Str) (m : Message) → get_bool (add_string k v m) k ≡ eq_str v (str "true")
unfolding get_bool add_string
get_bool-add_string k v m = rw (find-insert_self k v m.entries, get_bool) refl

-- A truth value that was added comes back as it was.
pub get_bool-add_bool : (k : Str) (b : Bool) (m : Message) → get_bool (add_bool k b m) k ≡ b
unfolding add_bool str eq_str
get_bool-add_bool k true m = get_bool-add_string k (str "true") m
get_bool-add_bool k false m = get_bool-add_string k (str "false") m

pub get_int_found :
    (m : Message) (key text : Str) → find key m.entries ≡ some text → get_int m key ≡ stoi text
unfolding get_int
get_int_found m key text f = rw (f, read_or_zero) refl

-- A stored text that std::stoi refuses makes the getter throw.
pub get_int_throws :
    (m : Message) (key text : Str) (e : Exception)
    → find key m.entries ≡ some text
    → stoi text ≡ threw e
    → get_int m key ≡ threw e
get_int_throws m key text e f t = get_int_found m key text f ∙ t
