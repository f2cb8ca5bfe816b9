-- ===== src/Central/Discovery.antt =====
-- The datagrams of startMulticastReceive_, server/CentralServer.cpp. The socket is Boost.Asio's; a
-- datagram is a text.
use protokol_javni_prevoz.Prelude.{
  ℕ, Bool, ◌||◌, ◌&&◌, Option, none, some, [], ◌∷◌, ◌++◌, ◌==◌, if◌then◌else◌,
}
use protokol_javni_prevoz.Prelude.Int.{ℤ}
use protokol_javni_prevoz.Text.{Str, str, eq_str, is_empty}
use protokol_javni_prevoz.Text.Decimal.{to_string}

-- '\r', '\n' and ' '.
unfoldable pub is_blank : ℕ → Bool
is_blank c = c == 13 || c == 10 || c == 32

-- The loop that pops blanks off the end.
unfoldable pub strip_end : Str → Str
unfolding is_blank
strip_end [] = []
strip_end (c ∷ s) = let rest = strip_end s in if is_empty rest && is_blank c then [] else c ∷ rest

unfoldable pub announce : ℤ → Str
announce port = str "ANNOUNCE central " ++ to_string port

-- What a datagram is answered with; `none` where nothing is sent.
unfoldable pub answer_datagram : ℤ → Str → Option Str
unfolding announce strip_end
answer_datagram port message =
    if is_empty message
    then none
    else if eq_str (strip_end message) (str "DISCOVER")
    then some (announce port)
    else none
