-- ===== src/Central/Validation.antt =====
-- validateURN and validateURI of server/CentralServer.cpp; common/Protocol.cpp has the same two.
use protokol_javni_prevoz.Prelude.{Bool, true, not, ◌&&◌, [], ◌∷◌, leb, ◌==◌, length}
use protokol_javni_prevoz.Text.{Str, is_empty}
use protokol_javni_prevoz.Text.Decimal.{is_digit}

-- find_first_not_of("0123456789") == npos.
unfoldable pub all_digits : Str → Bool
unfolding is_digit
all_digits [] = true
all_digits (c ∷ s) = is_digit c && all_digits s

unfoldable pub validate_urn : Str → Bool
validate_urn urn = length urn == 13 && all_digits urn

unfoldable pub validate_uri : Str → Bool
validate_uri uri = not (is_empty uri) && leb (length uri) 32
