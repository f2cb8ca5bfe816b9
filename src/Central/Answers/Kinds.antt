-- ===== src/Central/Answers/Kinds.antt =====
-- Which messages of server/CentralServer.cpp are answers, and how the answers of a client are
-- counted.
use protokol_javni_prevoz.Prelude.{
  ℕ, ◌+◌, ◌≡◌, refl, ◌∙◌, ap, Bool, true, false, List, [], ◌∷◌, ◌++◌, ◌==◌, ==_refl, arith,
}
use protokol_javni_prevoz.Prelude.Int.{ℤ}
use protokol_javni_prevoz.Text.{Str, str}
use protokol_javni_prevoz.StdMap.{StdMap}
use protokol_javni_prevoz.Message.{
  Message, new, add_string, add_int, add_bool, calculate_checksum, with_checksum,
}
use protokol_javni_prevoz.Message.Kind
use protokol_javni_prevoz.Message.Factory.{
  add_all, add_nonempty, create_error_response, create_success_response, create_multicast_update,
  create_connect_response, create_auth_response,
}
use protokol_javni_prevoz.Central.Answers.{is_update, count_answers}

pub count_answers-append :
    (client c : ℕ) (m : Message) (sent : List (ℕ × Message))
    → count_answers client (sent ++ (c, m) ∷ [])
      ≡ count_answers client sent + count_answers client ((c, m) ∷ [])
count_answers-append client c m [] = omega arith
count_answers-append client c m (x ∷ sent) = omega (arith, count_answers-append client c m sent)

add_all-type : (l : StdMap Str) (m : Message) → (add_all l m).header.type ≡ m.header.type
unfolding add_all add_string
add_all-type [] m = refl
add_all-type ((k, v) ∷ l) m = add_all-type l (add_string k v m)

add_nonempty-type : (k v : Str) (m : Message) → (add_nonempty k v m).header.type ≡ m.header.type
unfolding add_nonempty add_string
add_nonempty-type k v m = ground arith

pub error-is_update : (text : Str) (code : ℤ) → is_update (create_error_response text code) ≡ false
unfolding create_error_response add_int add_string calculate_checksum with_checksum new
error-is_update text code = refl

pub success-is_update :
    (text : Str) (extra : StdMap Str) → is_update (create_success_response text extra) ≡ false
unfolding create_success_response calculate_checksum with_checksum new
success-is_update text extra =
    ap (λ t. t == Kind.multicast_update)
      (add_all-type extra _ ∙ add_nonempty-type (str "message") text (new Kind.response_success))

pub connected-is_update :
    (b : Bool) (text : Str) → is_update (create_connect_response b text) ≡ false
unfolding create_connect_response calculate_checksum with_checksum new add_bool add_string
connected-is_update b text =
    ap (λ t. t == Kind.multicast_update) (add_nonempty-type (str "reason") text _)

pub authenticated-is_update :
    (b : Bool) (text : Str) → is_update (create_auth_response b text) ≡ false
unfolding create_auth_response calculate_checksum with_checksum new add_bool add_string
authenticated-is_update b text =
    ap (λ t. t == Kind.multicast_update) (add_nonempty-type (str "token") text _)

pub update-is_update :
    (type : Str) (extra : StdMap Str) → is_update (create_multicast_update type extra) ≡ true
unfolding create_multicast_update calculate_checksum with_checksum new add_string
update-is_update type extra = ap (λ t. t == Kind.multicast_update) (add_all-type extra _)

pub counts_one :
    (client : ℕ) (m : Message) → is_update m ≡ false → count_answers client ((client, m) ∷ []) ≡ 1
counts_one client m h = rw (==_refl client, h) refl

pub counts_none :
    (client c : ℕ) (m : Message) → is_update m ≡ true → count_answers client ((c, m) ∷ []) ≡ 0
counts_none client c m h = ground arith
