-- ===== src/Tests/Accounts.antt =====
-- The theorems about registerUser, getUser and deleteUser at concrete tables.
use protokol_javni_prevoz.Prelude.{
  ℕ, ◌≡◌, refl, ◌↔◌, true, false, none, some, List, [], ◌∷◌, if◌then◌else◌,
}
use protokol_javni_prevoz.Prelude.Int.{pos}
use protokol_javni_prevoz.Text.{str, eq_str}
use protokol_javni_prevoz.Database.Rows.{User}
use protokol_javni_prevoz.Database.{
  Database, prepare_statement, step, c_str, expect_done, sqlite_ok, sqlite_constraint,
}
use protokol_javni_prevoz.Database.Users.{
  find_user, has_user, user_row, insert_user, remove_user, register_user, registered, get_user,
  delete_user, delete_user_row, is_referenced, leads_group, is_member, has_ticket,
}
use protokol_javni_prevoz.Database.Users.Registration.{
  Registered, Deleted, register_user-Registered, register_user_iff, register_user-get_user,
  register_user_again, delete_user-Deleted, delete_user-get_user,
}
use protokol_javni_prevoz.Database.Users.Refinement.{
  Call, register, get, delete, Shows, perform_all, promised_all, perform_all-Shows,
}
use protokol_javni_prevoz.Tests.{ideal, no_tables, urn_1}

abbrev ana : User
ana = record {
  urn = urn_1;
  name = str "Ana";
  age = pos 30;
  registration_date = str "0";
  active = true;
  pin_hash = [];
}

abbrev empty : Database ℕ
empty = record {
  tables = no_tables;
  calls = 0;
  foreign_keys = true;
  last_error = [];
  last_error_code = sqlite_ok;
}

abbrev with_ana : Database ℕ
with_ana = record empty { tables = record no_tables { users = ana ∷ [] }; calls = 2 }

register_user-Registered_example : Registered ideal ana empty (register_user ideal ana empty)
register_user-Registered_example = register_user-Registered ideal ana empty

register_user_iff_example :
    ((register_user ideal ana empty).0 ≡ true) ↔ (find_user (c_str urn_1) [] ≡ none)
register_user_iff_example = register_user_iff ideal ana empty (refl, (refl, tt))

registers : register_user ideal ana empty ≡ (true, with_ana)
unfolding register_user prepare_statement step insert_user has_user find_user user_row c_str str
    registered
registers = refl

register_user-get_user_example : (get_user ideal urn_1 with_ana).0 ≡ (
    if eq_str (c_str urn_1) (c_str urn_1)
    then some (user_row ana)
    else find_user (c_str urn_1) no_tables.users)
register_user-get_user_example =
    register_user-get_user ideal ana urn_1 empty with_ana registers (refl, (refl, tt))

finds : find_user (c_str urn_1) with_ana.tables.users ≡ some ana
unfolding find_user c_str str eq_str
finds = refl

register_user_again_example : register_user ideal ana with_ana ≡ (
  false,
  record with_ana {
    calls = 4;
    last_error = str "User already registered";
    last_error_code = sqlite_constraint;
  },
)
register_user_again_example = register_user_again ideal ana ana with_ana (refl, (refl, tt)) finds

delete_user-Deleted_example : Deleted ideal urn_1 with_ana (delete_user ideal urn_1 with_ana)
delete_user-Deleted_example = delete_user-Deleted ideal urn_1 with_ana

deletes : delete_user ideal urn_1 with_ana ≡ (true, record empty { calls = 4 })
unfolding delete_user prepare_statement step delete_user_row has_user find_user remove_user
    is_referenced leads_group is_member has_ticket expect_done c_str str eq_str
deletes = refl

delete_user-get_user_example : (get_user ideal urn_1 (record empty { calls = 4 })).0 ≡ (
    if eq_str (c_str urn_1) (c_str urn_1)
    then none
    else find_user (c_str urn_1) with_ana.tables.users)
delete_user-get_user_example =
    delete_user-get_user ideal urn_1 urn_1 with_ana (record empty { calls = 4 }) deletes
      (refl, (refl, tt))

abbrev session : List Call
session = register ana ∷ register ana ∷ get urn_1 ∷ delete urn_1 ∷ get urn_1 ∷ []

empty-Shows : Shows ideal (λ k. false) (λ k. none) empty
unfolding find_user is_referenced leads_group is_member has_ticket
empty-Shows = record { users = λ k. refl; others = λ k. refl }

perform_all-Shows_example :
    ((perform_all ideal session empty).0 ≡ (promised_all ideal (λ k. false) session (λ k. none)).0)
    × Shows ideal
        (λ k. false)
        (promised_all ideal (λ k. false) session (λ k. none)).1
        (perform_all ideal session empty).1
perform_all-Shows_example =
    perform_all-Shows ideal (λ k. false) session (λ k. none) empty (λ n. refl) empty-Shows
