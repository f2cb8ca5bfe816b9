-- ===== src/Central/Registration/Leak.antt =====
-- handleUserRegistration of server/CentralServer.cpp with an age that std::stoi refuses.
use protokol_javni_prevoz.Central.Sessions.{is_some}
use protokol_javni_prevoz.Prelude.{
  ℕ, ◌+◌, ◌<◌, ◌≡◌, refl, ap, ◌∙◌, true, false, none, some, arith, Option-cases, inl, inr,
}
use protokol_javni_prevoz.Result.{Exception, done, threw}
use protokol_javni_prevoz.Text.{Str, str}
use protokol_javni_prevoz.Message.{Message, get_int, get_string, has_key}
use protokol_javni_prevoz.Platform.{Platform}
use protokol_javni_prevoz.Database.{Database, c_str, prepare_statement, select}
use protokol_javni_prevoz.Database.Users.{find_user, get_user}
use protokol_javni_prevoz.Database.Pool.{
  lend, set_at, attach, conn_at, first_available, get_connection, with_connection,
}
use protokol_javni_prevoz.Database.Pool.Lending.{
  count_free, first_available-IsFree, first_available-none,
}
use protokol_javni_prevoz.Central.{Server, acquire, call, read_int, read_int_or}
use protokol_javni_prevoz.Central.Validation.{validate_urn}
use protokol_javni_prevoz.Central.Registration.{
  new_user, register_new_user, handle_user_registration,
}

get_user-none :
    (env : Platform) (urn : Str) (db : Database env.Real)
    → find_user (c_str urn) db.tables.users ≡ none
    → (get_user env urn db).0 ≡ none
unfolding get_user prepare_statement select
get_user-none env urn db h = ground arith

register_new_user_throws :
    (env : Platform) (m : Message) (client : ℕ) (urn : Str) (i : ℕ) (e : Exception)
    (s : Server env.Real)
    → has_key m (str "age") ≡ true
    → get_int m (str "age") ≡ threw e
    → register_new_user env m client urn i s ≡ (threw e, s)
unfolding register_new_user new_user read_int_or read_int
register_new_user_throws env m client urn i e s k g = rw k (rw g refl)

-- The server with the i-th connection lent.
abbrev lent : {R : Type 0} → ℕ → Server R → Server R
lent i s = record s { pool = record s.pool { available = set_at s.pool.available i false } }

acquire-lent :
    {R : Type 0} (i : ℕ) (s : Server R)
    → first_available s.pool.available ≡ some i
    → acquire s ≡ (done i, lent i s)
unfolding acquire get_connection lend
acquire-lent i s f = rw (f, acquire, get_connection, lend) refl

abbrev looked_up : (env : Platform) → Str → ℕ → Server env.Real → Server env.Real
looked_up env urn i s = (call i (get_user env urn) s).1

registration_throws :
    (env : Platform) (m : Message) (client i : ℕ) (e : Exception) (s : Server env.Real)
    → first_available s.pool.available ≡ some i
    → validate_urn (get_string m (str "urn")) ≡ true
    → find_user (c_str (get_string m (str "urn"))) s.pool.file.tables.users ≡ none
    → has_key m (str "age") ≡ true
    → get_int m (str "age") ≡ threw e
    → handle_user_registration env m client s
      ≡ (threw e, looked_up env (get_string m (str "urn")) i (lent i s))
unfolding handle_user_registration call with_connection is_some
registration_throws env m client i e s f v u k g = rw v (
    rw (acquire-lent i s f) (
      rw
        (get_user-none env (get_string m (str "urn"))
          (attach (conn_at s.pool.connections i) s.pool.file) u)
        (register_new_user_throws env m client _ i e _ k g)))

looked_up-available :
    (env : Platform) (urn : Str) (i : ℕ) (s : Server env.Real)
    → (looked_up env urn i s).pool.available ≡ s.pool.available
unfolding call with_connection
looked_up-available env urn i s = refl

-- With a connection free, a registration with a valid URN that is not there yet and an age that
-- std::stoi refuses ends in the exception, and one connection less is free than before.
pub handle_user_registration_leak :
    (env : Platform) (m : Message) (client : ℕ) (e : Exception) (s : Server env.Real)
    → 0 < count_free s.pool.available
    → validate_urn (get_string m (str "urn")) ≡ true
    → find_user (c_str (get_string m (str "urn"))) s.pool.file.tables.users ≡ none
    → has_key m (str "age") ≡ true
    → get_int m (str "age") ≡ threw e
    → ((handle_user_registration env m client s).0 ≡ threw e)
      × (count_free (handle_user_registration env m client s).1.pool.available + 1
          ≡ count_free s.pool.available)
handle_user_registration_leak env m client e s free v u k g =
    elim (Option-cases (first_available s.pool.available)) [
      | inl n ↦ absurd (omega (arith, free, first_available-none s.pool.available n))
      | inr (i, f) ↦
          let r = registration_throws env m client i e s f v u k g in
          (
            ap (λ x. x.0) r,
            ap (λ x. count_free x.1.pool.available + 1) r
                ∙ ap (λ l. count_free l + 1) (looked_up-available env _ i (lent i s))
                ∙ (first_available-IsFree s.pool.available i f).taken,
          )
    ]
