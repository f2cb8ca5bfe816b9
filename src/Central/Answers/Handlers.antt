-- ===== src/Central/Answers/Handlers.antt =====
-- The handlers of server/CentralServer.cpp for sessions, registration, groups, prices and vehicles:
-- each answers its client once.
use protokol_javni_prevoz.Prelude.{ℕ, ◌≡◌, refl, true, false, not, Bool-cases, inl, inr}
use protokol_javni_prevoz.Prelude.Int.{ℤ, neg_part}
use protokol_javni_prevoz.Text.{Str, str, is_empty}
use protokol_javni_prevoz.Message.{Message, get_string}
use protokol_javni_prevoz.Platform.{Platform}
use protokol_javni_prevoz.Database.Vehicles.Bounds.{Keeps, untouched, register_vehicle-Keeps}
use protokol_javni_prevoz.Database.Vehicles.Untouched.{register_user-Keeps, get_user-Keeps}
use protokol_javni_prevoz.Central.{last_error}
use protokol_javni_prevoz.Central.Validation.{validate_urn, validate_uri}
use protokol_javni_prevoz.Central.Sessions.{
  is_some, user_known, open_session, handle_connect_request, handle_auth_request,
}
use protokol_javni_prevoz.Central.Registration.{
  error_state, new_vehicle, new_user, register_new_user, handle_user_registration,
  handle_device_registration, handle_user_deletion,
}
use protokol_javni_prevoz.Central.Answers.{
  age, vehicle_type, Throws, Silent, Answers, silently, before, behind, either,
}
use protokol_javni_prevoz.Central.Answers.Steps.{
  pure-Silent, now-Silent, current_timestamp-Silent, store_session-Silent, subscribe-Silent,
  session_id-Silent, read_int-Silent, read_int_or-Silent, acquire-Silent, call-Silent,
  release-Silent, send_response-Answers, error-Answers, success-Answers,
}
use protokol_javni_prevoz.Central.Answers.Kinds.{connected-is_update, authenticated-is_update}

pub last_error-Keeps : {R : Type 0} → Keeps (last_error {R = R})
unfolding last_error
last_error-Keeps = untouched (λ db. refl)

module _ (env : Platform) (U : Type 0) (client : ℕ) where
  open env use {Real}

  pub connect-Answers : (m : Message) → Answers env U client (handle_connect_request env m client)
  unfolding handle_connect_request
  connect-Answers m = send_response-Answers _ (connected-is_update true _)

  user_known-Keeps : (urn : Str) → Keeps (user_known env urn)
  unfolding user_known
  user_known-Keeps urn = record {
    run = λ db p. elim (Bool-cases (is_empty urn)) [
      | inl e ↦ rw (e, user_known) p
      | inr e ↦ rw (e, user_known) ((get_user-Keeps env urn).run db p)
    ];
  }

  open_session-Answers : (urn : Str) → Answers env U client (open_session env client urn)
  unfolding open_session
  open_session-Answers urn = before session_id-Silent (λ id. before now-Silent (λ t.
      before (store_session-Silent _) (λ _.
        behind (send_response-Answers _ (authenticated-is_update true id))
          (λ _. subscribe-Silent client))))

  pub auth-Answers : (m : Message) → Answers env U client (handle_auth_request env m client)
  unfolding handle_auth_request
  auth-Answers m = before acquire-Silent (λ i. before (call-Silent i (user_known-Keeps _)) (λ known.
      behind
        (either known (open_session-Answers _)
          (send_response-Answers _ (authenticated-is_update false _)))
        (λ _. release-Silent i)))

  new_user-Silent :
      (m : Message) (bad : Throws U m) (urn : Str) → Silent env U client (new_user env m urn)
  unfolding new_user
  new_user-Silent m bad urn =
      silently (read_int_or-Silent m age _ bad)
        (λ age. silently current_timestamp-Silent (λ date. pure-Silent _))

  register_new_user-Answers :
      (m : Message) (bad : Throws U m) (urn : Str) (i : ℕ)
      → Answers env U client (register_new_user env m client urn i)
  unfolding register_new_user
  register_new_user-Answers m bad urn i = before (new_user-Silent m bad urn) (λ user.
      before (call-Silent i (register_user-Keeps env user)) (λ good.
        before (call-Silent i last_error-Keeps) (λ error.
          before (release-Silent i) (λ _. either good (success-Answers _) (error-Answers _ _)))))

  pub registration-Answers :
      (m : Message) (bad : Throws U m)
      → Answers env U client (handle_user_registration env m client)
  unfolding handle_user_registration
  registration-Answers m bad =
      either (not (validate_urn (get_string m (str "urn")))) (error-Answers _ _) (
        before acquire-Silent (λ i. before (call-Silent i (get_user-Keeps env _)) (λ known.
          either (is_some known) (before (release-Silent i) (λ _. error-Answers _ _))
            (register_new_user-Answers m bad _ i))))

  error_state-Keeps : Keeps {R = Real} error_state
  unfolding error_state
  error_state-Keeps = untouched (λ db. refl)

  new_vehicle-Seated :
      (uri : Str) (type : ℤ) (date : Str) → neg_part (new_vehicle uri type date).available_seats ≡ 0
  unfolding new_vehicle
  new_vehicle-Seated uri type date = refl

  pub device-Answers :
      (m : Message) (bad : Throws U m)
      → Answers env U client (handle_device_registration env m client)
  unfolding handle_device_registration
  device-Answers m bad = before (read_int-Silent m vehicle_type bad) (λ type.
      either (not (validate_uri (get_string m (str "uri")))) (error-Answers _ _) (
        before current_timestamp-Silent (λ date. before acquire-Silent (λ i.
          before (call-Silent i (register_vehicle-Keeps env _ (new_vehicle-Seated _ type date)))
            (λ good. before (call-Silent i error_state-Keeps) (λ state.
              before (release-Silent i)
                (λ _. either good (success-Answers _) (error-Answers _ _))))))))

  pub deletion-Answers : (m : Message) → Answers env U client (handle_user_deletion env m client)
  unfolding handle_user_deletion
  deletion-Answers m = success-Answers _
