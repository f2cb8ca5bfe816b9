-- ===== src/Central/Pooling/Handlers.antt =====
-- The handlers of server/CentralServer.cpp for sessions and registration, and the connections that
-- they borrow.
use protokol_javni_prevoz.Prelude.{ℕ}
use protokol_javni_prevoz.Text.{Str}
use protokol_javni_prevoz.Message.{Message}
use protokol_javni_prevoz.Platform.{Platform}
use protokol_javni_prevoz.Central.Sessions
use protokol_javni_prevoz.Central.Sessions.{
  open_session, handle_connect_request, handle_auth_request,
}
use protokol_javni_prevoz.Central.Registration.{
  new_user, register_new_user, handle_user_registration, handle_device_registration,
  handle_user_deletion,
}
use protokol_javni_prevoz.Central.Pooling.{Steady, call-Steady}
use protokol_javni_prevoz.Central.Pooling.Rules.{
  Settles, Repays, steady, borrow, first, using, repay, repay_last, either, either_Steady,
  either_Repays,
}
use protokol_javni_prevoz.Central.Pooling.Steps.{
  pure-Steady, next, read_int-Steady, read_int_or-Steady, store_session-Steady, subscribe-Steady,
  now-Steady, current_timestamp-Steady, send_response-Steady, error-Steady, success-Steady,
  session_id-Steady,
}

module _ (env : Platform) where
  open env use {Real}

  pub connect-Settles : (m : Message) (client : ℕ) → Settles (handle_connect_request env m client)
  unfolding handle_connect_request
  connect-Settles m client = steady (send_response-Steady env client _)

  open_session-Steady : (client : ℕ) (urn : Str) → Steady (open_session env client urn)
  unfolding open_session
  open_session-Steady client urn = next (session_id-Steady env) (λ id. next (now-Steady env) (λ t.
      next (store_session-Steady _)
        (λ _. next (send_response-Steady env client _) (λ _. subscribe-Steady client))))

  pub auth-Settles : (m : Message) (client : ℕ) → Settles (handle_auth_request env m client)
  unfolding handle_auth_request
  auth-Settles m client = borrow (λ i. using (call-Steady i _) (λ known.
      using (either_Steady known (open_session-Steady client _) (send_response-Steady env client _))
        (λ _. repay_last i)))

  new_user-Steady : (m : Message) (urn : Str) → Steady (new_user env m urn)
  unfolding new_user
  new_user-Steady m urn =
      next (read_int_or-Steady m _ _)
        (λ age. next (current_timestamp-Steady env) (λ date. pure-Steady _))

  register_new_user-Repays :
      (m : Message) (client : ℕ) (urn : Str) (i : ℕ)
      → Repays i (register_new_user env m client urn i)
  unfolding register_new_user
  register_new_user-Repays m client urn i = using (new_user-Steady m urn) (λ user.
      using (call-Steady i _) (λ good. using (call-Steady i _) (λ error.
        repay (either_Steady good (success-Steady env client _) (error-Steady env client _ _)))))

  pub registration-Settles :
      (m : Message) (client : ℕ) → Settles (handle_user_registration env m client)
  unfolding handle_user_registration
  registration-Settles m client = either _ (steady (error-Steady env client _ _)) (
      borrow (λ i. using (call-Steady i _) (λ known.
        either_Repays (Sessions.is_some known) (repay (error-Steady env client _ _))
          (register_new_user-Repays m client _ i))))

  pub device-Settles :
      (m : Message) (client : ℕ) → Settles (handle_device_registration env m client)
  unfolding handle_device_registration
  device-Settles m client = first (read_int-Steady m _) (λ type.
      either _ (steady (error-Steady env client _ _)) (
        first (current_timestamp-Steady env) (λ date. borrow (λ i. using (call-Steady i _) (λ good.
          using (call-Steady i _) (λ state.
            repay
              (either_Steady good (success-Steady env client _) (error-Steady env client _ _))))))))

  pub deletion-Settles : (m : Message) (client : ℕ) → Settles (handle_user_deletion env m client)
  unfolding handle_user_deletion
  deletion-Settles m client = steady (success-Steady env client _)
