-- ===== src/Central/Answers/Management.antt =====
-- The handlers of server/CentralServer.cpp for groups, prices and vehicles: each answers its client
-- once.
use protokol_javni_prevoz.Prelude.{
  ℕ, ◌+◌, Bool, true, false, not, Option, none, some, if◌then◌else◌,
}
use protokol_javni_prevoz.Prelude.Int.{ℤ}
use protokol_javni_prevoz.Text.{Str, is_empty, eq_str}
use protokol_javni_prevoz.Message.{Message, has_key}
use protokol_javni_prevoz.Platform.{Platform}
use protokol_javni_prevoz.Database.Vehicles.Bounds.{
  update_vehicle-Keeps, update_vehicle_capacity-Keeps,
}
use protokol_javni_prevoz.Database.Vehicles.Untouched.{
  update_price-Keeps, get_group_leader-Keeps, create_group-Keeps, add_user_to_group-Keeps,
  remove_user_from_group-Keeps,
}
use protokol_javni_prevoz.Central.{Session, Handler, ◌>>=◌, ◌>>◌, pure, send_error_response}
use protokol_javni_prevoz.Central.Groups.{
  handle_group_creation, add_member_as, handle_add_member_to_group, check_leader,
  require_group_leader, remove_as_leader, handle_remove_member_from_group,
}
use protokol_javni_prevoz.Central.Admin.{
  read_flag, read_type, change_price, handle_update_price, handle_update_vehicle,
  handle_update_capacity,
}
use protokol_javni_prevoz.Central.Answers.{
  NumberField, key_of, vehicle_type, ticket_type, active, capacity, available_seats, Throws, Fine,
  Walk, Silent, Answers, AnswersIf, chain, silently, before, behind, either, either_Silent,
}
use protokol_javni_prevoz.Central.Answers.Steps.{
  pure-Silent, now-Silent, current_timestamp-Silent, find_session-Silent, touch_session-Silent,
  read_int-Silent, read_int_or-Silent, acquire-Silent, call-Silent, release-Silent, error-Answers,
  success-Answers, multicast-Silent,
}
use protokol_javni_prevoz.Central.Answers.Handlers.{last_error-Keeps}

module _ (env : Platform) (U : Type 0) (client : ℕ) where
  open env use {Real}

  pub creation-Answers : (m : Message) → Answers env U client (handle_group_creation env m client)
  unfolding handle_group_creation
  creation-Answers m = either _ (error-Answers _ _) (
      before current_timestamp-Silent (λ date. before acquire-Silent (λ i.
        before (call-Silent i (create_group-Keeps env _)) (λ good.
          before (release-Silent i) (λ _. either good (success-Answers _) (error-Answers _ _))))))

  add_member_as-Answers :
      (id urn group : Str) (session : Option Session)
      → Answers env U client (add_member_as env client id urn group session)
  unfolding add_member_as
  add_member_as-Answers id urn group none = error-Answers _ _
  add_member_as-Answers id urn group (some session) = before now-Silent (λ t.
      before (touch_session-Silent id session t) (λ _. before acquire-Silent (λ i.
        before (call-Silent i (add_user_to_group-Keeps env _ _)) (λ good.
          before (release-Silent i) (λ _. either good (success-Answers _) (error-Answers _ _))))))

  pub add_member-Answers :
      (m : Message) → Answers env U client (handle_add_member_to_group env m client)
  unfolding handle_add_member_to_group
  add_member-Answers m =
      either _ (error-Answers _ _)
        (before (find_session-Silent _) (λ session. add_member_as-Answers _ _ _ session))

  -- The refusal of a leader, which is an answer.
  refused :
      (text : Str) (code : ℤ)
      → AnswersIf env U client not (do send_error_response env client text code; pure false)
  refused text code n = chain env U (error-Answers text code n) (λ _. record { run = λ s p. p })

  allowed : AnswersIf env U client not (pure true)
  allowed n = record { run = λ s p. p }

  first_if :
      {A : Type 0} {m : Handler Real A} {f : A → Handler Real Bool}
      → Silent env U client m
      → ((a : A) → AnswersIf env U client not (f a))
      → AnswersIf env U client not (m >>= f)
  first_if t u n = chain env U (t n) (λ a. u a n)

  either_if :
      {m k : Handler Real Bool} (b : Bool)
      → AnswersIf env U client not m
      → AnswersIf env U client not k
      → AnswersIf env U client not (if b then m else k)
  either_if true t u = t
  either_if false t u = u

  check_leader-AnswersIf :
      (id group : Str) (session : Option Session)
      → AnswersIf env U client not (check_leader env client id group session)
  unfolding check_leader
  check_leader-AnswersIf id group none = refused _ _
  check_leader-AnswersIf id group (some session) = first_if now-Silent (λ t.
      first_if (touch_session-Silent id session t) (λ _. first_if acquire-Silent (λ i.
        first_if (call-Silent i (get_group_leader-Keeps env _)) (λ leader.
          first_if (release-Silent i) (λ _.
            either_if (is_empty leader) (refused _ _)
              (either_if (not (eq_str leader session.user_urn)) (refused _ _) allowed))))))

  remove_as_leader-Answers :
      (urn group : Str) → Answers env U client (remove_as_leader env client urn group)
  unfolding remove_as_leader
  remove_as_leader-Answers urn group = before acquire-Silent (λ i.
      before (call-Silent i (remove_user_from_group-Keeps env _ _)) (λ good.
        before (release-Silent i) (λ _. either good (success-Answers _) (error-Answers _ _))))

  after_check :
      {k : Handler Real (Unit {0})} (n : ℕ)
      → Answers env U client k
      → (ok : Bool)
      → Walk env U
          (Fine env client (if not ok then n + 1 else n))
          (if ok then k else pure tt)
          (λ _. Fine env client (n + 1))
  after_check n t true = t n
  after_check n t false = record { run = λ s p. p }

  if_allowed :
      {m : Handler Real Bool} {k : Handler Real (Unit {0})}
      → AnswersIf env U client not m
      → Answers env U client k
      → Answers env U client (m >>= λ ok. if ok then k else pure tt)
  if_allowed t u n = chain env U (t n) (λ ok. after_check n u ok)

  pub remove_member-Answers :
      (m : Message) → Answers env U client (handle_remove_member_from_group env m client)
  unfolding handle_remove_member_from_group require_group_leader
  remove_member-Answers m = either _ (error-Answers _ _) (
      if_allowed (first_if (find_session-Silent _) (λ session. check_leader-AnswersIf _ _ session))
        (remove_as_leader-Answers _ _))

  change_price-Answers :
      (m : Message) (vt kind : ℕ) (price : Option Real)
      → Answers env U client (change_price env m client vt kind price)
  unfolding change_price
  change_price-Answers m vt kind none = error-Answers _ _
  change_price-Answers m vt kind (some price) = before acquire-Silent (λ i.
      before (call-Silent i (update_price-Keeps env _ _ _)) (λ good.
        before (call-Silent i last_error-Keeps) (λ error. before (release-Silent i) (λ _.
          either (not good) (error-Answers _ _)
            (behind (success-Answers _) (λ _. multicast-Silent _ _))))))

  pub price-Answers :
      (m : Message) (bad : Throws U m) → Answers env U client (handle_update_price env m client)
  unfolding handle_update_price
  price-Answers m bad = either _ (error-Answers _ _) (
      before (read_int-Silent m vehicle_type bad)
        (λ vt. before (read_int-Silent m ticket_type bad) (λ kind. change_price-Answers m _ _ _)))

  read_flag-Silent :
      (m : Message) (bad : Throws U m) (f : NumberField)
      → Silent env U client (read_flag m (key_of f))
  unfolding read_flag
  read_flag-Silent m bad f =
      either_Silent (has_key m (key_of f)) (silently (read_int-Silent m f bad) (λ n. pure-Silent _))
        (pure-Silent none)

  read_type-Silent :
      (m : Message) (bad : Throws U m) (f : NumberField)
      → Silent env U client (read_type m (key_of f))
  unfolding read_type
  read_type-Silent m bad f =
      either_Silent (has_key m (key_of f)) (silently (read_int-Silent m f bad) (λ n. pure-Silent _))
        (pure-Silent none)

  pub vehicle-Answers :
      (m : Message) (bad : Throws U m) → Answers env U client (handle_update_vehicle env m client)
  unfolding handle_update_vehicle
  vehicle-Answers m bad = either _ (error-Answers _ _) (
      before (read_flag-Silent m bad active) (λ flag.
        before (read_type-Silent m bad vehicle_type) (λ type. before acquire-Silent (λ i.
          before (call-Silent i (update_vehicle-Keeps env _ _ _ _)) (λ good.
            before (call-Silent i last_error-Keeps) (λ error. before (release-Silent i) (λ _.
              either (not good) (error-Answers _ _)
                (behind (success-Answers _) (λ _. multicast-Silent _ _)))))))))

  pub capacity-Answers :
      (m : Message) (bad : Throws U m) → Answers env U client (handle_update_capacity env m client)
  unfolding handle_update_capacity
  capacity-Answers m bad = either _ (error-Answers _ _) (
      before (read_int-Silent m capacity bad) (λ size.
        before (read_int_or-Silent m available_seats _ bad) (λ free. before acquire-Silent (λ i.
          before (call-Silent i (update_vehicle_capacity-Keeps env _ _ _)) (λ good.
            before (call-Silent i last_error-Keeps) (λ error. before (release-Silent i) (λ _.
              either (not good) (error-Answers _ _)
                (behind (success-Answers _) (λ _. multicast-Silent _ _)))))))))
