-- ===== src/Central/Pooling/Management.antt =====
-- The handlers of server/CentralServer.cpp for groups, prices and vehicles, and the connections that
-- they borrow.
use protokol_javni_prevoz.Prelude.{ℕ, Option, none, some, not, true, false}
use protokol_javni_prevoz.Text.{Str, is_empty, eq_str}
use protokol_javni_prevoz.Message.{Message}
use protokol_javni_prevoz.Platform.{Platform}
use protokol_javni_prevoz.Central.{Session}
use protokol_javni_prevoz.Central.Pooling.{Steady, call-Steady}
use protokol_javni_prevoz.Central.Pooling.Rules.{
  Settles, steady, borrow, first, using, repay, either, either_Steady, and_then,
}
use protokol_javni_prevoz.Central.Pooling.Steps.{
  pure-Steady, next, read_int-Steady, read_int_or-Steady, find_session-Steady, touch_session-Steady,
  now-Steady, current_timestamp-Steady, error-Steady, success-Steady, multicast-Steady,
}
use protokol_javni_prevoz.Central.Groups.{
  handle_group_creation, add_member_as, handle_add_member_to_group, check_leader,
  require_group_leader, remove_as_leader, handle_remove_member_from_group,
}
use protokol_javni_prevoz.Central.Admin.{
  read_flag, read_type, change_price, handle_update_price, handle_update_vehicle,
  handle_update_capacity,
}

module _ (env : Platform) where
  open env use {Real}

  pub creation-Settles : (m : Message) (client : ℕ) → Settles (handle_group_creation env m client)
  unfolding handle_group_creation
  creation-Settles m client = either _ (steady (error-Steady env client _ _)) (
      first (current_timestamp-Steady env) (λ date. borrow (λ i. using (call-Steady i _) (λ good.
        repay (either_Steady good (success-Steady env client _) (error-Steady env client _ _))))))

  add_member_as-Settles :
      (client : ℕ) (id urn group : Str) (session : Option Session)
      → Settles (add_member_as env client id urn group session)
  unfolding add_member_as
  add_member_as-Settles client id urn group none = steady (error-Steady env client _ _)
  add_member_as-Settles client id urn group (some session) = first (now-Steady env) (λ t.
      first (touch_session-Steady id session t) (λ _. borrow (λ i. using (call-Steady i _) (λ good.
        repay (either_Steady good (success-Steady env client _) (error-Steady env client _ _))))))

  pub add_member-Settles :
      (m : Message) (client : ℕ) → Settles (handle_add_member_to_group env m client)
  unfolding handle_add_member_to_group
  add_member-Settles m client =
      either _ (steady (error-Steady env client _ _))
        (first (find_session-Steady _) (λ session. add_member_as-Settles client _ _ _ session))

  pub check_leader-Settles :
      (client : ℕ) (id group : Str) (session : Option Session)
      → Settles (check_leader env client id group session)
  unfolding check_leader
  check_leader-Settles client id group none =
      steady (next (error-Steady env client _ _) (λ _. pure-Steady false))
  check_leader-Settles client id group (some session) = first (now-Steady env) (λ t.
      first (touch_session-Steady id session t) (λ _. borrow (λ i.
        using (call-Steady i _) (λ leader. repay (
          either_Steady (is_empty leader)
            (next (error-Steady env client _ _) (λ _. pure-Steady false))
            (either_Steady (not (eq_str leader session.user_urn))
              (next (error-Steady env client _ _) (λ _. pure-Steady false)) (pure-Steady true)))))))

  remove_as_leader-Settles :
      (client : ℕ) (urn group : Str) → Settles (remove_as_leader env client urn group)
  unfolding remove_as_leader
  remove_as_leader-Settles client urn group = borrow (λ i. using (call-Steady i _) (λ good.
      repay (either_Steady good (success-Steady env client _) (error-Steady env client _ _))))

  pub remove_member-Settles :
      (m : Message) (client : ℕ) → Settles (handle_remove_member_from_group env m client)
  unfolding handle_remove_member_from_group require_group_leader
  remove_member-Settles m client = either _ (steady (error-Steady env client _ _)) (
      and_then (first (find_session-Steady _) (λ session. check_leader-Settles client _ _ session))
        (λ allowed. either allowed (remove_as_leader-Settles client _ _) (steady (pure-Steady tt))))

  change_price-Settles :
      (m : Message) (client vt kind : ℕ) (price : Option Real)
      → Settles (change_price env m client vt kind price)
  unfolding change_price
  change_price-Settles m client vt kind none = steady (error-Steady env client _ _)
  change_price-Settles m client vt kind (some price) = borrow (λ i. using (call-Steady i _) (λ good.
      using (call-Steady i _) (λ error. repay (
        either_Steady _ (error-Steady env client _ _)
          (next (success-Steady env client _) (λ _. multicast-Steady env _ _))))))

  pub price-Settles : (m : Message) (client : ℕ) → Settles (handle_update_price env m client)
  unfolding handle_update_price
  price-Settles m client = either _ (steady (error-Steady env client _ _)) (
      first (read_int-Steady m _)
        (λ vt. first (read_int-Steady m _) (λ kind. change_price-Settles m client _ _ _)))

  read_flag-Steady : (m : Message) (key : Str) → Steady (read_flag {R = Real} m key)
  unfolding read_flag
  read_flag-Steady m key =
      either_Steady _ (next (read_int-Steady m key) (λ n. pure-Steady _)) (pure-Steady none)

  read_type-Steady : (m : Message) (key : Str) → Steady (read_type {R = Real} m key)
  unfolding read_type
  read_type-Steady m key =
      either_Steady _ (next (read_int-Steady m key) (λ n. pure-Steady _)) (pure-Steady none)

  pub vehicle-Settles : (m : Message) (client : ℕ) → Settles (handle_update_vehicle env m client)
  unfolding handle_update_vehicle
  vehicle-Settles m client = either _ (steady (error-Steady env client _ _)) (
      first (read_flag-Steady m _) (λ active. first (read_type-Steady m _) (λ type. borrow (λ i.
        using (call-Steady i _) (λ good. using (call-Steady i _) (λ error. repay (
          either_Steady _ (error-Steady env client _ _)
            (next (success-Steady env client _) (λ _. multicast-Steady env _ _)))))))))

  pub capacity-Settles : (m : Message) (client : ℕ) → Settles (handle_update_capacity env m client)
  unfolding handle_update_capacity
  capacity-Settles m client = either _ (steady (error-Steady env client _ _)) (
      first (read_int-Steady m _) (λ capacity. first (read_int_or-Steady m _ _) (λ available.
        borrow (λ i. using (call-Steady i _) (λ good. using (call-Steady i _) (λ error. repay (
          either_Steady _ (error-Steady env client _ _)
            (next (success-Steady env client _) (λ _. multicast-Steady env _ _)))))))))
