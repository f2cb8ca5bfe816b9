-- ===== src/Database/Vehicles/Untouched.antt =====
-- The methods of common/Database.cpp that leave the table `vehicles` alone.
use protokol_javni_prevoz.Prelude.{ℕ, Bool, false, not, refl, arith}
use protokol_javni_prevoz.Prelude.Int.{pos, pos_part, leb_ℤ, ltb_ℤ}
use protokol_javni_prevoz.Text.{Str, str, is_empty}
use protokol_javni_prevoz.Platform.{Platform}
use protokol_javni_prevoz.Database.Rows.{User, Group, Member, Ticket, Payment}
use protokol_javni_prevoz.Database.{
  Row, row, no_row, failed, sqlite_constraint, sqlite_notfound, own_error, prepare_statement, step,
  select, expect_done, now_iso, c_str,
}
use protokol_javni_prevoz.Database.Vehicles.Bounds.{
  Keeps, after, returns, choose, fails, clears, untouched, expect_done-Keeps, prepared,
  now_iso-Keeps, select-Keeps,
}
use protokol_javni_prevoz.Database.Vehicles.{get_vehicle, get_vehicle_by_route_and_type}
use protokol_javni_prevoz.Database.Users.{insert_user, register_user, get_user}
use protokol_javni_prevoz.Database.Groups.{
  id_or_minus_one, create_group, get_group_leader, add_user_to_group, remove_user_from_group,
  add_leader, resolve_id, creation_date, user_exists, get_group_id_by_name, check_member,
  add_or_reactivate, reactivate, add_new_member, remove_member,
}
use protokol_javni_prevoz.Database.Groups.Rows.{
  find_group, find_member, insert_group, put_member, reactivate_member, insert_member,
  delete_member,
}
use protokol_javni_prevoz.Database.Tickets.{
  insert_ticket, insert_payment, create_ticket, record_payment,
}
use protokol_javni_prevoz.Database.Prices.{
  update_prices, insert_price, insert_if_none, update_price,
}

module _ (env : Platform) where
  open env use {Real}

  pub register_user-Keeps : (u : User) → Keeps (register_user env u)
  unfolding register_user prepare_statement step insert_user
  register_user-Keeps u = untouched (λ db. ground arith)

  pub get_user-Keeps : (urn : Str) → Keeps (get_user env urn)
  unfolding get_user prepare_statement select
  get_user-Keeps urn = untouched (λ db. ground arith)

  pub get_vehicle-Keeps : (uri : Str) → Keeps (get_vehicle env uri)
  unfolding get_vehicle prepare_statement select
  get_vehicle-Keeps uri = untouched (λ db. ground arith)

  pub on_route-Keeps :
      (route : Str) (type : ℕ) → Keeps (get_vehicle_by_route_and_type env route type)
  unfolding get_vehicle_by_route_and_type prepare_statement select
  on_route-Keeps route type = untouched (λ db. ground arith)

  pub create_ticket-Keeps : (k : Ticket Real) → Keeps (create_ticket env k)
  unfolding create_ticket prepare_statement step insert_ticket expect_done
  create_ticket-Keeps k = untouched (λ db. ground arith)

  pub record_payment-Keeps : (p : Payment Real) → Keeps (record_payment env p)
  unfolding record_payment prepare_statement step insert_payment expect_done
  record_payment-Keeps p = untouched (λ db. ground arith)

  pub update_price-Keeps : (vt kind : ℕ) (price : Real) → Keeps (update_price env vt kind price)
  unfolding update_price prepare_statement step update_prices insert_price insert_if_none
      expect_done now_iso
  update_price-Keeps vt kind price = untouched (λ db. ground arith)

  pub get_group_leader-Keeps : (name : Str) → Keeps (get_group_leader env name)
  unfolding get_group_leader prepare_statement select
  get_group_leader-Keeps name = untouched (λ db. ground arith)

  add_leader-Keeps : (g : Group) (id : ℕ) → Keeps (add_leader env g id)
  unfolding add_leader prepare_statement step put_member now_iso expect_done
  add_leader-Keeps g id = untouched (λ db. ground arith)

  resolve_id-Keeps : (g : Group) → Keeps (resolve_id env g)
  unfolding resolve_id
  resolve_id-Keeps g = prepared env (returns false) (
      after (select-Keeps env (λ t. find_group (c_str g.group_name) t.groups)) (λ r.
        choose (ltb_ℤ (id_or_minus_one env r) (pos 0))
          (fails (str "Failed to resolve new group_id") own_error)
          (add_leader-Keeps g (pos_part (id_or_minus_one env r)))))

  creation_date-Keeps : (g : Group) → Keeps (creation_date env g)
  unfolding creation_date
  creation_date-Keeps g =
      choose (is_empty g.creation_date) (now_iso-Keeps env) (returns g.creation_date)

  reads : Keeps {R = Real} (λ db. (db.foreign_keys, db))
  reads = untouched (λ db. refl)

  insert_group-Keeps :
      (g : Group) (foreign_keys : Bool) (created : Str)
      → Keeps (
          step env (
            insert_group foreign_keys
              (c_str g.group_name)
              (c_str g.leader_urn)
              (c_str created)
              g.active))
  unfolding step insert_group
  insert_group-Keeps g foreign_keys created = untouched (λ db. ground arith)

  pub create_group-Keeps : (g : Group) → Keeps (create_group env g)
  unfolding create_group
  create_group-Keeps g = prepared env (returns false) (
      after (creation_date-Keeps g) (λ created. after reads (λ foreign_keys.
        after (insert_group-Keeps g foreign_keys created) (λ r.
          after (expect_done-Keeps (str "Failed to create group (is name unique?)") r.0)
            (λ done. choose (not done) (returns false) (resolve_id-Keeps g))))))

  reactivate-Keeps : (urn : Str) (id : ℕ) → Keeps (reactivate env urn id)
  unfolding reactivate prepare_statement step now_iso reactivate_member expect_done
  reactivate-Keeps urn id = untouched (λ db. ground arith)

  add_new_member-Keeps : (urn : Str) (id : ℕ) → Keeps (add_new_member env urn id)
  unfolding add_new_member prepare_statement step now_iso insert_member expect_done
  add_new_member-Keeps urn id = untouched (λ db. ground arith)

  add_or_reactivate-Keeps :
      (urn : Str) (id : ℕ) (r : Row Member) → Keeps (add_or_reactivate env urn id r)
  unfolding add_or_reactivate
  add_or_reactivate-Keeps urn id (row m) =
      choose m.active (fails (str "User already in group") sqlite_constraint)
        (reactivate-Keeps urn id)
  add_or_reactivate-Keeps urn id no_row = add_new_member-Keeps urn id
  add_or_reactivate-Keeps urn id (failed rc) = add_new_member-Keeps urn id

  check_member-Keeps : (urn : Str) (id : ℕ) → Keeps (check_member env urn id)
  unfolding check_member
  check_member-Keeps urn id = prepared env (returns false) (
      after (select-Keeps env (λ t. find_member id (c_str urn) t.group_members))
        (λ r. add_or_reactivate-Keeps urn id r))

  user_exists-Keeps : (urn : Str) → Keeps (user_exists env urn)
  unfolding user_exists prepare_statement select
  user_exists-Keeps urn = untouched (λ db. ground arith)

  group_id-Keeps : (name : Str) → Keeps (get_group_id_by_name env name)
  unfolding get_group_id_by_name prepare_statement select
  group_id-Keeps name = untouched (λ db. ground arith)

  pub add_user_to_group-Keeps : (urn name : Str) → Keeps (add_user_to_group env urn name)
  unfolding add_user_to_group
  add_user_to_group-Keeps urn name = after clears (λ _. after (user_exists-Keeps urn) (λ exists.
      choose (not exists) (fails (str "User not found") sqlite_notfound) (
        after (group_id-Keeps name) (λ id.
          choose (leb_ℤ id (pos 0)) (fails (str "Group not found") sqlite_notfound)
            (check_member-Keeps urn (pos_part id))))))

  pub remove_user_from_group-Keeps : (urn name : Str) → Keeps (remove_user_from_group env urn name)
  unfolding remove_user_from_group get_group_id_by_name remove_member prepare_statement select step
      delete_member expect_done
  remove_user_from_group-Keeps urn name = untouched (λ db. ground arith)
