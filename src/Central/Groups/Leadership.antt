-- ===== src/Central/Groups/Leadership.antt =====
-- handleRemoveMemberFromGroup and requireGroupLeader of server/CentralServer.cpp against a
-- description of who may remove whom, and what everybody is told.
use protokol_javni_prevoz.Central.Groups.{check_leader}
use protokol_javni_prevoz.Central.World.Finds.{Finds, after}
use protokol_javni_prevoz.Central.Sessions.{touch_session}
use protokol_javni_prevoz.Prelude.{
  ℕ, ◌+◌, ◌≡◌, Bool, true, false, not, Option, none, some, List, [], ◌∷◌, ◌++◌, ◌==◌, arith,
  if◌then◌else◌, ◌∙◌, ap, refl,
}
use protokol_javni_prevoz.Prelude.Int.{ℤ, pos}
use protokol_javni_prevoz.Text.{Str, str, eq_str, is_empty}
use protokol_javni_prevoz.Message.{Message}
use protokol_javni_prevoz.Message.Factory.{create_error_response, create_success_response}
use protokol_javni_prevoz.Platform.{Platform}
use protokol_javni_prevoz.Database.Rows.{Tables}
use protokol_javni_prevoz.Database.{Database, c_str, prepare_statement, select, step, expect_done}
use protokol_javni_prevoz.Database.Groups.Rows.{
  find_active_group, count_members, without_member, delete_member,
}
use protokol_javni_prevoz.Database.Groups.{
  get_group_leader, get_group_id_by_name, id_or_minus_one, remove_member, remove_user_from_group,
}
use protokol_javni_prevoz.Central.{
  Session, send_error_response, send_success_response, now, call, Server, ◌>>◌, pure,
}
use protokol_javni_prevoz.Central.Triple.{Triple, NeverThrows, from, bind}
use protokol_javni_prevoz.Central.World.{
  World, Reliable, send_response_lem, acquire_lem, release_lem, call_lem, Open,
}

-- The leader of the active group of a name; the empty text where there is none.
abbrev pub leader_of_group : {R : Type 0} → Str → Tables R → Str
leader_of_group name t = elim (find_active_group (c_str name) t.groups) [
  | none ↦ []
  | some g ↦ g.leader_urn
]

-- Whether the removal of a member succeeds, and the tables after it. Ids start at 1.
abbrev pub removal : {R : Type 0} → Str → Str → Tables R → Bool × Tables R
removal urn name t = elim (find_active_group (c_str name) t.groups) [
  | none ↦ (false, t)
  | some g ↦ if g.group_id == 0 then (false, t) else (
    not (count_members g.group_id (c_str urn) t.group_members == 0),
    record t { group_members = without_member g.group_id (c_str urn) t.group_members },
  )
]

module _ (env : Platform) (reliable : Reliable env) where
  open env use {Real}

  pub remove_user_from_group_lem :
      (urn name : Str) (db : Database Real)
      → ((remove_user_from_group env urn name db).0 ≡ (removal urn name db.tables).0)
        × ((remove_user_from_group env urn name db).1.tables ≡ (removal urn name db.tables).1)
  unfolding remove_user_from_group get_group_id_by_name id_or_minus_one remove_member
      prepare_statement select step delete_member expect_done
  remove_user_from_group_lem urn name db = ground (
    arith,
    reliable.never_fails db.calls,
    reliable.never_fails (db.calls + 1),
    reliable.never_fails (db.calls + 1 + 1),
    reliable.never_fails (db.calls + 1 + 1 + 1),
  )

  get_group_leader_lem :
      (name : Str) (db : Database Real)
      → ((get_group_leader env name db).0 ≡ leader_of_group name db.tables)
        × ((get_group_leader env name db).1.tables ≡ db.tables)
  unfolding get_group_leader prepare_statement select
  get_group_leader_lem name db =
      ground (arith, reliable.never_fails db.calls, reliable.never_fails (db.calls + 1))

-- Who may remove: the reason for a refusal, if there is one.
abbrev pub refusal : {R : Type 0} → Option Session → Str → Tables R → Option (Str × ℤ)
refusal none name t = some (str "Invalid or expired session", pos 401)
refusal (some session) name t =
    if is_empty (leader_of_group name t)
    then some (str "Group not found or no leader set", pos 404)
    else if not (eq_str (leader_of_group name t) session.user_urn)
    then some (str "Admin (group leader) privileges required", pos 403)
    else none

-- The tables after a removal, and the answer.
abbrev pub tables_after : {R : Type 0} → Option (Str × ℤ) → Bool × Tables R → Tables R → Tables R
tables_after (some r) done t = t
tables_after none done t = done.1

abbrev pub answer : {R : Type 0} → Option (Str × ℤ) → Bool × Tables R → Message
answer (some r) done = create_error_response r.0 r.1
answer none (true, t) = create_success_response (str "User removed from group") []
answer none (false, t) = create_error_response (str "Failed to remove user from group") (pos 500)

module _ (env : Platform) (reliable : Reliable env) (t : Tables env.Real) (subs : List ℕ)
    (out : List (ℕ × Message)) where
  open env use {Real}

  error_lem :
      (client : ℕ) (text : Str) (code : ℤ)
      → Triple NeverThrows
          (World t subs out)
          (send_error_response env client text code)
          (λ _. World t subs (out ++ (client, create_error_response text code) ∷ []))
  unfolding send_error_response
  error_lem client text code = send_response_lem env reliable t subs client _ out

  success_lem :
      (client : ℕ) (text : Str)
      → Triple NeverThrows
          (World t subs out)
          (send_success_response env client text)
          (λ _. World t subs (out ++ (client, create_success_response text []) ∷ []))
  unfolding send_success_response
  success_lem client text = send_response_lem env reliable t subs client _ out

  now-Open : Triple NeverThrows (Open t subs out) (now env) (λ _. Open t subs out)
  unfolding now
  now-Open = record {
    run = λ s p. record {
      world = record {
        tables = p.world.tables;
        subscribers = p.world.subscribers;
        sent = p.world.sent;
      };
      free = p.free;
    };
  }

  touch-Open :
      (id : Str) (session : Session) (time : ℕ)
      → Triple NeverThrows (Open t subs out) (touch_session id session time) (λ _. Open t subs out)
  unfolding touch_session
  touch-Open id session time = record {
    run = λ s p. record {
      world = record {
        tables = p.world.tables;
        subscribers = p.world.subscribers;
        sent = p.world.sent;
      };
      free = p.free;
    };
  }

  leader-Finds :
      (i : ℕ) (name : Str)
      → Finds t subs out (call i (get_group_leader env name)) (leader_of_group name t)
  leader-Finds i name = call_lem t subs out i (get_group_leader env name) _ t (λ db e.
      let r = get_group_leader_lem env reliable name db in
      (r.0 ∙ ap (leader_of_group name) e, r.1 ∙ e))

  -- Whether the removal goes on, and the refusal that has been sent if not.
  unfoldable pub Checked : ℕ → Option (Str × ℤ) → Bool → Server Real → Type 0
  Checked client none allowed s = (allowed ≡ true) × World t subs out s
  Checked client (some r) allowed s =
      (allowed ≡ false) × World t subs (out ++ (client, create_error_response r.0 r.1) ∷ []) s

  refused :
      (client : ℕ) (text : Str) (code : ℤ)
      → Triple NeverThrows
          (World t subs out)
          (send_error_response env client text code >> pure false)
          (Checked client (some (text, code)))
  unfolding Checked
  refused client text code =
      bind (error_lem client text code) (λ _. record { run = λ s p. (refl, p) })

  pub check_leader_lem :
      (client : ℕ) (id name : Str) (session : Option Session)
      → Triple NeverThrows
          (Open t subs out)
          (check_leader env client id name session)
          (Checked client (refusal session name t))
  unfolding check_leader
  check_leader_lem client id name none = from (λ s p. p.world) (refused client _ _)
  check_leader_lem client id name (some session) = bind now-Open (λ time.
      bind (touch-Open id session time) (λ _. bind (acquire_lem t subs out) (λ i.
        after t subs out _ (leader-Finds i name) (
          bind (release_lem t subs out i) (λ _.
            decide (is_empty (leader_of_group name t))
              (not (eq_str (leader_of_group name t) session.user_urn)))))))
    where
      decide :
          (a b : Bool)
          → Triple NeverThrows
              (World t subs out)
              (if a
                then (do
                  send_error_response env client (str "Group not found or no leader set") (pos 404)
                  pure false)
                else if b
                then (do
                  send_error_response env client
                      (str "Admin (group leader) privileges required")
                      (pos 403)
                  pure false)
                else pure true)
              (Checked client (
                if a
                then some (str "Group not found or no leader set", pos 404)
                else if b
                then some (str "Admin (group leader) privileges required", pos 403)
                else none))
      decide true b = refused client _ _
      decide false true = refused client _ _
      decide false false = record { run = λ s p. unfold Checked in (refl, p) }

  pub finish :
      (client : ℕ) (done : Bool × Tables Real) (good : Bool)
      → good ≡ done.0
      → Triple NeverThrows
          (World t subs out)
          (if good
            then send_success_response env client (str "User removed from group")
            else send_error_response env client (str "Failed to remove user from group") (pos 500))
          (λ _. World t subs (out ++ (client, answer none done) ∷ []))
  finish client (true, t') true e = success_lem client _
  finish client (true, t') false e = cc
  finish client (false, t') true e = cc
  finish client (false, t') false e = error_lem client _ _
