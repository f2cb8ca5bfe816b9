-- ===== src/Central/Groups/Removal.antt =====
-- handleRemoveMemberFromGroup of server/CentralServer.cpp as a whole: the check of the leader, then
-- the removal.
use protokol_javni_prevoz.Prelude.{
  ℕ, ◌<◌, ◌≡◌, refl, sym, ◌∙◌, ap, subst, Bool, true, false, ◌||◌, Option, none, some, List, [],
  ◌∷◌, ◌++◌, length, if◌then◌else◌,
}
use protokol_javni_prevoz.Prelude.Int.{ℤ}
use protokol_javni_prevoz.Text.{Str, str, is_empty}
use protokol_javni_prevoz.StdMap.{find}
use protokol_javni_prevoz.Message.{Message, get_string}
use protokol_javni_prevoz.Platform.{Platform}
use protokol_javni_prevoz.Database.Rows.{Tables}
use protokol_javni_prevoz.Database.Groups.{remove_user_from_group}
use protokol_javni_prevoz.Database.Pool.Lending.{count_free, IsPool}
use protokol_javni_prevoz.Central.{Session, Server, ◌>>=◌, pure}
use protokol_javni_prevoz.Central.Sessions.{find_session}
use protokol_javni_prevoz.Central.Groups.{
  check_leader, require_group_leader, remove_as_leader, handle_remove_member_from_group,
}
use protokol_javni_prevoz.Central.Groups.Leadership.{
  removal, refusal, tables_after, answer, Checked, check_leader_lem, finish,
  remove_user_from_group_lem,
}
use protokol_javni_prevoz.Central.Pooling.{At, HasFree}
use protokol_javni_prevoz.Central.Pooling.Management.{check_leader-Settles}
use protokol_javni_prevoz.Central.Triple.{Triple, Ends, NeverThrows, bind, given, from, also}
use protokol_javni_prevoz.Central.World.{World, Open, Reliable, acquire_lem, release_lem, call_lem}

module _ (env : Platform) (reliable : Reliable env) (t : Tables env.Real) (subs : List ℕ)
    (out : List (ℕ × Message)) (client : ℕ) (urn group : Str) where
  open env use {Real}

  remove_as_leader_lem :
      Triple NeverThrows (Open t subs out) (remove_as_leader env client urn group) (λ _.
        World
          (removal urn group t).1
          subs
          (out ++ (client, answer none (removal urn group t)) ∷ []))
  unfolding remove_as_leader
  remove_as_leader_lem =
      let done = removal urn group t in
      bind (acquire_lem t subs out) (λ i.
        bind
          (call_lem t subs out i (remove_user_from_group env urn group) (λ good. good ≡ done.0)
            done.1
            (λ db e.
              let r = remove_user_from_group_lem env reliable urn group db in
              (
                r.0 ∙ ap (λ x. (removal urn group x).0) e,
                r.1 ∙ ap (λ x. (removal urn group x).1) e,
              )))
          (λ good. given (λ g.
            bind (release_lem done.1 subs out i)
              (λ _. finish env reliable done.1 subs out client done good g))))

  module _ (av : List Bool) (n : ℕ) (free : HasFree av n) where
    again-Open : (s : Server Real) → World t subs out s × At av n s → Open t subs out s
    again-Open s p = record {
      world = p.0;
      free = subst (λ l. 0 < count_free l) (sym p.1.places) free.free;
    }

    carry_on :
        (r : Option (Str × ℤ)) (allowed : Bool)
        → Triple NeverThrows
            (λ s. Checked env reliable t subs out client r allowed s × At av n s)
            (if allowed then remove_as_leader env client urn group else pure tt)
            (λ _.
              World
                (tables_after r (removal urn group t) t)
                subs
                (out ++ (client, answer r (removal urn group t)) ∷ []))
    unfolding Checked
    carry_on none true = from (λ s p. again-Open s (p.0.1, p.1)) remove_as_leader_lem
    carry_on none false = record { run = λ s p. absurd (cc (p.0.0)) }
    carry_on (some r) true = record { run = λ s p. absurd (cc (p.0.0)) }
    carry_on (some r) false = record { run = λ s p. p.0.1 }

    removal_lem :
        (id : Str) (session : Option Session)
        → Triple NeverThrows
            (λ s. Open t subs out s × At av n s)
            (check_leader env client id group session >>= λ allowed.
              if allowed then remove_as_leader env client urn group else pure tt)
            (λ _.
              World
                (tables_after (refusal session group t) (removal urn group t) t)
                subs
                (out ++ (client, answer (refusal session group t) (removal urn group t)) ∷ []))
    removal_lem id session =
        bind
          (also (check_leader_lem env reliable t subs out client id group session)
            (check_leader-Settles env client id group session av n free))
          (λ allowed. carry_on (refusal session group t) allowed)

-- With SQLite and the network reliable, as many places as connections and one of them free, a
-- request with all its fields does what the description says, on every branch: without a known
-- session, without an active group of that name that has a leader, or from anybody but that
-- leader, no table changes and the client gets the error 401, 404 or 403; else exactly the
-- member's rows of that group are deleted, and the client is told whether there was one.
pub handle_remove_member_from_group_lem :
    (env : Platform) (m : Message) (client : ℕ) (s : Server env.Real)
    → Reliable env
    → IsPool s.pool
    → 0 < count_free s.pool.available
    → (is_empty (get_string m (str "session_id"))
        || is_empty (get_string m (str "group_name"))
        || is_empty (get_string m (str "urn")))
      ≡ false
    → Ends NeverThrows
        (λ _.
          World
            (tables_after
              (refusal
                (find (get_string m (str "session_id")) s.sessions)
                (get_string m (str "group_name"))
                s.pool.file.tables)
              (removal
                (get_string m (str "urn"))
                (get_string m (str "group_name"))
                s.pool.file.tables)
              s.pool.file.tables)
            s.subscribers
            (s.sent
              ++ (
                client,
                answer
                    (refusal
                      (find (get_string m (str "session_id")) s.sessions)
                      (get_string m (str "group_name"))
                      s.pool.file.tables)
                    (removal
                      (get_string m (str "urn"))
                      (get_string m (str "group_name"))
                      s.pool.file.tables),
              )
                ∷ []))
        (handle_remove_member_from_group env m client s)
unfolding handle_remove_member_from_group require_group_leader find_session
handle_remove_member_from_group_lem env m client s reliable p free h = rw h (
    (removal_lem env reliable s.pool.file.tables s.subscribers s.sent client
        (get_string m (str "urn")) (get_string m (str "group_name")) s.pool.available
        (length s.pool.available) (record { free = free; full_size = refl })
        (get_string m (str "session_id")) (find (get_string m (str "session_id")) s.sessions)).run
      s
      (
        record { world = record { tables = refl; subscribers = refl; sent = refl }; free = free },
        record { places = refl; connections = sym p.places },
      ))
