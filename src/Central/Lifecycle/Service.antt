-- ===== src/Central/Lifecycle/Service.antt =====
-- The last part of CentralServer::start, server/CentralServer.cpp, from the multicast socket on: a
-- server that is down goes into service, one whose threads run does not survive it.
use protokol_javni_prevoz.Prelude.{
  ◌≡◌, refl, ◌∙◌, ap, Bool, true, false, Option, none, some, if◌then◌else◌,
}
use protokol_javni_prevoz.TlsServer.{Thread, absent, joinable, joined}
use protokol_javni_prevoz.Central.Lifecycle.{
  CentralServer, Attempt, assign_thread, setup_multicast, start_background_tasks, begin_service,
}
use protokol_javni_prevoz.Central.Lifecycle.Phases.{serving, accepts, is_joinable, Meets}

assign_thread-joinable : (t : Thread) → is_joinable t ≡ true → assign_thread t ≡ none
unfolding assign_thread
assign_thread-joinable absent h = cc
assign_thread-joinable joinable h = refl
assign_thread-joinable joined h = cc

assign_thread-free : (t : Thread) → is_joinable t ≡ false → assign_thread t ≡ some joinable
unfolding assign_thread
assign_thread-free absent h = refl
assign_thread-free joinable h = cc
assign_thread-free joined h = refl

start_background_tasks-free :
    {R : Type 0} (s : CentralServer R)
    → is_joinable s.data_collection_thread ≡ false
    → is_joinable s.heartbeat_thread ≡ false
    → is_joinable s.cleanup_thread ≡ false
    → start_background_tasks s
      ≡ some (record s {
        background_running = true;
        data_collection_thread = joinable;
        heartbeat_thread = joinable;
        cleanup_thread = joinable;
      })
unfolding start_background_tasks
start_background_tasks-free s c h k =
    rw
      (
        assign_thread-free s.data_collection_thread c,
        assign_thread-free s.heartbeat_thread h,
        assign_thread-free s.cleanup_thread k,
        start_background_tasks,
      )
      refl

start_background_tasks-taken :
    {R : Type 0} (s : CentralServer R)
    → is_joinable s.data_collection_thread ≡ true
    → start_background_tasks s ≡ none
unfolding start_background_tasks
start_background_tasks-taken s c =
    rw (assign_thread-joinable s.data_collection_thread c, start_background_tasks) refl

pub record IsDown {R : Type 0} (s : CentralServer R) : Type 0 where
  pub collection : is_joinable s.data_collection_thread ≡ false
  pub heartbeat : is_joinable s.heartbeat_thread ≡ false
  pub cleanup : is_joinable s.cleanup_thread ≡ false

begin_service-IsDown :
    {R : Type 0} (attempt : Attempt) (s : CentralServer R)
    → accepts s.tls_server ≡ true
    → IsDown s
    → Meets s.pool (begin_service attempt s) (some (true, serving))
unfolding begin_service
begin_service-IsDown attempt s a d =
    rw
      (
        start_background_tasks-free (record s { running = true; start_time = attempt.at })
            d.collection d.heartbeat d.cleanup,
        begin_service,
      )
      (
        refl,
        record {
          running = refl;
          background = refl;
          collection = refl;
          heartbeat = refl;
          cleanup = refl;
          accepting = a;
          multicast = λ e. refl;
        },
        refl,
      )

begin_service-taken :
    {R : Type 0} (attempt : Attempt) (s : CentralServer R)
    → is_joinable s.data_collection_thread ≡ true
    → begin_service attempt s ≡ none
unfolding begin_service
begin_service-taken attempt s c =
    rw
      (
        start_background_tasks-taken (record s { running = true; start_time = attempt.at }) c,
        begin_service,
      )
      refl

abbrev pub go_on :
    {R : Type 0} → Attempt → Option (Bool × CentralServer R) → Option (Bool × CentralServer R)
go_on attempt none = none
go_on attempt (some ready) = begin_service attempt ready.1

pub go_on-free :
    {R : Type 0} (b set_up : Bool) (attempt : Attempt) (s : CentralServer R)
    → accepts s.tls_server ≡ true
    → IsDown s
    → is_joinable s.mcast_thread ≡ false
    → Meets s.pool
        (go_on attempt (if b then setup_multicast set_up s else some (true, s)))
        (some (true, serving))
unfolding setup_multicast
go_on-free false set_up attempt s a d m = begin_service-IsDown attempt s a d
go_on-free true true attempt s a d m =
    rw (assign_thread-free s.mcast_thread m, setup_multicast)
      (begin_service-IsDown attempt (record s { mcast_open = true; mcast_thread = joinable }) a
        (record { collection = d.collection; heartbeat = d.heartbeat; cleanup = d.cleanup }))
go_on-free true false attempt s a d m =
    rw (assign_thread-free s.mcast_thread m, setup_multicast)
      (begin_service-IsDown attempt (record s { mcast_open = false; mcast_thread = absent }) a
        (record { collection = d.collection; heartbeat = d.heartbeat; cleanup = d.cleanup }))

abbrev set_up_with :
    {R : Type 0} → Bool → CentralServer R → Option Thread → Option (Bool × CentralServer R)
set_up_with set_up s none = none
set_up_with true s (some t) = some (true, record s { mcast_open = true; mcast_thread = t })
set_up_with false s (some t) = some (false, record s { mcast_open = false; mcast_thread = absent })

set_up-taken :
    {R : Type 0} (set_up : Bool) (t : Option Thread) (attempt : Attempt) (s : CentralServer R)
    → is_joinable s.data_collection_thread ≡ true
    → go_on attempt (set_up_with set_up s t) ≡ none
set_up-taken set_up none attempt s c = refl
set_up-taken true (some t) attempt s c =
    begin_service-taken attempt (record s { mcast_open = true; mcast_thread = t }) c
set_up-taken false (some t) attempt s c =
    begin_service-taken attempt (record s { mcast_open = false; mcast_thread = absent }) c

setup_multicast-set_up :
    {R : Type 0} (set_up : Bool) (t : Option Thread) (s : CentralServer R)
    → assign_thread s.mcast_thread ≡ t
    → setup_multicast set_up s ≡ set_up_with set_up s t
unfolding setup_multicast
setup_multicast-set_up set_up none s e = rw (e, setup_multicast) refl
setup_multicast-set_up true (some t) s e = rw (e, setup_multicast) refl
setup_multicast-set_up false (some t) s e = rw (e, setup_multicast) refl

pub go_on-taken :
    {R : Type 0} (b set_up : Bool) (attempt : Attempt) (s : CentralServer R)
    → is_joinable s.data_collection_thread ≡ true
    → go_on attempt (if b then setup_multicast set_up s else some (true, s)) ≡ none
go_on-taken false set_up attempt s c = begin_service-taken attempt s c
go_on-taken true set_up attempt s c =
    ap (go_on attempt) (setup_multicast-set_up set_up (assign_thread s.mcast_thread) s refl)
    ∙ set_up-taken set_up (assign_thread s.mcast_thread) attempt s c
