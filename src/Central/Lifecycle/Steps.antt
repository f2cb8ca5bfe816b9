-- ===== src/Central/Lifecycle/Steps.antt =====
-- One call of start or stop, server/CentralServer.cpp, against what it promises.
use protokol_javni_prevoz.Prelude.{
  ◌≡◌, refl, sym, ◌∙◌, ap, subst, not, Bool, true, false, Option, none, some, if◌then◌else◌,
}
use protokol_javni_prevoz.Prelude.Int.{ℤ}
use protokol_javni_prevoz.Platform.{Platform}
use protokol_javni_prevoz.Database.Pool.{Pool, initialize_pool}
use protokol_javni_prevoz.TlsServer.{
  Thread, absent, joinable, joined, join, TlsServer, fresh, Opening, opened, no_certificate,
  no_port, no_accept, open_port, start, stop,
}
use protokol_javni_prevoz.Central.Lifecycle.{
  CentralServer, Attempt, cleanup_multicast, stop_background_tasks, enter_service, stop_server,
  start_server,
}
use protokol_javni_prevoz.Central.Lifecycle.Phases.{
  Phase, idle, serving, deaf, is_up, is_serving, accepts, is_joinable, Shows, promise_start, opens,
  Meets,
}
use protokol_javni_prevoz.Central.Lifecycle.Service.{go_on-free, go_on-taken}

is_joinable-join : (t : Thread) → is_joinable (join t) ≡ false
unfolding join
is_joinable-join absent = refl
is_joinable-join joinable = refl
is_joinable-join joined = refl

not_up : (b : Bool) → (b ≡ true → false ≡ true) → b ≡ false
not_up false h = refl
not_up true h = sym (h refl)

-- What start leaves behind where it gives up.
Shows-refused :
    {R : Type 0} (phase after : Phase) (s : CentralServer R) (port : ℤ) (pool : Pool R)
    (t : Option TlsServer)
    → Shows phase s
    → is_up phase ≡ is_up after
    → accepts t ≡ is_serving after
    → Shows after (record s { port = port; pool = pool; tls_server = t })
Shows-refused phase after s port pool t h u a = record {
  running = h.running ∙ u;
  background = h.background ∙ u;
  collection = h.collection ∙ u;
  heartbeat = h.heartbeat ∙ u;
  cleanup = h.cleanup ∙ u;
  accepting = a;
  multicast = λ e. sym u ∙ h.multicast e;
}

not_taken {ℓ} : {A : Type ℓ} (b : Bool) (x y : A) → b ≡ false → (if not b then x else y) ≡ x
not_taken false x y e = refl
not_taken true x y e = cc

taken {ℓ} : {A : Type ℓ} (b : Bool) (x y : A) → b ≡ true → (if not b then x else y) ≡ y
taken false x y e = cc
taken true x y e = refl

stop-running : (b : Bool) (t : TlsServer) → t.running ≡ b → (stop t).running ≡ false
unfolding stop
stop-running false t e = ap (λ t. t.running) (not_taken t.running t _ e) ∙ e
stop-running true t e = ap (λ t. t.running) (taken t.running t _ e)

accepts-stop :
    (t : Option TlsServer) → accepts (elim t [ none ↦ none | some t ↦ some (stop t) ]) ≡ false
accepts-stop none = refl
accepts-stop (some t) = stop-running t.running t refl

stopped :
    {R : Type 0} (s : CentralServer R)
    → Shows idle (record s {
      running = false;
      background_running = false;
      data_collection_thread = join s.data_collection_thread;
      heartbeat_thread = join s.heartbeat_thread;
      cleanup_thread = join s.cleanup_thread;
      mcast_open = false;
      mcast_thread = absent;
      tls_server = elim s.tls_server [ none ↦ none | some t ↦ some (stop t) ];
    })
stopped s = record {
  running = refl;
  background = refl;
  collection = is_joinable-join s.data_collection_thread;
  heartbeat = is_joinable-join s.heartbeat_thread;
  cleanup = is_joinable-join s.cleanup_thread;
  accepting = accepts-stop s.tls_server;
  multicast = λ e. e;
}

pub stop_server-Shows :
    {R : Type 0} (phase : Phase) (s : CentralServer R)
    → Shows phase s
    → Shows idle (stop_server s) × ((stop_server s).pool ≡ s.pool)
unfolding stop_server stop_background_tasks cleanup_multicast
stop_server-Shows idle s h =
    subst (λ s'. Shows idle s' × (s'.pool ≡ s.pool)) (sym (not_taken s.running s _ h.running))
      (h, refl)
stop_server-Shows serving s h =
    subst (λ s'. Shows idle s' × (s'.pool ≡ s.pool)) (sym (taken s.running s _ h.running))
      (stopped s, refl)
stop_server-Shows deaf s h =
    subst (λ s'. Shows idle s' × (s'.pool ≡ s.pool)) (sym (taken s.running s _ h.running))
      (stopped s, refl)

module _ (env : Platform) where
  open env use {Real}

  -- From the tested results on.
  abbrev started :
      Bool
      → Bool × TlsServer
      → ℤ
      → Attempt
      → Pool Real
      → CentralServer Real
      → Option (Bool × CentralServer Real)
  started false tls port attempt pool s = some (false, record s { port = port; pool = pool })
  started true (false, t) port attempt pool s =
      some (false, record s { port = port; pool = pool; tls_server = some t })
  started true (true, t) port attempt pool s =
      enter_service attempt (record s { port = port; pool = pool; tls_server = some t })

  start_server-started :
      (ready : Bool) (tls : Bool × TlsServer) (port : ℤ) (attempt : Attempt) (pool : Pool Real)
      (s : CentralServer Real)
      → initialize_pool env 5 s.pool ≡ (ready, pool)
      → start attempt.tls fresh ≡ tls
      → start_server env port attempt s ≡ started ready tls port attempt pool s
  unfolding start_server
  start_server-started false tls port attempt pool s e f = rw (e, start_server) refl
  start_server-started true (false, t) port attempt pool s e f = rw (e, f, start_server) refl
  start_server-started true (true, t) port attempt pool s e f = rw (e, f, start_server) refl

  start-opens :
      (o : Opening) → ((start o fresh).0 ≡ opens o) × ((start o fresh).1.running ≡ opens o)
  unfolding start open_port
  start-opens opened = (refl, refl)
  start-opens no_certificate = (refl, refl)
  start-opens no_port = (refl, refl)
  start-opens no_accept = (refl, refl)

  started-Meets :
      (phase : Phase) (ready : Bool) (tls : Bool × TlsServer) (port : ℤ) (attempt : Attempt)
      (pool : Pool Real) (s : CentralServer Real)
      → Shows phase s
      → tls.1.running ≡ tls.0
      → Meets pool (started ready tls port attempt pool s) (promise_start ready tls.0 phase)
  unfolding enter_service
  started-Meets phase false tls port attempt pool s h r =
      (refl, Shows-refused phase phase s port pool s.tls_server h refl h.accepting, refl)
  started-Meets idle true (false, t) port attempt pool s h r =
      (refl, Shows-refused idle idle s port pool (some t) h refl r, refl)
  started-Meets serving true (false, t) port attempt pool s h r =
      (refl, Shows-refused serving deaf s port pool (some t) h refl r, refl)
  started-Meets deaf true (false, t) port attempt pool s h r =
      (refl, Shows-refused deaf deaf s port pool (some t) h refl r, refl)
  started-Meets idle true (true, t) port attempt pool s h r =
      go_on-free s.enable_multicast attempt.multicast attempt
        (record s { port = port; pool = pool; tls_server = some t }) r
        (record { collection = h.collection; heartbeat = h.heartbeat; cleanup = h.cleanup })
        (not_up (is_joinable s.mcast_thread) h.multicast)
  started-Meets serving true (true, t) port attempt pool s h r =
      subst (λ o. Meets pool o none)
        (sym (
          go_on-taken s.enable_multicast attempt.multicast attempt
            (record s { port = port; pool = pool; tls_server = some t }) h.collection))
        tt
  started-Meets deaf true (true, t) port attempt pool s h r =
      subst (λ o. Meets pool o none)
        (sym (
          go_on-taken s.enable_multicast attempt.multicast attempt
            (record s { port = port; pool = pool; tls_server = some t }) h.collection))
        tt

  pub start_server-Meets :
      (phase : Phase) (port : ℤ) (attempt : Attempt) (s : CentralServer Real)
      → Shows phase s
      → Meets
          (initialize_pool env 5 s.pool).1
          (start_server env port attempt s)
          (promise_start (initialize_pool env 5 s.pool).0 (opens attempt.tls) phase)
  start_server-Meets phase port attempt s h =
      let pool = initialize_pool env 5 s.pool in
      let tls = start attempt.tls fresh in
      let o = start-opens attempt.tls in
      subst (λ b. Meets pool.1 (start_server env port attempt s) (promise_start pool.0 b phase)) o.0
        (subst (λ r. Meets pool.1 r (promise_start pool.0 tls.0 phase))
          (sym (start_server-started pool.0 tls port attempt pool.1 s refl refl))
          (started-Meets phase pool.0 tls port attempt pool.1 s h (o.1 ∙ sym o.0)))
