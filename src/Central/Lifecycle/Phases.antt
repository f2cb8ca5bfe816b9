-- ===== src/Central/Lifecycle/Phases.antt =====
-- What start and stop of server/CentralServer.cpp promise: the server serves, has stopped, or is up
-- without a port.
use protokol_javni_prevoz.Prelude.{◌≡◌, Bool, true, false, Option, none, some}
use protokol_javni_prevoz.Database.Pool.{Pool}
use protokol_javni_prevoz.TlsServer.{
  Thread, absent, joinable, joined, TlsServer, Opening, opened, no_certificate, no_port, no_accept,
}
use protokol_javni_prevoz.Central.Lifecycle.{CentralServer}

pub data Phase : Type 0 where
  idle : Phase
  serving : Phase
  deaf : Phase

abbrev pub is_up : Phase → Bool
is_up idle = false
is_up serving = true
is_up deaf = true

abbrev pub is_serving : Phase → Bool
is_serving idle = false
is_serving serving = true
is_serving deaf = false

abbrev pub accepts : Option TlsServer → Bool
accepts none = false
accepts (some t) = t.running

abbrev pub is_joinable : Thread → Bool
is_joinable absent = false
is_joinable joinable = true
is_joinable joined = false

pub record Shows {R : Type 0} (phase : Phase) (s : CentralServer R) : Type 0 where
  pub running : s.running ≡ is_up phase
  pub background : s.background_running ≡ is_up phase
  pub collection : is_joinable s.data_collection_thread ≡ is_up phase
  pub heartbeat : is_joinable s.heartbeat_thread ≡ is_up phase
  pub cleanup : is_joinable s.cleanup_thread ≡ is_up phase
  pub accepting : accepts s.tls_server ≡ is_serving phase
  pub multicast : is_joinable s.mcast_thread ≡ true → is_up phase ≡ true

-- What start promises, with whether the pool and the port opened: its answer and the phase after
-- it. `none`: the program is at its end.
abbrev pub promise_start : Bool → Bool → Phase → Option (Bool × Phase)
promise_start false listening phase = some (false, phase)
promise_start true false idle = some (false, idle)
promise_start true false serving = some (false, deaf)
promise_start true false deaf = some (false, deaf)
promise_start true true idle = some (true, serving)
promise_start true true serving = none
promise_start true true deaf = none

abbrev pub opens : Opening → Bool
opens opened = true
opens no_certificate = false
opens no_port = false
opens no_accept = false

abbrev pub Meets :
    {R : Type 0} → Pool R → Option (Bool × CentralServer R) → Option (Bool × Phase) → Type 0
Meets pool none none = Unit {0}
Meets pool none (some p) = ⊥
Meets pool (some a) none = ⊥
Meets pool (some a) (some p) = (a.0 ≡ p.0) × Shows p.1 a.1 × (a.1.pool ≡ pool)
