-- ===== src/Central/Lifecycle.antt =====
-- start and stop of server/CentralServer.cpp, with the background tasks and the multicast socket.
-- What Boost.Asio and the clock answer is part of the call of start.
pub mod Phases
pub mod Service
pub mod Steps
pub mod Commands
pub mod Serving
use protokol_javni_prevoz.Prelude.{
  ℕ, Bool, true, false, not, Option, none, some, List, [], ◌∷◌, if◌then◌else◌,
}
use protokol_javni_prevoz.Prelude.Int.{ℤ, pos}
use protokol_javni_prevoz.Platform.{Platform}
use protokol_javni_prevoz.Database.Pool.{Pool, initialize_pool}
use protokol_javni_prevoz.TlsServer.{
  Thread, absent, joinable, joined, join, TlsServer, fresh, Opening, start, stop,
}

-- The members of CentralServer and ServerBase that start and stop read or write.
pub record CentralServer (Real : Type 0) : Type 0 where
  pub port : ℤ
  pub running : Bool
  pub start_time : ℕ
  pub enable_multicast : Bool
  pub tls_server : Option TlsServer
  pub background_running : Bool
  pub data_collection_thread : Thread
  pub heartbeat_thread : Thread
  pub cleanup_thread : Thread
  pub mcast_open : Bool
  pub mcast_thread : Thread
  pub pool : Pool Real

-- CentralServer::CentralServer, with the pool of the process.
abbrev pub constructed : {R : Type 0} → Pool R → CentralServer R
constructed pool = record {
  port = pos 0;
  running = false;
  start_time = 0;
  enable_multicast = false;
  tls_server = none;
  background_running = false;
  data_collection_thread = absent;
  heartbeat_thread = absent;
  cleanup_thread = absent;
  mcast_open = false;
  mcast_thread = absent;
  pool = pool;
}

-- What one call of start meets: the TLS server, the multicast socket, the clock.
pub record Attempt : Type 0 where
  pub tls : Opening
  pub multicast : Bool
  pub at : ℕ

-- `thread_ = std::make_unique<std::thread>(...)`: to destroy a thread that is still joinable ends
-- the program, which `none` stands for.
unfoldable pub assign_thread : Thread → Option Thread
assign_thread absent = some joinable
assign_thread joinable = none
assign_thread joined = some joinable

-- CentralServer::setupMulticast. To replace the io_context of a thread that runs is undefined.
unfoldable pub setup_multicast :
    {R : Type 0} → Bool → CentralServer R → Option (Bool × CentralServer R)
unfolding assign_thread
setup_multicast set_up s = elim (assign_thread s.mcast_thread) [
  | none ↦ none
  | some thread ↦
      if set_up
      then some (true, record s { mcast_open = true; mcast_thread = thread })
      else some (false, record s { mcast_open = false; mcast_thread = absent })
]

-- CentralServer::cleanupMulticast.
unfoldable pub cleanup_multicast : {R : Type 0} → CentralServer R → CentralServer R
cleanup_multicast s = record s { mcast_open = false; mcast_thread = absent }

-- CentralServer::startBackgroundTasks.
unfoldable pub start_background_tasks : {R : Type 0} → CentralServer R → Option (CentralServer R)
unfolding assign_thread
start_background_tasks s = elim (assign_thread s.data_collection_thread) [
  | none ↦ none
  | some collection ↦ elim (assign_thread s.heartbeat_thread) [
    | none ↦ none
    | some heartbeat ↦ elim (assign_thread s.cleanup_thread) [
      | none ↦ none
      | some cleanup ↦ some (record s {
        background_running = true;
        data_collection_thread = collection;
        heartbeat_thread = heartbeat;
        cleanup_thread = cleanup;
      })
    ]
  ]
]

-- CentralServer::stopBackgroundTasks. The loops end when they next look at background_running_.
unfoldable pub stop_background_tasks : {R : Type 0} → CentralServer R → CentralServer R
unfolding join
stop_background_tasks s = record s {
  background_running = false;
  data_collection_thread = join s.data_collection_thread;
  heartbeat_thread = join s.heartbeat_thread;
  cleanup_thread = join s.cleanup_thread;
}

-- The last lines of start.
unfoldable pub begin_service :
    {R : Type 0} → Attempt → CentralServer R → Option (Bool × CentralServer R)
begin_service attempt s =
    elim (start_background_tasks (record s { running = true; start_time = attempt.at })) [
      | none ↦ none
      | some started ↦ some (true, started)
    ]

-- From the multicast socket on.
unfoldable pub enter_service :
    {R : Type 0} → Attempt → CentralServer R → Option (Bool × CentralServer R)
enter_service attempt s =
    elim (if s.enable_multicast then setup_multicast attempt.multicast s else some (true, s)) [
      | none ↦ none
      | some ready ↦ begin_service attempt ready.1
    ]

-- CentralServer::stop.
unfoldable pub stop_server : {R : Type 0} → CentralServer R → CentralServer R
unfolding stop_background_tasks cleanup_multicast
stop_server s =
    if not s.running
    then s
    else let quiet = cleanup_multicast (stop_background_tasks (record s { running = false })) in
      record quiet { tls_server = elim quiet.tls_server [ none ↦ none | some t ↦ some (stop t) ] }

module _ (env : Platform) where
  open env use {Real}

  -- CentralServer::start and initializeDatabase. The TLS server from before is stopped when it is
  -- destroyed. Only the log tells of loadConfiguration.
  unfoldable pub start_server :
      ℤ → Attempt → CentralServer Real → Option (Bool × CentralServer Real)
  unfolding enter_service
  start_server port attempt s =
      let (opened, pool) = initialize_pool env 5 s.pool in
      let (listening, tls) = start attempt.tls fresh in
      let s = record s { port = port; pool = pool } in
      if not opened
      then some (false, s)
      else let s = record s { tls_server = some tls } in
        if not listening then some (false, s) else enter_service attempt s
