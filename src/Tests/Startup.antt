-- ===== src/Tests/Startup.antt =====
-- The server at its start, with concrete answers of the system, and datagrams.
use protokol_javni_prevoz.Prelude.{
  ◌≡◌, ◌<◌, List, refl, true, false, none, some, [], ◌∷◌, arith, if◌then◌else◌, ◌||◌, ◌==◌, ltb,
}
use protokol_javni_prevoz.Prelude.Int.{pos}
use protokol_javni_prevoz.Text.{str}
use protokol_javni_prevoz.Database.Pool.{
  resize, initialize_pool, initialize_connections, initialize, create_tables, execute_sql,
}
use protokol_javni_prevoz.Database.Pool.Lending.{count_free}
use protokol_javni_prevoz.TlsServer.{joinable, opened, no_port, open_port, start}
use protokol_javni_prevoz.Central.{Server}
use protokol_javni_prevoz.Central.Discovery.{announce, answer_datagram}
use protokol_javni_prevoz.Central.Dispatch.{handle_client_message}
use protokol_javni_prevoz.Central.Dispatch.Pooling.{PoolKept}
use protokol_javni_prevoz.Central.Lifecycle.{
  CentralServer, Attempt, constructed, assign_thread, start_background_tasks, begin_service,
  enter_service, start_server,
}
use protokol_javni_prevoz.Central.Lifecycle.Phases.{idle, Shows}
use protokol_javni_prevoz.Central.Lifecycle.Commands.{Command, start_on, stop_now}
use protokol_javni_prevoz.Central.Lifecycle.Serving.{start_server-PoolKept}
use protokol_javni_prevoz.Client.Discovery.{discover, discover_server, discover_server-announce}
use protokol_javni_prevoz.Text.Decimal.{nat_to_string}
use protokol_javni_prevoz.Logger.{info, warning, error, Logging}
use protokol_javni_prevoz.Logger.Promise.{
  logger_of, Call, write, configure, set_level, Leaves, describe, perform,
}
use protokol_javni_prevoz.Logger.Lines.{perform-Leaves}
use protokol_javni_prevoz.Tests.{ideal, no_pool, started, script}

abbrev works : Attempt
works = record { tls = opened; multicast = false; at = 1700000000 }

abbrev port_in_use : Attempt
port_in_use = record works { tls = no_port }

abbrev down : CentralServer ideal.Real
down = constructed no_pool

down-Shows : Shows idle down
down-Shows = record {
  running = refl;
  background = refl;
  collection = refl;
  heartbeat = refl;
  cleanup = refl;
  accepting = refl;
  multicast = λ e. e;
}

abbrev commands : List Command
commands =
    start_on (pos 8443) works
    ∷ stop_now
    ∷ start_on (pos 8443) works
    ∷ start_on (pos 8443) port_in_use
    ∷ stop_now
    ∷ []

abbrev up : CentralServer ideal.Real
up = record down {
  port = pos 8443;
  running = true;
  start_time = 1700000000;
  tls_server =
      some record { running = true; has_context = true; has_acceptor = true; io_thread = joinable };
  background_running = true;
  data_collection_thread = joinable;
  heartbeat_thread = joinable;
  cleanup_thread = joinable;
  pool = (initialize_pool ideal 5 no_pool).1;
}

started_up : start_server ideal (pos 8443) works down ≡ some (true, up)
unfolding start_server enter_service begin_service start_background_tasks assign_thread start
    open_port initialize_pool initialize_connections initialize create_tables execute_sql
started_up = refl

free_at_start : 0 < count_free (resize 5 true down.pool.available)
unfolding count_free resize
free_at_start = omega arith

abbrev serving_5 : Server ideal.Real
serving_5 = record started { pool = up.pool }

start_server-PoolKept_example :
    PoolKept ideal serving_5 (handle_client_message ideal script 1 serving_5)
start_server-PoolKept_example =
    start_server-PoolKept ideal idle (pos 8443) works down up script 1 serving_5 down-Shows
      free_at_start started_up refl

discover_server-announce_example :
    (answer_datagram (pos 8443) discover ≡ some (announce (pos 8443)))
    × (discover_server (some (str "10.0.0.7", announce (pos 8443)))
        ≡ (if 8443 == 0 || ltb 65535 8443 then none else some (str "10.0.0.7", pos 8443)))
discover_server-announce_example = discover_server-announce (str "10.0.0.7") 8443 (omega arith)

abbrev unlogged : Logging
unlogged = record { loggers = []; console = []; errors = []; files = []; readings = 0 }

abbrev log_calls : List Call
log_calls =
    configure (str "CentralServer") true (str "central.log") warning
    ∷ write (str "CentralServer") info (str "User registered")
    ∷ write (str "CentralServer") error (str "Failed to initialize database")
    ∷ set_level (str "UserInterface") error
    ∷ write (str "UserInterface") info (str "Connected")
    ∷ []

perform-Leaves_example :
    Leaves unlogged
      (describe nat_to_string (logger_of []) 0 log_calls)
      (perform nat_to_string log_calls unlogged)
perform-Leaves_example =
    perform-Leaves nat_to_string log_calls (logger_of []) unlogged (λ other. refl)
