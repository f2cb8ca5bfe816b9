-- ===== src/TlsServer.antt =====
-- class TLSServer of common/TLSServer.cpp: what starts and stops. The handshakes and what arrives
-- are Boost.Asio's.
use protokol_javni_prevoz.Prelude.{Bool, true, false, not, if◌then◌else◌}

-- std::unique_ptr<std::thread>.
pub data Thread : Type 0 where
  absent : Thread
  joinable : Thread
  joined : Thread

-- `if (t && t->joinable()) t->join();`, for a thread that ends.
unfoldable pub join : Thread → Thread
join absent = absent
join joinable = joined
join joined = joined

pub record TlsServer : Type 0 where
  pub running : Bool
  pub has_context : Bool
  pub has_acceptor : Bool
  pub io_thread : Thread

-- TLSServer::TLSServer.
abbrev pub fresh : TlsServer
fresh = record { running = false; has_context = false; has_acceptor = false; io_thread = absent }

-- How far the calls of Boost.Asio get: all of them; up to the certificate or the key; up to the
-- acceptor on the port; up to the options of the acceptor, the first accept or the thread.
pub data Opening : Type 0 where
  opened : Opening
  no_certificate : Opening
  no_port : Opening
  no_accept : Opening

unfoldable pub open_port : Opening → TlsServer → Bool × TlsServer
open_port opened s =
    (true, record { running = true; has_context = true; has_acceptor = true; io_thread = joinable })
open_port no_certificate s = (false, record s { running = false; has_context = true })
open_port no_port s = (false, record s { running = false; has_context = true })
open_port no_accept s =
    (false, record s { running = false; has_context = true; has_acceptor = true })

-- TLSServer::start, on a server whose thread is not running.
unfoldable pub start : Opening → TlsServer → Bool × TlsServer
unfolding open_port
start opening s = if s.running then (true, s) else open_port opening s

-- TLSServer::stop.
unfoldable pub stop : TlsServer → TlsServer
unfolding join
stop s = if not s.running then s else record {
  running = false;
  has_context = false;
  has_acceptor = false;
  io_thread = join s.io_thread;
}
