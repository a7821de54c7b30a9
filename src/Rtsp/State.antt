-- ===== src/Rtsp/State.antt =====
-- The state that a handler and the managers share, and what the outside answers.
use fz_server.Prelude.{ℕ, Bool}
use fz_server.Prelude.Int.{ℤ}
use fz_server.Memory.{Bytes}
use fz_server.Net.{Net}
use fz_server.Ports.{Os, PortManager}
use fz_server.Session.{RtspAttr, SessionManager, ClientFdManager, Heap}
use fz_server.Session.Status.{SessionStaus}

-- The members of `RtspHandler` that the dialogue uses, and the managers that its pointers reach.
pub record RtspHandler : Type 0 where
  pub client_fd : ℤ
  pub client_ip : Bytes
  pub session : Bytes
  pub clients : ClientFdManager
  pub sessions : SessionManager
  pub heap : Heap
  pub ports : PortManager
  pub net : Net

-- What this request finds outside: random bytes, the clock, the answers of `socket` and `bind`, and the
-- content of storage that is read before it is assigned.
pub record Outside : Type 0 where
  pub random_bytes : Bytes
  pub now : ℤ
  pub gmt_time : Bytes
  pub os : Os
  pub port_fuel : ℕ
  pub sockets : ℤ × ℤ
  pub binds : Bool × Bool
  pub stale_state : SessionStaus
  pub stale_attr : RtspAttr
  pub stale_reply : Bytes
  pub stale_ip : Bytes
  pub stale_method : Bytes
  pub stale_url : Bytes
  pub stale_session : Bytes
