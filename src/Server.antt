-- ===== src/Server.antt =====
-- src/server/epollServer.cpp, `handleClientRequest`: each event on a client's connection gets a handler of
-- its own, with an empty `session_`, and all handlers share the managers.
pub mod Runs
pub mod Loop
pub mod Watched
pub mod Opened
pub mod Port
pub mod Held
pub mod Elsewhere
pub mod Apart
pub mod Stands
pub mod Answered
pub mod Dialogue
pub mod Printed
use fz_server.Prelude.{ℕ, List, [], ◌∷◌, Option, none, some}
use fz_server.Prelude.Int.{ℤ}
use fz_server.Memory.{Bytes}
use fz_server.Net.{Frame}
use fz_server.Rtsp.State.{RtspHandler, Outside}
use fz_server.Rtsp.Handle.{Handled, handle_request}

-- An event: the connection, the peer, what `recv` delivers, and what the request finds outside.
pub record Event : Type 0 where
  pub outside : Outside
  pub client_fd : ℤ
  pub client_ip : Bytes
  pub streamed : List Frame
  pub received : Option Bytes

-- `createHandler("RTSP")`, over the shared managers.
unfoldable pub create_handler : RtspHandler → RtspHandler
create_handler shared = record shared { session = [] }

unfoldable pub handle_client_request : Event → RtspHandler → Option Handled
unfolding create_handler handle_request
handle_client_request e shared =
    handle_request e.outside e.client_fd e.client_ip e.streamed e.received (create_handler shared)

-- The events on client connections that the loop reports, one after another. A new connection and an
-- error of epoll change nothing of the managers.
unfoldable pub serve : List Event → RtspHandler → Option RtspHandler
unfolding handle_client_request
serve [] shared = some shared
serve (e ∷ es) shared = elim (handle_client_request e shared) [
  | none ↦ none
  | some r ↦ serve es r.handler
]
