-- ===== src/Server/Loop.antt =====
-- src/server/epollServer.cpp: `initserver`, `init` with its loop over epoll's events, and `run`. What the
-- kernel answers is a parameter.
use fz_server.Prelude.{ℕ, Bool, false, not, ◌||◌, List, [], ◌∷◌, Option, none, some, if◌then◌else◌}
use fz_server.Prelude.Int.{ℤ, negsuc, negative, eqb_ℤ}
use fz_server.Memory.{Bytes}
use fz_server.Net.{to_u16}
use fz_server.Word.{htons}
use fz_server.Text.{bytes}
use fz_server.Ini.{new_ini, load, get}
use fz_server.Ini.Values.{to_int}
use fz_server.Rtsp.State.{RtspHandler}
use fz_server.Server.{Event, handle_client_request}

-- The answers of `socket`, `bind` and `listen`.
pub record SocketCalls : Type 0 where
  pub socket : ℤ
  pub bind_ok : Bool
  pub listen_ok : Bool

-- What `initserver` returns, the sockets that it closes, and the `sin_port` that `bind` is given.
pub record Listening : Type 0 where
  pub ret : ℤ
  pub closed : List ℤ
  pub sin_port : Option ℕ

unfoldable pub initserver : SocketCalls → ℤ → Listening
initserver k port =
    let sin_port = some (htons (to_u16 port)) in
    if negative k.socket
    then record { ret = negsuc 0; closed = []; sin_port = none }
    else if not k.bind_ok
    then record { ret = negsuc 0; closed = k.socket ∷ []; sin_port = sin_port }
    else if not k.listen_ok
    then record { ret = negsuc 0; closed = k.socket ∷ []; sin_port = sin_port }
    else record { ret = k.socket; closed = []; sin_port = sin_port }

-- One entry of `events`: whether its flags have an error, a hang-up, or no input; the descriptor; what
-- `accept` answers if it is the listening socket; the request if it is a client's.
pub record Ready : Type 0 where
  pub broken : Bool
  pub fd : ℤ
  pub accepted : ℤ
  pub request : Event

-- The descriptors that epoll watches, and the managers.
pub record EpollServer : Type 0 where
  pub server_fd : ℤ
  pub watched : List ℤ
  pub shared : RtspHandler

unfoldable pub is_watched : ℤ → List ℤ → Bool
is_watched fd [] = false
is_watched fd (f ∷ fs) = eqb_ℤ f fd || is_watched fd fs

-- `EPOLL_CTL_ADD`, which refuses a descriptor that is there.
unfoldable pub watch : ℤ → List ℤ → List ℤ
unfolding is_watched
watch fd fs = if is_watched fd fs then fs else fd ∷ fs

-- `close`, by which epoll drops the descriptor; also `EPOLL_CTL_DEL`.
unfoldable pub unwatch : ℤ → List ℤ → List ℤ
unwatch fd [] = []
unwatch fd (f ∷ fs) = let rest = unwatch fd fs in if eqb_ℤ f fd then rest else f ∷ rest

-- The request on the descriptor of the event.
abbrev pub request_of : Ready → Event
request_of e = record r { client_fd = e.fd }
  where
    open e use {request as r}

-- The body of the `for` loop; `none` is a crash.
unfoldable pub on_ready : Ready → EpollServer → Option EpollServer
unfolding unwatch watch handle_client_request
on_ready e s =
    if e.broken
    then some (record s { watched = unwatch e.fd s.watched })
    else if eqb_ℤ e.fd s.server_fd
    then (if negative e.accepted
        then some s
        else some (record s { watched = watch e.accepted s.watched }))
    else elim (handle_client_request (request_of e) s.shared) [
      | none ↦ none
      | some r ↦ some (record s {
        shared = r.handler;
        watched = if r.closed then unwatch e.fd s.watched else s.watched;
      })
    ]

unfoldable pub on_events : List Ready → EpollServer → Option EpollServer
unfolding on_ready
on_events [] s = some s
on_events (e ∷ es) s = elim (on_ready e s) [ none ↦ none | some s' ↦ on_events es s' ]

-- The `while` loop, for what `epoll_wait` delivers in its rounds, until it fails: then `init` returns -1.
unfoldable pub event_loop : List (List Ready) → EpollServer → Option (ℤ × EpollServer)
unfolding on_events
event_loop [] s = some (negsuc 0, s)
event_loop (es ∷ rounds) s = elim (on_events es s) [ none ↦ none | some s' ↦ event_loop rounds s' ]

unfoldable pub init : SocketCalls → ℤ → List (List Ready) → RtspHandler → Option (ℤ × EpollServer)
unfolding initserver event_loop watch
init k port rounds shared =
    let sock = (initserver k port).ret in
    let s : EpollServer = record { server_fd = sock; watched = watch sock []; shared = shared } in
    if negative sock
    then some (negsuc 0, record { server_fd = sock; watched = []; shared = shared })
    else event_loop rounds s

-- The port that `run` takes from the configuration; `content` is what conf/config.ini holds, if it is there.
unfoldable pub configured_port : Option Bytes → ℤ
unfolding load get to_int
configured_port content =
    let ini = (load (bytes "conf/config.ini") content new_ini).1 in
    to_int (get (bytes "server") (bytes "port") ini).0

-- `run`: `log_opens` tells whether the file of the log can be opened; where it cannot, `open` throws.
unfoldable pub run :
    SocketCalls → Option Bytes → Bool → List (List Ready) → RtspHandler → Option (ℤ × EpollServer)
unfolding configured_port init
run k content log_opens rounds shared =
    if log_opens then init k (configured_port content) rounds shared else none
