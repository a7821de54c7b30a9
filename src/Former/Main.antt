-- ===== src/Former/Main.antt =====
-- `main` and `initTcpServer` of src/rtsp/rtsp_server.cpp.
use fz_server.Prelude.{ℕ, Bool, not, List, [], ◌∷◌, Option, none, some, if◌then◌else◌}
use fz_server.Prelude.Int.{ℤ, pos, negsuc, negative, eqb_ℤ}
use fz_server.Memory.{Bytes}
use fz_server.Net.{to_u16}
use fz_server.Word.{htons}
use fz_server.Ini.Values.{to_int}
use fz_server.Server.Loop.{SocketCalls, Listening, watch, unwatch}
use fz_server.Former.Request.{Surroundings, FormerState}
use fz_server.Former.Client.{doclient}

unfoldable pub init_tcp_server : SocketCalls → ℤ → Listening
init_tcp_server k port =
    let sin_port = some (htons (to_u16 port)) in
    if negative k.socket
    then record { ret = negsuc 0; closed = []; sin_port = none }
    else if not k.bind_ok
    then record { ret = negsuc 0; closed = k.socket ∷ []; sin_port = sin_port }
    else if not k.listen_ok
    then record { ret = negsuc 0; closed = k.socket ∷ []; sin_port = sin_port }
    else record { ret = k.socket; closed = []; sin_port = sin_port }

-- One entry of `events`: whether its flags have an error, a hang-up, or no input; the descriptor; what
-- `accept` answers if it is the listening socket; what `doclient` finds if it is a client's.
pub record Arrival : Type 0 where
  pub broken : Bool
  pub fd : ℤ
  pub accepted : ℤ
  pub surroundings : Surroundings

-- The listening socket, the descriptors that epoll watches, and the globals.
pub record FormerServer : Type 0 where
  pub listensock : ℤ
  pub watched : List ℤ
  pub globals : FormerState

-- The body of the `for` loop; both results of `doclient` go on to the next entry. `none` only where the
-- fuel of `doclient` runs out.
unfoldable pub on_arrival : ℕ → Arrival → FormerServer → Option FormerServer
unfolding unwatch watch doclient
on_arrival fuel e s =
    if e.broken
    then some (record s { watched = unwatch e.fd s.watched })
    else if eqb_ℤ e.fd s.listensock
    then (if negative e.accepted
        then some s
        else some (record s { watched = watch e.accepted s.watched }))
    else elim (doclient fuel e.surroundings e.fd s.globals) [
      | none ↦ none
      | some d ↦ some (record s {
        globals = d.state;
        watched = if d.closed then unwatch e.fd s.watched else s.watched;
      })
    ]

unfoldable pub on_arrivals : ℕ → List Arrival → FormerServer → Option FormerServer
unfolding on_arrival
on_arrivals fuel [] s = some s
on_arrivals fuel (e ∷ es) s = elim (on_arrival fuel e s) [
  | none ↦ none
  | some s' ↦ on_arrivals fuel es s'
]

-- The `while` loop, for what `epoll_wait` delivers in its rounds, until it fails: then `main` returns 0.
unfoldable pub serve_arrivals : ℕ → List (List Arrival) → FormerServer → Option (ℤ × FormerServer)
unfolding on_arrivals
serve_arrivals fuel [] s = some (pos 0, s)
serve_arrivals fuel (es ∷ rounds) s = elim (on_arrivals fuel es s) [
  | none ↦ none
  | some s' ↦ serve_arrivals fuel rounds s'
]

-- `main`, for the arguments behind the program's name.
unfoldable pub former_main :
    ℕ → SocketCalls → List Bytes → List (List Arrival) → FormerState → Option (ℤ × FormerServer)
unfolding init_tcp_server serve_arrivals watch to_int
former_main fuel k (port ∷ []) rounds globals =
    let sock = (init_tcp_server k (to_int port)).ret in
    if negative sock
    then some (negsuc 0, record { listensock = sock; watched = []; globals = globals })
    else serve_arrivals fuel rounds
        (record { listensock = sock; watched = watch sock []; globals = globals })
former_main fuel k _ rounds globals =
    some (negsuc 0, record { listensock = negsuc 0; watched = []; globals = globals })
