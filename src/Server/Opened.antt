-- ===== src/Server/Opened.antt =====
-- From the calls that open the listening socket to the end of the event loop: `init` of
-- src/server/epollServer.cpp.
use fz_server.Prelude.{
  ◌≡◌, refl, ◌⊎◌, inl, inr, true, false, List, [], ◌∷◌, none, some, if◌then◌else◌,
}
use fz_server.Prelude.Int.{ℤ, negsuc, negative}
use fz_server.Map.{eqb_ℤ_iff}
use fz_server.Net.{to_u16}
use fz_server.Word.{htons}
use fz_server.Rtsp.State.{RtspHandler}
use fz_server.Rtsp.Build.Setup.{IsSound}
use fz_server.Server.Loop.{
  SocketCalls, initserver, Ready, EpollServer, is_watched, watch, event_loop, init,
}
use fz_server.Server.Watched.{
  opens, initserver-cases, IsServing, AllHealthy, CrashesInRounds, event_loop-IsServing,
}

-- The server with nothing but its listening socket watched.
abbrev pub listening_on : ℤ → RtspHandler → EpollServer
listening_on fd shared = record { server_fd = fd; watched = fd ∷ []; shared = shared }

abbrev pub failed_with : RtspHandler → EpollServer
failed_with shared = record { server_fd = negsuc 0; watched = []; shared = shared }

init-failed :
    (k : SocketCalls) (port : ℤ) (rounds : List (List Ready)) (shared : RtspHandler)
    → (initserver k port).ret ≡ negsuc 0
    → init k port rounds shared ≡ some (negsuc 0, failed_with shared)
unfolding init
init-failed k port rounds shared e = rw (e, init) refl

init-runs :
    (k : SocketCalls) (port : ℤ) (rounds : List (List Ready)) (shared : RtspHandler)
    → (initserver k port).ret ≡ k.socket
    → negative k.socket ≡ false
    → init k port rounds shared ≡ event_loop rounds (listening_on k.socket shared)
unfolding init watch is_watched
init-runs k port rounds shared e there = rw (e, there, init) refl

listening-IsServing :
    (fd : ℤ) (shared : RtspHandler) → IsSound shared → IsServing fd (listening_on fd shared)
unfolding is_watched
listening-IsServing fd shared v = record {
  sound = v;
  distinct = (refl, tt);
  is_server = refl;
  listening = rw ((eqb_ℤ_iff fd fd).1 refl) refl;
}

-- `init` on a sound session table, for rounds that report no error on the listening socket: if
-- `socket`, `bind` or `listen` fails, it returns -1 without a round of the loop and with nothing
-- watched, and the socket is closed if there is one. If all three succeed, nothing is closed, the
-- socket is bound to the port modulo 2^16 in network order, and `init` returns -1 when epoll
-- fails, with this socket still watched, no descriptor watched twice and the table sound; or a
-- request in the rounds crashes it, and then a message was received there that is a SETUP which
-- finds the flag of the audio track set and no session under the name that is stored for the
-- connection, or that leaves its handler with the name of a session that the table does not have.
pub init-IsServing :
    (k : SocketCalls) (port : ℤ) (rounds : List (List Ready)) (shared : RtspHandler)
    → IsSound shared
    → AllHealthy k.socket rounds
    → let l = initserver k port in
      ((opens k ≡ false)
        × (init k port rounds shared ≡ some (negsuc 0, failed_with shared))
        × (l.closed ≡ (if negative k.socket then [] else k.socket ∷ [])))
      ⊎ ((opens k ≡ true)
          × (l.closed ≡ [])
          × (l.sin_port ≡ some (htons (to_u16 port)))
          × (((init k port rounds shared ≡ none)
                × CrashesInRounds rounds (listening_on k.socket shared))
              ⊎ ((s : EpollServer) × (init k port rounds shared ≡ some (negsuc 0, s))
                  × IsServing k.socket s)))
init-IsServing k port rounds shared v healthy = elim (initserver-cases k port) [
  | inl (e, failed, closed) ↦ inl (failed, init-failed k port rounds shared e, closed)
  | inr (e, fine, there, closed, port_is) ↦
      let run = init-runs k port rounds shared e there in
      inr (
        fine,
        closed,
        port_is,
        rw run (
            event_loop-IsServing k.socket rounds (listening_on k.socket shared)
              (listening-IsServing k.socket shared v) healthy),
      )
]
