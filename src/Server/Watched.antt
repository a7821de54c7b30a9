-- ===== src/Server/Watched.antt =====
-- The event loop keeps watching its listening socket, and keeps the session table sound.
use fz_server.Prelude.{
  ℕ, ◌≡◌, refl, sym, ap, ◌∙◌, ◌⊎◌, inl, inr, Bool, true, false, not, ◌&&◌, ◌||◌, List, [], ◌∷◌,
  ◌++◌, none, some, arith, if◌then◌else◌, Bool-cases,
}
use fz_server.Prelude.Int.{ℤ, negsuc, negative, eqb_ℤ}
use fz_server.Map.{eqb_ℤ_iff}
use fz_server.Word.{htons}
use fz_server.Net.{to_u16}
use fz_server.Rtsp.State.{RtspHandler}
use fz_server.Rtsp.Build.Setup.{IsSound}
use fz_server.Rtsp.Handle.Sound.{CrashCause, handle_request-IsSound}
use fz_server.Rtsp.Handle.Crash.{at_peer}
use fz_server.Server.{create_handler, handle_client_request}
use fz_server.Server.Loop.{
  SocketCalls, initserver, Ready, EpollServer, is_watched, watch, unwatch, request_of, on_ready,
  on_events, event_loop,
}

-- `socket`, `bind` and `listen` all succeed.
abbrev pub opens : SocketCalls → Bool
opens k = not (negative k.socket) && k.bind_ok && k.listen_ok

-- `initserver` fails exactly where one of its calls does, and then it closes the socket if there is one.
pub initserver-cases :
    (k : SocketCalls) (port : ℤ)
    → let l = initserver k port in
      ((l.ret ≡ negsuc 0)
        × (opens k ≡ false)
        × (l.closed ≡ (if negative k.socket then [] else k.socket ∷ [])))
      ⊎ ((l.ret ≡ k.socket)
          × (opens k ≡ true)
          × (negative k.socket ≡ false)
          × (l.closed ≡ [])
          × (l.sin_port ≡ some (htons (to_u16 port))))
unfolding initserver
initserver-cases k port = ground (arith)

pub is_watched-unwatch :
    (f fd : ℤ) (fs : List ℤ)
    → is_watched f (unwatch fd fs) ≡ (if eqb_ℤ fd f then false else is_watched f fs)
unfolding is_watched unwatch
is_watched-unwatch f fd [] = ground arith
is_watched-unwatch f fd (g ∷ fs) =
    ground (arith, is_watched-unwatch f fd fs, eqb_ℤ_iff fd f, eqb_ℤ_iff g fd, eqb_ℤ_iff g f)

pub is_watched-watch :
    (f fd : ℤ) (fs : List ℤ) → is_watched f (watch fd fs) ≡ (eqb_ℤ fd f || is_watched f fs)
unfolding is_watched watch
is_watched-watch f fd fs = ground (arith, eqb_ℤ_iff fd f)

-- No descriptor is watched twice.
abbrev pub AreDistinct : List ℤ → Type 0
AreDistinct [] = Unit {0}
AreDistinct (f ∷ fs) = (is_watched f fs ≡ false) × AreDistinct fs

unwatch-AreDistinct : (fd : ℤ) (fs : List ℤ) → AreDistinct fs → AreDistinct (unwatch fd fs)
unfolding unwatch
unwatch-AreDistinct fd [] d = tt
unwatch-AreDistinct fd (f ∷ fs) d =
    ground (arith, unwatch-AreDistinct fd fs d.1, is_watched-unwatch f fd fs)

watch-AreDistinct : (fd : ℤ) (fs : List ℤ) → AreDistinct fs → AreDistinct (watch fd fs)
unfolding watch
watch-AreDistinct fd fs d = ground (arith, d)

pub record IsServing (fd : ℤ) (s : EpollServer) : Type 0 where
  pub sound : IsSound s.shared
  pub distinct : AreDistinct s.watched
  pub is_server : s.server_fd ≡ fd
  pub listening : is_watched fd s.watched ≡ true

-- No event reports an error on the listening socket.
abbrev pub AreHealthy : ℤ → List Ready → Type 0
AreHealthy fd [] = Unit {0}
AreHealthy fd (e ∷ es) = ((e.broken && eqb_ℤ e.fd fd) ≡ false) × AreHealthy fd es

abbrev pub AllHealthy : ℤ → List (List Ready) → Type 0
AllHealthy fd [] = Unit {0}
AllHealthy fd (es ∷ rounds) = AreHealthy fd es × AllHealthy fd rounds

-- Why a request ends the server.
abbrev pub CrashesAt : Ready → EpollServer → Type 0
CrashesAt e s =
    (buffer : List ℕ) × (e.request.received ≡ some buffer)
    × CrashCause e.request.outside buffer
        (at_peer e.fd e.request.client_ip (create_handler s.shared))

drop_other :
    (fd f : ℤ) (fs : List ℤ)
    → eqb_ℤ f fd ≡ false
    → is_watched fd fs ≡ true
    → is_watched fd (unwatch f fs) ≡ true
drop_other fd f fs other w = is_watched-unwatch fd f fs ∙ rw other w

-- A descriptor that is not the listening socket's leaves the set, or the set stays.
unwatch-IsServing :
    (fd f : ℤ) (b : Bool) (s : EpollServer) (shared : RtspHandler)
    → eqb_ℤ f fd ≡ false
    → IsSound shared
    → IsServing fd s
    → IsServing fd
        (record s { shared = shared; watched = if b then unwatch f s.watched else s.watched })
unwatch-IsServing fd f true s shared other v i = record {
  sound = v;
  distinct = unwatch-AreDistinct f s.watched i.distinct;
  is_server = i.is_server;
  listening = drop_other fd f s.watched other i.listening;
}
unwatch-IsServing fd f false s shared other v i = record {
  sound = v;
  distinct = i.distinct;
  is_server = i.is_server;
  listening = i.listening;
}

watch-IsServing :
    (fd f : ℤ) (s : EpollServer)
    → IsServing fd s
    → IsServing fd (record s { watched = watch f s.watched })
watch-IsServing fd f s i = record {
  sound = i.sound;
  distinct = watch-AreDistinct f s.watched i.distinct;
  is_server = i.is_server;
  listening = is_watched-watch fd f s.watched ∙ ground (arith, i.listening);
}

on_ready-IsServing :
    (fd : ℤ) (e : Ready) (s : EpollServer)
    → IsServing fd s
    → (e.broken && eqb_ℤ e.fd fd) ≡ false
    → ((on_ready e s ≡ none) × CrashesAt e s)
      ⊎ ((s' : EpollServer) × (on_ready e s ≡ some s') × IsServing fd s')
unfolding on_ready handle_client_request create_handler
on_ready-IsServing fd e s i healthy = elim (Bool-cases e.broken) [
  | inl broken ↦ inr (
    _,
    rw (broken, on_ready) refl,
    unwatch-IsServing fd e.fd true s s.shared (rw broken at healthy) i.sound i,
  )
  | inr fine ↦ elim (Bool-cases (eqb_ℤ e.fd s.server_fd)) [
    | inl listens ↦ elim (Bool-cases (negative e.accepted)) [
      | inl refused ↦ inr (s, rw (fine, listens, refused, on_ready) refl, i)
      | inr got ↦ inr (_, rw (fine, listens, got, on_ready) refl, watch-IsServing fd e.accepted s i)
    ]
    | inr client ↦
        let r = request_of e in
        elim (handle_request-IsSound r.outside e.fd r.client_ip r.streamed r.received
          (create_handler s.shared) i.sound) [
            | inl (stopped, why) ↦ inl (rw (fine, client, stopped, on_ready) refl, why)
            | inr (h, went, w) ↦ inr (
              _,
              rw (fine, client, went, on_ready) refl,
              unwatch-IsServing fd e.fd h.closed s h.handler
                  (ap (eqb_ℤ e.fd) (sym i.is_server) ∙ client) w i,
            )
          ]
  ]
]

-- Where a crash lies in a list of events, and in the rounds of `epoll_wait`.
abbrev pub CrashesIn : List Ready → EpollServer → Type 0
CrashesIn es s =
    (front : List Ready) × (e : Ready) × (back : List Ready) × (s' : EpollServer) × (es
      ≡ front ++ e ∷ back)
    × (on_events front s ≡ some s')
    × CrashesAt e s'

abbrev pub CrashesInRounds : List (List Ready) → EpollServer → Type 0
CrashesInRounds rounds s =
    (front : List (List Ready)) × (es : List Ready) × (back : List (List Ready))
    × (s' : EpollServer) × (rounds ≡ front ++ es ∷ back)
    × (event_loop front s ≡ some (negsuc 0, s'))
    × CrashesIn es s'

on_events-IsServing :
    (fd : ℤ) (es : List Ready) (s : EpollServer)
    → IsServing fd s
    → AreHealthy fd es
    → ((on_events es s ≡ none) × CrashesIn es s)
      ⊎ ((s' : EpollServer) × (on_events es s ≡ some s') × IsServing fd s')
unfolding on_events
on_events-IsServing fd [] s i healthy = inr (s, refl, i)
on_events-IsServing fd (e ∷ es) s i healthy = elim (on_ready-IsServing fd e s i healthy.0) [
  | inl (stopped, why) ↦ inl (rw (stopped, on_events) refl, ([], e, es, s, refl, refl, why))
  | inr (s', went, j) ↦ elim (on_events-IsServing fd es s' j healthy.1) [
    | inl (stopped, (front, e', back, t, split, ran, why)) ↦ inl (
      rw (went, on_events) stopped,
      (e ∷ front, e', back, t, ap (◌∷◌ e) split, rw (went, on_events) ran, why),
    )
    | inr (t, ran, k) ↦ inr (t, rw (went, on_events) ran, k)
  ]
]

-- For a server that watches its listening socket, watches no descriptor twice, and has a sound
-- session table, whatever epoll reports in its rounds, as long as it reports no error on the
-- listening socket: the loop returns -1, when epoll fails, with the listening socket still
-- watched, no descriptor watched twice and the table sound; or a request crashes it, and then a
-- message was received there that is a SETUP which finds the flag of the audio track set and no
-- session under the name that is stored for the connection, or that leaves its handler with the
-- name of a session that the table does not have.
pub event_loop-IsServing :
    (fd : ℤ) (rounds : List (List Ready)) (s : EpollServer)
    → IsServing fd s
    → AllHealthy fd rounds
    → ((event_loop rounds s ≡ none) × CrashesInRounds rounds s)
      ⊎ ((s' : EpollServer) × (event_loop rounds s ≡ some (negsuc 0, s')) × IsServing fd s')
unfolding event_loop
event_loop-IsServing fd [] s i healthy = inr (s, refl, i)
event_loop-IsServing fd (es ∷ rounds) s i healthy = elim (on_events-IsServing fd es s i healthy.0) [
  | inl (stopped, why) ↦ inl (rw (stopped, event_loop) refl, ([], es, rounds, s, refl, refl, why))
  | inr (s', went, j) ↦ elim (event_loop-IsServing fd rounds s' j healthy.1) [
    | inl (stopped, (front, es', back, t, split, ran, why)) ↦ inl (
      rw (went, event_loop) stopped,
      (es ∷ front, es', back, t, ap (◌∷◌ es) split, rw (went, event_loop) ran, why),
    )
    | inr (t, ran, k) ↦ inr (t, rw (went, event_loop) ran, k)
  ]
]
