-- ===== src/Server/Apart.antt =====
-- Requests of other connections, through src/server/epollServer.cpp, and what they leave of a session that
-- they do not name.
use fz_server.Prelude.{
  ℕ, ◌≡◌, ◌≢◌, Bool, List, [], ◌∷◌, Option, none, some, Option-cases, inl, inr, ◌⊎◌,
}
use fz_server.Prelude.Int.{ℤ}
use fz_server.Memory.{Bytes}
use fz_server.Net.{Frame}
use fz_server.Map.{nat_eq, int_eq, bytes_eq}
use fz_server.SessionId.{generate_session_id}
use fz_server.Session.{Session, set_av_flags}
use fz_server.Rtsp.State.{RtspHandler, Outside}
use fz_server.Rtsp.Request.{parse_tcp}
use fz_server.Rtsp.Build.{Outcome, build_string_tcp}
use fz_server.Rtsp.Handle.{Handled, answered, interact_rtsp_tcp, act_on_session, handle_request}
use fz_server.Rtsp.Handle.Reading.{parse_tcp-kept}
use fz_server.Server.{Event, create_handler, handle_client_request, serve}
use fz_server.Server.Held.{insert-other, AreElsewhere, Held, flags-Held}
use fz_server.Rtsp.Build.Setup.{AllOf, of_some}
use fz_server.Server.Elsewhere.{Away, build_string_tcp-Away, answer-Away, act_on_session-Away}
use fz_server.Server.Runs.{CrashesIn, serve-IsSound_from}

-- An event of another connection: it does not name the session, its random bytes do not, and its media go
-- elsewhere.
pub record IsForeign (fd : ℤ) (id : Bytes) (e : Event) : Type 0 where
  pub elsewhere : e.client_fd ≢ fd
  pub fresh : generate_session_id e.outside.random_bytes ≢ id
  pub unnamed :
      (m : Bytes) (h : RtspHandler)
      → e.received ≡ some m
      → h.session ≢ id
      → (parse_tcp e.outside m h).handler.session ≢ id
  pub streams : AreElsewhere fd e.streamed

abbrev pub AreForeign : ℤ → Bytes → List Event → Type 0
AreForeign fd id [] = Unit {0}
AreForeign fd id (e ∷ es) = IsForeign fd id e × AreForeign fd id es

module _ (fd : ℤ) (id : Bytes) (at : ℕ) (s : Session) (flag : Option Bool) (base : List Frame)
    (some_id : [] ≢ id) where
  abbrev Keeps : RtspHandler → Type 0
  Keeps = Held fd id at s flag base

  parse_tcp-Away :
      (o : Outside) (m : Bytes) (h : RtspHandler)
      → h.client_fd ≢ fd
      → Keeps h
      → (parse_tcp o m h).handler.session ≢ id
      → Away fd id at s flag base (parse_tcp o m h).handler
  unfolding set_av_flags
  parse_tcp-Away o m h d v e =
      let (away, held) =
        parse_tcp-kept (λ k. (k.client_fd ≢ fd) × Keeps k) (λ k w p. p)
          (λ k b p.
            (p.0, flags-Held k p.1 _ (insert-other k.client_fd fd b k.clients.av_flags p.0)))
          o m h (d, v) in
      record { elsewhere = away; unnamed = e; held = held }

  interact-Away :
      (o : Outside) (m : Bytes) (h : RtspHandler)
      → Away fd id at s flag base (parse_tcp o m h).handler
      → generate_session_id o.random_bytes ≢ id
      → AllOf (Away fd id at s flag base) (interact_rtsp_tcp o m h)
  unfolding interact_rtsp_tcp answered
  interact-Away o m h v fresh =
      let p = parse_tcp o m h in
      go (build_string_tcp o p.method p.cseq p.url p.handler) (
        build_string_tcp-Away fd id at s flag base o p.method p.cseq p.url p.handler v some_id
          fresh)
    where
      go :
          (r : Outcome)
          → AllOf (λ b. Away fd id at s flag base b.handler) r
          → AllOf (Away fd id at s flag base) (answered (parse_tcp o m h).cseq r)
      go none v = tt
      go (some b) v = answer-Away fd id at s flag base (parse_tcp o m h).cseq b v

  handle_client_request-Held :
      (e : Event) (h : RtspHandler)
      → IsForeign fd id e
      → Keeps h
      → AllOf (λ (r : Handled). Keeps r.handler) (handle_client_request e h)
  unfolding handle_client_request handle_request create_handler
  handle_client_request-Held e h w v = elim (Option-cases e.received) [
    | inl lost ↦ rw (lost, handle_request) v
    | inr (m, got) ↦ rw (got, handle_request) (on_message m got)
  ]
    where
      h₀ : RtspHandler
      h₀ = record h { client_fd = e.client_fd; client_ip = e.client_ip; session = [] }

      on_message :
          (m : Bytes)
          → e.received ≡ some m
          → AllOf
              (λ (r : Handled). Keeps r.handler)
              (handle_request e.outside e.client_fd e.client_ip e.streamed
                (some m)
                (create_handler h))
      on_message m got = elim (Option-cases (interact_rtsp_tcp e.outside m h₀)) [
        | inl stopped ↦ rw (stopped, handle_request) tt
        | inr (h₁, went) ↦
            let v₁ = of_some (Away fd id at s flag base) went (
              interact-Away e.outside m h₀
                (parse_tcp-Away e.outside m h₀ w.elsewhere v (w.unnamed m h₀ got some_id))
                w.fresh) in
            rw (went, handle_request)
              (elim (Option-cases (act_on_session e.streamed h₁)) [
                | inl stopped ↦ rw stopped tt
                | inr (h₂, acted) ↦
                    let v₂ =
                      of_some (Away fd id at s flag base) acted
                        (act_on_session-Away fd id at s flag base e.streamed h₁ v₁ w.streams) in
                    rw acted v₂.held
              ])
      ]

  serve-Held_base :
      (es : List Event) (h : RtspHandler) → AreForeign fd id es → Keeps h → AllOf Keeps (serve es h)
  unfolding serve
  serve-Held_base [] h ws v = v
  serve-Held_base (e ∷ es) h (w, ws) v = elim (Option-cases (handle_client_request e h)) [
    | inl stopped ↦ rw (stopped, serve) tt
    | inr (r, went) ↦
        rw (went, serve)
          (serve-Held_base es r.handler ws
            (of_some (λ (r : Handled). Keeps r.handler) went (handle_client_request-Held e h w v)))
  ]

-- Where a connection has a session whose name is not empty and which no other connection has
-- stored, and the session table is sound, and then only other connections have events, whose
-- messages do not name that session, whose random bytes do not give its name and whose media go
-- to other descriptors: the server handles them, and behind them the connection's name, its track
-- flag and the session's object are as they were, the table is sound, and nothing was handed to
-- the connection's descriptor; or the server crashes at one of the events, where a message was
-- received that is a SETUP which finds the flag of the audio track set and no session under the
-- name that is stored for its connection, or that leaves its handler with the name of a session
-- that the table does not have.
pub serve-Held :
    (fd : ℤ) (id : Bytes) (at : ℕ) (s : Session) (flag : Option Bool) (es : List Event)
    (h : RtspHandler)
    → [] ≢ id
    → AreForeign fd id es
    → Held fd id at s flag h.net.sent h
    → ((serve es h ≡ none) × CrashesIn es h)
      ⊎ ((g : RtspHandler) × (serve es h ≡ some g) × Held fd id at s flag h.net.sent g)
serve-Held fd id at s flag es h some_id ws v = elim (serve-IsSound_from es h v.live) [
  | inl stopped ↦ inl stopped
  | inr (g, went, sound) ↦ inr (
    g,
    went,
    of_some (Held fd id at s flag h.net.sent) went
        (serve-Held_base fd id at s flag h.net.sent some_id es h ws v),
  )
]
