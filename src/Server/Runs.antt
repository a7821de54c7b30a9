-- ===== src/Server/Runs.antt =====
-- Whole runs of the server.
use fz_server.Prelude.{◌≡◌, refl, ◌⊎◌, inl, inr, List, [], ◌∷◌, ◌++◌, none, some, ap}
use fz_server.Prelude.Int.{pos}
use fz_server.Memory.{Bytes}
use fz_server.Map.{lookup, nat_eq, bytes_eq}
use fz_server.Net.{Net}
use fz_server.Rtsp.State.{RtspHandler}
use fz_server.Rtsp.Build.Setup.{IsSound}
use fz_server.Rtsp.Handle.Crash.{at_peer}
use fz_server.Rtsp.Handle.Sound.{CrashCause, handle_request-IsSound}
use fz_server.Server.{Event, create_handler, handle_client_request, serve}

-- The managers before the first event.
abbrev pub start : Net → RtspHandler
start net = record {
  client_fd = pos 0;
  client_ip = [];
  session = [];
  clients = record { av_flags = []; av_session_ids = [] };
  sessions = [];
  heap = record { next = 0; cells = [] };
  ports = [];
  net = net;
}

pub start-IsSound : (net : Net) → IsSound (start net)
unfolding lookup
start-IsSound net = record {
  live = λ id at e. absurd (cc e);
  below = λ at s e. absurd (cc e);
  distinct = λ id id' at e e'. absurd (cc e);
}

-- The events before the one that ends the server, and why this one does.
abbrev pub CrashesIn : List Event → RtspHandler → Type 0
CrashesIn es shared =
    (front : List Event) × (e : Event) × (back : List Event) × (h : RtspHandler) × (es
      ≡ front ++ e ∷ back)
    × (serve front shared ≡ some h)
    × ((buffer : Bytes) × (e.received ≡ some buffer)
        × CrashCause e.outside buffer (at_peer e.client_fd e.client_ip (create_handler h)))

pub serve-IsSound_from :
    (es : List Event) (shared : RtspHandler)
    → IsSound shared
    → ((serve es shared ≡ none) × CrashesIn es shared)
      ⊎ ((h : RtspHandler) × (serve es shared ≡ some h) × IsSound h)
unfolding serve handle_client_request create_handler
serve-IsSound_from [] shared v = inr (shared, refl, v)
serve-IsSound_from (e ∷ es) shared v =
    elim (handle_request-IsSound e.outside e.client_fd e.client_ip e.streamed e.received
      (create_handler shared) v) [
        | inl (stopped, why) ↦ inl (rw (stopped, serve) refl, ([], e, es, shared, refl, refl, why))
        | inr (r, went, w) ↦ elim (serve-IsSound_from es r.handler w) [
          | inl (stopped, (front, e', back, h, split, ran, why)) ↦ inl (
            rw (went, serve) stopped,
            (e ∷ front, e', back, h, ap (◌∷◌ e) split, rw (went, serve) ran, why),
          )
          | inr (h, ran, u) ↦ inr (h, rw (went, serve) ran, u)
        ]
      ]

-- A server that starts with empty tables and handles any sequence of events on its connections
-- ends with a session table in which no pointer dangles and no two names share an object; or it
-- crashes at one of the events, and then a message was received there that is a SETUP which finds
-- the flag of the audio track set and no session under the name that is stored for the
-- connection, or that leaves its handler with the name of a session that the table does not have.
pub serve-IsSound :
    (net : Net) (es : List Event)
    → ((serve es (start net) ≡ none) × CrashesIn es (start net))
      ⊎ ((h : RtspHandler) × (serve es (start net) ≡ some h) × IsSound h)
serve-IsSound net es = serve-IsSound_from es (start net) (start-IsSound net)
