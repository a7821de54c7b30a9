-- ===== src/Server/Dialogue.antt =====
-- A client's whole dialogue through src/server/epollServer.cpp: SETUP of the video track, SETUP of the audio
-- track and PLAY, as three messages on one connection.
use fz_server.Server.Answered.{setup_video-Stands, setup_audio-Stands, play-Stands}
use fz_server.Prelude.{ℕ, ◌≡◌, ◌≢◌, refl, subst, true, false, List, [], ◌∷◌, some}
use fz_server.Prelude.Int.{ℤ}
use fz_server.Memory.{Bytes}
use fz_server.Net.{Frame, stream}
use fz_server.Text.{bytes, equals, is_empty, c_string}
use fz_server.Map.{lookup, insert, fetch, nat_eq, int_eq, bytes_eq}
use fz_server.SessionId.{generate_session_id}
use fz_server.Session.{print_session, Session, set_info, set_state, new_session}
use fz_server.Session.Status.{SessionStaus}
use fz_server.Rtsp.State.{RtspHandler, Outside}
use fz_server.Rtsp.Replies.{handle_setup_tcp, handle_play}
use fz_server.Rtsp.Build.Setup.{IsSound}
use fz_server.Server.{Event, handle_client_request, serve}
use fz_server.Server.Stands.{SetsUp, PlaysIn, Stands}

-- The client's three messages, on one connection.
abbrev pub message : ℤ → Bytes → List Frame → Bytes → Outside → Event
message fd ip streamed m o = record {
  outside = o;
  client_fd = fd;
  client_ip = ip;
  streamed = streamed;
  received = some m;
}

-- The session with both tracks.
abbrev pub both_tracks : ℤ → Bytes → Outside → Outside → Session
both_tracks fd ip o₁ o₂ = record {
  client_fd = fd;
  client_ip = ip;
  state = SessionStaus.playing;
  info = (bytes "video", o₁.stale_attr) ∷ (bytes "audio", o₂.stale_attr) ∷ [];
}

print_session-both :
    (fd : ℤ) (ip : Bytes) (o₁ o₂ : Outside)
    → print_session (
        set_state SessionStaus.playing (
          set_info (bytes "audio") o₂.stale_attr (
            set_info
              (bytes "video")
              o₁.stale_attr
              (new_session o₁.stale_state fd ip SessionStaus.none))))
      ≡ both_tracks fd ip o₁ o₂
unfolding print_session set_state set_info new_session insert fetch lookup equals
print_session-both fd ip o₁ o₂ = refl

same_object :
    {fd : ℤ} {id : Bytes} {at : ℕ} {s t : Session} {sent : List Frame} {h g : RtspHandler}
    → s ≡ t
    → Stands fd id at s sent h g
    → Stands fd id at t sent h g
same_object {fd} {id} {at} {sent = sent} {h} {g} e v = subst (λ s. Stands fd id at s sent h g) e v

-- Where no pointer of the session table dangles and no two names share an object, three messages
-- of one connection, which are read, whatever the handler, as a SETUP that sets the flag of the
-- video track, a SETUP that sets the flag of the audio track and a PLAY of the session that the
-- first one's random bytes name, are all answered, provided that the name is not empty and that
-- the storage of a new session does not hold PLAYING: the client gets the texts of
-- `handleCmd_SETUP_TCP`, twice, and `handleCmd_PLAY`, and then what the media threads stream;
-- behind them that name has a new object, of this connection, which plays and has the attributes
-- of both tracks, the other names keep their pointers, and the other objects are as they were.
pub serve-Stands :
    (fd : ℤ) (ip : Bytes) (o₁ o₂ o₃ : Outside) (m₁ m₂ m₃ : Bytes) (c₁ c₂ c₃ : ℤ)
    (s₁ s₂ streamed : List Frame) (shared : RtspHandler)
    → IsSound shared
    → let id = generate_session_id o₁.random_bytes in
      SetsUp false o₁ m₁ c₁
      → SetsUp true o₂ m₂ c₂
      → PlaysIn id o₃ m₃ c₃
      → o₁.stale_state ≢ SessionStaus.playing
      → is_empty id ≡ false
      → (g : RtspHandler) × (serve
            (message fd ip s₁ m₁ o₁ ∷ message fd ip s₂ m₂ o₂ ∷ message fd ip streamed m₃ o₃ ∷ [])
            shared
          ≡ some g)
        × Stands fd id shared.heap.next
            (both_tracks fd ip o₁ o₂)
            (stream fd (c_string (handle_setup_tcp o₁.stale_reply c₁ id))
              ∷ stream fd (c_string (handle_setup_tcp o₂.stale_reply c₂ id))
              ∷ stream fd (c_string (handle_play c₃ id))
              ∷ streamed)
            shared
            g
unfolding serve handle_client_request
serve-Stands fd ip o₁ o₂ o₃ m₁ m₂ m₃ c₁ c₂ c₃ s₁ s₂ streamed shared v reads₁ reads₂ reads₃ quiet
      some_id =
    let id = generate_session_id o₁.random_bytes in
    let (g₁, went₁, w₁) = setup_video-Stands o₁ fd ip s₁ m₁ shared c₁ v reads₁ quiet some_id in
    let (g₂, went₂, w₂) =
      setup_audio-Stands o₂ fd ip s₂ m₂ g₁ c₂ id shared.heap.next _ _ shared w₁ reads₂ quiet
        some_id in
    let (g₃, went₃, w₃) =
      play-Stands o₃ fd ip streamed m₃ g₂ c₃ id shared.heap.next _ _ shared w₂ reads₃ some_id in
    (
      g₃,
      rw (went₁, serve) (rw (went₂, serve) (rw (went₃, serve) refl)),
      same_object (print_session-both fd ip o₁ o₂) w₃,
    )
