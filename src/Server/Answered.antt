-- ===== src/Server/Answered.antt =====
-- One request of a client's dialogue through src/server/epollServer.cpp, which is answered.
use fz_server.Prelude.{
  ℕ, ◌≡◌, ◌≢◌, refl, ap, ap₂, ◌∙◌, Bool, true, false, List, [], ◌∷◌, ◌++◌, some, arith,
  if◌then◌else◌,
}
use fz_server.Prelude.Int.{ℤ, pos}
use fz_server.Memory.{Bytes}
use fz_server.Net.{Frame, stream, transmit}
use fz_server.Text.{bytes, equals, is_empty, c_string}
use fz_server.Map.{lookup, nat_eq, int_eq, bytes_eq}
use fz_server.Map.Laws.{lookup-insert, lookup-insert_self}
use fz_server.SessionId.{generate_session_id}
use fz_server.Session.{
  print_session, Session, set_info, set_state, allocate, add_session, set_av_flags, set_session_ids,
  new_session,
}
use fz_server.Session.Status.{SessionStaus}
use fz_server.Rtsp.State.{RtspHandler, Outside}
use fz_server.Rtsp.Request.{parse_tcp}
use fz_server.Rtsp.Replies.{handle_setup_tcp, handle_play}
use fz_server.Rtsp.Build.{Built, setup_tcp, play, build_string_tcp}
use fz_server.Rtsp.Build.Setup.{IsSound}
use fz_server.Rtsp.Build.Dialogue.{
  after_video, setup_tcp-video, setup_tcp-audio, play-known, written,
}
use fz_server.Rtsp.Handle.{
  send_text, answer, answered, interact_rtsp_tcp, act_on_session, handle_request,
}
use fz_server.Rtsp.Handle.Crash.{at_peer}
use fz_server.Server.{create_handler}
use fz_server.Server.Stands.{
  SetsUp, PlaysIn, Stands, Stands-written, act_on_state-quiet, act_on_session-state,
  act_on_session-playing,
}

-- A request that is answered.
module _ (o : Outside) (fd : ℤ) (ip : Bytes) (streamed : List Frame) (m : Bytes)
    (shared : RtspHandler) where
  abbrev before : RtspHandler
  before = at_peer fd ip (create_handler shared)

  interact-answered :
      (reply : Bytes) (k : RtspHandler)
      → let p = parse_tcp o m before in
        build_string_tcp o p.method p.cseq p.url p.handler
          ≡ some (record { res = pos 0; reply = reply; handler = k })
        → interact_rtsp_tcp o m before ≡ some (send_text (c_string reply) k)
  unfolding interact_rtsp_tcp answered answer
  interact-answered reply k built = ap (answered (parse_tcp o m before).cseq) built

  handle_request-answered :
      (reply : Bytes) (k g : RtspHandler)
      → let p = parse_tcp o m before in
        build_string_tcp o p.method p.cseq p.url p.handler
          ≡ some (record { res = pos 0; reply = reply; handler = k })
        → act_on_session streamed (send_text (c_string reply) k) ≡ some g
        → handle_request o fd ip streamed (some m) (create_handler shared)
          ≡ some (record { ret = pos 0; closed = false; handler = g })
  unfolding handle_request
  handle_request-answered reply k g built acted =
      rw (interact-answered reply k built, acted, handle_request) refl

  abbrev IsAnswered : RtspHandler → Type 0
  IsAnswered g =
      handle_request o fd ip streamed (some m) (create_handler shared)
      ≡ some (record { ret = pos 0; closed = false; handler = g })

  abbrev said : Bytes → Frame
  said text = stream fd (c_string text)

  build-setup :
      (audio : Bool) (cseq : ℤ) (b : Built)
      → SetsUp audio o m cseq
      → setup_tcp o cseq (record before { clients = set_av_flags fd audio before.clients }) ≡ some b
      → let p = parse_tcp o m before in build_string_tcp o p.method p.cseq p.url p.handler ≡ some b
  unfolding build_string_tcp equals
  build-setup audio cseq b reads fine =
      let (method, number, handler) = reads before in
      rw (method, build_string_tcp) (ap₂ (setup_tcp o) number handler ∙ fine)

  pub setup_video-Stands :
      (cseq : ℤ)
      → IsSound shared
      → SetsUp false o m cseq
      → o.stale_state ≢ SessionStaus.playing
      → is_empty (generate_session_id o.random_bytes) ≡ false
      → let id = generate_session_id o.random_bytes in
        (g : RtspHandler) × IsAnswered g
        × Stands fd id shared.heap.next
            (set_info
              (bytes "video")
              o.stale_attr
              (new_session o.stale_state fd ip SessionStaus.none))
            (said (handle_setup_tcp o.stale_reply cseq id) ∷ [])
            shared
            g
  unfolding create_handler set_session_ids set_av_flags allocate add_session send_text transmit
      new_session set_info
  setup_video-Stands cseq v reads quiet some_id =
      let id = generate_session_id o.random_bytes in
      let s =
        set_info (bytes "video") o.stale_attr (new_session o.stale_state fd ip SessionStaus.none) in
      let h = record before { clients = set_av_flags fd false before.clients } in
      let g = send_text (c_string (handle_setup_tcp o.stale_reply cseq id)) (after_video o h) in
      let named = lookup-insert_self id shared.heap.next shared.sessions in
      let object = lookup-insert_self shared.heap.next s shared.heap.cells in
      (
        g,
        handle_request-answered _ _ g
            (build-setup false cseq _ reads
              (setup_tcp-video o cseq h (lookup-insert_self fd false shared.clients.av_flags)))
            (act_on_session-state streamed shared.heap.next s g some_id named object
              ∙ act_on_state-quiet streamed shared.heap.next s.state g quiet),
        record {
          stored = lookup-insert_self fd id shared.clients.av_session_ids;
          named = named;
          object = object;
          others = λ j d. lookup-insert id j shared.heap.next shared.sessions ∙ other j d;
          objects_kept = λ k t e.
              let apart : k ≢ shared.heap.next =
                λ same. absurd (omega (arith, v.below k t e, same)) in
              (apart, lookup-insert shared.heap.next k s shared.heap.cells ∙ older s k t e apart);
          handed = refl;
        },
      )
    where
      other :
          (j : Bytes)
          → j ≢ generate_session_id o.random_bytes
          → (if equals (generate_session_id o.random_bytes) j
              then some shared.heap.next
              else lookup j shared.sessions)
            ≡ lookup j shared.sessions
      other j d = ground (arith, d, bytes_eq.beq_iff (generate_session_id o.random_bytes) j)

      older :
          (s : Session) (k : ℕ) (t : Session)
          → lookup k shared.heap.cells ≡ some t
          → k ≢ shared.heap.next
          → (if nat_eq.beq shared.heap.next k then some s else lookup k shared.heap.cells) ≡ some t
      older s k t e d = ground (arith, d, e, nat_eq.beq_iff shared.heap.next k)

  pub setup_audio-Stands :
      (cseq : ℤ) (id : Bytes) (at : ℕ) (s : Session) (sent : List Frame) (h₀ : RtspHandler)
      → Stands fd id at s sent h₀ shared
      → SetsUp true o m cseq
      → s.state ≢ SessionStaus.playing
      → is_empty id ≡ false
      → (g : RtspHandler) × IsAnswered g
        × Stands fd id at
            (set_info (bytes "audio") o.stale_attr s)
            (sent ++ said (handle_setup_tcp o.stale_reply cseq id) ∷ [])
            h₀
            g
  unfolding create_handler set_av_flags send_text transmit set_info
  setup_audio-Stands cseq id at s sent h₀ v reads quiet some_id =
      let h = record before { clients = set_av_flags fd true before.clients } in
      let s' = set_info (bytes "audio") o.stale_attr s in
      let k = record h { session = id; heap = written at s' h.heap } in
      let g = send_text (c_string (handle_setup_tcp o.stale_reply cseq id)) k in
      let object = lookup-insert_self at s' shared.heap.cells in
      (
        g,
        handle_request-answered _ _ g
            (build-setup true cseq _ reads (
              setup_tcp-audio o cseq id at s h (lookup-insert_self fd true shared.clients.av_flags)
                v.stored v.named v.object))
            (act_on_session-state streamed at s' g some_id v.named object
              ∙ act_on_state-quiet streamed at s'.state g quiet),
        Stands-written s' (said (handle_setup_tcp o.stale_reply cseq id) ∷ []) v refl refl refl
            refl,
      )

  build-play :
      (id : Bytes) (cseq : ℤ) (b : Built)
      → PlaysIn id o m cseq
      → play cseq (record before { session = id }) ≡ some b
      → let p = parse_tcp o m before in build_string_tcp o p.method p.cseq p.url p.handler ≡ some b
  unfolding build_string_tcp equals
  build-play id cseq b reads fine =
      let (method, number, handler) = reads before in
      rw (method, build_string_tcp) (ap₂ play number handler ∙ fine)

  pub play-Stands :
      (cseq : ℤ) (id : Bytes) (at : ℕ) (s : Session) (sent : List Frame) (h₀ : RtspHandler)
      → Stands fd id at s sent h₀ shared
      → PlaysIn id o m cseq
      → is_empty id ≡ false
      → (g : RtspHandler) × IsAnswered g
        × Stands fd id at
            (print_session (set_state SessionStaus.playing s))
            ((sent ++ said (handle_play cseq id) ∷ []) ++ streamed)
            h₀
            g
  unfolding create_handler send_text transmit set_state
  play-Stands cseq id at s sent h₀ v reads some_id =
      let h = record before { session = id } in
      let s' = set_state SessionStaus.playing s in
      let k = record h { heap = written at s' h.heap } in
      let g₁ = send_text (c_string (handle_play cseq id)) k in
      let g₂ : RtspHandler = record g₁ {
        net = record (g₁.net) { sent = g₁.net.sent ++ streamed };
        heap = written at (print_session s') g₁.heap;
      } in
      let object = lookup-insert_self at s' shared.heap.cells in
      let first =
        Stands-written {g' = g₁} s' (said (handle_play cseq id) ∷ []) v refl refl refl refl in
      (
        g₂,
        handle_request-answered _ _ g₂
            (build-play id cseq _ reads (play-known cseq at s h v.named v.object))
            (act_on_session-playing streamed at s' g₁ some_id v.named object refl),
        Stands-written (print_session s') streamed first refl refl refl refl,
      )
