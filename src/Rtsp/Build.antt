-- ===== src/Rtsp/Build.antt =====
-- `build_string` and `build_string_tcp`: a method is carried out, and its answer printed.
pub mod Setup
pub mod Dialogue
pub mod Udp
pub mod Granted
use fz_server.Prelude.{
  ℕ, Bool, true, false, ◌||◌, ◌&&◌, Option, none, some, ◌==◌, [], ◌∷◌, if◌then◌else◌,
}
use fz_server.Prelude.Int.{ℤ, pos, negsuc, negative}
use fz_server.Memory.{Bytes}
use fz_server.Text.{bytes, equals}
use fz_server.SessionId.{generate_session_id}
use fz_server.Ports.{Ports, pair, failed, generate_ports}
use fz_server.Session.{
  RtspAttr, Heap, ClientFdManager, new_session, set_state, set_info, allocate, update, add_session,
  get_session, get_av_flags, set_session_ids, get_session_ids,
}
use fz_server.Session.Status.{SessionStaus}
use fz_server.Rtsp.State.{RtspHandler, Outside}
use fz_server.Rtsp.Replies.{
  handle_options, handle_describe, handle_describe_tcp, handle_setup, handle_setup_tcp, handle_play,
  handle_pause, handle_teardown,
}

-- The value that the function returns, what `sBuf` holds, and the handler.
pub record Built : Type 0 where
  pub res : ℤ
  pub reply : Bytes
  pub handler : RtspHandler

-- `none` is a crash: a call through a null pointer, or an exception that nobody catches.
abbrev pub Outcome : Type 0
Outcome = Option Built

abbrev done : Bytes → RtspHandler → Outcome
done reply h = some (record { res = pos 0; reply = reply; handler = h })

abbrev fails : ℕ → Bytes → RtspHandler → Outcome
fails n reply h = some (record { res = negsuc n; reply = reply; handler = h })

-- `getAvFlags(clientFd_)`, which may insert the flag.
unfoldable pub flag_of : RtspHandler → Bool × RtspHandler
unfolding get_av_flags
flag_of h =
    let (flag, clients) = get_av_flags h.client_fd h.clients in
    (flag, record h { clients = clients })

-- The first `if` of SETUP: a session of its own for the video track, the stored one for the audio track.
unfoldable pub choose_session : Outside → RtspHandler → RtspHandler
unfolding flag_of set_session_ids get_session_ids generate_session_id
choose_session o h =
    let (audio, h') = flag_of h in
    let session_id = generate_session_id o.random_bytes in
    let (stored, clients) = get_session_ids h'.client_fd h'.clients in
    if audio then record h' { session = stored; clients = clients } else record h' {
      session = session_id;
      clients = set_session_ids h'.client_fd session_id h'.clients;
    }

-- The end of SETUP: the session object, new or found, takes the attributes of its track.
unfoldable pub store_track : Outside → RtspAttr → Bytes → RtspHandler → Outcome
unfolding flag_of new_session allocate update set_info add_session get_session
store_track o attr reply h =
    let (audio, h') = flag_of h in
    if audio
    then (elim (get_session h'.session h'.sessions) [
      | none ↦ none
      | some at ↦ elim (update at (set_info (bytes "audio") attr) h'.heap) [
        | none ↦ none
        | some heap ↦ done reply (record h' { heap = heap })
      ]
    ])
    else let fresh = new_session o.stale_state h'.client_fd h'.client_ip SessionStaus.none in
      let (at, heap) = allocate (set_info (bytes "video") attr fresh) h'.heap in
      done reply (record h' { heap = heap; sessions = add_session h'.session at h'.sessions })

-- The attributes over TCP are never assigned.
unfoldable pub setup_tcp : Outside → ℤ → RtspHandler → Outcome
unfolding choose_session store_track handle_setup_tcp
setup_tcp o cseq h =
    let h' = choose_session o h in
    store_track o o.stale_attr (handle_setup_tcp o.stale_reply cseq h'.session) h'

unfoldable pub setup_udp : Outside → ℤ → ℤ → ℤ → RtspHandler → Outcome
unfolding choose_session store_track handle_setup generate_ports
setup_udp o cseq client_rtp_port client_rtcp_port h =
    let h' = choose_session o h in
    elim (generate_ports o.port_fuel o.os 0 h'.ports) [
      | none ↦ none
      | some failed ↦ none
      | some (pair rtp rtcp pm) ↦
          let h'' = record h' { ports = pm } in
          let reply =
            handle_setup cseq client_rtp_port client_rtcp_port (pos rtp) (pos rtcp) h''.session in
          let attr : RtspAttr = record {
            client_rtp_port = client_rtp_port;
            client_rtcp_port = client_rtcp_port;
            server_rtp_port = pos rtp;
            server_rtcp_port = pos rtcp;
            server_rtp_sockfd = o.sockets.0;
            server_rtcp_sockfd = o.sockets.1;
          } in
          if negative o.sockets.0 || negative o.sockets.1
          then fails 0 reply h''
          else if o.binds.0 && o.binds.1
          then store_track o attr reply h''
          else fails 0 reply h''
    ]

-- PLAY, the same in both: the answer is printed first, and then the session looked up.
unfoldable pub play : ℤ → RtspHandler → Outcome
unfolding handle_play get_session update set_state
play cseq h =
    let reply = handle_play cseq h.session in
    elim (get_session h.session h.sessions) [
      | none ↦ fails 0 reply h
      | some at ↦ elim (update at (set_state SessionStaus.playing) h.heap) [
        | none ↦ none
        | some heap ↦ done reply (record h { heap = heap })
      ]
    ]

unfoldable pub build_string : Outside → Bytes → ℤ → Bytes → ℤ → ℤ → RtspHandler → Outcome
unfolding equals setup_udp play handle_options handle_describe handle_pause handle_teardown
build_string o method cseq url client_rtp_port client_rtcp_port h =
    if equals method (bytes "OPTIONS")
    then done (handle_options cseq) h
    else if equals method (bytes "DESCRIBE")
    then done (handle_describe o.stale_ip o.now cseq url) h
    else if equals method (bytes "SETUP")
    then setup_udp o cseq client_rtp_port client_rtcp_port h
    else if equals method (bytes "PLAY")
    then play cseq h
    else if equals method (bytes "PAUSE")
    then done (handle_pause cseq o.gmt_time) h
    else if equals method (bytes "TEARDOWN")
    then done (handle_teardown cseq) h
    else fails 1 o.stale_reply h

-- DESCRIBE is answered here by `handleCmd_DESCRIBE` too, as over UDP.
unfoldable pub build_string_tcp : Outside → Bytes → ℤ → Bytes → RtspHandler → Outcome
unfolding equals setup_tcp play handle_options handle_describe handle_pause handle_teardown
build_string_tcp o method cseq url h =
    if equals method (bytes "OPTIONS")
    then done (handle_options cseq) h
    else if equals method (bytes "DESCRIBE")
    then done (handle_describe o.stale_ip o.now cseq url) h
    else if equals method (bytes "SETUP")
    then setup_tcp o cseq h
    else if equals method (bytes "PLAY")
    then play cseq h
    else if equals method (bytes "PAUSE")
    then done (handle_pause cseq o.gmt_time) h
    else if equals method (bytes "TEARDOWN")
    then done (handle_teardown cseq) h
    else fails 1 o.stale_reply h
