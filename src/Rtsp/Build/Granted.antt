-- ===== src/Rtsp/Build/Granted.antt =====
-- A SETUP of the video track over UDP that got its ports: `build_string` of src/handler/rtsp/rtsp_handler.cpp.
use fz_server.Prelude.{
  ℕ, ◌≡◌, refl, ◌⊎◌, inl, inr, Bool, true, false, not, ◌||◌, ◌&&◌, some, Bool-cases, arith,
}
use fz_server.Prelude.Int.{ℤ, pos, negsuc, negative}
use fz_server.Memory.{Bytes}
use fz_server.Text.{bytes, equals}
use fz_server.Map.{lookup, insert, fetch, int_eq, nat_eq, bytes_eq}
use fz_server.Map.Laws.{lookup-insert_self}
use fz_server.SessionId.{generate_session_id}
use fz_server.Ports.{PortManager, pair, generate_ports}
use fz_server.Session.{
  RtspAttr, Session, set_info, new_session, allocate, add_session, set_session_ids,
  get_client_h264_rtp_port, get_server_h264_rtp_sockfd,
}
use fz_server.Session.Status.{SessionStaus}
use fz_server.Rtsp.State.{RtspHandler, Outside}
use fz_server.Rtsp.Replies.{handle_setup}
use fz_server.Rtsp.Build.{Outcome, build_string}
use fz_server.Rtsp.Build.Dialogue.{choose_session-video, store_track-video}
use fz_server.Rtsp.Build.Udp.{after_ports, setup_udp-granted}

-- Both sockets are there and both are bound.
abbrev pub sockets_ready : Outside → Bool
sockets_ready o = not (negative o.sockets.0 || negative o.sockets.1) && (o.binds.0 && o.binds.1)

-- The attributes of the track.
abbrev pub granted_attr : Outside → ℤ → ℤ → ℕ → ℕ → RtspAttr
granted_attr o client_rtp client_rtcp rtp rtcp = record {
  client_rtp_port = client_rtp;
  client_rtcp_port = client_rtcp;
  server_rtp_port = pos rtp;
  server_rtcp_port = pos rtcp;
  server_rtp_sockfd = o.sockets.0;
  server_rtcp_sockfd = o.sockets.1;
}

-- In `g` the connection has a new session of this name, with an object at a new address that has the client's
-- port and the server's socket.
pub record HasTrack (o : Outside) (client_rtp : ℤ) (h g : RtspHandler) : Type 0 where
  pub object : Session
  pub stored :
      lookup h.client_fd g.clients.av_session_ids ≡ some (generate_session_id o.random_bytes)
  pub named : lookup (generate_session_id o.random_bytes) g.sessions ≡ some h.heap.next
  pub there : lookup h.heap.next g.heap.cells ≡ some object
  pub owner : object.client_fd ≡ h.client_fd
  pub port : get_client_h264_rtp_port object ≡ (client_rtp, object)
  pub socket : get_server_h264_rtp_sockfd object ≡ (o.sockets.0, object)

module _ (o : Outside) (cseq client_rtp client_rtcp : ℤ) (h : RtspHandler) (rtp rtcp : ℕ)
    (pm : PortManager) where
  abbrev id : Bytes
  id = generate_session_id o.random_bytes

  abbrev chosen : RtspHandler
  chosen = record h { session = id; clients = set_session_ids h.client_fd id h.clients }

  abbrev text : Bytes
  text = handle_setup cseq client_rtp client_rtcp (pos rtp) (pos rtcp) id

  abbrev session : Session
  session =
      set_info (bytes "video") (granted_attr o client_rtp client_rtcp rtp rtcp)
        (new_session o.stale_state h.client_fd h.client_ip SessionStaus.none)

  abbrev granted : RtspHandler
  granted = record chosen {
    ports = pm;
    heap = (allocate session h.heap).1;
    sessions = add_session id h.heap.next h.sessions;
  }

  granted-HasTrack : HasTrack o client_rtp h granted
  unfolding set_session_ids allocate add_session set_info new_session insert
      get_client_h264_rtp_port get_server_h264_rtp_sockfd lookup equals fetch
  granted-HasTrack = record {
    object = session;
    stored = lookup-insert_self h.client_fd id h.clients.av_session_ids;
    named = lookup-insert_self id h.heap.next h.sessions;
    there = lookup-insert_self h.heap.next session h.heap.cells;
    owner = refl;
    port = refl;
    socket = refl;
  }

  abbrev answered_with : ℤ → RtspHandler → Outcome
  answered_with res g = some (record { res = res; reply = text; handler = g })

  -- What a SETUP comes to behind its ports.
  abbrev pub Comes : Outcome → Type 0
  Comes r =
      ((sockets_ready o ≡ true)
        × ((g : RtspHandler) × (r ≡ answered_with (pos 0) g)
            × HasTrack o client_rtp h g
            × (g.ports ≡ pm)))
      ⊎ ((sockets_ready o ≡ false)
          × ((g : RtspHandler) × (r ≡ answered_with (negsuc 0) g)
              × (g.sessions ≡ h.sessions)
              × (g.heap ≡ h.heap)
              × (g.ports ≡ pm)))

  after_ports-Comes :
      lookup h.client_fd h.clients.av_flags ≡ some false
      → Comes (after_ports o cseq client_rtp client_rtcp h rtp rtcp pm)
  unfolding allocate set_session_ids
  after_ports-Comes flag = rw (choose_session-video o h flag) (elim (Bool-cases (sockets_ready o)) [
    | inl ready ↦
        let (fine, bound) : ((negative o.sockets.0 || negative o.sockets.1) ≡ false)
            × ((o.binds.0 && o.binds.1) ≡ true) =
          ground (arith, ready) in
        rw (fine, bound)
          (inl (
            refl,
            (
              granted,
              store_track-video o (granted_attr o client_rtp client_rtcp rtp rtcp) text
                  (record chosen { ports = pm }) flag,
              granted-HasTrack,
              refl,
            ),
          ))
    | inr not_ready ↦ elim (Bool-cases (negative o.sockets.0 || negative o.sockets.1)) [
      | inl broken ↦ rw broken (inr (refl, (record chosen { ports = pm }, refl, refl, refl, refl)))
      | inr fine ↦
          let unbound : (o.binds.0 && o.binds.1) ≡ false = ground (arith, not_ready, fine) in
          rw (fine, unbound) (inr (refl, (record chosen { ports = pm }, refl, refl, refl, refl)))
    ]
  ])

  -- For a SETUP over UDP on a connection whose flag is that of the video track, where
  -- `generatePorts` has given out two ports: if both sockets were created and bound,
  -- `build_string` returns 0 and prints the text of `handleCmd_SETUP` with the client's and the
  -- server's ports and a fresh name; behind it the connection has this name, the name has a new
  -- object of this connection, and `getClientH264RtpPort` and `getServerH264RtpSockfd` of it give
  -- the client's port and the server's socket. If not, it returns -1, the session table and the
  -- objects are as they were, and the two ports stay recorded all the same.
  pub build_string-Comes :
      (url : Bytes)
      → lookup h.client_fd h.clients.av_flags ≡ some false
      → generate_ports o.port_fuel o.os 0 h.ports ≡ some (pair rtp rtcp pm)
      → Comes (build_string o (bytes "SETUP") cseq url client_rtp client_rtcp h)
  unfolding build_string equals
  build_string-Comes url flag given =
      rw (setup_udp-granted o cseq client_rtp client_rtcp h rtp rtcp pm given)
        (after_ports-Comes flag)
