-- ===== src/Tests/Dialogue.antt =====
-- Requests, sessions and ports on concrete inputs.
use fz_server.Prelude.{
  ℕ, ◌+◌, ◌≡◌, refl, ◌⊎◌, true, List, [], ◌∷◌, none, some, arith, ◌==◌, if◌then◌else◌, length,
}
use fz_server.Prelude.Int.{pos}
use fz_server.Memory.{Bytes}
use fz_server.Text.{bytes, equals}
use fz_server.Map.{lookup, bytes_eq, int_eq}
use fz_server.Response.{RtspStatusCode, code_number, generate_rtsp_response}
use fz_server.Response.Reading.{read_response, join, AreLines, read_response-generate_rtsp_response}
use fz_server.Ports.{
  Os, taken, available, free, PortManager, pair, failed, generate_ports, is_port_available,
  is_allocated,
}
use fz_server.Ports.Fresh.{IsGranted, rtp_of, rtcp_of, generate_ports-IsGranted}
use fz_server.Session.{
  Session, Heap, SessionManager, zero_attr, allocate, add_session, get_session, delete_session,
}
use fz_server.Session.Status.{SessionStaus}
use fz_server.Session.Managers.{IsLive, allocate-IsLive, delete_session-IsLive}
use fz_server.Rtsp.State.{RtspHandler, Outside}
use fz_server.Rtsp.Build.{build_string_tcp}
use fz_server.Rtsp.Build.Setup.{IsSound, Answers, Crashes, build_string_tcp-Answers}
use fz_server.Server.{Event, serve}
use fz_server.Server.Runs.{start, CrashesIn, serve-IsSound}
use fz_server.Tests.{net, client}

abbrev headers : List Bytes
headers = bytes "Server: MyRtspServer/1.0" ∷ []

headers-AreLines : AreLines headers
headers-AreLines = (omega arith, λ e. absurd (cc e), tt)

read_response-generate_rtsp_response_example :
    read_response
      (length headers)
      (generate_rtsp_response RtspStatusCode.not_found (pos 3) (join headers) (bytes "gone"))
    ≡ some (code_number RtspStatusCode.not_found, some (pos 3), headers, bytes "gone")
read_response-generate_rtsp_response_example =
    read_response-generate_rtsp_response RtspStatusCode.not_found (pos 3) headers (bytes "gone")
      headers-AreLines

-- The first draw is a port that is recorded, the second one is free.
abbrev pub os : Os
os = record {
  draw = λ t. if t == 0 then 55001 else 60001;
  probe = λ t port. if t == 0 then taken else available;
}

abbrev pub recorded : PortManager
recorded = 55000 ∷ 55001 ∷ []

pub rtp_usable : is_port_available os (0 + 1) recorded (rtp_of os (0 + 1)) ≡ free
unfolding is_port_available is_allocated
rtp_usable = refl

pub rtcp_usable : is_port_available os (0 + 1) recorded (rtcp_of os (0 + 1)) ≡ free
unfolding is_port_available is_allocated
rtcp_usable = refl

generate_ports-IsGranted_example :
    (generate_ports 5 os 0 recorded ≡ some failed)
    ⊎ ((rtp : ℕ) × (rtcp : ℕ) × (after : PortManager) × (generate_ports 5 os 0 recorded
          ≡ some (pair rtp rtcp after))
        × IsGranted recorded rtp rtcp after)
generate_ports-IsGranted_example =
    generate_ports-IsGranted 5 os 0 1 recorded (omega arith) rtp_usable rtcp_usable

-- One session, named `ab`, in the first cell.
abbrev no_objects : Heap
no_objects = record { next = 0; cells = [] }

no_objects-IsLive : IsLive [] no_objects
unfolding lookup
no_objects-IsLive = record {
  live = λ id at e. absurd (cc e);
  below = λ at s e. absurd (cc e);
  distinct = λ id id' at e e'. absurd (cc e);
}

abbrev pub idle : Session
idle = record { client_fd = pos 5; client_ip = client; state = SessionStaus.none; info = [] }

abbrev sessions : SessionManager
sessions = add_session (bytes "ab") (allocate idle no_objects).0 []

abbrev heap : Heap
heap = (allocate idle no_objects).1

pub sessions-IsLive : IsLive sessions heap
sessions-IsLive = allocate-IsLive [] no_objects (bytes "ab") idle no_objects-IsLive

delete_session-IsLive_example :
    IsLive
      (delete_session (bytes "ab") sessions heap).0
      (delete_session (bytes "ab") sessions heap).1
    × ((j : Bytes)
        → get_session j (delete_session (bytes "ab") sessions heap).0
          ≡ (if bytes_eq.beq (bytes "ab") j then none else get_session j sessions))
delete_session-IsLive_example = delete_session-IsLive (bytes "ab") sessions heap sessions-IsLive

abbrev pub handler : RtspHandler
handler = record {
  client_fd = pos 5;
  client_ip = client;
  session = [];
  clients = record { av_flags = []; av_session_ids = [] };
  sessions = sessions;
  heap = heap;
  ports = [];
  net = net;
}

abbrev pub outside : Outside
outside = record {
  random_bytes = 1 ∷ 2 ∷ 3 ∷ 4 ∷ 5 ∷ 6 ∷ 7 ∷ 8 ∷ 9 ∷ 10 ∷ 11 ∷ 12 ∷ 13 ∷ 14 ∷ 15 ∷ 16 ∷ [];
  now = pos 1700000000;
  gmt_time = [];
  os = os;
  port_fuel = 5;
  sockets = (pos 8, pos 9);
  binds = (true, true);
  stale_state = SessionStaus.none;
  stale_attr = zero_attr;
  stale_reply = [];
  stale_ip = [];
  stale_method = [];
  stale_url = [];
  stale_session = [];
}

build_string_tcp-Answers_example :
    Answers
      ((equals (bytes "SETUP") (bytes "SETUP") ≡ true) × Crashes outside handler)
      (build_string_tcp outside (bytes "SETUP") (pos 3) (bytes "rtsp://h/track0") handler)
build_string_tcp-Answers_example =
    build_string_tcp-Answers outside (bytes "SETUP") (pos 3) (bytes "rtsp://h/track0") handler
      sessions-IsLive

-- A PLAY for a session that was never set up.
abbrev play_unknown : Bytes
play_unknown = bytes "PLAY rtsp://h/ RTSP/1.0\r\nCSeq: 5\r\nSession: zz\r\n\r\n"

abbrev pub setup_video : Bytes
setup_video =
    bytes "SETUP rtsp://h/track0 RTSP/1.0\r\nCSeq: 3\r\nTransport: RTP/AVP/TCP;unicast\r\n\r\n"

abbrev pub setup_event : Event
setup_event = record {
  outside = outside;
  client_fd = pos 5;
  client_ip = client;
  streamed = [];
  received = some setup_video;
}

-- A session is set up for the video track, and then the client plays one that is not known.
abbrev events : List Event
events = setup_event ∷ record setup_event { received = some play_unknown } ∷ []

serve-IsSound_example :
    ((serve events (start net) ≡ none) × CrashesIn events (start net))
    ⊎ ((h : RtspHandler) × (serve events (start net) ≡ some h) × IsSound h)
serve-IsSound_example = serve-IsSound net events
