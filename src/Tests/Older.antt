-- ===== src/Tests/Older.antt =====
-- The former server on concrete inputs.
use fz_server.Prelude.{◌≡◌, refl, inr, true, false, [], ◌∷◌, some, arith}
use fz_server.Prelude.Int.{ℤ, pos}
use fz_server.Memory.{Bytes}
use fz_server.Net.{Net, stream, transmit}
use fz_server.Text.{bytes, c_string}
use fz_server.Media.{send_h264_over_udp}
use fz_server.Media.Units.{opened}
use fz_server.Former.Replies.{play_reply}
use fz_server.Former.Request.{Request, Surroundings, FormerState, read_request}
use fz_server.Former.Client.{doclient}
use fz_server.Former.Playing.{doclient-send_h264_over_udp}
use fz_server.Ini.Values.{to_int}
use fz_server.Server.Loop.{SocketCalls}
use fz_server.Former.Main.{Arrival, FormerServer, init_tcp_server, former_main}
use fz_server.Former.Serving.{IsPlayable, Listens, former_main-Listens}
use fz_server.Tests.{net, client, packet}
use fz_server.Tests.Files.{storage}

-- Two start codes with a unit of one byte between them.
abbrev content : Bytes
content = 0 ∷ 0 ∷ 1 ∷ 0x67 ∷ 0 ∷ 0 ∷ 1 ∷ 0x68 ∷ []

abbrev play_it : Bytes
play_it = bytes "PLAY rtsp://h/ RTSP/1.0\r\nCSeq: 5\r\n\r\n"

abbrev stale : Request
stale = record {
  method = [];
  url = [];
  cseq = pos 0;
  client_rtp_port = pos 5004;
  client_rtcp_port = pos 5005;
}

abbrev around : Surroundings
around = record {
  peer = some client;
  received = some play_it;
  now = pos 1700000000;
  sockets = (pos 8, pos 9);
  binds = (true, true);
  file = some (opened content);
  stale = stale;
  stale_ip = [];
  rec = storage;
  rtp_packet = packet;
}

abbrev ready : FormerState
ready = record { server_rtp_sockfd = pos 8; server_rtcp_sockfd = pos 9; net = net }

is_play : (read_request around play_it).method ≡ bytes "PLAY"
unfolding read_request
is_play = refl

doclient-send_h264_over_udp_example :
    let r = read_request around play_it in
    let after = (transmit net (stream (pos 5) (c_string (play_reply r.cseq)))).0 in
    (net' : Net) × (ret : ℤ) × (send_h264_over_udp 9
        (pos 8)
        client
        r.client_rtp_port
        (some (opened content))
        storage
        packet
        after
      ≡ some (net', ret))
    × (doclient 9 around (pos 5) ready
        ≡ some (record { ret = pos 1; closed = false; state = record ready { net = net' } }))
doclient-send_h264_over_udp_example =
    doclient-send_h264_over_udp 9 around (pos 5) ready client play_it content refl refl refl is_play
      (omega arith)

-- One client connects and plays.
abbrev calls : SocketCalls
calls = record { socket = pos 3; bind_ok = true; listen_ok = true }

abbrev connects : Arrival
connects = record { broken = false; fd = pos 3; accepted = pos 5; surroundings = around }

abbrev plays : Arrival
plays = record { broken = false; fd = pos 5; accepted = pos 0; surroundings = around }

playable : IsPlayable 9 around
playable = inr (content, refl, omega arith)

former_main-Listens_example :
    (s : FormerServer) × (former_main 9 calls
        (bytes "8554" ∷ [])
        ((connects ∷ []) ∷ (plays ∷ []) ∷ [])
        ready
      ≡ some (pos 0, s))
    × Listens (init_tcp_server calls (to_int (bytes "8554"))).ret s
unfolding init_tcp_server
former_main-Listens_example =
    former_main-Listens 9 calls (bytes "8554") ((connects ∷ []) ∷ (plays ∷ []) ∷ []) ready refl
      ((refl, playable, tt), ((refl, playable, tt), tt))
