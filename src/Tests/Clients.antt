-- ===== src/Tests/Clients.antt =====
-- Clients of the server on concrete inputs: what they print, and what other connections leave.
use fz_server.Prelude.{
  ◌<◌, ◌≡◌, ◌≢◌, refl, sym, subst, append-nil, ◌⊎◌, true, false, List, [], ◌∷◌, ◌++◌, none, some,
  arith, length,
}
use fz_server.Prelude.Int.{pos}
use fz_server.Memory.{Bytes}
use fz_server.Text.{bytes, equals, is_empty, c_string}
use fz_server.Map.{lookup, insert, bytes_eq, int_eq}
use fz_server.Ports.{pair, generate_ports}
use fz_server.Session.{allocate, add_session, get_session}
use fz_server.Rtsp.State.{RtspHandler}
use fz_server.Server.Held.{Held}
use fz_server.Server.Apart.{AreForeign, serve-Held}
use fz_server.Server.Stands.{SetsUp, PlaysIn, Stands}
use fz_server.Server.Dialogue.{message, both_tracks}
use fz_server.Server.Printed.{
  AreBytes, NamesTrack, NamesNone, generate_session_id-IsName, serve-Stands_printed,
}
use fz_server.Text.{contains}
use fz_server.Text.Scan.{every}
use fz_server.Rtsp.Request.{names_method}
use fz_server.Rtsp.Request.Printed.{IsWord, IsName, first_line, play-IsWord}
use fz_server.Rtsp.Request.RoundTrip.{
  setup_request, session_request, read_as, IsStorable, parse_tcp-print_lines_both,
}
use fz_server.Rtsp.Build.{build_string}
use fz_server.Rtsp.Build.Granted.{Comes, build_string-Comes}
use fz_server.Rtsp.Build.Udp.{Stays, Fails, build_string-Stays}
use fz_server.Rtsp.Request.{parse_tcp}
use fz_server.Text.Decimal.{scan_digits}
use fz_server.Net.{stream}
use fz_server.Rtsp.Replies.{
  handle_setup_tcp, handle_play, handle_describe, handle_describe_tcp, local_ip,
}
use fz_server.Rtsp.Replies.Fits.{Fits, handle_describe-Fits}
use fz_server.SessionId.{bytes_to_hex, generate_session_id}
use fz_server.Rtsp.Handle.{handle_request}
use fz_server.Rtsp.Handle.Unknown.{handle_request-unknown_name}
use fz_server.Server.{Event, serve}
use fz_server.Server.Runs.{start, start-IsSound, CrashesIn}
use fz_server.Tests.{net, client}
use fz_server.Tests.Dialogue.{
  handler, outside, os, recorded, idle, setup_event, rtp_usable, rtcp_usable, sessions-IsLive,
  setup_video,
}

abbrev setup_audio : Bytes
setup_audio =
    bytes "SETUP rtsp://h/track1 RTSP/1.0\r\nCSeq: 4\r\nTransport: RTP/AVP/TCP;unicast\r\n\r\n"

abbrev named : Bytes
named = generate_session_id outside.random_bytes

abbrev play_named : Bytes
play_named = bytes "PLAY rtsp://h/ RTSP/1.0\r\nCSeq: 5\r\nSession: " ++ (named ++ bytes "\r\n\r\n")

setup_video-SetsUp : SetsUp false outside setup_video (pos 3)
unfolding parse_tcp scan_digits
setup_video-SetsUp h = (refl, refl, refl)

setup_audio-SetsUp : SetsUp true outside setup_audio (pos 4)
unfolding parse_tcp scan_digits
setup_audio-SetsUp h = (refl, refl, refl)

play_named-PlaysIn : PlaysIn named outside play_named (pos 5)
unfolding parse_tcp generate_session_id scan_digits
play_named-PlaysIn h = (refl, refl, refl)

has_name : is_empty named ≡ false
unfolding generate_session_id
has_name = refl

-- The session `ab` of the connection 5, with a flag for the video track.
abbrev with_client : RtspHandler
with_client = record handler {
  clients = record { av_flags = (pos 5, false) ∷ []; av_session_ids = (pos 5, bytes "ab") ∷ [] };
}

with_client-Held : Held (pos 5) (bytes "ab") 0 idle (some false) net.sent with_client
unfolding lookup add_session allocate insert equals
with_client-Held = record {
  live = sessions-IsLive;
  stored = refl;
  flagged = refl;
  named = refl;
  object = refl;
  only = λ k d. ground (arith, d, int_eq.beq_iff (pos 5) k);
  handed = ([], sym (append-nil net.sent), tt);
}

other_name : named ≢ bytes "ab"
unfolding generate_session_id
other_name e = absurd (cc e)

-- Another client sets up a session, and one that has nothing set up plays it.
abbrev foreign : List Event
foreign =
    record setup_event { client_fd = pos 6 }
    ∷ record setup_event { client_fd = pos 7; received = some play_named }
    ∷ []

foreign_events : AreForeign (pos 5) (bytes "ab") foreign
unfolding parse_tcp scan_digits generate_session_id
foreign_events = (
  record {
    elsewhere = λ e. absurd (cc e);
    fresh = other_name;
    unnamed = λ m h got d.
        subst (λ x. (parse_tcp outside x h).handler.session ≢ bytes "ab") {x = setup_video} {y = m}
          (cc got) d;
    streams = tt;
  },
  (
    record {
      elsewhere = λ e. absurd (cc e);
      fresh = other_name;
      unnamed = λ m h got d.
          subst (λ x. (parse_tcp outside x h).handler.session ≢ bytes "ab") {x = play_named} {y = m}
            (cc got) other_name;
      streams = tt;
    },
    tt,
  ),
)

serve-Held_example :
    ((serve foreign with_client ≡ none) × CrashesIn foreign with_client)
    ⊎ ((g : RtspHandler) × (serve foreign with_client ≡ some g)
        × Held (pos 5) (bytes "ab") 0 idle (some false) net.sent g)
serve-Held_example =
    serve-Held (pos 5) (bytes "ab") 0 idle (some false) foreign with_client (λ e. absurd (cc e))
      foreign_events with_client-Held

handle_describe-Fits_example :
    Fits (handle_describe (bytes "?") (pos 1700000000) (pos 2) (bytes "rtsp://10.0.0.2:8554/"))
    × Fits
        (handle_describe_tcp (bytes "?") (pos 1700000000) (pos 2) (bytes "rtsp://10.0.0.2:8554/"))
    × (length (local_ip (bytes "?") (bytes "rtsp://10.0.0.2:8554/")) < 100)
handle_describe-Fits_example =
    handle_describe-Fits (bytes "?") (pos 1700000000) (pos 2) (bytes "rtsp://10.0.0.2:8554/")
      (omega arith) (omega arith) (omega arith) (omega arith)

abbrev play_url : Bytes
play_url = bytes "rtsp://h/"

play_url-IsWord : IsWord play_url
unfolding every
play_url-IsWord = (refl, refl)

sixteen_bytes : AreBytes outside.random_bytes
unfolding every
sixteen_bytes = refl

named-IsName : IsName named
named-IsName = generate_session_id-IsName outside.random_bytes sixteen_bytes refl

is_method : names_method (bytes "PLAY") ≡ true
unfolding contains
is_method = refl

named-IsStorable : IsStorable (bytes "PLAY") play_url named (pos 5)
unfolding generate_session_id bytes_to_hex
named-IsStorable = record {
  method_fits = omega arith;
  url_fits = omega arith;
  id_fits = omega arith;
  number = omega arith;
}

parse_tcp-print_lines_both_example :
    (parse_tcp outside (session_request (bytes "PLAY") play_url (pos 5) named) handler
      ≡ read_as (bytes "PLAY") play_url (pos 5) named outside named handler)
    × (parse_tcp outside (setup_request play_url (pos 5)) handler
        ≡ read_as (bytes "SETUP") play_url (pos 5) [] outside [] handler)
parse_tcp-print_lines_both_example =
    parse_tcp-print_lines_both outside (bytes "PLAY") play_url named (pos 5) handler play-IsWord
      play_url-IsWord is_method named-IsName named-IsStorable

-- A PLAY for a session that was never set up.
zz-IsName : IsName (bytes "zz")
unfolding every
zz-IsName = (refl, refl)

not_setup : equals (bytes "PLAY") (bytes "SETUP") ≡ false
unfolding equals
not_setup = refl

zz_unknown : get_session (bytes "zz") handler.sessions ≡ none
unfolding get_session add_session allocate lookup insert equals
zz_unknown = refl

handle_request-unknown_name_example :
    handle_request outside
      (pos 7)
      client
      []
      (some (session_request (bytes "PLAY") play_url (pos 6) (bytes "zz")))
      handler
    ≡ none
handle_request-unknown_name_example =
    handle_request-unknown_name outside (pos 7) client [] (bytes "PLAY") play_url (bytes "zz")
      (pos 6) handler play-IsWord play_url-IsWord is_method not_setup zz-IsName
      (record {
        method_fits = omega arith;
        url_fits = omega arith;
        id_fits = omega arith;
        number = omega arith;
      })
      zz_unknown

video_url :
    IsWord (bytes "rtsp://h/track0")
    × NamesTrack false (first_line (bytes "SETUP") (bytes "rtsp://h/track0"))
unfolding every contains
video_url = ((refl, refl), (refl, refl))

audio_url :
    IsWord (bytes "rtsp://h/track1")
    × NamesTrack true (first_line (bytes "SETUP") (bytes "rtsp://h/track1"))
unfolding every contains
audio_url = ((refl, refl), (refl, refl))

whole_url : IsWord play_url × NamesNone (first_line (bytes "PLAY") play_url)
unfolding every contains
whole_url = ((refl, refl), (refl, refl))

serve-Stands_printed_example :
    (g : RtspHandler) × (serve
        (message (pos 5) client [] (setup_request (bytes "rtsp://h/track0") (pos 3)) outside
          ∷ message (pos 5) client [] (setup_request (bytes "rtsp://h/track1") (pos 4)) outside
          ∷ message
              (pos 5)
              client
              []
              (session_request (bytes "PLAY") play_url (pos 5) named)
              outside
          ∷ [])
        (start net)
      ≡ some g)
    × Stands
        (pos 5)
        named
        0
        (both_tracks (pos 5) client outside outside)
        (stream (pos 5) (c_string (handle_setup_tcp [] (pos 3) named))
          ∷ stream (pos 5) (c_string (handle_setup_tcp [] (pos 4) named))
          ∷ stream (pos 5) (c_string (handle_play (pos 5) named))
          ∷ [])
        (start net)
        g
serve-Stands_printed_example =
    serve-Stands_printed (pos 5) client outside outside outside (bytes "rtsp://h/track0")
      (bytes "rtsp://h/track1") play_url (pos 3) (pos 4) (pos 5) [] [] [] (start net)
      (start-IsSound net) sixteen_bytes refl (λ e. absurd (cc e)) video_url audio_url whole_url

abbrev with_ports : RtspHandler
with_ports = record handler { ports = recorded }

-- The table and the ports over UDP, where the second draw can be used.
build_string-Stays_example :
    Stays ((equals (bytes "SETUP") (bytes "SETUP") ≡ true) × Fails outside with_ports) recorded (
      build_string outside
        (bytes "SETUP")
        (pos 3)
        (bytes "rtsp://h/track0")
        (pos 5000)
        (pos 5001)
        with_ports)
build_string-Stays_example =
    build_string-Stays outside (bytes "SETUP") (pos 3) (bytes "rtsp://h/track0") (pos 5000)
      (pos 5001) with_ports sessions-IsLive (1, omega arith, rtp_usable, rtcp_usable)

-- The video track over UDP.
abbrev with_flag : RtspHandler
with_flag = record with_ports {
  clients = record { av_flags = (pos 5, false) ∷ []; av_session_ids = [] };
}

flag_there : lookup (pos 5) with_flag.clients.av_flags ≡ some false
unfolding lookup
flag_there = refl

ports_there : generate_ports 5 os 0 recorded ≡ some (pair 60000 60001 (60001 ∷ 60000 ∷ recorded))
unfolding generate_ports
ports_there = refl

build_string-Comes_example :
    Comes outside (pos 3) (pos 5000) (pos 5001) with_flag 60000 60001 (60001 ∷ 60000 ∷ recorded) (
      build_string outside
        (bytes "SETUP")
        (pos 3)
        (bytes "rtsp://h/track0")
        (pos 5000)
        (pos 5001)
        with_flag)
build_string-Comes_example =
    build_string-Comes outside (pos 3) (pos 5000) (pos 5001) with_flag 60000 60001
      (60001 ∷ 60000 ∷ recorded) (bytes "rtsp://h/track0") flag_there ports_there
