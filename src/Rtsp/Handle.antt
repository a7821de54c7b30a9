-- ===== src/Rtsp/Handle.antt =====
-- `handleRequest` and what it calls: the reading of a message, the dialogue, and the session's state.
pub mod Crash
pub mod Reading
pub mod Sound
pub mod Unknown
use fz_server.Prelude.{
  ℕ, Bool, true, false, List, [], ◌∷◌, ◌++◌, Option, none, some, ◌==◌, if◌then◌else◌,
}
use fz_server.Prelude.Int.{ℤ, pos, negsuc}
use fz_server.Memory.{Bytes}
use fz_server.Net.{Net, Frame, stream, transmit}
use fz_server.Text.{bytes, c_string, is_empty}
use fz_server.Map.{fetch, lookup, bytes_eq, nat_eq}
use fz_server.Response.{RtspStatusCode, generate_rtsp_response}
use fz_server.Session.{Session, update, get_session, print_session}
use fz_server.Session.Status.{SessionStaus}
use fz_server.Rtsp.State.{RtspHandler, Outside}
use fz_server.Rtsp.Request.{Parsed, parse_tcp, parse_udp}
use fz_server.Rtsp.Build.{Built, Outcome, build_string, build_string_tcp}

-- `send` on the client's connection; its result is not looked at.
unfoldable pub send_text : Bytes → RtspHandler → RtspHandler
unfolding transmit
send_text text h = record h { net = (transmit h.net (stream h.client_fd text)).0 }

abbrev pub server_header : Bytes
server_header = bytes "Server: MyRtspServer/1.0\r\n"

-- What is sent for a result of `build_string`: 500 for -1, 501 for -2, else the text in `sBuf`.
unfoldable pub answer : ℤ → Built → RtspHandler
unfolding send_text generate_rtsp_response c_string
answer cseq b = elim b.res [
  | pos n ↦ send_text (c_string b.reply) b.handler
  | negsuc n ↦
      if n == 0
      then send_text
          (generate_rtsp_response RtspStatusCode.internal_server_error cseq server_header
            (bytes "The requested resource was not found"))
          b.handler
      else if n == 1
      then send_text
          (generate_rtsp_response RtspStatusCode.not_implemented cseq server_header
            (bytes "notImplemented error."))
          b.handler
      else send_text (c_string b.reply) b.handler
]

-- `none` is a crash.
unfoldable pub answered : ℤ → Outcome → Option RtspHandler
unfolding answer
answered cseq none = none
answered cseq (some b) = some (answer cseq b)

-- `interact_rtsp_tcp` and `interact_rtsp`, which return 0.
unfoldable pub interact_rtsp_tcp : Outside → Bytes → RtspHandler → Option RtspHandler
unfolding parse_tcp build_string_tcp answered
interact_rtsp_tcp o buffer h =
    let p = parse_tcp o buffer h in
    answered p.cseq (build_string_tcp o p.method p.cseq p.url p.handler)

unfoldable pub interact_rtsp : Outside → Bytes → RtspHandler → Option RtspHandler
unfolding parse_udp build_string answered
interact_rtsp o buffer h =
    let p = parse_udp o buffer h in
    answered p.cseq
      (build_string o p.method p.cseq p.url p.client_rtp_port p.client_rtcp_port p.handler)

-- `sendH264AacOverTcp` runs two threads on the client's connection and returns 0. `streamed` is what
-- they hand over, in the order in which it happens.
unfoldable pub send_h264_aac_over_tcp : List Frame → RtspHandler → RtspHandler
send_h264_aac_over_tcp streamed h = record h { net = record n { sent = n.sent ++ streamed } }
  where
    open h use {net as n}

-- `pause_send` and `teardown_send` do nothing and return 0.
unfoldable pub act_on_state : List Frame → ℕ → SessionStaus → RtspHandler → Option RtspHandler
unfolding send_h264_aac_over_tcp print_session update
act_on_state streamed at SessionStaus.playing h =
    let h' = send_h264_aac_over_tcp streamed h in
    elim (update at print_session h'.heap) [
      | none ↦ none
      | some heap ↦ some (record h' { heap = heap })
    ]
act_on_state streamed at SessionStaus.pause h = some h
act_on_state streamed at SessionStaus.teardown h = some h
act_on_state streamed at SessionStaus.none h = some h
act_on_state streamed at SessionStaus.indeterminate h = some h

-- The `if (!session_.empty())` part, where the pointer is not checked.
unfoldable pub act_on_session : List Frame → RtspHandler → Option RtspHandler
unfolding act_on_state get_session
act_on_session streamed h =
    if is_empty h.session then some h else elim (get_session h.session h.sessions) [
      | none ↦ none
      | some at ↦ elim (lookup at h.heap.cells) [
        | none ↦ none
        | some s ↦ act_on_state streamed at s.state h
      ]
    ]

-- What `handleRequest` returns, whether the connection was taken from epoll and closed, the handler.
pub record Handled : Type 0 where
  pub ret : ℤ
  pub closed : Bool
  pub handler : RtspHandler

-- The descriptor and the peer's address are stored first. `received` is what `recv` has put into the zeroed buffer, `none` for a result that is not positive.
-- Behind a message `recv_message` runs off its end; its caller compares the value with -1, and the
-- model takes the value to differ from that.
unfoldable pub handle_request :
    Outside → ℤ → Bytes → List Frame → Option Bytes → RtspHandler → Option Handled
unfolding interact_rtsp_tcp act_on_session
handle_request o client_fd client_ip streamed received handler =
    let h = record handler { client_fd = client_fd; client_ip = client_ip } in
    elim received [
      | none ↦ some (record { ret = negsuc 0; closed = true; handler = h })
      | some buffer ↦ elim (interact_rtsp_tcp o buffer h) [
        | none ↦ none
        | some h₁ ↦ elim (act_on_session streamed h₁) [
          | none ↦ none
          | some h₂ ↦ some (record { ret = pos 0; closed = false; handler = h₂ })
        ]
      ]
    ]
