-- ===== src/Former/Client.antt =====
-- `doclient` of src/rtsp/rtsp_server.cpp.
use fz_server.Prelude.{
  ℕ, zero, suc, ◌-◌, Bool, true, false, not, ◌||◌, ◌&&◌, Option, none, some, ◌==◌, if◌then◌else◌,
}
use fz_server.Prelude.Int.{ℤ, pos, negsuc, negative}
use fz_server.Memory.{Bytes, Memory, shift}
use fz_server.Net.{Net, stream, transmit}
use fz_server.File.{File, fread}
use fz_server.Text.{bytes, equals, c_string}
use fz_server.Rtp.{RtpPacket, rtp_header_init, rtp_version, rtp_payload_type_h264}
use fz_server.Rtp.Packet.{Sent}
use fz_server.H264.Extract.{start_code3, start_code4, extract_content}
use fz_server.H264.Send.{send_manager}
use fz_server.Former.Replies.{
  options_reply, describe_reply, setup_reply, play_reply, pause_reply, teardown_reply,
}
use fz_server.Former.Request.{Request, Surroundings, FormerState, read_request}

-- `createUdpSocket` and `bindSocketAddr` for both sockets; `false` where one fails.
unfoldable pub open_sockets : Surroundings → FormerState → Bool × FormerState
open_sockets o st =
    let st' = record st { server_rtp_sockfd = o.sockets.0; server_rtcp_sockfd = o.sockets.1 } in
    (not (negative o.sockets.0 || negative o.sockets.1) && (o.binds.0 && o.binds.1), st')

-- The `if` on the methods: the text in `sBuf`, `none` where `doclient` returns -1.
unfoldable pub reply_to : Surroundings → Request → FormerState → Option Bytes × FormerState
unfolding equals open_sockets options_reply describe_reply setup_reply play_reply pause_reply
    teardown_reply
reply_to o r st =
    if equals r.method (bytes "OPTIONS")
    then (some (options_reply r.cseq), st)
    else if equals r.method (bytes "DESCRIBE")
    then (some (describe_reply o.stale_ip o.now r.cseq r.url), st)
    else if equals r.method (bytes "SETUP")
    then (let (ready, st') = open_sockets o st in
        (if ready then some (setup_reply r.cseq r.client_rtp_port) else none, st'))
    else if equals r.method (bytes "PLAY")
    then (some (play_reply r.cseq), st)
    else if equals r.method (bytes "PAUSE")
    then (some (pause_reply r.cseq), st)
    else if equals r.method (bytes "TEARDOWN")
    then (some (teardown_reply r.cseq), st)
    else (none, st)

-- Both `if`s that set `step`.
unfoldable pub step_of : Memory → ℕ
step_of rec = if start_code4 rec then 4 else if start_code3 rec then 3 else 0

-- The `if` on the result of `sendManager`.
unfoldable pub behind_unit : Sent → (RtpPacket → Net → Option Net) → Option Net
behind_unit (p, net, none) next = some net
behind_unit (p, net, some sent) next = next p net

-- The `while` loop of PLAY, which ends by `break` in place of `return`.
unfoldable pub play_units : ℕ → ℤ → Bytes → ℤ → Memory → File → RtpPacket → Net → Option Net
unfolding step_of behind_unit
play_units zero sockfd ip port rec fp p net = none
play_units (suc fuel) sockfd ip port rec fp p net =
    let (buf, fp', size) = fread rec 650000 fp in
    elim (size == 0) [
      | true ↦ some net
      | false ↦ elim (extract_content buf fp' size) [
        | none ↦ some net
        | some (filesize, fp'') ↦
            let step = step_of buf in
            behind_unit (send_manager sockfd (shift buf step) (filesize - step) ip port p net)
              λ q net'. play_units fuel sockfd ip port buf fp'' q net'
      ]
    ]

-- What `doclient` returns, whether the connection was closed, the state.
pub record Done : Type 0 where
  pub ret : ℤ
  pub closed : Bool
  pub state : FormerState

abbrev failed : FormerState → Option Done
failed st = some (record { ret = negsuc 0; closed = false; state = st })

-- Behind the answer: on PLAY the file is played.
unfoldable pub play_file : ℕ → Surroundings → Request → Bytes → FormerState → Option Done
unfolding play_units equals rtp_header_init send_manager extract_content
play_file fuel o r ip st =
    if equals r.method (bytes "PLAY")
    then (elim o.file [
      | none ↦ failed st
      | some fp ↦
          let p =
            rtp_header_init o.rtp_packet 0 0 0 rtp_version rtp_payload_type_h264 0 0 0 0x88923423 in
          elim (play_units fuel st.server_rtp_sockfd ip r.client_rtp_port o.rec fp p st.net) [
            | none ↦ none
            | some net ↦
                some (record { ret = pos 1; closed = false; state = record st { net = net } })
          ]
    ])
    else some (record { ret = pos 1; closed = false; state = st })

-- The answer is sent, where there is one.
unfoldable pub answer_with :
    ℕ → Surroundings → Request → Bytes → ℤ → Option Bytes × FormerState → Option Done
unfolding play_file transmit c_string
answer_with fuel o r ip fd (none, st) = failed st
answer_with fuel o r ip fd (some text, st) =
    play_file fuel o r ip (record st { net = (transmit st.net (stream fd (c_string text))).0 })

-- `doclient` on the connection `fd`; `none` only where the fuel runs out.
unfoldable pub doclient : ℕ → Surroundings → ℤ → FormerState → Option Done
unfolding read_request reply_to answer_with
doclient fuel o fd st = elim o.peer [
  | none ↦ failed st
  | some ip ↦ elim o.received [
    | none ↦ some (record { ret = negsuc 0; closed = true; state = st })
    | some buffer ↦ let r = read_request o buffer in answer_with fuel o r ip fd (reply_to o r st)
  ]
]
