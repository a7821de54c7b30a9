-- ===== src/Former/Playing.antt =====
-- PLAY of the former server, src/rtsp/rtsp_server.cpp, against `sendH264OverUdp` of
-- src/handler/rtsp/rtsp_handler.cpp.
use fz_server.Prelude.{
  ℕ, zero, suc, ◌<◌, ◌≡◌, refl, ap, ◌∙◌, inl, inr, false, Option, none, some, ◌==◌, Bool-cases,
  Option-cases, length,
}
use fz_server.Prelude.Int.{ℤ, pos}
use fz_server.Memory.{Bytes, Memory}
use fz_server.Net.{Net, stream, transmit}
use fz_server.File.{File, fread}
use fz_server.Text.{bytes, equals, c_string}
use fz_server.Rtp.{RtpPacket}
use fz_server.Rtp.Packet.{Sent}
use fz_server.H264.Send.{send_manager}
use fz_server.H264.Extract.{extract_content}
use fz_server.Media.{h264_loop, after_unit, code_length, send_h264_over_udp, Played}
use fz_server.Media.Units.{opened, h264_packet}
use fz_server.Media.Playing.{send_h264_over_udp-Plays}
use fz_server.Former.Replies.{play_reply}
use fz_server.Former.Request.{Request, Surroundings, FormerState, read_request}
use fz_server.Former.Client.{
  reply_to, behind_unit, step_of, play_units, play_file, answer_with, doclient,
}

-- The sockets behind a run, without what the function returns.
abbrev pub net_of : Played → Option Net
net_of none = none
net_of (some (net, ret)) = some net

behind_unit-after_unit :
    (send : Memory → ℕ → RtpPacket → Net → Sent) (s : Sent) (next : RtpPacket → Net → Option Net)
    (next' : RtpPacket → Net → Played)
    → ((q : RtpPacket) (net : Net) → next q net ≡ net_of (next' q net))
    → behind_unit s next ≡ net_of (after_unit send s next')
unfolding behind_unit after_unit
behind_unit-after_unit send (p, net, none) next next' same = refl
behind_unit-after_unit send (p, net, some n) next next' same = same p net

pub play_units-h264_loop :
    (fuel : ℕ) (sockfd : ℤ) (ip : Bytes) (port : ℤ) (rec : Memory) (fp : File) (p : RtpPacket)
    (net : Net)
    → play_units fuel sockfd ip port rec fp p net
      ≡ net_of (h264_loop (λ m n. send_manager sockfd m n ip port) fuel rec fp p net)
unfolding play_units h264_loop code_length step_of
play_units-h264_loop zero sockfd ip port rec fp p net = refl
play_units-h264_loop (suc fuel) sockfd ip port rec fp p net =
    let send = λ (m : Memory) (n : ℕ). send_manager sockfd m n ip port in
    let (buf, fp', size) = fread rec 650000 fp in
    elim (Bool-cases (size == 0)) [
      | inl end ↦ rw (end, play_units, h264_loop) refl
      | inr more ↦ elim (Option-cases (extract_content buf fp' size)) [
        | inl bad ↦ rw (more, bad, play_units, h264_loop) refl
        | inr (found, good) ↦
            rw (more, good, play_units, h264_loop)
              (behind_unit-after_unit send _ _ _
                λ q net'. play_units-h264_loop fuel sockfd ip port buf found.1 q net')
      ]
    ]

reply_to-play :
    (o : Surroundings) (r : Request) (st : FormerState)
    → r.method ≡ bytes "PLAY"
    → reply_to o r st ≡ (some (play_reply r.cseq), st)
unfolding reply_to equals
reply_to-play o r st e = rw (e, reply_to) refl

play_file-play :
    (fuel : ℕ) (o : Surroundings) (r : Request) (ip : Bytes) (st : FormerState) (fp : File)
    (net : Net)
    → r.method ≡ bytes "PLAY"
    → o.file ≡ some fp
    → play_units fuel st.server_rtp_sockfd ip r.client_rtp_port o.rec fp
        (h264_packet o.rtp_packet)
        st.net
      ≡ some net
    → play_file fuel o r ip st
      ≡ some (record { ret = pos 1; closed = false; state = record st { net = net } })
unfolding play_file equals
play_file-play fuel o r ip st fp net e f g = rw (e, f, g, play_file) refl

-- On a PLAY of a client whose address is known, with a file that can be opened and more fuel than
-- it has bytes, the former server's `doclient` returns 1 and hands over its answer and then
-- exactly what `sendH264OverUdp` hands over on the same file, to the port that the same request's
-- lines give or, where they give none, that the variable's storage held.
pub doclient-send_h264_over_udp :
    (fuel : ℕ) (o : Surroundings) (fd : ℤ) (st : FormerState) (ip buffer content : Bytes)
    → o.peer ≡ some ip
    → o.received ≡ some buffer
    → o.file ≡ some (opened content)
    → (read_request o buffer).method ≡ bytes "PLAY"
    → length content < fuel
    → let r = read_request o buffer in
      let net = (transmit st.net (stream fd (c_string (play_reply r.cseq)))).0 in
      (net' : Net) × (ret : ℤ) × (send_h264_over_udp fuel st.server_rtp_sockfd ip r.client_rtp_port
          (some (opened content))
          o.rec
          o.rtp_packet
          net
        ≡ some (net', ret))
      × (doclient fuel o fd st
          ≡ some (record { ret = pos 1; closed = false; state = record st { net = net' } }))
unfolding doclient answer_with h264_loop send_h264_over_udp
doclient-send_h264_over_udp fuel o fd st ip buffer content there came opens method enough =
    let r = read_request o buffer in
    let answered = record st {
      net = (transmit st.net (stream fd (c_string (play_reply r.cseq)))).0;
    } in
    let ((net', ret), played, plays) =
      send_h264_over_udp-Plays fuel st.server_rtp_sockfd ip r.client_rtp_port content o.rec
        o.rtp_packet answered.net enough in
    let same =
      play_units-h264_loop fuel st.server_rtp_sockfd ip r.client_rtp_port o.rec (opened content)
        (h264_packet o.rtp_packet) answered.net
      ∙ ap net_of played in
    (
      net',
      ret,
      played,
      rw (there, came, doclient)
          (ap (answer_with fuel o r ip fd) (reply_to-play o r st method)
            ∙ play_file-play fuel o r ip answered (opened content) net' method opens same),
    )
