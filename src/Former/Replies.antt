-- ===== src/Former/Replies.antt =====
-- The answers of src/rtsp/rtsp_server.cpp: what its `handleCmd_…` functions print.
use fz_server.Prelude.{zero, suc, ◌+◌, ◌∷◌, ◌++◌, length}
use fz_server.Prelude.Int.{ℤ, pos, negsuc}
use fz_server.Memory.{Bytes}
use fz_server.Text.{bytes}
use fz_server.Text.Decimal.{show_int}
use fz_server.Rtsp.Replies.{local_ip}

abbrev pub server_rtp_port : ℤ
server_rtp_port = pos 55532

abbrev pub server_rtcp_port : ℤ
server_rtcp_port = pos 55533

-- "RTSP/1.0 200 OK", the number of the request, and what follows.
abbrev ok_with : ℤ → Bytes → Bytes
ok_with cseq rest = bytes "RTSP/1.0 200 OK \r\nCSeq: " ++ (show_int cseq ++ (bytes "\r\n" ++ rest))

unfoldable pub options_reply : ℤ → Bytes
unfolding show_int
options_reply cseq =
    ok_with cseq (bytes "Public: OPTIONS, DESCRIBE, SETUP, PLAY, PAUSE, TEARDOWN\r\n\r\n")

-- Only the video track is described.
unfoldable pub video_sdp : ℤ → Bytes → Bytes
unfolding show_int
video_sdp now ip =
    bytes "v=0\r\no=- 9"
    ++ (show_int now
        ++ (bytes " 1 IN IP4 "
            ++ (ip
                ++ bytes
                    "\r\nt=0 0\r\na=control:*\r\nm=video 0 RTP/AVP 96\r\na=rtpmap:96 H264/90000\r\na=control:track0\r\n")))

unfoldable pub describe_reply : Bytes → ℤ → ℤ → Bytes → Bytes
unfolding show_int video_sdp local_ip
describe_reply stale now cseq url =
    let sdp = video_sdp now (local_ip stale url) in
    ok_with cseq (
      bytes "Content-Base: "
      ++ (url
          ++ (bytes "\r\nContent-type: application/sdp\r\nContent-length: "
              ++ (show_int (pos (length sdp)) ++ (bytes "\r\n\r\n" ++ sdp)))))

abbrev plus_one : ℤ → ℤ
plus_one (pos n) = pos (n + 1)
plus_one (negsuc zero) = pos 0
plus_one (negsuc (suc n)) = negsuc n

unfoldable pub setup_reply : ℤ → ℤ → Bytes
unfolding show_int
setup_reply cseq client_rtp_port = ok_with cseq (
    bytes "Transport: RTP/AVP;unicast;client_port="
    ++ (show_int client_rtp_port
        ++ (b'-'
            ∷ (show_int (plus_one client_rtp_port)
                ++ (bytes ";server_port="
                    ++ (show_int server_rtp_port
                        ++ (b'-'
                            ∷ (show_int server_rtcp_port
                                ++ bytes "\r\nSession: 66334873\r\n\r\n"))))))))

unfoldable pub play_reply : ℤ → Bytes
unfolding show_int
play_reply cseq = ok_with cseq (bytes "Range: npt=0.000-\r\nSession: 66334873; timeout=10\r\n\r\n")

unfoldable pub pause_reply : ℤ → Bytes
unfolding show_int
pause_reply cseq = ok_with cseq (bytes "Date: 23 Jan 1997 15:35:06 GMT\r\n\r\n")

unfoldable pub teardown_reply : ℤ → Bytes
unfolding show_int
teardown_reply cseq = ok_with cseq (bytes "\r\n")
