-- ===== src/Rtsp/Replies.antt =====
-- The `handleCmd_…` functions: what they print to `result`, or the buffer as it was.
pub mod Fits
use fz_server.Prelude.{not, ◌∷◌, ◌++◌, ◌==◌, none, some, if◌then◌else◌, length}
use fz_server.Prelude.Int.{ℤ, pos, eqb_ℤ}
use fz_server.Memory.{Bytes}
use fz_server.Text.{bytes, span, is_empty}
use fz_server.Text.Decimal.{show_int}
use fz_server.Rtsp.Request.{scan_literal}

abbrev pub ok_line : ℤ → Bytes
ok_line cseq = bytes "RTSP/1.0 200 OK \r\nCSeq: " ++ (show_int cseq ++ bytes "\r\n")

unfoldable pub handle_options : ℤ → Bytes
handle_options cseq =
    ok_line cseq ++ bytes "Public: OPTIONS, DESCRIBE, SETUP, PLAY, PAUSE, TEARDOWN\r\n\r\n"

-- `sscanf(url, "rtsp://%[^:]:", localIp)`.
unfoldable pub local_ip : Bytes → Bytes → Bytes
unfolding scan_literal span
local_ip stale url = elim (scan_literal (bytes "rtsp://") url) [
  | none ↦ stale
  | some rest ↦
      let (host, rest') = span (λ c. not (c == b':')) rest in if is_empty host then stale else host
]

unfoldable pub sdp : Bytes → ℤ → Bytes → Bytes
sdp profile now ip =
    bytes "v=0\r\no=- 9"
    ++ (show_int now
        ++ (bytes " 1 IN IP4 "
            ++ (ip
                ++ (bytes "\r\nt=0 0\r\na=control:*\r\nm=video 0 "
                    ++ (profile
                        ++ (bytes " 96\r\na=rtpmap:96 H264/90000\r\na=control:track0\r\nm=audio 0 "
                            ++ (profile
                                ++ bytes
                                    " 97\r\na=rtpmap:97 mpeg4-generic/44100/2\r\na=fmtp:97 profile-level-id=1;mode=AAC-hbr;sizelength=13;indexlength=3;indexdeltalength=3;config=1210;\r\na=control:track1\r\n")))))))

unfoldable pub describe : ℤ → Bytes → Bytes → Bytes
describe cseq url text =
    bytes "RTSP/1.0 200 OK\r\nCSeq: "
    ++ (show_int cseq
        ++ (bytes "\r\nContent-Base: "
            ++ (url
                ++ (bytes "\r\nContent-type: application/sdp\r\nContent-length: "
                    ++ (show_int (pos (length text)) ++ (bytes "\r\n\r\n" ++ text))))))

unfoldable pub handle_describe : Bytes → ℤ → ℤ → Bytes → Bytes
unfolding local_ip sdp describe
handle_describe stale now cseq url =
    describe cseq url (sdp (bytes "RTP/AVP") now (local_ip stale url))

unfoldable pub handle_describe_tcp : Bytes → ℤ → ℤ → Bytes → Bytes
unfolding local_ip sdp describe
handle_describe_tcp stale now cseq url =
    describe cseq url (sdp (bytes "RTP/AVP/TCP") now (local_ip stale url))

unfoldable pub handle_setup : ℤ → ℤ → ℤ → ℤ → ℤ → Bytes → Bytes
handle_setup cseq client_rtp client_rtcp server_rtp server_rtcp session =
    ok_line cseq
    ++ (bytes "Transport: RTP/AVP;unicast;client_port="
        ++ (show_int client_rtp
            ++ (b'-'
                ∷ (show_int client_rtcp
                    ++ (bytes ";server_port="
                        ++ (show_int server_rtp
                            ++ (b'-'
                                ∷ (show_int server_rtcp
                                    ++ (bytes "\r\nSession: "
                                        ++ (session ++ bytes "\r\n\r\n"))))))))))

-- The channels follow from the sequence number; for any other one nothing is printed.
unfoldable pub handle_setup_tcp : Bytes → ℤ → Bytes → Bytes
handle_setup_tcp result cseq session =
    if eqb_ℤ cseq (pos 3)
    then answer (bytes "0-1")
    else if eqb_ℤ cseq (pos 4)
    then answer (bytes "2-3")
    else result
  where
    answer : Bytes → Bytes
    answer channels =
        ok_line cseq
        ++ (bytes "Transport: RTP/AVP/TCP;unicast;interleaved="
            ++ (channels ++ (bytes "\r\nSession: " ++ (session ++ bytes "\r\n\r\n"))))

unfoldable pub handle_play : ℤ → Bytes → Bytes
handle_play cseq session =
    ok_line cseq
    ++ (bytes "Range: npt=0.000-\r\nSession: " ++ (session ++ bytes "; timeout=10\r\n\r\n"))

unfoldable pub handle_pause : ℤ → Bytes → Bytes
handle_pause cseq gmt_time = ok_line cseq ++ (bytes "Date: " ++ (gmt_time ++ bytes "\r\n\r\n"))

unfoldable pub handle_teardown : ℤ → Bytes
handle_teardown cseq = ok_line cseq ++ bytes "\r\n"
