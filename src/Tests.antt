-- ===== src/Tests.antt =====
-- The packets on concrete inputs: the units and frames of src/container and src/handler/rtp.
pub mod Files
pub mod Dialogue
pub mod Clients
pub mod Config
pub mod Logs
pub mod Older
use fz_server.Prelude.{
  ℕ, zero, suc, ◌+◌, ◌/◌, ◌%◌, ◌≤◌, leb, ◌<◌, ◌≡◌, ◌≢◌, refl, ◌⊎◌, inl, inr, Bool, true, false,
  List, [], ◌∷◌, ◌++◌, Option, none, some, arith, ◌==◌, if◌then◌else◌, length,
}
use fz_server.Prelude.Int.{ℤ, pos, negsuc}
use fz_server.Memory.{Bytes, Memory, slice, shift}
use fz_server.Net.{Net, transmit}
use fz_server.File.{File}
use fz_server.Word.{u8}
use fz_server.Rtp.{
  RtpHeader, RtpPacket, IsRtpHeader, rtp_header_init, rtp_max_pkt_size, rtp_send_packet_over_udp,
  rtp_send_packet_over_tcp,
}
use fz_server.Rtp.Wire.{rtp_header_init-IsRtpHeader}
use fz_server.Rtp.Framing.{HandsOver, udp_frame, tcp_frame, rtp_send_packet-read_frame}
use fz_server.Rtp.Delivery.{Delivers}
use fz_server.H264.Packets.{packetize}
use fz_server.H264.Send.{send_manager, send_manager_tcp}
use fz_server.H264.Manager.{send_manager-Delivers, send_manager_tcp-Delivers}
use fz_server.H264.Received.{Carries, unit_received, receive-send_manager, receive-send_manager_tcp}
use fz_server.H264.Sizes.{Hands, send_manager-Hands}
use fz_server.H264.Progress.{
  send_manager-header, send_manager_tcp-header, clock_plus, clock_step, seq_plus,
}
use fz_server.H264.Extract.{extract_content}
use fz_server.H264.Scan.{extract_content-cases, NoUnit, Extracts}
use fz_server.Media.{send_h264_over_tcp, send_h264_over_udp, send_aac_over_tcp}
use fz_server.Media.Units.{opened, h264_packet}
use fz_server.Media.Playing.{Plays, send_h264_over_tcp-Plays, send_h264_over_udp-Plays}
use fz_server.Aac.{AdtsHeader, parse_adts_header, rtp_send_aac_frame, rtp_send_aac_frame_tcp}
use fz_server.Aac.Header.{IsBytes, field, Reads, parse_adts_header-Reads}
use fz_server.Aac.Frame.{SendsFrame, rtp_send_aac-SendsFrame}
use fz_server.Text.{bytes}

-- The third call of the kernel is refused; the others take everything.
abbrev pub net : Net
net = record { replies = λ n. if n == 2 then none else some 100; sent = [] }

abbrev pub willing : Net
willing = record { replies = λ n. some 100; sent = [] }

abbrev pub client : Bytes
client = bytes "10.0.0.7"

abbrev blank : RtpHeader
blank = record {
  csrc_len = 0;
  extension = 0;
  padding = 0;
  version = 0;
  payload_type = 0;
  marker = 0;
  seq = 0;
  timestamp = 0;
  ssrc = 0;
}

abbrev pub packet : RtpPacket
packet =
    rtp_header_init (record { header = blank; payload = λ i. 0 }) 0 0 0 2 96 0 65535 4294967000
      0x88923423

pub packet-IsRtpHeader : IsRtpHeader packet.header
packet-IsRtpHeader = rtp_header_init-IsRtpHeader _ 0 0 0 2 96 0 65535 4294967000 0x88923423

-- A slice of type 5, and an SPS.
abbrev unit : Memory
unit i = if i == 0 then 0x65 else i % 256

abbrev sps : Memory
sps i = if i == 0 then 0x67 else i % 256

-- A unit of three fragments, the last of which the kernel refuses.
send_manager-Delivers_example :
    Delivers
      (packetize packet.header unit 3000)
      0
      net
      (send_manager (pos 5) unit 3000 client (pos 5004) packet net).1
      (send_manager (pos 5) unit 3000 client (pos 5004) packet net).2
send_manager-Delivers_example =
    send_manager-Delivers (pos 5) unit 3000 client (pos 5004) packet net packet-IsRtpHeader

send_manager_tcp-Delivers_example :
    Delivers
      (packetize packet.header unit 3000)
      0
      net
      (send_manager_tcp (pos 5) unit 3000 packet net).1
      (send_manager_tcp (pos 5) unit 3000 packet net).2
send_manager_tcp-Delivers_example =
    send_manager_tcp-Delivers (pos 5) unit 3000 packet net packet-IsRtpHeader

sent_some : (send_manager (pos 5) unit 1500 client (pos 5004) packet willing).2 ≡ some 200
unfolding send_manager transmit
sent_some = refl

sent_some_tcp : (send_manager_tcp (pos 5) sps 20 packet willing).2 ≡ some 100
unfolding send_manager_tcp transmit
sent_some_tcp = refl

sent_some_split_tcp : (send_manager_tcp (pos 5) unit 2801 packet willing).2 ≡ some 300
unfolding send_manager_tcp transmit
sent_some_split_tcp = refl

sent_some_single : (send_manager (pos 5) sps 20 client (pos 5004) packet willing).2 ≡ some 100
unfolding send_manager transmit
sent_some_single = refl

-- The sequence number and the timestamp wrap around here.
send_manager-header_example :
    (send_manager (pos 5) unit 1500 client (pos 5004) packet willing).0.header
    ≡ clock_plus
        (clock_step unit 1500)
        (seq_plus (length (packetize packet.header unit 1500)) packet.header)
send_manager-header_example =
    send_manager-header (pos 5) unit 1500 client (pos 5004) packet willing packet-IsRtpHeader
      sent_some

send_manager_tcp-header_example :
    (send_manager_tcp (pos 5) sps 20 packet willing).0.header
    ≡ clock_plus
        (clock_step sps 20)
        (seq_plus (length (packetize packet.header sps 20)) packet.header)
send_manager_tcp-header_example =
    send_manager_tcp-header (pos 5) sps 20 packet willing packet-IsRtpHeader sent_some_tcp

receive-send_manager_example :
    Carries willing
      (send_manager (pos 5) unit 1500 client (pos 5004) packet willing).1
      (unit_received unit 1500)
receive-send_manager_example =
    receive-send_manager unit 1500 packet willing 200 packet-IsRtpHeader (pos 5) client (pos 5004)
      (omega arith) (λ small. absurd (omega (arith, small))) sent_some

receive-send_manager_tcp_example :
    Carries willing (send_manager_tcp (pos 5) sps 20 packet willing).1 (unit_received sps 20)
receive-send_manager_tcp_example =
    receive-send_manager_tcp sps 20 packet willing 100 packet-IsRtpHeader (pos 5) (omega arith)
      (λ small. omega arith) sent_some_tcp

rtp_send_packet-read_frame_example :
    HandsOver packet 300 net
      (udp_frame (pos 5) client (pos 5004) packet 300)
      (rtp_send_packet_over_udp (pos 5) client (pos 5004) packet 300 net)
    × HandsOver packet 300 net
        (tcp_frame (pos 5) 2 packet 300)
        (rtp_send_packet_over_tcp (pos 5) packet 300 2 net)
rtp_send_packet-read_frame_example =
    rtp_send_packet-read_frame (pos 5) client (pos 5004) 2 packet 300 net packet-IsRtpHeader
      (omega arith)

rtp_send_aac-SendsFrame_example :
    SendsFrame unit 300 packet willing
      (rtp_send_aac_frame (pos 5) client (pos 5006) unit 300 packet willing)
    × SendsFrame unit 300 packet willing (rtp_send_aac_frame_tcp (pos 5) unit 300 packet willing)
rtp_send_aac-SendsFrame_example =
    rtp_send_aac-SendsFrame (pos 5) client (pos 5006) unit 300 packet willing packet-IsRtpHeader
      (omega arith)

-- The unit of 3000 bytes and the byte behind it, and nothing else.
abbrev unit_alone : Memory
unit_alone i = if leb i 3000 then unit i else 0

alone_same : (i : ℕ) → i ≤ 3000 → unit i ≡ unit_alone i
alone_same i h = ground arith

send_manager-Hands_example :
    let u = send_manager (pos 5) unit 3000 client (pos 5004) packet net in
    let t = send_manager_tcp (pos 5) unit 3000 packet net in
    (Hands (3000 / rtp_max_pkt_size + 1) net u.1
      × Delivers (packetize packet.header unit_alone 3000) 0 net u.1 u.2)
    × (Hands (3000 / rtp_max_pkt_size + 1) net t.1
        × Delivers (packetize packet.header unit_alone 3000) 0 net t.1 t.2)
send_manager-Hands_example =
    send_manager-Hands (pos 5) unit unit_alone 3000 client (pos 5004) packet net packet-IsRtpHeader
      alone_same
