-- ===== src/Rtp/Framing.antt =====
-- What a receiver makes of one frame, and the interface that the packetizers take: a way to send a
-- packet that hands over one frame, which a receiver reads as the packet, and leaves the packet as
-- it was.
use fz_server.Prelude.{
  ℕ, ◌+◌, ◌/◌, ◌%◌, ◌<◌, ◌≡◌, true, ◌&&◌, ◌∷◌, Option, none, some, arith, ◌==◌, if◌then◌else◌,
  length, ==_iff,
}
use fz_server.Prelude.Int.{ℤ}
use fz_server.Memory.{Bytes, slice}
use fz_server.Memory.Slices.{length-slice}
use fz_server.Net.{Net, Frame, datagram, stream, transmit, to_u16}
use fz_server.Word.{be16, u32, htons}
use fz_server.Rtp.{
  RtpHeader, RtpPacket, IsRtpHeader, to_network, header_bytes, packet_bytes, interleaved,
  rtp_header_size, rtp_send_packet_over_tcp, rtp_send_packet_over_udp,
}
use fz_server.Rtp.Wire.{read_packet, read_packet-packet_bytes, to_host-to_network}

-- RFC 2326, 10.12: `$`, a channel, the length of what follows in two bytes, high byte first.
unfoldable pub read_stream : Bytes → Option (RtpHeader × Bytes)
read_stream (mark ∷ channel ∷ hi ∷ lo ∷ rest) =
    if mark == 0x24 && be16 hi lo == length rest then read_packet rest else none
read_stream _ = none

unfoldable pub read_frame : Frame → Option (RtpHeader × Bytes)
unfolding read_stream
read_frame (datagram s ip port bs) = read_packet bs
read_frame (stream s bs) = read_stream bs

pub length-packet_bytes : (p : RtpPacket) (n : ℕ) → length (packet_bytes p n) ≡ rtp_header_size + n
unfolding packet_bytes header_bytes
length-packet_bytes p n = omega (arith, length-slice p.payload 0 n)

pub read_stream-interleaved :
    (p : RtpPacket) (n channel : ℕ)
    → IsRtpHeader p.header
    → n < 65524
    → read_stream (interleaved (to_network p) n channel) ≡ some (p.header, slice p.payload 0 n)
unfolding read_stream interleaved
read_stream-interleaved p n channel v small = rw (fits) (read_packet-packet_bytes p n v)
  where
    size : ℕ
    size = u32 (rtp_header_size + n)

    fits : (be16 (size / 256 % 256) (size % 256) == length (packet_bytes (to_network p) n)) ≡ true
    fits = (==_iff _ _).1 (omega (arith, length-packet_bytes (to_network p) n))

-- `send p n` sends the header of `p` and the first n bytes of its payload.
abbrev pub Sender : Type 0
Sender = RtpPacket → ℕ → Net → RtpPacket × Net × Option ℕ

pub record IsTransport (send : Sender) (frame : RtpPacket → ℕ → Frame) : Type 0 where
  pub send_lem :
      (p : RtpPacket) (n : ℕ) (net : Net)
      → IsRtpHeader p.header
      → send p n net ≡ (p, (transmit net (frame p n)).0, (transmit net (frame p n)).1)
  pub read_lem :
      (p : RtpPacket) (n : ℕ)
      → IsRtpHeader p.header
      → n < 65524
      → read_frame (frame p n) ≡ some (p.header, slice p.payload 0 n)

abbrev pub udp_frame : ℤ → Bytes → ℤ → RtpPacket → ℕ → Frame
udp_frame sockfd ip port p n =
    datagram sockfd ip (htons (to_u16 port)) (packet_bytes (to_network p) n)

abbrev pub tcp_frame : ℤ → ℕ → RtpPacket → ℕ → Frame
tcp_frame fd channel p n = stream fd (interleaved (to_network p) n channel)

pub rtp_send_packet_over_udp-IsTransport :
    (sockfd : ℤ) (ip : Bytes) (port : ℤ)
    → IsTransport (rtp_send_packet_over_udp sockfd ip port) (udp_frame sockfd ip port)
unfolding rtp_send_packet_over_udp read_frame
rtp_send_packet_over_udp-IsTransport sockfd ip port = record {
  send_lem = λ p n net v. rw (to_host-to_network p v);
  read_lem = λ p n v small. read_packet-packet_bytes p n v;
}

pub rtp_send_packet_over_tcp-IsTransport :
    (fd : ℤ) (channel : ℕ)
    → IsTransport (λ p n net. rtp_send_packet_over_tcp fd p n channel net) (tcp_frame fd channel)
unfolding rtp_send_packet_over_tcp read_frame
rtp_send_packet_over_tcp-IsTransport fd channel = record {
  send_lem = λ p n net v. rw (to_host-to_network p v);
  read_lem = λ p n v small. read_stream-interleaved p n channel v small;
}

-- The kernel gets this frame, the packet is as it was, and the frame reads as the packet.
abbrev pub HandsOver : RtpPacket → ℕ → Net → Frame → RtpPacket × Net × Option ℕ → Type 0
HandsOver p n net frame r =
    (r ≡ (p, (transmit net frame).0, (transmit net frame).1))
    × (read_frame frame ≡ some (p.header, slice p.payload 0 n))

-- For a packet whose header fields fit their widths and a payload of less than 65524 bytes,
-- `rtpSendPacketOverUdp` hands over one datagram and returns what the kernel answers, with the
-- packet as it was; a reader of RFC 3550 finds in the datagram the fields of the header, in host
-- order, and exactly the payload.
pub rtp_send_packet_over_udp-read_frame :
    (sockfd : ℤ) (ip : Bytes) (port : ℤ) (p : RtpPacket) (n : ℕ) (net : Net)
    → IsRtpHeader p.header
    → n < 65524
    → HandsOver p n net
        (udp_frame sockfd ip port p n)
        (rtp_send_packet_over_udp sockfd ip port p n net)
rtp_send_packet_over_udp-read_frame sockfd ip port p n net v small =
    let t = rtp_send_packet_over_udp-IsTransport sockfd ip port in
    (t.send_lem p n net v, t.read_lem p n v small)

-- For a packet whose header fields fit their widths and a payload of less than 65524 bytes,
-- `rtpSendPacketOverTcp` hands over one interleaved frame and returns what the kernel answers,
-- with the packet as it was; a reader of RFC 2326 finds the frame's length right, and in it the
-- fields of the header, in host order, and exactly the payload.
pub rtp_send_packet_over_tcp-read_frame :
    (fd : ℤ) (channel : ℕ) (p : RtpPacket) (n : ℕ) (net : Net)
    → IsRtpHeader p.header
    → n < 65524
    → HandsOver p n net (tcp_frame fd channel p n) (rtp_send_packet_over_tcp fd p n channel net)
rtp_send_packet_over_tcp-read_frame fd channel p n net v small =
    let t = rtp_send_packet_over_tcp-IsTransport fd channel in
    (t.send_lem p n net v, t.read_lem p n v small)

-- For a packet whose header fields fit their widths and a payload of less than 65524 bytes,
-- `rtpSendPacketOverUdp` hands over one datagram and `rtpSendPacketOverTcp` one interleaved
-- frame, and both return what the kernel answers, with the packet as it was; a reader of RFC
-- 3550, and over TCP of RFC 2326, finds in it the fields of the header, in host order, and
-- exactly the payload.
pub rtp_send_packet-read_frame :
    (fd : ℤ) (ip : Bytes) (port : ℤ) (channel : ℕ) (p : RtpPacket) (n : ℕ) (net : Net)
    → IsRtpHeader p.header
    → n < 65524
    → HandsOver p n net (udp_frame fd ip port p n) (rtp_send_packet_over_udp fd ip port p n net)
      × HandsOver p n net (tcp_frame fd channel p n) (rtp_send_packet_over_tcp fd p n channel net)
rtp_send_packet-read_frame fd ip port channel p n net v small = (
  rtp_send_packet_over_udp-read_frame fd ip port p n net v small,
  rtp_send_packet_over_tcp-read_frame fd channel p n net v small,
)
