-- ===== src/Rtp.antt =====
-- src/handler/rtp/rtp.h and rtp.cpp: the RTP header, its layout in memory, and the two senders.
-- Bit fields are allocated from the low bit of a byte on, and words are little-endian, as on the
-- targets that the header's comments describe.
pub mod Wire
pub mod Framing
pub mod Packet
pub mod Delivery
use fz_server.Prelude.{ℕ, ◌+◌, ◌*◌, ◌/◌, ◌%◌, ◌<◌, ◌∷◌, ◌++◌, Option}
use fz_server.Prelude.Int.{ℤ}
use fz_server.Memory.{Bytes, Memory, slice}
use fz_server.Net.{Net, datagram, stream, transmit, to_u16}
use fz_server.Word.{u8, u16, u32, htons, ntohs, htonl, ntohl, bytes16, bytes32}

pub record RtpHeader : Type 0 where
  pub csrc_len : ℕ
  pub extension : ℕ
  pub padding : ℕ
  pub version : ℕ
  pub payload_type : ℕ
  pub marker : ℕ
  pub seq : ℕ
  pub timestamp : ℕ
  pub ssrc : ℕ

pub record RtpPacket : Type 0 where
  pub header : RtpHeader
  pub payload : Memory

abbrev pub rtp_version : ℕ
rtp_version = 2

abbrev pub rtp_payload_type_h264 : ℕ
rtp_payload_type_h264 = 96

abbrev pub rtp_payload_type_aac : ℕ
rtp_payload_type_aac = 97

abbrev pub rtp_header_size : ℕ
rtp_header_size = 12

abbrev pub rtp_max_pkt_size : ℕ
rtp_max_pkt_size = 1400

-- A store to a bit field or to a word keeps what fits.
unfoldable pub rtp_header_init : RtpPacket → ℕ → ℕ → ℕ → ℕ → ℕ → ℕ → ℕ → ℕ → ℕ → RtpPacket
rtp_header_init p csrc_len extension padding version payload_type marker seq timestamp ssrc =
    record p {
      header = record {
        csrc_len = csrc_len % 16;
        extension = extension % 2;
        padding = padding % 2;
        version = version % 4;
        payload_type = payload_type % 128;
        marker = marker % 2;
        seq = u16 seq;
        timestamp = u32 timestamp;
        ssrc = u32 ssrc;
      };
    }

-- The twelve bytes of a header in memory.
unfoldable pub header_bytes : RtpHeader → Bytes
header_bytes h =
    (h.csrc_len + h.extension * 16 + h.padding * 32 + h.version * 64)
    ∷ (h.payload_type + h.marker * 128)
    ∷ (bytes16 h.seq ++ (bytes32 h.timestamp ++ bytes32 h.ssrc))

-- The first `rtp_header_size + n` bytes from the packet's address on.
unfoldable pub packet_bytes : RtpPacket → ℕ → Bytes
packet_bytes p n = header_bytes p.header ++ slice p.payload 0 n

-- The three swaps in front of a send, and the three behind it.
unfoldable pub to_network : RtpPacket → RtpPacket
to_network p = record p {
  header = record h { seq = htons h.seq; timestamp = htonl h.timestamp; ssrc = htonl h.ssrc };
}
  where
    open p use {header as h}

unfoldable pub to_host : RtpPacket → RtpPacket
to_host p = record p {
  header = record h { seq = ntohs h.seq; timestamp = ntohl h.timestamp; ssrc = ntohl h.ssrc };
}
  where
    open p use {header as h}

-- The buffer that is sent over a stream: `$`, the channel, the size in two bytes, the packet.
unfoldable pub interleaved : RtpPacket → ℕ → ℕ → Bytes
interleaved p data_size channel =
    let rtp_size = u32 (rtp_header_size + data_size) in
    0x24 ∷ u8 channel ∷ rtp_size / 256 % 256 ∷ rtp_size % 256 ∷ packet_bytes p data_size

unfoldable pub rtp_send_packet_over_tcp : ℤ → RtpPacket → ℕ → ℕ → Net → RtpPacket × Net × Option ℕ
rtp_send_packet_over_tcp client_sockfd p data_size channel net =
    let q = to_network p in
    let (net', ret) = transmit net (stream client_sockfd (interleaved q data_size channel)) in
    (to_host q, net', ret)

unfoldable pub rtp_send_packet_over_udp :
    ℤ → Bytes → ℤ → RtpPacket → ℕ → Net → RtpPacket × Net × Option ℕ
rtp_send_packet_over_udp sockfd ip port p data_size net =
    let q = to_network p in
    let frame = datagram sockfd ip (htons (to_u16 port)) (packet_bytes q data_size) in
    let (net', ret) = transmit net frame in (to_host q, net', ret)

-- The widths of the fields.
pub record IsRtpHeader (h : RtpHeader) : Type 0 where
  pub csrc_len_lt : h.csrc_len < 16
  pub extension_lt : h.extension < 2
  pub padding_lt : h.padding < 2
  pub version_lt : h.version < 4
  pub payload_type_lt : h.payload_type < 128
  pub marker_lt : h.marker < 2
  pub seq_lt : h.seq < 65536
  pub timestamp_lt : h.timestamp < 4294967296
  pub ssrc_lt : h.ssrc < 4294967296
