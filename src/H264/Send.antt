-- ===== src/H264/Send.antt =====
-- src/container/h264/h264.h: the senders that put a NAL unit into one RTP packet or into fragments.
use fz_server.Prelude.{
  ℕ, zero, suc, ◌+◌, ◌-◌, ◌/◌, ◌%◌, bit_and, bit_or, Bool, ◌&&◌, ◌||◌, some, ◌==◌, ltb, leb,
  if◌then◌else◌,
}
use fz_server.Prelude.Int.{ℤ}
use fz_server.Memory.{Bytes, Memory, shift}
use fz_server.Net.{Net, datagram, stream, transmit, to_u16}
use fz_server.Word.{u8, htons}
use fz_server.Rtp.{RtpPacket, rtp_max_pkt_size, packet_bytes, interleaved, to_network, to_host}
use fz_server.Rtp.Framing.{Sender}
use fz_server.Rtp.Packet.{Sent, and_then, next_seq, advance, set_payload, copy_payload}

-- `sendOverUdp`: `filesize` bytes of payload in a datagram.
unfoldable pub send_over_udp : ℤ → Bytes → ℤ → Sender
send_over_udp server_rtp_sockfd ip port p filesize net =
    let q = to_network p in
    let frame = datagram server_rtp_sockfd ip (htons (to_u16 port)) (packet_bytes q filesize) in
    let (net', ret) = transmit net frame in (to_host q, net', ret)

-- `sendOverTcp`: `filesize` bytes of payload in an interleaved frame.
unfoldable pub send_over_tcp : ℤ → ℕ → Sender
send_over_tcp client_fd channel p filesize net =
    let q = to_network p in
    let (net', ret) = transmit net (stream client_fd (interleaved q filesize channel)) in
    (to_host q, net', ret)

-- SEI, SPS and PPS take no time of their own.
abbrev pub is_parameter : ℕ → Bool
is_parameter nalu_type =
    bit_and nalu_type 0x1F == 6 || bit_and nalu_type 0x1F == 7 || bit_and nalu_type 0x1F == 8

-- The second byte of the i-th of `split_size` full fragments.
unfoldable pub fu_header : ℕ → ℕ → ℕ → ℕ → ℕ
fu_header nalu_type split_size remain_size i =
    if i == 0
    then bit_or (bit_and nalu_type 0x1F) 0x80
    else if remain_size == 0 && i == split_size - 1
    then bit_or (bit_and nalu_type 0x1F) 0x40
    else bit_and nalu_type 0x1F

unfoldable pub fu_indicator : ℕ → ℕ
fu_indicator nalu_type = bit_or (bit_and nalu_type 0x60) 28

module _ (send : Sender) (rec : Memory) where
  -- One fragment: both header bytes, n bytes of `rec` from `pos` on, the send.
  unfoldable pub send_fragment : ℕ → ℕ → ℕ → ℕ → RtpPacket → Net → Sent
  send_fragment indicator header pos n p net =
      let q = set_payload (set_payload p 0 indicator) 1 header in
      send (copy_payload q 2 (shift rec pos) n) (n + 2) net

  -- The end part, if any. The result is `sendBytes`.
  unfoldable pub send_remain : ℕ → ℕ → ℕ → ℕ → RtpPacket → Net → Sent
  unfolding send_fragment
  send_remain nalu_type remain_size pos send_bytes p net =
      if ltb 0 remain_size
      then (let header = bit_or (bit_and nalu_type 0x1F) 0x40 in
          and_then (send_fragment (fu_indicator nalu_type) header pos remain_size p net)
            λ q net' ret. (next_seq q, net', some (send_bytes + ret)))
      else (p, net, some send_bytes)

  -- The `for` loop over the full fragments, by the rounds that are left, and the end part.
  unfoldable pub send_split : ℕ → ℕ → ℕ → ℕ → ℕ → ℕ → ℕ → RtpPacket → Net → Sent
  unfolding send_remain
  send_split zero nalu_type split_size remain_size i pos send_bytes p net =
      send_remain nalu_type remain_size pos send_bytes p net
  send_split (suc rounds) nalu_type split_size remain_size i pos send_bytes p net =
      let header = fu_header nalu_type split_size remain_size i in
      and_then (send_fragment (fu_indicator nalu_type) header pos rtp_max_pkt_size p net)
        λ q net' ret.
          send_split rounds nalu_type split_size remain_size (i + 1) (pos + rtp_max_pkt_size)
            (send_bytes + ret) (next_seq q) net'

  -- The branch of a unit that fits into one packet.
  unfoldable pub send_single : ℕ → ℕ → RtpPacket → Net → Sent
  send_single nalu_type filesize p net =
      and_then (send (copy_payload p 0 rec filesize) filesize net) λ q net' ret.
        (if is_parameter nalu_type then next_seq q else advance 3000 (next_seq q), net', some ret)

  -- The common text of `sendManager` and `sendManagerTcp`.
  unfoldable pub send_nalu : ℕ → RtpPacket → Net → Sent
  unfolding send_single send_split
  send_nalu filesize p net =
      let nalu_type = u8 (rec 0) in
      let split_size = filesize / rtp_max_pkt_size in
      let remain_size = filesize % rtp_max_pkt_size in
      if leb filesize rtp_max_pkt_size
      then send_single nalu_type filesize p net
      else and_then (send_split split_size nalu_type split_size remain_size 0 1 0 p net)
          λ q net' send_bytes. (advance 3000 q, net', some send_bytes)

-- `sendManager` and `sendManagerTcp`; the sleep between two units is left out.
unfoldable pub send_manager : ℤ → Memory → ℕ → Bytes → ℤ → RtpPacket → Net → Sent
unfolding send_nalu send_over_udp
send_manager server_rtp_sockfd rec filesize ip port =
    send_nalu (send_over_udp server_rtp_sockfd ip port) rec filesize

unfoldable pub send_manager_tcp : ℤ → Memory → ℕ → RtpPacket → Net → Sent
unfolding send_nalu send_over_tcp
send_manager_tcp client_fd rec filesize = send_nalu (send_over_tcp client_fd 0x00) rec filesize
