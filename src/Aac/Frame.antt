-- ===== src/Aac/Frame.antt =====
-- One AAC frame in one RTP packet, against a reader after RFC 3640 for the mode that the session
-- description announces: sizelength=13, indexlength=3, one frame to a packet.
use fz_server.Prelude.{
  ℕ, suc, ◌+◌, ◌*◌, ◌/◌, ◌%◌, ◌<◌, ◌≡◌, refl, ap, ◌∙◌, ◌⊎◌, inl, inr, ◌&&◌, [], ◌∷◌, ◌++◌, Option,
  none, some, arith, ◌==◌, if◌then◌else◌, Option-cases, length,
}
use fz_server.Prelude.Int.{ℤ}
use fz_server.Memory.{Bytes, Memory, slice}
use fz_server.Memory.Slices.{slice-memcpy, length-slice}
use fz_server.Net.{Net, Frame, transmit}
use fz_server.Word.{be16, u16, u32}
use fz_server.Rtp.{RtpPacket, IsRtpHeader}
use fz_server.Rtp.Framing.{
  Sender, IsTransport, read_frame, rtp_send_packet_over_udp-IsTransport,
  rtp_send_packet_over_tcp-IsTransport,
}
use fz_server.Rtp.Packet.{Sent, set_payload}
use fz_server.Aac.{au_packet, send_aac, rtp_send_aac_frame, rtp_send_aac_frame_tcp}

-- The length of the headers in bits, the size of the frame and its index, the frame.
unfoldable pub read_au : Bytes → Option Bytes
read_au (l₁ ∷ l₂ ∷ a ∷ b ∷ body) =
    if be16 l₁ l₂ == 16 && be16 a b % 8 == 0 && be16 a b / 8 == length body then some body else none
read_au _ = none

-- The kernel was handed one more frame, which reads as the packet's header and the n bytes of `frame`.
-- If it was refused the result is `none` and the header is as it was, else the result is 0, the
-- sequence number has moved by one and the timestamp by 1025.
pub record SendsFrame (frame : Memory) (n : ℕ) (p : RtpPacket) (net : Net) (r : Sent) : Type 0 where
  pub handed : Frame
  pub payload : Bytes
  pub sent_is : r.1.sent ≡ net.sent ++ handed ∷ []
  pub reads : read_frame handed ≡ some (p.header, payload)
  pub carries : read_au payload ≡ some (slice frame 0 n)
  pub answer :
      ((net.replies (length net.sent) ≡ none) × (r.2 ≡ none) × (r.0.header ≡ p.header))
      ⊎ ((r.2 ≡ some 0)
          × (r.0.header ≡ record p.header {
            seq = u16 (p.header.seq + 1);
            timestamp = u32 (p.header.timestamp + 1025);
          }))

au_payload :
    (p : RtpPacket) (frame : Memory) (n : ℕ)
    → slice (au_packet p frame n).payload 0 (n + 4)
      ≡ 0x00 ∷ 0x10 ∷ n / 32 % 256 ∷ n % 32 * 8 ∷ slice frame 0 n
unfolding au_packet
au_payload p frame n =
    ap (slice (au_packet p frame n).payload 0) {y = suc (suc (suc (suc n)))} (omega arith)
    ∙ ap (λ s. 0x00 ∷ 0x10 ∷ n / 32 % 256 ∷ n % 32 * 8 ∷ s) (slice-memcpy below frame 4 n)
  where
    first : RtpPacket
    first = set_payload (set_payload p 0 0x00) 1 0x10

    below : Memory
    below = (set_payload (set_payload first 2 (n / 32 % 256)) 3 (n % 32 * 8)).payload

read_au-au_payload :
    (frame : Memory) (n : ℕ)
    → n < 8192
    → read_au (0x00 ∷ 0x10 ∷ n / 32 % 256 ∷ n % 32 * 8 ∷ slice frame 0 n) ≡ some (slice frame 0 n)
unfolding read_au
read_au-au_payload frame n small = ground (arith, size, index, length-slice frame 0 n)
  where
    size : be16 (n / 32 % 256) (n % 32 * 8) / 8 ≡ n
    size = omega arith

    index : be16 (n / 32 % 256) (n % 32 * 8) % 8 ≡ 0
    index = omega arith

module _ (send : Sender) (frame_of : RtpPacket → ℕ → Frame) (t : IsTransport send frame_of) where
  send_aac-SendsFrame :
      (frame : Memory) (n : ℕ) (p : RtpPacket) (net : Net)
      → IsRtpHeader p.header
      → n < 8192
      → SendsFrame frame n p net (send_aac send frame n p net)
  unfolding send_aac transmit au_packet
  send_aac-SendsFrame frame n p net v small =
      let q = au_packet p frame n in
      let f = frame_of q (n + 4) in
      let seen =
        t.read_lem q (n + 4) v (omega arith)
        ∙ ap (λ s. some (p.header, s)) (au_payload p frame n) in
      rw (t.send_lem q (n + 4) net v) (elim (Option-cases (net.replies (length net.sent))) [
        | inl e ↦ rw e (record {
          handed = f;
          payload = _;
          sent_is = refl;
          reads = seen;
          carries = read_au-au_payload frame n small;
          answer = inl (e, refl, refl);
        })
        | inr (ret, e) ↦ rw e (record {
          handed = f;
          payload = _;
          sent_is = refl;
          reads = seen;
          carries = read_au-au_payload frame n small;
          answer = inr (refl, refl);
        })
      ])

-- For a frame of less than 8192 bytes and a packet whose header fields fit their widths,
-- `rtpSendAACFrame` hands over one datagram, from which a reader of RFC 3550 and RFC 3640 gets
-- the packet's header and the frame, byte for byte; if the kernel refuses it the result is -1 and
-- the header is as it was, else the result is 0, the sequence number has moved by 1 and the
-- timestamp by 1025.
pub rtp_send_aac_frame-SendsFrame :
    (socket : ℤ) (ip : Bytes) (port : ℤ) (frame : Memory) (n : ℕ) (p : RtpPacket) (net : Net)
    → IsRtpHeader p.header
    → n < 8192
    → SendsFrame frame n p net (rtp_send_aac_frame socket ip port frame n p net)
unfolding rtp_send_aac_frame
rtp_send_aac_frame-SendsFrame socket ip port =
    send_aac-SendsFrame _ _ (rtp_send_packet_over_udp-IsTransport socket ip port)

-- For a frame of less than 8192 bytes and a packet whose header fields fit their widths,
-- `rtpSendAACFrameTcp` hands over one interleaved frame, from which a reader of RFC 2326 and RFC
-- 3640 gets the packet's header and the frame, byte for byte; if the kernel refuses it the result
-- is -1 and the header is as it was, else the result is 0, the sequence number has moved by 1 and
-- the timestamp by 1025.
pub rtp_send_aac_frame_tcp-SendsFrame :
    (socket : ℤ) (frame : Memory) (n : ℕ) (p : RtpPacket) (net : Net)
    → IsRtpHeader p.header
    → n < 8192
    → SendsFrame frame n p net (rtp_send_aac_frame_tcp socket frame n p net)
unfolding rtp_send_aac_frame_tcp
rtp_send_aac_frame_tcp-SendsFrame socket =
    send_aac-SendsFrame _ _ (rtp_send_packet_over_tcp-IsTransport socket 0x02)

-- For a frame of less than 8192 bytes and a packet whose header fields fit their widths,
-- `rtpSendAACFrame` hands over one datagram and `rtpSendAACFrameTcp` one interleaved frame, from
-- which a reader of RFC 3550, of RFC 2326 over TCP, and of RFC 3640 gets the packet's header and
-- the frame, byte for byte; if the kernel refuses it the result is -1 and the header is as it
-- was, else the result is 0, the sequence number has moved by 1 and the timestamp by 1025.
pub rtp_send_aac-SendsFrame :
    (socket : ℤ) (ip : Bytes) (port : ℤ) (frame : Memory) (n : ℕ) (p : RtpPacket) (net : Net)
    → IsRtpHeader p.header
    → n < 8192
    → SendsFrame frame n p net (rtp_send_aac_frame socket ip port frame n p net)
      × SendsFrame frame n p net (rtp_send_aac_frame_tcp socket frame n p net)
rtp_send_aac-SendsFrame socket ip port frame n p net v small = (
  rtp_send_aac_frame-SendsFrame socket ip port frame n p net v small,
  rtp_send_aac_frame_tcp-SendsFrame socket frame n p net v small,
)
