-- ===== src/H264/Manager.antt =====
-- The senders hand over the packets of `packetize`, in order, and stop at the first refusal.
use fz_server.Prelude.{
  ℕ, zero, suc, ◌+◌, ◌/◌, ◌%◌, ◌<◌, ◌≤◌, ◌≡◌, refl, sym, subst, ap, ◌∙◌, true, false, ◌&&◌, inl,
  inr, bit_and, bit_or, List, ◌∷◌, none, some, arith, ◌==◌, ltb, leb, if◌then◌else◌, Bool-cases,
  ==_iff,
}
use fz_server.Prelude.Int.{ℤ}
use fz_server.Bits.{every_below, every_below-at}
use fz_server.Memory.{Bytes, Memory, shift, slice}
use fz_server.Memory.Slices.{slice-memcpy, slice-shift}
use fz_server.Net.{Net, Frame}
use fz_server.Rtp.{RtpHeader, RtpPacket, IsRtpHeader, rtp_max_pkt_size}
use fz_server.Rtp.Wire.{read_packet-packet_bytes, to_host-to_network}
use fz_server.Rtp.Framing.{
  Sender, IsTransport, read_frame, udp_frame, tcp_frame, read_stream-interleaved,
}
use fz_server.Rtp.Packet.{Sent, and_then, next_seq, advance, set_payload, copy_payload}
use fz_server.Rtp.Delivery.{View, Delivers, done, and_then-Delivers}
use fz_server.H264.Packets.{seq_after, fragments, packetize}
use fz_server.H264.Send.{
  fu_header, fu_indicator, send_fragment, send_remain, send_split, send_single, send_nalu,
  send_over_udp, send_over_tcp, send_manager, send_manager_tcp,
}

pub seq_after-IsRtpHeader : (h : RtpHeader) → IsRtpHeader h → IsRtpHeader (seq_after h)
seq_after-IsRtpHeader h v = omega arith

mask_table : every_below 256 (λ x. bit_or (bit_and x 0x1F) 0 == bit_and x 0x1F) ≡ true
unfolding every_below
mask_table = refl

mask_or_zero : (x : ℕ) → x < 256 → bit_or (bit_and x 0x1F) 0 ≡ bit_and x 0x1F
mask_or_zero x h = (==_iff _ _).0 (every_below-at 256 _ x mask_table h)

-- The code's choice of flags is that of the format, where a unit has two fragments at least.
fu_header-flags :
    (nalu split remain i rounds : ℕ)
    → nalu < 256
    → i + suc rounds ≡ split
    → (i ≡ 0 → 0 < rounds + remain)
    → fu_header nalu split remain i
      ≡ bit_or
          (bit_and nalu 0x1F)
          (bit_or (if i == 0 then 0x80 else 0) (if remain == 0 && rounds == 0 then 0x40 else 0))
unfolding fu_header
fu_header-flags nalu split remain i rounds b e two = ground (arith, mask_or_zero nalu b)

fits : (n : ℕ) → leb n rtp_max_pkt_size ≡ true → n < 65524
fits n h = ground arith

two_fragments :
    (n : ℕ) → leb n rtp_max_pkt_size ≡ false → 1 < n / rtp_max_pkt_size + n % rtp_max_pkt_size
two_fragments n h = let more : rtp_max_pkt_size < n = ground arith in omega arith

-- The step of the timestamp is no call of the kernel.
advance-Delivers :
    {vs : List View} {total : ℕ} {net : Net} (r : Sent)
    → Delivers vs total net r.1 r.2
    → let s = and_then r (λ q net' n. (advance 3000 q, net', some n)) in
      Delivers vs total net s.1 s.2
advance-Delivers (q, net', none) d = d
advance-Delivers (q, net', some n) d = d

module _ (send : Sender) (frame : RtpPacket → ℕ → Frame) (t : IsTransport send frame)
    (rec : Memory) where
  fragment_packet : ℕ → ℕ → ℕ → ℕ → RtpPacket → RtpPacket
  fragment_packet indicator header pos n p =
      copy_payload (set_payload (set_payload p 0 indicator) 1 header) 2 (shift rec pos) n

  fragment_payload :
      (indicator header pos n : ℕ) (p : RtpPacket)
      → slice (fragment_packet indicator header pos n p).payload 0 (n + 2)
        ≡ indicator ∷ header ∷ slice rec pos n
  unfolding fragment_packet
  fragment_payload indicator header pos n p =
      ap (slice (fragment_packet indicator header pos n p).payload 0) {y = suc (suc n)}
        (omega arith)
      ∙ ap (λ s. indicator ∷ header ∷ s)
          (slice-memcpy below (shift rec pos) 2 n
            ∙ slice-shift rec pos 0 n
            ∙ ap (λ k. slice rec k n) (omega arith))
    where
      below : Memory
      below = (set_payload (set_payload p 0 indicator) 1 header).payload

  send_fragment-Delivers :
      {vs : List View} {total : ℕ} (indicator header pos n : ℕ) (p : RtpPacket) (net : Net)
      (rest : RtpPacket → Net → ℕ → Sent)
      → IsRtpHeader p.header
      → n ≤ rtp_max_pkt_size
      → ((q : RtpPacket) (ret : ℕ) (net' : Net)
          → q.header ≡ p.header
          → Delivers vs (total + ret) net' (rest q net' ret).1 (rest q net' ret).2)
      → let r = and_then (send_fragment send rec indicator header pos n p net) rest in
        Delivers ((p.header, indicator ∷ header ∷ slice rec pos n) ∷ vs) total net r.1 r.2
  unfolding send_fragment fragment_packet
  send_fragment-Delivers indicator header pos n p net rest w small later =
      let q = fragment_packet indicator header pos n p in
      and_then-Delivers send frame t q (n + 2) net rest w
        (t.read_lem q (n + 2) w (omega arith)
          ∙ ap (λ s. some (p.header, s)) (fragment_payload indicator header pos n p))
        (λ ret net'. later q ret net' refl)

  send_remain-Delivers :
      (h : RtpHeader) (nalu remain pos bytes flag : ℕ) (p : RtpPacket) (net : Net)
      → IsRtpHeader p.header
      → p.header ≡ h
      → remain < rtp_max_pkt_size
      → let r = send_remain send rec nalu remain pos bytes p net in
        Delivers (fragments h nalu rec pos flag zero remain) bytes net r.1 r.2
  unfolding send_remain fu_indicator
  send_remain-Delivers h nalu remain pos bytes flag p net w e small =
      rw (← e) (elim (Bool-cases (ltb 0 remain)) [
        | inl more ↦
            rw more
              (send_fragment-Delivers _ _ pos remain p net _ w (omega arith) (λ q ret net' _. done))
        | inr nothing ↦ rw nothing done
      ])

  send_split-Delivers :
      (rounds : ℕ) (h : RtpHeader) (nalu split remain i pos bytes flag : ℕ) (p : RtpPacket)
      (net : Net)
      → nalu < 256
      → remain < rtp_max_pkt_size
      → i + rounds ≡ split
      → (i ≡ 0 → 1 < rounds + remain)
      → flag ≡ (if i == 0 then 0x80 else 0)
      → IsRtpHeader p.header
      → p.header ≡ h
      → let r = send_split send rec rounds nalu split remain i pos bytes p net in
        Delivers (fragments h nalu rec pos flag rounds remain) bytes net r.1 r.2
  unfolding send_split fu_indicator
  send_split-Delivers zero h nalu split remain i pos bytes flag p net b small e two f w same =
      send_remain-Delivers h nalu remain pos bytes flag p net w same small
  send_split-Delivers (suc rounds) h nalu split remain i pos bytes flag p net b small e two f w
        same =
      rw (← same, f, ← fu_header-flags nalu split remain i rounds b e (λ z. omega (arith, two z)))
        (send_fragment-Delivers _ _ pos rtp_max_pkt_size p net _ w (omega arith) λ q ret net' kept.
          send_split-Delivers rounds (seq_after p.header) nalu split remain (i + 1) _ _ 0
            (next_seq q) net' b small (omega arith) (λ z. absurd (omega arith)) (ground arith)
            (subst IsRtpHeader (sym (ap seq_after kept)) (seq_after-IsRtpHeader p.header w))
            (ap seq_after kept))

  -- One call of the kernel for each packet of `packetize`, in order and up to the first refusal, and a
  -- result that tells the two outcomes apart: for every way to send that is a transport.
  pub send_nalu-Delivers :
      (filesize : ℕ) (p : RtpPacket) (net : Net)
      → IsRtpHeader p.header
      → let r = send_nalu send rec filesize p net in
        Delivers (packetize p.header rec filesize) 0 net r.1 r.2
  unfolding send_nalu packetize send_single
  send_nalu-Delivers filesize p net w = elim (Bool-cases (leb filesize rtp_max_pkt_size)) [
    | inl one ↦ rw one (
        and_then-Delivers send frame t (copy_payload p 0 rec filesize) filesize net _ w
          (t.read_lem _ filesize w (fits filesize one) ∙ ap (λ s. some (p.header, s)) whole)
          (λ ret net'. let e : 0 + ret ≡ ret = omega arith in rw e done))
    | inr more ↦ rw more (
        advance-Delivers _ (
          send_split-Delivers _ p.header _ _ _ 0 1 0 0x80 p net (omega arith) (omega arith)
            (omega arith) (λ _. two_fragments filesize more) refl w refl))
  ]
    where
      whole : slice (copy_payload p 0 rec filesize).payload 0 filesize ≡ slice rec 0 filesize
      whole = slice-memcpy p.payload rec 0 filesize

pub send_over_udp-IsTransport :
    (sockfd : ℤ) (ip : Bytes) (port : ℤ)
    → IsTransport (send_over_udp sockfd ip port) (udp_frame sockfd ip port)
unfolding send_over_udp read_frame
send_over_udp-IsTransport sockfd ip port = record {
  send_lem = λ p n net v. rw (to_host-to_network p v);
  read_lem = λ p n v small. read_packet-packet_bytes p n v;
}

pub send_over_tcp-IsTransport :
    (fd : ℤ) (channel : ℕ) → IsTransport (send_over_tcp fd channel) (tcp_frame fd channel)
unfolding send_over_tcp read_frame
send_over_tcp-IsTransport fd channel = record {
  send_lem = λ p n net v. rw (to_host-to_network p v);
  read_lem = λ p n v small. read_stream-interleaved p n channel v small;
}

-- For a packet whose header fields fit their widths, whatever the kernel answers, `sendManager`
-- hands over one datagram for each packet of `packetize`, in order, up to the first refusal, and
-- each reads as that packet; the result is the sum of the kernel's byte counts if none is
-- refused, and -1 after a refusal.
pub send_manager-Delivers :
    (sockfd : ℤ) (rec : Memory) (filesize : ℕ) (ip : Bytes) (port : ℤ) (p : RtpPacket) (net : Net)
    → IsRtpHeader p.header
    → let r = send_manager sockfd rec filesize ip port p net in
      Delivers (packetize p.header rec filesize) 0 net r.1 r.2
unfolding send_manager
send_manager-Delivers sockfd rec filesize ip port =
    send_nalu-Delivers _ _ (send_over_udp-IsTransport sockfd ip port) rec filesize

-- For a packet whose header fields fit their widths, whatever the kernel answers,
-- `sendManagerTcp` hands over one interleaved frame for each packet of `packetize`, in order, up
-- to the first refusal, and each reads as that packet; the result is the sum of the kernel's byte
-- counts if none is refused, and -1 after a refusal.
pub send_manager_tcp-Delivers :
    (fd : ℤ) (rec : Memory) (filesize : ℕ) (p : RtpPacket) (net : Net)
    → IsRtpHeader p.header
    → let r = send_manager_tcp fd rec filesize p net in
      Delivers (packetize p.header rec filesize) 0 net r.1 r.2
unfolding send_manager_tcp
send_manager_tcp-Delivers fd rec filesize =
    send_nalu-Delivers _ _ (send_over_tcp-IsTransport fd 0x00) rec filesize
