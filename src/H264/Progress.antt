-- ===== src/H264/Progress.antt =====
-- How a successful send leaves the packet's header: the sequence number counts the packets, and the
-- timestamp steps once for a unit that is no parameter set.
use fz_server.Prelude.{
  ℕ, zero, suc, ◌+◌, ◌/◌, ◌%◌, ◌≡◌, refl, sym, ap, ◌∙◌, ◌&&◌, Bool, true, false, [], ◌∷◌, ◌++◌,
  none, some, arith, ltb, leb, if◌then◌else◌, length, Bool-cases, Option-cases, inl, inr, subst,
}
use fz_server.Prelude.Int.{ℤ}
use fz_server.Memory.{Bytes, Memory}
use fz_server.Net.{Net, Frame, transmit}
use fz_server.Word.{u8, u16, u32}
use fz_server.Rtp.{RtpHeader, RtpPacket, IsRtpHeader, rtp_max_pkt_size}
use fz_server.Rtp.Framing.{Sender, IsTransport}
use fz_server.Rtp.Packet.{Sent, and_then, next_seq, advance, copy_payload}
use fz_server.H264.Packets.{seq_after, fragments, packetize}
use fz_server.H264.Send.{
  is_parameter, send_fragment, send_remain, send_split, send_single, send_nalu, send_manager,
  send_manager_tcp,
}
use fz_server.H264.Manager.{
  send_over_udp-IsTransport, send_over_tcp-IsTransport, seq_after-IsRtpHeader,
}

-- The header after k packets, and after a step of the clock.
abbrev pub seq_plus : ℕ → RtpHeader → RtpHeader
seq_plus k h = record h { seq = u16 (h.seq + k) }

abbrev pub clock_plus : ℕ → RtpHeader → RtpHeader
clock_plus n h = record h { timestamp = u32 (h.timestamp + n) }

-- The step of the timestamp: none for a parameter set that is sent as one packet.
abbrev pub clock_step : Memory → ℕ → ℕ
clock_step rec n = if leb n rtp_max_pkt_size && is_parameter (u8 (rec 0)) then 0 else 3000

seq_plus-seq_after : (k : ℕ) (h : RtpHeader) → seq_plus k (seq_after h) ≡ seq_plus (suc k) h
seq_plus-seq_after k h = cc (same)
  where
    same : u16 (u16 (h.seq + 1) + k) ≡ u16 (h.seq + suc k)
    same = omega arith

seq_plus_zero : (h : RtpHeader) → IsRtpHeader h → seq_plus 0 h ≡ h
seq_plus_zero h v = cc (same)
  where
    same : u16 (h.seq + 0) ≡ h.seq
    same = omega (arith, v.seq_lt)

-- The choice behind a unit that was sent as one packet.
single :
    (parameter : Bool) (q : RtpPacket) (net : Net) (ret : ℕ)
    → IsRtpHeader q.header
    → (if parameter then next_seq q else advance 3000 (next_seq q)).header
      ≡ clock_plus (if parameter then 0 else 3000) (seq_plus 1 q.header)
single true q net ret v = cc (same)
  where
    same : u32 (q.header.timestamp + 0) ≡ q.header.timestamp
    same = omega (arith, v.timestamp_lt)
single false q net ret v = refl

advance-header :
    (r : Sent) {m : ℕ}
    → let s = and_then r (λ q net' n. (advance 3000 q, net', some n)) in
      s.2 ≡ some m → (r.2 ≡ some m) × (s.0.header ≡ clock_plus 3000 r.0.header)
advance-header (q, net', none) ok = (ok, cc)
advance-header (q, net', some n) ok = (ok, refl)

module _ (send : Sender) (frame : RtpPacket → ℕ → Frame) (t : IsTransport send frame) where
  -- Behind a send that was taken the rest runs, from the packet that was sent.
  and_then-some :
      (p : RtpPacket) (n : ℕ) (net : Net) (rest : RtpPacket → Net → ℕ → Sent) {m : ℕ}
      → IsRtpHeader p.header
      → (and_then (send p n net) rest).2 ≡ some m
      → (net' : Net) × (ret : ℕ) × (and_then (send p n net) rest ≡ rest p net' ret)
  unfolding transmit
  and_then-some p n net rest v ok = elim (Option-cases (net.replies (length net.sent))) [
    | inl e ↦ cc (rw (t.send_lem p n net v, e) at ok)
    | inr (ret, e) ↦
        (record net { sent = net.sent ++ frame p n ∷ [] }, ret, rw (t.send_lem p n net v, e))
  ]

  module _ (rec : Memory) where
    send_remain-header :
        (h : RtpHeader) (nalu remain pos bytes flag : ℕ) (p : RtpPacket) (net : Net) {m : ℕ}
        → IsRtpHeader h
        → p.header ≡ h
        → (send_remain send rec nalu remain pos bytes p net).2 ≡ some m
        → (send_remain send rec nalu remain pos bytes p net).0.header
          ≡ seq_plus (length (fragments h nalu rec pos flag zero remain)) h
    unfolding send_remain send_fragment
    send_remain-header h nalu remain pos bytes flag p net v same ok =
        elim (Bool-cases (ltb 0 remain)) [
          | inl more ↦
              let (net', ret, e) =
                and_then-some _ (remain + 2) net _ (subst IsRtpHeader (sym same) v)
                  (rw (more, send_remain) at ok) in
              rw more (ap (λ (r : Sent). r.0.header) e ∙ ap seq_after same)
          | inr nothing ↦ rw nothing (same ∙ sym (seq_plus_zero h v))
        ]

    send_split-header :
        (rounds : ℕ) (h : RtpHeader) (nalu split remain i pos bytes flag : ℕ) (p : RtpPacket)
        (net : Net) {m : ℕ}
        → IsRtpHeader h
        → p.header ≡ h
        → (send_split send rec rounds nalu split remain i pos bytes p net).2 ≡ some m
        → (send_split send rec rounds nalu split remain i pos bytes p net).0.header
          ≡ seq_plus (length (fragments h nalu rec pos flag rounds remain)) h
    unfolding send_split send_fragment
    send_split-header zero h nalu split remain i pos bytes flag p net v same ok =
        send_remain-header h nalu remain pos bytes flag p net v same ok
    send_split-header (suc rounds) h nalu split remain i pos bytes flag p net v same ok =
        let (net', ret, e) =
          and_then-some _ (rtp_max_pkt_size + 2) net _ (subst IsRtpHeader (sym same) v) ok in
        ap (λ (r : Sent). r.0.header) e
        ∙ send_split-header rounds (seq_after h) nalu split remain (i + 1) (pos + rtp_max_pkt_size)
            (bytes + ret) 0 _ net' (seq_after-IsRtpHeader h v) (ap seq_after same)
            (ap (λ (r : Sent). r.2) (sym e) ∙ ok)
        ∙ seq_plus-seq_after _ h

    pub send_nalu-header :
        (n : ℕ) (p : RtpPacket) (net : Net) {m : ℕ}
        → IsRtpHeader p.header
        → (send_nalu send rec n p net).2 ≡ some m
        → (send_nalu send rec n p net).0.header
          ≡ clock_plus (clock_step rec n) (seq_plus (length (packetize p.header rec n)) p.header)
    unfolding send_nalu send_single packetize
    send_nalu-header n p net v ok = elim (Bool-cases (leb n rtp_max_pkt_size)) [
      | inl one ↦
          let (net', ret, e) =
            and_then-some (copy_payload p 0 rec n) n net _ v
              (rw (one, send_nalu, send_single) at ok) in
          rw one (ap (λ (r : Sent). r.0.header) e ∙ single (is_parameter (u8 (rec 0))) _ net' ret v)
      | inr more ↦
          let (ran, e) =
            advance-header
              (send_split send rec (n / rtp_max_pkt_size) (u8 (rec 0)) (n / rtp_max_pkt_size)
                (n % rtp_max_pkt_size) 0 1 0 p net)
              (rw (more, send_nalu) at ok) in
          rw more (
            e
            ∙ ap (clock_plus 3000) (
                send_split-header (n / rtp_max_pkt_size) p.header (u8 (rec 0))
                  (n / rtp_max_pkt_size) (n % rtp_max_pkt_size) 0 1 0 0x80 p net v refl ran))
    ]

-- After `sendManager` has returned a byte count, for a packet whose header fields fit their
-- widths, the sequence number has moved by the number of packets, modulo 2^16, the timestamp by
-- 3000, modulo 2^32, or not at all after a unit of at most 1400 bytes of type 6, 7 or 8, and the
-- other header fields are as they were.
pub send_manager-header :
    (sockfd : ℤ) (rec : Memory) (filesize : ℕ) (ip : Bytes) (port : ℤ) (p : RtpPacket) (net : Net)
    {m : ℕ}
    → IsRtpHeader p.header
    → (send_manager sockfd rec filesize ip port p net).2 ≡ some m
    → (send_manager sockfd rec filesize ip port p net).0.header
      ≡ clock_plus
          (clock_step rec filesize)
          (seq_plus (length (packetize p.header rec filesize)) p.header)
unfolding send_manager
send_manager-header sockfd rec filesize ip port =
    send_nalu-header _ _ (send_over_udp-IsTransport sockfd ip port) rec filesize

-- After `sendManagerTcp` has returned a byte count, for a packet whose header fields fit their
-- widths, the sequence number has moved by the number of packets, modulo 2^16, the timestamp by
-- 3000, modulo 2^32, or not at all after a unit of at most 1400 bytes of type 6, 7 or 8, and the
-- other header fields are as they were.
pub send_manager_tcp-header :
    (fd : ℤ) (rec : Memory) (filesize : ℕ) (p : RtpPacket) (net : Net) {m : ℕ}
    → IsRtpHeader p.header
    → (send_manager_tcp fd rec filesize p net).2 ≡ some m
    → (send_manager_tcp fd rec filesize p net).0.header
      ≡ clock_plus
          (clock_step rec filesize)
          (seq_plus (length (packetize p.header rec filesize)) p.header)
unfolding send_manager_tcp
send_manager_tcp-header fd rec filesize =
    send_nalu-header _ _ (send_over_tcp-IsTransport fd 0x00) rec filesize
