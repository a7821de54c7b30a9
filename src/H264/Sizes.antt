-- ===== src/H264/Sizes.antt =====
-- How large the frames are that `sendManager` and `sendManagerTcp` hand over, and which bytes of the buffer
-- they depend on.
use fz_server.Prelude.{
  ℕ, zero, suc, ◌+◌, ◌*◌, ◌/◌, ◌%◌, subst, ◌≤◌, ◌<◌, ◌≡◌, refl, sym, ap, ◌∙◌, ◌&&◌, List, [], ◌∷◌,
  ◌++◌, append_assoc, append-nil, Option, some, arith, ◌==◌, ltb, leb, length, Bool-cases, inl, inr,
}
use fz_server.Prelude.Int.{ℤ}
use fz_server.Memory.{Bytes, Memory}
use fz_server.Memory.Slices.{length-slice, slice_ext}
use fz_server.Net.{Net, Frame, datagram, stream}
use fz_server.Word.{be16, u8}
use fz_server.Rtp.{RtpHeader, RtpPacket, IsRtpHeader, rtp_max_pkt_size}
use fz_server.Rtp.Wire.{read_packet}
use fz_server.Rtp.Framing.{read_stream, read_frame}
use fz_server.Rtp.Delivery.{View, Delivers, done, refused, taken}
use fz_server.H264.Packets.{seq_after, fragments, packetize}
use fz_server.H264.Send.{send_manager, send_manager_tcp}
use fz_server.H264.Manager.{send_manager-Delivers, send_manager_tcp-Delivers}

-- A datagram of at most 1414 bytes, or an interleaved frame with four bytes in front.
abbrev pub IsSized : Frame → Type 0
IsSized (datagram s ip port bs) = length bs ≤ 1414
IsSized (stream s bs) = length bs ≤ 1418

abbrev pub AreSized : List Frame → Type 0
AreSized [] = Unit {0}
AreSized (f ∷ fs) = IsSized f × AreSized fs

read_packet-length : (bs : Bytes) (v : View) → read_packet bs ≡ some v → length bs ≡ 12 + length v.1
unfolding read_packet
read_packet-length (a ∷ b ∷ s₁ ∷ s₂ ∷ t₁ ∷ t₂ ∷ t₃ ∷ t₄ ∷ r₁ ∷ r₂ ∷ r₃ ∷ r₄ ∷ rest) v e =
    let same : rest ≡ v.1 = cc e in omega (arith, ap (λ (x : Bytes). length x) same)
read_packet-length _ v e = absurd (cc e)

read_stream-length : (bs : Bytes) (v : View) → read_stream bs ≡ some v → length bs ≡ 16 + length v.1
unfolding read_stream
read_stream-length (mark ∷ channel ∷ hi ∷ lo ∷ rest) v e =
    elim (Bool-cases (mark == 0x24 && be16 hi lo == length rest)) [
      | inl fits ↦
          let read : read_packet rest ≡ some v = cc (e, fits) in
          omega (arith, read_packet-length rest v read)
      | inr not ↦ absurd (cc (e, not))
    ]
read_stream-length _ v e = absurd (cc e)

read_frame-IsSized : (f : Frame) (v : View) → read_frame f ≡ some v → length v.1 ≤ 1402 → IsSized f
unfolding read_frame
read_frame-IsSized (datagram s ip port bs) v e small = omega (arith, read_packet-length bs v e)
read_frame-IsSized (stream s bs) v e small = omega (arith, read_stream-length bs v e)

-- Payloads of at most 1402 bytes.
AreSmall : List View → Type 0
AreSmall [] = Unit {0}
AreSmall (v ∷ vs) = (length v.1 ≤ 1402) × AreSmall vs

-- The frames that a run hands over.
abbrev pub Hands : ℕ → Net → Net → Type 0
Hands most net after =
    (fs : List Frame) × (after.sent ≡ net.sent ++ fs) × AreSized fs × (length fs ≤ most)

Delivers-Hands :
    {vs : List View} {total : ℕ} {net after : Net} {r : Option ℕ}
    → Delivers vs total net after r
    → AreSmall vs
    → Hands (length vs) net after
unfolding AreSmall
Delivers-Hands {net = net} done small = ([], sym (append-nil net.sent), tt, omega arith)
Delivers-Hands (refused {v} f seen refusal) (small, more) =
    (f ∷ [], refl, (read_frame-IsSized f v seen small, tt), omega arith)
Delivers-Hands {net = net} (taken {v} f n seen answer later) (small, more) =
    let (fs, is, sized, few) = Delivers-Hands later more in
    (
      f ∷ fs,
      is ∙ append_assoc net.sent (f ∷ []) fs,
      (read_frame-IsSized f v seen small, sized),
      omega arith,
    )

fragments-AreSmall :
    (h : RtpHeader) (nalu : ℕ) (rec : Memory) (pos flag rounds remain : ℕ)
    → remain < rtp_max_pkt_size
    → AreSmall (fragments h nalu rec pos flag rounds remain)
      × (length (fragments h nalu rec pos flag rounds remain) ≤ rounds + 1)
unfolding AreSmall
fragments-AreSmall h nalu rec pos flag zero remain small = elim (Bool-cases (ltb 0 remain)) [
  | inl some_left ↦ rw some_left ((omega (arith, length-slice rec pos remain), tt), omega arith)
  | inr nothing ↦ rw nothing (tt, omega arith)
]
fragments-AreSmall h nalu rec pos flag (suc rounds) remain small =
    let (later, few) =
      fragments-AreSmall (seq_after h) nalu rec (pos + rtp_max_pkt_size) 0 rounds remain small in
    ((omega (arith, length-slice rec pos rtp_max_pkt_size), later), omega arith)

packetize-AreSmall :
    (h : RtpHeader) (rec : Memory) (n : ℕ)
    → AreSmall (packetize h rec n) × (length (packetize h rec n) ≤ n / rtp_max_pkt_size + 1)
unfolding packetize AreSmall
packetize-AreSmall h rec n = elim (Bool-cases (leb n rtp_max_pkt_size)) [
  | inl one ↦
      let le : n ≤ rtp_max_pkt_size = ground arith in
      rw one ((omega (arith, length-slice rec 0 n), tt), omega arith)
  | inr more ↦ rw more (fragments-AreSmall h (u8 (rec 0)) rec 1 0x80 _ _ (omega arith))
]

Delivers-most :
    (h : RtpHeader) (rec : Memory) (n : ℕ) {net after : Net} {r : Option ℕ}
    → Delivers (packetize h rec n) 0 net after r
    → Hands (n / rtp_max_pkt_size + 1) net after
Delivers-most h rec n d =
    let (small, few) = packetize-AreSmall h rec n in
    let (fs, is, sized, le) = Delivers-Hands d small in (fs, is, sized, omega (arith, le, few))

-- The packets of two buffers that agree up to one byte behind the unit.
fragments_ext :
    (h : RtpHeader) (nalu : ℕ) (rec rec' : Memory) (pos flag rounds remain : ℕ)
    → ((i : ℕ) → i < pos + rounds * 1400 + remain → rec i ≡ rec' i)
    → fragments h nalu rec pos flag rounds remain ≡ fragments h nalu rec' pos flag rounds remain
fragments_ext h nalu rec rec' pos flag zero remain same =
    rw (slice_ext rec rec' remain pos pos (λ i lt. same (pos + i) (omega arith))) refl
fragments_ext h nalu rec rec' pos flag (suc rounds) remain same =
    rw
      (
        slice_ext rec rec' rtp_max_pkt_size pos pos (λ i lt. same (pos + i) (omega arith)),
        fragments_ext (seq_after h) nalu rec rec' (pos + rtp_max_pkt_size) 0 rounds remain
            (λ i lt. same i (omega (arith, lt))),
      )
      refl

packetize_ext :
    (h : RtpHeader) (rec rec' : Memory) (n : ℕ)
    → ((i : ℕ) → i ≤ n → rec i ≡ rec' i)
    → packetize h rec n ≡ packetize h rec' n
unfolding packetize
packetize_ext h rec rec' n same = elim (Bool-cases (leb n rtp_max_pkt_size)) [
  | inl one ↦ rw (one, slice_ext rec rec' n 0 0 (λ i lt. same (0 + i) (omega arith))) refl
  | inr more ↦
      rw (more, same 0 (omega arith))
        (fragments_ext h (u8 (rec' 0)) rec rec' 1 0x80 (n / rtp_max_pkt_size) (n % rtp_max_pkt_size)
          (λ i lt. same i (omega (arith, lt))))
]

Delivers-packetize :
    (h : RtpHeader) (rec rec' : Memory) (n : ℕ) {net after : Net} {r : Option ℕ}
    → ((i : ℕ) → i ≤ n → rec i ≡ rec' i)
    → Delivers (packetize h rec n) 0 net after r
    → Hands (n / rtp_max_pkt_size + 1) net after × Delivers (packetize h rec' n) 0 net after r
Delivers-packetize h rec rec' n {net} {after} {r} same d = (
  Delivers-most h rec n d,
  subst (λ vs. Delivers vs 0 net after r) (packetize_ext h rec rec' n same) d,
)

-- For a packet whose header fields fit their widths, whatever the kernel answers, `sendManager`
-- hands over at most one frame for every 1400 bytes of the unit and one more, each a datagram of
-- at most 1414 bytes, and `sendManagerTcp` as many at most, each an interleaved frame of at most
-- 1418 bytes; and for any other buffer that agrees with theirs on the unit and on the one byte
-- behind it, the frames read as the packets of that buffer, up to the first refusal.
pub send_manager-Hands :
    (sockfd : ℤ) (rec rec' : Memory) (filesize : ℕ) (ip : Bytes) (port : ℤ) (p : RtpPacket)
    (net : Net)
    → IsRtpHeader p.header
    → ((i : ℕ) → i ≤ filesize → rec i ≡ rec' i)
    → let u = send_manager sockfd rec filesize ip port p net in
      let t = send_manager_tcp sockfd rec filesize p net in
      (Hands (filesize / rtp_max_pkt_size + 1) net u.1
        × Delivers (packetize p.header rec' filesize) 0 net u.1 u.2)
      × (Hands (filesize / rtp_max_pkt_size + 1) net t.1
          × Delivers (packetize p.header rec' filesize) 0 net t.1 t.2)
send_manager-Hands sockfd rec rec' filesize ip port p net v same = (
  Delivers-packetize p.header rec rec' filesize same
      (send_manager-Delivers sockfd rec filesize ip port p net v),
  Delivers-packetize p.header rec rec' filesize same
      (send_manager_tcp-Delivers sockfd rec filesize p net v),
)
