-- ===== src/Media/Viewed.antt =====
-- The H.264 loop on a file of Annex B: what a client gets of one unit, and what `fread` gives of it.
use fz_server.Prelude.{
  ℕ, zero, suc, ◌+◌, ◌-◌, ◌%◌, ◌<◌, ◌≡◌, refl, sym, ap, ap₂, ◌∙◌, subst, inl, inr, true, List, [],
  ◌∷◌, ◌++◌, Option, some, arith, if◌then◌else◌, leb, Bool-cases, length, length-take, take, drop,
  min, lt→ltb,
}
use fz_server.Memory.{Bytes, Memory, slice}
use fz_server.Memory.Slices.{slice_ext}
use fz_server.Net.{Net}
use fz_server.Word.{u8}
use fz_server.File.{File, fread}
use fz_server.Rtp.{RtpPacket, RtpHeader, IsRtpHeader, rtp_max_pkt_size}
use fz_server.Rtp.Packet.{Sent}
use fz_server.Rtp.Delivery.{View, Delivers, done, refused, taken}
use fz_server.H264.Extract.{start_code3, start_code4}
use fz_server.H264.Scan.{starts_at}
use fz_server.H264.Packets.{packetize}
use fz_server.H264.Receiver.{assemble-packetize_split, assemble-packetize_single}
use fz_server.H264.Received.{Carries, Delivers-Carries, with_one_more}
use fz_server.H264.Progress.{clock_plus, clock_step, seq_plus}
use fz_server.Media.AnnexB.{byte_at, IsNal, Agrees}

-- What a client gets of a unit: a byte 0 stands behind one that was sent in fragments.
abbrev pub viewed : Bytes → Bytes
viewed u = if leb (length u) rtp_max_pkt_size then u else u ++ 0 ∷ []

-- The units that were handed over, one after another.
pub data Views : List Bytes → Net → Net → Type 0 where
  nothing : {net : Net} → Views [] net net
  one_more :
      {net net' after : Net} {u : Bytes} {us : List Bytes}
      → Carries net net' u
      → Views us net' after
      → Views (u ∷ us) net after

-- The kernel takes every packet.
abbrev pub Accepts : Net → Type 0
Accepts net = (i : ℕ) → (k : ℕ) × (net.replies i ≡ some k)

Delivers-Accepts :
    {vs : List View} {total : ℕ} {net after : Net} {r : Option ℕ}
    → Delivers vs total net after r
    → Accepts net
    → (k : ℕ) × (r ≡ some k) × Accepts after
Delivers-Accepts (done {total}) a = (total, refl, a)
Delivers-Accepts {net = net} (refused f seen e) a = absurd (cc (e, (a (length net.sent)).1))
Delivers-Accepts (taken f n seen e later) a = Delivers-Accepts later a

slice-byte_at : (u : Bytes) → slice (byte_at u) 0 (length u) ≡ u
slice-byte_at [] = refl
slice-byte_at (x ∷ u) = ap (◌∷◌ x) (
    slice_ext (byte_at (x ∷ u)) (byte_at u) (length u) 1 0 (λ i lt.
      ap (byte_at (x ∷ u)) {x = 1 + i} {y = suc i} (omega arith) ∙ ap (byte_at u) (omega arith))
    ∙ slice-byte_at u)

-- A buffer that starts with a text.
slice-Agrees : (m : Memory) (u : Bytes) → Agrees m u (length u) → slice m 0 (length u) ≡ u
slice-Agrees m u same =
    slice_ext m (byte_at u) (length u) 0 0
      (λ i lt. ap m {x = 0 + i} {y = i} (omega arith) ∙ same i lt ∙ ap (byte_at u) (omega arith))
    ∙ slice-byte_at u

-- The fragments' text, where the first bit of the unit is 0 and a byte 0 follows.
with_one_more-Agrees :
    (m : Memory) (u : Bytes)
    → Agrees m u (length u)
    → IsNal u
    → m (length u) ≡ 0
    → with_one_more m (length u) ≡ u ++ 0 ∷ []
with_one_more-Agrees m [] same v z = absurd (omega (arith, v.some_byte))
with_one_more-Agrees m (x ∷ u) same v z = ap₂ ◌∷◌ head (ap₂ ◌++◌ tail (ap (λ b. b ∷ []) z))
  where
    head : u8 (m 0) % 128 ≡ x
    head = omega (arith, same 0 (omega arith), v.first)

    tail : slice m 1 (suc (length u) - 1) ≡ u
    tail =
        ap (slice m 1) {y = length u} (omega arith)
        ∙ slice_ext m (byte_at u) (length u) 1 0 (λ i lt.
          ap m {x = 1 + i} {y = suc i} (omega arith)
          ∙ same (suc i) (omega arith)
          ∙ ap (byte_at u) (omega arith))
        ∙ slice-byte_at u

moved-IsRtpHeader :
    (n k : ℕ) (h : RtpHeader) → IsRtpHeader h → IsRtpHeader (clock_plus n (seq_plus k h))
moved-IsRtpHeader n k h v = omega (arith, v)

-- The bytes of a block that `fread` delivers.
get_or-take :
    (n : ℕ) (xs : Bytes) (i : ℕ) → i < length (take n xs) → byte_at (take n xs) i ≡ byte_at xs i
get_or-take zero xs i h = absurd (omega arith)
get_or-take (suc n) [] i h = refl
get_or-take (suc n) (x ∷ xs) zero h = refl
get_or-take (suc n) (x ∷ xs) (suc i) h = get_or-take n xs i (omega arith)

pub fread-Agrees :
    (rec : Memory) (n : ℕ) (fp : File)
    → Agrees (fread rec n fp).0 (drop fp.pos fp.content) (fread rec n fp).2
unfolding fread
fread-Agrees rec n fp i lt = rw (lt→ltb i _ lt) (get_or-take n (drop fp.pos fp.content) i lt)

pub fread-size :
    (rec : Memory) (n : ℕ) (fp : File)
    → (fread rec n fp).2 ≡ min n (length (drop fp.pos fp.content))
unfolding fread
fread-size rec n fp = length-take n (drop fp.pos fp.content)

-- A start code begins with a byte 0.
pub starts_at-zero : (m : Memory) (k : ℕ) → starts_at m k ≡ true → m k ≡ 0
unfolding starts_at start_code3 start_code4
starts_at-zero m k e = ap m {x = k} {y = k + 0} (omega arith) ∙ ground (arith, e)

-- A sender of units: it delivers the unit's packets, and moves the header on.
pub record SendsUnits (send : Memory → ℕ → RtpPacket → Net → Sent) : Type 0 where
  pub delivers :
      (m : Memory) (n : ℕ) (p : RtpPacket) (net : Net)
      → IsRtpHeader p.header
      → Delivers (packetize p.header m n) 0 net (send m n p net).1 (send m n p net).2
  pub moves :
      (m : Memory) (n : ℕ) (p : RtpPacket) (net : Net) (k : ℕ)
      → IsRtpHeader p.header
      → (send m n p net).2 ≡ some k
      → (send m n p net).0.header
        ≡ clock_plus (clock_step m n) (seq_plus (length (packetize p.header m n)) p.header)

-- A unit that is sent is taken, and seen by the client.
pub record Seen (net : Net) (u : Bytes) (r : Sent) : Type 0 where
  pub bytes_taken : ℕ
  pub result : r.2 ≡ some bytes_taken
  pub valid : IsRtpHeader r.0.header
  pub accepts : Accepts r.1
  pub carries : Carries net r.1 (viewed u)

pub send-Seen :
    {send : Memory → ℕ → RtpPacket → Net → Sent} (ok : SendsUnits send) (m : Memory) (u : Bytes)
    (p : RtpPacket) (net : Net)
    → Agrees m u (length u)
    → IsNal u
    → m (length u) ≡ 0
    → IsRtpHeader p.header
    → Accepts net
    → Seen net u (send m (length u) p net)
send-Seen {send} ok m u p net same v z w a =
    let d = ok.delivers m (length u) p net w in
    let (k, e, a') = Delivers-Accepts d a in
    record {
      bytes_taken = k;
      result = e;
      valid =
          subst IsRtpHeader (sym (ok.moves m (length u) p net k w e))
            (moved-IsRtpHeader _ _ p.header w);
      accepts = a';
      carries = elim (Bool-cases (leb (length u) rtp_max_pkt_size)) [
        | inl small ↦ rw small (
            Delivers-Carries k d e (
              assemble-packetize_single p.header m (length u) v.some_byte (ground arith)
                (λ h. v.kind (ap (λ b. b % 32) (sym (same 0 v.some_byte)) ∙ h))
              ∙ ap some (slice-Agrees m u same)))
        | inr big ↦ rw big (
            Delivers-Carries k d e (
              assemble-packetize_split p.header m (length u) (ground arith)
              ∙ ap some (with_one_more-Agrees m u same v z)))
      ];
    }
