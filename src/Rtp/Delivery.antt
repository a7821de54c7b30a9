-- ===== src/Rtp/Delivery.antt =====
-- What it means that a run of a sender hands over a list of packets.
use fz_server.Prelude.{
  ℕ, ◌+◌, ◌≡◌, inl, inr, List, [], ◌∷◌, ◌++◌, Option, none, some, length, Option-cases,
}
use fz_server.Memory.{Bytes}
use fz_server.Net.{Net, Frame, transmit}
use fz_server.Rtp.{RtpHeader, RtpPacket, IsRtpHeader}
use fz_server.Rtp.Framing.{Sender, IsTransport, read_frame}
use fz_server.Rtp.Packet.{Sent, and_then}

-- A packet as its receiver sees it.
abbrev pub View : Type 0
View = RtpHeader × Bytes

-- `Delivers vs total before after result`: one call of the kernel for each packet of `vs`, in this
-- order, until one is refused. Then the result is `none`, and no later packet is handed over; if none
-- is refused, the result is `total` and the byte counts that the kernel answered.
pub data Delivers : List View → ℕ → Net → Net → Option ℕ → Type 0 where
  done : {total : ℕ} {net : Net} → Delivers [] total net net (some total)
  refused :
      {v : View} {vs : List View} {total : ℕ} {net : Net} (f : Frame)
      → read_frame f ≡ some v
      → net.replies (length net.sent) ≡ none
      → Delivers (v ∷ vs) total net (record net { sent = net.sent ++ f ∷ [] }) none
  taken :
      {v : View} {vs : List View} {total : ℕ} {net after : Net} {result : Option ℕ} (f : Frame)
      (n : ℕ)
      → read_frame f ≡ some v
      → net.replies (length net.sent) ≡ some n
      → Delivers vs (total + n) (record net { sent = net.sent ++ f ∷ [] }) after result
      → Delivers (v ∷ vs) total net after result

module _ (send : Sender) (frame : RtpPacket → ℕ → Frame) (t : IsTransport send frame) where
  pub and_then-Delivers :
      {v : View} {vs : List View} {total : ℕ} (p : RtpPacket) (n : ℕ) (net : Net)
      (rest : RtpPacket → Net → ℕ → Sent)
      → IsRtpHeader p.header
      → read_frame (frame p n) ≡ some v
      → ((ret : ℕ) (net' : Net)
          → Delivers vs (total + ret) net' (rest p net' ret).1 (rest p net' ret).2)
      → Delivers
          (v ∷ vs)
          total
          net
          (and_then (send p n net) rest).1
          (and_then (send p n net) rest).2
  unfolding transmit
  and_then-Delivers p n net rest w seen later =
      rw (t.send_lem p n net w) (elim (Option-cases (net.replies (length net.sent))) [
        | inl e ↦ rw e (refused (frame p n) seen e)
        | inr (ret, e) ↦ rw e (taken (frame p n) ret seen e (later ret _))
      ])
