-- ===== src/Rtp/Packet.antt =====
-- What the packetizers do to the one RTP packet that they keep, between two sends.
use fz_server.Prelude.{ℕ, ◌+◌, Option, none, some}
use fz_server.Memory.{Memory, store, memcpy}
use fz_server.Net.{Net}
use fz_server.Word.{u16, u32}
use fz_server.Rtp.{RtpPacket}

-- `rtpPacket->rtpHeader.seq++`.
abbrev pub next_seq : RtpPacket → RtpPacket
next_seq p = record p { header = record h { seq = u16 (h.seq + 1) } }
  where
    open p use {header as h}

-- `rtpPacket->rtpHeader.timestamp += n`.
abbrev pub advance : ℕ → RtpPacket → RtpPacket
advance n p = record p { header = record h { timestamp = u32 (h.timestamp + n) } }
  where
    open p use {header as h}

-- `rtpPacket->payload[k] = v`.
abbrev pub set_payload : RtpPacket → ℕ → ℕ → RtpPacket
set_payload p k v = record p { payload = store p.payload k v }

-- `memcpy(rtpPacket->payload + k, src, n)`.
abbrev pub copy_payload : RtpPacket → ℕ → Memory → ℕ → RtpPacket
copy_payload p k src n = record p { payload = memcpy p.payload k src n }

-- The packet, the sockets, and the result so far: `none` for an early `return -1`.
abbrev pub Sent : Type 0
Sent = RtpPacket × Net × Option ℕ

-- `if (ret < 0) return -1;`, and what follows otherwise.
abbrev pub and_then : Sent → (RtpPacket → Net → ℕ → Sent) → Sent
and_then (q, net', none) rest = (q, net', none)
and_then (q, net', some ret) rest = rest q net' ret
