-- ===== src/H264/Packets.antt =====
-- The packets that RFC 6184 asks for, as a plain list of headers and payloads.
use fz_server.Prelude.{
  ℕ, zero, suc, ◌+◌, ◌/◌, ◌%◌, ◌&&◌, bit_and, bit_or, List, [], ◌∷◌, ◌==◌, ltb, leb, if◌then◌else◌,
}
use fz_server.Memory.{Memory, slice}
use fz_server.Word.{u16, u8}
use fz_server.Rtp.{RtpHeader, rtp_max_pkt_size}
use fz_server.Rtp.Delivery.{View}

abbrev pub seq_after : RtpHeader → RtpHeader
seq_after h = record h { seq = u16 (h.seq + 1) }

-- The fragments from `pos` on: `rounds` full ones and a last one of `remain` bytes, if that is not 0.
-- `flag` is the S bit, on the first fragment of a unit alone; the E bit is on the last one.
abbrev pub fragments : RtpHeader → ℕ → Memory → ℕ → ℕ → ℕ → ℕ → List View
fragments h nalu rec pos flag zero remain =
    if ltb 0 remain
    then (h, bit_or (bit_and nalu 0x60) 28 ∷ bit_or (bit_and nalu 0x1F) 0x40 ∷ slice rec pos remain)
      ∷ []
    else []
fragments h nalu rec pos flag (suc rounds) remain =
    let end = if remain == 0 && rounds == 0 then 0x40 else 0 in
    (
      h,
      bit_or (bit_and nalu 0x60) 28
          ∷ bit_or (bit_and nalu 0x1F) (bit_or flag end)
          ∷ slice rec pos rtp_max_pkt_size,
    )
    ∷ fragments (seq_after h) nalu rec (pos + rtp_max_pkt_size) 0 rounds remain

-- The packets for the unit of n bytes at `rec`.
unfoldable pub packetize : RtpHeader → Memory → ℕ → List View
packetize h rec n =
    if leb n rtp_max_pkt_size
    then (h, slice rec 0 n) ∷ []
    else fragments h (u8 (rec 0)) rec 1 0x80 (n / rtp_max_pkt_size) (n % rtp_max_pkt_size)
