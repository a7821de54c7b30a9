-- ===== src/Media/Heard.antt =====
-- The AAC loop on a file that is a sequence of ADTS frames: what a client hears.
use fz_server.Prelude.{
  ℕ, zero, suc, ◌+◌, ◌<◌, ◌≤◌, ltb, if◌then◌else◌, ◌≡◌, refl, sym, ap, ◌∙◌, subst, inl, inr, true,
  false, List, [], ◌∷◌, ◌++◌, append_assoc, append-nil, some, arith, ◌==◌, length, take, drop,
  length-append, ap₂,
}
use fz_server.Prelude.Int.{ℤ, pos}
use fz_server.Memory.{Bytes, Memory, slice, fill}
use fz_server.Net.{Net}
use fz_server.Word.{u32}
use fz_server.File.{File, fread}
use fz_server.Rtp.{RtpPacket, IsRtpHeader, rtp_header_init, rtp_version, rtp_payload_type_aac}
use fz_server.Rtp.Wire.{rtp_header_init-IsRtpHeader}
use fz_server.Rtp.Packet.{Sent}
use fz_server.Aac.{AdtsHeader, parse_adts_header, rtp_send_aac_frame, rtp_send_aac_frame_tcp}
use fz_server.Aac.Frame.{
  SendsFrame, rtp_send_aac_frame-SendsFrame, rtp_send_aac_frame_tcp-SendsFrame,
}
use fz_server.Media.{
  send_aac_over_tcp, send_aac_over_udp, aac_loop, aac_payload, Streamed, crashed, returned,
  free_frame, overruns, moved_by, aac_buffer_size,
}
use fz_server.Media.Units.{opened}
use fz_server.Media.Adts.{
  AdtsFrame, IsAdts, AreAdts, adts_bytes, stream_of, crc_bytes, payloads, zeros, hear, Hears,
  parse_adts_header-fill, fread-front, rest-front, aac_payload-is,
}

next-IsRtpHeader :
    {frame : Memory} {n : ℕ} {p : RtpPacket} {net : Net} {r : Sent}
    → IsRtpHeader p.header
    → SendsFrame frame n p net r
    → IsRtpHeader r.0.header
next-IsRtpHeader {p = p} v s = elim s.answer [
  | inl (refused, none_is, kept) ↦ subst IsRtpHeader (sym kept) v
  | inr (sent, moved) ↦ subst IsRtpHeader (sym moved) (omega (arith, v))
]

fits_both :
    (moved size n : ℕ)
    → moved + size ≤ aac_buffer_size
    → n + 16 ≤ aac_buffer_size
    → overruns moved size n ≡ false
unfolding overruns
fits_both moved size n a b = ground (arith, a, b)

module _ (send : Memory → ℕ → RtpPacket → Net → Sent)
    (sends : (frame : Memory) (n : ℕ) (p : RtpPacket) (net : Net)
      → IsRtpHeader p.header
      → n < 8192
      → SendsFrame frame n p net (send frame n p net)) where
  abbrev HearsAll : ℕ → List AdtsFrame → Net → Streamed → Type 0
  HearsAll moved fs net played =
      (net' : Net) × (played ≡ free_frame (moved + crc_bytes fs) net')
      × Hears (payloads fs) net net'

  -- One frame, and the rest of the loop.
  frame-Hears :
      (f : AdtsFrame) (fs : List AdtsFrame) (moved : ℕ) (frame : Memory) (n : ℕ) (p : RtpPacket)
      (net : Net)
      → SendsFrame frame n p net (send frame n p net)
      → slice frame 0 n ≡ f.payload
      → (played : Streamed) → HearsAll (moved + length f.crc) fs (send frame n p net).1 played
      → HearsAll moved (f ∷ fs) net played
  unfolding hear
  frame-Hears f fs moved frame n p net s same played (net', done, h) = (
    net',
    done ∙ ap (λ k. free_frame k net') (omega arith),
    record {
      handed = s.handed ∷ h.handed;
      sent_is =
          h.sent_is
          ∙ ap (λ l. l ++ h.handed) s.sent_is
          ∙ append_assoc net.sent (s.handed ∷ []) h.handed;
      heard = ap₂ ◌∷◌ first h.heard;
    },
  )
    where
      first : hear s.handed ≡ some f.payload
      first = rw (s.reads, hear) (s.carries ∙ ap some same)

  -- The rest of a round, behind both reads.
  abbrev behind : ℕ → ℕ → AdtsHeader → RtpPacket → Net → Memory × File × ℕ → Streamed
  behind fuel moved h p net r =
      let (frame', n) = aac_payload h r.0 r.2 in
      elim (overruns moved r.2 n) [
        | true ↦ crashed net
        | false ↦
            let (q, net', ret) = send frame' n p net in
            aac_loop send fuel (moved + moved_by h) frame' r.1 q net'
      ]

  loop_step :
      (fuel moved : ℕ) (frame : Memory) (fp : File) (p : RtpPacket) (net : Net) (f : AdtsFrame)
      (v : IsAdts f) (rest : Bytes)
      → drop fp.pos fp.content ≡ adts_bytes f ++ rest
      → moved + 8192 ≤ aac_buffer_size
      → let body = fill (fill frame f.header) (f.crc ++ f.payload) in
        let (frame', n) = aac_payload v.parsed body (length (f.crc ++ f.payload)) in
        let (q, net', ret) = send frame' n p net in
        aac_loop send (suc fuel) moved frame fp p net
        ≡ aac_loop send fuel
            (moved + moved_by v.parsed)
            frame'
            (record fp { pos = fp.pos + 7 + length (f.crc ++ f.payload) })
            q
            net'
  unfolding aac_loop
  loop_step fuel moved frame fp p net f v rest e room =
      let xs = f.crc ++ f.payload in
      let front : drop fp.pos fp.content ≡ f.header ++ (xs ++ rest) =
        e ∙ append_assoc f.header xs rest in
      let first = fread-front frame fp 7 f.header (xs ++ rest) front v.header_long in
      let fp₁ : File = record fp { pos = fp.pos + 7 } in
      let second =
        fread-front (fill frame f.header) fp₁ (length xs) xs rest
          (rest-front fp.content fp.pos 7 f.header (xs ++ rest) front v.header_long) refl in
      let want : u32 (v.parsed.aac_frame_length + 4294967289) ≡ length xs =
        omega (arith, v.size_is, v.small, length-append f.crc f.payload) in
      let body =
        ap (λ r. fread r.0 (u32 (v.parsed.aac_frame_length + 4294967289)) r.1) first
        ∙ ap (λ n. fread (fill frame f.header) n fp₁) want
        ∙ second in
      let more : ((fread frame 7 fp).2 == 0) ≡ false = ap (λ r. r.2 == 0) first in
      let good : parse_adts_header (fread frame 7 fp).0 ≡ some v.parsed =
        ap (λ r. parse_adts_header r.0) first
        ∙ parse_adts_header-fill frame zeros f.header v.header_long
        ∙ v.parses in
      let left : ((fread (fread frame 7 fp).0 (u32 (v.parsed.aac_frame_length + 4294967289))
              (fread frame 7 fp).1).2
            == 0)
          ≡ false =
        ap (λ r. r.2 == 0) body ∙ ground (arith, v.some_bytes, length-append f.crc f.payload) in
      let near : ltb aac_buffer_size (moved + 7) ≡ false = ground (arith, room) in
      let (size, same) = aac_payload-is f v (fill frame f.header) in
      let whole : moved + length xs ≤ aac_buffer_size =
        omega (arith, room, v.size_is, v.small, length-append f.crc f.payload) in
      let packet : (aac_payload v.parsed (fill (fill frame f.header) xs) (length xs)).1 + 16
          ≤ aac_buffer_size =
        omega (arith, size, v.size_is, v.small) in
      rw (more, near, good, left, aac_loop)
        (ap (behind fuel moved v.parsed p net) body
          ∙ ap
              (λ b. elim b [
                | true ↦ crashed net
                | false ↦
                    let (frame', n) =
                      aac_payload v.parsed (fill (fill frame f.header) xs) (length xs) in
                    let (q, net', ret) = send frame' n p net in
                    aac_loop send fuel (moved + moved_by v.parsed) frame'
                      (record fp { pos = fp.pos + 7 + length xs }) q net'
              ])
              (fits_both moved (length xs) _ whole packet))

  loop_end :
      (fuel moved : ℕ) (frame : Memory) (fp : File) (p : RtpPacket) (net : Net)
      → drop fp.pos fp.content ≡ []
      → aac_loop send (suc fuel) moved frame fp p net ≡ free_frame moved net
  unfolding aac_loop fread
  loop_end fuel moved frame fp p net e =
      let none_left : (length (take 7 (drop fp.pos fp.content)) == 0) ≡ true = rw e refl in
      rw (none_left, aac_loop) refl

  aac_loop-Hears :
      (fs : List AdtsFrame) (fuel moved : ℕ) (frame : Memory) (fp : File) (p : RtpPacket)
      (net : Net)
      → AreAdts fs
      → drop fp.pos fp.content ≡ stream_of fs
      → length fs < fuel
      → moved + crc_bytes fs + 8192 ≤ aac_buffer_size
      → IsRtpHeader p.header
      → HearsAll moved fs net (aac_loop send fuel moved frame fp p net)
  aac_loop-Hears fs zero moved frame fp p net a e enough room v = absurd (omega arith)
  aac_loop-Hears [] (suc fuel) moved frame fp p net a e enough room v = (
    net,
    loop_end fuel moved frame fp p net e ∙ ap (λ k. free_frame k net) {y = moved + 0} (omega arith),
    record { handed = []; sent_is = sym (append-nil net.sent); heard = refl },
  )
  aac_loop-Hears (f ∷ fs) (suc fuel) moved frame fp p net (w, a) e enough room v =
      let xs = f.crc ++ f.payload in
      let body = fill (fill frame f.header) xs in
      let (frame', n) = aac_payload w.parsed body (length xs) in
      let (size, same) = aac_payload-is f w (fill frame f.header) in
      let short : n < 8192 = omega (arith, size, w.size_is, w.small) in
      let s = sends frame' n p net v short in
      let (q, net', ret) = send frame' n p net in
      let fp' : File = record fp { pos = fp.pos + 7 + length xs } in
      let later =
        aac_loop-Hears fs fuel (moved + length f.crc) frame' fp' q net' a
          (rest-front fp.content (fp.pos + 7) (length xs) xs (stream_of fs)
            (rest-front fp.content fp.pos 7 f.header (xs ++ stream_of fs)
              (e ∙ append_assoc f.header xs (stream_of fs)) w.header_long)
            refl)
          (omega arith) (omega (arith, room)) (next-IsRtpHeader v s) in
      rw (loop_step fuel moved frame fp p net f w (stream_of fs) e (omega (arith, room))) (
        frame-Hears f fs moved frame' n p net s same _ (
          subst
            (λ k.
              HearsAll (moved + length f.crc) fs net'
                (aac_loop send fuel (moved + k) frame' fp' q net'))
            w.crc_is later))

  -- The loop begins with a pointer that has not moved.
  aac_loop-start :
      (fs : List AdtsFrame) (fuel : ℕ) (frame : Memory) (p : RtpPacket) (net : Net)
      → AreAdts fs
      → length fs < fuel
      → crc_bytes fs + 8192 ≤ aac_buffer_size
      → IsRtpHeader p.header
      → (net' : Net) × (aac_loop send fuel 0 frame (opened (stream_of fs)) p net
          ≡ (if crc_bytes fs == 0 then returned net' (pos 0) else crashed net'))
        × Hears (payloads fs) net net'
  unfolding free_frame
  aac_loop-start fs fuel frame p net a enough room v =
      let (net', e, h) =
        aac_loop-Hears fs fuel 0 frame (opened (stream_of fs)) p net a refl enough
          (omega (arith, room)) v in
      (net', e ∙ ap (λ k. free_frame k net') {x = 0 + crc_bytes fs} (omega arith), h)

-- For a file that is a sequence of frames of ADTS, each with a header of seven bytes that
-- `parseAdtsHeader` takes and that tells its length and whether a CRC of two bytes follows, each
-- with at least one byte of audio data, where the CRCs together leave 8192 of the buffer's 50000
-- bytes, and more fuel than there are frames: `sendAacOverTcp` and `sendAacOverUdp` hand over one
-- frame for each, whatever the kernel answers, and in these a client reads exactly the audio data
-- of the frames, in order, without the CRC; then they return 0 if no frame has a CRC, and crash
-- in `free` if some frame has one.
pub send_aac_over_tcp-Hears :
    (fs : List AdtsFrame) (fuel : ℕ) (fd : ℤ) (ip : Bytes) (port : ℤ) (frame : Memory)
    (p : RtpPacket) (net : Net)
    → AreAdts fs
    → length fs < fuel
    → crc_bytes fs + 8192 ≤ aac_buffer_size
    → ((net' : Net) × (send_aac_over_tcp fuel fd (some (opened (stream_of fs))) frame p net
          ≡ (if crc_bytes fs == 0 then returned net' (pos 0) else crashed net'))
        × Hears (payloads fs) net net')
      × ((net' : Net) × (send_aac_over_udp fuel fd ip port
              (some (opened (stream_of fs)))
              frame
              p
              net
            ≡ (if crc_bytes fs == 0 then returned net' (pos 0) else crashed net'))
          × Hears (payloads fs) net net')
unfolding send_aac_over_tcp send_aac_over_udp
send_aac_over_tcp-Hears fs fuel fd ip port frame p net a enough room = (
  aac_loop-start (rtp_send_aac_frame_tcp fd) (rtp_send_aac_frame_tcp-SendsFrame fd) fs fuel frame
      (aac_packet p) net a enough room valid,
  aac_loop-start (rtp_send_aac_frame fd ip port) (rtp_send_aac_frame-SendsFrame fd ip port) fs fuel
      frame (aac_packet p) net a enough room valid,
)
  where
    aac_packet : RtpPacket → RtpPacket
    aac_packet q = rtp_header_init q 0 0 0 rtp_version rtp_payload_type_aac 1 0 0 0x32611

    valid : IsRtpHeader (aac_packet p).header
    valid = rtp_header_init-IsRtpHeader p 0 0 0 rtp_version rtp_payload_type_aac 1 0 0 0x32611
