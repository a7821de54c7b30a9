-- ===== src/Media/Frames.antt =====
-- The AAC functions of src/handler/rtsp/rtsp_handler.cpp on any file: their end, and causes of a crash.
use fz_server.Prelude.{
  ℕ, zero, suc, ◌+◌, ◌-◌, ◌≤◌, ◌<◌, ◌≡◌, ◌≢◌, ◌⊎◌, refl, ap, ◌∙◌, subst, inl, inr, true, false,
  some, arith, ltb, ◌==◌, Bool-cases, Option-cases, length, take, drop, length-take, length-drop,
}
use fz_server.Prelude.Int.{ℤ, pos}
use fz_server.Memory.{Bytes, Memory, fill}
use fz_server.Net.{Net}
use fz_server.Word.{u32}
use fz_server.File.{File, fread}
use fz_server.File.Reads.{fread-Freads}
use fz_server.Rtp.{RtpPacket, rtp_header_init, rtp_version, rtp_payload_type_aac}
use fz_server.Rtp.Packet.{Sent}
use fz_server.Aac.{AdtsHeader, parse_adts_header, rtp_send_aac_frame, rtp_send_aac_frame_tcp}
use fz_server.Media.{
  send_aac_over_tcp, send_aac_over_udp, aac_loop, aac_payload, moved_by, aac_buffer_size, Streamed,
  crashed, returned, free_frame, overruns,
}
use fz_server.Media.Adts.{zeros, parse_adts_header-fill}
use fz_server.Media.Units.{opened}
use fz_server.Media.Viewed.{fread-size}

ne_zero : {n : ℕ} → (n == 0) ≡ false → n ≢ 0
ne_zero h e = ground arith

-- The file behind two reads, the first of which has delivered something.
two_reads :
    (frame : Memory) (want : ℕ) (fp : File)
    → fp.pos ≤ length fp.content
    → let (head, fp₁, size₁) = fread frame 7 fp in
      let (body, fp₂, size₂) = fread head want fp₁ in
      size₁ ≢ 0 → (fp₂.content ≡ fp.content) × (fp₂.pos ≤ length fp.content) × (fp.pos < fp₂.pos)
two_reads frame want fp room some_byte =
    let (head, fp₁, size₁) = fread frame 7 fp in
    let first = fread-Freads frame 7 fp in
    let second = fread-Freads head want fp₁ in
    let kept = ap (λ (c : Bytes). length c) first.content_kept in
    (
      second.content_kept ∙ first.content_kept,
      omega (arith, kept, second.in_file (omega (arith, kept, first.in_file room))),
      omega (arith, first.pos_is, second.pos_is),
    )

-- At `at` stand seven bytes that `parseAdtsHeader` takes as a header with a CRC, and more behind them.
pub record HasCrc (content : Bytes) (at : ℕ) : Type 0 where
  pub parsed : AdtsHeader
  pub some_data : at + 7 < length content
  pub parses : parse_adts_header (fill zeros (take 7 (drop at content))) ≡ some parsed
  pub with_crc : (parsed.protection_absent == 0) ≡ true

-- Why the functions crash.
abbrev pub CrashCause : Bytes → Type 0
CrashCause content = (49984 < length content) ⊎ ((at : ℕ) × HasCrc content at)

-- What is read behind a header: with data there, the header was whole.
read_behind :
    (frame : Memory) (want : ℕ) (fp : File)
    → fp.pos ≤ length fp.content
    → let (head, fp₁, size₁) = fread frame 7 fp in
      let (body, fp₂, size₂) = fread head want fp₁ in
      size₂ ≢ 0 → (size₂ + 7 + fp.pos ≤ length fp.content) × (fp.pos + 7 < length fp.content)
read_behind frame want fp room some_byte =
    let (head, fp₁, size₁) = fread frame 7 fp in
    let first = fread-Freads frame 7 fp in
    let second = fread-Freads head want fp₁ in
    let kept = ap (λ (c : Bytes). length c) first.content_kept in
    let left = length-drop fp.pos fp.content in
    let in_file = second.in_file (omega (arith, kept, first.in_file room)) in
    let some_left : (size₁ ≡ 7) × (fp.pos + 7 < length fp.content) =
      omega (
        arith,
        fread-size frame 7 fp,
        left,
        first.pos_is,
        second.pos_is,
        kept,
        in_file,
        some_byte,
      ) in
    (omega (arith, some_left.0, first.pos_is, second.pos_is, kept, in_file), some_left.1)

header-parses :
    (frame : Memory) (fp : File)
    → fp.pos + 7 < length fp.content
    → parse_adts_header (fill zeros (take 7 (drop fp.pos fp.content)))
      ≡ parse_adts_header (fread frame 7 fp).0
unfolding fread
header-parses frame fp long =
    parse_adts_header-fill zeros frame (take 7 (drop fp.pos fp.content))
      (length-take 7 (drop fp.pos fp.content) ∙ omega (arith, length-drop fp.pos fp.content, long))

module _ (send : Memory → ℕ → RtpPacket → Net → Sent) where
  -- The pointer has moved only where a header with a CRC was met.
  abbrev IsMoved : Bytes → ℕ → Type 0
  IsMoved content moved = (moved ≡ 0) ⊎ ((at : ℕ) × HasCrc content at)

  abbrev Ends : Bytes → Streamed → Type 0
  Ends content played =
      ((net : Net) × (played ≡ returned net (pos 0)))
      ⊎ ((net : Net) × (played ≡ crashed net) × CrashCause content)

  free_frame-Ends :
      (content : Bytes) (moved : ℕ) (net : Net)
      → IsMoved content moved
      → Ends content (free_frame moved net)
  unfolding free_frame
  free_frame-Ends content moved net v = elim v [
    | inl still ↦ inl (net, rw still refl)
    | inr crc ↦ elim (Bool-cases (moved == 0)) [
      | inl still ↦ inl (net, rw (still, free_frame) refl)
      | inr on ↦ inr (net, rw (on, free_frame) refl, inr crc)
    ]
  ]

  -- A buffer is left only by a long file, or with a pointer that has moved or is about to.
  overruns-cause :
      (moved size : ℕ) (frame : Memory) (h : AdtsHeader) (content : Bytes)
      → overruns moved size (aac_payload h frame size).1 ≡ true
      → size ≤ length content
      → (h.protection_absent == 0) ≡ false
      → moved ≡ 0
      → 49984 < length content
  unfolding overruns aac_payload
  overruns-cause moved size frame h content over le plain still =
      ground (arith, over, le, plain, still)

  moved_by-IsMoved :
      (content : Bytes) (moved at : ℕ) (h : AdtsHeader)
      → IsMoved content moved
      → ((h.protection_absent == 0) ≡ true → HasCrc content at)
      → IsMoved content (moved + moved_by h)
  moved_by-IsMoved content moved at h v here = elim (Bool-cases (h.protection_absent == 0)) [
    | inl crc ↦ inr (at, here crc)
    | inr plain ↦ elim v [ inl still ↦ inl (rw (plain, still) (omega arith)) | inr met ↦ inr met ]
  ]

  overrun-CrashCause :
      (content : Bytes) (moved at size : ℕ) (frame : Memory) (h : AdtsHeader)
      → IsMoved content moved
      → ((h.protection_absent == 0) ≡ true → HasCrc content at)
      → overruns moved size (aac_payload h frame size).1 ≡ true
      → size ≤ length content
      → CrashCause content
  overrun-CrashCause content moved at size frame h v here over le =
      elim (Bool-cases (h.protection_absent == 0)) [
        | inl crc ↦ inr (at, here crc)
        | inr plain ↦ elim v [
          | inl still ↦ inl (overruns-cause moved size frame h content over le plain still)
          | inr met ↦ inr met
        ]
      ]

  near_end :
      (content : Bytes) (moved : ℕ)
      → IsMoved content moved
      → ltb aac_buffer_size (moved + 7) ≡ true
      → CrashCause content
  near_end content moved v far = elim v [
    | inl still ↦ absurd (ground (arith, still, far))
    | inr met ↦ inr met
  ]

  aac_loop-Ends :
      (fuel moved : ℕ) (frame : Memory) (fp : File) (p : RtpPacket) (net : Net) (content : Bytes)
      → fp.content ≡ content
      → fp.pos ≤ length content
      → length content - fp.pos < fuel
      → IsMoved content moved
      → Ends content (aac_loop send fuel moved frame fp p net)
  unfolding aac_loop
  aac_loop-Ends zero moved frame fp p net content same room enough v = absurd (omega arith)
  aac_loop-Ends (suc fuel) moved frame fp p net content same room enough v =
      let (head, fp₁, size₁) = fread frame 7 fp in
      let room' : fp.pos ≤ length fp.content = rw same room in
      elim (Bool-cases (size₁ == 0)) [
        | inl end ↦ rw (end, aac_loop) (free_frame-Ends content moved net v)
        | inr more ↦ elim (Bool-cases (ltb aac_buffer_size (moved + 7))) [
          | inl far ↦ rw (more, far, aac_loop) (inr (net, refl, near_end content moved v far))
          | inr near ↦ elim (Option-cases (parse_adts_header head)) [
            | inl bad ↦ rw (more, near, bad, aac_loop) (free_frame-Ends content moved net v)
            | inr (h, good) ↦
                let want = u32 (h.aac_frame_length + 4294967289) in
                let (body, fp₂, size₂) = fread head want fp₁ in
                elim (Bool-cases (size₂ == 0)) [
                  | inl end ↦
                      rw (more, near, good, end, aac_loop) (free_frame-Ends content moved net v)
                  | inr left ↦
                      let (le, long) = read_behind frame want fp room' (ne_zero left) in
                      let here : (h.protection_absent == 0) ≡ true → HasCrc content fp.pos = λ crc.
                        subst (λ c. HasCrc c fp.pos) same
                          record {
                            parsed = h;
                            some_data = long;
                            parses = header-parses frame fp long ∙ good;
                            with_crc = crc;
                          } in
                      let le' : size₂ ≤ length content =
                        omega (arith, le, ap (λ (c : Bytes). length c) same) in
                      let (frame', n) = aac_payload h body size₂ in
                      elim (Bool-cases (overruns moved size₂ n)) [
                        | inl over ↦
                            rw (more, near, good, left, over, aac_loop)
                              (inr (
                                net,
                                refl,
                                overrun-CrashCause content moved fp.pos size₂ body h v here over
                                    le',
                              ))
                        | inr fits ↦
                            let (q, net', ret) = send frame' n p net in
                            let (kept, within, on) = two_reads frame want fp room' (ne_zero more) in
                            let all = ap (λ (c : Bytes). length c) same in
                            rw (more, near, good, left, fits, aac_loop)
                              (aac_loop-Ends fuel (moved + moved_by h) frame' fp₂ q net' content
                                (kept ∙ same) (omega (arith, within, all))
                                (omega (arith, within, on, all, enough))
                                (moved_by-IsMoved content moved fp.pos h v here))
                      ]
                ]
          ]
        ]
      ]

abbrev aac_packet : RtpPacket → RtpPacket
aac_packet p = rtp_header_init p 0 0 0 rtp_version rtp_payload_type_aac 1 0 0 0x32611

-- With more fuel than the file has bytes, `sendAacOverTcp` and `sendAacOverUdp` on an opened file
-- end, whatever the file holds and the kernel answers: they return 0, or they crash, and then the
-- file is longer than 49984 bytes, or seven bytes somewhere in it, with more behind them, are
-- taken by `parseAdtsHeader` as the header of a frame with a CRC.
pub send_aac_over_tcp-CrashCause :
    (fuel : ℕ) (fd : ℤ) (ip : Bytes) (port : ℤ) (content : Bytes) (frame : Memory) (p : RtpPacket)
    (net : Net)
    → length content < fuel
    → (((net' : Net) × (send_aac_over_tcp fuel fd (some (opened content)) frame p net
            ≡ returned net' (pos 0)))
        ⊎ ((net' : Net) × (send_aac_over_tcp fuel fd (some (opened content)) frame p net
              ≡ crashed net')
            × CrashCause content))
      × (((net' : Net) × (send_aac_over_udp fuel fd ip port (some (opened content)) frame p net
              ≡ returned net' (pos 0)))
          ⊎ ((net' : Net) × (send_aac_over_udp fuel fd ip port (some (opened content)) frame p net
                ≡ crashed net')
              × CrashCause content))
unfolding send_aac_over_tcp send_aac_over_udp
send_aac_over_tcp-CrashCause fuel fd ip port content frame p net enough = (
  aac_loop-Ends (rtp_send_aac_frame_tcp fd) fuel 0 frame (opened content) (aac_packet p) net content
      refl (omega arith) (omega arith) (inl refl),
  aac_loop-Ends (rtp_send_aac_frame fd ip port) fuel 0 frame (opened content) (aac_packet p) net
      content refl (omega arith) (omega arith) (inl refl),
)
