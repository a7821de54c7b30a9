-- ===== src/Media.antt =====
-- src/handler/rtsp/rtsp_handler.cpp: the four loops that read a media file and send it. The file is
-- what `fopen` gives, `none` for a null pointer; the two buffers of `malloc` are arguments, since they
-- hold what was there. The sleeps and the prints are left out, and `free` in the H.264 functions, whose
-- pointers do not move. Each loop takes fuel; `none`, and `out_of_fuel`, are only where that runs out.
pub mod Units
pub mod Playing
pub mod AnnexB
pub mod Viewed
pub mod Rounds
pub mod Watched
pub mod Frames
pub mod Adts
pub mod Heard
use fz_server.Prelude.{
  ℕ, zero, suc, ◌+◌, ◌-◌, ltb, Bool, ◌||◌, true, false, Option, none, some, ◌==◌, if◌then◌else◌,
}
use fz_server.Prelude.Int.{ℤ, pos, negsuc}
use fz_server.Memory.{Bytes, Memory, shift}
use fz_server.Net.{Net}
use fz_server.Word.{u32}
use fz_server.File.{File, fread}
use fz_server.Rtp.{
  RtpPacket, rtp_header_init, rtp_version, rtp_payload_type_h264, rtp_payload_type_aac,
}
use fz_server.Rtp.Packet.{Sent}
use fz_server.Aac.{AdtsHeader, parse_adts_header, rtp_send_aac_frame, rtp_send_aac_frame_tcp}
use fz_server.H264.Extract.{start_code3, start_code4, extract_content}
use fz_server.H264.Send.{send_manager, send_manager_tcp}

abbrev pub h264_file_buffer : ℕ
h264_file_buffer = 650000

-- The sockets and the value that the function returns.
abbrev pub Played : Type 0
Played = Option (Net × ℤ)

abbrev pub minus_one : ℤ
minus_one = negsuc 0

-- Both `if`s that set `step`.
unfoldable pub code_length : Memory → ℕ
code_length rec = if start_code4 rec then 4 else if start_code3 rec then 3 else 0

module _ (send_unit : Memory → ℕ → RtpPacket → Net → Sent) where
  -- One unit: `sendManager`, and the next round unless it gave -1.
  unfoldable pub after_unit : Sent → (RtpPacket → Net → Played) → Played
  after_unit (p, net, none) next = some (net, minus_one)
  after_unit (p, net, some sent) next = next p net

  unfoldable pub h264_loop : ℕ → Memory → File → RtpPacket → Net → Played
  unfolding after_unit code_length
  h264_loop zero rec fp p net = none
  h264_loop (suc fuel) rec fp p net =
      let (buf, fp', size) = fread rec h264_file_buffer fp in
      elim (size == 0) [
        | true ↦ some (net, pos 0)
        | false ↦ elim (extract_content buf fp' size) [
          | none ↦ some (net, minus_one)
          | some (filesize, fp'') ↦
              let step = code_length buf in
              after_unit (send_unit (shift buf step) (filesize - step) p net)
                λ q net'. h264_loop fuel buf fp'' q net'
        ]
      ]

-- The bytes behind the header; with a CRC in front of them the pointer moves on by two.
unfoldable pub aac_payload : AdtsHeader → Memory → ℕ → Memory × ℕ
aac_payload h frame size =
    if h.protection_absent == 0 then (shift frame 2, u32 (size + 4294967294)) else (frame, size)

-- By how much the pointer `frame` moves on.
abbrev pub moved_by : AdtsHeader → ℕ
moved_by h = if h.protection_absent == 0 then 2 else 0

-- `malloc(AAC_BUFFER_SIZE)`, twice: what is read, and the packet.
abbrev pub aac_buffer_size : ℕ
aac_buffer_size = 50000

-- How an AAC function ends: in `return`, or in a crash, which is a write or a read behind one of the
-- two buffers or the abort of `free`. The fuel may run out before.
pub data Streamed : Type 0 where
  out_of_fuel : Streamed
  crashed : Net → Streamed
  returned : Net → ℤ → Streamed

-- Behind the loop: `free(frame)` aborts on a pointer that is not the one that `malloc` gave.
unfoldable pub free_frame : ℕ → Net → Streamed
free_frame moved net = if moved == 0 then returned net (pos 0) else crashed net

-- The data that were read reach behind the end of the buffer, or the packet behind the end of its own:
-- the header of RTP has 12 bytes, the one of the access unit 4.
unfoldable pub overruns : ℕ → ℕ → ℕ → Bool
overruns moved size n = ltb aac_buffer_size (moved + size) || ltb aac_buffer_size (n + 16)

module _ (send_frame : Memory → ℕ → RtpPacket → Net → Sent) where
  -- `frame` points `moved` bytes behind the start of its buffer.
  unfoldable pub aac_loop : ℕ → ℕ → Memory → File → RtpPacket → Net → Streamed
  unfolding aac_payload free_frame overruns
  aac_loop zero moved frame fp p net = out_of_fuel
  aac_loop (suc fuel) moved frame fp p net =
      let (head, fp₁, size₁) = fread frame 7 fp in
      elim (size₁ == 0) [
        | true ↦ free_frame moved net
        | false ↦ elim (ltb aac_buffer_size (moved + 7)) [
          | true ↦ crashed net
          | false ↦ elim (parse_adts_header head) [
            | none ↦ free_frame moved net
            | some h ↦
                let (body, fp₂, size₂) = fread head (u32 (h.aac_frame_length + 4294967289)) fp₁ in
                elim (size₂ == 0) [
                  | true ↦ free_frame moved net
                  | false ↦
                      let (frame', n) = aac_payload h body size₂ in
                      elim (overruns moved size₂ n) [
                        | true ↦ crashed net
                        | false ↦
                            let (q, net', ret) = send_frame frame' n p net in
                            aac_loop fuel (moved + moved_by h) frame' fp₂ q net'
                      ]
                ]
          ]
        ]
      ]

abbrev open_or_fail : Option File → (File → Played) → Net → Played
open_or_fail none play net = some (net, minus_one)
open_or_fail (some fp) play net = play fp

unfoldable pub send_h264_over_tcp : ℕ → ℤ → Option File → Memory → RtpPacket → Net → Played
unfolding h264_loop send_manager_tcp
send_h264_over_tcp fuel client_fd fp rec p net =
    let q = rtp_header_init p 0 0 0 rtp_version rtp_payload_type_h264 0 0 0 0x88923423 in
    open_or_fail fp (λ f. h264_loop (send_manager_tcp client_fd) fuel rec f q net) net

unfoldable pub send_h264_over_udp :
    ℕ → ℤ → Bytes → ℤ → Option File → Memory → RtpPacket → Net → Played
unfolding h264_loop send_manager
send_h264_over_udp fuel server_rtp_sockfd client_ip client_rtp_port fp rec p net =
    let q = rtp_header_init p 0 0 0 rtp_version rtp_payload_type_h264 0 0 0 0x88923423 in
    let send =
      λ (m : Memory) (n : ℕ). send_manager server_rtp_sockfd m n client_ip client_rtp_port in
    open_or_fail fp (λ f. h264_loop send fuel rec f q net) net

abbrev open_or_return : Option File → (File → Streamed) → Net → Streamed
open_or_return none play net = returned net minus_one
open_or_return (some fp) play net = play fp

unfoldable pub send_aac_over_tcp : ℕ → ℤ → Option File → Memory → RtpPacket → Net → Streamed
unfolding aac_loop rtp_send_aac_frame_tcp
send_aac_over_tcp fuel client_fd fp frame p net =
    let q = rtp_header_init p 0 0 0 rtp_version rtp_payload_type_aac 1 0 0 0x32611 in
    open_or_return fp (λ f. aac_loop (rtp_send_aac_frame_tcp client_fd) fuel 0 frame f q net) net

unfoldable pub send_aac_over_udp :
    ℕ → ℤ → Bytes → ℤ → Option File → Memory → RtpPacket → Net → Streamed
unfolding aac_loop rtp_send_aac_frame
send_aac_over_udp fuel server_rtp_sockfd client_ip client_rtp_port fp frame p net =
    let q = rtp_header_init p 0 0 0 rtp_version rtp_payload_type_aac 1 0 0 0x32611 in
    let send = rtp_send_aac_frame server_rtp_sockfd client_ip client_rtp_port in
    open_or_return fp (λ f. aac_loop send fuel 0 frame f q net) net
