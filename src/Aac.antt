-- ===== src/Aac.antt =====
-- src/container/aac/adts.h: the ADTS header, its parser, and the two senders of an AAC frame.
pub mod Masks
pub mod Header
pub mod Frame
use fz_server.Prelude.{
  ℕ, ◌+◌, ◌*◌, ◌/◌, ◌%◌, bit_and, bit_or, ◌&&◌, Option, none, some, ◌==◌, if◌then◌else◌,
}
use fz_server.Prelude.Int.{ℤ}
use fz_server.Memory.{Bytes, Memory}
use fz_server.Net.{Net}
use fz_server.Rtp.{RtpPacket, rtp_send_packet_over_udp, rtp_send_packet_over_tcp}
use fz_server.Rtp.Framing.{Sender}
use fz_server.Rtp.Packet.{Sent, and_then, next_seq, advance, set_payload, copy_payload}

pub record AdtsHeader : Type 0 where
  pub syncword : ℕ
  pub id : ℕ
  pub layer : ℕ
  pub protection_absent : ℕ
  pub profile : ℕ
  pub sampling_freq_index : ℕ
  pub private_bit : ℕ
  pub channel_cfg : ℕ
  pub original_copy : ℕ
  pub home : ℕ
  pub copyright_identification_bit : ℕ
  pub copyright_identification_start : ℕ
  pub aac_frame_length : ℕ
  pub adts_buffer_fullness : ℕ
  pub number_of_raw_data_block_in_frame : ℕ

-- The assignments of the branch that has seen the sync word, after the `memset` to 0. A shift to the
-- right by k divides by 2^k. In the source `&` binds less tightly than `>>`, so the mask of
-- `copyrightIdentificationStart` is `0x04 >> 2`.
unfoldable pub header_fields : Memory → AdtsHeader
header_fields b = record {
  syncword = 0;
  id = bit_and (b 1) 0x08 / 8;
  layer = bit_and (b 1) 0x06 / 2;
  protection_absent = bit_and (b 1) 0x01;
  profile = bit_and (b 2) 0xC0 / 64;
  sampling_freq_index = bit_and (b 2) 0x3C / 4;
  private_bit = bit_and (b 2) 0x02 / 2;
  channel_cfg = bit_or (bit_and (b 2) 0x01 * 4) (bit_and (b 3) 0xC0 / 64);
  original_copy = bit_and (b 3) 0x20 / 32;
  home = bit_and (b 3) 0x10 / 16;
  copyright_identification_bit = bit_and (b 3) 0x08 / 8;
  copyright_identification_start = bit_and (b 3) (0x04 / 4);
  aac_frame_length =
      bit_or (bit_or (bit_and (b 3) 0x03 * 2048) (bit_and (b 4) 0xFF * 8))
        (bit_and (b 5) 0xE0 / 32);
  adts_buffer_fullness = bit_or (bit_and (b 5) 0x1F * 64) (bit_and (b 6) 0xFC / 4);
  number_of_raw_data_block_in_frame = bit_and (b 6) 0x03;
}

-- `none` is the result -1.
unfoldable pub parse_adts_header : Memory → Option AdtsHeader
unfolding header_fields
parse_adts_header b =
    if b 0 == 0xFF && bit_and (b 1) 0xF0 == 0xF0 then some (header_fields b) else none

-- The four bytes in front of the frame: one header of 16 bits, its 13-bit size, a 3-bit index of 0.
unfoldable pub au_packet : RtpPacket → Memory → ℕ → RtpPacket
au_packet p frame frame_size =
    let q = set_payload (set_payload p 0 0x00) 1 0x10 in
    let q' = set_payload (set_payload q 2 (frame_size / 32 % 256)) 3 (frame_size % 32 * 8) in
    copy_payload q' 4 frame frame_size

-- The common text of the two senders. The result is `none` for -1, else the value 0.
unfoldable pub send_aac : Sender → Memory → ℕ → RtpPacket → Net → Sent
unfolding au_packet
send_aac send frame frame_size p net =
    and_then (send (au_packet p frame frame_size) (frame_size + 4) net)
      λ q net' ret. (advance 1025 (next_seq q), net', some 0)

unfoldable pub rtp_send_aac_frame : ℤ → Bytes → ℤ → Memory → ℕ → RtpPacket → Net → Sent
unfolding send_aac rtp_send_packet_over_udp
rtp_send_aac_frame socket ip port = send_aac (rtp_send_packet_over_udp socket ip port)

unfoldable pub rtp_send_aac_frame_tcp : ℤ → Memory → ℕ → RtpPacket → Net → Sent
unfolding send_aac rtp_send_packet_over_tcp
rtp_send_aac_frame_tcp socket = send_aac (λ p n net. rtp_send_packet_over_tcp socket p n 0x02 net)
