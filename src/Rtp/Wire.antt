-- ===== src/Rtp/Wire.antt =====
-- The header on the wire, against a reader written from the diagram of RFC 3550.
use fz_server.Prelude.{ℕ, ◌+◌, ◌*◌, ◌/◌, ◌%◌, ◌<◌, ◌≡◌, ◌∷◌, Option, none, some, arith}
use fz_server.Memory.{Bytes, slice}
use fz_server.Word.{be16, be32, ntohs-htons, ntohl-htonl, htons, htonl}
use fz_server.Rtp.{
  RtpHeader, RtpPacket, IsRtpHeader, rtp_header_init, header_bytes, packet_bytes, to_network,
  to_host,
}

-- V, P, X and CC from the first byte, M and PT from the second, then the words, high byte first.
unfoldable pub read_packet : Bytes → Option (RtpHeader × Bytes)
read_packet (a ∷ b ∷ s₁ ∷ s₂ ∷ t₁ ∷ t₂ ∷ t₃ ∷ t₄ ∷ r₁ ∷ r₂ ∷ r₃ ∷ r₄ ∷ rest) = some (
  record {
    csrc_len = a % 16;
    extension = a / 16 % 2;
    padding = a / 32 % 2;
    version = a / 64;
    payload_type = b % 128;
    marker = b / 128;
    seq = be16 s₁ s₂;
    timestamp = be32 t₁ t₂ t₃ t₄;
    ssrc = be32 r₁ r₂ r₃ r₄;
  },
  rest,
)
read_packet _ = none

first_byte :
    (c e p v : ℕ)
    → c < 16
    → e < 2
    → p < 2
    → v < 4
    → ((c + e * 16 + p * 32 + v * 64) % 16 ≡ c)
      × ((c + e * 16 + p * 32 + v * 64) / 16 % 2 ≡ e)
      × ((c + e * 16 + p * 32 + v * 64) / 32 % 2 ≡ p)
      × ((c + e * 16 + p * 32 + v * 64) / 64 ≡ v)
first_byte c e p v hc he hp hv = omega arith

second_byte : (t m : ℕ) → t < 128 → ((t + m * 128) % 128 ≡ t) × ((t + m * 128) / 128 ≡ m)
second_byte t m h = omega arith

be16-htons : (n : ℕ) → n < 65536 → be16 (htons n % 256) (htons n / 256 % 256) ≡ n
unfolding htons
be16-htons n h = omega arith

be32-htonl :
    (n : ℕ)
    → n < 4294967296
    → be32 (htonl n % 256) (htonl n / 256 % 256) (htonl n / 65536 % 256) (htonl n / 16777216 % 256)
      ≡ n
unfolding htonl
be32-htonl n h = omega arith

-- What is sent of a packet reads as its header, in host order, and its payload.
pub read_packet-packet_bytes :
    (p : RtpPacket) (n : ℕ)
    → IsRtpHeader p.header
    → read_packet (packet_bytes (to_network p) n) ≡ some (p.header, slice p.payload 0 n)
unfolding read_packet packet_bytes header_bytes to_network
read_packet-packet_bytes p n v =
    let (c, e, x, w) = first_byte _ _ _ _ v.csrc_len_lt v.extension_lt v.padding_lt v.version_lt in
    let (t, m) = second_byte _ p.header.marker v.payload_type_lt in
    cc
      (c, e, x, w, t, m, be16-htons _ v.seq_lt, be32-htonl _ v.timestamp_lt, be32-htonl _ v.ssrc_lt)

-- The swaps behind a send undo those in front of it.
pub to_host-to_network : (p : RtpPacket) → IsRtpHeader p.header → to_host (to_network p) ≡ p
unfolding to_host to_network
to_host-to_network p v =
    cc (ntohs-htons _ v.seq_lt, ntohl-htonl _ v.timestamp_lt, ntohl-htonl _ v.ssrc_lt)

pub rtp_header_init-IsRtpHeader :
    (p : RtpPacket) (csrc_len extension padding version payload_type marker seq timestamp ssrc : ℕ)
    → IsRtpHeader
        (rtp_header_init p csrc_len extension padding version payload_type marker seq timestamp
          ssrc).header
unfolding rtp_header_init
rtp_header_init-IsRtpHeader p _ _ _ _ _ _ _ _ _ = omega arith
