-- ===== src/Media/Watched.antt =====
-- The H.264 loops on a file of Annex B: what a client sees where the kernel takes everything.
use fz_server.Prelude.{
  ℕ, zero, suc, ◌+◌, ◌<◌, ◌≡◌, refl, sym, ap, ◌∙◌, ◌⊎◌, inl, inr, Bool, true, List, [], ◌∷◌, ◌++◌,
  append_assoc, some, arith, ◌==◌, length, drop,
}
use fz_server.Prelude.Int.{ℤ, pos}
use fz_server.Memory.{Bytes, Memory}
use fz_server.Net.{Net}
use fz_server.File.{File, fread}
use fz_server.Rtp.{RtpPacket, IsRtpHeader}
use fz_server.Rtp.Packet.{Sent}
use fz_server.Media.{h264_loop, h264_file_buffer, minus_one, Played}
use fz_server.Media.Playing.{loop_at_end}
use fz_server.Media.AnnexB.{CodedUnit, code_of, byte_stream, IsNal, AreNals}
use fz_server.Media.Viewed.{SendsUnits, viewed, Accepts, Views, nothing, one_more, fread-size}
use fz_server.H264.Manager.{send_manager-Delivers, send_manager_tcp-Delivers}
use fz_server.H264.Send.{send_manager, send_manager_tcp}
use fz_server.H264.Progress.{send_manager-header, send_manager_tcp-header}
use fz_server.Rtp.Wire.{rtp_header_init-IsRtpHeader}
use fz_server.Rtp.{rtp_version, rtp_payload_type_h264}
use fz_server.Media.Units.{opened, h264_packet}
use fz_server.Media.{send_h264_over_tcp, send_h264_over_udp}
use fz_server.Media.Rounds.{followed-Round, last-Round}

abbrev pub units : List CodedUnit → List Bytes
units [] = []
units (c ∷ cs) = viewed c.unit ∷ units cs

-- The client sees all units but the last one; that one too where the loop ends with 0.
abbrev pub Sees : List CodedUnit → CodedUnit → Net → Played → Type 0
Sees cs l net played =
    (net' : Net) × (((played ≡ some (net', minus_one)) × Views (units cs) net net')
      ⊎ ((played ≡ some (net', pos 0)) × Views (units (cs ++ l ∷ [])) net net'))

first_code :
    (cs : List CodedUnit) (l : CodedUnit)
    → (four : Bool) × (later : Bytes) × (byte_stream (cs ++ l ∷ []) ≡ code_of four ++ later)
first_code [] l = (l.four, _, refl)
first_code (c ∷ cs) l = (c.four, _, refl)

h264_loop-Sees :
    {send : Memory → ℕ → RtpPacket → Net → Sent} (ok : SendsUnits send) (cs : List CodedUnit)
    (l : CodedUnit) (fuel : ℕ) (rec : Memory) (fp : File) (p : RtpPacket) (net : Net)
    → AreNals cs
    → IsNal l.unit
    → drop fp.pos fp.content ≡ byte_stream (cs ++ l ∷ [])
    → length cs + 1 < fuel
    → IsRtpHeader p.header
    → Accepts net
    → Sees cs l net (h264_loop send fuel rec fp p net)
h264_loop-Sees {send} ok cs l zero rec fp p net vs v e enough w a = absurd (omega arith)
h264_loop-Sees {send} ok [] l (suc zero) rec fp p net vs v e enough w a = absurd (omega arith)
h264_loop-Sees {send} ok [] l (suc (suc fuel)) rec fp p net vs v e enough w a =
    elim (last-Round ok (suc fuel) rec fp p net l [] (e ∙ append_assoc' (code_of l.four) l.unit [])
      v w a refl) [
        | inl ends ↦ (net, inl (ends, nothing))
        | inr r ↦ (
          r.sockets,
          inr (
            r.played ∙ loop_at_end send fuel _ r.after r.packet r.sockets (at_end r.after r.rest _),
            one_more r.carries nothing,
          ),
        )
      ]
  where
    append_assoc' : (x y z : Bytes) → x ++ (y ++ z) ≡ (x ++ y) ++ z
    append_assoc' x y z = sym (append_assoc x y z)

    at_end :
        (f : File)
        → drop f.pos f.content ≡ []
        → (m : Memory) → ((fread m h264_file_buffer f).2 == 0) ≡ true
    at_end f none_left m =
        ground (arith, fread-size m h264_file_buffer f, ap (λ (x : Bytes). length x) none_left)
h264_loop-Sees {send} ok (c ∷ cs) l (suc fuel) rec fp p net (u, vs) v e enough w a =
    let (four, later, next) = first_code cs l in
    let r =
      followed-Round ok fuel rec fp p net c (byte_stream (cs ++ l ∷ []))
        (e ∙ sym (append_assoc (code_of c.four) c.unit (byte_stream (cs ++ l ∷ [])))) u w a four
        later next in
    let (net', outcome) =
      h264_loop-Sees ok cs l fuel (fread rec h264_file_buffer fp).0 r.after r.packet r.sockets vs v
        r.rest (omega arith) r.valid r.accepts in
    (
      net',
      elim outcome [
        | inl (played, seen) ↦ inl (r.played ∙ played, one_more r.carries seen)
        | inr (played, seen) ↦ inr (r.played ∙ played, one_more r.carries seen)
      ],
    )

tcp-SendsUnits : (fd : ℤ) → SendsUnits (send_manager_tcp fd)
tcp-SendsUnits fd = record {
  delivers = λ m n p net w. send_manager_tcp-Delivers fd m n p net w;
  moves = λ m n p net k w e. send_manager_tcp-header fd m n p net w e;
}

udp-SendsUnits :
    (sockfd : ℤ) (ip : Bytes) (port : ℤ) → SendsUnits (λ m n. send_manager sockfd m n ip port)
udp-SendsUnits sockfd ip port = record {
  delivers = λ m n p net w. send_manager-Delivers sockfd m n ip port p net w;
  moves = λ m n p net k w e. send_manager-header sockfd m n ip port p net w e;
}

-- For a file in the byte stream format of H.264, each unit behind a start code of four or three
-- bytes, each unit a NAL unit as Annex B has it, with a first bit of 0, not of type 28 and of at
-- most 649992 bytes, with more fuel than units, and a kernel that takes every packet:
-- `sendH264OverTcp` and `sendH264OverUdp` return, and a receiver of RFC 6184 gets the units in
-- order, a unit of more than 1400 bytes with a byte 0 behind it. The last unit is left out and
-- the result is -1, or it is sent too and the result is 0.
pub send_h264_over_tcp-Sees :
    (cs : List CodedUnit) (l : CodedUnit) (fuel : ℕ) (fd : ℤ) (ip : Bytes) (port : ℤ) (rec : Memory)
    (p : RtpPacket) (net : Net)
    → AreNals cs
    → IsNal l.unit
    → length cs + 1 < fuel
    → Accepts net
    → Sees cs l net
        (send_h264_over_tcp fuel fd (some (opened (byte_stream (cs ++ l ∷ [])))) rec p net)
      × Sees cs l net (
          send_h264_over_udp fuel fd ip port (some (opened (byte_stream (cs ++ l ∷ [])))) rec p net)
unfolding send_h264_over_tcp send_h264_over_udp
send_h264_over_tcp-Sees cs l fuel fd ip port rec p net vs v enough a = (
  h264_loop-Sees (tcp-SendsUnits fd) cs l fuel rec (opened (byte_stream (cs ++ l ∷ [])))
      (h264_packet p) net vs v refl enough valid a,
  h264_loop-Sees (udp-SendsUnits fd ip port) cs l fuel rec (opened (byte_stream (cs ++ l ∷ [])))
      (h264_packet p) net vs v refl enough valid a,
)
  where
    valid : IsRtpHeader (h264_packet p).header
    valid = rtp_header_init-IsRtpHeader p 0 0 0 rtp_version rtp_payload_type_h264 0 0 0 0x88923423
