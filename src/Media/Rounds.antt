-- ===== src/Media/Rounds.antt =====
-- The H.264 loop on a file of Annex B: one round of the loop.
use fz_server.Prelude.{
  ℕ, suc, ◌+◌, ◌-◌, ◌≤◌, ◌<◌, ◌≡◌, sym, ap, ap₂, ◌∙◌, ◌⊎◌, inl, inr, Bool, true, false, [], ◌++◌,
  some, arith, ◌==◌, length, length-append, drop, min,
}
use fz_server.Memory.{Bytes, Memory, shift}
use fz_server.Net.{Net}
use fz_server.File.{File, fread}
use fz_server.File.Reads.{fread-Freads}
use fz_server.Rtp.{RtpPacket, IsRtpHeader}
use fz_server.Rtp.Packet.{Sent}
use fz_server.H264.Extract.{extract_content}
use fz_server.H264.Scan.{Extracts}
use fz_server.H264.Received.{Carries}
use fz_server.Media.{h264_loop, after_unit, h264_file_buffer, minus_one}
use fz_server.Media.Units.{code_length-is}
use fz_server.Media.Playing.{loop_unit, loop_no_unit}
use fz_server.Media.Adts.{rest-front}
use fz_server.Media.AnnexB.{
  CodedUnit, code_of, byte_at, IsNal, Agrees, byte_at-append, byte_at-behind, code_starts, step_lem,
  extract_content-found, extract_content-last,
}
use fz_server.Media.Viewed.{
  SendsUnits, send-Seen, viewed, Accepts, fread-Agrees, fread-size, starts_at-zero,
}

-- What a round does with the unit that it finds.
pub record Round (send : Memory → ℕ → RtpPacket → Net → Sent) (fuel : ℕ) (rec : Memory) (fp : File)
    (p : RtpPacket) (net : Net) (u more : Bytes) : Type 0 where
  pub packet : RtpPacket
  pub after : File
  pub sockets : Net
  pub played :
      h264_loop send (suc fuel) rec fp p net
      ≡ h264_loop send fuel (fread rec h264_file_buffer fp).0 after packet sockets
  pub rest : drop after.pos after.content ≡ more
  pub valid : IsRtpHeader packet.header
  pub accepts : Accepts sockets
  pub carries : Carries net sockets (viewed u)

-- One round, at a unit in front of `more`.
module _ {send : Memory → ℕ → RtpPacket → Net → Sent} (ok : SendsUnits send) (fuel : ℕ)
    (rec : Memory) (fp : File) (p : RtpPacket) (net : Net) (c : CodedUnit) (more : Bytes)
    (front : drop fp.pos fp.content ≡ (code_of c.four ++ c.unit) ++ more) (v : IsNal c.unit)
    (w : IsRtpHeader p.header) (a : Accepts net) where
  abbrev block : Memory × File × ℕ
  block = fread rec h264_file_buffer fp

  abbrev coded : ℕ
  coded = length (code_of c.four) + length c.unit

  coded_is : length (code_of c.four ++ c.unit) ≡ coded
  coded_is = length-append (code_of c.four) c.unit

  -- The block holds the unit.
  coded-le-size : coded ≤ block.2
  coded-le-size = omega (
    arith,
    fread-size rec h264_file_buffer fp,
    ap (λ (x : Bytes). length x) front,
    length-append (code_of c.four ++ c.unit) more,
    coded_is,
    v.short,
    code_short c.four,
  )
    where
      code_short : (four : Bool) → length (code_of four) ≤ 4
      code_short true = omega arith
      code_short false = omega arith

  block_same : Agrees block.0 (code_of c.four ++ c.unit) coded
  block_same i lt =
      fread-Agrees rec h264_file_buffer fp i (omega (arith, coded-le-size))
      ∙ ap (λ xs. byte_at xs i) front
      ∙ byte_at-append (code_of c.four ++ c.unit) more i (omega (arith, coded_is))

  behind_same : (i : ℕ) → coded + i < block.2 → block.0 (coded + i) ≡ byte_at more i
  behind_same i lt =
      fread-Agrees rec h264_file_buffer fp (coded + i) lt
      ∙ ap (λ xs. byte_at xs (coded + i)) front
      ∙ ap (byte_at ((code_of c.four ++ c.unit) ++ more)) (ap (λ k. k + i) (sym coded_is))
      ∙ byte_at-behind (code_of c.four ++ c.unit) more i

  not_empty : (block.2 == 0) ≡ false
  not_empty = ground (arith, coded-le-size, v.some_byte)

  found-Round :
      (after : File)
      → extract_content block.0 block.1 block.2 ≡ some (coded, after)
      → Extracts block.0 block.1 block.2 coded after
      → Round send fuel rec fp p net c.unit more
  unfolding after_unit
  found-Round after e ex =
      let m = block.0 in
      let reads = fread-Freads rec h264_file_buffer fp in
      let step = code_length-is m ex.step_is ∙ step_lem m block.1 block.2 c v block_same ex in
      let s =
        send-Seen ok (shift m (length (code_of c.four))) c.unit p net
          (λ i lt.
            block_same (length (code_of c.four) + i) (omega arith)
            ∙ byte_at-behind (code_of c.four) c.unit i)
          v (starts_at-zero m coded ex.ends) w a in
      let (q, net', ret) = send (shift m (length (code_of c.four))) (length c.unit) p net in
      let pos_is : after.pos ≡ fp.pos + coded =
        omega (arith, ex.pos_is, reads.pos_is, coded-le-size) in
      record {
        packet = q;
        after = after;
        sockets = net';
        played =
            loop_unit send fuel rec fp p net not_empty e
            ∙ ap₂
                (λ k n.
                  after_unit send (send (shift m k) n p net)
                    λ q' net''. h264_loop send fuel m after q' net'')
                step (ap (λ k. coded - k) step ∙ omega arith)
            ∙ ap
                (λ r. after_unit send (q, net', r) λ q' net''. h264_loop send fuel m after q' net'')
                s.result;
        rest =
            ap₂ drop pos_is (ex.content_kept ∙ reads.content_kept)
            ∙ rest-front fp.content fp.pos coded (code_of c.four ++ c.unit) more front coded_is;
        valid = s.valid;
        accepts = s.accepts;
        carries = s.carries;
      }

  -- A start code that follows lies in the block.
  pub followed-Round :
      (four : Bool) (later : Bytes)
      → more ≡ code_of four ++ later
      → Round send fuel rec fp p net c.unit more
  followed-Round four later e =
      let (after, found, ex) =
        extract_content-found block.0 block.1 block.2 c v block_same
          (code_starts block.0 coded four λ i lt.
            behind_same i (within i lt)
            ∙ ap (λ xs. byte_at xs i) e
            ∙ byte_at-append (code_of four) later i lt)
          (omega (arith, size_is, code_long c.four, code_long four, v.short)) in
      found-Round after found ex
    where
      code_long : (four : Bool) → (3 ≤ length (code_of four)) × (length (code_of four) ≤ 4)
      code_long true = (omega arith, omega arith)
      code_long false = (omega arith, omega arith)

      size_is : block.2 ≡ min 650000 (coded + (length (code_of four) + length later))
      size_is =
          fread-size rec h264_file_buffer fp
          ∙ ap (min 650000) (
              ap (λ (x : Bytes). length x) front
              ∙ length-append (code_of c.four ++ c.unit) more
              ∙ ap₂ ◌+◌ coded_is
                  (ap (λ (x : Bytes). length x) e ∙ length-append (code_of four) later))

      within : (i : ℕ) → i < length (code_of four) → coded + i < block.2
      within i lt = omega (arith, size_is, code_long c.four, code_long four, v.short)

  -- At the end of the file.
  pub last-Round :
      more ≡ []
      → (h264_loop send (suc fuel) rec fp p net ≡ some (net, minus_one))
        ⊎ Round send fuel rec fp p net c.unit more
  last-Round e = elim (extract_content-last block.0 block.1 block.2 c v block_same size_is) [
    | inl none_found ↦ inl (loop_no_unit send fuel rec fp p net not_empty none_found)
    | inr (after, found, ex) ↦ inr (found-Round after found ex)
  ]
    where
      size_is : block.2 ≡ coded
      size_is = omega (
        arith,
        coded-le-size,
        fread-size rec h264_file_buffer fp,
        ap (λ (x : Bytes). length x) front,
        length-append (code_of c.four ++ c.unit) more,
        coded_is,
        ap (λ (x : Bytes). length x) e,
      )
