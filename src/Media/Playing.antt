-- ===== src/Media/Playing.antt =====
-- The H.264 loop plays the units of the file one after another, and ends.
use fz_server.Prelude.{
  ℕ, zero, suc, ◌+◌, ◌-◌, ◌≤◌, ◌<◌, ◌≡◌, ◌⊎◌, refl, subst, inl, inr, true, false, none, some, arith,
  ◌==◌, ==_iff, Bool-cases, length, length-drop, min, ltb, take, drop,
}
use fz_server.Prelude.Int.{ℤ, pos}
use fz_server.Memory.{Bytes, Memory, shift, slice}
use fz_server.Net.{Net}
use fz_server.File.{File, fread, next_bytes}
use fz_server.File.Reads.{fread-Freads}
use fz_server.Media.Viewed.{fread-size}
use fz_server.Rtp.{RtpPacket}
use fz_server.Rtp.Packet.{Sent}
use fz_server.H264.Extract.{start_code3, start_code4, extract_content}
use fz_server.H264.Scan.{Extracts, NoUnit, extract_content-cases}
use fz_server.H264.Send.{send_manager, send_manager_tcp}
use fz_server.Media.{
  send_h264_over_tcp, send_h264_over_udp, h264_file_buffer, h264_loop, code_length, after_unit,
  minus_one, Played,
}
use fz_server.Media.Units.{
  IsUnit, h264_packet, opened, buf, fp₁, size, reads, fread-IsUnit, code_length-is,
}

abbrev UnitSender : Type 0
UnitSender = Memory → ℕ → RtpPacket → Net → Sent

-- The block of a file from position `at` on: as many of its bytes as are there and as the buffer takes
-- in one read, at the front of `m`; behind them `m` holds what `rec` held.
pub record IsBlock (content : Bytes) (at : ℕ) (rec m : Memory) (size : ℕ) : Type 0 where
  pub size_is : size ≡ min h264_file_buffer (length (drop at content))
  pub bytes_are : slice m 0 size ≡ take size (drop at content)
  pub rest_kept : (i : ℕ) → size ≤ i → m i ≡ rec i

-- The unit of `n` bytes, its start code of `step` bytes included, that the block `m` starts with.
pub record Finds (content : Bytes) (at : ℕ) (rec m : Memory) (step n : ℕ) : Type 0 where
  pub size : ℕ
  pub block : IsBlock content at rec m size
  pub code_is : ((step ≡ 3) × (start_code3 m ≡ true)) ⊎ ((step ≡ 4) × (start_code4 m ≡ true))
  pub unit : IsUnit content at step n (shift m step)
  pub in_block : n ≤ size

-- What playing a file from position `at` on means, in terms of its bytes, where the loop's buffer holds
-- `rec`. The block that is read stays in the buffer for the next round.
pub data Plays (send : UnitSender) (content : Bytes)
    : ℕ → Memory → RtpPacket → Net → Net × ℤ → Type 0 where
  ends :
      {at : ℕ} {rec : Memory} {p : RtpPacket} {net : Net}
      → length content ≤ at
      → Plays send content at rec p net (net, pos 0)
  no_unit :
      {at : ℕ} {rec : Memory} {p : RtpPacket} {net : Net} (m : Memory) (size : ℕ)
      → at < length content
      → IsBlock content at rec m size
      → NoUnit m size
      → Plays send content at rec p net (net, minus_one)
  refused :
      {at : ℕ} {rec : Memory} {p q : RtpPacket} {net net' : Net} (step n : ℕ) (m : Memory)
      → Finds content at rec m step n
      → send (shift m step) (n - step) p net ≡ (q, net', none)
      → Plays send content at rec p net (net', minus_one)
  taken :
      {at : ℕ} {rec : Memory} {p q : RtpPacket} {net net' : Net} {r : Net × ℤ} (step n k : ℕ)
      (m : Memory)
      → Finds content at rec m step n
      → send (shift m step) (n - step) p net ≡ (q, net', some k)
      → Plays send content (at + n) m q net' r
      → Plays send content at rec p net r

unit_pos : (content : Bytes) (at step n : ℕ) (m : Memory) → IsUnit content at step n m → 3 ≤ n
unit_pos content at step n m u = elim u.step_is [
  | inl e ↦ omega (arith, u.step_le)
  | inr e ↦ omega (arith, u.step_le)
]

≤→ltb_false : (i n : ℕ) → n ≤ i → ltb i n ≡ false
≤→ltb_false i n h = ground arith

not_at_end :
    (rec : Memory) (fp : File)
    → ((fread rec h264_file_buffer fp).2 == 0) ≡ false
    → fp.pos < length fp.content
not_at_end rec fp more =
    omega (arith, fread-size rec h264_file_buffer fp, length-drop fp.pos fp.content, some_byte)
  where
    some_byte : 0 < (fread rec h264_file_buffer fp).2
    some_byte = ground (arith, more)

fread-IsBlock :
    (rec : Memory) (fp : File)
    → IsBlock fp.content fp.pos rec
        (fread rec h264_file_buffer fp).0
        (fread rec h264_file_buffer fp).2
unfolding fread
fread-IsBlock rec fp = record {
  size_is = fread-size rec h264_file_buffer fp;
  bytes_are = (fread-Freads rec h264_file_buffer fp).bytes_are _ (omega arith);
  rest_kept = λ i far. rw (≤→ltb_false i (length (next_bytes fp h264_file_buffer)) far) refl;
}

fread-Finds :
    (rec : Memory) (fp : File) (room : fp.pos ≤ length fp.content) (n : ℕ) (after : File)
    → Extracts (buf rec fp room) (fp₁ rec fp room) (size rec fp room) n after
    → Finds fp.content fp.pos rec (buf rec fp room) (code_length (buf rec fp room)) n
fread-Finds rec fp room n after ex = record {
  size = size rec fp room;
  block = fread-IsBlock rec fp;
  code_is = rw (code_length-is (buf rec fp room) ex.step_is) ex.step_is;
  unit = (fread-IsUnit rec fp room n after ex).0;
  in_block = ex.within;
}

module _ (send : UnitSender) where
  abbrev PlaysAll : Bytes → ℕ → Memory → RtpPacket → Net → Played → Type 0
  PlaysAll content at rec p net played =
      (r : Net × ℤ) × (played ≡ some r) × Plays send content at rec p net r

  -- Behind a unit: the send, and the rest of the file.
  after_unit-Plays :
      (content : Bytes) (at step n : ℕ) (rec m : Memory) (p : RtpPacket) (net : Net) (s : Sent)
      (next : RtpPacket → Net → Played)
      → Finds content at rec m step n
      → send (shift m step) (n - step) p net ≡ s
      → ((q : RtpPacket) (net' : Net) → PlaysAll content (at + n) m q net' (next q net'))
      → PlaysAll content at rec p net (after_unit send s next)
  unfolding after_unit
  after_unit-Plays content at step n rec m p net (q, net', none) next u e later =
      ((net', minus_one), refl, refused step n m u e)
  after_unit-Plays content at step n rec m p net (q, net', some k) next u e later =
      let (r, played, rest) = later q net' in (r, played, taken step n k m u e rest)

  module _ (fuel : ℕ) (rec : Memory) (fp : File) (p : RtpPacket) (net : Net) where
    pub loop_at_end :
        ((fread rec h264_file_buffer fp).2 == 0) ≡ true
        → h264_loop send (suc fuel) rec fp p net ≡ some (net, pos 0)
    unfolding h264_loop
    loop_at_end e = rw (e, h264_loop)

    pub loop_no_unit :
        let (m, fp', size) = fread rec h264_file_buffer fp in
        (size == 0) ≡ false
        → extract_content m fp' size ≡ none
        → h264_loop send (suc fuel) rec fp p net ≡ some (net, minus_one)
    unfolding h264_loop
    loop_no_unit e f = rw (e, f, h264_loop)

    pub loop_unit :
        {n : ℕ} {after : File}
        → let (m, fp', size) = fread rec h264_file_buffer fp in
          (size == 0) ≡ false
          → extract_content m fp' size ≡ some (n, after)
          → h264_loop send (suc fuel) rec fp p net
            ≡ after_unit send
                (send (shift m (code_length m)) (n - code_length m) p net)
                (λ q net'. h264_loop send fuel m after q net')
    unfolding h264_loop
    loop_unit e f = rw (e, f, h264_loop)

  h264_loop-Plays :
      (fuel : ℕ) (rec : Memory) (fp : File) (p : RtpPacket) (net : Net)
      → fp.pos ≤ length fp.content
      → length fp.content - fp.pos < fuel
      → PlaysAll fp.content fp.pos rec p net (h264_loop send fuel rec fp p net)
  h264_loop-Plays zero rec fp p net room enough = absurd (omega arith)
  h264_loop-Plays (suc fuel) rec fp p net room enough = elim (Bool-cases (size rec fp room == 0)) [
    | inl end ↦
        rw (loop_at_end fuel rec fp p net end)
          ((net, pos 0), refl, ends ((reads rec fp room).at_end (omega arith) ((==_iff _ _).0 end)))
    | inr more ↦
        elim (extract_content-cases (buf rec fp room) (fp₁ rec fp room) (size rec fp room)) [
          | inl (e, why) ↦ rw (loop_no_unit fuel rec fp p net more e) (
            (net, minus_one),
            refl,
            no_unit (buf rec fp room) (size rec fp room) (not_at_end rec fp more)
                (fread-IsBlock rec fp) why,
          )
          | inr (n, after, e, ex) ↦
              let (unit, kept, moved) = fread-IsUnit rec fp room n after ex in
              let long = unit_pos fp.content fp.pos _ n _ unit in
              let room' : after.pos ≤ length after.content =
                rw kept (omega (arith, moved, unit.in_file)) in
              let less : length after.content - after.pos < fuel =
                rw kept (omega (arith, moved, unit.in_file, long)) in
              rw (loop_unit fuel rec fp p net more e) (
                after_unit-Plays fp.content fp.pos _ n rec (buf rec fp room) p net _ _
                  (fread-Finds rec fp room n after ex) refl
                  λ q net'.
                    subst
                      (λ c.
                        PlaysAll c (fp.pos + n) (buf rec fp room) q net'
                          (h264_loop send fuel (buf rec fp room) after q net'))
                      kept
                      (subst
                        (λ k.
                          PlaysAll after.content k (buf rec fp room) q net'
                            (h264_loop send fuel (buf rec fp room) after q net'))
                        moved (h264_loop-Plays fuel (buf rec fp room) after q net' room' less)))
        ]
  ]

-- With more fuel than the file has bytes, `sendH264OverTcp` on an opened file returns, and plays
-- the file from its start: unit follows unit with no byte between them skipped or read twice,
-- each is handed to `sendManagerTcp` without its start code, the result is 0 only at the end of
-- the file, and -1 where no unit is found or a packet is refused.
pub send_h264_over_tcp-Plays :
    (fuel : ℕ) (fd : ℤ) (content : Bytes) (rec : Memory) (p : RtpPacket) (net : Net)
    → length content < fuel
    → (r : Net × ℤ) × (send_h264_over_tcp fuel fd (some (opened content)) rec p net ≡ some r)
      × Plays (send_manager_tcp fd) content 0 rec (h264_packet p) net r
unfolding send_h264_over_tcp
send_h264_over_tcp-Plays fuel fd content rec p net enough =
    h264_loop-Plays (send_manager_tcp fd) fuel rec (opened content) (h264_packet p) net
      (omega arith) (omega arith)

-- With more fuel than the file has bytes, `sendH264OverUdp` on an opened file returns, and plays
-- the file from its start: unit follows unit with no byte between them skipped or read twice,
-- each is handed to `sendManager` without its start code, the result is 0 only at the end of the
-- file, and -1 where no unit is found or a packet is refused.
pub send_h264_over_udp-Plays :
    (fuel : ℕ) (sockfd : ℤ) (ip : Bytes) (port : ℤ) (content : Bytes) (rec : Memory) (p : RtpPacket)
    (net : Net)
    → length content < fuel
    → (r : Net × ℤ) × (send_h264_over_udp fuel sockfd ip port (some (opened content)) rec p net
        ≡ some r)
      × Plays (λ m n. send_manager sockfd m n ip port) content 0 rec (h264_packet p) net r
unfolding send_h264_over_udp
send_h264_over_udp-Plays fuel sockfd ip port content rec p net enough =
    h264_loop-Plays (λ m n. send_manager sockfd m n ip port) fuel rec (opened content)
      (h264_packet p) net (omega arith) (omega arith)

-- With more fuel than the file has bytes, `sendH264OverTcp` and `sendH264OverUdp` on an opened
-- file return, and play the file from its start. Each round reads a block: as many bytes from its
-- position on as the file has there and as the buffer takes. Where the block starts with a start
-- code and a unit that another start code follows, the unit is handed to `sendManagerTcp` or
-- `sendManager` without its own start code, and the next round goes on at the start code that
-- follows it. The result is 0 only at the end of the file; it is -1 only before the end, where a
-- packet is refused, or where the block starts with no start code or `extract_content`'s search
-- finds none behind it, in the block and the bytes that the buffer held behind it.
pub send_h264-Plays :
    (fuel : ℕ) (fd : ℤ) (ip : Bytes) (port : ℤ) (content : Bytes) (rec : Memory) (p : RtpPacket)
    (net : Net)
    → length content < fuel
    → ((r : Net × ℤ) × (send_h264_over_tcp fuel fd (some (opened content)) rec p net ≡ some r)
        × Plays (send_manager_tcp fd) content 0 rec (h264_packet p) net r)
      × ((r : Net × ℤ) × (send_h264_over_udp fuel fd ip port (some (opened content)) rec p net
            ≡ some r)
          × Plays (λ m n. send_manager fd m n ip port) content 0 rec (h264_packet p) net r)
send_h264-Plays fuel fd ip port content rec p net enough = (
  send_h264_over_tcp-Plays fuel fd content rec p net enough,
  send_h264_over_udp-Plays fuel fd ip port content rec p net enough,
)
