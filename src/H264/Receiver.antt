-- ===== src/H264/Receiver.antt =====
-- A receiver after RFC 6184, 5.4, 5.6 and 5.8, that puts a unit together again.
use fz_server.Prelude.{
  ℕ, zero, suc, ◌+◌, ◌-◌, ◌*◌, ◌/◌, ◌%◌, ◌≤◌, ◌<◌, ◌≡◌, ◌≢◌, refl, sym, ap, ap₂, ◌∙◌, Bool, true,
  false, ◌&&◌, bit_and, bit_or, List, [], ◌∷◌, ◌++◌, append_assoc, Option, none, some, arith, ◌==◌,
  leb, lt→ltb, if◌then◌else◌, Bool-cases, inl, inr,
}
use fz_server.Bits.{every_below, every_below-at}
use fz_server.Memory.{Bytes, Memory, slice}
use fz_server.Memory.Slices.{slice-append}
use fz_server.Word.{u8, u16}
use fz_server.Rtp.{RtpHeader, rtp_max_pkt_size}
use fz_server.Rtp.Delivery.{View}
use fz_server.H264.Packets.{seq_after, fragments, packetize}

-- The type of a unit and of a payload stands in the low five bits; 28 is FU-A.
abbrev fu_a : ℕ → Bool
fu_a indicator = indicator % 32 == 28

-- The fragments behind the first one: FU-A with no S bit, under the next sequence number and the same
-- timestamp. The one with the E bit is the last packet.
unfoldable pub collect : ℕ → ℕ → Bytes → List View → Option Bytes
collect seq timestamp got ((h, indicator ∷ header ∷ part) ∷ vs) =
    let more = collect (u16 (seq + 1)) timestamp (got ++ part) vs in
    if h.seq == seq && h.timestamp == timestamp && fu_a indicator && header / 128 == 0
    then (if header / 64 % 2 == 0 then more else some (got ++ part))
    else none
collect _ _ _ _ = none

-- The first fragment has the S bit and not the E bit. The unit's first byte is made of the indicator's
-- high bits and the type in the fragment's header.
unfoldable pub assemble : List View → Option Bytes
unfolding collect
assemble ((h, indicator ∷ header ∷ part) ∷ vs) =
    if fu_a indicator
    then (if header / 128 == 1 && header / 64 % 2 == 0
        then collect (u16 (h.seq + 1)) h.timestamp ((indicator / 32 * 32 + header % 32) ∷ part) vs
        else none)
    else some (indicator ∷ header ∷ part)
assemble ((h, payload) ∷ vs) = some payload
assemble [] = none

-- What the two header bytes of a fragment say, for each choice of flags.
abbrev tells : ℕ → ℕ → ℕ → ℕ → Bool
tells start end flags nalu =
    let header = bit_or (bit_and nalu 0x1F) flags in
    let indicator = bit_or (bit_and nalu 0x60) 28 in
    header / 128 == start
    && header / 64 % 2 == end
    && fu_a indicator
    && indicator / 32 * 32 + header % 32 == nalu % 128

first_table : every_below 256 (tells 1 0 0x80) ≡ true
unfolding every_below
first_table = refl

middle_table : every_below 256 (tells 0 0 0) ≡ true
unfolding every_below
middle_table = refl

last_table : every_below 256 (tells 0 1 0x40) ≡ true
unfolding every_below
last_table = refl

abbrev Tells : ℕ → ℕ → ℕ → ℕ → Type 0
Tells start end flags nalu =
    (bit_or (bit_and nalu 0x1F) flags / 128 ≡ start)
    × (bit_or (bit_and nalu 0x1F) flags / 64 % 2 ≡ end)
    × (bit_or (bit_and nalu 0x60) 28 % 32 ≡ 28)
    × (bit_or (bit_and nalu 0x60) 28 / 32 * 32 + bit_or (bit_and nalu 0x1F) flags % 32 ≡ nalu % 128)

tells-Tells :
    (start end flags nalu : ℕ) → tells start end flags nalu ≡ true → Tells start end flags nalu
tells-Tells start end flags nalu h = ground arith

module _ (h : RtpHeader) (indicator header : ℕ) (part got : Bytes) (vs : List View) where
  collect_last :
      indicator % 32 ≡ 28
      → header / 128 ≡ 0
      → header / 64 % 2 ≡ 1
      → collect h.seq h.timestamp got ((h, indicator ∷ header ∷ part) ∷ vs) ≡ some (got ++ part)
  unfolding collect
  collect_last a s e = ground arith

  collect_more :
      indicator % 32 ≡ 28
      → header / 128 ≡ 0
      → header / 64 % 2 ≡ 0
      → collect h.seq h.timestamp got ((h, indicator ∷ header ∷ part) ∷ vs)
        ≡ collect (u16 (h.seq + 1)) h.timestamp (got ++ part) vs
  unfolding collect
  collect_more a s e = ground arith

  assemble_first :
      indicator % 32 ≡ 28
      → header / 128 ≡ 1
      → header / 64 % 2 ≡ 0
      → assemble ((h, indicator ∷ header ∷ part) ∷ vs)
        ≡ collect (u16 (h.seq + 1)) h.timestamp ((indicator / 32 * 32 + header % 32) ∷ part) vs
  unfolding assemble
  assemble_first a s e = ground arith

slice-round :
    (m : Memory) (pos rounds remain : ℕ)
    → slice m pos (suc rounds * rtp_max_pkt_size + remain)
      ≡ slice m pos rtp_max_pkt_size
        ++ slice m (pos + rtp_max_pkt_size) (rounds * rtp_max_pkt_size + remain)
slice-round m pos rounds remain =
    ap (slice m pos) (omega arith)
    ∙ slice-append m rtp_max_pkt_size (rounds * rtp_max_pkt_size + remain) pos

module _ (nalu : ℕ) (b : nalu < 256) (rec : Memory) where
  first-Tells : Tells 1 0 0x80 nalu
  first-Tells = tells-Tells 1 0 0x80 nalu (every_below-at 256 _ nalu first_table b)

  middle-Tells : Tells 0 0 0 nalu
  middle-Tells = tells-Tells 0 0 0 nalu (every_below-at 256 _ nalu middle_table b)

  last-Tells : Tells 0 1 0x40 nalu
  last-Tells = tells-Tells 0 1 0x40 nalu (every_below-at 256 _ nalu last_table b)

  collect-fragments :
      (rounds : ℕ) (h : RtpHeader) (pos remain : ℕ) (got : Bytes)
      → 0 < rounds + remain
      → collect h.seq h.timestamp got (fragments h nalu rec pos 0 rounds remain)
        ≡ some (got ++ slice rec pos (rounds * rtp_max_pkt_size + remain))
  collect-fragments zero h pos remain got some_left = rw (lt→ltb 0 remain (omega arith)) (
      collect_last h _ _ _ got [] last-Tells.2 last-Tells.0 last-Tells.1
      ∙ ap (λ k. some (got ++ slice rec pos k)) (omega arith))
  collect-fragments (suc rounds) h pos remain got some_left =
      elim (Bool-cases (remain == 0 && rounds == 0)) [
        | inl last ↦ rw last (
            collect_last h _ _ _ got _ last-Tells.2 last-Tells.0 last-Tells.1
            ∙ ap (λ k. some (got ++ slice rec pos k)) (sym (all_read last)))
        | inr more ↦ rw more (
            collect_more h _ _ _ got _ middle-Tells.2 middle-Tells.0 middle-Tells.1
            ∙ collect-fragments rounds (seq_after h) (pos + rtp_max_pkt_size) remain _ (left more)
            ∙ ap some
                (append_assoc got _ _ ∙ ap (◌++◌ got) (sym (slice-round rec pos rounds remain))))
      ]
    where
      all_read :
          (remain == 0 && rounds == 0) ≡ true
          → suc rounds * rtp_max_pkt_size + remain ≡ rtp_max_pkt_size
      all_read last = ground arith

      left : (remain == 0 && rounds == 0) ≡ false → 0 < rounds + remain
      left more = ground arith

  assemble-fragments :
      (rounds : ℕ) (h : RtpHeader) (pos remain : ℕ)
      → remain < rtp_max_pkt_size
      → rtp_max_pkt_size < rounds * rtp_max_pkt_size + remain
      → assemble (fragments h nalu rec pos 0x80 rounds remain)
        ≡ some (nalu % 128 ∷ slice rec pos (rounds * rtp_max_pkt_size + remain))
  assemble-fragments zero h pos remain small big = absurd (omega arith)
  assemble-fragments (suc rounds) h pos remain small big = rw not_last (
      assemble_first h _ _ _ [] _ first-Tells.2 first-Tells.0 first-Tells.1
      ∙ collect-fragments rounds (seq_after h) (pos + rtp_max_pkt_size) remain _ (omega arith)
      ∙ ap some (ap₂ ◌∷◌ first-Tells.3 (sym (slice-round rec pos rounds remain))))
    where
      not_last : (remain == 0 && rounds == 0) ≡ false
      not_last = ground arith

slice-last : (m : Memory) (n : ℕ) → 0 < n → slice m 1 n ≡ slice m 1 (n - 1) ++ m n ∷ []
slice-last m n h =
    ap (slice m 1) (omega arith)
    ∙ slice-append m (n - 1) 1 1
    ∙ ap (λ k. slice m 1 (n - 1) ++ m k ∷ []) (omega arith)

-- A unit of more than 1400 bytes arrives as its first byte, without the forbidden bit, its other bytes,
-- and one byte more: the one that lies behind the unit in the buffer.
pub assemble-packetize_split :
    (h : RtpHeader) (rec : Memory) (n : ℕ)
    → rtp_max_pkt_size < n
    → assemble (packetize h rec n) ≡ some (u8 (rec 0) % 128 ∷ (slice rec 1 (n - 1) ++ rec n ∷ []))
unfolding packetize
assemble-packetize_split h rec n big = rw too_long (
    assemble-fragments (u8 (rec 0)) (omega arith) rec (n / rtp_max_pkt_size) h 1
      (n % rtp_max_pkt_size) (omega arith) (omega arith)
    ∙ ap (λ s. some (u8 (rec 0) % 128 ∷ s))
        (ap (slice rec 1) (omega arith) ∙ slice-last rec n (omega arith)))
  where
    too_long : leb n rtp_max_pkt_size ≡ false
    too_long = ground arith

-- A unit of at most 1400 bytes whose type is not FU-A arrives as it is.
pub assemble-packetize_single :
    (h : RtpHeader) (rec : Memory) (n : ℕ)
    → 0 < n
    → n ≤ rtp_max_pkt_size
    → rec 0 % 32 ≢ 28
    → assemble (packetize h rec n) ≡ some (slice rec 0 n)
unfolding assemble packetize
assemble-packetize_single h rec (suc zero) some_byte small kind = ground arith
assemble-packetize_single h rec (suc (suc n)) some_byte small kind = ground arith
assemble-packetize_single h rec zero some_byte small kind = absurd (omega arith)
