-- ===== src/H264/Received.antt =====
-- From the code to the receiver: what a unit looks like where all its packets were taken.
use fz_server.Prelude.{
  ℕ, ◌-◌, ◌%◌, ◌≤◌, ◌<◌, ◌≡◌, ◌≢◌, refl, sym, ◌∙◌, List, [], ◌∷◌, ◌++◌, append_assoc, append-nil,
  Option, none, some, arith, leb, if◌then◌else◌, Bool-cases, inl, inr,
}
use fz_server.Prelude.Int.{ℤ}
use fz_server.Memory.{Bytes, Memory, slice}
use fz_server.Net.{Net, Frame}
use fz_server.Word.{u8}
use fz_server.Rtp.{RtpPacket, IsRtpHeader, rtp_max_pkt_size}
use fz_server.Rtp.Framing.{read_frame}
use fz_server.Rtp.Delivery.{View, Delivers, done, refused, taken}
use fz_server.H264.Receiver.{assemble, assemble-packetize_split, assemble-packetize_single}
use fz_server.H264.Send.{send_manager, send_manager_tcp}
use fz_server.H264.Manager.{send_manager-Delivers, send_manager_tcp-Delivers}

-- A receiver of frames: each is read as a packet, and the packets are put together.
unfoldable pub views : List Frame → Option (List View)
unfolding read_frame
views [] = some []
views (f ∷ fs) = elim (read_frame f) [
  | none ↦ none
  | some v ↦ elim (views fs) [ none ↦ none | some vs ↦ some (v ∷ vs) ]
]

unfoldable pub receive : List Frame → Option Bytes
unfolding views assemble
receive fs = elim (views fs) [ none ↦ none | some vs ↦ assemble vs ]

-- `Carries before after unit`: the frames handed over in between give the receiver this unit.
abbrev pub Carries : Net → Net → Bytes → Type 0
Carries before after unit =
    (fs : List Frame) × (after.sent ≡ before.sent ++ fs) × (receive fs ≡ some unit)

Delivers-views :
    {vs : List View} {total : ℕ} {net after : Net} {r : Option ℕ} (m : ℕ)
    → Delivers vs total net after r
    → r ≡ some m
    → (fs : List Frame) × (after.sent ≡ net.sent ++ fs) × (views fs ≡ some vs)
unfolding views
Delivers-views {net = net} m done e = ([], sym (append-nil net.sent), refl)
Delivers-views m (refused f seen refusal) e = absurd (cc e)
Delivers-views {net = net} m (taken f n seen answer later) e =
    let (fs, sent, read) = Delivers-views m later e in
    (f ∷ fs, sent ∙ append_assoc net.sent (f ∷ []) fs, rw (seen, read, views) refl)

pub Delivers-Carries :
    {vs : List View} {total : ℕ} {net after : Net} {r : Option ℕ} {unit : Bytes} (m : ℕ)
    → Delivers vs total net after r
    → r ≡ some m
    → assemble vs ≡ some unit
    → Carries net after unit
unfolding receive
Delivers-Carries m d e whole =
    let (fs, sent, read) = Delivers-views m d e in (fs, sent, rw (read, receive) whole)

-- The n bytes at `rec`, the first one without its high bit, and the byte behind them.
abbrev pub with_one_more : Memory → ℕ → Bytes
with_one_more rec n = u8 (rec 0) % 128 ∷ (slice rec 1 (n - 1) ++ rec n ∷ [])

-- What a receiver gets of the unit of n bytes at `rec`.
abbrev pub unit_received : Memory → ℕ → Bytes
unit_received rec n = if leb n rtp_max_pkt_size then slice rec 0 n else with_one_more rec n

module _ (rec : Memory) (n : ℕ) (p : RtpPacket) (net : Net) (m : ℕ) (v : IsRtpHeader p.header) where
  -- Where `sendManager` has returned a byte count for a unit of more than 1400 bytes, and the
  -- fields of the packet's header fit their widths, a receiver of RFC 6184 gets from the
  -- datagrams handed over the unit's first byte without its high bit, the unit's other bytes in
  -- order, and one byte more: the one that lies behind the unit in the buffer.
  pub receive-send_manager_split :
      (sockfd : ℤ) (ip : Bytes) (port : ℤ)
      → rtp_max_pkt_size < n
      → (send_manager sockfd rec n ip port p net).2 ≡ some m
      → Carries net (send_manager sockfd rec n ip port p net).1 (with_one_more rec n)
  receive-send_manager_split sockfd ip port big ok =
      Delivers-Carries m (send_manager-Delivers sockfd rec n ip port p net v) ok
        (assemble-packetize_split p.header rec n big)

  -- Where `sendManagerTcp` has returned a byte count for a unit of more than 1400 bytes, and the
  -- fields of the packet's header fit their widths, a receiver of RFC 6184 gets from the
  -- interleaved frames handed over the unit's first byte without its high bit, the unit's other
  -- bytes in order, and one byte more: the one that lies behind the unit in the buffer.
  pub receive-send_manager_tcp_split :
      (fd : ℤ)
      → rtp_max_pkt_size < n
      → (send_manager_tcp fd rec n p net).2 ≡ some m
      → Carries net (send_manager_tcp fd rec n p net).1 (with_one_more rec n)
  receive-send_manager_tcp_split fd big ok =
      Delivers-Carries m (send_manager_tcp-Delivers fd rec n p net v) ok
        (assemble-packetize_split p.header rec n big)

  -- Where `sendManager` has returned a byte count for a unit of 1 to 1400 bytes that is not of
  -- type 28, and the fields of the packet's header fit their widths, a receiver of RFC 6184 gets
  -- from the datagrams handed over exactly the unit.
  pub receive-send_manager_single :
      (sockfd : ℤ) (ip : Bytes) (port : ℤ)
      → 0 < n
      → n ≤ rtp_max_pkt_size
      → rec 0 % 32 ≢ 28
      → (send_manager sockfd rec n ip port p net).2 ≡ some m
      → Carries net (send_manager sockfd rec n ip port p net).1 (slice rec 0 n)
  receive-send_manager_single sockfd ip port some_byte small kind ok =
      Delivers-Carries m (send_manager-Delivers sockfd rec n ip port p net v) ok
        (assemble-packetize_single p.header rec n some_byte small kind)

  -- Where `sendManagerTcp` has returned a byte count for a unit of 1 to 1400 bytes that is not of
  -- type 28, and the fields of the packet's header fit their widths, a receiver of RFC 6184 gets
  -- from the interleaved frames handed over exactly the unit.
  pub receive-send_manager_tcp_single :
      (fd : ℤ)
      → 0 < n
      → n ≤ rtp_max_pkt_size
      → rec 0 % 32 ≢ 28
      → (send_manager_tcp fd rec n p net).2 ≡ some m
      → Carries net (send_manager_tcp fd rec n p net).1 (slice rec 0 n)
  receive-send_manager_tcp_single fd some_byte small kind ok =
      Delivers-Carries m (send_manager_tcp-Delivers fd rec n p net v) ok
        (assemble-packetize_single p.header rec n some_byte small kind)

  -- Where `sendManager` has returned a byte count for a unit of at least one byte, which is not
  -- of type 28 if it has at most 1400 bytes, and the fields of the packet's header fit their
  -- widths, a receiver of RFC 6184 gets from the datagrams handed over exactly the unit, if it
  -- has at most 1400 bytes; else the unit's first byte without its high bit, the unit's other
  -- bytes in order, and one byte more: the one that lies behind the unit in the buffer.
  pub receive-send_manager :
      (sockfd : ℤ) (ip : Bytes) (port : ℤ)
      → 0 < n
      → (n ≤ rtp_max_pkt_size → rec 0 % 32 ≢ 28)
      → (send_manager sockfd rec n ip port p net).2 ≡ some m
      → Carries net (send_manager sockfd rec n ip port p net).1 (unit_received rec n)
  receive-send_manager sockfd ip port some_byte kind ok =
      elim (Bool-cases (leb n rtp_max_pkt_size)) [
        | inl small ↦
            let le : n ≤ rtp_max_pkt_size = ground arith in
            rw small (receive-send_manager_single sockfd ip port some_byte le (kind le) ok)
        | inr big ↦ rw big (receive-send_manager_split sockfd ip port (ground arith) ok)
      ]

  -- Where `sendManagerTcp` has returned a byte count for a unit of at least one byte, which is
  -- not of type 28 if it has at most 1400 bytes, and the fields of the packet's header fit their
  -- widths, a receiver of RFC 6184 gets from the interleaved frames handed over exactly the unit,
  -- if it has at most 1400 bytes; else the unit's first byte without its high bit, the unit's
  -- other bytes in order, and one byte more: the one that lies behind the unit in the buffer.
  pub receive-send_manager_tcp :
      (fd : ℤ)
      → 0 < n
      → (n ≤ rtp_max_pkt_size → rec 0 % 32 ≢ 28)
      → (send_manager_tcp fd rec n p net).2 ≡ some m
      → Carries net (send_manager_tcp fd rec n p net).1 (unit_received rec n)
  receive-send_manager_tcp fd some_byte kind ok = elim (Bool-cases (leb n rtp_max_pkt_size)) [
    | inl small ↦
        let le : n ≤ rtp_max_pkt_size = ground arith in
        rw small (receive-send_manager_tcp_single fd some_byte le (kind le) ok)
    | inr big ↦ rw big (receive-send_manager_tcp_split fd (ground arith) ok)
  ]
