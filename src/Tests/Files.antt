-- ===== src/Tests/Files.antt =====
-- The media files on concrete inputs.
use fz_server.Prelude.{
  ℕ, zero, suc, ◌+◌, ◌<◌, List, ◌++◌, true, false, ◌%◌, ◌≡◌, ◌≢◌, refl, ◌⊎◌, [], ◌∷◌, none, some,
  arith, get_or,
}
use fz_server.Prelude.Int.{ℤ, pos}
use fz_server.Memory.{Bytes, Memory}
use fz_server.Net.{Net}
use fz_server.File.{File}
use fz_server.H264.Send.{send_manager, send_manager_tcp}
use fz_server.H264.Extract.{extract_content}
use fz_server.H264.Scan.{extract_content-cases, NoUnit, Extracts}
use fz_server.Media.{
  send_h264_over_tcp, send_h264_over_udp, send_aac_over_tcp, send_aac_over_udp, crashed, returned,
}
use fz_server.Media.Units.{opened, h264_packet}
use fz_server.Media.Playing.{Plays, send_h264-Plays}
use fz_server.Media.Adts.{AdtsFrame, AreAdts, Hears, stream_of}
use fz_server.Media.Heard.{send_aac_over_tcp-Hears}
use fz_server.Media.AnnexB.{CodedUnit, IsNal, byte_stream, byte_at}
use fz_server.Media.Watched.{Sees, send_h264_over_tcp-Sees}
use fz_server.Media.Frames.{CrashCause, send_aac_over_tcp-CrashCause}
use fz_server.Aac.{AdtsHeader, parse_adts_header}
use fz_server.Aac.Header.{IsBytes, field, Reads, parse_adts_header-Reads}
use fz_server.Tests.{packet, net, willing, client}

-- Two units, and a start code behind which nothing follows.
abbrev stream_264 : Bytes
stream_264 = 0 ∷ 0 ∷ 0 ∷ 1 ∷ 0x67 ∷ 9 ∷ 0 ∷ 0 ∷ 1 ∷ 0x65 ∷ 7 ∷ 7 ∷ 7 ∷ 0 ∷ 0 ∷ 0 ∷ 1 ∷ 0x41 ∷ []

-- What malloc gave.
abbrev pub storage : Memory
storage i = 0xCD

abbrev loaded : Memory
loaded i = get_or stream_264 i 0xCD

extract_content-cases_example :
    ((extract_content loaded (record { content = stream_264; pos = 18 }) 18 ≡ none)
      × NoUnit loaded 18)
    ⊎ ((n : ℕ) × (after : File) × (extract_content loaded
            (record { content = stream_264; pos = 18 })
            18
          ≡ some (n, after))
        × Extracts loaded (record { content = stream_264; pos = 18 }) 18 n after)
extract_content-cases_example =
    extract_content-cases loaded (record { content = stream_264; pos = 18 }) 18

-- The first unit is the start code and two bytes.
first_unit :
    extract_content loaded (record { content = stream_264; pos = 18 }) 18
    ≡ some (6, record { content = stream_264; pos = 6 })
unfolding extract_content
first_unit = refl

-- A frame of nine bytes, and the first bytes of one that is cut off.
abbrev stream_aac : Bytes
stream_aac = 0xFF ∷ 0xF1 ∷ 0x50 ∷ 0x80 ∷ 0x01 ∷ 0x3F ∷ 0xFC ∷ 1 ∷ 2 ∷ 0xFF ∷ 0xF1 ∷ 0x50 ∷ []

send_aac_over_tcp-CrashCause_example :
    (((net' : Net) × (send_aac_over_tcp 13 (pos 5) (some (opened stream_aac)) storage packet net
          ≡ returned net' (pos 0)))
      ⊎ ((net' : Net) × (send_aac_over_tcp 13 (pos 5) (some (opened stream_aac)) storage packet net
            ≡ crashed net')
          × CrashCause stream_aac))
    × (((net' : Net) × (send_aac_over_udp 13
              (pos 5)
              client
              (pos 5004)
              (some (opened stream_aac))
              storage
              packet
              net
            ≡ returned net' (pos 0)))
        ⊎ ((net' : Net) × (send_aac_over_udp 13
                (pos 5)
                client
                (pos 5004)
                (some (opened stream_aac))
                storage
                packet
                net
              ≡ crashed net')
            × CrashCause stream_aac))
send_aac_over_tcp-CrashCause_example =
    send_aac_over_tcp-CrashCause 13 (pos 5) client (pos 5004) stream_aac storage packet net
      (omega arith)

abbrev adts : Memory
adts i = get_or stream_aac i 0 % 256

adts-IsBytes : IsBytes adts
adts-IsBytes i = omega arith

parse_adts_header-Reads_example :
    ((field adts 0 12 ≢ 0xFFF) × (parse_adts_header adts ≡ none))
    ⊎ ((h : AdtsHeader) × (field adts 0 12 ≡ 0xFFF)
        × (parse_adts_header adts ≡ some h)
        × Reads adts h
        × (h.syncword ≡ 0)
        × (h.copyright_identification_start ≡ field adts 31 1))
parse_adts_header-Reads_example = parse_adts_header-Reads adts adts-IsBytes

-- A frame without a CRC, and one with a CRC.
abbrev plain_frame : AdtsFrame
plain_frame = record {
  header = 0xFF ∷ 0xF1 ∷ 0x50 ∷ 0x80 ∷ 0x01 ∷ 0x3F ∷ 0xFC ∷ [];
  crc = [];
  payload = 1 ∷ 2 ∷ [];
}

abbrev checked_frame : AdtsFrame
checked_frame = record {
  header = 0xFF ∷ 0xF0 ∷ 0x50 ∷ 0x80 ∷ 0x01 ∷ 0x7F ∷ 0xFC ∷ [];
  crc = 0xAB ∷ 0xCD ∷ [];
  payload = 3 ∷ 4 ∷ [];
}

frames-AreAdts : AreAdts (plain_frame ∷ checked_frame ∷ [])
unfolding parse_adts_header
frames-AreAdts = (
  record {
    parsed = _;
    header_long = refl;
    parses = refl;
    size_is = refl;
    crc_is = refl;
    some_bytes = omega arith;
    small = omega arith;
  },
  (
    record {
      parsed = _;
      header_long = refl;
      parses = refl;
      size_is = refl;
      crc_is = refl;
      some_bytes = omega arith;
      small = omega arith;
    },
    tt,
  ),
)

send_aac_over_tcp-Hears_example :
    ((net' : Net) × (send_aac_over_tcp 3
          (pos 5)
          (some (opened (stream_of (plain_frame ∷ checked_frame ∷ []))))
          storage
          packet
          net
        ≡ crashed net')
      × Hears ((1 ∷ 2 ∷ []) ∷ (3 ∷ 4 ∷ []) ∷ []) net net')
    × ((net' : Net) × (send_aac_over_udp 3
            (pos 5)
            client
            (pos 5004)
            (some (opened (stream_of (plain_frame ∷ checked_frame ∷ []))))
            storage
            packet
            net
          ≡ crashed net')
        × Hears ((1 ∷ 2 ∷ []) ∷ (3 ∷ 4 ∷ []) ∷ []) net net')
send_aac_over_tcp-Hears_example =
    send_aac_over_tcp-Hears (plain_frame ∷ checked_frame ∷ []) 3 (pos 5) client (pos 5004) storage
      packet net frames-AreAdts (omega arith) (omega arith)

-- Three units, the last one behind a start code of three bytes.
abbrev coded_units : List CodedUnit
coded_units =
    (record { four = true; unit = 0x67 ∷ 9 ∷ [] })
    ∷ (record { four = false; unit = 0x68 ∷ 7 ∷ 0 ∷ 3 ∷ [] })
    ∷ []

abbrev last_unit : CodedUnit
last_unit = record { four = false; unit = 0x65 ∷ 8 ∷ [] }

pair-IsNal : (x y : ℕ) → x < 28 + 100 → x % 32 ≢ 28 → y ≢ 0 → IsNal (x ∷ y ∷ [])
pair-IsNal x y small kind end = record {
  some_byte = omega arith;
  clean = λ j lt. absurd (omega arith);
  last = end;
  first = omega arith;
  kind = kind;
  short = omega arith;
}

four-IsNal : IsNal (0x68 ∷ 7 ∷ 0 ∷ 3 ∷ [])
four-IsNal = record {
  some_byte = omega arith;
  clean = clean;
  last = λ h. absurd (omega (arith, h));
  first = omega arith;
  kind = λ h. absurd (omega (arith, h));
  short = omega arith;
}
  where
    clean :
        (j : ℕ)
        → j + 2 < 4
        → byte_at (0x68 ∷ 7 ∷ 0 ∷ 3 ∷ []) j ≡ 0
        → byte_at (0x68 ∷ 7 ∷ 0 ∷ 3 ∷ []) (j + 1) ≡ 0
        → 1 < byte_at (0x68 ∷ 7 ∷ 0 ∷ 3 ∷ []) (j + 2)
    clean zero lt a b = absurd (omega (arith, a))
    clean (suc zero) lt a b = absurd (omega (arith, a))
    clean (suc (suc j)) lt a b = absurd (omega arith)

send_h264_over_tcp-Sees_example :
    Sees coded_units last_unit willing (
      send_h264_over_tcp 9
        (pos 5)
        (some (opened (byte_stream (coded_units ++ last_unit ∷ []))))
        storage
        packet
        willing)
    × Sees coded_units last_unit willing (
        send_h264_over_udp 9
          (pos 5)
          client
          (pos 5004)
          (some (opened (byte_stream (coded_units ++ last_unit ∷ []))))
          storage
          packet
          willing)
send_h264_over_tcp-Sees_example =
    send_h264_over_tcp-Sees coded_units last_unit 9 (pos 5) client (pos 5004) storage packet willing
      (
        pair-IsNal 0x67 9 (omega arith) (λ h. absurd (omega (arith, h)))
            (λ h. absurd (omega (arith, h))),
        (four-IsNal, tt),
      )
      (pair-IsNal 0x65 8 (omega arith) (λ h. absurd (omega (arith, h)))
        (λ h. absurd (omega (arith, h))))
      (omega arith) (λ i. (100, refl))

send_h264-Plays_example :
    ((r : Net × ℤ) × (send_h264_over_tcp 20 (pos 5) (some (opened stream_264)) storage packet net
        ≡ some r)
      × Plays (send_manager_tcp (pos 5)) stream_264 0 storage (h264_packet packet) net r)
    × ((r : Net × ℤ) × (send_h264_over_udp 20
            (pos 5)
            client
            (pos 5004)
            (some (opened stream_264))
            storage
            packet
            net
          ≡ some r)
        × Plays
            (λ m n. send_manager (pos 5) m n client (pos 5004))
            stream_264
            0
            storage
            (h264_packet packet)
            net
            r)
send_h264-Plays_example =
    send_h264-Plays 20 (pos 5) client (pos 5004) stream_264 storage packet net (omega arith)
