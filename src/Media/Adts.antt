-- ===== src/Media/Adts.antt =====
-- A file that is a sequence of ADTS frames, and what src/container/aac/adts.h and the reads of
-- src/handler/rtsp/rtsp_handler.cpp find in it.
use fz_server.Prelude.{
  ℕ, ◌+◌, ◌-◌, ◌<◌, ◌≡◌, refl, sym, ap, ◌∙◌, subst, inl, inr, List, [], ◌∷◌, ◌++◌, map, Option,
  none, some, arith, ◌==◌, if◌then◌else◌, Bool-cases, length, take, drop, drop-append, take-append,
  take-long, length-append,
}
use fz_server.Memory.{Bytes, Memory, shift, slice, fill}
use fz_server.Net.{Net, Frame}
use fz_server.Word.{u32}
use fz_server.File.{File, fread}
use fz_server.File.Reads.{slice-fill}
use fz_server.Rtp.Framing.{read_frame}
use fz_server.Aac.{AdtsHeader, header_fields, parse_adts_header}
use fz_server.Aac.Frame.{read_au}
use fz_server.Media.{aac_payload}
use fz_server.Media.Units.{drop-drop, slice-tail}

-- A frame of ADTS: seven bytes of header, the CRC if there is one, and the audio data.
pub record AdtsFrame : Type 0 where
  pub header : Bytes
  pub crc : Bytes
  pub payload : Bytes

abbrev pub adts_bytes : AdtsFrame → Bytes
adts_bytes f = f.header ++ (f.crc ++ f.payload)

abbrev pub stream_of : List AdtsFrame → Bytes
stream_of [] = []
stream_of (f ∷ fs) = adts_bytes f ++ stream_of fs

abbrev pub zeros : Memory
zeros i = 0

-- A header that the parser takes, and that tells the length of the frame and whether there is a CRC.
pub record IsAdts (f : AdtsFrame) : Type 0 where
  pub parsed : AdtsHeader
  pub header_long : length f.header ≡ 7
  pub parses : parse_adts_header (fill zeros f.header) ≡ some parsed
  pub size_is : parsed.aac_frame_length ≡ 7 + (length f.crc + length f.payload)
  pub crc_is : length f.crc ≡ (if parsed.protection_absent == 0 then 2 else 0)
  pub some_bytes : 0 < length f.payload
  pub small : parsed.aac_frame_length < 8192

abbrev pub AreAdts : List AdtsFrame → Type 0
AreAdts [] = Unit {0}
AreAdts (f ∷ fs) = IsAdts f × AreAdts fs

abbrev pub payloads : List AdtsFrame → List Bytes
payloads [] = []
payloads (f ∷ fs) = f.payload ∷ payloads fs

-- What all the CRCs take.
abbrev pub crc_bytes : List AdtsFrame → ℕ
crc_bytes [] = 0
crc_bytes (f ∷ fs) = length f.crc + crc_bytes fs

-- A client's reader: the frame of RTP, and in it the access unit.
unfoldable pub hear : Frame → Option Bytes
unfolding read_frame read_au
hear f = elim (read_frame f) [ none ↦ none | some (h, unit) ↦ read_au unit ]

-- Between two states of the sockets the kernel was handed frames in which a client hears the texts.
pub record Hears (texts : List Bytes) (net net' : Net) : Type 0 where
  pub handed : List Frame
  pub sent_is : net'.sent ≡ net.sent ++ handed
  pub heard : map hear handed ≡ map some texts

-- The parser looks at seven bytes.
pub parse_adts_header-fill :
    (m m' : Memory) (h : Bytes)
    → length h ≡ 7
    → parse_adts_header (fill m h) ≡ parse_adts_header (fill m' h)
unfolding parse_adts_header header_fields
parse_adts_header-fill m m' (a ∷ b ∷ c ∷ d ∷ e ∷ f ∷ g ∷ []) long = refl
parse_adts_header-fill m m' _ long = absurd (omega arith)

-- A read of bytes that are there.
pub fread-front :
    (buf : Memory) (fp : File) (n : ℕ) (xs ys : Bytes)
    → drop fp.pos fp.content ≡ xs ++ ys
    → length xs ≡ n
    → fread buf n fp ≡ (fill buf xs, record fp { pos = fp.pos + n }, n)
unfolding fread
fread-front buf fp n xs ys e long =
    let got : take n (drop fp.pos fp.content) ≡ xs =
      ap (take n) e ∙ subst (λ k. take k (xs ++ ys) ≡ xs) long (take-append xs ys) in
    rw (got, long) refl

pub rest-front :
    (content : Bytes) (at n : ℕ) (xs ys : Bytes)
    → drop at content ≡ xs ++ ys
    → length xs ≡ n
    → drop (at + n) content ≡ ys
rest-front content at n xs ys e long =
    sym (drop-drop n at content) ∙ ap (drop n) e ∙ drop-append n xs ys long

-- The frame that is sent is the audio data, without the CRC.
pub aac_payload-is :
    (f : AdtsFrame) (v : IsAdts f) (head : Memory)
    → let (frame, n) =
        aac_payload v.parsed (fill head (f.crc ++ f.payload)) (length (f.crc ++ f.payload)) in
      (n ≡ length f.payload) × (slice frame 0 n ≡ f.payload)
unfolding aac_payload
aac_payload-is f v head = elim (Bool-cases (v.parsed.protection_absent == 0)) [
  | inl crc ↦
      let two : length f.crc ≡ 2 = v.crc_is ∙ rw crc refl in
      let k : u32 (length (f.crc ++ f.payload) + 4294967294) ≡ length f.payload =
        omega (arith, two, length-append f.crc f.payload, v.size_is, v.small) in
      rw crc (
        k,
        ap (slice (shift body 2) 0) (k ∙ omega (arith, two, length-append f.crc f.payload))
            ∙ slice-tail body 2 (length xs) xs (omega (arith, two, length-append f.crc f.payload))
                whole
            ∙ ap (take (length xs - 2)) (drop-append 2 f.crc f.payload two)
            ∙ take-long (length xs - 2) f.payload
                (omega (arith, two, length-append f.crc f.payload)),
      )
  | inr plain ↦
      let none_is : length f.crc ≡ 0 = v.crc_is ∙ rw plain refl in
      let only : f.crc ++ f.payload ≡ f.payload =
        ap (λ c. c ++ f.payload) (no_bytes f.crc none_is) in
      rw plain
        (ap (λ (c : Bytes). length c) only, whole ∙ take-long (length xs) xs (omega arith) ∙ only)
]
  where
    xs : Bytes
    xs = f.crc ++ f.payload

    body : Memory
    body = fill head xs

    whole : slice body 0 (length xs) ≡ take (length xs) xs
    whole = slice-fill head xs (length xs) (omega arith)

    no_bytes : (c : Bytes) → length c ≡ 0 → c ≡ []
    no_bytes [] e = refl
    no_bytes (b ∷ bs) e = absurd (omega arith)
