-- ===== src/Rtsp/Request/Printed.antt =====
-- Requests as a client prints them, and what the line loops of src/handler/rtsp/rtsp_handler.cpp read of them.
use fz_server.Prelude.{
  ℕ, ◌≡◌, refl, Bool, true, false, not, ◌&&◌, ◌||◌, List, [], ◌∷◌, ◌++◌, some, arith, ◌==◌, leb,
  if◌then◌else◌,
}
use fz_server.Prelude.Int.{ℤ}
use fz_server.Memory.{Bytes}
use fz_server.Text.{bytes, contains, span, is_space, is_empty, skip_spaces}
use fz_server.Text.Decimal.{show_int, scan_int, scan_int-show_int}
use fz_server.Text.Scan.{
  every, every-append, every-weaken, every-show_int, stops, span-append, contains-every,
  contains-append,
}
use fz_server.Rtsp.Request.{
  Parsed, scan_word, scan_request_line, request_line, cseq_line, session_line, names_method, flag,
  read_line_tcp,
}

-- A word: no byte of it is a space or 0, and it has one at least.
abbrev pub word_byte : ℕ → Bool
word_byte c = not (is_space c) && not (c == 0)

abbrev pub IsWord : Bytes → Type 0
IsWord w = (every word_byte w ≡ true) × (is_empty w ≡ false)

abbrev pub first_line : Bytes → Bytes → Bytes
first_line method url = method ++ (b' ' ∷ (url ++ bytes " RTSP/1.0\r"))

abbrev pub cseq_text : ℤ → Bytes
cseq_text n = bytes "CSeq: " ++ (show_int n ++ 13 ∷ [])

abbrev pub session_text : Bytes → Bytes
session_text id = bytes "Session: " ++ (id ++ 13 ∷ [])

abbrev pub transport_text : Bytes
transport_text = bytes "Transport: RTP/AVP/TCP;unicast;interleaved=0-1\r"

-- The lines of a request, each with its line feed, and an empty one.
abbrev pub print_lines : List Bytes → Bytes
print_lines [] = 13 ∷ 10 ∷ []
print_lines (l ∷ ls) = l ++ 10 ∷ print_lines ls

-- The words are scanned.
skip_spaces-word : (w rest : Bytes) → IsWord w → skip_spaces (w ++ rest) ≡ w ++ rest
unfolding skip_spaces span every
skip_spaces-word [] rest (h, e) = absurd (cc e)
skip_spaces-word (c ∷ w) rest (h, e) =
    let no_space : is_space c ≡ false = ground (arith, h) in rw (no_space, skip_spaces) refl

skip_spaces-space : (s : Bytes) → skip_spaces (b' ' ∷ s) ≡ skip_spaces s
unfolding skip_spaces span
skip_spaces-space s = refl

scan_word-word :
    (w rest : Bytes)
    → IsWord w
    → stops (λ c. not (is_space c)) rest ≡ true
    → scan_word (w ++ rest) ≡ some (w, rest)
unfolding scan_word
scan_word-word w rest (h, e) end =
    let words : every (λ c. not (is_space c)) w ≡ true =
      every-weaken word_byte (λ c. not (is_space c)) w (λ c k. ground (arith, k)) h in
    rw (skip_spaces-word w rest (h, e), span-append (λ c. not (is_space c)) w rest words end, e)
      refl

scan_word-space : (s : Bytes) → scan_word (b' ' ∷ s) ≡ scan_word s
unfolding scan_word
scan_word-space s = rw (skip_spaces-space s) refl

scan_request_line-first_line :
    (method url : Bytes) (p : Parsed)
    → IsWord method
    → IsWord url
    → scan_request_line (first_line method url) p ≡ record p { method = method; url = url }
unfolding scan_request_line
scan_request_line-first_line method url p m u =
    rw
      (
        scan_word-word method (b' ' ∷ (url ++ bytes " RTSP/1.0\r")) m refl,
        scan_word-space (url ++ bytes " RTSP/1.0\r"),
        scan_word-word url (bytes " RTSP/1.0\r") u refl,
        scan_request_line,
      )
      refl

-- The bytes of a name of a session, and of a number.
abbrev pub name_byte : ℕ → Bool
name_byte c = (leb b'0' c && leb c b'9') || (leb b'a' c && leb c b'z') || c == b'-'

abbrev pub IsName : Bytes → Type 0
IsName id = (every name_byte id ≡ true) × (is_empty id ≡ false)

-- A line without D, O, P and T names no method.
small_byte : ℕ → Bool
small_byte c = not (c == b'D') && not (c == b'O') && not (c == b'P') && not (c == b'T')

names_method-small : (line : Bytes) → every small_byte line ≡ true → names_method line ≡ false
unfolding every small_byte
names_method-small line h = ground (
  arith,
  contains-every small_byte (bytes "OPTIONS") line h refl,
  contains-every small_byte (bytes "DESCRIBE") line h refl,
  contains-every small_byte (bytes "SETUP") line h refl,
  contains-every small_byte (bytes "PLAY") line h refl,
  contains-every small_byte (bytes "PAUSE") line h refl,
  contains-every small_byte (bytes "TEARDOWN") line h refl,
)

names_method-append : (m rest : Bytes) → names_method m ≡ true → names_method (m ++ rest) ≡ true
names_method-append m rest h = ground (
  arith,
  h,
  contains-append (bytes "OPTIONS") m rest,
  contains-append (bytes "DESCRIBE") m rest,
  contains-append (bytes "SETUP") m rest,
  contains-append (bytes "PLAY") m rest,
  contains-append (bytes "PAUSE") m rest,
  contains-append (bytes "TEARDOWN") m rest,
)

-- Each line in its round.
pub read_line_tcp-first :
    (method url : Bytes) (p : Parsed)
    → IsWord method
    → IsWord url
    → names_method method ≡ true
    → read_line_tcp (first_line method url) p
      ≡ record (if contains (bytes "track1") (first_line method url)
          then flag true
              (if contains (bytes "track0") (first_line method url) then flag false p else p)
          else (if contains (bytes "track0") (first_line method url) then flag false p else p)) {
            method = method;
            url = url;
          }
unfolding read_line_tcp request_line
read_line_tcp-first method url p m u known =
    rw (names_method-append method (b' ' ∷ (url ++ bytes " RTSP/1.0\r")) known, read_line_tcp)
      (scan_request_line-first_line method url _ m u)

small_int : (n : ℤ) → every small_byte (show_int n) ≡ true
unfolding small_byte
small_int n = every-show_int small_byte n (λ d h. ground arith) refl

is_empty-show_int : (n : ℤ) → is_empty (show_int n) ≡ false
unfolding scan_int
is_empty-show_int n = go (show_int n) (scan_int-show_int n [] refl)
  where
    go : (s : Bytes) → scan_int (s ++ []) ≡ some n → is_empty s ≡ false
    go [] e = absurd (cc e)
    go (c ∷ s) e = refl

scan_int-spaced : (n : ℤ) → scan_int (skip_spaces (b' ' ∷ (show_int n ++ 13 ∷ []))) ≡ some n
scan_int-spaced n =
    rw (skip_spaces-space (show_int n ++ 13 ∷ []), skip_spaces-word (show_int n) (13 ∷ []) word)
      (scan_int-show_int n (13 ∷ []) refl)
  where
    word : IsWord (show_int n)
    word = (every-show_int word_byte n (λ d h. ground arith) refl, is_empty-show_int n)

cseq_line-text : (n : ℤ) (p : Parsed) → cseq_line (cseq_text n) p ≡ record p { cseq = n }
unfolding cseq_line
cseq_line-text n p = rw (scan_int-spaced n, cseq_line) refl

pub read_line_tcp-cseq :
    (n : ℤ) (p : Parsed) → read_line_tcp (cseq_text n) p ≡ record p { cseq = n }
unfolding read_line_tcp small_byte every
read_line_tcp-cseq n p = rw (no_method, read_line_tcp) (cseq_line-text n p)
  where
    no_method : names_method (cseq_text n) ≡ false
    no_method = names_method-small (cseq_text n) (
        every-append small_byte (bytes "CSeq: ") (show_int n ++ 13 ∷ []) refl
          (every-append small_byte (show_int n) (13 ∷ []) (small_int n) refl))

session_line-text :
    (id : Bytes) (p : Parsed)
    → IsName id
    → session_line (session_text id) p
      ≡ record p { recv_session = id; handler = record (p.handler) { session = id } }
unfolding session_line
session_line-text id p (h, e) =
    rw
      (
        scan_word-space (id ++ 13 ∷ []),
        scan_word-word id (13 ∷ [])
            (every-weaken name_byte word_byte id (λ c k. ground (arith, k)) h, e) refl,
        session_line,
      )
      refl

pub read_line_tcp-session :
    (id : Bytes) (p : Parsed)
    → IsName id
    → read_line_tcp (session_text id) p
      ≡ record p { recv_session = id; handler = record (p.handler) { session = id } }
unfolding read_line_tcp small_byte every
read_line_tcp-session id p (h, e) =
    rw (no_method, no_number, read_line_tcp) (session_line-text id p (h, e))
  where
    all :
        (test : ℕ → Bool)
        → every test (bytes "Session: ") ≡ true
        → test 13 ≡ true
        → ((c : ℕ) → name_byte c ≡ true → test c ≡ true)
        → every test (session_text id) ≡ true
    all test front end imp = every-append test (bytes "Session: ") (id ++ 13 ∷ []) front (
        every-append test id (13 ∷ []) (every-weaken name_byte test id imp h) (ground (arith, end)))

    no_method : names_method (session_text id) ≡ false
    no_method =
        names_method-small (session_text id) (all small_byte refl refl λ c k. ground (arith, k))

    no_number : contains (bytes "CSeq") (session_text id) ≡ false
    no_number =
        contains-every (λ c. not (c == b'C')) (bytes "CSeq") (session_text id)
          (all (λ c. not (c == b'C')) refl refl λ c k. ground (arith, k)) refl

pub read_line_tcp-transport : (p : Parsed) → read_line_tcp transport_text p ≡ p
unfolding read_line_tcp
read_line_tcp-transport p = refl

pub setup-IsWord : IsWord (bytes "SETUP")
unfolding every
setup-IsWord = (refl, refl)

pub play-IsWord : IsWord (bytes "PLAY")
unfolding every
play-IsWord = (refl, refl)
