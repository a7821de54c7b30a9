-- ===== src/Rtsp/Request/Lines.antt =====
-- Requests as lines: what `strtok` in src/handler/rtsp/rtsp_handler.cpp makes of a printed request.
use fz_server.Prelude.{
  ℕ, ◌≡◌, refl, ap, ◌∙◌, Bool, true, false, not, ◌&&◌, List, [], ◌∷◌, ◌++◌, arith, ◌==◌,
}
use fz_server.Prelude.Int.{ℤ}
use fz_server.Memory.{Bytes}
use fz_server.Text.{bytes, is_empty, tokens}
use fz_server.Text.Decimal.{show_int}
use fz_server.Text.Scan.{
  every, every-append, every-weaken, every-show_int, c_string-every, tokens-line,
}
use fz_server.Rtsp.State.{RtspHandler, Outside}
use fz_server.Rtsp.Request.{Parsed, read_line_tcp, read_lines, initial, parse_tcp}
use fz_server.Rtsp.Request.Printed.{
  word_byte, IsWord, name_byte, IsName, first_line, cseq_text, session_text, transport_text,
  print_lines,
}

-- Lines without a line feed or a byte 0, none of them empty.
abbrev pub line_byte : ℕ → Bool
line_byte c = not (c == 10) && not (c == 0)

abbrev pub AreTexts : List Bytes → Type 0
AreTexts [] = Unit {0}
AreTexts (l ∷ ls) = (every line_byte l ≡ true) × (is_empty l ≡ false) × AreTexts ls

print_lines-no_zero :
    (ls : List Bytes) → AreTexts ls → every (λ c. not (c == 0)) (print_lines ls) ≡ true
unfolding every
print_lines-no_zero [] v = refl
print_lines-no_zero (l ∷ ls) (h, e, v) =
    every-append (λ c. not (c == 0)) l (10 ∷ print_lines ls)
      (every-weaken line_byte (λ c. not (c == 0)) l (λ c k. ground (arith, k)) h)
      (print_lines-no_zero ls v)

tokens-print_lines :
    (ls : List Bytes) → AreTexts ls → tokens 10 (print_lines ls) ≡ ls ++ (13 ∷ []) ∷ []
unfolding every tokens
tokens-print_lines [] v = refl
tokens-print_lines (l ∷ ls) (h, e, v) =
    tokens-line 10 l (print_lines ls)
      (every-weaken line_byte (λ c. not (c == 10)) l (λ c k. ground (arith, k)) h) e
    ∙ ap (◌∷◌ l) (tokens-print_lines ls v)

read_lines-append :
    (ls : List Bytes) (p : Parsed)
    → read_lines read_line_tcp (ls ++ (13 ∷ []) ∷ []) p ≡ read_lines read_line_tcp ls p
unfolding read_lines read_line_tcp
read_lines-append [] p = refl
read_lines-append (l ∷ ls) p = read_lines-append ls (read_line_tcp l p)

-- What is printed as lines is read line by line.
pub parse_tcp-print_lines :
    (o : Outside) (ls : List Bytes) (h : RtspHandler)
    → AreTexts ls
    → parse_tcp o (print_lines ls) h ≡ read_lines read_line_tcp ls (initial o h)
unfolding parse_tcp
parse_tcp-print_lines o ls h v =
    ap (λ s. read_lines read_line_tcp (tokens 10 s) (initial o h))
      (c_string-every (print_lines ls) (print_lines-no_zero ls v))
    ∙ ap (λ x. read_lines read_line_tcp x (initial o h)) (tokens-print_lines ls v)
    ∙ read_lines-append ls (initial o h)

word-line : (w : Bytes) → every word_byte w ≡ true → every line_byte w ≡ true
word-line w h = every-weaken word_byte line_byte w (λ c k. ground (arith, k)) h

pub first_line-text :
    (method url : Bytes)
    → IsWord method
    → IsWord url
    → every line_byte (first_line method url) ≡ true
unfolding every
first_line-text method url (m, e) (u, f) =
    every-append line_byte method (b' ' ∷ (url ++ bytes " RTSP/1.0\r")) (word-line method m)
      (every-append line_byte url (bytes " RTSP/1.0\r") (word-line url u) refl)

pub first_line-some :
    (method url : Bytes) → IsWord method → is_empty (first_line method url) ≡ false
first_line-some [] url (m, e) = absurd (cc e)
first_line-some (c ∷ method) url v = refl

pub cseq_text-text : (n : ℤ) → every line_byte (cseq_text n) ≡ true
unfolding every
cseq_text-text n = every-append line_byte (bytes "CSeq: ") (show_int n ++ 13 ∷ []) refl (
    every-append line_byte (show_int n) (13 ∷ [])
      (every-show_int line_byte n (λ d h. ground arith) refl) refl)

pub session_text-text : (id : Bytes) → IsName id → every line_byte (session_text id) ≡ true
unfolding every
session_text-text id (h, e) = every-append line_byte (bytes "Session: ") (id ++ 13 ∷ []) refl (
    every-append line_byte id (13 ∷ [])
      (every-weaken name_byte line_byte id (λ c k. ground (arith, k)) h) refl)

pub transport_text-text : every line_byte transport_text ≡ true
unfolding every
transport_text-text = refl
