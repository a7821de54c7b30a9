-- ===== src/Response/Reading.antt =====
-- A client's reading of a response, and that it gets what was put in.
use fz_server.Prelude.{
  ℕ, zero, suc, ◌+◌, ◌-◌, ◌/◌, ◌%◌, ◌≡◌, ◌≢◌, refl, sym, ap, ◌∙◌, inl, inr, true, false, List, [],
  ◌∷◌, ◌++◌, append_assoc, append-nil, Option, none, some, arith, ◌==◌, ltb, if◌then◌else◌, length,
  drop-append, length-append, Bool-cases,
}
use fz_server.Prelude.Int.{ℤ, pos, negsuc}
use fz_server.Memory.{Bytes}
use fz_server.Text.{bytes, equals}
use fz_server.Text.Decimal.{
  show_nat, show_int, scan_digits, scan_int, digits_onto, scan_digits-show_nat, scan_int-show_int,
}
use fz_server.Response.{
  RtspStatusCode, code_number, reason, crlf, lacks_crlf, header_block, generate_rtsp_response,
}

-- What stands behind a fixed text.
unfoldable pub behind : Bytes → Bytes → Option Bytes
behind [] s = some s
behind (p ∷ ps) [] = none
behind (p ∷ ps) (c ∷ cs) = if p == c then behind ps cs else none

behind-append : (p s : Bytes) → behind p (p ++ s) ≡ some s
unfolding behind
behind-append [] s = refl
behind-append (p ∷ ps) s = ground (arith, behind-append ps s)

-- A line, up to the first CR LF, and what follows.
unfoldable pub line : Bytes → Option (Bytes × Bytes)
line [] = none
line (c ∷ cs) = elim (behind crlf (c ∷ cs)) [
  | some rest ↦ some ([], rest)
  | none ↦ elim (line cs) [ none ↦ none | some (l, rest) ↦ some (c ∷ l, rest) ]
]

abbrev pub NoCr : Bytes → Type 0
NoCr [] = Unit {0}
NoCr (c ∷ cs) = (c ≢ 13) × NoCr cs

line-append : (l rest : Bytes) → NoCr l → line (l ++ (crlf ++ rest)) ≡ some (l, rest)
unfolding line behind
line-append [] rest h = refl
line-append (c ∷ l) rest h = ground (arith, line-append l rest h.1)

NoCr-append : (a b : Bytes) → NoCr a → NoCr b → NoCr (a ++ b)
NoCr-append [] b h k = k
NoCr-append (c ∷ a) b h k = (h.0, NoCr-append a b h.1 k)

NoCr-digits_onto : (fuel n : ℕ) (tail : Bytes) → NoCr tail → NoCr (digits_onto fuel n tail)
unfolding digits_onto
NoCr-digits_onto zero n tail h = h
NoCr-digits_onto (suc fuel) n tail h = elim (Bool-cases (ltb n 10)) [
  | inl small ↦ rw small (omega arith, h)
  | inr big ↦ rw big (NoCr-digits_onto fuel (n / 10) ((48 + n % 10) ∷ tail) (omega arith, h))
]

NoCr-show_nat : (n : ℕ) → NoCr (show_nat n)
unfolding show_nat
NoCr-show_nat n = NoCr-digits_onto (suc n) n [] tt

NoCr-show_int : (z : ℤ) → NoCr (show_int z)
unfolding show_int
NoCr-show_int (pos n) = NoCr-show_nat n
NoCr-show_int (negsuc n) = (omega arith, NoCr-show_nat (suc n))

NoCr-reason : (code : RtspStatusCode) → NoCr (reason code)
unfolding reason
NoCr-reason RtspStatusCode.ok = omega arith
NoCr-reason RtspStatusCode.bad_request = omega arith
NoCr-reason RtspStatusCode.unauthorized = omega arith
NoCr-reason RtspStatusCode.not_found = omega arith
NoCr-reason RtspStatusCode.internal_server_error = omega arith
NoCr-reason RtspStatusCode.not_implemented = omega arith
NoCr-reason (RtspStatusCode.other n) = omega arith

-- Header lines, each with its CR LF, and the reading of lines up to the empty one.
abbrev pub join : List Bytes → Bytes
join [] = []
join (l ∷ ls) = l ++ (crlf ++ join ls)

abbrev pub AreLines : List Bytes → Type 0
AreLines [] = Unit {0}
AreLines (l ∷ ls) = NoCr l × (l ≢ []) × AreLines ls

unfoldable pub read_lines : ℕ → Bytes → Option (List Bytes × Bytes)
read_lines zero s = none
read_lines (suc fuel) s = elim (line s) [
  | none ↦ none
  | some ([], rest) ↦ some ([], rest)
  | some (c ∷ l, rest) ↦ elim (read_lines fuel rest) [
    | none ↦ none
    | some (ls, body) ↦ some ((c ∷ l) ∷ ls, body)
  ]
]

module _ (fuel : ℕ) (s rest : Bytes) where
  read_lines-end : line s ≡ some ([], rest) → read_lines (suc fuel) s ≡ some ([], rest)
  unfolding read_lines
  read_lines-end e = rw (e, read_lines)

  read_lines-more :
      (c : ℕ) (l body : Bytes) (ls : List Bytes)
      → line s ≡ some (c ∷ l, rest)
      → read_lines fuel rest ≡ some (ls, body)
      → read_lines (suc fuel) s ≡ some ((c ∷ l) ∷ ls, body)
  unfolding read_lines
  read_lines-more c l body ls e f = rw (e, f, read_lines)

read_lines-join :
    (ls : List Bytes) (body : Bytes)
    → AreLines ls
    → read_lines (suc (length ls)) (join ls ++ (crlf ++ body)) ≡ some (ls, body)
read_lines-join [] body h = read_lines-end _ _ body (line-append [] body tt)
read_lines-join ([] ∷ ls) body h = absurd (h.1 refl)
read_lines-join ((c ∷ l) ∷ ls) body h =
    ap (read_lines (suc (suc (length ls)))) (append_assoc (c ∷ l) (crlf ++ join ls) (crlf ++ body))
    ∙ read_lines-more _ _ (join ls ++ (crlf ++ body)) c l body ls (line-append (c ∷ l) _ h.0)
        (read_lines-join ls body h.2)

-- What a client makes of a response with n header lines: the status, the sequence number, the lines
-- and the body.
unfoldable pub read_response : ℕ → Bytes → Option (ℕ × Option ℤ × List Bytes × Bytes)
read_response n s = elim (behind (bytes "RTSP/1.0 ") s) [
  | none ↦ none
  | some s₁ ↦ elim (line s₁) [
    | none ↦ none
    | some (status, s₂) ↦ elim (behind (bytes "CSeq: ") s₂) [
      | none ↦ none
      | some s₃ ↦ elim (line s₃) [
        | none ↦ none
        | some (number, s₄) ↦ elim (read_lines (suc n) s₄) [
          | none ↦ none
          | some (ls, body) ↦ some (scan_digits 0 status, scan_int number, ls, body)
        ]
      ]
    ]
  ]
]

read_response-steps :
    (n : ℕ) (s s₁ s₂ s₃ s₄ status number body : Bytes) (ls : List Bytes)
    → behind (bytes "RTSP/1.0 ") s ≡ some s₁
    → line s₁ ≡ some (status, s₂)
    → behind (bytes "CSeq: ") s₂ ≡ some s₃
    → line s₃ ≡ some (number, s₄)
    → read_lines (suc n) s₄ ≡ some (ls, body)
    → read_response n s ≡ some (scan_digits 0 status, scan_int number, ls, body)
unfolding read_response
read_response-steps n s s₁ s₂ s₃ s₄ status number body ls a b c d e =
    rw (a, b, c, d, e, read_response)

-- `headers` that already end with CR LF are taken as they are.
join-crlf : (l : Bytes) (ls : List Bytes) → (front : Bytes) × (join (l ∷ ls) ≡ front ++ crlf)
join-crlf l [] = (l, refl)
join-crlf l (k ∷ ls) =
    let (front, e) = join-crlf k ls in
    (l ++ (crlf ++ front), ap (λ s. l ++ (crlf ++ s)) e ∙ sym (append_assoc l (crlf ++ front) crlf))

equals-crlf : equals crlf crlf ≡ true
unfolding equals
equals-crlf = refl

lacks_crlf-append : (front : Bytes) → lacks_crlf (front ++ crlf) ≡ false
unfolding lacks_crlf
lacks_crlf-append front = rw (
  long,
  drop-append (length (front ++ crlf) - 2) front crlf (omega (arith, length-append front crlf)),
  equals-crlf,
)
  where
    long : ltb (length (front ++ crlf)) 2 ≡ false
    long = let e = length-append front crlf in ground (arith, e)

header_block-append : (front : Bytes) → header_block (front ++ crlf) ≡ front ++ crlf
unfolding header_block
header_block-append [] = rw (lacks_crlf-append [])
header_block-append (c ∷ front) = rw (lacks_crlf-append (c ∷ front)) (append-nil _)

header_block-join : (ls : List Bytes) → header_block (join ls) ≡ join ls
header_block-join [] = unfold header_block in refl
header_block-join (l ∷ ls) =
    let (front, e) = join-crlf l ls in ap header_block e ∙ header_block-append front ∙ sym e

-- A client that reads a response of `generateRtspResponse` gets the status, the sequence number,
-- the header lines and the body that were put in, where the header lines have no CR in them, none
-- is empty, and each is given with its CR LF.
pub read_response-generate_rtsp_response :
    (code : RtspStatusCode) (cseq : ℤ) (ls : List Bytes) (body : Bytes)
    → AreLines ls
    → read_response (length ls) (generate_rtsp_response code cseq (join ls) body)
      ≡ some (code_number code, some cseq, ls, body)
unfolding generate_rtsp_response
read_response-generate_rtsp_response code cseq ls body h =
    read_response-steps (length ls) _ _ _ _ _ status (show_int cseq) body ls
      (behind-append (bytes "RTSP/1.0 ") _)
      (ap line (sym (append_assoc (show_nat n) (b' ' ∷ reason code) _))
        ∙ line-append status _
            (NoCr-append (show_nat n) _ (NoCr-show_nat n) (omega arith, NoCr-reason code)))
      (behind-append (bytes "CSeq: ") _) (line-append (show_int cseq) _ (NoCr-show_int cseq))
      (ap (λ b. read_lines (suc (length ls)) (b ++ (crlf ++ body))) (header_block-join ls)
        ∙ read_lines-join ls body h)
    ∙ cc (scan_digits-show_nat n (b' ' ∷ reason code) refl, number)
  where
    n : ℕ
    n = code_number code

    status : Bytes
    status = show_nat n ++ b' ' ∷ reason code

    number : scan_int (show_int cseq) ≡ some cseq
    number = ap scan_int (sym (append-nil (show_int cseq))) ∙ scan_int-show_int cseq [] refl
