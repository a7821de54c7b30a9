-- ===== src/Rtsp/Request.antt =====
-- The `while (line)` loops of `interact_rtsp` and `interact_rtsp_tcp`.
pub mod Printed
pub mod Lines
pub mod RoundTrip
use fz_server.Prelude.{
  Bool, true, false, not, ◌||◌, List, [], ◌∷◌, Option, none, some, ◌==◌, if◌then◌else◌,
}
use fz_server.Prelude.Int.{ℤ, negsuc}
use fz_server.Memory.{Bytes}
use fz_server.Text.{
  bytes, contains, has_prefix, span, is_space, is_empty, skip_spaces, tokens, c_string,
}
use fz_server.Text.Decimal.{scan_int, take_int}
use fz_server.Session.{set_av_flags}
use fz_server.Rtsp.State.{RtspHandler, Outside}

-- The locals that the lines fill, and the handler, whose members they change.
pub record Parsed : Type 0 where
  pub method : Bytes
  pub url : Bytes
  pub cseq : ℤ
  pub client_rtp_port : ℤ
  pub client_rtcp_port : ℤ
  pub recv_session : Bytes
  pub handler : RtspHandler

-- `sscanf`'s `%s`: the word behind the spaces, and what follows.
unfoldable pub scan_word : Bytes → Option (Bytes × Bytes)
unfolding skip_spaces span
scan_word s =
    let (word, rest) = span (λ c. not (is_space c)) (skip_spaces s) in
    if is_empty word then none else some (word, rest)

-- A literal of a format, which must stand there.
unfoldable pub scan_literal : Bytes → Bytes → Option Bytes
scan_literal [] s = some s
scan_literal (p ∷ ps) [] = none
scan_literal (p ∷ ps) (c ∷ cs) = if p == c then scan_literal ps cs else none

abbrev pub names_method : Bytes → Bool
names_method line =
    contains (bytes "OPTIONS") line
    || contains (bytes "DESCRIBE") line
    || contains (bytes "SETUP") line
    || contains (bytes "PLAY") line
    || contains (bytes "PAUSE") line
    || contains (bytes "TEARDOWN") line

-- `sscanf(line, "%s %s %s\r\n", method, url, version)`: each word is stored as it is found.
unfoldable pub scan_request_line : Bytes → Parsed → Parsed
unfolding scan_word
scan_request_line line p = elim (scan_word line) [
  | none ↦ p
  | some (method, rest) ↦ elim (scan_word rest) [
    | none ↦ record p { method = method }
    | some (url, rest') ↦ record p { method = method; url = url }
  ]
]

abbrev pub flag : Bool → Parsed → Parsed
flag b p = record p { handler = record h { clients = set_av_flags h.client_fd b h.clients } }
  where
    open p use {handler as h}

unfoldable pub request_line : Bytes → Parsed → Parsed
unfolding scan_request_line contains set_av_flags
request_line line p =
    let p₁ = if contains (bytes "track0") line then flag false p else p in
    let p₂ = if contains (bytes "track1") line then flag true p₁ else p₁ in
    scan_request_line line p₂

-- `sscanf(line, "CSeq:%d\r\n", &CSeq)`.
unfoldable pub cseq_line : Bytes → Parsed → Parsed
unfolding scan_literal skip_spaces scan_int
cseq_line line p = elim (scan_literal (bytes "CSeq:") line) [
  | none ↦ p
  | some rest ↦ elim (scan_int (skip_spaces rest)) [ none ↦ p | some n ↦ record p { cseq = n } ]
]

-- `sscanf(line, "Session: %s\r\n", recv_session)`, and `session_ = recv_session` in any case.
unfoldable pub session_line : Bytes → Parsed → Parsed
unfolding scan_literal scan_word skip_spaces
session_line line p = elim (scan_literal (bytes "Session:") line) [
  | none ↦ keep p.recv_session
  | some rest ↦ elim (scan_word rest) [
    | none ↦ keep p.recv_session
    | some (word, rest') ↦ keep word
  ]
]
  where
    keep : Bytes → Parsed
    keep s = record p { recv_session = s; handler = record h { session = s } }
      where
        open p use {handler as h}

-- One round over TCP. The `sscanf` of a Transport line stores nothing.
unfoldable pub read_line_tcp : Bytes → Parsed → Parsed
unfolding request_line cseq_line session_line has_prefix contains
read_line_tcp line p =
    if names_method line
    then request_line line p
    else if contains (bytes "CSeq") line
    then cseq_line line p
    else if has_prefix (bytes "Transport:") line
    then p
    else if contains (bytes "Session") line
    then session_line line p
    else p

unfoldable pub read_lines : (Bytes → Parsed → Parsed) → List Bytes → Parsed → Parsed
read_lines read [] p = p
read_lines read (line ∷ lines) p = read_lines read lines (read line p)

-- The locals before the loop.
abbrev pub initial : Outside → RtspHandler → Parsed
initial o h = record {
  method = o.stale_method;
  url = o.stale_url;
  cseq = negsuc 0;
  client_rtp_port = negsuc 0;
  client_rtcp_port = negsuc 0;
  recv_session = o.stale_session;
  handler = h;
}

unfoldable pub parse_tcp : Outside → Bytes → RtspHandler → Parsed
unfolding read_lines read_line_tcp tokens c_string
parse_tcp o buffer h = read_lines read_line_tcp (tokens 10 (c_string buffer)) (initial o h)

-- `sscanf(line, "Transport: RTP/AVP/UDP;unicast;client_port=%d-%d\r\n", …)`. A space of a format stands
-- for any number of spaces.
unfoldable pub transport_line : Bytes → Parsed → Parsed
unfolding scan_literal skip_spaces scan_int take_int
transport_line line p = elim (scan_literal (bytes "Transport:") line) [
  | none ↦ p
  | some rest ↦ elim (scan_literal (bytes "RTP/AVP/UDP;unicast;client_port=") (skip_spaces rest)) [
    | none ↦ p
    | some ports ↦ elim (take_int (skip_spaces ports)) [
      | none ↦ p
      | some (rtp, rest₁) ↦ elim (scan_literal (bytes "-") rest₁) [
        | none ↦ record p { client_rtp_port = rtp }
        | some rest₂ ↦ elim (scan_int (skip_spaces rest₂)) [
          | none ↦ record p { client_rtp_port = rtp }
          | some rtcp ↦ record p { client_rtp_port = rtp; client_rtcp_port = rtcp }
        ]
      ]
    ]
  ]
]

-- One round over UDP.
unfoldable pub read_line_udp : Bytes → Parsed → Parsed
unfolding request_line cseq_line transport_line session_line has_prefix contains
read_line_udp line p =
    if names_method line
    then request_line line p
    else if contains (bytes "CSeq") line
    then cseq_line line p
    else if has_prefix (bytes "Transport:") line
    then transport_line line p
    else if contains (bytes "Session") line
    then session_line line p
    else p

unfoldable pub parse_udp : Outside → Bytes → RtspHandler → Parsed
unfolding read_lines read_line_udp tokens c_string
parse_udp o buffer h = read_lines read_line_udp (tokens 10 (c_string buffer)) (initial o h)
