-- ===== src/Former/Request.antt =====
-- The state of src/rtsp/rtsp_server.cpp, and how `doclient` reads a request.
use fz_server.Prelude.{Bool, List, [], ◌∷◌, Option, none, some, if◌then◌else◌}
use fz_server.Prelude.Int.{ℤ}
use fz_server.Memory.{Bytes, Memory}
use fz_server.Net.{Net}
use fz_server.File.{File}
use fz_server.Text.{bytes, contains, has_prefix, skip_spaces, tokens, c_string}
use fz_server.Text.Decimal.{scan_int, take_int}
use fz_server.Rtp.{RtpPacket}
use fz_server.Rtsp.Request.{scan_word, scan_literal, names_method}

-- The locals that the lines of a request fill.
pub record Request : Type 0 where
  pub method : Bytes
  pub url : Bytes
  pub cseq : ℤ
  pub client_rtp_port : ℤ
  pub client_rtcp_port : ℤ

-- What one call of `doclient` finds outside: the peer's address, what `recv` delivers, the clock, the
-- answers of `socket` and `bind`, the media file, and storage that is read before it is assigned.
pub record Surroundings : Type 0 where
  pub peer : Option Bytes
  pub received : Option Bytes
  pub now : ℤ
  pub sockets : ℤ × ℤ
  pub binds : Bool × Bool
  pub file : Option File
  pub stale : Request
  pub stale_ip : Bytes
  pub rec : Memory
  pub rtp_packet : RtpPacket

-- The two global sockets, and what was handed to the kernel.
pub record FormerState : Type 0 where
  pub server_rtp_sockfd : ℤ
  pub server_rtcp_sockfd : ℤ
  pub net : Net

-- `sscanf(line, "%s %s %s\r\n", method, url, version)`.
unfoldable pub scan_method_line : Bytes → Request → Request
unfolding scan_word
scan_method_line line r = elim (scan_word line) [
  | none ↦ r
  | some (method, rest) ↦ elim (scan_word rest) [
    | none ↦ record r { method = method }
    | some (url, rest') ↦ record r { method = method; url = url }
  ]
]

-- `sscanf(line, "CSeq:%d\r\n", &CSeq)`.
unfoldable pub scan_cseq_line : Bytes → Request → Request
unfolding scan_literal skip_spaces scan_int
scan_cseq_line line r = elim (scan_literal (bytes "CSeq:") line) [
  | none ↦ r
  | some rest ↦ elim (scan_int (skip_spaces rest)) [ none ↦ r | some n ↦ record r { cseq = n } ]
]

-- `sscanf(line, "Transport: RTP/AVP/UDP;unicast;client_port=%d-%d\r\n", …)`.
unfoldable pub scan_transport_line : Bytes → Request → Request
unfolding scan_literal skip_spaces scan_int take_int
scan_transport_line line r = elim (scan_literal (bytes "Transport:") line) [
  | none ↦ r
  | some rest ↦ elim (scan_literal (bytes "RTP/AVP/UDP;unicast;client_port=") (skip_spaces rest)) [
    | none ↦ r
    | some ports ↦ elim (take_int (skip_spaces ports)) [
      | none ↦ r
      | some (rtp, rest₁) ↦ elim (scan_literal (bytes "-") rest₁) [
        | none ↦ record r { client_rtp_port = rtp }
        | some rest₂ ↦ elim (scan_int (skip_spaces rest₂)) [
          | none ↦ record r { client_rtp_port = rtp }
          | some rtcp ↦ record r { client_rtp_port = rtp; client_rtcp_port = rtcp }
        ]
      ]
    ]
  ]
]

unfoldable pub scan_line : Bytes → Request → Request
unfolding scan_method_line scan_cseq_line scan_transport_line contains has_prefix
scan_line line r =
    if names_method line
    then scan_method_line line r
    else if contains (bytes "CSeq") line
    then scan_cseq_line line r
    else if has_prefix (bytes "Transport:") line
    then scan_transport_line line r
    else r

unfoldable pub scan_lines : List Bytes → Request → Request
unfolding scan_line
scan_lines [] r = r
scan_lines (line ∷ lines) r = scan_lines lines (scan_line line r)

unfoldable pub read_request : Surroundings → Bytes → Request
unfolding scan_lines tokens c_string
read_request o buffer = scan_lines (tokens 10 (c_string buffer)) o.stale
