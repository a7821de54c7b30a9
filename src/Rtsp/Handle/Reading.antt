-- ===== src/Rtsp/Handle/Reading.antt =====
-- What the reading of a request over TCP, `parse_tcp`, keeps of its handler.
use fz_server.Prelude.{Bool, true, false, List, [], ◌∷◌, inl, inr, if◌then◌else◌, Option-cases}
use fz_server.Memory.{Bytes}
use fz_server.Text.{bytes, contains, skip_spaces, has_prefix, tokens, c_string}
use fz_server.Text.Decimal.{scan_int}
use fz_server.Session.{set_av_flags}
use fz_server.Rtsp.State.{RtspHandler, Outside}
use fz_server.Rtsp.Request.{
  Parsed, scan_word, scan_literal, scan_request_line, request_line, cseq_line, session_line,
  read_line_tcp, read_lines, parse_tcp, names_method, flag, initial,
}
use fz_server.Rtsp.Build.Setup.{if-cases}

record Has (P : RtspHandler → Type 0) (p : Parsed) : Type 0 where
  has : P p.handler

-- A predicate that survives a new name and a new flag of the connection.
module _ (P : RtspHandler → Type 0)
    (names : (h : RtspHandler) (w : Bytes) → P h → P (record h { session = w }))
    (flags : (h : RtspHandler) (b : Bool)
      → P h
      → P (record h { clients = set_av_flags h.client_fd b h.clients })) where
  scan_request_line-Has : (line : Bytes) (p : Parsed) → Has P p → Has P (scan_request_line line p)
  unfolding scan_request_line
  scan_request_line-Has line p v = elim (Option-cases (scan_word line)) [
    | inl e ↦ rw (e, scan_request_line) (record { has = v.has })
    | inr (w, e) ↦ elim (Option-cases (scan_word w.1)) [
      | inl f ↦ rw (e, f, scan_request_line) (record { has = v.has })
      | inr (u, f) ↦ rw (e, f, scan_request_line) (record { has = v.has })
    ]
  ]

  request_line-Has : (line : Bytes) (p : Parsed) → Has P p → Has P (request_line line p)
  unfolding request_line
  request_line-Has line p v = scan_request_line-Has line _ (
      if-cases (Has P) (contains (bytes "track1") line)
        (λ _. record { has = flags _ true below.has }) (λ _. below))
    where
      below : Has P (if contains (bytes "track0") line then flag false p else p)
      below =
          if-cases (Has P) (contains (bytes "track0") line)
            (λ _. record { has = flags _ false v.has }) (λ _. v)

  cseq_line-Has : (line : Bytes) (p : Parsed) → Has P p → Has P (cseq_line line p)
  unfolding cseq_line
  cseq_line-Has line p v = elim (Option-cases (scan_literal (bytes "CSeq:") line)) [
    | inl e ↦ rw (e, cseq_line) (record { has = v.has })
    | inr (rest, e) ↦ elim (Option-cases (scan_int (skip_spaces rest))) [
      | inl f ↦ rw (e, f, cseq_line) (record { has = v.has })
      | inr (n, f) ↦ rw (e, f, cseq_line) (record { has = v.has })
    ]
  ]

  session_line-Has : (line : Bytes) (p : Parsed) → Has P p → Has P (session_line line p)
  unfolding session_line
  session_line-Has line p v = elim (Option-cases (scan_literal (bytes "Session:") line)) [
    | inl e ↦ rw (e, session_line) (record { has = names _ p.recv_session v.has })
    | inr (rest, e) ↦ elim (Option-cases (scan_word rest)) [
      | inl f ↦ rw (e, f, session_line) (record { has = names _ p.recv_session v.has })
      | inr (w, f) ↦ rw (e, f, session_line) (record { has = names _ w.0 v.has })
    ]
  ]

  read_line_tcp-Has : (line : Bytes) (p : Parsed) → Has P p → Has P (read_line_tcp line p)
  unfolding read_line_tcp
  read_line_tcp-Has line p v =
      if-cases (Has P) (names_method line) (λ _. request_line-Has line p v)
        λ _.
          if-cases (Has P) (contains (bytes "CSeq") line) (λ _. cseq_line-Has line p v)
            λ _.
              if-cases (Has P) (has_prefix (bytes "Transport:") line) (λ _. v)
                λ _.
                  if-cases (Has P) (contains (bytes "Session") line)
                    (λ _. session_line-Has line p v) λ _. v

  read_lines-Has : (ls : List Bytes) (p : Parsed) → Has P p → Has P (read_lines read_line_tcp ls p)
  unfolding read_lines
  read_lines-Has [] p v = v
  read_lines-Has (l ∷ ls) p v = read_lines-Has ls _ (read_line_tcp-Has l p v)

  pub parse_tcp-kept :
      (o : Outside) (buffer : Bytes) (h : RtspHandler) → P h → P (parse_tcp o buffer h).handler
  unfolding parse_tcp
  parse_tcp-kept o buffer h v =
      (read_lines-Has (tokens 10 (c_string buffer)) (initial o h) (record { has = v })).has
