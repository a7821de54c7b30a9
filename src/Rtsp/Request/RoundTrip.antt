-- ===== src/Rtsp/Request/RoundTrip.antt =====
-- A request that a client prints is read as what was printed, by `interact_rtsp_tcp` of
-- src/handler/rtsp/rtsp_handler.cpp.
use fz_server.Prelude.{
  ◌≡◌, ◌<◌, length, refl, ap, ◌∙◌, true, false, [], ◌∷◌, if◌then◌else◌, Bool-cases, inl, inr,
}
use fz_server.Prelude.Int.{ℤ, pos, negsuc}
use fz_server.Memory.{Bytes}
use fz_server.Text.{bytes, contains}
use fz_server.Session.{ClientFdManager, set_av_flags}
use fz_server.Rtsp.State.{RtspHandler, Outside}
use fz_server.Rtsp.Request.{Parsed, names_method, read_line_tcp, read_lines, initial, parse_tcp}
use fz_server.Rtsp.Request.Printed.{
  IsWord, IsName, first_line, cseq_text, session_text, transport_text, print_lines,
  read_line_tcp-first, read_line_tcp-cseq, read_line_tcp-session, read_line_tcp-transport,
  setup-IsWord,
}
use fz_server.Rtsp.Request.Lines.{
  parse_tcp-print_lines, first_line-text, first_line-some, cseq_text-text, session_text-text,
  transport_text-text,
}

-- The flag that the first line sets, if it names a track.
abbrev pub flags_behind : Bytes → ℤ → ClientFdManager → ClientFdManager
flags_behind line fd c =
    let c₁ = if contains (bytes "track0") line then set_av_flags fd false c else c in
    if contains (bytes "track1") line then set_av_flags fd true c₁ else c₁

first_line-Parsed :
    (method url : Bytes) (p : Parsed)
    → IsWord method
    → IsWord url
    → names_method method ≡ true
    → read_line_tcp (first_line method url) p ≡ record p {
      method = method;
      url = url;
      handler = record (p.handler) {
        clients = flags_behind (first_line method url) p.handler.client_fd p.handler.clients;
      };
    }
first_line-Parsed method url p m u known =
    read_line_tcp-first method url p m u known
    ∙ elim (Bool-cases (contains (bytes "track0") line)) [
      | inl a ↦ elim (Bool-cases (contains (bytes "track1") line)) [
        | inl b ↦ rw (a, b) refl
        | inr b ↦ rw (a, b) refl
      ]
      | inr a ↦ elim (Bool-cases (contains (bytes "track1") line)) [
        | inl b ↦ rw (a, b) refl
        | inr b ↦ rw (a, b) refl
      ]
    ]
  where
    line : Bytes
    line = first_line method url

-- A request in a session, and a SETUP.
abbrev pub session_request : Bytes → Bytes → ℤ → Bytes → Bytes
session_request method url n id =
    print_lines (first_line method url ∷ cseq_text n ∷ session_text id ∷ [])

abbrev pub setup_request : Bytes → ℤ → Bytes
setup_request url n =
    print_lines (first_line (bytes "SETUP") url ∷ cseq_text n ∷ transport_text ∷ [])

-- What the loop makes of the locals and the handler.
abbrev pub read_as : Bytes → Bytes → ℤ → Bytes → Outside → Bytes → RtspHandler → Parsed
read_as method url n recv o session h = record {
  method = method;
  url = url;
  cseq = n;
  client_rtp_port = negsuc 0;
  client_rtcp_port = negsuc 0;
  recv_session = recv;
  handler = record h {
    clients = flags_behind (first_line method url) h.client_fd h.clients;
    session = session;
  };
}

-- The two texts are read back, whatever their lengths are.
pub parse_tcp-print_lines_any :
    (o : Outside) (method url id : Bytes) (n : ℤ) (h : RtspHandler)
    → IsWord method
    → IsWord url
    → names_method method ≡ true
    → IsName id
    → (parse_tcp o (session_request method url n id) h ≡ read_as method url n id o id h)
      × (parse_tcp o (setup_request url n) h
          ≡ read_as (bytes "SETUP") url n o.stale_session o h.session h)
unfolding read_lines contains
parse_tcp-print_lines_any o method url id n h m u known v = (
  parse_tcp-print_lines o (first_line method url ∷ cseq_text n ∷ session_text id ∷ []) h (
    first_line-text method url m u,
    first_line-some method url m,
    (cseq_text-text n, refl, (session_text-text id v, refl, tt)),
  )
      ∙ ap (λ p. read_line_tcp (session_text id) (read_line_tcp (cseq_text n) p))
          (first_line-Parsed method url (initial o h) m u known)
      ∙ ap (read_line_tcp (session_text id)) (read_line_tcp-cseq n _)
      ∙ read_line_tcp-session id _ v,
  parse_tcp-print_lines o (first_line (bytes "SETUP") url ∷ cseq_text n ∷ transport_text ∷ []) h (
    first_line-text (bytes "SETUP") url setup-IsWord u,
    refl,
    (cseq_text-text n, refl, (transport_text-text, refl, tt)),
  )
      ∙ ap (λ p. read_line_tcp transport_text (read_line_tcp (cseq_text n) p))
          (first_line-Parsed (bytes "SETUP") url (initial o h) setup-IsWord u refl)
      ∙ ap (read_line_tcp transport_text) (read_line_tcp-cseq n _)
      ∙ read_line_tcp-transport _,
)

-- A number that an int holds.
abbrev pub IsInt : ℤ → Type 0
IsInt (pos k) = k < 2147483648
IsInt (negsuc k) = k < 2147483648

-- What the arrays `method`, `url` and `recv_session` hold, each with its byte 0, and the int `CSeq`.
pub record IsStorable (method url id : Bytes) (n : ℤ) : Type 0 where
  pub method_fits : length method < 40
  pub url_fits : length url < 100
  pub id_fits : length id < 40
  pub number : IsInt n

-- A request that is printed as a first line of a method and a URL that are words, a line with a
-- sequence number, and a line with a session's name of digits, small letters and `-`, where these
-- fit the arrays of 40, 100 and 40 bytes and the int that `sscanf` stores them in, is read by
-- `interact_rtsp_tcp` as that method, URL, number and name, and a SETUP that is printed with a
-- Transport line in place of the session is read as that URL and number; the handler's track flag
-- is set as the first line names a track, and nothing else of it but the session's name changes.
pub parse_tcp-print_lines_both :
    (o : Outside) (method url id : Bytes) (n : ℤ) (h : RtspHandler)
    → IsWord method
    → IsWord url
    → names_method method ≡ true
    → IsName id
    → IsStorable method url id n
    → (parse_tcp o (session_request method url n id) h ≡ read_as method url n id o id h)
      × (parse_tcp o (setup_request url n) h
          ≡ read_as (bytes "SETUP") url n o.stale_session o h.session h)
parse_tcp-print_lines_both o method url id n h m u known v fits =
    parse_tcp-print_lines_any o method url id n h m u known v
