-- ===== src/Rtsp/Handle/Unknown.antt =====
-- A request that names a session which the table does not have: `handleRequest` of
-- src/handler/rtsp/rtsp_handler.cpp, from the text on.
use fz_server.Prelude.{◌≡◌, refl, ap, ◌∙◌, true, false, List, none, some, ◌==◌, Option, inl, inr}
use fz_server.Prelude.Int.{ℤ}
use fz_server.Memory.{Bytes}
use fz_server.Net.{Frame}
use fz_server.Text.{bytes, equals, is_empty}
use fz_server.Session.{get_session}
use fz_server.Rtsp.State.{RtspHandler, Outside}
use fz_server.Rtsp.Build.{Built, play, build_string_tcp}
use fz_server.Rtsp.Build.Setup.{if-cases}
use fz_server.Rtsp.Request.{Parsed, names_method, parse_tcp}
use fz_server.Rtsp.Request.Printed.{IsWord, IsName}
use fz_server.Rtsp.Request.RoundTrip.{
  session_request, read_as, IsStorable, parse_tcp-print_lines_both,
}
use fz_server.Rtsp.Handle.{answer, answered, interact_rtsp_tcp, handle_request}
use fz_server.Rtsp.Handle.Sound.{ℤ-cases}
use fz_server.Rtsp.Handle.Crash.{at_peer, handle_request-unknown_session}

-- The handler is answered with as it is.
abbrev IsAnswered : RtspHandler → Option Built → Type 0
IsAnswered h r = (b : Built) × (r ≡ some b) × (b.handler ≡ h)

play-unknown :
    (cseq : ℤ) (h : RtspHandler)
    → get_session h.session h.sessions ≡ none
    → IsAnswered h (play cseq h)
unfolding play
play-unknown cseq h unknown = rw (unknown, play) (_, refl, refl)

-- Every method but SETUP leaves the handler as it is where the session is unknown.
build_string_tcp-unknown :
    (o : Outside) (method : Bytes) (cseq : ℤ) (url : Bytes) (h : RtspHandler)
    → equals method (bytes "SETUP") ≡ false
    → get_session h.session h.sessions ≡ none
    → IsAnswered h (build_string_tcp o method cseq url h)
unfolding build_string_tcp
build_string_tcp-unknown o method cseq url h other unknown =
    if-cases (IsAnswered h) (equals method (bytes "OPTIONS")) (λ _. (_, refl, refl))
      λ _.
        if-cases (IsAnswered h) (equals method (bytes "DESCRIBE")) (λ _. (_, refl, refl))
          λ _.
            if-cases (IsAnswered h) (equals method (bytes "SETUP")) (λ e. absurd (cc (e, other)))
              λ _.
                if-cases (IsAnswered h) (equals method (bytes "PLAY"))
                  (λ _. play-unknown cseq h unknown)
                  λ _.
                    if-cases (IsAnswered h) (equals method (bytes "PAUSE")) (λ _. (_, refl, refl))
                      λ _.
                        if-cases (IsAnswered h) (equals method (bytes "TEARDOWN"))
                          (λ _. (_, refl, refl)) λ _. (_, refl, refl)

abbrev SameTable : RtspHandler → RtspHandler → Type 0
SameTable h g = (g.session ≡ h.session) × (g.sessions ≡ h.sessions)

answer-SameTable : (cseq : ℤ) (b : Built) → SameTable b.handler (answer cseq b)
unfolding answer
answer-SameTable cseq b = elim (ℤ-cases b.res) [
  | inl (n, e) ↦ rw (e, answer) (refl, refl)
  | inr (n, e) ↦
      rw (e, answer)
        (if-cases (SameTable b.handler) (n == 0) (λ _. (refl, refl))
          λ _. if-cases (SameTable b.handler) (n == 1) (λ _. (refl, refl)) λ _. (refl, refl))
]

interact-of :
    (o : Outside) (buffer : Bytes) (h : RtspHandler) {p : Parsed} {b : Built}
    → parse_tcp o buffer h ≡ p
    → build_string_tcp o p.method p.cseq p.url p.handler ≡ some b
    → interact_rtsp_tcp o buffer h ≡ some (answer p.cseq b)
unfolding interact_rtsp_tcp answered
interact-of o buffer h {p} {b} read built =
    ap (λ (q : Parsed). answered q.cseq (build_string_tcp o q.method q.cseq q.url q.handler)) read
    ∙ ap (answered p.cseq) built

-- A client ends the server by one request: on every text that is printed as a first line of a
-- method, other than SETUP, and a URL, a line with a sequence number, and a line with a session's
-- name that the session table does not have, where the method and the URL are words, the name is
-- of digits, small letters and `-`, and all fit the arrays and the int which store them,
-- `handleRequest` crashes, on any connection and whatever else the shared tables hold.
pub handle_request-unknown_name :
    (o : Outside) (client_fd : ℤ) (client_ip : Bytes) (streamed : List Frame)
    (method url id : Bytes) (n : ℤ) (h : RtspHandler)
    → IsWord method
    → IsWord url
    → names_method method ≡ true
    → equals method (bytes "SETUP") ≡ false
    → IsName id
    → IsStorable method url id n
    → get_session id h.sessions ≡ none
    → handle_request o client_fd client_ip streamed (some (session_request method url n id)) h
      ≡ none
handle_request-unknown_name o client_fd client_ip streamed method url id n h m u known other v fits
      unknown =
    let g = at_peer client_fd client_ip h in
    let read = (parse_tcp-print_lines_both o method url id n g m u known v fits).0 in
    let p = read_as method url n id o id g in
    let (b, built, kept) = build_string_tcp-unknown o method n url p.handler other unknown in
    let (same, table) = answer-SameTable n b in
    let ran : interact_rtsp_tcp o (session_request method url n id) g ≡ some (answer n b) =
      interact-of o (session_request method url n id) g {p = p} read built in
    let named = same ∙ ap (λ (k : RtspHandler). k.session) kept in
    let stored = table ∙ ap (λ (k : RtspHandler). k.sessions) kept in
    handle_request-unknown_session o client_fd client_ip streamed (session_request method url n id)
      h (answer n b) ran (ap is_empty named ∙ v.1) (rw (named, stored) unknown)
