-- ===== src/Former/Serving.antt =====
-- The run of the former server, src/rtsp/rtsp_server.cpp: it ends only where epoll fails.
use fz_server.Prelude.{
  ℕ, ◌≡◌, ◌<◌, refl, sym, ap, ◌∙◌, true, false, ◌&&◌, List, [], ◌∷◌, Option, none, some, arith,
  if◌then◌else◌, length, Bool-cases, Option-cases, inl, inr, ◌⊎◌,
}
use fz_server.Prelude.Int.{ℤ, pos, negsuc, negative, eqb_ℤ}
use fz_server.Memory.{Bytes}
use fz_server.Text.{bytes, equals}
use fz_server.Ini.Values.{to_int}
use fz_server.Map.{int_eq}
use fz_server.Server.Loop.{SocketCalls, is_watched, watch, unwatch}
use fz_server.Server.Watched.{is_watched-watch, is_watched-unwatch}
use fz_server.Media.Units.{opened, h264_packet}
use fz_server.Media.Playing.{send_h264_over_udp-Plays}
use fz_server.Media.{send_h264_over_udp}
use fz_server.Former.Request.{Request, Surroundings, FormerState, read_request}
use fz_server.Former.Client.{Done, play_file, reply_to, answer_with, doclient}
use fz_server.Former.Playing.{net_of, play_units-h264_loop}
use fz_server.Former.Main.{
  Arrival, FormerServer, init_tcp_server, on_arrival, on_arrivals, serve_arrivals, former_main,
}

-- The media file, if it can be opened, has fewer bytes than there is fuel.
abbrev pub IsPlayable : ℕ → Surroundings → Type 0
IsPlayable fuel o =
    (o.file ≡ none)
    ⊎ ((content : Bytes) × (o.file ≡ some (opened content)) × (length content < fuel))

play_file_total :
    (fuel : ℕ) (o : Surroundings) (r : Request) (ip : Bytes) (st : FormerState)
    → IsPlayable fuel o
    → (d : Done) × (play_file fuel o r ip st ≡ some d)
unfolding play_file send_h264_over_udp
play_file_total fuel o r ip st v = elim (Bool-cases (equals r.method (bytes "PLAY"))) [
  | inr other ↦ (record { ret = pos 1; closed = false; state = st }, rw (other, play_file) refl)
  | inl play ↦ elim v [
    | inl gone ↦
        (record { ret = negsuc 0; closed = false; state = st }, rw (play, gone, play_file) refl)
    | inr (content, there, enough) ↦
        let ((net, ret), played, plays) =
          send_h264_over_udp-Plays fuel st.server_rtp_sockfd ip r.client_rtp_port content o.rec
            o.rtp_packet st.net enough in
        let same =
          play_units-h264_loop fuel st.server_rtp_sockfd ip r.client_rtp_port o.rec (opened content)
            (h264_packet o.rtp_packet) st.net
          ∙ ap net_of played in
        (
          record { ret = pos 1; closed = false; state = record st { net = net } },
          rw (play, there, same, play_file) refl,
        )
  ]
]

answer_with_total :
    (fuel : ℕ) (o : Surroundings) (r : Request) (ip : Bytes) (fd : ℤ)
    (reply : Option Bytes × FormerState)
    → IsPlayable fuel o
    → (d : Done) × (answer_with fuel o r ip fd reply ≡ some d)
unfolding answer_with
answer_with_total fuel o r ip fd (none, st) v = (_, refl)
answer_with_total fuel o r ip fd (some text, st) v = play_file_total fuel o r ip _ v

doclient-answered :
    (fuel : ℕ) (o : Surroundings) (fd : ℤ) (st : FormerState) {ip buffer : Bytes} {d : Done}
    → o.peer ≡ some ip
    → o.received ≡ some buffer
    → answer_with fuel o (read_request o buffer) ip fd (reply_to o (read_request o buffer) st)
      ≡ some d
    → doclient fuel o fd st ≡ some d
unfolding doclient
doclient-answered fuel o fd st known came e = rw (known, came, doclient) e

doclient_total :
    (fuel : ℕ) (o : Surroundings) (fd : ℤ) (st : FormerState)
    → IsPlayable fuel o
    → (d : Done) × (doclient fuel o fd st ≡ some d)
unfolding doclient
doclient_total fuel o fd st v = elim (Option-cases o.peer) [
  | inl unknown ↦
      (record { ret = negsuc 0; closed = false; state = st }, rw (unknown, doclient) refl)
  | inr (ip, known) ↦ elim (Option-cases o.received) [
    | inl gone ↦
        (record { ret = negsuc 0; closed = true; state = st }, rw (known, gone, doclient) refl)
    | inr (buffer, came) ↦
        let r = read_request o buffer in
        let (d, e) = answer_with_total fuel o r ip fd (reply_to o r st) v in
        (d, doclient-answered fuel o fd st known came e)
  ]
]

-- No error is reported on the listening socket, and each file is short enough.
abbrev pub AreArrivals : ℕ → ℤ → List Arrival → Type 0
AreArrivals fuel sock [] = Unit {0}
AreArrivals fuel sock (e ∷ es) =
    ((e.broken && eqb_ℤ e.fd sock) ≡ false)
    × IsPlayable fuel e.surroundings
    × AreArrivals fuel sock es

abbrev pub AllArrivals : ℕ → ℤ → List (List Arrival) → Type 0
AllArrivals fuel sock [] = Unit {0}
AllArrivals fuel sock (es ∷ rounds) = AreArrivals fuel sock es × AllArrivals fuel sock rounds

-- The listening socket is watched.
abbrev pub Listens : ℤ → FormerServer → Type 0
Listens sock s = (s.listensock ≡ sock) × (is_watched sock s.watched ≡ true)

on_arrival-Listens :
    (fuel : ℕ) (sock : ℤ) (e : Arrival) (s : FormerServer)
    → (e.broken && eqb_ℤ e.fd sock) ≡ false
    → IsPlayable fuel e.surroundings
    → Listens sock s
    → (s' : FormerServer) × (on_arrival fuel e s ≡ some s') × Listens sock s'
unfolding on_arrival
on_arrival-Listens fuel sock e s healthy v (same, there) = elim (Bool-cases e.broken) [
  | inl broken ↦
      let apart : eqb_ℤ e.fd sock ≡ false = ground (arith, healthy, broken) in
      (
        record s { watched = unwatch e.fd s.watched },
        rw (broken, on_arrival) refl,
        (same, is_watched-unwatch sock e.fd s.watched ∙ ground (arith, apart, there)),
      )
  | inr fine ↦ elim (Bool-cases (eqb_ℤ e.fd s.listensock)) [
    | inl listens ↦ elim (Bool-cases (negative e.accepted)) [
      | inl refused ↦ (s, rw (fine, listens, refused, on_arrival) refl, (same, there))
      | inr got ↦ (
        record s { watched = watch e.accepted s.watched },
        rw (fine, listens, got, on_arrival) refl,
        (same, is_watched-watch sock e.accepted s.watched ∙ ground (arith, there)),
      )
    ]
    | inr client ↦
        let (d, went) = doclient_total fuel e.surroundings e.fd s.globals v in
        let apart : eqb_ℤ e.fd sock ≡ false = ap (eqb_ℤ e.fd) (sym same) ∙ client in
        (
          record s {
            globals = d.state;
            watched = if d.closed then unwatch e.fd s.watched else s.watched;
          },
          rw (fine, client, went, on_arrival) refl,
          (
            same,
            elim (Bool-cases d.closed) [
              | inl closed ↦
                  rw closed (is_watched-unwatch sock e.fd s.watched ∙ ground (arith, apart, there))
              | inr stays ↦ rw stays there
            ],
          ),
        )
  ]
]

on_arrivals-Listens :
    (fuel : ℕ) (sock : ℤ) (es : List Arrival) (s : FormerServer)
    → AreArrivals fuel sock es
    → Listens sock s
    → (s' : FormerServer) × (on_arrivals fuel es s ≡ some s') × Listens sock s'
unfolding on_arrivals
on_arrivals-Listens fuel sock [] s v w = (s, refl, w)
on_arrivals-Listens fuel sock (e ∷ es) s (healthy, playable, vs) w =
    let (s', went, w') = on_arrival-Listens fuel sock e s healthy playable w in
    let (t, ran, u) = on_arrivals-Listens fuel sock es s' vs w' in
    (t, rw (went, on_arrivals) ran, u)

serve_arrivals-Listens :
    (fuel : ℕ) (sock : ℤ) (rounds : List (List Arrival)) (s : FormerServer)
    → AllArrivals fuel sock rounds
    → Listens sock s
    → (s' : FormerServer) × (serve_arrivals fuel rounds s ≡ some (pos 0, s')) × Listens sock s'
unfolding serve_arrivals
serve_arrivals-Listens fuel sock [] s v w = (s, refl, w)
serve_arrivals-Listens fuel sock (es ∷ rounds) s (v, vs) w =
    let (s', went, w') = on_arrivals-Listens fuel sock es s v w in
    let (t, ran, u) = serve_arrivals-Listens fuel sock rounds s' vs w' in
    (t, rw (went, serve_arrivals) ran, u)

-- The former server's `main`, given one argument, where `initTcpServer` gets a socket, no error
-- is reported on that socket, and each client's media file either cannot be opened or has fewer
-- bytes than there is fuel: whatever the clients send, it returns only where epoll fails, with 0,
-- and the listening socket is still watched.
pub former_main-Listens :
    (fuel : ℕ) (k : SocketCalls) (port : Bytes) (rounds : List (List Arrival))
    (globals : FormerState)
    → let sock = (init_tcp_server k (to_int port)).ret in
      negative sock ≡ false
      → AllArrivals fuel sock rounds
      → (s : FormerServer) × (former_main fuel k (port ∷ []) rounds globals ≡ some (pos 0, s))
        × Listens sock s
unfolding former_main watch is_watched
former_main-Listens fuel k port rounds globals fine v =
    let sock = (init_tcp_server k (to_int port)).ret in
    rw (fine, former_main)
      (serve_arrivals-Listens fuel sock rounds
        (record { listensock = sock; watched = sock ∷ []; globals = globals }) v
        (refl, ground (arith, (int_eq.beq_iff sock sock).1 refl)))
