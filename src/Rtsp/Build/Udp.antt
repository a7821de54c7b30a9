-- ===== src/Rtsp/Build/Udp.antt =====
-- `build_string`, the UDP form of src/handler/rtsp/rtsp_handler.cpp: the session table and the ports.
use fz_server.Prelude.{
  ℕ, ◌+◌, ◌<◌, ◌≡◌, refl, sym, ap, ◌∙◌, ◌⊎◌, inl, inr, true, ◌||◌, ◌&&◌, none, some, if◌then◌else◌,
  Bool-cases, Option-cases, subst,
}
use fz_server.Prelude.Int.{ℤ, pos, negsuc, negative}
use fz_server.Memory.{Bytes}
use fz_server.Text.{bytes, equals}
use fz_server.Ports.{PortManager, pair, failed, generate_ports, is_port_available, free}
use fz_server.Ports.Fresh.{IsGranted, rtp_of, rtcp_of, generate_ports-IsGranted}
use fz_server.Session.{RtspAttr, get_session, update, set_info, set_state}
use fz_server.Session.Status.{SessionStaus}
use fz_server.Rtsp.State.{RtspHandler, Outside}
use fz_server.Rtsp.Replies.{handle_setup}
use fz_server.Rtsp.Build.{
  Built, Outcome, flag_of, choose_session, store_track, setup_udp, play, build_string,
}
use fz_server.Rtsp.Build.Setup.{
  IsSound, Crashes, Answers, AllOf, if-cases, choose_session-heap, store_track-Answers,
  play-Answers,
}

-- One of the rounds for which there is fuel draws two ports that can be used.
abbrev pub WillGrant : Outside → RtspHandler → Type 0
WillGrant o h =
    (k : ℕ) × (k < o.port_fuel)
    × (is_port_available o.os (0 + k) h.ports (rtp_of o.os (0 + k)) ≡ free)
    × (is_port_available o.os (0 + k) h.ports (rtcp_of o.os (0 + k)) ≡ free)

-- The ports are as before, or an even port and the next one are recorded that were not.
abbrev pub PortsMove : PortManager → PortManager → Type 0
PortsMove before after =
    (after ≡ before) ⊎ ((rtp : ℕ) × (rtcp : ℕ) × IsGranted before rtp rtcp after)

-- A crash with its reason, or an answer behind which the table is sound and the ports have moved.
abbrev pub Stays : Type 0 → PortManager → Outcome → Type 0
Stays Crash ports r =
    ((r ≡ none) × Crash)
    ⊎ ((b : Built) × (r ≡ some b) × IsSound b.handler × PortsMove ports b.handler.ports)

abbrev pub Fails : Outside → RtspHandler → Type 0
Fails o h = (generate_ports o.port_fuel o.os 0 h.ports ≡ some failed) ⊎ Crashes o h

choose_session-ports : (o : Outside) (h : RtspHandler) → (choose_session o h).ports ≡ h.ports
unfolding choose_session flag_of
choose_session-ports o h = elim (Bool-cases (flag_of h).0) [
  | inl audio ↦ rw (audio, choose_session) refl
  | inr video ↦ rw (video, choose_session) refl
]

-- What the methods keep of the ports.
KeepsPorts : PortManager → Outcome → Type 0
KeepsPorts ports = AllOf (λ b. b.handler.ports ≡ ports)

store_track-ports :
    (o : Outside) (attr : RtspAttr) (reply : Bytes) (h : RtspHandler)
    → KeepsPorts h.ports (store_track o attr reply h)
unfolding KeepsPorts store_track flag_of
store_track-ports o attr reply h =
    if-cases (KeepsPorts h.ports) (flag_of h).0
      (λ audio. elim (Option-cases (get_session h.session h.sessions)) [
        | inl unknown ↦ rw unknown tt
        | inr (at, known) ↦
            rw known (elim (Option-cases (update at (set_info (bytes "audio") attr) h.heap)) [
              | inl gone ↦ rw gone tt
              | inr (heap, there) ↦ rw there refl
            ])
      ])
      λ video. refl

play-ports : (cseq : ℤ) (h : RtspHandler) → KeepsPorts h.ports (play cseq h)
unfolding KeepsPorts play
play-ports cseq h = elim (Option-cases (get_session h.session h.sessions)) [
  | inl unknown ↦ rw (unknown, play) refl
  | inr (at, known) ↦
      rw (known, play)
        (elim (Option-cases (update at (set_state SessionStaus.playing) h.heap)) [
          | inl gone ↦ rw (gone, play) tt
          | inr (heap, there) ↦ rw (there, play) refl
        ])
]

-- Both together.
Answers-Stays :
    {Crash : Type 0} (before after : PortManager) (r : Outcome)
    → Answers Crash r
    → KeepsPorts after r
    → PortsMove before after
    → Stays Crash before r
unfolding KeepsPorts
Answers-Stays before after none (inl crash) kept moved = inl crash
Answers-Stays before after none (inr (b, e, v)) kept moved = absurd (cc e)
Answers-Stays before after (some b) (inl (e, why)) kept moved = absurd (cc e)
Answers-Stays before after (some b) (inr (b', e, v)) kept moved =
    let same : b' ≡ b = cc e in
    inr (b, refl, subst (λ x. IsSound x.handler) same v, subst (PortsMove before) (sym kept) moved)

-- SETUP behind a pair of ports that was given out.
module _ (o : Outside) (cseq client_rtp client_rtcp : ℤ) (h : RtspHandler) where
  abbrev pub after_ports : ℕ → ℕ → PortManager → Outcome
  after_ports rtp rtcp pm =
      let h' = record (choose_session o h) { ports = pm } in
      let reply = handle_setup cseq client_rtp client_rtcp (pos rtp) (pos rtcp) h'.session in
      let attr : RtspAttr = record {
        client_rtp_port = client_rtp;
        client_rtcp_port = client_rtcp;
        server_rtp_port = pos rtp;
        server_rtcp_port = pos rtcp;
        server_rtp_sockfd = o.sockets.0;
        server_rtcp_sockfd = o.sockets.1;
      } in
      let fails = some (record { res = negsuc 0; reply = reply; handler = h' }) in
      if negative o.sockets.0 || negative o.sockets.1
      then fails
      else if o.binds.0 && o.binds.1
      then store_track o attr reply h'
      else fails

  pub setup_udp-granted :
      (rtp rtcp : ℕ) (pm : PortManager)
      → generate_ports o.port_fuel o.os 0 h.ports ≡ some (pair rtp rtcp pm)
      → setup_udp o cseq client_rtp client_rtcp h ≡ after_ports rtp rtcp pm
  unfolding setup_udp
  setup_udp-granted rtp rtcp pm e =
      rw (ap (generate_ports o.port_fuel o.os 0) (choose_session-ports o h) ∙ e, setup_udp) refl

  setup_udp-failed :
      generate_ports o.port_fuel o.os 0 h.ports ≡ some failed
      → setup_udp o cseq client_rtp client_rtcp h ≡ none
  unfolding setup_udp
  setup_udp-failed e =
      rw (ap (generate_ports o.port_fuel o.os 0) (choose_session-ports o h) ∙ e, setup_udp) refl

  after_ports-Stays :
      (rtp rtcp : ℕ) (pm : PortManager)
      → IsSound h
      → IsGranted h.ports rtp rtcp pm
      → Stays (Crashes o h) h.ports (after_ports rtp rtcp pm)
  unfolding flag_of
  after_ports-Stays rtp rtcp pm v granted =
      let (heap_kept, sessions_kept) = choose_session-heap o h in
      let sound : IsSound (choose_session o h) = rw (heap_kept, sessions_kept) v in
      let h' = record (choose_session o h) { ports = pm } in
      let moved : PortsMove h.ports pm = inr (rtp, rtcp, granted) in
      if-cases (Stays (Crashes o h) h.ports) (negative o.sockets.0 || negative o.sockets.1)
        (λ _. inr (_, refl, sound, moved))
        λ _.
          if-cases (Stays (Crashes o h) h.ports) (o.binds.0 && o.binds.1)
            (λ _.
              Answers-Stays h.ports pm _ (store_track-Answers o _ _ h' sound)
                (store_track-ports o _ _ h') moved)
            λ _. inr (_, refl, sound, moved)

  setup_udp-Stays :
      IsSound h
      → WillGrant o h
      → Stays (Fails o h) h.ports (setup_udp o cseq client_rtp client_rtcp h)
  setup_udp-Stays v (k, lt, rtp_free, rtcp_free) =
      elim (generate_ports-IsGranted o.port_fuel o.os 0 k h.ports lt rtp_free rtcp_free) [
        | inl thrown ↦ inl (setup_udp-failed thrown, inl thrown)
        | inr (rtp, rtcp, pm, e, granted) ↦
            rw (setup_udp-granted rtp rtcp pm e) (elim (after_ports-Stays rtp rtcp pm v granted) [
              | inl (crash, why) ↦ inl (crash, inr why)
              | inr fine ↦ inr fine
            ])
      ]

-- Where no pointer of the session table dangles and no two names share an object, and one of the
-- rounds that the fuel allows draws two ports that can be used, `build_string` answers, whatever
-- the method, leaves the table so, and the recorded ports as before or with an even port and the
-- next one added that were not recorded; or it crashes, and then the method is SETUP, and either
-- a socket for the test of a port could not be created, or the flag of the audio track is set and
-- the table has no session under the name that is stored for the connection.
pub build_string-Stays :
    (o : Outside) (method : Bytes) (cseq : ℤ) (url : Bytes) (client_rtp client_rtcp : ℤ)
    (h : RtspHandler)
    → IsSound h
    → WillGrant o h
    → Stays
        ((equals method (bytes "SETUP") ≡ true) × Fails o h)
        h.ports
        (build_string o method cseq url client_rtp client_rtcp h)
unfolding build_string
build_string-Stays o method cseq url client_rtp client_rtcp h v grants =
    if-cases Fine (equals method (bytes "OPTIONS")) (λ _. quiet)
      λ _.
        if-cases Fine (equals method (bytes "DESCRIBE")) (λ _. quiet)
          λ _.
            if-cases Fine (equals method (bytes "SETUP"))
              (λ setup. in_setup setup (setup_udp-Stays o cseq client_rtp client_rtcp h v grants))
              λ _.
                if-cases Fine (equals method (bytes "PLAY"))
                  (λ _.
                    Answers-Stays h.ports h.ports _ (play-Answers cseq h v) (play-ports cseq h)
                      (inl refl))
                  λ _.
                    if-cases Fine (equals method (bytes "PAUSE")) (λ _. quiet)
                      λ _. if-cases Fine (equals method (bytes "TEARDOWN")) (λ _. quiet) λ _. quiet
  where
    Fine : Outcome → Type 0
    Fine = Stays ((equals method (bytes "SETUP") ≡ true) × Fails o h) h.ports

    quiet : {n : ℤ} {reply : Bytes} → Fine (some (record { res = n; reply = reply; handler = h }))
    quiet = inr (_, refl, v, inl refl)

    in_setup :
        {r : Outcome} → equals method (bytes "SETUP") ≡ true → Stays (Fails o h) h.ports r → Fine r
    in_setup setup (inl (e, crash)) = inl (e, (setup, crash))
    in_setup setup (inr fine) = inr fine
