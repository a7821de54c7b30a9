-- ===== src/Server/Elsewhere.antt =====
-- The steps of a request over TCP, in src/handler/rtsp/rtsp_handler.cpp, that leave the session of another
-- connection as it is.
use fz_server.Prelude.{
  ℕ, ◌≡◌, ◌≢◌, ap, ◌∙◌, Bool, false, List, [], ◌∷◌, Option, some, ◌==◌, Option-cases, inl, inr,
}
use fz_server.Prelude.Int.{ℤ}
use fz_server.Memory.{Bytes}
use fz_server.Net.{Frame, stream, transmit}
use fz_server.Text.{bytes, equals, is_empty}
use fz_server.Map.{lookup, insert, fetch, nat_eq, int_eq, bytes_eq}
use fz_server.SessionId.{generate_session_id}
use fz_server.Session.{
  print_session, Session, RtspAttr, set_info, set_state, get_session, get_av_flags, set_session_ids,
  get_session_ids,
}
use fz_server.Session.Status.{SessionStaus}
use fz_server.Session.Managers.{update-cases}
use fz_server.Rtsp.State.{RtspHandler, Outside}
use fz_server.Rtsp.Build.{
  Built, Outcome, flag_of, choose_session, store_track, setup_tcp, play, build_string_tcp,
}
use fz_server.Rtsp.Build.Setup.{AllOf, if-cases}
use fz_server.Rtsp.Handle.{send_text, answer, act_on_state, act_on_session, send_h264_aac_over_tcp}
use fz_server.Rtsp.Handle.Sound.{ℤ-cases}
use fz_server.Server.Held.{
  fetch-other, AreElsewhere, Held, flags-Held, ids-Held, written-Held, added-Held, sent-Held,
}

module _ (fd : ℤ) (id : Bytes) (at : ℕ) (s : Session) (flag : Option Bool) (base : List Frame) where
  -- The handler of another connection, which has another session or none in hand.
  pub record Away (h : RtspHandler) : Type 0 where
    pub elsewhere : h.client_fd ≢ fd
    pub unnamed : h.session ≢ id
    pub held : Held fd id at s flag base h

  flag_of-Away : (h : RtspHandler) → Away h → Away (flag_of h).1
  unfolding flag_of get_av_flags
  flag_of-Away h v = record {
    elsewhere = v.elsewhere;
    unnamed = v.unnamed;
    held = flags-Held h v.held _ (fetch-other h.client_fd fd false h.clients.av_flags v.elsewhere);
  }

  -- A name is stored for the other connection.
  stores-Away :
      (h : RtspHandler) (j : Bytes)
      → Away h
      → j ≢ id
      → Away (record h { session = j; clients = set_session_ids h.client_fd j h.clients })
  unfolding set_session_ids
  stores-Away h j v d = record {
    elsewhere = v.elsewhere;
    unnamed = d;
    held = ids-Held h v.held h.client_fd j v.elsewhere d;
  }

  -- The name that is stored for the other connection is read; it may be empty.
  names_stored-Away :
      (h : RtspHandler)
      → Away h
      → [] ≢ id
      → let (j, clients) = get_session_ids h.client_fd h.clients in
        Away (record h { session = j; clients = clients })
  unfolding get_session_ids fetch set_session_ids
  names_stored-Away h v some_id =
      elim (Option-cases (lookup h.client_fd h.clients.av_session_ids)) [
        | inl none_there ↦ rw (none_there, get_session_ids, fetch) (stores-Away h [] v some_id)
        | inr (j, there) ↦
            rw (there, get_session_ids, fetch)
              (record {
                elsewhere = v.elsewhere;
                unnamed = λ e. v.held.only h.client_fd v.elsewhere (there ∙ ap some e);
                held = v.held;
              })
      ]

  choose_session-Away :
      (o : Outside) (h : RtspHandler)
      → Away h
      → [] ≢ id
      → generate_session_id o.random_bytes ≢ id
      → Away (choose_session o h)
  unfolding choose_session
  choose_session-Away o h v some_id fresh =
      let w = flag_of-Away h v in
      if-cases Away (flag_of h).0 (λ _. names_stored-Away (flag_of h).1 w some_id)
        λ _. stores-Away (flag_of h).1 (generate_session_id o.random_bytes) w fresh

  -- The object behind the name in hand is changed.
  update-Away :
      (h : RtspHandler) (k : ℕ) (t u : Session)
      → Away h
      → lookup h.session h.sessions ≡ some k
      → lookup k h.heap.cells ≡ some t
      → Away (record h { heap = record (h.heap) { cells = insert k u h.heap.cells } })
  update-Away h k t u v known there = record {
    elsewhere = v.elsewhere;
    unnamed = v.unnamed;
    held = written-Held h v.held h.session k t u v.unnamed known there;
  }

  store_track-Away :
      (o : Outside) (attr : RtspAttr) (reply : Bytes) (h : RtspHandler)
      → Away h
      → AllOf (λ b. Away b.handler) (store_track o attr reply h)
  unfolding store_track get_session
  store_track-Away o attr reply h v =
      let h' = (flag_of h).1 in
      let w = flag_of-Away h v in
      if-cases (AllOf (λ b. Away b.handler)) (flag_of h).0
        (λ audio. elim (Option-cases (lookup h'.session h'.sessions)) [
          | inl unknown ↦ rw unknown tt
          | inr (k, known) ↦
              rw known (elim (update-cases k (set_info (bytes "audio") attr) h'.heap) [
                | inl (gone, e) ↦ rw e tt
                | inr (t, there, e) ↦ rw e (update-Away h' k t _ w known there)
              ])
        ])
        λ video. record {
          elsewhere = w.elsewhere;
          unnamed = w.unnamed;
          held = added-Held h' w.held h'.session _ w.unnamed;
        }

  play-Away : (cseq : ℤ) (h : RtspHandler) → Away h → AllOf (λ b. Away b.handler) (play cseq h)
  unfolding play get_session
  play-Away cseq h v = elim (Option-cases (lookup h.session h.sessions)) [
    | inl unknown ↦ rw (unknown, play) v
    | inr (k, known) ↦
        rw (known, play)
          (elim (update-cases k (set_state SessionStaus.playing) h.heap) [
            | inl (gone, e) ↦ rw (e, play) tt
            | inr (t, there, e) ↦ rw (e, play) (update-Away h k t _ v known there)
          ])
  ]

  pub build_string_tcp-Away :
      (o : Outside) (method : Bytes) (cseq : ℤ) (url : Bytes) (h : RtspHandler)
      → Away h
      → [] ≢ id
      → generate_session_id o.random_bytes ≢ id
      → AllOf (λ b. Away b.handler) (build_string_tcp o method cseq url h)
  unfolding build_string_tcp setup_tcp
  build_string_tcp-Away o method cseq url h v some_id fresh =
      if-cases Fine (equals method (bytes "OPTIONS")) (λ _. v)
        λ _.
          if-cases Fine (equals method (bytes "DESCRIBE")) (λ _. v)
            λ _.
              if-cases Fine (equals method (bytes "SETUP"))
                (λ _.
                  store_track-Away o o.stale_attr _ (choose_session o h)
                    (choose_session-Away o h v some_id fresh))
                λ _.
                  if-cases Fine (equals method (bytes "PLAY")) (λ _. play-Away cseq h v)
                    λ _.
                      if-cases Fine (equals method (bytes "PAUSE")) (λ _. v)
                        λ _. if-cases Fine (equals method (bytes "TEARDOWN")) (λ _. v) λ _. v
    where
      Fine : Outcome → Type 0
      Fine = AllOf (λ b. Away b.handler)

  send_text-Away : (text : Bytes) (h : RtspHandler) → Away h → Away (send_text text h)
  unfolding send_text transmit
  send_text-Away text h v = record {
    elsewhere = v.elsewhere;
    unnamed = v.unnamed;
    held = sent-Held h v.held (stream h.client_fd text ∷ []) (v.elsewhere, tt);
  }

  pub answer-Away : (cseq : ℤ) (b : Built) → Away b.handler → Away (answer cseq b)
  unfolding answer
  answer-Away cseq b v = elim (ℤ-cases b.res) [
    | inl (n, e) ↦ rw (e, answer) (send_text-Away _ b.handler v)
    | inr (n, e) ↦
        rw (e, answer)
          (if-cases Away (n == 0) (λ _. send_text-Away _ b.handler v)
            λ _.
              if-cases Away (n == 1) (λ _. send_text-Away _ b.handler v)
                λ _. send_text-Away _ b.handler v)
  ]

  act_on_state-Away :
      (streamed : List Frame) (k : ℕ) (state : SessionStaus) (h : RtspHandler)
      → Away h
      → AreElsewhere fd streamed
      → lookup h.session h.sessions ≡ some k
      → AllOf Away (act_on_state streamed k state h)
  unfolding act_on_state send_h264_aac_over_tcp
  act_on_state-Away streamed k SessionStaus.playing h v away known =
      elim (update-cases k print_session h.heap) [
        | inl (gone, e) ↦ rw (e, act_on_state) tt
        | inr (t, there, e) ↦
            rw (e, act_on_state)
              (update-Away (send_h264_aac_over_tcp streamed h) k t _ sent known there)
      ]
    where
      sent : Away (send_h264_aac_over_tcp streamed h)
      sent = record {
        elsewhere = v.elsewhere;
        unnamed = v.unnamed;
        held = sent-Held h v.held streamed away;
      }
  act_on_state-Away streamed k SessionStaus.pause h v away known = v
  act_on_state-Away streamed k SessionStaus.teardown h v away known = v
  act_on_state-Away streamed k SessionStaus.none h v away known = v
  act_on_state-Away streamed k SessionStaus.indeterminate h v away known = v

  pub act_on_session-Away :
      (streamed : List Frame) (h : RtspHandler)
      → Away h
      → AreElsewhere fd streamed
      → AllOf Away (act_on_session streamed h)
  unfolding act_on_session get_session
  act_on_session-Away streamed h v away =
      if-cases (AllOf Away) (is_empty h.session) (λ _. v)
        λ _. elim (Option-cases (lookup h.session h.sessions)) [
          | inl unknown ↦ rw unknown tt
          | inr (k, known) ↦ rw known (elim (Option-cases (lookup k h.heap.cells)) [
            | inl gone ↦ rw gone tt
            | inr (t, there) ↦ rw there (act_on_state-Away streamed k t.state h v away known)
          ])
        ]
