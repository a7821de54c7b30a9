-- ===== src/Server/Stands.antt =====
-- What a request on one connection leaves, in the dialogue of src/handler/rtsp/rtsp_handler.cpp over TCP.
use fz_server.Prelude.{
  ℕ, ◌≡◌, ◌≢◌, refl, ap, ◌∙◌, Bool, false, List, ◌++◌, append_assoc, some, arith, if◌then◌else◌,
}
use fz_server.Prelude.Int.{ℤ}
use fz_server.Memory.{Bytes}
use fz_server.Net.{Frame}
use fz_server.Text.{bytes, is_empty}
use fz_server.Map.{lookup, nat_eq, int_eq, bytes_eq}
use fz_server.Map.Laws.{lookup-insert, lookup-insert_self}
use fz_server.Session.{print_session, Session, get_session, update, set_av_flags}
use fz_server.Session.Status.{SessionStaus}
use fz_server.Rtsp.State.{RtspHandler, Outside}
use fz_server.Rtsp.Request.{parse_tcp}
use fz_server.Rtsp.Build.Dialogue.{written}
use fz_server.Rtsp.Handle.{act_on_state, act_on_session, send_h264_aac_over_tcp}

-- The message is read as a SETUP of a track, with the number `cseq`, whatever the handler.
abbrev pub SetsUp : Bool → Outside → Bytes → ℤ → Type 0
SetsUp audio o m cseq =
    (h : RtspHandler)
    → ((parse_tcp o m h).method ≡ bytes "SETUP")
      × ((parse_tcp o m h).cseq ≡ cseq)
      × ((parse_tcp o m h).handler
          ≡ record h { clients = set_av_flags h.client_fd audio h.clients })

-- The message is read as a PLAY of a session.
abbrev pub PlaysIn : Bytes → Outside → Bytes → ℤ → Type 0
PlaysIn id o m cseq =
    (h : RtspHandler)
    → ((parse_tcp o m h).method ≡ bytes "PLAY")
      × ((parse_tcp o m h).cseq ≡ cseq)
      × ((parse_tcp o m h).handler ≡ record h { session = id })

-- In `g` the name `id`, which is stored for the connection, has the object `s` at `at`. The other names
-- and objects are those of `h`, and `sent` was handed over since.
pub record Stands (fd : ℤ) (id : Bytes) (at : ℕ) (s : Session) (sent : List Frame)
    (h g : RtspHandler) : Type 0 where
  pub stored : lookup fd g.clients.av_session_ids ≡ some id
  pub named : lookup id g.sessions ≡ some at
  pub object : lookup at g.heap.cells ≡ some s
  pub others : (j : Bytes) → j ≢ id → lookup j g.sessions ≡ lookup j h.sessions
  pub objects_kept :
      (k : ℕ) (t : Session)
      → lookup k h.heap.cells ≡ some t
      → (k ≢ at) × (lookup k g.heap.cells ≡ some t)
  pub handed : g.net.sent ≡ h.net.sent ++ sent

-- The object is changed, and more is sent.
pub Stands-written :
    {fd : ℤ} {id : Bytes} {at : ℕ} {s : Session} {sent : List Frame} {h g g' : RtspHandler}
    (t : Session) (more : List Frame)
    → Stands fd id at s sent h g
    → g'.clients.av_session_ids ≡ g.clients.av_session_ids
    → g'.sessions ≡ g.sessions
    → g'.heap ≡ written at t g.heap
    → g'.net.sent ≡ g.net.sent ++ more
    → Stands fd id at t (sent ++ more) h g'
Stands-written {fd} {id} {at} {s} {sent} {h} {g} {g'} t more v ids sessions heap net = record {
  stored = ap (lookup fd) ids ∙ v.stored;
  named = ap (lookup id) sessions ∙ v.named;
  object = ap (λ k. lookup at k.cells) heap ∙ lookup-insert_self at t g.heap.cells;
  others = λ j d. ap (lookup j) sessions ∙ v.others j d;
  objects_kept = λ k u e.
      let (apart, kept) = v.objects_kept k u e in
      (
        apart,
        ap (λ x. lookup k x.cells) heap
            ∙ lookup-insert at k t g.heap.cells
            ∙ ap (λ b. if b then some t else lookup k g.heap.cells) (other k apart)
            ∙ kept,
      );
  handed = net ∙ ap (λ l. l ++ more) v.handed ∙ append_assoc h.net.sent sent more;
}
  where
    other : (k : ℕ) → k ≢ at → nat_eq.beq at k ≡ false
    other k d = ground (arith, d, nat_eq.beq_iff at k)

-- The two ways in which a request that was answered goes on.
pub act_on_state-quiet :
    (streamed : List Frame) (at : ℕ) (state : SessionStaus) (h : RtspHandler)
    → state ≢ SessionStaus.playing
    → act_on_state streamed at state h ≡ some h
unfolding act_on_state
act_on_state-quiet streamed at SessionStaus.playing h d = absurd (d refl)
act_on_state-quiet streamed at SessionStaus.pause h d = refl
act_on_state-quiet streamed at SessionStaus.teardown h d = refl
act_on_state-quiet streamed at SessionStaus.none h d = refl
act_on_state-quiet streamed at SessionStaus.indeterminate h d = refl

module _ (streamed : List Frame) (at : ℕ) (s : Session) (h : RtspHandler)
    (there : is_empty h.session ≡ false) (named : lookup h.session h.sessions ≡ some at)
    (object : lookup at h.heap.cells ≡ some s) where
  pub act_on_session-state : act_on_session streamed h ≡ act_on_state streamed at s.state h
  unfolding act_on_session get_session
  act_on_session-state = rw (there, named, object, act_on_session) refl

  pub act_on_session-playing :
      s.state ≡ SessionStaus.playing
      → act_on_session streamed h
        ≡ some (record h {
          net = record (h.net) { sent = h.net.sent ++ streamed };
          heap = written at (print_session s) h.heap;
        })
  unfolding act_on_state send_h264_aac_over_tcp update
  act_on_session-playing e =
      act_on_session-state
      ∙ ap (λ st. act_on_state streamed at st h) e
      ∙ rw (object, act_on_state) refl
