-- ===== src/Rtsp/Handle/Sound.antt =====
-- One event on a connection keeps the session table sound, or ends the server for one of two reasons.
use fz_server.Prelude.{
  ℕ, ◌≡◌, refl, ◌⊎◌, inl, inr, true, false, List, Option, none, some, ◌==◌, Bool-cases,
  Option-cases,
}
use fz_server.Prelude.Int.{ℤ, pos, negsuc}
use fz_server.Memory.{Bytes}
use fz_server.Net.{Frame}
use fz_server.Text.{bytes, equals, is_empty}
use fz_server.Map.{lookup, insert, nat_eq, bytes_eq}
use fz_server.Session.{print_session, Session, get_session}
use fz_server.Session.Status.{SessionStaus}
use fz_server.Session.Managers.{update-cases, write-IsLive}
use fz_server.Rtsp.State.{RtspHandler, Outside}
use fz_server.Rtsp.Request.{parse_tcp}
use fz_server.Rtsp.Build.{Built}
use fz_server.Rtsp.Handle.Reading.{parse_tcp-kept}
use fz_server.Rtsp.Build.Setup.{IsSound, Crashes, if-cases, build_string_tcp-Answers}
use fz_server.Rtsp.Handle.{
  Handled, answer, answered, interact_rtsp_tcp, act_on_state, act_on_session, handle_request,
  send_h264_aac_over_tcp,
}
use fz_server.Rtsp.Handle.Crash.{at_peer}

parse_tcp-IsSound :
    (o : Outside) (buffer : Bytes) (h : RtspHandler)
    → IsSound h
    → IsSound (parse_tcp o buffer h).handler
parse_tcp-IsSound = parse_tcp-kept IsSound (λ h w v. v) (λ h b v. v)

pub ℤ-cases : (z : ℤ) → ((n : ℕ) × (z ≡ pos n)) ⊎ ((n : ℕ) × (z ≡ negsuc n))
ℤ-cases (pos n) = inl (n, refl)
ℤ-cases (negsuc n) = inr (n, refl)

answer-IsSound : (cseq : ℤ) (b : Built) → IsSound b.handler → IsSound (answer cseq b)
unfolding answer
answer-IsSound cseq b v = elim (ℤ-cases b.res) [
  | inl (n, e) ↦ rw (e, answer) v
  | inr (n, e) ↦
      rw (e, answer)
        (if-cases IsSound (n == 0) (λ _. v) λ _. if-cases IsSound (n == 1) (λ _. v) λ _. v)
]

act_on_state-IsSound :
    (streamed : List Frame) (at : ℕ) (state : SessionStaus) (h : RtspHandler) (s : Session)
    → lookup at h.heap.cells ≡ some s
    → IsSound h
    → (h' : RtspHandler) × (act_on_state streamed at state h ≡ some h') × IsSound h'
unfolding act_on_state send_h264_aac_over_tcp
act_on_state-IsSound streamed at SessionStaus.playing h s there v =
    elim (update-cases at print_session h.heap) [
      | inl (gone, e) ↦ absurd (cc (gone, there))
      | inr (t, there', e) ↦ (
        record (send_h264_aac_over_tcp streamed h) {
          heap = record h.heap { cells = insert at (print_session t) h.heap.cells };
        },
        rw (e, act_on_state) refl,
        write-IsLive h.sessions h.heap at t _ there' v,
      )
    ]
act_on_state-IsSound streamed at SessionStaus.pause h s there v = (h, refl, v)
act_on_state-IsSound streamed at SessionStaus.teardown h s there v = (h, refl, v)
act_on_state-IsSound streamed at SessionStaus.none h s there v = (h, refl, v)
act_on_state-IsSound streamed at SessionStaus.indeterminate h s there v = (h, refl, v)

-- Why an event ends the server: the SETUP of an audio track without a session, or the name of an
-- unknown session in the handler behind the answer.
abbrev pub SetupFails : Outside → Bytes → RtspHandler → Type 0
SetupFails o buffer h =
    let p = parse_tcp o buffer h in (equals p.method (bytes "SETUP") ≡ true) × Crashes o p.handler

abbrev pub IsUnknown : RtspHandler → Type 0
IsUnknown h = (is_empty h.session ≡ false) × (get_session h.session h.sessions ≡ none)

abbrev pub CrashCause : Outside → Bytes → RtspHandler → Type 0
CrashCause o buffer h =
    SetupFails o buffer h
    ⊎ ((h' : RtspHandler) × (interact_rtsp_tcp o buffer h ≡ some h') × IsUnknown h')

interact_rtsp_tcp-IsSound :
    (o : Outside) (buffer : Bytes) (h : RtspHandler)
    → IsSound h
    → ((interact_rtsp_tcp o buffer h ≡ none) × SetupFails o buffer h)
      ⊎ ((h' : RtspHandler) × (interact_rtsp_tcp o buffer h ≡ some h') × IsSound h')
unfolding interact_rtsp_tcp answered
interact_rtsp_tcp-IsSound o buffer h v =
    let p = parse_tcp o buffer h in
    let kept = parse_tcp-IsSound o buffer h v in
    elim (build_string_tcp-Answers o p.method p.cseq p.url p.handler kept) [
      | inl (e, why) ↦ inl (rw (e, interact_rtsp_tcp) refl, why)
      | inr (b, e, w) ↦
          inr (answer p.cseq b, rw (e, interact_rtsp_tcp) refl, answer-IsSound p.cseq b w)
    ]

act_on_session-IsSound :
    (streamed : List Frame) (h : RtspHandler)
    → IsSound h
    → ((act_on_session streamed h ≡ none) × IsUnknown h)
      ⊎ ((h' : RtspHandler) × (act_on_session streamed h ≡ some h') × IsSound h')
unfolding act_on_session get_session
act_on_session-IsSound streamed h v = elim (Bool-cases (is_empty h.session)) [
  | inl empty ↦ inr (h, rw (empty, act_on_session) refl, v)
  | inr named ↦ elim (Option-cases (lookup h.session h.sessions)) [
    | inl unknown ↦ inl (rw (named, unknown, act_on_session) refl, (named, unknown))
    | inr (at, known) ↦
        let (s, there) = v.live h.session at known in
        let (h', e, w) = act_on_state-IsSound streamed at s.state h s there v in
        inr (h', rw (named, known, there, act_on_session) e, w)
  ]
]

-- Where no pointer of the session table dangles and no two names share an object, `handleRequest`
-- returns and leaves the table so, whatever is received; or it crashes, and then a message was
-- received, and either it is a SETUP that finds the flag of the audio track set and no session
-- under the name that is stored for the connection, or the handler is left with the name of a
-- session that the table does not have.
pub handle_request-IsSound :
    (o : Outside) (client_fd : ℤ) (client_ip : Bytes) (streamed : List Frame)
    (received : Option Bytes) (h : RtspHandler)
    → IsSound h
    → ((handle_request o client_fd client_ip streamed received h ≡ none)
        × ((buffer : Bytes) × (received ≡ some buffer)
            × CrashCause o buffer (at_peer client_fd client_ip h)))
      ⊎ ((r : Handled) × (handle_request o client_fd client_ip streamed received h ≡ some r)
          × IsSound r.handler)
unfolding handle_request
handle_request-IsSound o client_fd client_ip streamed none h v = inr (_, refl, v)
handle_request-IsSound o client_fd client_ip streamed (some buffer) h v =
    elim (interact_rtsp_tcp-IsSound o buffer (at_peer client_fd client_ip h) v) [
      | inl (e, why) ↦ inl (rw (e, handle_request) refl, (buffer, refl, inl why))
      | inr (h₁, e, w) ↦ elim (act_on_session-IsSound streamed h₁ w) [
        | inl (f, why) ↦ inl (rw (e, f, handle_request) refl, (buffer, refl, inr (h₁, e, why)))
        | inr (h₂, f, u) ↦ inr (
          record { ret = pos 0; closed = false; handler = h₂ },
          rw (e, f, handle_request) refl,
          u,
        )
      ]
    ]
