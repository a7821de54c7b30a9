-- ===== src/Rtsp/Build/Setup.antt =====
-- SETUP over TCP: when it crashes, and that it keeps the session table sound.
use fz_server.Prelude.{
  subst, Option, ◌≡◌, refl, ◌⊎◌, inl, inr, Bool, true, false, none, some, if◌then◌else◌, Bool-cases,
  Option-cases,
}
use fz_server.Prelude.Int.{ℤ}
use fz_server.Memory.{Bytes}
use fz_server.Text.{bytes, equals}
use fz_server.Map.{lookup, bytes_eq, nat_eq}
use fz_server.Session.{RtspAttr, set_info, get_session, set_state}
use fz_server.Session.Status.{SessionStaus}
use fz_server.Session.Managers.{IsLive, update-cases, write-IsLive, allocate-IsLive}
use fz_server.Rtsp.State.{RtspHandler, Outside}
use fz_server.Rtsp.Build.{
  Built, Outcome, flag_of, choose_session, store_track, setup_tcp, play, build_string_tcp,
}

-- No pointer of the table dangles, and no two names share an object.
abbrev pub IsSound : RtspHandler → Type 0
IsSound h = IsLive h.sessions h.heap

pub choose_session-heap :
    (o : Outside) (h : RtspHandler)
    → ((choose_session o h).heap ≡ h.heap) × ((choose_session o h).sessions ≡ h.sessions)
unfolding choose_session flag_of
choose_session-heap o h = elim (Bool-cases (flag_of h).0) [
  | inl audio ↦ rw (audio, choose_session) (refl, refl)
  | inr video ↦ rw (video, choose_session) (refl, refl)
]

-- The two outcomes of a call that keeps the table sound: a crash, which happens where SETUP finds the
-- flag of the audio track set and no session under the stored name, or an answer.
abbrev pub Crashes : Outside → RtspHandler → Type 0
Crashes o h =
    let h' = choose_session o h in
    ((flag_of h').0 ≡ true) × (get_session h'.session h'.sessions ≡ none)

abbrev pub Answers : Type 0 → Outcome → Type 0
Answers Crash r = ((r ≡ none) × Crash) ⊎ ((b : Built) × (r ≡ some b) × IsSound b.handler)

pub answer_of : {Crash : Type 0} (b : Built) → IsSound b.handler → Answers Crash (some b)
answer_of b v = inr (b, refl, v)

pub if-cases :
    {A : Type 0} (P : A → Type 0) (b : Bool) {x y : A}
    → (b ≡ true → P x)
    → (b ≡ false → P y)
    → P (if b then x else y)
if-cases P true f g = f refl
if-cases P false f g = g refl

-- Where there is a result, it satisfies P.
abbrev pub AllOf : {A : Type 0} → (A → Type 0) → Option A → Type 0
AllOf P none = Unit {0}
AllOf P (some a) = P a

pub of_some : {A : Type 0} (P : A → Type 0) {r : Option A} {a : A} → r ≡ some a → AllOf P r → P a
of_some P e v = subst (AllOf P) e v

pub store_track-Answers :
    (o : Outside) (attr : RtspAttr) (reply : Bytes) (h : RtspHandler)
    → IsSound h
    → Answers
        (((flag_of h).0 ≡ true) × (get_session h.session h.sessions ≡ none))
        (store_track o attr reply h)
unfolding store_track flag_of get_session
store_track-Answers o attr reply h v =
    if-cases (Answers _) (flag_of h).0
      (λ audio. elim (Option-cases (lookup h.session h.sessions)) [
        | inl unknown ↦ rw unknown (inl (refl, (audio, refl)))
        | inr (at, known) ↦
            rw known (elim (update-cases at (set_info (bytes "audio") attr) h.heap) [
              | inl (gone, e) ↦ absurd (cc (gone, (v.live h.session at known).1))
              | inr (s, there, e) ↦
                  rw e (answer_of _ (write-IsLive h.sessions h.heap at s _ there v))
            ])
      ])
      (λ video. answer_of _ (allocate-IsLive h.sessions h.heap h.session _ v))

setup_tcp-Answers :
    (o : Outside) (cseq : ℤ) (h : RtspHandler)
    → IsSound h
    → Answers (Crashes o h) (setup_tcp o cseq h)
unfolding setup_tcp
setup_tcp-Answers o cseq h v =
    let (heap_kept, sessions_kept) = choose_session-heap o h in
    store_track-Answers o o.stale_attr _ (choose_session o h) (rw (heap_kept, sessions_kept) v)

pub play-Answers :
    {Crash : Type 0} (cseq : ℤ) (h : RtspHandler) → IsSound h → Answers Crash (play cseq h)
unfolding play get_session
play-Answers cseq h v = elim (Option-cases (lookup h.session h.sessions)) [
  | inl unknown ↦ rw (unknown, play) (answer_of _ v)
  | inr (at, known) ↦
      rw (known, play)
        (elim (update-cases at (set_state SessionStaus.playing) h.heap) [
          | inl (gone, e) ↦ absurd (cc (gone, (v.live h.session at known).1))
          | inr (s, there, e) ↦
              rw (e, play) (answer_of _ (write-IsLive h.sessions h.heap at s _ there v))
        ])
]

-- Where no pointer of the session table dangles and no two names share an object,
-- `build_string_tcp` answers and leaves the table so, whatever the method; or it crashes, and
-- then the method is SETUP, the flag of the audio track is set, and the table has no session
-- under the name that is stored for the connection.
pub build_string_tcp-Answers :
    (o : Outside) (method : Bytes) (cseq : ℤ) (url : Bytes) (h : RtspHandler)
    → IsSound h
    → Answers
        ((equals method (bytes "SETUP") ≡ true) × Crashes o h)
        (build_string_tcp o method cseq url h)
unfolding build_string_tcp
build_string_tcp-Answers o method cseq url h v =
    if-cases (Answers _) (equals method (bytes "OPTIONS")) (λ _. answer_of _ v)
      λ _.
        if-cases (Answers _) (equals method (bytes "DESCRIBE")) (λ _. answer_of _ v)
          λ _.
            if-cases (Answers _) (equals method (bytes "SETUP"))
              (λ setup. in_setup setup (setup_tcp-Answers o cseq h v))
              λ _.
                if-cases (Answers _) (equals method (bytes "PLAY")) (λ _. play-Answers cseq h v)
                  λ _.
                    if-cases (Answers _) (equals method (bytes "PAUSE")) (λ _. answer_of _ v)
                      λ _.
                        if-cases (Answers _) (equals method (bytes "TEARDOWN")) (λ _. answer_of _ v)
                          λ _. answer_of _ v
  where
    in_setup :
        {r : Outcome}
        → equals method (bytes "SETUP") ≡ true
        → Answers (Crashes o h) r
        → Answers ((equals method (bytes "SETUP") ≡ true) × Crashes o h) r
    in_setup setup (inl (e, crash)) = inl (e, (setup, crash))
    in_setup setup (inr fine) = inr fine
