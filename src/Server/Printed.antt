-- ===== src/Server/Printed.antt =====
-- A client's dialogue, from the texts that it prints: src/server/epollServer.cpp and
-- src/handler/rtsp/rtsp_handler.cpp from the bytes on.
use fz_server.Prelude.{
  ℕ, ◌≡◌, ◌≢◌, refl, ap, ◌∙◌, Bool, true, false, not, List, [], ◌∷◌, some, arith, take, zero, suc,
  ltb,
}
use fz_server.Prelude.Int.{ℤ}
use fz_server.Memory.{Bytes}
use fz_server.Net.{Frame, stream}
use fz_server.Text.{bytes, contains, c_string, is_empty}
use fz_server.Text.Scan.{every}
use fz_server.SessionId.{bytes_to_hex, generate_session_id}
use fz_server.Session.{set_av_flags}
use fz_server.Session.Status.{SessionStaus}
use fz_server.Rtsp.State.{RtspHandler, Outside}
use fz_server.Rtsp.Request.Printed.{
  IsWord, IsName, name_byte, first_line, setup-IsWord, play-IsWord,
}
use fz_server.Rtsp.Request.RoundTrip.{
  setup_request, session_request, flags_behind, parse_tcp-print_lines_any,
}
use fz_server.Rtsp.Replies.{handle_setup_tcp, handle_play}
use fz_server.Rtsp.Build.Setup.{IsSound}
use fz_server.Server.{serve}
use fz_server.Server.Stands.{SetsUp, PlaysIn, Stands}
use fz_server.Server.Dialogue.{message, both_tracks, serve-Stands}

-- A first line that names the audio track, or the video track, and not the other one; or none of them.
abbrev pub NamesTrack : Bool → Bytes → Type 0
NamesTrack audio line =
    (contains (bytes "track0") line ≡ not audio) × (contains (bytes "track1") line ≡ audio)

abbrev pub NamesNone : Bytes → Type 0
NamesNone line = (contains (bytes "track0") line ≡ false) × (contains (bytes "track1") line ≡ false)

zero-IsName : IsName (bytes "0")
unfolding every
zero-IsName = (refl, refl)

setup_request-SetsUp :
    (audio : Bool) (o : Outside) (url : Bytes) (n : ℤ)
    → IsWord url
    → NamesTrack audio (first_line (bytes "SETUP") url)
    → SetsUp audio o (setup_request url n) n
unfolding contains
setup_request-SetsUp audio o url n u names h =
    let read =
      (parse_tcp-print_lines_any o (bytes "SETUP") url (bytes "0") n h setup-IsWord u refl
        zero-IsName).1 in
    (
      ap (λ p. p.method) read,
      ap (λ p. p.cseq) read,
      ap (λ p. p.handler) read ∙ ap (λ c. record h { clients = c }) (one audio names),
    )
  where
    one :
        (audio : Bool)
        → NamesTrack audio (first_line (bytes "SETUP") url)
        → flags_behind (first_line (bytes "SETUP") url) h.client_fd h.clients
          ≡ set_av_flags h.client_fd audio h.clients
    one true (a, b) = rw (a, b) refl
    one false (a, b) = rw (a, b) refl

session_request-PlaysIn :
    (o : Outside) (url id : Bytes) (n : ℤ)
    → IsWord url
    → NamesNone (first_line (bytes "PLAY") url)
    → IsName id
    → PlaysIn id o (session_request (bytes "PLAY") url n id) n
unfolding contains
session_request-PlaysIn o url id n u (a, b) v h =
    let read = (parse_tcp-print_lines_any o (bytes "PLAY") url id n h play-IsWord u refl v).0 in
    (
      ap (λ p. p.method) read,
      ap (λ p. p.cseq) read,
      ap (λ p. p.handler) read ∙ ap (λ c. record h { clients = c; session = id }) none_set,
    )
  where
    none_set : flags_behind (first_line (bytes "PLAY") url) h.client_fd h.clients ≡ h.clients
    none_set = rw (a, b) refl

-- Sixteen bytes are printed as a name.
abbrev pub AreBytes : Bytes → Type 0
AreBytes bs = every (λ b. ltb b 256) bs ≡ true

take-AreBytes : (n : ℕ) (bs : Bytes) → AreBytes bs → AreBytes (take n bs)
unfolding every
take-AreBytes zero bs v = refl
take-AreBytes (suc n) [] v = refl
take-AreBytes (suc n) (b ∷ bs) v = ground (arith, v, λ (w : AreBytes bs). take-AreBytes n bs w)

bytes_to_hex-every : (bs : Bytes) → AreBytes bs → every name_byte (bytes_to_hex bs) ≡ true
unfolding every bytes_to_hex
bytes_to_hex-every [] v = refl
bytes_to_hex-every (b ∷ bs) v = ground (arith, v, λ (w : AreBytes bs). bytes_to_hex-every bs w)

pub generate_session_id-IsName :
    (source : Bytes)
    → AreBytes source
    → is_empty source ≡ false
    → IsName (generate_session_id source)
unfolding generate_session_id
generate_session_id-IsName [] v e = absurd (cc e)
generate_session_id-IsName (b ∷ source) v e =
    (bytes_to_hex-every (take 16 (b ∷ source)) (take-AreBytes 16 (b ∷ source) v), refl)

-- Where no pointer of the session table dangles and no two names share an object, and a client of
-- one connection prints a SETUP whose first line names the video track alone, a SETUP whose first
-- line names the audio track alone, and a PLAY that names no track, of the session that the first
-- one's random bytes name, with URLs that are words: all three are answered, provided that there
-- are random bytes and that the storage of a new session does not hold PLAYING. The client gets
-- the texts of `handleCmd_SETUP_TCP`, twice, and `handleCmd_PLAY`, and then what the media
-- threads stream; behind them that name has a new object, of this connection, which plays and has
-- the attributes of both tracks, the other names keep their pointers, and the other objects are
-- as they were.
pub serve-Stands_printed :
    (fd : ℤ) (ip : Bytes) (o₁ o₂ o₃ : Outside) (u₁ u₂ u₃ : Bytes) (c₁ c₂ c₃ : ℤ)
    (s₁ s₂ streamed : List Frame) (shared : RtspHandler)
    → IsSound shared
    → AreBytes o₁.random_bytes
    → is_empty o₁.random_bytes ≡ false
    → o₁.stale_state ≢ SessionStaus.playing
    → IsWord u₁ × NamesTrack false (first_line (bytes "SETUP") u₁)
    → IsWord u₂ × NamesTrack true (first_line (bytes "SETUP") u₂)
    → IsWord u₃ × NamesNone (first_line (bytes "PLAY") u₃)
    → let id = generate_session_id o₁.random_bytes in
      (g : RtspHandler) × (serve
          (message fd ip s₁ (setup_request u₁ c₁) o₁
            ∷ message fd ip s₂ (setup_request u₂ c₂) o₂
            ∷ message fd ip streamed (session_request (bytes "PLAY") u₃ c₃ id) o₃
            ∷ [])
          shared
        ≡ some g)
      × Stands fd id shared.heap.next
          (both_tracks fd ip o₁ o₂)
          (stream fd (c_string (handle_setup_tcp o₁.stale_reply c₁ id))
            ∷ stream fd (c_string (handle_setup_tcp o₂.stale_reply c₂ id))
            ∷ stream fd (c_string (handle_play c₃ id))
            ∷ streamed)
          shared
          g
serve-Stands_printed fd ip o₁ o₂ o₃ u₁ u₂ u₃ c₁ c₂ c₃ s₁ s₂ streamed shared sound bs some_byte quiet
      (w₁, t₁) (w₂, t₂) (w₃, t₃) =
    let id = generate_session_id o₁.random_bytes in
    let name = generate_session_id-IsName o₁.random_bytes bs some_byte in
    serve-Stands fd ip o₁ o₂ o₃ (setup_request u₁ c₁) (setup_request u₂ c₂)
      (session_request (bytes "PLAY") u₃ c₃ id) c₁ c₂ c₃ s₁ s₂ streamed shared sound
      (setup_request-SetsUp false o₁ u₁ c₁ w₁ t₁) (setup_request-SetsUp true o₂ u₂ c₂ w₂ t₂)
      (session_request-PlaysIn o₃ u₃ id c₃ w₃ t₃ name) quiet name.1
