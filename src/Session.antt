-- ===== src/Session.antt =====
-- src/session/session.h and sessionManager.h, src/common/clientFdManager.h. A `Session*` is the
-- address of a cell in a heap. What storage holds before its first assignment is an argument.
pub mod Status
pub mod Managers
use fz_server.Prelude.{ℕ, suc, ◌+◌, Bool, true, false, [], ◌∷◌, Option, none, some}
use fz_server.Prelude.Int.{ℤ, pos}
use fz_server.Memory.{Bytes}
use fz_server.Text.{bytes}
use fz_server.Map.{Map, lookup, insert, erase, fetch, nat_eq, int_eq, bytes_eq}
use Status.{SessionStaus}

pub record RtspAttr : Type 0 where
  pub client_rtp_port : ℤ
  pub client_rtcp_port : ℤ
  pub server_rtp_port : ℤ
  pub server_rtcp_port : ℤ
  pub server_rtp_sockfd : ℤ
  pub server_rtcp_sockfd : ℤ

-- What `info[…]` makes of a missing key.
abbrev pub zero_attr : RtspAttr
zero_attr = record {
  client_rtp_port = pos 0;
  client_rtcp_port = pos 0;
  server_rtp_port = pos 0;
  server_rtcp_port = pos 0;
  server_rtp_sockfd = pos 0;
  server_rtcp_sockfd = pos 0;
}

pub record Session : Type 0 where
  pub client_fd : ℤ
  pub client_ip : Bytes
  pub state : SessionStaus
  pub info : Map Bytes RtspAttr

-- `Session(clientFd, clientIp, state)`: the last assignment is to the parameter, not to `state_`, so the
-- member keeps what the storage held.
unfoldable pub new_session : SessionStaus → ℤ → Bytes → SessionStaus → Session
new_session storage client_fd client_ip state = record {
  client_fd = client_fd;
  client_ip = client_ip;
  state = storage;
  info = [];
}

unfoldable pub set_state : SessionStaus → Session → Session
set_state state s = record s { state = state }

unfoldable pub set_info : Bytes → RtspAttr → Session → Session
set_info str attr s = record s { info = insert str attr s.info }

-- The getters read by `operator[]`, which may insert: the value and the session.
fetch_info : Bytes → (RtspAttr → ℤ) → Session → ℤ × Session
fetch_info str field s =
    let (attr, info') = fetch str zero_attr s.info in (field attr, record s { info = info' })

unfoldable pub get_server_aac_rtp_sockfd : Session → ℤ × Session
unfolding fetch_info
get_server_aac_rtp_sockfd = fetch_info (bytes "audio") (λ a. a.server_rtp_sockfd)

unfoldable pub get_server_h264_rtp_sockfd : Session → ℤ × Session
unfolding fetch_info
get_server_h264_rtp_sockfd = fetch_info (bytes "video") (λ a. a.server_rtp_sockfd)

unfoldable pub get_client_aac_rtp_port : Session → ℤ × Session
unfolding fetch_info
get_client_aac_rtp_port = fetch_info (bytes "audio") (λ a. a.client_rtp_port)

unfoldable pub get_client_h264_rtp_port : Session → ℤ × Session
unfolding fetch_info
get_client_h264_rtp_port = fetch_info (bytes "video") (λ a. a.client_rtp_port)

unfoldable pub set_client_fd : ℤ → Session → Session
set_client_fd client_fd s = record s { client_fd = client_fd }

unfoldable pub set_client_ip : Bytes → Session → Session
set_client_ip client_ip s = record s { client_ip = client_ip }

-- `Session::print` reads the attributes of both tracks, which inserts those that are missing.
unfoldable pub print_session : Session → Session
print_session s =
    let (video, info₁) = fetch (bytes "video") zero_attr s.info in
    let (audio, info₂) = fetch (bytes "audio") zero_attr info₁ in record s { info = info₂ }

-- The objects behind the pointers; `next` has never been given out.
pub record Heap : Type 0 where
  pub next : ℕ
  pub cells : Map ℕ Session

-- `new Session(…)`.
unfoldable pub allocate : Session → Heap → ℕ × Heap
allocate s h = (h.next, record { next = h.next + 1; cells = insert h.next s h.cells })

-- A call of a method that changes the object behind a pointer; `none` for a null or dangling pointer.
unfoldable pub update : ℕ → (Session → Session) → Heap → Option Heap
update at f h = elim (lookup at h.cells) [
  | none ↦ none
  | some s ↦ some (record h { cells = insert at (f s) h.cells })
]

-- `SessionManager`.
abbrev pub SessionManager : Type 0
SessionManager = Map Bytes ℕ

unfoldable pub add_session : Bytes → ℕ → SessionManager → SessionManager
add_session session_id session m = insert session_id session m

-- `none` is the null pointer.
unfoldable pub get_session : Bytes → SessionManager → Option ℕ
get_session session_id m = lookup session_id m

unfoldable pub delete_session : Bytes → SessionManager → Heap → SessionManager × Heap
delete_session session_id m h = elim (lookup session_id m) [
  | none ↦ (m, h)
  | some at ↦ (erase session_id m, record h { cells = erase at h.cells })
]

-- `printAllSessions`, over the table in one order; `none` for a pointer that dangles.
unfoldable pub print_all_sessions : SessionManager → Heap → Option Heap
unfolding update print_session
print_all_sessions [] h = some h
print_all_sessions ((session_id, at) ∷ m) h = elim (update at print_session h) [
  | none ↦ none
  | some h' ↦ print_all_sessions m h'
]

-- `ClientFdManager`.
pub record ClientFdManager : Type 0 where
  pub av_flags : Map ℤ Bool
  pub av_session_ids : Map ℤ Bytes

unfoldable pub set_av_flags : ℤ → Bool → ClientFdManager → ClientFdManager
set_av_flags client_fd flag c = record c { av_flags = insert client_fd flag c.av_flags }

unfoldable pub get_av_flags : ℤ → ClientFdManager → Bool × ClientFdManager
get_av_flags client_fd c =
    let (flag, flags) = fetch client_fd false c.av_flags in (flag, record c { av_flags = flags })

unfoldable pub set_session_ids : ℤ → Bytes → ClientFdManager → ClientFdManager
set_session_ids client_fd session_id c = record c {
  av_session_ids = insert client_fd session_id c.av_session_ids;
}

unfoldable pub get_session_ids : ℤ → ClientFdManager → Bytes × ClientFdManager
get_session_ids client_fd c =
    let (session_id, ids) = fetch client_fd [] c.av_session_ids in
    (session_id, record c { av_session_ids = ids })
