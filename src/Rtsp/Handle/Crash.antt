-- ===== src/Rtsp/Handle/Crash.antt =====
-- The session pointer that is not checked.
use fz_server.Prelude.{◌≡◌, false, List, none, some}
use fz_server.Prelude.Int.{ℤ}
use fz_server.Memory.{Bytes}
use fz_server.Net.{Frame}
use fz_server.Text.{is_empty}
use fz_server.Session.{get_session}
use fz_server.Rtsp.State.{RtspHandler, Outside}
use fz_server.Rtsp.Handle.{interact_rtsp_tcp, act_on_session, handle_request}

-- What `handleRequest` stores before it reads.
abbrev pub at_peer : ℤ → Bytes → RtspHandler → RtspHandler
at_peer client_fd client_ip h = record h { client_fd = client_fd; client_ip = client_ip }

-- Where the dialogue leaves a session's name that the table does not have, the pointer is null.
pub handle_request-unknown_session :
    (o : Outside) (client_fd : ℤ) (client_ip : Bytes) (streamed : List Frame) (buffer : Bytes)
    (h h' : RtspHandler)
    → interact_rtsp_tcp o buffer (at_peer client_fd client_ip h) ≡ some h'
    → is_empty h'.session ≡ false
    → get_session h'.session h'.sessions ≡ none
    → handle_request o client_fd client_ip streamed (some buffer) h ≡ none
unfolding handle_request act_on_session
handle_request-unknown_session o client_fd client_ip streamed buffer h h' ran named unknown =
    rw (ran, named, unknown, handle_request, act_on_session)
