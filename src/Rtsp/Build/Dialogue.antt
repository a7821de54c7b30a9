-- ===== src/Rtsp/Build/Dialogue.antt =====
-- SETUP of each track and PLAY, `build_string_tcp` of src/handler/rtsp/rtsp_handler.cpp, where they find
-- what they look for.
use fz_server.Prelude.{ℕ, ◌≡◌, refl, ap, ◌∙◌, true, false, [], some}
use fz_server.Prelude.Int.{ℤ, pos}
use fz_server.Memory.{Bytes}
use fz_server.Text.{bytes}
use fz_server.Map.{Eq, Map, lookup, insert, fetch, nat_eq, int_eq, bytes_eq}
use fz_server.Map.Laws.{lookup-insert_self}
use fz_server.SessionId.{generate_session_id}
use fz_server.Session.{
  Session, RtspAttr, Heap, set_info, set_state, allocate, add_session, get_session, get_av_flags,
  update, set_session_ids, get_session_ids, new_session,
}
use fz_server.Session.Status.{SessionStaus}
use fz_server.Rtsp.State.{RtspHandler, Outside}
use fz_server.Rtsp.Replies.{handle_setup_tcp, handle_play}
use fz_server.Rtsp.Build.{flag_of, choose_session, store_track, setup_tcp, play}

-- Reading a key that is there.
module _ {K V : Type 0} ⦃e : Eq K⦄ where
  fetch-known : (k : K) (d v : V) (m : Map K V) → lookup k m ≡ some v → fetch k d m ≡ (v, m)
  unfolding fetch
  fetch-known k d v m h = rw (h, fetch) refl

  pub fetch-insert : (k : K) (d v : V) (m : Map K V) → fetch k d (insert k v m) ≡ (v, insert k v m)
  fetch-insert k d v m = fetch-known k d v (insert k v m) (lookup-insert_self k v m)

-- What `choose_session` makes of the two flags.
pub choose_session-video :
    (o : Outside) (h : RtspHandler)
    → lookup h.client_fd h.clients.av_flags ≡ some false
    → let id = generate_session_id o.random_bytes in
      choose_session o h
      ≡ record h { session = id; clients = set_session_ids h.client_fd id h.clients }
unfolding choose_session flag_of get_av_flags set_session_ids
choose_session-video o h e = rw (fetch-known h.client_fd false false h.clients.av_flags e) refl

choose_session-audio :
    (o : Outside) (id : Bytes) (h : RtspHandler)
    → lookup h.client_fd h.clients.av_flags ≡ some true
    → lookup h.client_fd h.clients.av_session_ids ≡ some id
    → choose_session o h ≡ record h { session = id }
unfolding choose_session flag_of get_av_flags get_session_ids
choose_session-audio o id h e f =
    rw
      (
        fetch-known h.client_fd false true h.clients.av_flags e,
        fetch-known h.client_fd [] id h.clients.av_session_ids f,
      )
      refl

pub store_track-video :
    (o : Outside) (attr : RtspAttr) (reply : Bytes) (h : RtspHandler)
    → lookup h.client_fd h.clients.av_flags ≡ some false
    → let fresh = new_session o.stale_state h.client_fd h.client_ip SessionStaus.none in
      let (at, heap) = allocate (set_info (bytes "video") attr fresh) h.heap in
      store_track o attr reply h
      ≡ some (record {
        res = pos 0;
        reply = reply;
        handler = record h { heap = heap; sessions = add_session h.session at h.sessions };
      })
unfolding store_track flag_of get_av_flags
store_track-video o attr reply h e =
    rw (fetch-known h.client_fd false false h.clients.av_flags e) refl

-- The heap behind a change of a cell that is there.
abbrev pub written : ℕ → Session → Heap → Heap
written at s heap = record heap { cells = insert at s heap.cells }

store_track-audio :
    (o : Outside) (attr : RtspAttr) (reply : Bytes) (at : ℕ) (s : Session) (h : RtspHandler)
    → lookup h.client_fd h.clients.av_flags ≡ some true
    → lookup h.session h.sessions ≡ some at
    → lookup at h.heap.cells ≡ some s
    → store_track o attr reply h
      ≡ some (record {
        res = pos 0;
        reply = reply;
        handler = record h { heap = written at (set_info (bytes "audio") attr s) h.heap };
      })
unfolding store_track flag_of get_av_flags get_session update
store_track-audio o attr reply at s h e f g =
    rw (f, g) (rw (fetch-known h.client_fd false true h.clients.av_flags e) refl)

pub play-known :
    (cseq : ℤ) (at : ℕ) (s : Session) (h : RtspHandler)
    → lookup h.session h.sessions ≡ some at
    → lookup at h.heap.cells ≡ some s
    → play cseq h
      ≡ some (record {
        res = pos 0;
        reply = handle_play cseq h.session;
        handler = record h { heap = written at (set_state SessionStaus.playing s) h.heap };
      })
unfolding play get_session update
play-known cseq at s h f g = rw (f, g, play) refl

-- SETUP of the video track: a session of its own.
abbrev pub after_video : Outside → RtspHandler → RtspHandler
after_video o h =
    let id = generate_session_id o.random_bytes in
    let fresh =
      set_info (bytes "video") o.stale_attr
        (new_session o.stale_state h.client_fd h.client_ip SessionStaus.none) in
    record h {
      session = id;
      clients = set_session_ids h.client_fd id h.clients;
      heap = (allocate fresh h.heap).1;
      sessions = add_session id h.heap.next h.sessions;
    }

pub setup_tcp-video :
    (o : Outside) (cseq : ℤ) (h : RtspHandler)
    → lookup h.client_fd h.clients.av_flags ≡ some false
    → setup_tcp o cseq h
      ≡ some (record {
        res = pos 0;
        reply = handle_setup_tcp o.stale_reply cseq (generate_session_id o.random_bytes);
        handler = after_video o h;
      })
unfolding setup_tcp set_session_ids allocate
setup_tcp-video o cseq h e =
    let id = generate_session_id o.random_bytes in
    ap (λ k. store_track o o.stale_attr (handle_setup_tcp o.stale_reply cseq k.session) k)
      (choose_session-video o h e)
    ∙ store_track-video o o.stale_attr (handle_setup_tcp o.stale_reply cseq id)
        (record h { session = id; clients = set_session_ids h.client_fd id h.clients }) e

-- SETUP of the audio track, in the session that is stored.
pub setup_tcp-audio :
    (o : Outside) (cseq : ℤ) (id : Bytes) (at : ℕ) (s : Session) (h : RtspHandler)
    → lookup h.client_fd h.clients.av_flags ≡ some true
    → lookup h.client_fd h.clients.av_session_ids ≡ some id
    → lookup id h.sessions ≡ some at
    → lookup at h.heap.cells ≡ some s
    → setup_tcp o cseq h
      ≡ some (record {
        res = pos 0;
        reply = handle_setup_tcp o.stale_reply cseq id;
        handler = record h {
          session = id;
          heap = written at (set_info (bytes "audio") o.stale_attr s) h.heap;
        };
      })
unfolding setup_tcp
setup_tcp-audio o cseq id at s h e stored named object =
    ap (λ k. store_track o o.stale_attr (handle_setup_tcp o.stale_reply cseq k.session) k)
      (choose_session-audio o id h e stored)
    ∙ store_track-audio o o.stale_attr (handle_setup_tcp o.stale_reply cseq id) at s
        (record h { session = id }) e named object
