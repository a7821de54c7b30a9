-- ===== src/Server/Held.antt =====
-- A session of one connection, and what changes of the managers leave it as it is.
use fz_server.Prelude.{
  ℕ, ◌≡◌, ◌≢◌, refl, sym, ap, ◌∙◌, Bool, List, [], ◌∷◌, ◌++◌, Option, some, arith, append_assoc,
  Bool-cases, Option-cases, inl, inr,
}
use fz_server.Prelude.Int.{ℤ}
use fz_server.Memory.{Bytes}
use fz_server.Net.{Frame, datagram, stream}
use fz_server.Map.{Eq, Map, lookup, insert, fetch, nat_eq, int_eq, bytes_eq}
use fz_server.Map.Laws.{lookup-insert}
use fz_server.Session.{Session, SessionManager, Heap, ClientFdManager, allocate, add_session}
use fz_server.Session.Managers.{IsLive, write-IsLive, allocate-IsLive}
use fz_server.Rtsp.State.{RtspHandler}
use fz_server.Rtsp.Build.Dialogue.{written}

-- A write of a key is not seen under another one, nor is a read that may insert.
module _ {K V : Type 0} ⦃e : Eq K⦄ where
  pub insert-other : (k j : K) (v : V) (m : Map K V) → k ≢ j → lookup j (insert k v m) ≡ lookup j m
  insert-other k j v m d = lookup-insert k j v m ∙ ground (arith, d, e.beq_iff k j)

  pub fetch-other : (k j : K) (v : V) (m : Map K V) → k ≢ j → lookup j (fetch k v m).1 ≡ lookup j m
  unfolding fetch
  fetch-other k j v m d = elim (Option-cases (lookup k m)) [
    | inl e ↦ rw (e, fetch) (insert-other k j v m d)
    | inr (w, e) ↦ rw (e, fetch) refl
  ]

-- The descriptor that a frame is handed to.
abbrev pub socket_of : Frame → ℤ
socket_of (datagram s ip port bs) = s
socket_of (stream s bs) = s

abbrev pub AreElsewhere : ℤ → List Frame → Type 0
AreElsewhere fd [] = Unit {0}
AreElsewhere fd (f ∷ fs) = (socket_of f ≢ fd) × AreElsewhere fd fs

pub append-AreElsewhere :
    (fd : ℤ) (fs gs : List Frame)
    → AreElsewhere fd fs
    → AreElsewhere fd gs
    → AreElsewhere fd (fs ++ gs)
append-AreElsewhere fd [] gs v w = w
append-AreElsewhere fd (f ∷ fs) gs (d, v) w = (d, append-AreElsewhere fd fs gs v w)

-- The connection `fd` has the session `id`, whose object at `at` is `s`, and its flag is `flag`. No other
-- connection has stored that name, the session table is sound, and what was handed over behind `base` went
-- to other descriptors.
pub record HeldIn (fd : ℤ) (id : Bytes) (at : ℕ) (s : Session) (flag : Option Bool)
    (base : List Frame) (clients : ClientFdManager) (sessions : SessionManager) (heap : Heap)
    (sent : List Frame) : Type 0 where
  pub live : IsLive sessions heap
  pub stored : lookup fd clients.av_session_ids ≡ some id
  pub flagged : lookup fd clients.av_flags ≡ flag
  pub named : lookup id sessions ≡ some at
  pub object : lookup at heap.cells ≡ some s
  pub only : (k : ℤ) → k ≢ fd → lookup k clients.av_session_ids ≢ some id
  pub handed : (fs : List Frame) × (sent ≡ base ++ fs) × AreElsewhere fd fs

abbrev pub Held : ℤ → Bytes → ℕ → Session → Option Bool → List Frame → RtspHandler → Type 0
Held fd id at s flag base h = HeldIn fd id at s flag base h.clients h.sessions h.heap h.net.sent

module _ {fd : ℤ} {id : Bytes} {at : ℕ} {s : Session} {flag : Option Bool} {base : List Frame}
    (h : RtspHandler) (v : Held fd id at s flag base h) where
  -- The flag of another connection, set or read.
  pub flags-Held :
      (flags : Map ℤ Bool)
      → lookup fd flags ≡ lookup fd h.clients.av_flags
      → Held fd id at s flag base (record h { clients = record (h.clients) { av_flags = flags } })
  flags-Held flags e = record {
    live = v.live;
    stored = v.stored;
    flagged = e ∙ v.flagged;
    named = v.named;
    object = v.object;
    only = v.only;
    handed = v.handed;
  }

  -- Another name, stored for another connection.
  pub ids-Held :
      (k : ℤ) (j : Bytes)
      → k ≢ fd
      → j ≢ id
      → Held fd id at s flag base (record h {
        clients = record (h.clients) { av_session_ids = insert k j h.clients.av_session_ids };
      })
  ids-Held k j d e = record {
    live = v.live;
    stored = insert-other k fd j h.clients.av_session_ids d ∙ v.stored;
    flagged = v.flagged;
    named = v.named;
    object = v.object;
    only = λ i apart. elim (Bool-cases (int_eq.beq k i)) [
      | inl same ↦ λ got.
          let here : some j ≡ some id =
            sym (lookup-insert k i j h.clients.av_session_ids ∙ rw same) ∙ got in
          e (cc here)
      | inr other ↦ λ got.
          v.only i apart (sym (lookup-insert k i j h.clients.av_session_ids ∙ rw other) ∙ got)
    ];
    handed = v.handed;
  }

  -- Another object, changed.
  pub written-Held :
      (j : Bytes) (k : ℕ) (t u : Session)
      → j ≢ id
      → lookup j h.sessions ≡ some k
      → lookup k h.heap.cells ≡ some t
      → Held fd id at s flag base (record h { heap = written k u h.heap })
  written-Held j k t u d known there = record {
    live = write-IsLive h.sessions h.heap k t u there v.live;
    stored = v.stored;
    flagged = v.flagged;
    named = v.named;
    object =
        insert-other k at u h.heap.cells
          (λ e. d (v.live.distinct j id k known (v.named ∙ ap some (sym e))))
        ∙ v.object;
    only = v.only;
    handed = v.handed;
  }

  -- Another session, new.
  pub added-Held :
      (j : Bytes) (t : Session)
      → j ≢ id
      → Held fd id at s flag base (record h {
        heap = (allocate t h.heap).1;
        sessions = add_session j (allocate t h.heap).0 h.sessions;
      })
  unfolding allocate add_session
  added-Held j t d = record {
    live = allocate-IsLive h.sessions h.heap j t v.live;
    stored = v.stored;
    flagged = v.flagged;
    named = insert-other j id h.heap.next h.sessions d ∙ v.named;
    object =
        insert-other h.heap.next at t h.heap.cells
          (λ e. absurd (omega (arith, v.live.below at s v.object, e)))
        ∙ v.object;
    only = v.only;
    handed = v.handed;
  }

  -- More is sent, to other descriptors.
  pub sent-Held :
      (more : List Frame)
      → AreElsewhere fd more
      → Held fd id at s flag base (record h { net = record (h.net) { sent = h.net.sent ++ more } })
  sent-Held more w =
      let (fs, is, away) = v.handed in
      record {
        live = v.live;
        stored = v.stored;
        flagged = v.flagged;
        named = v.named;
        object = v.object;
        only = v.only;
        handed = (
          fs ++ more,
          ap (λ l. l ++ more) is ∙ append_assoc base fs more,
          append-AreElsewhere fd fs more away w,
        );
      }
