-- ===== src/Session/Managers.antt =====
-- The session table has no dangling pointer, and no two names share a session: an invariant of every
-- operation on it.
use fz_server.Prelude.{
  ℕ, ◌<◌, ◌≡◌, refl, sym, ap, ◌∙◌, ◌⊎◌, inl, inr, false, none, some, arith, if◌then◌else◌,
  Bool-cases, Option-cases,
}
use fz_server.Memory.{Bytes}
use fz_server.Map.{lookup, insert, nat_eq, bytes_eq}
use fz_server.Map.Laws.{lookup-insert, lookup-erase}
use fz_server.Session.{
  Session, Heap, SessionManager, allocate, update, add_session, delete_session, get_session,
}

pub record IsLive (m : SessionManager) (h : Heap) : Type 0 where
  pub live :
      (id : Bytes) (at : ℕ) → lookup id m ≡ some at → (s : Session) × (lookup at h.cells ≡ some s)
  pub below : (at : ℕ) (s : Session) → lookup at h.cells ≡ some s → at < h.next
  pub distinct :
      (id id' : Bytes) (at : ℕ) → lookup id m ≡ some at → lookup id' m ≡ some at → id ≡ id'

pub update-cases :
    (at : ℕ) (f : Session → Session) (h : Heap)
    → ((lookup at h.cells ≡ none) × (update at f h ≡ none))
      ⊎ ((s : Session) × (lookup at h.cells ≡ some s)
          × (update at f h ≡ some (record h { cells = insert at (f s) h.cells })))
unfolding update
update-cases at f h = elim (Option-cases (lookup at h.cells)) [
  | inl e ↦ inl (e, rw (e, update))
  | inr (s, e) ↦ inr (s, e, rw (e, update))
]

-- Writing to a cell that is there.
pub write-IsLive :
    (m : SessionManager) (h : Heap) (at : ℕ) (s t : Session)
    → lookup at h.cells ≡ some s
    → IsLive m h
    → IsLive m (record h { cells = insert at t h.cells })
write-IsLive m h at s t there v = record {
  live = λ id k e. elim (Bool-cases (nat_eq.beq at k)) [
    | inl same ↦ (t, lookup-insert at k t h.cells ∙ rw same)
    | inr other ↦ let (u, f) = v.live id k e in (u, lookup-insert at k t h.cells ∙ rw other f)
  ];
  below = λ k u e. elim (Bool-cases (nat_eq.beq at k)) [
    | inl same ↦ ground (arith, v.below at s there, (nat_eq.beq_iff at k).0 same)
    | inr other ↦ v.below k u (sym (lookup-insert at k t h.cells ∙ rw other) ∙ e)
  ];
  distinct = v.distinct;
}

-- A new object under a name, which may replace the pointer to an older one.
pub allocate-IsLive :
    (m : SessionManager) (h : Heap) (id : Bytes) (s : Session)
    → IsLive m h
    → IsLive (add_session id (allocate s h).0 m) (allocate s h).1
unfolding allocate add_session
allocate-IsLive m h id s v = record {
  live = λ j k e. elim (Bool-cases (nat_eq.beq h.next k)) [
    | inl fresh ↦ (s, lookup-insert h.next k s h.cells ∙ rw fresh)
    | inr older ↦
        let (t, f) = old j k older (sym (lookup-insert id j h.next m) ∙ e) in
        (t, lookup-insert h.next k s h.cells ∙ rw older f)
  ];
  below = λ k u e. elim (Bool-cases (nat_eq.beq h.next k)) [
    | inl fresh ↦ ground (arith, (nat_eq.beq_iff h.next k).0 fresh)
    | inr older ↦ omega (arith, v.below k u (sym (lookup-insert h.next k s h.cells ∙ rw older) ∙ e))
  ];
  distinct = λ j j' k e e'.
      ours j j' k (sym (lookup-insert id j h.next m) ∙ e) (sym (lookup-insert id j' h.next m) ∙ e');
}
  where
    held : (j : Bytes) (k : ℕ) → lookup j m ≡ some k → k < h.next
    held j k e = let (t, f) = v.live j k e in v.below k t f

    old :
        (j : Bytes) (k : ℕ)
        → nat_eq.beq h.next k ≡ false
        → (if bytes_eq.beq id j then some h.next else lookup j m) ≡ some k
        → (t : Session) × (lookup k h.cells ≡ some t)
    old j k older e = elim (Bool-cases (bytes_eq.beq id j)) [
      | inl same ↦ absurd (ground (arith, rw same at e, nat_eq.beq_iff h.next k))
      | inr other ↦ v.live j k (rw other at e)
    ]

    ours :
        (j j' : Bytes) (k : ℕ)
        → (if bytes_eq.beq id j then some h.next else lookup j m) ≡ some k
        → (if bytes_eq.beq id j' then some h.next else lookup j' m) ≡ some k
        → j ≡ j'
    ours j j' k e e' = ground (
      arith,
      held j k,
      held j' k,
      v.distinct j j' k,
      bytes_eq.beq_iff id j,
      bytes_eq.beq_iff id j',
    )

-- Where no pointer of the session table dangles and no two names share an object, `deleteSession`
-- leaves the table so; behind it the name that was given is gone, and the other names keep their
-- objects.
pub delete_session-IsLive :
    (id : Bytes) (m : SessionManager) (h : Heap)
    → IsLive m h
    → IsLive (delete_session id m h).0 (delete_session id m h).1
      × ((j : Bytes)
          → get_session j (delete_session id m h).0
            ≡ (if bytes_eq.beq id j then none else get_session j m))
unfolding delete_session get_session
delete_session-IsLive id m h v = elim (Option-cases (lookup id m)) [
  | inl unknown ↦ rw (unknown, delete_session) (v, λ j. kept unknown j)
  | inr (at, known) ↦
      rw (known, delete_session)
        (
          record {
            live = λ j k e.
                let (other, e') = left j k (sym (lookup-erase id j m) ∙ e) in
                let (t, f) = v.live j k e' in
                (t, lookup-erase at k h.cells ∙ rw (apart at known j k other e') f);
            below = λ k u e. v.below k u (stays at k u (sym (lookup-erase at k h.cells) ∙ e));
            distinct = λ j j' k e e'.
                let (_, f) = left j k (sym (lookup-erase id j m) ∙ e) in
                let (_, f') = left j' k (sym (lookup-erase id j' m) ∙ e') in v.distinct j j' k f f';
          },
          λ j. lookup-erase id j m,
        )
]
  where
    kept :
        lookup id m ≡ none
        → (j : Bytes) → lookup j m ≡ (if bytes_eq.beq id j then none else lookup j m)
    kept unknown j = elim (Bool-cases (bytes_eq.beq id j)) [
      | inl same ↦ rw same (ap (λ i. lookup i m) (sym ((bytes_eq.beq_iff id j).0 same)) ∙ unknown)
      | inr other ↦ rw other refl
    ]

    left :
        (j : Bytes) (k : ℕ)
        → (if bytes_eq.beq id j then none else lookup j m) ≡ some k
        → (bytes_eq.beq id j ≡ false) × (lookup j m ≡ some k)
    left j k e = ground (arith, e)

    apart :
        (at : ℕ)
        → lookup id m ≡ some at
        → (j : Bytes) (k : ℕ) → bytes_eq.beq id j ≡ false
        → lookup j m ≡ some k
        → nat_eq.beq at k ≡ false
    apart at known j k other e =
        ground (arith, v.distinct id j at known, bytes_eq.beq_iff id j, nat_eq.beq_iff at k, e)

    stays :
        (at k : ℕ) (u : Session)
        → (if nat_eq.beq at k then none else lookup k h.cells) ≡ some u
        → lookup k h.cells ≡ some u
    stays at k u e = ground (arith, e)
