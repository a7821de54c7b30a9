-- ===== src/Logger/Queue.antt =====
-- src/utility/logger/Logger.cpp: no entry is lost, doubled or moved, whatever the order of the threads' steps.
use fz_server.Prelude.{
  ◌-◌, ◌≤◌, ◌≡◌, refl, sym, ap, ◌∙◌, inl, inr, Bool, true, ◌&&◌, List, [], ◌∷◌, ◌++◌, map,
  append_assoc, append-nil, Option, none, some, arith, ltb, leb, if◌then◌else◌, length, Bool-cases,
  subst,
}
use fz_server.Memory.{Bytes}
use fz_server.Map.{insert, bytes_eq}
use fz_server.Logger.{
  Logger, Stream, opened, failed, level_number, content_of, open_file, close_file, log_header,
  log_entry, log, rotated_name, rotate, write_entry, process_entry, Action, logs, processes, act,
  act_all,
}
use fz_server.Logger.Moves.{
  Moves, Moves-trans, appended, appended-append, second, map-append, accepted, log-Moves,
  content_of-open, content_of-write,
}

module _ (can_open : Bytes → Bool) (all_open : (name : Bytes) → can_open name ≡ true) where
  rotate-opens :
      (t name : Bytes) (l : Logger)
      → l.fout ≡ opened name
      → (l' : Logger) × (rotate can_open t l ≡ some l')
        × ((f : Bytes) → content_of f l'.disk ≡ content_of f l.disk)
        × ((other : Bytes) × (l'.fout ≡ opened other))
        × (l'.queue ≡ l.queue)
        × (l'.level ≡ l.level)
  unfolding rotate close_file open_file
  rotate-opens t name l o =
      let n = rotated_name t l.filename in
      (
        record l {
          fout = opened n;
          len = length (content_of n l.disk);
          disk = insert n (content_of n l.disk) l.disk;
        },
        rw (o, close_file, all_open n) refl,
        λ f. content_of-open f n l.disk,
        (n, refl),
        refl,
        refl,
      )

  -- The state after the first entry of the queue has been written.
  after_write : Bytes → Bytes → List Bytes → Logger → Logger
  after_write name entry q l = record l {
    queue = q;
    disk = insert name (content_of name l.disk ++ entry) l.disk;
  }

  written :
      {name : Bytes} (entry : Bytes) (l : Logger)
      → l.fout ≡ opened name
      → write_entry entry l ≡ after_write name entry l.queue l
  unfolding write_entry after_write
  written {name} entry l o = by_cases l.fout o
    where
      by_cases :
          (s : Stream)
          → s ≡ opened name
          → elim s [
            | opened n ↦ record l { disk = insert n (content_of n l.disk ++ entry) l.disk }
            | _ ↦ record l { fout = failed }
          ]
            ≡ record l { disk = insert name (content_of name l.disk ++ entry) l.disk }
      by_cases s d = rw d refl

  -- A state that has the files, the queue and the level of the one after a write.
  write-Moves :
      (name entry : Bytes) (q : List Bytes) (l l' : Logger)
      → l.queue ≡ entry ∷ q
      → ((f : Bytes)
          → content_of f l'.disk
            ≡ content_of f (insert name (content_of name l.disk ++ entry) l.disk))
      → l'.queue ≡ q
      → l'.level ≡ l.level
      → (other : Bytes) × (l'.fout ≡ opened other)
      → Moves l l' ((name, entry) ∷ []) [] × (length l'.queue ≡ length l.queue - 1)
  write-Moves name entry q l l' e files same level stream = (
    record {
      order = ap (◌∷◌ entry) same ∙ sym e ∙ sym (append-nil l.queue);
      files = λ f. files f ∙ content_of-write f name entry l.disk;
      stream = stream;
      level_kept = level;
    },
    omega (arith, ap (λ (b : List Bytes). length b) same, ap (λ (b : List Bytes). length b) e),
  )

  abbrev next : Bytes → Logger → Option Logger
  next t done =
      if leb done.max done.len && ltb 0 done.max then rotate can_open t done else some done

  process_entry-step :
      (t name entry : Bytes) (q : List Bytes) (l : Logger)
      → l.fout ≡ opened name
      → l.queue ≡ entry ∷ q
      → process_entry can_open t l ≡ next t (after_write name entry q l)
  unfolding process_entry after_write
  process_entry-step t name entry q l o e =
      by_cases l.fout l.queue o e ∙ ap (next t) (written entry (record l { queue = q }) o)
    where
      by_cases :
          (s : Stream) (b : List Bytes)
          → s ≡ opened name
          → b ≡ entry ∷ q
          → elim b [
            | [] ↦ some l
            | first ∷ rest ↦ elim s [
              | failed ↦ none
              | _ ↦ next t (write_entry first (record l { queue = rest }))
            ]
          ]
            ≡ next t (write_entry entry (record l { queue = q }))
      by_cases s b d c = rw (c, d) refl

  process_entry-Moves :
      (t name : Bytes) (l : Logger) (q : List Bytes)
      → l.fout ≡ opened name
      → l.queue ≡ q
      → (l' : Logger) × (w : List (Bytes × Bytes)) × (process_entry can_open t l ≡ some l')
        × Moves l l' w []
        × (length l'.queue ≡ length l.queue - 1)
  unfolding process_entry write_entry after_write
  process_entry-Moves t name l [] o e = (
    record l { queue = [] },
    [],
    rw (e, process_entry) (ap (λ q. some (record l { queue = q })) e),
    record {
      order = sym e ∙ sym (append-nil l.queue);
      files = λ f. sym (append-nil (content_of f l.disk));
      stream = (name, o);
      level_kept = refl;
    },
    omega (arith, ap (λ (b : List Bytes). length b) e),
  )
  process_entry-Moves t name l (entry ∷ q) o e =
      elim (Bool-cases (leb l.max l.len && ltb 0 l.max)) [
        | inl full ↦
            let (l', went, files, stream, queue, level) =
              rotate-opens t name (after_write name entry q l) o in
            let (moves, shorter) = write-Moves name entry q l l' e files queue level stream in
            (
              l',
              (name, entry) ∷ [],
              process_entry-step t name entry q l o e ∙ rw full went,
              moves,
              shorter,
            )
        | inr room ↦
            let l' = after_write name entry q l in
            let (moves, shorter) =
              write-Moves name entry q l l' e (λ f. refl) refl refl (name, o) in
            (
              l',
              (name, entry) ∷ [],
              process_entry-step t name entry q l o e ∙ rw room refl,
              moves,
              shorter,
            )
      ]

  -- Where every file can be opened and the logger starts with an open one, for every interleaving
  -- of calls of `log` with rounds of `process_logs`: no round fails; what is written, followed by
  -- what the queue still holds, is what the queue held followed by the entries of the messages
  -- whose level is not below the one that is set, in order; and each file holds what it held
  -- followed by the entries written to it.
  pub act_all-Moves :
      (actions : List Action) (l : Logger) (name : Bytes)
      → l.fout ≡ opened name
      → (l' : Logger) × (w : List (Bytes × Bytes)) × (act_all can_open actions l ≡ some l')
        × Moves l l' w (accepted l.level actions)
  unfolding act_all act
  act_all-Moves [] l name o = (
    l,
    [],
    refl,
    record {
      order = sym (append-nil l.queue);
      files = λ f. sym (append-nil (content_of f l.disk));
      stream = (name, o);
      level_kept = refl;
    },
  )
  act_all-Moves (logs t level file line content ∷ rest) l name o =
      let x = log-Moves t level file line content name l o in
      let (l', w, ran, y) =
        act_all-Moves rest (log t level file line content l) x.stream.0 x.stream.1 in
      (
        l',
        w,
        ran,
        subst
            (λ least. Moves l l' w (
              (if ltb (level_number level) (level_number l.level)
                then []
                else log_entry (log_header t level file line) content ∷ [])
              ++ accepted least rest))
            x.level_kept (Moves-trans x y),
      )
  act_all-Moves (processes t ∷ rest) l name o =
      let (m, v, went, x, shorter) = process_entry-Moves t name l l.queue o refl in
      let (l', w, ran, y) = act_all-Moves rest m x.stream.0 x.stream.1 in
      (
        l',
        v ++ w,
        rw (went, act_all) ran,
        subst (λ least. Moves l l' (v ++ w) (accepted least rest)) x.level_kept (Moves-trans x y),
      )

  no_entries : (q : List Bytes) → length q ≤ 0 → q ≡ []
  no_entries [] h = refl
  no_entries (e ∷ q) h = absurd (omega arith)

  -- Where every file can be opened and the logger starts with an open one, at least as many
  -- rounds of `process_logs` as the queue has entries leave the queue empty, with its entries
  -- written in order, each at the end of a file, and nothing else written.
  pub act_all-drains :
      (times : List Bytes) (l : Logger) (name : Bytes)
      → l.fout ≡ opened name
      → length l.queue ≤ length times
      → (l' : Logger) × (w : List (Bytes × Bytes)) × (act_all can_open (map processes times) l
          ≡ some l')
        × (l'.queue ≡ [])
        × (map second w ≡ l.queue)
        × ((f : Bytes) → content_of f l'.disk ≡ content_of f l.disk ++ appended f w)
  unfolding act_all act
  act_all-drains [] l name o enough =
      let empty = no_entries l.queue enough in
      (l, [], refl, empty, sym empty, λ f. sym (append-nil (content_of f l.disk)))
  act_all-drains (t ∷ times) l name o enough =
      let (m, v, went, x, shorter) = process_entry-Moves t name l l.queue o refl in
      let (l', w, ran, empty, all, files) =
        act_all-drains times m x.stream.0 x.stream.1 (omega (arith, shorter)) in
      (
        l',
        v ++ w,
        rw (went, act_all) ran,
        empty,
        map-append v w ∙ ap (◌++◌ (map second v)) all ∙ x.order ∙ append-nil l.queue,
        λ f.
            files f
            ∙ ap (λ t. t ++ appended f w) (x.files f)
            ∙ append_assoc (content_of f l.disk) (appended f v) (appended f w)
            ∙ ap (◌++◌ (content_of f l.disk)) (sym (appended-append f v w)),
      )
