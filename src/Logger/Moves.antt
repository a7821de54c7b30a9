-- ===== src/Logger/Moves.antt =====
-- What the steps of src/utility/logger/Logger.cpp do to the queue and to the files, as a relation of two states.
use fz_server.Prelude.{
  ◌≡◌, refl, sym, ap, ◌∙◌, inl, inr, Bool, true, false, List, [], ◌∷◌, ◌++◌, map, append_assoc,
  append-nil, some, ltb, if◌then◌else◌, Bool-cases,
}
use fz_server.Prelude.Int.{ℤ}
use fz_server.Memory.{Bytes}
use fz_server.Text.{equals}
use fz_server.Map.{Map, lookup, insert, bytes_eq, equals_iff}
use fz_server.Map.Laws.{lookup-insert}
use fz_server.Logger.{
  Level, Logger, opened, level_number, or_nothing, content_of, log_header, log_entry, log, Action,
  logs, processes,
}

content_of-insert :
    (f n text : Bytes) (disk : Map Bytes Bytes)
    → content_of f (insert n text disk) ≡ (if equals n f then text else content_of f disk)
content_of-insert f n text disk =
    ap or_nothing (lookup-insert n f text disk) ∙ by_cases (equals n f)
  where
    by_cases :
        (b : Bool)
        → or_nothing (if b then some text else lookup f disk)
          ≡ (if b then text else content_of f disk)
    by_cases true = refl
    by_cases false = refl

-- The bytes that a list of writes adds to a file.
abbrev pub appended : Bytes → List (Bytes × Bytes) → Bytes
appended f [] = []
appended f ((name, entry) ∷ w) = (if equals name f then entry else []) ++ appended f w

abbrev pub second : Bytes × Bytes → Bytes
second p = p.1

pub appended-append :
    (f : Bytes) (v w : List (Bytes × Bytes)) → appended f (v ++ w) ≡ appended f v ++ appended f w
appended-append f [] w = refl
appended-append f ((name, entry) ∷ v) w =
    ap (◌++◌ (if equals name f then entry else [])) (appended-append f v w)
    ∙ sym (append_assoc (if equals name f then entry else []) (appended f v) (appended f w))

pub map-append : (v w : List (Bytes × Bytes)) → map second (v ++ w) ≡ map second v ++ map second w
map-append [] w = refl
map-append (p ∷ v) w = ap (◌∷◌ p.1) (map-append v w)

-- Between two states the entries `added` have come in, and the writes `w` have been made, each a file and
-- the entry that was appended to it.
pub record Moves (l l' : Logger) (w : List (Bytes × Bytes)) (added : List Bytes) : Type 0 where
  pub order : map second w ++ l'.queue ≡ l.queue ++ added
  pub files : (f : Bytes) → content_of f l'.disk ≡ content_of f l.disk ++ appended f w
  pub stream : (name : Bytes) × (l'.fout ≡ opened name)
  pub level_kept : l'.level ≡ l.level

pub Moves-trans :
    {l m n : Logger} {v w : List (Bytes × Bytes)} {a b : List Bytes}
    → Moves l m v a
    → Moves m n w b
    → Moves l n (v ++ w) (a ++ b)
Moves-trans {l} {m} {n} {v} {w} {a} {b} x y = record {
  order =
      ap (λ q. q ++ n.queue) (map-append v w)
      ∙ append_assoc (map second v) (map second w) n.queue
      ∙ ap (◌++◌ (map second v)) y.order
      ∙ sym (append_assoc (map second v) m.queue b)
      ∙ ap (λ q. q ++ b) x.order
      ∙ append_assoc l.queue a b;
  files = λ f.
      y.files f
      ∙ ap (λ t. t ++ appended f w) (x.files f)
      ∙ append_assoc (content_of f l.disk) (appended f v) (appended f w)
      ∙ ap (◌++◌ (content_of f l.disk)) (sym (appended-append f v w));
  stream = y.stream;
  level_kept = y.level_kept ∙ x.level_kept;
}

-- The entries of the messages whose level is not below the one that is set, in order.
abbrev pub accepted : Level → List Action → List Bytes
accepted least [] = []
accepted least (processes t ∷ rest) = accepted least rest
accepted least (logs t level file line content ∷ rest) =
    (if ltb (level_number level) (level_number least)
      then []
      else log_entry (log_header t level file line) content ∷ [])
    ++ accepted least rest

pub log-Moves :
    (t : Bytes) (level : Level) (file : Bytes) (line : ℤ) (content name : Bytes) (l : Logger)
    → l.fout ≡ opened name
    → Moves l (log t level file line content l) [] (
        if ltb (level_number level) (level_number l.level)
        then []
        else log_entry (log_header t level file line) content ∷ [])
unfolding log
log-Moves t level file line content name l o =
    elim (Bool-cases (ltb (level_number level) (level_number l.level))) [
      | inl low ↦ rw low (record {
        order = sym (append-nil l.queue);
        files = λ f. sym (append-nil (content_of f l.disk));
        stream = (name, o);
        level_kept = refl;
      })
      | inr high ↦ rw high (record {
        order = refl;
        files = λ f. sym (append-nil (content_of f l.disk));
        stream = (name, o);
        level_kept = refl;
      })
    ]

pub content_of-open :
    (f n : Bytes) (disk : Map Bytes Bytes)
    → content_of f (insert n (content_of n disk) disk) ≡ content_of f disk
content_of-open f n disk =
    content_of-insert f n (content_of n disk) disk ∙ (elim (Bool-cases (equals n f)) [
      | inl same ↦ rw same (ap (λ i. content_of i disk) ((equals_iff n f).0 same))
      | inr other ↦ rw other refl
    ])

pub content_of-write :
    (f n entry : Bytes) (disk : Map Bytes Bytes)
    → content_of f (insert n (content_of n disk ++ entry) disk)
      ≡ content_of f disk ++ appended f ((n, entry) ∷ [])
content_of-write f n entry disk =
    content_of-insert f n (content_of n disk ++ entry) disk ∙ (elim (Bool-cases (equals n f)) [
      | inl same ↦ rw same (
          ap (λ i. content_of i disk ++ entry) ((equals_iff n f).0 same)
          ∙ ap (◌++◌ (content_of f disk)) (sym (append-nil entry)))
      | inr other ↦ rw other (sym (append-nil (content_of f disk)))
    ])
