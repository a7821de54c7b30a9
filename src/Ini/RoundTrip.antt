-- ===== src/Ini/RoundTrip.antt =====
-- What `save` writes, `load` reads back.
use fz_server.Prelude.{
  ◌≡◌, refl, sym, ap, ◌∙◌, true, false, [], ◌∷◌, ◌++◌, append_assoc, append-nil, some, arith, inl,
  inr, Bool-cases,
}
use fz_server.Memory.{Bytes}
use fz_server.Text.{bytes, equals}
use fz_server.Map.{Map, lookup, bytes_eq, equals_iff}
use fz_server.Ini.{
  Section, Sections, IniFile, set_value, lines_of, load_lines, load, print_entries, str, save,
}
use fz_server.Ini.Ordered.{less, less_irrefl, less_trans, put, at_key}
use fz_server.Ini.Sorted.{AllAbove, IsSorted, AllSections, IsOrdered}
use fz_server.Ini.Entries.{
  IsName, IsKey, IsText, NoByte, NoByte-append, lines_of-line, load_line-header, load_line-entry,
}

apart : (j k : Bytes) → less j k ≡ true → (equals j k ≡ false) × (less k j ≡ false)
apart j k h = (differ, behind)
  where
    differ : equals j k ≡ false
    differ = elim (Bool-cases (equals j k)) [
      | inl same ↦ absurd (cc (h, less_irrefl k, (equals_iff j k).0 same))
      | inr other ↦ other
    ]

    behind : less k j ≡ false
    behind = elim (Bool-cases (less k j)) [
      | inl back ↦ absurd (cc (less_trans j k j h back, less_irrefl j))
      | inr not_back ↦ not_back
    ]

module _ {V : Type 0} where
  -- Every key of the map lies in front of k.
  abbrev AllBelow : Bytes → Map Bytes V → Type 0
  AllBelow k [] = Unit {0}
  AllBelow k ((j, w) ∷ m) = (less j k ≡ true) × AllBelow k m

  -- Every key of the first map lies in front of every key of the second one.
  abbrev Before : Map Bytes V → Map Bytes V → Type 0
  Before a [] = Unit {0}
  Before a ((k, v) ∷ m) = AllBelow k a × Before a m

  AllBelow-snoc :
      (k j : Bytes) (w : V) (m : Map Bytes V)
      → AllBelow k m
      → less j k ≡ true
      → AllBelow k (m ++ (j, w) ∷ [])
  AllBelow-snoc k j w [] a h = (h, tt)
  AllBelow-snoc k j w ((i, u) ∷ m) a h = (a.0, AllBelow-snoc k j w m a.1 h)

  Before-snoc :
      (a m : Map Bytes V) (k : Bytes) (v : V)
      → Before a m
      → AllAbove k m
      → Before (a ++ (k, v) ∷ []) m
  Before-snoc a [] k v b above = tt
  Before-snoc a ((j, w) ∷ m) k v b above =
      (AllBelow-snoc j k v a b.0 above.0, Before-snoc a m k v b.1 above.1)

  Before-nil : (m : Map Bytes V) → Before [] m
  Before-nil [] = tt
  Before-nil ((k, v) ∷ m) = (tt, Before-nil m)

  put-last : (k : Bytes) (v : V) (m : Map Bytes V) → AllBelow k m → put k v m ≡ m ++ (k, v) ∷ []
  unfolding put
  put-last k v [] a = refl
  put-last k v ((j, w) ∷ m) a =
      let (differ, behind) = apart j k a.0 in
      rw (differ, behind) (ap (◌∷◌ (j, w)) (put-last k v m a.1))

  put-replace :
      (k : Bytes) (v w : V) (m : Map Bytes V)
      → AllBelow k m
      → put k v (m ++ (k, w) ∷ []) ≡ m ++ (k, v) ∷ []
  unfolding put
  put-replace k v w [] a = rw ((equals_iff k k).1 refl) refl
  put-replace k v w ((j, u) ∷ m) a =
      let (differ, behind) = apart j k a.0 in
      rw (differ, behind) (ap (◌∷◌ (j, u)) (put-replace k v w m a.1))

  at_key-last :
      (k : Bytes) (d w : V) (m : Map Bytes V)
      → AllBelow k m
      → at_key k d (m ++ (k, w) ∷ []) ≡ (w, m ++ (k, w) ∷ [])
  unfolding at_key lookup
  at_key-last k d w m a = rw (found m a, at_key) refl
    where
      found : (m : Map Bytes V) → AllBelow k m → lookup k (m ++ (k, w) ∷ []) ≡ some w
      found [] a = rw ((equals_iff k k).1 refl) refl
      found ((j, u) ∷ m) a = rw ((apart j k a.0).0) (found m a.1)

set_value-last :
    (s k v : Bytes) (e : Section) (m : Sections)
    → AllBelow s m
    → AllBelow k e
    → set_value s k v (m ++ (s, e) ∷ []) ≡ m ++ (s, e ++ (k, v) ∷ []) ∷ []
unfolding set_value
set_value-last s k v e m below last =
    ap (λ (p : Section × Sections). put s (put k v p.0) p.1) (at_key-last s [] e m below)
    ∙ put-replace s (put k v e) e m below
    ∙ ap (λ f. m ++ (s, f) ∷ []) (put-last k v e last)

-- Texts that the lines can carry, throughout a map.
abbrev pub AreEntries : Section → Type 0
AreEntries [] = Unit {0}
AreEntries ((k, v) ∷ e) = IsKey k × IsText v × AreEntries e

abbrev pub AreSections : Sections → Type 0
AreSections [] = Unit {0}
AreSections ((s, e) ∷ m) = IsName s × AreEntries e × AreSections m

entry_newline : (k v : Bytes) → IsKey k → IsText v → NoByte 10 (k ++ (bytes " = " ++ v))
entry_newline k v key text =
    NoByte-append 10 k (bytes " = " ++ v) key.no_newline
      (omega arith, (omega arith, (omega arith, text.no_newline)))

load_lines-entries :
    (e a : Section) (s : Bytes) (m : Sections) (rest : Bytes)
    → AreEntries e
    → AllBelow s m
    → Before a e
    → IsSorted e
    → load_lines (lines_of (print_entries e ++ rest)) (s, m ++ (s, a) ∷ [])
      ≡ load_lines (lines_of rest) (s, m ++ (s, a ++ e) ∷ [])
unfolding load_lines print_entries
load_lines-entries [] a s m rest h below b sorted =
    ap (λ f. load_lines (lines_of rest) (s, m ++ (s, f) ∷ [])) (sym (append-nil a))
load_lines-entries ((k, v) ∷ e) a s m rest h below b sorted =
    ap (λ t. load_lines (lines_of t) (s, m ++ (s, a) ∷ []))
      (append_assoc (k ++ (bytes " = " ++ v)) (10 ∷ print_entries e) rest)
    ∙ ap (λ ls. load_lines ls (s, m ++ (s, a) ∷ []))
        (lines_of-line (k ++ (bytes " = " ++ v)) (print_entries e ++ rest)
          (entry_newline k v h.0 h.1))
    ∙ ap (load_lines (lines_of (print_entries e ++ rest))) (
        load_line-entry k v s (m ++ (s, a) ∷ []) h.0 h.1
        ∙ ap (λ n. (s, n)) (set_value-last s k v a m below b.0))
    ∙ load_lines-entries e (a ++ (k, v) ∷ []) s m rest h.2 below (Before-snoc a e k v b.1 sorted.0)
        sorted.1
    ∙ ap (λ f. load_lines (lines_of rest) (s, m ++ (s, f) ∷ [])) (append_assoc a ((k, v) ∷ []) e)

header_newline : (s : Bytes) → IsName s → NoByte 10 (b'[' ∷ (s ++ b']' ∷ []))
header_newline s h = (omega arith, NoByte-append 10 s (b']' ∷ []) h.no_newline (omega arith, tt))

load_lines-str :
    (m a : Sections) (s : Bytes)
    → AreSections m
    → IsSorted m
    → AllSections m
    → Before a m
    → (load_lines (lines_of (str m)) (s, a)).1 ≡ a ++ m
unfolding load_lines str lines_of
load_lines-str [] a s h sorted all b = sym (append-nil a)
load_lines-str ((n, e) ∷ m) a s h sorted all b =
    ap (λ ls. (load_lines ls (s, a)).1)
      (lines_of-line (b'[' ∷ (n ++ b']' ∷ [])) (print_entries e ++ (10 ∷ str m))
        (header_newline n h.0))
    ∙ ap (λ st. (load_lines (lines_of (print_entries e ++ (10 ∷ str m))) st).1)
        (load_line-header n s a h.0 ∙ ap (λ f. (n, f)) (put-last n [] a b.0))
    ∙ ap (λ (st : Bytes × Sections). st.1)
        (load_lines-entries e [] n a (10 ∷ str m) h.1 b.0 (Before-nil e) all.0)
    ∙ load_lines-str m (a ++ (n, e) ∷ []) n h.2 sorted.1 all.1 (Before-snoc a m n e b.1 sorted.0)
    ∙ append_assoc a ((n, e) ∷ []) m

-- For a file whose sections and keys are in order, and whose names, keys and values are trimmed
-- and have no newline, the names no `]`, the keys no `=` and no `[` in front: `save` reports true
-- where the file can be opened, and `load` of what it wrote into an empty IniFile gives exactly
-- the same sections, though it reports false.
pub load-save :
    (ini old : IniFile) (filename : Bytes)
    → IsOrdered ini.sections
    → AreSections ini.sections
    → old.sections ≡ []
    → ((save true ini).0 ≡ true)
      × (load filename (save true ini).1 old
          ≡ (false, record { filename = filename; sections = ini.sections }))
unfolding load save
load-save ini old filename o h empty = (
  refl,
  ap (λ m. (false, record { filename = filename; sections = m }))
      (ap (λ a. (load_lines (lines_of (str ini.sections)) ([], a)).1) empty
        ∙ load_lines-str ini.sections [] [] h o.names o.entries (Before-nil ini.sections)),
)
