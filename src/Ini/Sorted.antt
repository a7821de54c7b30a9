-- ===== src/Ini/Sorted.antt =====
-- The maps stay in order, so that `str` prints each section and each key once.
use fz_server.Prelude.{
  ◌≡◌, inl, inr, true, false, List, [], ◌∷◌, Option, none, some, arith, Bool-cases, Option-cases,
  subst, ◌==◌,
}
use fz_server.Memory.{Bytes}
use fz_server.Text.{equals}
use fz_server.Map.{Map, lookup, erase, bytes_eq, equals_iff}
use fz_server.Ini.{
  Section, Sections, IniFile, set_value, load_trimmed, load_line, load_lines, lines_of, load, get,
  set, remove_key, remove_section, section_of, trim, header_name, entry_of,
}
use fz_server.Ini.Ordered.{less, less_trans, less_total, put, at_key}

module _ {V : Type 0} where
  -- Every key of the map lies behind k.
  abbrev pub AllAbove : Bytes → Map Bytes V → Type 0
  AllAbove k [] = Unit {0}
  AllAbove k ((j, v) ∷ m) = (less k j ≡ true) × AllAbove k m

  abbrev pub IsSorted : Map Bytes V → Type 0
  IsSorted [] = Unit {0}
  IsSorted ((k, v) ∷ m) = AllAbove k m × IsSorted m

  AllAbove-trans : (i k : Bytes) (m : Map Bytes V) → less i k ≡ true → AllAbove k m → AllAbove i m
  AllAbove-trans i k [] h a = tt
  AllAbove-trans i k ((j, v) ∷ m) h a = (less_trans i k j h a.0, AllAbove-trans i k m h a.1)

  AllAbove-put :
      (i k : Bytes) (v : V) (m : Map Bytes V)
      → less i k ≡ true
      → AllAbove i m
      → AllAbove i (put k v m)
  unfolding put
  AllAbove-put i k v [] h a = (h, tt)
  AllAbove-put i k v ((j, w) ∷ m) h a = ground (arith, AllAbove-put i k v m h a.1)

  AllAbove-erase : (i k : Bytes) (m : Map Bytes V) → AllAbove i m → AllAbove i (erase k m)
  unfolding erase
  AllAbove-erase i k [] a = tt
  AllAbove-erase i k ((j, w) ∷ m) a = ground (arith, AllAbove-erase i k m a.1)

  pub put-IsSorted : (k : Bytes) (v : V) (m : Map Bytes V) → IsSorted m → IsSorted (put k v m)
  unfolding put
  put-IsSorted k v [] s = (tt, tt)
  put-IsSorted k v ((j, w) ∷ m) s = elim (Bool-cases (equals j k)) [
    | inl same ↦ rw same (subst (λ i. AllAbove i m) ((equals_iff j k).0 same) s.0, s.1)
    | inr other ↦ elim (Bool-cases (less k j)) [
      | inl before ↦ rw (other, before) ((before, AllAbove-trans k j m before s.0), s)
      | inr behind ↦
          rw (other, behind)
            (AllAbove-put j k v m (less_total k j (flip other) behind) s.0, put-IsSorted k v m s.1)
    ]
  ]
    where
      flip : equals j k ≡ false → equals k j ≡ false
      flip h = ground (arith, h, equals_iff j k, equals_iff k j)

  pub erase-IsSorted : (k : Bytes) (m : Map Bytes V) → IsSorted m → IsSorted (erase k m)
  unfolding erase
  erase-IsSorted k [] s = tt
  erase-IsSorted k ((j, w) ∷ m) s = ground (arith, erase-IsSorted k m s.1, AllAbove-erase j k m s.0)

  pub at_key-IsSorted :
      (k : Bytes) (d : V) (m : Map Bytes V) → IsSorted m → IsSorted (at_key k d m).1
  unfolding at_key
  at_key-IsSorted k d m s = elim (Option-cases (lookup k m)) [
    | inl missing ↦ rw (missing, at_key) (put-IsSorted k d m s)
    | inr (v, found) ↦ rw (found, at_key) s
  ]

-- The values of a map that have a property.
abbrev pub AllSections : Sections → Type 0
AllSections [] = Unit {0}
AllSections ((k, e) ∷ m) = IsSorted e × AllSections m

pub record IsOrdered (m : Sections) : Type 0 where
  pub names : IsSorted m
  pub entries : AllSections m

AllSections-put :
    (k : Bytes) (e : Section) (m : Sections) → IsSorted e → AllSections m → AllSections (put k e m)
unfolding put
AllSections-put k e [] h a = (h, tt)
AllSections-put k e ((j, f) ∷ m) h a = ground (arith, AllSections-put k e m h a.1)

AllSections-erase : (k : Bytes) (m : Sections) → AllSections m → AllSections (erase k m)
unfolding erase
AllSections-erase k [] a = tt
AllSections-erase k ((j, f) ∷ m) a = ground (arith, AllSections-erase k m a.1)

AllSections-lookup :
    (k : Bytes) (m : Sections) {e : Section} → AllSections m → lookup k m ≡ some e → IsSorted e
unfolding lookup
AllSections-lookup k [] a h = absurd (cc h)
AllSections-lookup k ((j, f) ∷ m) {e} a h = elim (Bool-cases (equals j k)) [
  | inl same ↦ subst IsSorted (of_some (rw same at h)) a.0
  | inr other ↦ AllSections-lookup k m a.1 (rw other at h)
]
  where
    of_some : some f ≡ some e → f ≡ e
    of_some p = cc p

pub put-IsOrdered :
    (k : Bytes) (e : Section) (m : Sections) → IsSorted e → IsOrdered m → IsOrdered (put k e m)
put-IsOrdered k e m h o = record {
  names = put-IsSorted k e m o.names;
  entries = AllSections-put k e m h o.entries;
}

at_key-IsOrdered :
    (k : Bytes) (m : Sections)
    → IsOrdered m
    → IsSorted (at_key k [] m).0 × IsOrdered (at_key k [] m).1
unfolding at_key
at_key-IsOrdered k m o = elim (Option-cases (lookup k m)) [
  | inl missing ↦ rw (missing, at_key) (tt, put-IsOrdered k [] m tt o)
  | inr (e, found) ↦ rw (found, at_key) (AllSections-lookup k m o.entries found, o)
]

set_value-IsOrdered : (s k v : Bytes) (m : Sections) → IsOrdered m → IsOrdered (set_value s k v m)
unfolding set_value
set_value-IsOrdered s k v m o =
    let (e, o') = at_key-IsOrdered s m o in put-IsOrdered s _ _ (put-IsSorted k v _ e) o'

load_trimmed-IsOrdered :
    (line section : Bytes) (m : Sections)
    → IsOrdered m
    → IsOrdered (load_trimmed line (section, m)).1
unfolding load_trimmed
load_trimmed-IsOrdered [] section m o = o
load_trimmed-IsOrdered (c ∷ cs) section m o = elim (Bool-cases (c == b'[')) [
  | inl header ↦ rw header (put-IsOrdered (header_name (c ∷ cs)) [] m tt o)
  | inr entry ↦
      rw entry (set_value-IsOrdered section (entry_of (c ∷ cs)).0 (entry_of (c ∷ cs)).1 m o)
]

load_lines-IsOrdered :
    (ls : List Bytes) (st : Bytes × Sections) → IsOrdered st.1 → IsOrdered (load_lines ls st).1
unfolding load_lines load_line
load_lines-IsOrdered [] st o = o
load_lines-IsOrdered (l ∷ ls) st o =
    load_lines-IsOrdered ls (load_line l st) (load_trimmed-IsOrdered (trim l) st.0 st.1 o)

-- `load` of any content, `set`, `get`, `operator[]`, and `remove` of a key or of a section, keep
-- the sections and the keys of each section in strictly increasing order.
pub load-IsOrdered :
    (filename : Bytes) (content : Option Bytes) (s k v : Bytes) (ini : IniFile)
    → IsOrdered ini.sections
    → IsOrdered (load filename content ini).1.sections
      × IsOrdered (set s k v ini).sections
      × IsOrdered (get s k ini).1.sections
      × IsOrdered (remove_key s k ini).sections
      × IsOrdered (remove_section s ini).sections
      × IsOrdered (section_of s ini).1.sections
unfolding load set get remove_key remove_section section_of
load-IsOrdered filename content s k v ini o =
    let (e, o') = at_key-IsOrdered s ini.sections o in
    (
      loaded content,
      set_value-IsOrdered s k v ini.sections o,
      put-IsOrdered s _ _ (at_key-IsSorted k [] _ e) o',
      removed,
      record {
        names = erase-IsSorted s ini.sections o.names;
        entries = AllSections-erase s ini.sections o.entries;
      },
      o',
    )
  where
    loaded : (content : Option Bytes) → IsOrdered (load filename content ini).1.sections
    loaded none = o
    loaded (some text) = load_lines-IsOrdered (lines_of text) ([], ini.sections) o

    removed : IsOrdered (remove_key s k ini).sections
    removed = elim (Option-cases (lookup s ini.sections)) [
      | inl missing ↦ rw (missing, remove_key) o
      | inr (e, found) ↦
          rw (found, remove_key)
            (put-IsOrdered s (erase k e) ini.sections
              (erase-IsSorted k e (AllSections-lookup s ini.sections o.entries found)) o)
    ]
