-- ===== src/Ini.antt =====
-- src/utility/ini_file/IniFile.h and IniFile.cpp: the values, the two maps, the reader and the printer.
-- A std::map with keys of std::string is a list in the order of its keys.
pub mod Ordered
pub mod Trim
pub mod Values
pub mod Views
pub mod Sorted
pub mod Entries
pub mod RoundTrip
use fz_server.Prelude.{
  ℕ, zero, suc, ◌+◌, ◌-◌, Bool, true, false, ◌&&◌, ◌||◌, List, [], ◌∷◌, ◌++◌, Option, none, some,
  ◌==◌, if◌then◌else◌, length, take, drop,
}
use fz_server.Memory.{Bytes}
use fz_server.Map.{Map, lookup, erase, bytes_eq}
use fz_server.Text.{bytes, is_empty, equals}
use Ordered.{put, at_key}

-- `Value` is its text.
abbrev pub Section : Type 0
Section = Map Bytes Bytes

abbrev pub Sections : Type 0
Sections = Map Bytes Section

pub record IniFile : Type 0 where
  pub filename : Bytes
  pub sections : Sections

abbrev pub new_ini : IniFile
new_ini = record { filename = []; sections = [] }

abbrev pub is_blank : ℕ → Bool
is_blank c = c == b' ' || c == 10 || c == 13

-- `s.erase(0, s.find_first_not_of(" \n\r"))`.
unfoldable pub trim_left : Bytes → Bytes
trim_left [] = []
trim_left (c ∷ cs) = let rest = trim_left cs in if is_blank c then rest else c ∷ cs

-- `s.erase(s.find_last_not_of(" \n\r") + 1)`.
unfoldable pub trim_right : Bytes → Bytes
trim_right [] = []
trim_right (c ∷ cs) =
    let rest = trim_right cs in if is_empty rest && is_blank c then [] else c ∷ rest

unfoldable pub trim : Bytes → Bytes
unfolding trim_left trim_right
trim s = if is_empty s then s else trim_right (trim_left s)

-- `find_first_of` with one byte; `none` is `npos`.
unfoldable pub find_byte : ℕ → Bytes → Option ℕ
find_byte b [] = none
find_byte b (c ∷ cs) =
    let later = find_byte b cs in
    if c == b then some 0 else elim later [ none ↦ none | some n ↦ some (suc n) ]

unfoldable pub onto_first : ℕ → List Bytes → List Bytes
onto_first c [] = (c ∷ []) ∷ []
onto_first c (l ∷ ls) = (c ∷ l) ∷ ls

-- The lines that `std::getline` gives.
unfoldable pub lines_of : Bytes → List Bytes
unfolding onto_first
lines_of [] = []
lines_of (c ∷ cs) = let rest = lines_of cs in if c == 10 then [] ∷ rest else onto_first c rest

-- The name between the brackets. Without a `]` the position is -1, and the rest of the line is taken.
unfoldable pub header_name : Bytes → Bytes
unfolding find_byte trim
header_name line = elim (find_byte b']' line) [
  | none ↦ trim (drop 1 line)
  | some pos ↦ trim (take (pos - 1) (drop 1 line))
]

-- The key and the value of a line. Without a `=` the position is -1, and both are the whole line.
unfoldable pub entry_of : Bytes → Bytes × Bytes
unfolding find_byte trim
entry_of line = elim (find_byte b'=' line) [
  | none ↦ (trim line, trim (take (length line + 1) (drop 0 line)))
  | some pos ↦ (trim (take pos line), trim (take (length line - pos) (drop (pos + 1) line)))
]

-- `m_sections[section][key] = value`.
unfoldable pub set_value : Bytes → Bytes → Bytes → Sections → Sections
unfolding at_key put
set_value section key value m =
    let (entries, m') = at_key section [] m in put section (put key value entries) m'

-- A line that is not empty: the section of the lines that follow, and the map.
unfoldable pub load_trimmed : Bytes → Bytes × Sections → Bytes × Sections
unfolding header_name entry_of put set_value
load_trimmed [] st = st
load_trimmed (c ∷ cs) (section, m) =
    let name = header_name (c ∷ cs) in
    let (key, value) = entry_of (c ∷ cs) in
    if c == b'[' then (name, put name [] m) else (section, set_value section key value m)

-- One round of the `while` loop.
unfoldable pub load_line : Bytes → Bytes × Sections → Bytes × Sections
unfolding trim load_trimmed
load_line raw st = load_trimmed (trim raw) st

unfoldable pub load_lines : List Bytes → Bytes × Sections → Bytes × Sections
unfolding load_line
load_lines [] st = st
load_lines (l ∷ ls) st = load_lines ls (load_line l st)

-- `content` is the file's, `none` where it cannot be opened.
unfoldable pub load : Bytes → Option Bytes → IniFile → Bool × IniFile
unfolding load_lines lines_of
load filename none ini = (false, record ini { filename = filename })
load filename (some content) ini = (
  false,
  record { filename = filename; sections = (load_lines (lines_of content) ([], ini.sections)).1 },
)

-- `get` gives a reference to a value that it may have to insert: the value, and the file.
unfoldable pub get : Bytes → Bytes → IniFile → Bytes × IniFile
unfolding at_key put
get section key ini =
    let (entries, m) = at_key section [] ini.sections in
    let (value, entries') = at_key key [] entries in
    (value, record ini { sections = put section entries' m })

-- `operator[]`: a section that is missing is inserted.
unfoldable pub section_of : Bytes → IniFile → Section × IniFile
unfolding at_key
section_of section ini =
    let (entries, m) = at_key section [] ini.sections in (entries, record ini { sections = m })

unfoldable pub set : Bytes → Bytes → Bytes → IniFile → IniFile
unfolding set_value
set section key value ini = record ini { sections = set_value section key value ini.sections }

unfoldable pub has_key : Bytes → Bytes → IniFile → Bool
has_key section key ini = elim (lookup section ini.sections) [
  | none ↦ false
  | some entries ↦ elim (lookup key entries) [ none ↦ false | some _ ↦ true ]
]

unfoldable pub has_section : Bytes → IniFile → Bool
has_section section ini = elim (lookup section ini.sections) [ none ↦ false | some _ ↦ true ]

unfoldable pub remove_key : Bytes → Bytes → IniFile → IniFile
unfolding put
remove_key section key ini = elim (lookup section ini.sections) [
  | none ↦ ini
  | some entries ↦ record ini { sections = put section (erase key entries) ini.sections }
]

unfoldable pub remove_section : Bytes → IniFile → IniFile
remove_section section ini = record ini { sections = erase section ini.sections }

unfoldable pub clear : IniFile → IniFile
clear ini = record ini { sections = [] }

unfoldable pub print_entries : Section → Bytes
print_entries [] = []
print_entries ((key, value) ∷ m) = (key ++ (bytes " = " ++ value)) ++ (10 ∷ print_entries m)

unfoldable pub str : Sections → Bytes
unfolding print_entries
str [] = []
str ((name, entries) ∷ m) =
    (b'[' ∷ (name ++ b']' ∷ [])) ++ (10 ∷ (print_entries entries ++ (10 ∷ str m)))

-- `opens` tells whether the file can be opened; the result, and what the file holds then.
unfoldable pub save : Bool → IniFile → Bool × Option Bytes
unfolding str
save opens ini = if opens then (true, some (str ini.sections)) else (false, none)
