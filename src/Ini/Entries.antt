-- ===== src/Ini/Entries.antt =====
-- What one printed line is read as.
use fz_server.Prelude.{
  take-append, take-long, ℕ, suc, ◌+◌, ◌-◌, ◌≡◌, ◌≢◌, refl, sym, ap, ap₂, ◌∙◌, Bool, true, false,
  [], ◌∷◌, ◌++◌, append_assoc, some, arith, ◌==◌, length, length-append, take, drop, drop-append,
}
use fz_server.Memory.{Bytes}
use fz_server.Text.{bytes, is_empty}
use fz_server.Ini.{
  Sections, is_blank, trim_right, trim, find_byte, lines_of, header_name, entry_of, set_value,
  load_trimmed, load_line,
}
use fz_server.Ini.Ordered.{put}
use fz_server.Ini.Trim.{
  starts_ink, IsTrimmed, IsTrimmed-starts_ink, trim_right-append, trim-starts_ink, trim-blank,
  trim-IsTrimmed_lem,
}

abbrev pub NoByte : ℕ → Bytes → Type 0
NoByte b [] = Unit {0}
NoByte b (c ∷ cs) = (c ≢ b) × NoByte b cs

abbrev starts_bracket : Bytes → Bool
starts_bracket [] = false
starts_bracket (c ∷ cs) = c == b'['

-- Texts that a line can carry.
pub record IsName (s : Bytes) : Type 0 where
  pub trimmed : IsTrimmed s
  pub no_newline : NoByte 10 s
  pub no_bracket : NoByte 93 s

pub record IsKey (s : Bytes) : Type 0 where
  pub trimmed : IsTrimmed s
  pub no_newline : NoByte 10 s
  pub no_equals : NoByte 61 s
  pub no_header : starts_bracket s ≡ false

pub record IsText (s : Bytes) : Type 0 where
  pub trimmed : IsTrimmed s
  pub no_newline : NoByte 10 s

pub NoByte-append : (b : ℕ) (s t : Bytes) → NoByte b s → NoByte b t → NoByte b (s ++ t)
NoByte-append b [] t h k = k
NoByte-append b (c ∷ cs) t h k = (h.0, NoByte-append b cs t h.1 k)

pub lines_of-line : (l rest : Bytes) → NoByte 10 l → lines_of (l ++ 10 ∷ rest) ≡ l ∷ lines_of rest
unfolding lines_of
lines_of-line [] rest h = refl
lines_of-line (c ∷ l) rest h = rw (lines_of-line l rest h.1) (ground (arith, h.0))

find_byte-append : (b : ℕ) (s t : Bytes) → NoByte b s → find_byte b (s ++ b ∷ t) ≡ some (length s)
unfolding find_byte
find_byte-append b [] t h = ground arith
find_byte-append b (c ∷ cs) t h = rw (find_byte-append b cs t h.1) (ground (arith, h.0))

-- What stands in front of the byte found, and behind it.
drop-found : (b : ℕ) (s t : Bytes) → drop (length s + 1) (s ++ b ∷ t) ≡ t
drop-found b s t =
    ap (drop (length s + 1)) (sym (append_assoc s (b ∷ []) t))
    ∙ drop-append (length s + 1) (s ++ b ∷ []) t (length-append s (b ∷ []))

header_name-is : (name : Bytes) → IsName name → header_name (b'[' ∷ (name ++ b']' ∷ [])) ≡ name
unfolding header_name
header_name-is name h =
    rw (find_byte-append 93 (b'[' ∷ name) [] (omega arith, h.no_bracket), header_name)
      (ap (λ n. trim (take n (name ++ 93 ∷ []))) {x = suc (length name) - 1} {y = length name}
          (omega arith)
        ∙ ap trim (take-append name (93 ∷ []))
        ∙ trim-IsTrimmed_lem h.trimmed)

trim_right-ink : (c : ℕ) (cs : Bytes) → is_blank c ≡ false → trim_right (c ∷ cs) ≡ c ∷ trim_right cs
unfolding trim_right
trim_right-ink c cs h = ground (arith, h)

pub load_line-header :
    (name section : Bytes) (m : Sections)
    → IsName name
    → load_line (b'[' ∷ (name ++ b']' ∷ [])) (section, m) ≡ (name, put name [] m)
unfolding load_line load_trimmed
load_line-header name section m h =
    ap (λ l. load_trimmed l (section, m)) whole ∙ rw (header_name-is name h) refl
  where
    whole : trim (b'[' ∷ (name ++ b']' ∷ [])) ≡ b'[' ∷ (name ++ b']' ∷ [])
    whole =
        trim-starts_ink (b'[' ∷ (name ++ b']' ∷ [])) refl
        ∙ trim_right-append (b'[' ∷ name) (b']' ∷ []) refl

-- What is left of the blanks that `str` puts round the `=`.
abbrev before : Bytes → Bytes
before [] = []
before (c ∷ cs) = (c ∷ cs) ++ 32 ∷ []

abbrev behind : Bytes → Bytes
behind [] = []
behind (c ∷ cs) = 32 ∷ c ∷ cs

trim_right-behind : (v : Bytes) → IsTrimmed v → trim_right (32 ∷ v) ≡ behind v
trim_right-behind [] t = unfold trim_right in refl
trim_right-behind (c ∷ cs) t =
    trim_right-append (32 ∷ []) (c ∷ cs) (ap is_empty t.right) ∙ ap (◌∷◌ 32) t.right

trim_right-blank : (s : Bytes) → trim_right (s ++ 32 ∷ []) ≡ trim_right s
unfolding trim_right
trim_right-blank [] = refl
trim_right-blank (c ∷ cs) = rw (trim_right-blank cs) refl

starts_ink-append : (s t : Bytes) → starts_ink s ≡ true → starts_ink (s ++ t) ≡ true
starts_ink-append [] t h = absurd (ground (arith, h))
starts_ink-append (c ∷ cs) t h = h

trim-before : (k : Bytes) → IsTrimmed k → trim (before k) ≡ k
trim-before [] t = trim-IsTrimmed_lem t
trim-before (c ∷ cs) t =
    trim-starts_ink ((c ∷ cs) ++ 32 ∷ [])
      (starts_ink-append (c ∷ cs) (32 ∷ []) (IsTrimmed-starts_ink t))
    ∙ trim_right-blank (c ∷ cs)
    ∙ t.right

trim-behind : (v : Bytes) → IsTrimmed v → trim (behind v) ≡ v
trim-behind [] t = trim-IsTrimmed_lem t
trim-behind (c ∷ cs) t = trim-blank 32 (c ∷ cs) refl ∙ trim-IsTrimmed_lem t

trim-entry :
    (k v : Bytes)
    → IsTrimmed k
    → IsTrimmed v
    → trim (k ++ (bytes " = " ++ v)) ≡ before k ++ 61 ∷ behind v
trim-entry [] v t u =
    trim-blank 32 (61 ∷ 32 ∷ v) refl
    ∙ trim-starts_ink (61 ∷ 32 ∷ v) refl
    ∙ trim_right-ink 61 (32 ∷ v) refl
    ∙ ap (◌∷◌ 61) (trim_right-behind v u)
trim-entry (c ∷ cs) v t u =
    ap trim (sym (append_assoc (c ∷ cs) (32 ∷ []) (61 ∷ 32 ∷ v)))
    ∙ trim-starts_ink (before (c ∷ cs) ++ 61 ∷ 32 ∷ v) (IsTrimmed-starts_ink t)
    ∙ trim_right-append (before (c ∷ cs)) (61 ∷ 32 ∷ v)
        (ap is_empty (trim_right-ink 61 (32 ∷ v) refl))
    ∙ ap (λ r. before (c ∷ cs) ++ r)
        (trim_right-ink 61 (32 ∷ v) refl ∙ ap (◌∷◌ 61) (trim_right-behind v u))

entry_of-split : (s t : Bytes) → NoByte 61 s → entry_of (s ++ 61 ∷ t) ≡ (trim s, trim t)
unfolding entry_of
entry_of-split s t h =
    rw (find_byte-append 61 s t h, entry_of)
      (ap₂ (λ a b. (trim a, trim b)) (take-append s (61 ∷ t))
        (ap (take (length (s ++ 61 ∷ t) - length s)) (drop-found 61 s t)
          ∙ take-long _ t (omega (arith, length-append s (61 ∷ t)))))

-- A line with a byte in front that is no bracket.
load_trimmed-entry :
    (line section : Bytes) (m : Sections)
    → is_empty line ≡ false
    → starts_bracket line ≡ false
    → load_trimmed line (section, m)
      ≡ (section, set_value section (entry_of line).0 (entry_of line).1 m)
unfolding load_trimmed
load_trimmed-entry [] section m e h = absurd (ground (arith, e))
load_trimmed-entry (c ∷ cs) section m e h = rw h refl

pub load_line-entry :
    (k v section : Bytes) (m : Sections)
    → IsKey k
    → IsText v
    → load_line (k ++ (bytes " = " ++ v)) (section, m) ≡ (section, set_value section k v m)
unfolding load_line
load_line-entry k v section m key text =
    ap (λ l. load_trimmed l (section, m)) (trim-entry k v key.trimmed text.trimmed)
    ∙ load_trimmed-entry (before k ++ 61 ∷ behind v) section m (full k) (first k key.no_header)
    ∙ ap (λ (p : Bytes × Bytes). (section, set_value section p.0 p.1 m))
        (entry_of-split (before k) (behind v) (kept k key.no_equals)
          ∙ ap₂ (λ a b. (a, b)) (trim-before k key.trimmed) (trim-behind v text.trimmed))
  where
    full : (k : Bytes) → is_empty (before k ++ 61 ∷ behind v) ≡ false
    full [] = refl
    full (c ∷ cs) = refl

    first :
        (k : Bytes) → starts_bracket k ≡ false → starts_bracket (before k ++ 61 ∷ behind v) ≡ false
    first [] h = refl
    first (c ∷ cs) h = h

    kept : (k : Bytes) → NoByte 61 k → NoByte 61 (before k)
    kept [] h = tt
    kept (c ∷ cs) h = NoByte-append 61 (c ∷ cs) (32 ∷ []) h (omega arith, tt)
