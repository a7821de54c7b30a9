-- ===== src/Text.antt =====
-- Byte strings: the parts of <cstring>, <cstdio> and std::string that the server uses.
pub mod Decimal
pub mod Width
pub mod Scan
use Prim.Native.Char.{code}
use Prim.Native.String.{String}
use fz_server.Prelude.{
  ℕ, zero, suc, ◌+◌, ◌-◌, Bool, true, false, not, ◌&&◌, ◌||◌, List, [], ◌∷◌, ◌++◌, Option, none,
  some, ◌==◌, leb, if◌then◌else◌, length,
}
use fz_server.Memory.{Bytes}

-- The bytes of a literal, which is ASCII throughout the sources.
abbrev pub bytes : String → Bytes
bytes String.[] = []
bytes (String.◌∷◌ c s) = code c ∷ bytes s

abbrev pub is_empty : Bytes → Bool
is_empty [] = true
is_empty _ = false

-- `strcmp(a, b) == 0`, and `==` on std::string.
unfoldable pub equals : Bytes → Bytes → Bool
equals [] [] = true
equals (x ∷ xs) (y ∷ ys) = x == y && equals xs ys
equals _ _ = false

-- `strncmp(s, p, strlen(p)) == 0`.
unfoldable pub has_prefix : Bytes → Bytes → Bool
has_prefix [] s = true
has_prefix (p ∷ ps) [] = false
has_prefix (p ∷ ps) (c ∷ cs) = p == c && has_prefix ps cs

-- `strstr(s, p) != NULL`.
unfoldable pub contains : Bytes → Bytes → Bool
unfolding has_prefix
contains p [] = has_prefix p []
contains p (c ∷ cs) = has_prefix p (c ∷ cs) || contains p cs

-- The bytes up to the first one in which the test fails, and the rest from there on.
unfoldable pub span : (ℕ → Bool) → Bytes → Bytes × Bytes
span test [] = ([], [])
span test (c ∷ cs) =
    let (front, rest) = span test cs in if test c then (c ∷ front, rest) else ([], c ∷ cs)

-- `isspace` in the C locale.
abbrev pub is_space : ℕ → Bool
is_space c = c == b' ' || (leb 9 c && leb c 13)

abbrev pub is_digit : ℕ → Bool
is_digit c = leb b'0' c && leb c b'9'

-- A C string ends at its first zero byte.
unfoldable pub c_string : Bytes → Bytes
unfolding span
c_string s = (span (λ c. not (c == 0)) s).0

unfoldable pub skip_spaces : Bytes → Bytes
unfolding span
skip_spaces s = (span is_space s).1

-- `strtok` with one delimiter: the runs of other bytes, none of them empty.
unfoldable pub tokens_onto : ℕ → Bytes → Bytes → List Bytes
tokens_onto delimiter word [] = if is_empty word then [] else word ∷ []
tokens_onto delimiter word (c ∷ cs) =
    let inside = tokens_onto delimiter (word ++ c ∷ []) cs in
    let outside = tokens_onto delimiter [] cs in
    if c == delimiter then (if is_empty word then outside else word ∷ outside) else inside

unfoldable pub tokens : ℕ → Bytes → List Bytes
unfolding tokens_onto
tokens delimiter s = tokens_onto delimiter [] s
