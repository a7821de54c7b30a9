-- ===== src/Word.antt =====
-- Unsigned words of 16 and 32 bits, their bytes in memory (the target is little-endian), and the
-- byte-order functions of <arpa/inet.h>.
use fz_server.Prelude.{ℕ, ◌+◌, ◌*◌, ◌/◌, ◌%◌, ◌<◌, ◌≡◌, [], ◌∷◌, arith}
use fz_server.Memory.{Bytes}

abbrev pub u8 : ℕ → ℕ
u8 n = n % 256

abbrev pub u16 : ℕ → ℕ
u16 n = n % 65536

abbrev pub u32 : ℕ → ℕ
u32 n = n % 4294967296

-- `htons` and `ntohs` swap the two bytes.
unfoldable pub htons : ℕ → ℕ
htons n = n % 256 * 256 + n / 256 % 256

unfoldable pub ntohs : ℕ → ℕ
unfolding htons
ntohs n = htons n

unfoldable pub htonl : ℕ → ℕ
htonl n = n % 256 * 16777216 + n / 256 % 256 * 65536 + n / 65536 % 256 * 256 + n / 16777216 % 256

unfoldable pub ntohl : ℕ → ℕ
unfolding htonl
ntohl n = htonl n

-- The bytes of a word as they lie in memory, the lowest first.
abbrev pub bytes16 : ℕ → Bytes
bytes16 n = n % 256 ∷ n / 256 % 256 ∷ []

abbrev pub bytes32 : ℕ → Bytes
bytes32 n = n % 256 ∷ n / 256 % 256 ∷ n / 65536 % 256 ∷ n / 16777216 % 256 ∷ []

-- A word in network order, the highest byte first.
abbrev pub be16 : ℕ → ℕ → ℕ
be16 a b = a * 256 + b

abbrev pub be32 : ℕ → ℕ → ℕ → ℕ → ℕ
be32 a b c d = a * 16777216 + b * 65536 + c * 256 + d

pub ntohs-htons : (n : ℕ) → n < 65536 → ntohs (htons n) ≡ n
unfolding ntohs
ntohs-htons n h = omega arith

pub ntohl-htonl : (n : ℕ) → n < 4294967296 → ntohl (htonl n) ≡ n
unfolding ntohl
ntohl-htonl n h = omega arith

pub bytes16-htons : (n : ℕ) → bytes16 (htons n) ≡ n / 256 % 256 ∷ n % 256 ∷ []
unfolding htons
bytes16-htons n = ground arith

pub bytes32-htonl :
    (n : ℕ)
    → bytes32 (htonl n) ≡ n / 16777216 % 256 ∷ n / 65536 % 256 ∷ n / 256 % 256 ∷ n % 256 ∷ []
unfolding htonl
bytes32-htonl n = ground arith
