-- ===== src/SessionId.antt =====
-- src/utility/generate_session.h: a session's name is sixteen random bytes in hexadecimal.
use fz_server.Prelude.{ℕ, ◌+◌, ◌/◌, ◌%◌, [], ◌∷◌, ltb, take, if◌then◌else◌}
use fz_server.Memory.{Bytes}

abbrev hex_digit : ℕ → ℕ
hex_digit n = if ltb n 10 then 48 + n else 87 + n

-- `std::hex` at width 2, filled with `0`.
unfoldable pub bytes_to_hex : Bytes → Bytes
bytes_to_hex [] = []
bytes_to_hex (b ∷ bs) = hex_digit (b / 16) ∷ hex_digit (b % 16) ∷ bytes_to_hex bs

-- The bytes that the generator delivers are a parameter; the first n are taken.
unfoldable pub generate_random_bytes : Bytes → ℕ → Bytes
generate_random_bytes source n = take n source

unfoldable pub generate_session_id : Bytes → Bytes
unfolding bytes_to_hex generate_random_bytes
generate_session_id source = bytes_to_hex (generate_random_bytes source 16)
