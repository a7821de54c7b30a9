-- ===== src/Net.antt =====
-- The socket calls that the senders make, `send` and `sendto`, as a log of what was handed over. What
-- the kernel answers is a parameter: `replies n` is the result of the n-th call, `none` for a negative
-- one, else the number of bytes taken.
use fz_server.Prelude.{ℕ, ◌%◌, ◌-◌, [], ◌∷◌, ◌++◌, List, Option, length}
use fz_server.Prelude.Int.{ℤ, pos, negsuc}
use fz_server.Memory.{Bytes}

pub data Frame : Type 0 where
  -- `sendto` on a socket, with the fields `s_addr` (the text given to `inet_addr`) and `sin_port`.
  datagram : ℤ → Bytes → ℕ → Bytes → Frame
  -- `send` on a connected socket.
  stream : ℤ → Bytes → Frame

pub record Net : Type 0 where
  pub replies : ℕ → Option ℕ
  pub sent : List Frame

unfoldable pub transmit : Net → Frame → Net × Option ℕ
transmit n f = (record n { sent = n.sent ++ f ∷ [] }, n.replies (length n.sent))

-- The bytes that a frame hands to the kernel.
abbrev pub contents : Frame → Bytes
contents (datagram s ip port bs) = bs
contents (stream s bs) = bs

-- An `int` passed where a `uint16_t` is wanted.
abbrev pub to_u16 : ℤ → ℕ
to_u16 (pos n) = n % 65536
to_u16 (negsuc n) = 65535 - n % 65536
