-- ===== src/Memory.antt =====
-- Byte buffers reached through pointers. A buffer is the function from an offset to the byte there,
-- whatever was allocated: a read that runs past the end yields the byte that lies there.
pub mod Slices
use fz_server.Prelude.{
  ℕ, zero, suc, ◌+◌, ◌-◌, ◌&&◌, List, [], ◌∷◌, leb, ltb, if◌then◌else◌, length, get_or,
}

abbrev pub Bytes : Type 0
Bytes = List ℕ

abbrev pub Memory : Type 0
Memory = ℕ → ℕ

-- `m + k` on a pointer.
abbrev pub shift : Memory → ℕ → Memory
shift m k i = m (k + i)

-- `m[k] = v`.
abbrev pub store : Memory → ℕ → ℕ → Memory
store m k v i = if leb k i && leb i k then v else m i

-- `memcpy(m + k, src, n)`.
abbrev pub memcpy : Memory → ℕ → Memory → ℕ → Memory
memcpy m k src n i = if leb k i && ltb i (k + n) then src (i - k) else m i

-- The n bytes from offset k on.
abbrev pub slice : Memory → ℕ → ℕ → Bytes
slice m k zero = []
slice m k (suc n) = m k ∷ slice m (k + 1) n

-- `fread(m, 1, …)` that delivers `bs`: the rest of the buffer keeps its bytes.
abbrev pub fill : Memory → Bytes → Memory
fill m bs i = if ltb i (length bs) then get_or bs i 0 else m i
