-- ===== src/File.antt =====
-- The stdio calls on the media files: a file is its bytes and the position of the next read.
pub mod Reads
use fz_server.Prelude.{ℕ, ◌+◌, length, take, drop}
use fz_server.Memory.{Bytes, Memory, fill}

pub record File : Type 0 where
  pub content : Bytes
  pub pos : ℕ

-- The bytes that `fread(buf, 1, n, fp)` delivers.
abbrev pub next_bytes : File → ℕ → Bytes
next_bytes fp n = take n (drop fp.pos fp.content)

-- `fread(buf, 1, n, fp)`: the buffer, the file and the count.
unfoldable pub fread : Memory → ℕ → File → Memory × File × ℕ
fread buf n fp =
    let got = next_bytes fp n in (fill buf got, record fp { pos = fp.pos + length got }, length got)
