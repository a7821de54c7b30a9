-- ===== src/H264/Extract.antt =====
-- src/container/h264/h264.h: start codes, and the extraction of one NAL unit from the file buffer.
use fz_server.Prelude.{
  ℕ, zero, suc, ◌+◌, ◌-◌, Bool, ◌&&◌, ◌||◌, Option, none, some, ◌==◌, if◌then◌else◌,
}
use fz_server.Memory.{Memory, shift}
use fz_server.File.{File}

unfoldable pub start_code3 : Memory → Bool
start_code3 rec = rec 0 == 0 && rec 1 == 0 && rec 2 == 1

unfoldable pub start_code4 : Memory → Bool
start_code4 rec = rec 0 == 0 && rec 1 == 0 && rec 2 == 0 && rec 3 == 1

-- The `for` loop: `none` when it ends with `done` still 0, else `startNum` at the `break`.
unfoldable pub find_start : Memory → ℕ → ℕ → Option ℕ
unfolding start_code3 start_code4
find_start rec zero start_num = none
find_start rec (suc rounds) start_num =
    let rest = find_start (shift rec 1) rounds (start_num + 1) in
    if start_code3 rec || start_code4 rec then some start_num else rest

-- `filesize = startNum - 1`, and the `fseek` back to the start code found.
unfoldable pub seek_back : File → ℕ → Option ℕ → Option (ℕ × File)
seek_back fp size none = none
seek_back fp size (some start_num) =
    let filesize = start_num - 1 in some (filesize, record fp { pos = fp.pos + filesize - size })

-- `none` is the result -1; else the new `filesize`, and the file after the `fseek`.
unfoldable pub extract_content : Memory → File → ℕ → Option (ℕ × File)
unfolding find_start seek_back
extract_content rec fp size =
    if start_code3 rec
    then seek_back fp size (find_start (shift rec 3) (size - 3) (3 + 1))
    else if start_code4 rec
    then seek_back fp size (find_start (shift rec 4) (size - 3) (4 + 1))
    else none
