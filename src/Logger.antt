-- ===== src/Logger.antt =====
-- src/utility/logger/Logger.h and Logger.cpp. `log` runs in the threads of the server and `process_logs`
-- in a thread of its own; a call of `log` and a round of the inner loop of `process_logs` are one step
-- each. `strftime` and `vsnprintf` are parameters: what they print is an argument.
pub mod Moves
pub mod Queue
pub mod Wait
pub mod Notify
use fz_server.Prelude.{
  ℕ, zero, suc, ◌+◌, ◌-◌, Bool, true, false, not, ◌&&◌, ◌||◌, List, [], ◌∷◌, ◌++◌, Option, none,
  some, ltb, leb, if◌then◌else◌, length,
}
use fz_server.Prelude.Int.{ℤ, pos}
use fz_server.Memory.{Bytes}
use fz_server.Text.{bytes, has_prefix, is_empty}
use fz_server.Text.Decimal.{show_int}
use fz_server.Map.{Map, lookup, insert, bytes_eq}

pub data Level : Type 0 where
  debug info warn error fatal : Level

unfoldable pub level_number : Level → ℕ
level_number debug = 0
level_number info = 1
level_number warn = 2
level_number error = 3
level_number fatal = 4

-- `s_level`.
unfoldable pub level_name : Level → Bytes
level_name debug = bytes "DEBUG"
level_name info = bytes "INFO"
level_name warn = bytes "WARN"
level_name error = bytes "ERROR"
level_name fatal = bytes "FATAL"

-- The stream `m_fout`: not open, open on a file, or failed.
pub data Stream : Type 0 where
  idle : Stream
  opened : Bytes → Stream
  failed : Stream

-- The members of `Logger`, and the files on the disk. A `max` that is not positive acts as 0.
pub record Logger : Type 0 where
  pub filename : Bytes
  pub fout : Stream
  pub level : Level
  pub max : ℕ
  pub len : ℕ
  pub queue : List Bytes
  pub disk : Map Bytes Bytes

unfoldable pub new_logger : Map Bytes Bytes → Logger
new_logger disk = record {
  filename = [];
  fout = idle;
  level = debug;
  max = 0;
  len = 0;
  queue = [];
  disk = disk;
}

abbrev pub or_nothing : Option Bytes → Bytes
or_nothing none = []
or_nothing (some text) = text

-- A file that is not there is as one that is empty.
abbrev pub content_of : Bytes → Map Bytes Bytes → Bytes
content_of name disk = or_nothing (lookup name disk)

-- `open`: `can_open` tells what the system lets be opened. `none` is the `logic_error`, which is thrown
-- too where the stream is open already.
unfoldable pub open_file : (Bytes → Bool) → Bytes → Logger → Option Logger
open_file can_open name l = elim l.fout [
  | opened _ ↦ none
  | _ ↦
      if can_open name
      then some (record l {
        fout = opened name;
        len = length (content_of name l.disk);
        disk = insert name (content_of name l.disk) l.disk;
      })
      else none
]

-- `close`: a stream that is not open fails.
unfoldable pub close_file : Logger → Logger
close_file l = elim l.fout [ opened _ ↦ record l { fout = idle } | _ ↦ record l { fout = failed } ]

unfoldable pub set_level : Level → Logger → Logger
set_level level l = record l { level = level }

unfoldable pub set_max : ℕ → Logger → Logger
set_max n l = record l { max = n }

unfoldable pub set_filename : Bytes → Logger → Logger
set_filename name l = record l { filename = name }

-- "%s %s %s:%d " of `log`.
unfoldable pub log_header : Bytes → Level → Bytes → ℤ → Bytes
unfolding level_name show_int
log_header timestamp level file line =
    timestamp
    ++ (b' ' ∷ (level_name level ++ (b' ' ∷ (file ++ (b':' ∷ (show_int line ++ b' ' ∷ []))))))

-- The entry: empty where the message is.
unfoldable pub log_entry : Bytes → Bytes → Bytes
log_entry header content = if is_empty content then [] else header ++ (content ++ 10 ∷ [])

-- `log`; `content` is what `vsnprintf` prints of the arguments.
unfoldable pub log : Bytes → Level → Bytes → ℤ → Bytes → Logger → Logger
unfolding log_header log_entry level_number
log timestamp level file line content l =
    let header = log_header timestamp level file line in
    if ltb (level_number level) (level_number l.level)
    then l
    else record l { len = l.len + length header; queue = l.queue ++ log_entry header content ∷ [] }

-- `filename.insert(pos, timestamp)` at the first ".log"; `none` where there is none.
unfoldable pub stamped : Bytes → Bytes → Option Bytes
unfolding has_prefix
stamped timestamp [] = none
stamped timestamp (c ∷ cs) =
    let later = stamped timestamp cs in
    if has_prefix (bytes ".log") (c ∷ cs)
    then some (timestamp ++ (c ∷ cs))
    else elim later [ none ↦ none | some rest ↦ some (c ∷ rest) ]

unfoldable pub rotated_name : Bytes → Bytes → Bytes
unfolding stamped
rotated_name timestamp name = elim (stamped timestamp name) [ none ↦ name | some other ↦ other ]

unfoldable pub rotate : (Bytes → Bool) → Bytes → Logger → Option Logger
unfolding close_file open_file rotated_name
rotate can_open timestamp l = open_file can_open (rotated_name timestamp l.filename) (close_file l)

-- `m_fout << entry`: a stream that is not open fails, and the entry is lost.
unfoldable pub write_entry : Bytes → Logger → Logger
write_entry entry l = elim l.fout [
  | opened name ↦ record l { disk = insert name (content_of name l.disk ++ entry) l.disk }
  | _ ↦ record l { fout = failed }
]

-- One round of the inner loop of `process_logs`; `none` is an exception, which ends the program. An empty
-- queue ends the loop.
unfoldable pub process_entry : (Bytes → Bool) → Bytes → Logger → Option Logger
unfolding write_entry rotate
process_entry can_open timestamp l = elim l.queue [
  | [] ↦ some l
  | entry ∷ queue ↦
      let rest = record l { queue = queue } in
      let done = write_entry entry rest in
      elim l.fout [
        | failed ↦ none
        | _ ↦
            if leb done.max done.len && ltb 0 done.max
            then rotate can_open timestamp done
            else some done
      ]
]

-- The steps of the threads, in the order in which they happen.
pub data Action : Type 0 where
  logs : Bytes → Level → Bytes → ℤ → Bytes → Action
  processes : Bytes → Action

unfoldable pub act : (Bytes → Bool) → Action → Logger → Option Logger
unfolding log process_entry
act can_open (logs timestamp level file line content) l =
    some (log timestamp level file line content l)
act can_open (processes timestamp) l = process_entry can_open timestamp l

unfoldable pub act_all : (Bytes → Bool) → List Action → Logger → Option Logger
unfolding act
act_all can_open [] l = some l
act_all can_open (a ∷ rest) l = elim (act can_open a l) [
  | none ↦ none
  | some l' ↦ act_all can_open rest l'
]
