-- ===== src/Tests/Logs.antt =====
-- The log on concrete inputs.
use fz_server.Prelude.{◌≡◌, ◌+◌, ◌≤◌, ◌<◌, refl, Bool, true, List, [], ◌∷◌, ◌++◌, map, some, arith}
use fz_server.Prelude.Int.{pos}
use fz_server.Memory.{Bytes}
use fz_server.Text.{bytes}
use fz_server.Logger.{
  Logger, Action, info, error, warn, opened, logs, processes, content_of, act_all,
}
use fz_server.Logger.Moves.{Moves, accepted, appended, second}
use fz_server.Logger.Queue.{act_all-Moves, act_all-drains}
use fz_server.Logger.Notify.{Prompt, begun, later, asleep-IsNotified, IsEnd, stuck-IsEnd}
use fz_server.Logger.Wait.{
  IsStuck, Reaches, asleep, at, begins, busy, cleared, drained, draining, ends, finished, here,
  joined, joined-IsWritten, joining, joins, next, notifies, notifies_all, outer, pushes,
  reads_running, reads_stopped, sees_entry, sees_none, sees_running, sleeps, start, stop-IsStuck,
  stops, takes,
}

abbrev anywhere : Bytes → Bool
anywhere name = true

-- Every entry fills the file.
abbrev logger : Logger
logger = record {
  filename = bytes "a.log";
  fout = opened (bytes "a.log");
  level = warn;
  max = 1;
  len = 7;
  queue = bytes "old\n" ∷ [];
  disk = (bytes "a.log", bytes "before\n") ∷ [];
}

-- The one below the level leaves nothing.
abbrev actions : List Action
actions =
    logs (bytes "T1") error (bytes "f.cpp") (pos 3) (bytes "no file")
    ∷ processes (bytes "T2")
    ∷ logs (bytes "T3") info (bytes "f.cpp") (pos 4) (bytes "hello")
    ∷ processes (bytes "T4")
    ∷ []

act_all-Moves_example :
    (l' : Logger) × (w : List (Bytes × Bytes)) × (act_all anywhere actions logger ≡ some l')
    × Moves logger l' w (accepted warn actions)
act_all-Moves_example = act_all-Moves anywhere (λ name. refl) actions logger (bytes "a.log") refl

act_all-drains_example :
    (l' : Logger) × (w : List (Bytes × Bytes)) × (act_all anywhere
        (map processes (bytes "T1" ∷ []))
        logger
      ≡ some l')
    × (l'.queue ≡ [])
    × (map second w ≡ logger.queue)
    × ((f : Bytes) → content_of f l'.disk ≡ content_of f logger.disk ++ appended f w)
act_all-drains_example =
    act_all-drains anywhere (λ name. refl) (bytes "T1" ∷ []) logger (bytes "a.log") refl
      (omega arith)

-- One entry is logged and written, a second call of `log` is under way when the logger is destroyed.
before : Reaches start (at draining busy 0 1 0)
before =
    next
      (next
        (next (next (next (next (next here (reads_running refl)) begins) pushes) notifies)
          sees_entry)
        takes)
      begins

after : Reaches (at draining cleared 0 1 0) (at finished joined 1 0 1)
after =
    next
      (next (next (next (next (next here notifies_all) drained) (reads_stopped refl)) ends) joins)
      pushes

joined-IsWritten_example : (finished ≡ finished) × (1 + 0 ≤ 1)
joined-IsWritten_example = joined-IsWritten draining finished 0 1 0 1 0 1 before after

stop-IsStuck_example : Reaches start (at asleep joining 2 0 0) × IsStuck (at asleep joining 2 0 0)
stop-IsStuck_example = stop-IsStuck 2

-- The worker sleeps, and an entry is pushed.
pushed : Prompt (at asleep busy 1 0 1)
pushed =
    later
      (later
        (later
          (later (later (later begun (reads_running refl) tt) sees_none tt) (sees_running refl) tt)
          sleeps tt)
        begins tt)
      pushes tt

asleep-IsNotified_example : 0 < 1
asleep-IsNotified_example = asleep-IsNotified busy 0 0 1 pushed

-- The worker is woken, writes the entry, and is told to stop.
drained_once : Prompt (at outer joining 0 0 0)
drained_once =
    later
      (later (later (later (later (later pushed notifies refl) sees_entry tt) takes tt) stops tt)
        notifies_all refl)
      drained tt

all_done : Prompt (at finished joined 0 0 0)
all_done = later (later (later drained_once (reads_stopped refl) tt) ends tt) joins tt

finished-IsStuck : IsStuck (at finished joined 0 0 0)
finished-IsStuck t st = elim st [ ]

stuck-IsEnd_example : IsEnd (at finished joined 0 0 0)
stuck-IsEnd_example = stuck-IsEnd (at finished joined 0 0 0) all_done finished-IsStuck
