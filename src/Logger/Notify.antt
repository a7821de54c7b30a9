-- ===== src/Logger/Notify.antt =====
-- What the notifications of src/utility/logger/Logger.cpp do where none of them is lost.
use fz_server.Prelude.{
  ℕ, zero, suc, ◌<◌, ◌≡◌, refl, ap, Bool, true, false, inl, inr, Bool-cases, arith,
}
use fz_server.Logger.Wait.{
  Worker, outer, saw_stopped, predicate, saw_empty, about_to_sleep, asleep, draining, finished,
  Owner, busy, cleared, joining, joined, running, woken, State, at, Step, reads_running,
  reads_stopped, reads_entry, ends, sees_entry, sees_none, sees_running, sees_stopped, sleeps,
  takes, drained, begins, pushes, notifies, stops, notifies_all, joins, start, IsStuck,
}

-- The worker is in `wait`, past its test of the queue and not yet asleep.
abbrev pub between : Worker → Bool
between saw_empty = true
between about_to_sleep = true
between _ = false

-- A step that is no notification, or one that does not come between the test and the sleep.
abbrev pub IsPrompt : {s t : State} → Step s t → Type 0
IsPrompt (notifies {w}) = between w ≡ false
IsPrompt (notifies_all {w}) = between w ≡ false
IsPrompt _ = Unit

-- The states of the interleavings in which no notification is lost.
pub data Prompt : State → Type 0 where
  begun : Prompt start
  later : {s t : State} → Prompt s → (st : Step s t) → IsPrompt st → Prompt t

-- The worker has seen no entry, and has not been woken since.
abbrev waits : Worker → Bool
waits asleep = true
waits w = between w

-- It has also seen that the logger runs.
abbrev sleepy : Worker → Bool
sleepy asleep = true
sleepy about_to_sleep = true
sleepy _ = false

woken-waits : (w : Worker) → between w ≡ false → waits (woken w) ≡ false
woken-waits saw_empty h = absurd (cc h)
woken-waits about_to_sleep h = absurd (cc h)
woken-waits asleep h = refl
woken-waits outer h = refl
woken-waits saw_stopped h = refl
woken-waits predicate h = refl
woken-waits draining h = refl
woken-waits finished h = refl

woken-sleepy : (w : Worker) → between w ≡ false → sleepy (woken w) ≡ false
woken-sleepy saw_empty h = absurd (cc h)
woken-sleepy about_to_sleep h = absurd (cc h)
woken-sleepy asleep h = refl
woken-sleepy outer h = refl
woken-sleepy saw_stopped h = refl
woken-sleepy predicate h = refl
woken-sleepy draining h = refl
woken-sleepy finished h = refl

-- An entry that the worker has not seen is still to be notified, `stop` does not wait for a sleeper, and
-- has joined only a worker at its end.
abbrev AreAware : Worker → Owner → ℕ → ℕ → Type 0
AreAware w o q n =
    (waits w ≡ true → 0 < q → 0 < n)
    × (o ≡ joining → sleepy w ≡ false)
    × (o ≡ joined → w ≡ finished)

abbrev IsAware : State → Type 0
IsAware (at w o q c n) = AreAware w o q n

-- A worker that is not at its end goes on to a place where it is awake.
awake_step :
    {v : Worker} (w : Worker) (o : Owner) {q n : ℕ}
    → ¬ (v ≡ finished)
    → waits w ≡ false
    → sleepy w ≡ false
    → (o ≡ joined → v ≡ finished)
    → AreAware w o q n
awake_step w o unfinished up awake h =
    ((λ d. absurd (cc (d, up))), (λ d. awake), λ d. absurd (unfinished (h d)))

Step-IsAware : {s t : State} (st : Step s t) → IsPrompt st → IsAware s → IsAware t
Step-IsAware (reads_running {o} e) p h = awake_step predicate o (λ d. cc d) refl refl h.2
Step-IsAware (reads_stopped {o} e) p h = awake_step saw_stopped o (λ d. cc d) refl refl h.2
Step-IsAware (reads_entry {o}) p h = awake_step predicate o (λ d. cc d) refl refl h.2
Step-IsAware (ends {o}) p h = awake_step finished o (λ d. cc d) refl refl h.2
Step-IsAware (sees_entry {o}) p h = awake_step draining o (λ d. cc d) refl refl h.2
Step-IsAware sees_none p h =
    ((λ d lt. absurd (omega (arith, lt))), (λ d. refl), λ d. absurd (cc (h.2 d)))
Step-IsAware (sees_running {o} e) p h =
    (h.0, (λ d. absurd (cc (e, ap running d))), λ d. absurd (cc (h.2 d)))
Step-IsAware (sees_stopped {o} e) p h = awake_step draining o (λ d. cc d) refl refl h.2
Step-IsAware sleeps p h = (h.0, (λ d. absurd (cc (h.1 d))), λ d. absurd (cc (h.2 d)))
Step-IsAware (takes {o}) p h = awake_step draining o (λ d. cc d) refl refl h.2
Step-IsAware (drained {o}) p h = awake_step outer o (λ d. cc d) refl refl h.2
Step-IsAware begins p h = h
Step-IsAware pushes p h = ((λ d lt. omega arith), h.1, h.2)
Step-IsAware (notifies {w}) p h =
    ((λ d. absurd (cc (d, woken-waits w p))), (λ d. woken-sleepy w p), λ d. rw (h.2 d) refl)
Step-IsAware stops p h = (h.0, (λ d. absurd (cc d)), λ d. absurd (cc d))
Step-IsAware (notifies_all {w}) p h =
    ((λ d. absurd (cc (d, woken-waits w p))), (λ d. woken-sleepy w p), λ d. absurd (cc d))
Step-IsAware joins p h = (h.0, (λ d. absurd (cc d)), λ d. refl)

Prompt-IsAware : {s : State} → Prompt s → IsAware s
Prompt-IsAware begun = ((λ d. absurd (cc d)), (λ d. refl), λ d. absurd (cc d))
Prompt-IsAware (later r st p) = Step-IsAware st p (Prompt-IsAware r)

-- In every interleaving of the steps of `process_logs`, `log` and `stop` in which no notification
-- is sent while the writing thread is in `wait` between its test of the queue and its sleep,
-- wherever that thread sleeps with entries in the queue some call of `log` has yet to send its
-- notification.
pub asleep-IsNotified : (o : Owner) (q c n : ℕ) → Prompt (at asleep o (suc q) c n) → 0 < n
asleep-IsNotified o q c n r = (Prompt-IsAware r).0 refl (omega arith)

-- The end: `stop` is past its `join`, and no call of `log` is under way.
abbrev pub IsEnd : State → Type 0
IsEnd s = (q : ℕ) × (s ≡ at finished joined q 0 0)

-- Without a call of `log` under way, there is a step everywhere but at the end.
still-IsEnd :
    (w : Worker) (o : Owner) (q : ℕ)
    → IsAware (at w o q 0 0)
    → IsStuck (at w o q 0 0)
    → IsEnd (at w o q 0 0)
still-IsEnd outer o q h stuck = absurd (elim (Bool-cases (running o)) [
  | inl e ↦ stuck (at predicate o q 0 0) (reads_running e)
  | inr e ↦ stuck (at saw_stopped o q 0 0) (reads_stopped e)
])
still-IsEnd saw_stopped o zero h stuck = absurd (stuck (at finished o 0 0 0) ends)
still-IsEnd saw_stopped o (suc q) h stuck = absurd (stuck (at predicate o (suc q) 0 0) reads_entry)
still-IsEnd predicate o zero h stuck = absurd (stuck (at saw_empty o 0 0 0) sees_none)
still-IsEnd predicate o (suc q) h stuck = absurd (stuck (at draining o (suc q) 0 0) sees_entry)
still-IsEnd saw_empty o q h stuck = absurd (elim (Bool-cases (running o)) [
  | inl e ↦ stuck (at about_to_sleep o q 0 0) (sees_running e)
  | inr e ↦ stuck (at draining o q 0 0) (sees_stopped e)
])
still-IsEnd about_to_sleep o q h stuck = absurd (stuck (at asleep o q 0 0) sleeps)
still-IsEnd draining o zero h stuck = absurd (stuck (at outer o 0 0 0) drained)
still-IsEnd draining o (suc q) h stuck = absurd (stuck (at draining o q 0 0) takes)
still-IsEnd w busy q h stuck = absurd (stuck (at w cleared q 0 0) stops)
still-IsEnd w cleared q h stuck = absurd (stuck (at (woken w) joining q 0 0) notifies_all)
still-IsEnd finished joining q h stuck = absurd (stuck (at finished joined q 0 0) joins)
still-IsEnd finished joined q h stuck = (q, refl)
still-IsEnd asleep joining q h stuck = absurd (cc (h.1 refl))
still-IsEnd asleep joined q h stuck = absurd (cc (h.2 refl))

-- In every interleaving of the steps of `process_logs`, `log` and `stop` in which no notification
-- is sent while the writing thread is in `wait` between its test of the queue and its sleep, the
-- threads do not get stuck: a state from which no thread has a step is the end, with the writing
-- thread at its end, `stop` past its `join`, and no call of `log` under way.
pub stuck-IsEnd : (s : State) → Prompt s → IsStuck s → IsEnd s
stuck-IsEnd (at w o q zero zero) r stuck = still-IsEnd w o q (Prompt-IsAware r) stuck
stuck-IsEnd (at w o q (suc c) n) r stuck = absurd (stuck (at w o (suc q) c (suc n)) pushes)
stuck-IsEnd (at w o q zero (suc n)) r stuck = absurd (stuck (at (woken w) o q 0 n) notifies)
