-- ===== src/Logger/Wait.antt =====
-- How the thread that writes the entries waits, `process_logs`, and how `stop` ends it:
-- src/utility/logger/Logger.cpp. The steps are the reads and writes of the shared members, so every
-- interleaving of the threads is a sequence of steps. Files open, and a wait has no spurious end.
use fz_server.Prelude.{ℕ, zero, suc, ◌+◌, ◌≤◌, ◌≡◌, refl, Bool, true, false, arith}

-- Where the writing thread is: the loop's two tests, the two of the predicate of `wait`, about to
-- sleep, asleep in `wait`, the inner loop, at its end.
pub data Worker : Type 0 where
  outer saw_stopped predicate saw_empty about_to_sleep asleep draining finished : Worker

-- Where the thread that destroys the logger is: not yet in `stop`, past `m_running = false`, past
-- `notify_all`, past `join`.
pub data Owner : Type 0 where
  busy cleared joining joined : Owner

-- `m_running`, that only `stop` clears.
abbrev pub running : Owner → Bool
running busy = true
running _ = false

-- A notification reaches a thread that sleeps, and no other.
abbrev pub woken : Worker → Worker
woken asleep = predicate
woken w = w

-- The two threads, the number of entries in the queue, the number of calls of `log` that have begun and
-- not yet pushed, and the number of calls between their `push` and their `notify_one`.
pub data State : Type 0 where
  at : Worker → Owner → ℕ → ℕ → ℕ → State

-- A call of `log` that has begun pushes its entry whatever `m_running` is; none begins once `stop` has.
pub data Step : State → State → Type 0 where
  reads_running :
      {o : Owner} {q c n : ℕ} → running o ≡ true → Step (at outer o q c n) (at predicate o q c n)
  reads_stopped :
      {o : Owner} {q c n : ℕ} → running o ≡ false → Step (at outer o q c n) (at saw_stopped o q c n)
  reads_entry :
      {o : Owner} {q c n : ℕ} → Step (at saw_stopped o (suc q) c n) (at predicate o (suc q) c n)
  ends : {o : Owner} {c n : ℕ} → Step (at saw_stopped o 0 c n) (at finished o 0 c n)
  sees_entry :
      {o : Owner} {q c n : ℕ} → Step (at predicate o (suc q) c n) (at draining o (suc q) c n)
  sees_none : {o : Owner} {c n : ℕ} → Step (at predicate o 0 c n) (at saw_empty o 0 c n)
  sees_running :
      {o : Owner} {q c n : ℕ}
      → running o ≡ true
      → Step (at saw_empty o q c n) (at about_to_sleep o q c n)
  sees_stopped :
      {o : Owner} {q c n : ℕ}
      → running o ≡ false
      → Step (at saw_empty o q c n) (at draining o q c n)
  sleeps : {o : Owner} {q c n : ℕ} → Step (at about_to_sleep o q c n) (at asleep o q c n)
  takes : {o : Owner} {q c n : ℕ} → Step (at draining o (suc q) c n) (at draining o q c n)
  drained : {o : Owner} {c n : ℕ} → Step (at draining o 0 c n) (at outer o 0 c n)
  begins : {w : Worker} {q c n : ℕ} → Step (at w busy q c n) (at w busy q (suc c) n)
  pushes :
      {w : Worker} {o : Owner} {q c n : ℕ} → Step (at w o q (suc c) n) (at w o (suc q) c (suc n))
  notifies : {w : Worker} {o : Owner} {q c n : ℕ} → Step (at w o q c (suc n)) (at (woken w) o q c n)
  stops : {w : Worker} {q c n : ℕ} → Step (at w busy q c n) (at w cleared q c n)
  notifies_all : {w : Worker} {q c n : ℕ} → Step (at w cleared q c n) (at (woken w) joining q c n)
  joins : {q c n : ℕ} → Step (at finished joining q c n) (at finished joined q c n)

pub data Reaches (s : State) : State → Type 0 where
  here : Reaches s s
  next : {t u : State} → Reaches s t → Step t u → Reaches s u

-- The thread begins in the constructor of the logger.
abbrev pub start : State
start = at outer busy 0 0 0

-- A state from which no thread has a step.
abbrev pub IsStuck : State → Type 0
IsStuck s = (t : State) → ¬ Step s t

woken-finished : (w : Worker) → woken w ≡ finished → w ≡ finished
woken-finished asleep e = absurd (cc e)
woken-finished outer e = e
woken-finished saw_stopped e = e
woken-finished predicate e = e
woken-finished saw_empty e = e
woken-finished about_to_sleep e = e
woken-finished draining e = e
woken-finished finished e = e

woken-saw_stopped : (w : Worker) → woken w ≡ saw_stopped → w ≡ saw_stopped
woken-saw_stopped asleep e = absurd (cc e)
woken-saw_stopped outer e = e
woken-saw_stopped saw_stopped e = e
woken-saw_stopped predicate e = e
woken-saw_stopped saw_empty e = e
woken-saw_stopped about_to_sleep e = e
woken-saw_stopped draining e = e
woken-saw_stopped finished e = e

-- The worker is past its test of `m_running` only where that is false.
abbrev IsEarly : State → Type 0
IsEarly (at w o q c n) = (w ≡ saw_stopped → running o ≡ false) × (w ≡ finished → running o ≡ false)

Step-IsEarly : {s t : State} → Step s t → IsEarly s → IsEarly t
Step-IsEarly (reads_running {o} e) h = ((λ d. absurd (cc d)), λ d. absurd (cc d))
Step-IsEarly (reads_stopped {o} e) h = ((λ d. e), λ d. absurd (cc d))
Step-IsEarly (reads_entry {o}) h = ((λ d. absurd (cc d)), λ d. absurd (cc d))
Step-IsEarly (ends {o}) h = ((λ d. absurd (cc d)), λ d. h.0 refl)
Step-IsEarly (sees_entry {o}) h = ((λ d. absurd (cc d)), λ d. absurd (cc d))
Step-IsEarly (sees_none {o}) h = ((λ d. absurd (cc d)), λ d. absurd (cc d))
Step-IsEarly (sees_running {o} e) h = ((λ d. absurd (cc d)), λ d. absurd (cc d))
Step-IsEarly (sees_stopped {o} e) h = ((λ d. absurd (cc d)), λ d. absurd (cc d))
Step-IsEarly (sleeps {o}) h = ((λ d. absurd (cc d)), λ d. absurd (cc d))
Step-IsEarly (takes {o}) h = h
Step-IsEarly (drained {o}) h = ((λ d. absurd (cc d)), λ d. absurd (cc d))
Step-IsEarly begins h = h
Step-IsEarly pushes h = h
Step-IsEarly (notifies {w}) h = ((λ d. h.0 (woken-saw_stopped w d)), λ d. h.1 (woken-finished w d))
Step-IsEarly stops h = ((λ d. refl), λ d. refl)
Step-IsEarly notifies_all h = ((λ d. refl), λ d. refl)
Step-IsEarly joins h = ((λ d. refl), λ d. refl)

Reaches-IsEarly : {s : State} → Reaches start s → IsEarly s
Reaches-IsEarly here = ((λ d. absurd (cc d)), λ d. absurd (cc d))
Reaches-IsEarly (next r st) = Step-IsEarly st (Reaches-IsEarly r)

-- Once `stop` has begun, with `c₀` calls of `log` that have not pushed: what a worker at its end has left
-- in the queue are entries of these calls.
abbrev IsLate : ℕ → State → Type 0
IsLate c₀ (at w o q c n) =
    (c ≤ c₀) × (w ≡ finished → q + c ≤ c₀) × (o ≡ joined → w ≡ finished) × (running o ≡ false)

Step-IsLate : {s t : State} (c₀ : ℕ) → Step s t → IsLate c₀ s → IsLate c₀ t
Step-IsLate c₀ (reads_running {o} e) h =
    (h.0, (λ d. absurd (cc d)), (λ d. absurd (cc (h.2 d))), h.3)
Step-IsLate c₀ (reads_stopped {o} e) h =
    (h.0, (λ d. absurd (cc d)), (λ d. absurd (cc (h.2 d))), h.3)
Step-IsLate c₀ (reads_entry {o}) h = (h.0, (λ d. absurd (cc d)), (λ d. absurd (cc (h.2 d))), h.3)
Step-IsLate c₀ (ends {o}) h = (h.0, (λ d. omega (arith, h.0)), (λ d. refl), h.3)
Step-IsLate c₀ (sees_entry {o}) h = (h.0, (λ d. absurd (cc d)), (λ d. absurd (cc (h.2 d))), h.3)
Step-IsLate c₀ (sees_none {o}) h = (h.0, (λ d. absurd (cc d)), (λ d. absurd (cc (h.2 d))), h.3)
Step-IsLate c₀ (sees_running {o} e) h = (h.0, (λ d. absurd (cc d)), (λ d. absurd (cc (h.2 d))), h.3)
Step-IsLate c₀ (sees_stopped {o} e) h = (h.0, (λ d. absurd (cc d)), (λ d. absurd (cc (h.2 d))), h.3)
Step-IsLate c₀ (sleeps {o}) h = (h.0, (λ d. absurd (cc d)), (λ d. absurd (cc (h.2 d))), h.3)
Step-IsLate c₀ (takes {o}) h = (h.0, (λ d. absurd (cc d)), h.2, h.3)
Step-IsLate c₀ (drained {o}) h = (h.0, (λ d. absurd (cc d)), (λ d. absurd (cc (h.2 d))), h.3)
Step-IsLate c₀ begins h = absurd (cc h.3)
Step-IsLate c₀ pushes h = (omega (arith, h.0), (λ d. let k = h.1 d in omega (arith, k)), h.2, h.3)
Step-IsLate c₀ (notifies {w}) h =
    (h.0, (λ d. h.1 (woken-finished w d)), (λ d. rw (h.2 d) refl), h.3)
Step-IsLate c₀ stops h = absurd (cc h.3)
Step-IsLate c₀ (notifies_all {w}) h =
    (h.0, (λ d. h.1 (woken-finished w d)), (λ d. absurd (cc d)), refl)
Step-IsLate c₀ joins h = (h.0, h.1, (λ d. refl), refl)

Reaches-IsLate : {s t : State} (c₀ : ℕ) → IsLate c₀ s → Reaches s t → IsLate c₀ t
Reaches-IsLate c₀ h here = h
Reaches-IsLate c₀ h (next r st) = Step-IsLate c₀ st (Reaches-IsLate c₀ h r)

-- In every interleaving of the steps of `process_logs`, `log` and `stop`, where no call of `log`
-- begins once `stop` has cleared `m_running`: whenever `stop` is past its `join`, the writing
-- thread is at its end, and the entries in the queue and the calls of `log` that have yet to push
-- are together at most as many as the calls of `log` that had begun and not pushed when
-- `m_running` was cleared, so that with no such call the queue is empty.
pub joined-IsWritten :
    (w v : Worker) (q c n q' c' n' : ℕ)
    → Reaches start (at w busy q c n)
    → Reaches (at w cleared q c n) (at v joined q' c' n')
    → (v ≡ finished) × (q' + c' ≤ c)
joined-IsWritten w v q c n q' c' n' before after =
    let early = Reaches-IsEarly before in
    let begun : IsLate c (at w cleared q c n) =
      (omega arith, (λ d. absurd (cc (early.1 d))), (λ d. absurd (cc d)), refl) in
    let late = Reaches-IsLate c begun after in (late.2 refl, late.1 (late.2 refl))

sleeping-IsStuck : (q : ℕ) → IsStuck (at asleep joining q 0 0)
sleeping-IsStuck q t st = elim st [ ]

-- The notifications of `n` entries come before the worker sleeps.
missed : (q : ℕ) → Reaches start (at about_to_sleep busy q 0 0)
missed zero = next (next (next here (reads_running refl)) sees_none) (sees_running refl)
missed (suc q) = next (next (next (missed q) begins) pushes) notifies

-- For every number of entries there is an interleaving in which `stop` waits for ever for a
-- thread that sleeps with that many entries in the queue: the notifications come after the thread
-- has tested its predicate and before it sleeps, which can be since they are not sent under
-- `m_cv_mutex`.
pub stop-IsStuck :
    (q : ℕ) → Reaches start (at asleep joining q 0 0) × IsStuck (at asleep joining q 0 0)
stop-IsStuck q = (next (next (next (missed q) stops) notifies_all) sleeps, sleeping-IsStuck q)
