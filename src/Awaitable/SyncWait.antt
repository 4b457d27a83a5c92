-- ===== src/Awaitable/SyncWait.antt =====
-- `sync_wait` of include/sync_wait.hpp with its flag: the steps of the thread that waits and of the thread on
-- which the task comes to its end, in any order.
use mathlib.Core.Path.{subst}
use libcoio.Base.{ℕ, suc, ◌+◌, ◌≤◌, ◌<◌, ◌≡◌, refl, ap, ◌⊎◌, inl, inr, Bool, true, false, arith}

-- Before `start`, before a load of `atomic_wait`, asleep in it, and released from it.
pub data Waiter : Type 0 where
  starting loading sleeping released : Waiter

-- The task before and after its start, between the exchange of `notice_fin` and `atomic_notify_all`, at its
-- end.
pub data Task : Type 0 where
  created running notifying ended : Task

pub record SyncWait : Type 0 where
  pub flag : Bool
  pub waiter : Waiter
  pub task : Task

abbrev pub made : SyncWait
made = record { flag = false; waiter = starting; task = created }

-- `if (!flag.exchange(true))`, by the old value.
abbrev pub after_exchange : Bool → Task
after_exchange true = ended
after_exchange false = notifying

-- A load of `atomic_wait`, which sleeps only while the flag is false.
abbrev pub after_load : Bool → Waiter
after_load true = released
after_load false = sleeping

-- One who sleeps loads again.
abbrev pub woken : Waiter → Waiter
woken sleeping = loading
woken w = w

pub data Step : SyncWait → SyncWait → Type 0 where
  starts :
      (s : SyncWait) → s.waiter ≡ starting → Step s (record s { waiter = loading; task = running })
  loads : (s : SyncWait) → s.waiter ≡ loading → Step s (record s { waiter = after_load s.flag })
  finishes :
      (s : SyncWait)
      → s.task ≡ running
      → Step s (record s { flag = true; task = after_exchange s.flag })
  notifies :
      (s : SyncWait)
      → s.task ≡ notifying
      → Step s (record s { task = ended; waiter = woken s.waiter })

-- Runs with their number of steps.
pub data Steps (s : SyncWait) : ℕ → SyncWait → Type 0 where
  none_yet : Steps s 0 s
  then_one : {n : ℕ} {t u : SyncWait} → Steps s n t → Step t u → Steps s (suc n) u

abbrev waiter_left : Waiter → ℕ
waiter_left starting = 3
waiter_left loading = 2
waiter_left sleeping = 1
waiter_left released = 0

abbrev task_left : Task → ℕ
task_left created = 4
task_left running = 3
task_left notifying = 2
task_left ended = 0

abbrev left : SyncWait → ℕ
left s = waiter_left s.waiter + task_left s.task

-- What holds between two steps, by where the two threads stand.
abbrev Fits : Waiter → Task → Bool → Type 0
Fits starting t f = (t ≡ created) × (f ≡ false)
Fits loading created f = ⊥
Fits loading running f = f ≡ false
Fits loading notifying f = f ≡ true
Fits loading ended f = f ≡ true
Fits sleeping running f = f ≡ false
Fits sleeping notifying f = f ≡ true
Fits sleeping t f = ⊥
Fits released notifying f = f ≡ true
Fits released ended f = f ≡ true
Fits released t f = ⊥

abbrev Good : SyncWait → Type 0
Good s = Fits s.waiter s.task s.flag

load-Fits :
    (t : Task) (f b : Bool)
    → f ≡ b
    → Fits loading t f
    → Fits (after_load f) t f × (waiter_left (after_load f) < 2)
load-Fits created f b e h = absurd h
load-Fits running f b e h = rw h (refl, omega arith)
load-Fits notifying f b e h = rw h (refl, omega arith)
load-Fits ended f b e h = rw h (refl, omega arith)

finish-Fits :
    (w : Waiter) (f : Bool)
    → Fits w running f
    → Fits w (after_exchange f) true × (task_left (after_exchange f) < 3)
finish-Fits starting f h = cc (h.0)
finish-Fits loading f h = rw h (refl, omega arith)
finish-Fits sleeping f h = rw h (refl, omega arith)
finish-Fits released f h = absurd h

notify-Fits :
    (w : Waiter) (f : Bool)
    → Fits w notifying f
    → Fits (woken w) ended f × (waiter_left (woken w) < waiter_left w + 2)
notify-Fits starting f h = cc (h.0)
notify-Fits loading f h = (h, omega arith)
notify-Fits sleeping f h = (h, omega arith)
notify-Fits released f h = (h, omega arith)

at_waiter : (s : SyncWait) (w : Waiter) → s.waiter ≡ w → Good s → Fits w s.task s.flag
at_waiter s w e h = subst (λ x. Fits x s.task s.flag) e h

at_task : (s : SyncWait) (t : Task) → s.task ≡ t → Good s → Fits s.waiter t s.flag
at_task s t e h = subst (λ x. Fits s.waiter x s.flag) e h

-- A step keeps the two threads together, and brings them nearer to their end.
Step-Good : {s t : SyncWait} → Step s t → Good s → Good t × (left t < left s)
Step-Good (starts s e) h =
    let (c, f) = at_waiter s starting e h in (f, omega (arith, ap waiter_left e, ap task_left c))
Step-Good (loads s e) h =
    let (fits, less) = load-Fits s.task s.flag s.flag refl (at_waiter s loading e h) in
    (fits, omega (arith, less, ap waiter_left e))
Step-Good (finishes s e) h =
    let (fits, less) = finish-Fits s.waiter s.flag (at_task s running e h) in
    (fits, omega (arith, less, ap task_left e))
Step-Good (notifies s e) h =
    let (fits, less) = notify-Fits s.waiter s.flag (at_task s notifying e h) in
    (fits, omega (arith, less, ap task_left e))

Steps-Good : {n : ℕ} {s : SyncWait} → Steps made n s → Good s × (n + left s ≤ 7)
Steps-Good none_yet = ((refl, refl), omega arith)
Steps-Good (then_one xs x) =
    let (good, few) = Steps-Good xs in
    let (good', less) = Step-Good x good in (good', omega (arith, few, less))

-- Both threads have come to their end.
abbrev pub IsOver : SyncWait → Type 0
IsOver s = (s.waiter ≡ released) × (s.task ≡ ended)

next_step :
    (s : SyncWait) (w : Waiter) (t : Task)
    → s.waiter ≡ w
    → s.task ≡ t
    → Fits w t s.flag
    → ((u : SyncWait) × Step s u) ⊎ IsOver s
next_step s starting t e d h = inl (record s { waiter = loading; task = running }, starts s e)
next_step s loading t e d h = inl (record s { waiter = after_load s.flag }, loads s e)
next_step s sleeping running e d h =
    inl (record s { flag = true; task = after_exchange s.flag }, finishes s d)
next_step s sleeping notifying e d h =
    inl (record s { task = ended; waiter = woken s.waiter }, notifies s d)
next_step s sleeping created e d h = absurd h
next_step s sleeping ended e d h = absurd h
next_step s released notifying e d h =
    inl (record s { task = ended; waiter = woken s.waiter }, notifies s d)
next_step s released ended e d h = inr (e, d)
next_step s released created e d h = absurd h
next_step s released running e d h = absurd h

has_result :
    (s : SyncWait) (t : Task)
    → s.task ≡ t
    → Fits released t s.flag
    → (s.flag ≡ true) × ((s.task ≡ notifying) ⊎ (s.task ≡ ended))
has_result s created e h = absurd h
has_result s running e h = absurd h
has_result s notifying e h = (h, inl e)
has_result s ended e h = (h, inr e)

-- In whatever order the two threads take their steps: `sync_wait` returns only when the task has come to its
-- end and set the flag, though the notification may still be to come; no wakeup is lost, since as long as
-- one of the two has not come to its end a step is possible; and there are seven steps at most.
pub Steps-IsOver :
    (n : ℕ) (s : SyncWait)
    → Steps made n s
    → (s.waiter ≡ released → (s.flag ≡ true) × ((s.task ≡ notifying) ⊎ (s.task ≡ ended)))
      × (((u : SyncWait) × Step s u) ⊎ IsOver s)
      × (n ≤ 7)
Steps-IsOver n s xs =
    let (good, few) = Steps-Good xs in
    (
      (λ e. has_result s s.task refl (at_waiter s released e good)),
      next_step s s.waiter s.task refl refl good,
      omega (arith, few),
    )
