-- ===== src/WhenAll/Joins.antt =====
-- `when_all` of include/when_all.hpp goes on when every task has ended, and not before.
use libcoio.Base.{
  ℕ, zero, suc, ◌+◌, ◌-◌, ◌%◌, ◌^◌, ◌<◌, ◌≡◌, refl, sym, ap, ◌∙◌, ◌≢◌, inl, inr, Bool, true, false,
  Option, none, some, List, [], ◌∷◌, ◌++◌, arith, ◌==◌, if◌then◌else◌, Bool-cases,
}
use mathlib.Core.Path.{subst}
use libcoio.Outcome.{Outcome, returned, threw, Exception}
use libcoio.Task.{TaskPromise, finish, result}
use libcoio.AwaitCounter.{
  AwaitableCounter, notify_complete_one, Waiter, arriving, deciding, asleep, going_on, after_notify,
}
use libcoio.WhenAll.{
  Join, start_all, started, load_counter, store_counter, callback, Step, loads, stores, ends, Steps,
  stay, more, gather, gathered,
}

abbrev bit : Bool → ℕ
bit true = 1
bit false = 0

-- The tasks that have not ended.
pub open_tasks : {T : Type 0} → List (TaskPromise T) → ℕ
open_tasks [] = 0
open_tasks (p ∷ ps) = bit p.m_callback + open_tasks ps

-- A task that has ended has a result.
pub Sound : {T : Type 0} → List (TaskPromise T) → Type 0
Sound [] = Unit
Sound (p ∷ ps) = (p.m_callback ≡ false → result p ≢ none) × Sound ps

abbrev Waits : ℕ → Waiter → Option ℕ → ℕ → Type 0
Waits k arriving c n = c ≡ none
Waits k deciding c n = 0 < n
Waits k asleep c n = (c ≡ some k) × (0 < n)
Waits k going_on c n = n ≡ 0

pub record IsValid {T : Type 0} (k : ℕ) (s : Join T) : Type 0 where
  pub counts : s.counter.cnt ≡ open_tasks s.tasks
  pub small : s.counter.cnt < 2 ^ 64
  pub sound : Sound s.tasks
  pub waits : Waits k s.waiter s.counter.continuation s.counter.cnt

open_tasks-append :
    {T : Type 0} (xs : List (TaskPromise T)) (p : TaskPromise T) (ys : List (TaskPromise T))
    → open_tasks (xs ++ (p ∷ ys)) ≡ open_tasks xs + bit p.m_callback + open_tasks ys
unfolding open_tasks
open_tasks-append [] p ys = omega arith
open_tasks-append (x ∷ xs) p ys = omega (arith, open_tasks-append xs p ys)

finish-result :
    {T : Type 0} (o : Outcome T) (p : TaskPromise T) (x : Option Exception)
    → p.m_exception ≡ x
    → result (finish o p).1 ≢ none
unfolding finish result
finish-result (returned v) p none e h = cc (rw e at h)
finish-result (returned v) p (some y) e h = cc (rw e at h)
finish-result (threw x) p y e h = cc (h)

finish-callback :
    {T : Type 0} (o : Outcome T) (p : TaskPromise T)
    → ((finish o p).0 ≡ p.m_callback) × ((finish o p).1.m_callback ≡ false)
unfolding finish
finish-callback (returned v) p = (refl, refl)
finish-callback (threw e) p = (refl, refl)

Sound-replace :
    {T : Type 0} (xs : List (TaskPromise T)) (p : TaskPromise T) (ys : List (TaskPromise T))
    (o : Outcome T)
    → Sound (xs ++ (p ∷ ys))
    → Sound (xs ++ ((finish o p).1 ∷ ys))
unfolding Sound
Sound-replace [] p ys o h = ((λ e. finish-result o p p.m_exception refl), h.1)
Sound-replace (x ∷ xs) p ys o h = (h.0, Sound-replace xs p ys o h.1)

-- A call of `notify_complete_one` while something is still counted.
notify_lem :
    (n : ℕ) (c : AwaitableCounter)
    → c.cnt ≡ suc n
    → c.cnt < 2 ^ 64
    → ((notify_complete_one c).1 ≡ record c { cnt = n })
      × ((notify_complete_one c).0 ≡ (if n == 0 then c.continuation else none))
unfolding notify_complete_one
notify_lem n c e small =
    let less : (c.cnt + 2 ^ 64 - 1) % 2 ^ 64 ≡ n = omega (arith, e, small) in
    elim (Bool-cases (c.cnt == 1)) [
      | inl one ↦ rw (one, less) (refl, rw (let z : (n == 0) ≡ true = ground (arith, e) in z) refl)
      | inr many ↦
          rw (many, less) (refl, rw (let z : (n == 0) ≡ false = ground (arith, e) in z) refl)
    ]

not_zero : (n : ℕ) → (suc n == 0) ≡ false
not_zero n = ground arith

Waits-notify :
    (k n : ℕ) (w : Waiter) (c : Option ℕ)
    → Waits k w c (suc n)
    → w ≢ deciding
    → Waits k (after_notify (if n == 0 then c else none) w) c n
Waits-notify k zero arriving c h m = rw h refl
Waits-notify k zero deciding c h m = absurd (m refl)
Waits-notify k zero asleep c h m = rw h.0 refl
Waits-notify k zero going_on c h m = absurd (omega (arith, h))
Waits-notify k (suc n) arriving c h m = rw (not_zero n) h
Waits-notify k (suc n) deciding c h m = absurd (m refl)
Waits-notify k (suc n) asleep c h m = rw (not_zero n) (h.0, omega arith)
Waits-notify k (suc n) going_on c h m = absurd (omega (arith, h))

callback-IsValid :
    {T : Type 0} (k n : ℕ) (s : Join T) (ts : List (TaskPromise T))
    → s.counter.cnt ≡ suc n
    → s.counter.cnt < 2 ^ 64
    → open_tasks ts ≡ n
    → Sound ts
    → Waits k s.waiter s.counter.continuation (suc n)
    → s.waiter ≢ deciding
    → IsValid k (callback true (record s { tasks = ts }))
callback-IsValid k n s ts e small left sound w m =
    let (c, r) = notify_lem n s.counter e small in
    record {
      counts = ap (λ x. x.cnt) c ∙ sym left;
      small = omega (arith, ap (λ x. x.cnt) c);
      sound = sound;
      waits = rw (c, r) (Waits-notify k n s.waiter s.counter.continuation w m);
    }

load-IsValid : {T : Type 0} (k : ℕ) (s : Join T) → IsValid k s → IsValid k (load_counter s)
load-IsValid k s v = elim (Bool-cases (s.counter.cnt == 0)) [
  | inl e ↦
      rw e
        (record { counts = v.counts; small = v.small; sound = v.sound; waits = ground (arith, e) })
  | inr e ↦
      rw e
        (record { counts = v.counts; small = v.small; sound = v.sound; waits = ground (arith, e) })
]

store-IsValid :
    {T : Type 0} (k : ℕ) (s : Join T)
    → s.waiter ≡ deciding
    → IsValid k s
    → IsValid k (store_counter k s)
store-IsValid k s e v =
    let open_count : 0 < s.counter.cnt = rw e at v.waits in
    record { counts = v.counts; small = v.small; sound = v.sound; waits = (refl, open_count) }

ends-IsValid :
    {T : Type 0} (k : ℕ) (s : Join T) (xs : List (TaskPromise T)) (p : TaskPromise T)
    (ys : List (TaskPromise T)) (o : Outcome T)
    → s.tasks ≡ xs ++ (p ∷ ys)
    → p.m_callback ≡ true
    → s.waiter ≢ deciding
    → IsValid k s
    → IsValid k (callback (finish o p).0 (record s { tasks = xs ++ ((finish o p).1 ∷ ys) }))
ends-IsValid k s xs p ys o e running m v =
    let n = open_tasks xs + open_tasks ys in
    let (called, over) = finish-callback o p in
    let before : s.counter.cnt ≡ suc n =
      omega (arith, v.counts, ap open_tasks e, open_tasks-append xs p ys, ap bit running) in
    let left : open_tasks (xs ++ ((finish o p).1 ∷ ys)) ≡ n =
      omega (arith, open_tasks-append xs (finish o p).1 ys, ap bit over) in
    rw (called ∙ running) (
      callback-IsValid k n s (xs ++ ((finish o p).1 ∷ ys)) before v.small left
        (Sound-replace xs p ys o (subst Sound e v.sound))
        (subst (λ n. Waits k s.waiter s.counter.continuation n) before v.waits) m)

Step-IsValid : {T : Type 0} (k : ℕ) (s t : Join T) → Step k s t → IsValid k s → IsValid k t
Step-IsValid k _ _ (loads s e) v = load-IsValid k s v
Step-IsValid k _ _ (stores s e) v = store-IsValid k s e v
Step-IsValid k _ _ (ends s xs p ys o e running m) v = ends-IsValid k s xs p ys o e running m v

Steps-IsValid : {T : Type 0} (k : ℕ) (s t : Join T) → Steps k s t → IsValid k s → IsValid k t
Steps-IsValid k _ _ (stay s) v = v
Steps-IsValid k _ _ (more s t u l m) v = Step-IsValid k t u m (Steps-IsValid k s t l v)

open_start_all : (T : Type 0) (n : ℕ) → open_tasks (start_all {T = T} n) ≡ n
unfolding open_tasks
open_start_all T zero = refl
open_start_all T (suc n) = omega (arith, open_start_all T n)

Sound-start_all : (T : Type 0) (n : ℕ) → Sound (start_all {T = T} n)
unfolding Sound
Sound-start_all T zero = tt
Sound-start_all T (suc n) = ((λ e. cc (e)), Sound-start_all T n)

started-IsValid : (T : Type 0) (k n : ℕ) → n < 2 ^ 64 → IsValid k (started T n)
started-IsValid T k n small = record {
  counts = sym (open_start_all T n);
  small = small;
  sound = Sound-start_all T n;
  waits = refl;
}

gathered-some :
    {T : Type 0} (x : Option (Outcome T)) (y : Option (Outcome (List T)))
    → x ≢ none
    → (o : Outcome (List T)) × (y ≡ some o)
    → (o : Outcome (List T)) × (gathered x y ≡ some o)
gathered-some none y h g = absurd (h refl)
gathered-some (some (threw e)) y h g = (threw e, refl)
gathered-some (some (returned v)) y h (returned vs, e) = (returned (v ∷ vs), rw e refl)
gathered-some (some (returned v)) y h (threw x, e) = (threw x, rw e refl)

all_ended :
    {T : Type 0} (ts : List (TaskPromise T))
    → open_tasks ts ≡ 0
    → Sound ts
    → (o : Outcome (List T)) × (gather ts ≡ some o)
unfolding open_tasks Sound gather
all_ended [] e h = (returned [], refl)
all_ended (p ∷ ps) e h = elim (Bool-cases p.m_callback) [
  | inl running ↦ absurd (omega (arith, e, ap bit running))
  | inr over ↦ gathered-some (result p) (gather ps) (h.0 over) (all_ended ps (omega (arith, e)) h.1)
]

-- With fewer than 2 ^ 64 awaitables whose tasks all end on the thread of the coroutine that awaits, so that
-- none ends between the load and the store of its `co_await`: in any state that `when_all` reaches, whatever
-- the order in which the tasks end and whether before or after the `co_await`, once the coroutine goes on, every task has
-- ended and the loop over the tasks finds a result in each; while it sleeps, a task is still open, and
-- the counter has the handle to wake it.
pub Steps-joins :
    {T : Type 0} (k n : ℕ) (s : Join T)
    → n < 2 ^ 64
    → Steps k (started T n) s
    → (s.waiter ≡ going_on
        → (open_tasks s.tasks ≡ 0) × ((o : Outcome (List T)) × (gather s.tasks ≡ some o)))
      × (s.waiter ≡ asleep → (0 < open_tasks s.tasks) × (s.counter.continuation ≡ some k))
Steps-joins {T} k n s small l =
    let v = Steps-IsValid k (started T n) s l (started-IsValid T k n small) in
    (
      (λ e.
          let w : s.counter.cnt ≡ 0 = rw e at v.waits in
          let z : open_tasks s.tasks ≡ 0 = sym v.counts ∙ w in (z, all_ended s.tasks z v.sound)),
      (λ e.
          let w : (s.counter.continuation ≡ some k) × (0 < s.counter.cnt) = rw e at v.waits in
          (omega (arith, w.1, v.counts), w.0)),
    )
