-- ===== src/IoContext/Threads/Unlocked.antt =====
-- The calls of other threads on an include/io_context.hpp context in steps of their own, with the mutex.
-- `co_spawn` holds it while it pushes. The `lock_guard` of `post` and `dispatch` is a temporary: the mutex
-- is free again before `emplace_back` starts, which therefore has two steps, the read of the queue and the
-- write of the longer one. The loop reads `empty()` of both queues without the mutex, and swaps with it.
pub mod Served
use libcoio.Base.{
  ℕ, ◌≡◌, refl, ap, Bool, true, false, ◌&&◌, ◌||◌, Option, none, some, List, [], ◌∷◌, ◌++◌,
}
use libcoio.IoContext.{Code, Thread, IoContext, Cqe, completion, remote_spawn, remote_stop}
use libcoio.IoContext.Threads.{
  coroutines, remote, Place, checking, swapping, Running, advance, arrives, at_start,
}

-- `pushing` has the tasks under way into the queue, each with the queue that its push has read, `spawning`
-- the coroutine of the `co_spawn` that holds the mutex. `raced` is set once two accesses to one vector
-- overlap, one of them a write: from there on the source has undefined behaviour.
pub record Unlocked : Type 0 where
  pub state : Running
  pub pushing : List (ℕ × List ℕ)
  pub spawning : Option ℕ
  pub raced : Bool

abbrev pub busy : List (ℕ × List ℕ) → Bool
busy [] = false
busy (x ∷ xs) = true

abbrev pub held : Option ℕ → Bool
held none = false
held (some t) = true

-- Whether the next step of the loop takes the mutex.
abbrev pub locks : Place → Bool
locks (swapping coroutines) = true
locks (swapping remote) = true
locks p = false

-- Whether it reads or writes a vector while a push into it is under way.
abbrev pub races : Place → Unlocked → Bool
races (checking coroutines) w = held w.spawning
races (checking remote) w = busy w.pushing
races (swapping remote) w = busy w.pushing
races p w = false

-- The end of an `emplace_back` that has read `q`.
abbrev pub pushed : ℕ → List ℕ → Running → Running
pushed t q s = record s {
  context = record s.context { m_remote_tasks = q ++ (t ∷ []) };
  asked = s.asked ++ (t ∷ []);
}

abbrev pub begin_push : ℕ → Unlocked → Unlocked
begin_push t w = record w {
  pushing = w.pushing ++ ((t, w.state.context.m_remote_tasks) ∷ []);
  raced = w.raced || busy w.pushing;
}

abbrev pub goes_on : (ℕ → Code) → Thread → Unlocked → Unlocked
goes_on code th w = record w {
  state = advance code th w.state;
  raced = w.raced || races w.state.place w;
}

-- The steps of the loop, of the kernel, and of any number of other threads.
pub data Step (code : ℕ → Code) (th : Thread) : Unlocked → Unlocked → Type 0 where
  loops :
      (w : Unlocked)
      → locks w.state.place && held w.spawning ≡ false
      → Step code th w (goes_on code th w)
  completes :
      (w : Unlocked) (e : Cqe)
      → Step code th w (record w { state = arrives (completion e) w.state })
  asks_stop : (w : Unlocked) → Step code th w (record w { state = arrives remote_stop w.state })
  begins_spawn :
      (w : Unlocked) (t : ℕ) → w.spawning ≡ none → Step code th w (record w { spawning = some t })
  ends_spawn :
      (w : Unlocked) (t : ℕ)
      → w.spawning ≡ some t
      → Step code th w (record w { state = arrives (remote_spawn t) w.state; spawning = none })
  begins_push : (w : Unlocked) (t : ℕ) → w.spawning ≡ none → Step code th w (begin_push t w)
  ends_push :
      (w : Unlocked) (t : ℕ) (q : List ℕ) (xs ys : List (ℕ × List ℕ))
      → w.pushing ≡ xs ++ ((t, q) ∷ ys)
      → Step code th w (record w { state = pushed t q w.state; pushing = xs ++ ys })

pub data Steps (code : ℕ → Code) (th : Thread) (w : Unlocked) : Unlocked → Type 0 where
  none_yet : Steps code th w w
  then_one : {v u : Unlocked} → Steps code th w v → Step code th v u → Steps code th w u

-- `loop` after `assert_bind`, with no push under way.
abbrev pub at_loop : IoContext → Unlocked
at_loop c = record { state = at_start c; pushing = []; spawning = none; raced = false }
