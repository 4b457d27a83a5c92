-- ===== src/IoContext.antt =====
-- include/io_context.hpp: the queues of an `io_context`, who may put what into them, and the rounds of
-- its loop. Code is named by a number; what it does with the context is a `Code`. The kernel's
-- completions and the calls of other threads arrive between two rounds.
pub mod Options
pub mod Rings
pub mod Token
pub mod Effects
pub mod Rounds
pub mod Fifo
pub mod Loop
pub mod Scope
pub mod Calls
pub mod Threads
mod Tests
use libcoio.Base.{◌-◌, ◌^◌, ltb, ◌&&◌}
use libcoio.Base.{
  ℕ, zero, suc, ◌+◌, ◌-◌, ◌*◌, ◌/◌, ◌%◌, ◌^◌, ◌≤◌, ◌<◌, min, max, ◌≡◌, refl, sym, ap, ◌∙◌, ◌≢◌, ◌↔◌,
  ◌⊎◌, inl, inr, Bool, true, false, not, ◌&&◌, ◌||◌, Option, none, some, List, [], ◌∷◌, ◌++◌,
  append-nil, append_assoc, arith, dec_lt, ltb, leb, ◌==◌, if◌then◌else◌, ltb_iff, leb_iff, ==_iff,
  Bool-cases, Option-cases, length, take, drop, replicate, length-append, length-take, length-drop,
  length-replicate, take-append-drop, take_all, drop_all, take-append_of_le, drop-append_of_le,
  take-append_add, drop-append_add, take-append_self, drop-append_self, drop-drop, drop-take,
  take-take, Bytes, codes, occurs, find, find_from, IsFirst, find-IsFirst, find_of_IsFirst,
  find-eq-none, find-none_at, find_from-eq-find, occurs-drop, occurs-append, length_of_occurs,
  find-le-length, find-append, find_splits, starts_with-append, starts_with,
}
use libcoio.Base.{ℤ}
use libcoio.Outcome.{Outcome, returned, threw, logic_error}

-- What a callable or a coroutine does until it returns or suspends. The callable of `dispatch` and the
-- coroutine of `co_spawn` are given by their own code.
pub data Code : Type 0 where
  leave : Code
  posts : ℕ → Code → Code
  dispatches : ℕ → Code → Code → Code
  spawns : ℕ → Code → Code → Code
  stops : Code → Code

-- `io_uring_cqe`, with the `async_result` of its user data by the continuation, or null.
pub record Cqe : Type 0 where
  pub user_data : Option ℕ
  pub res : ℤ
  pub flags : ℕ

-- What is run: a task, or a continuation with the result that it is given.
pub data Event : Type 0 where
  task : ℕ → Event
  resume : ℕ → ℤ → ℕ → Event

-- The calling thread, with its `this_thread_context`.
pub record Thread : Type 0 where
  pub id : ℕ
  pub this_thread_context : Option ℕ

-- `self` is the address; `ran` is the record of what has been run.
pub record IoContext : Type 0 where
  pub self : ℕ
  pub cq : List Cqe
  pub m_remote_tasks : List ℕ
  pub m_remote_spawn : List ℕ
  pub m_local_tasks : List ℕ
  pub m_is_stopped : Bool
  pub m_thid : Option ℕ
  pub ran : List Event

-- Equality of an address or a thread id with one that may be missing.
abbrev pub is_this : Option ℕ → ℕ → Bool
is_this none n = false
is_this (some m) n = m == n

abbrev pub is_in_local_thread : Thread → IoContext → Bool
is_in_local_thread th c = is_this th.this_thread_context c.self

-- The guard that unbinds is left to the caller.
abbrev pub bind_this_thread : Thread → IoContext → Thread × IoContext
bind_this_thread th c =
    (record th { this_thread_context = some c.self }, record c { m_thid = some th.id })

abbrev pub request_stop : IoContext → IoContext
request_stop c = record c { m_is_stopped = true }

abbrev pub log : Event → IoContext → IoContext
log e c = record c { ran = c.ran ++ (e ∷ []) }

abbrev pub post : Thread → ℕ → IoContext → IoContext
post th t c =
    if not (is_in_local_thread th c)
    then record c { m_remote_tasks = c.m_remote_tasks ++ (t ∷ []) }
    else record c { m_local_tasks = c.m_local_tasks ++ (t ∷ []) }

-- `schedule().await_suspend`: `true` keeps the caller suspended.
abbrev pub schedule : Thread → ℕ → IoContext → Bool × IoContext
schedule th k c = if is_in_local_thread th c then (false, c) else (true, post th k c)

-- Runs code on a thread.
pub run_code : Thread → Code → IoContext → IoContext
run_code th leave c = c
run_code th (posts t k) c = run_code th k (post th t c)
run_code th (dispatches t d k) c =
    let here = run_code th d (log (task t) c) in
    run_code th k (
      if not (is_in_local_thread th c)
      then record c { m_remote_tasks = c.m_remote_tasks ++ (t ∷ []) }
      else here)
run_code th (spawns t d k) c =
    let here = run_code th d (log (task t) c) in
    run_code th k (
      if is_in_local_thread th c
      then here
      else record c { m_remote_spawn = c.m_remote_spawn ++ (t ∷ []) })
run_code th (stops k) c = run_code th k (request_stop c)

-- `dispatch` and `co_spawn` of `t`, whose code is `d`.
abbrev pub dispatch : Thread → ℕ → Code → IoContext → IoContext
dispatch th t d c = run_code th (dispatches t d leave) c

abbrev pub co_spawn : Thread → ℕ → Code → IoContext → IoContext
co_spawn th t d c = run_code th (spawns t d leave) c

module _ (code : ℕ → Code) (th : Thread) where
  pub run_all : List ℕ → IoContext → IoContext
  unfolding run_code
  run_all [] c = c
  run_all (t ∷ ts) c = run_all ts (run_code th (code t) (log (task t) c))

  -- `for_each_cqe` with `set_result` and `resume`.
  pub for_each_cqe : List Cqe → IoContext → IoContext
  unfolding run_code
  for_each_cqe [] c = c
  for_each_cqe (e ∷ es) c = for_each_cqe es (elim e.user_data [
    | none ↦ c
    | some k ↦ run_code th (code k) (log (resume k e.res e.flags) c)
  ])

  pub resolve_remote_coroutine : IoContext → ℕ × IoContext
  unfolding run_all
  resolve_remote_coroutine c = elim c.m_remote_spawn [
    | [] ↦ (0, c)
    | t ∷ ts ↦ (length (t ∷ ts), run_all (t ∷ ts) (record c { m_remote_spawn = [] }))
  ]

  pub resolve_remote_task : IoContext → ℕ × IoContext
  unfolding run_all
  resolve_remote_task c = elim c.m_remote_tasks [
    | [] ↦ (0, c)
    | t ∷ ts ↦ (length (t ∷ ts), run_all (t ∷ ts) (record c { m_remote_tasks = [] }))
  ]

  pub resolve_local_task : IoContext → ℕ × IoContext
  unfolding run_all
  resolve_local_task c = elim c.m_local_tasks [
    | [] ↦ (0, c)
    | t ∷ ts ↦ (length (t ∷ ts), run_all (t ∷ ts) (record c { m_local_tasks = [] }))
  ]

  pub run_once : IoContext → ℕ × IoContext
  unfolding for_each_cqe resolve_remote_coroutine resolve_remote_task resolve_local_task
  run_once c =
      let c1 = for_each_cqe c.cq (record c { cq = [] }) in
      let (n2, c2) = resolve_remote_coroutine c1 in
      let (n3, c3) = resolve_remote_task c2 in
      let (n4, c4) = resolve_local_task c3 in (length c.cq + n2 + n3 + n4, c4)

-- What comes in between two rounds: a completion, or a call by another thread.
pub data Arrival : Type 0 where
  completion : Cqe → Arrival
  remote_task : ℕ → Arrival
  remote_spawn : ℕ → Arrival
  remote_stop : Arrival

abbrev pub arrive : Arrival → IoContext → IoContext
arrive (completion e) c = record c { cq = c.cq ++ (e ∷ []) }
arrive (remote_task t) c = record c { m_remote_tasks = c.m_remote_tasks ++ (t ∷ []) }
arrive (remote_spawn t) c = record c { m_remote_spawn = c.m_remote_spawn ++ (t ∷ []) }
arrive remote_stop c = request_stop c

unfoldable pub arrive_all : List Arrival → IoContext → IoContext
arrive_all [] c = c
arrive_all (a ∷ arr) c = arrive_all arr (arrive a c)

-- `assert_bind`, with the exceptions of the source.
abbrev pub assert_bind : Thread → IoContext → Outcome {0} Unit
assert_bind th c = elim th.this_thread_context [
  | none ↦ threw logic_error
  | some x ↦
      if not (x == c.self)
      then threw logic_error
      else if not (is_this c.m_thid th.id)
      then threw logic_error
      else returned tt
]

module _ (code : ℕ → Code) (th : Thread) where
  -- `while (!m_is_stopped) f(run_once())`, over what arrives after each round; it also ends with the list.
  unfoldable pub rounds : List (List Arrival) → IoContext → IoContext
  unfolding run_once arrive_all
  rounds [] c = c
  rounds (arr ∷ script) c =
      let rest = rounds script (arrive_all arr (run_once code th c).1) in
      if c.m_is_stopped then c else rest

  -- `loop`, for `run` and `poll`.
  unfoldable pub loop : List (List Arrival) → IoContext → Outcome {0} Unit × IoContext
  unfolding rounds
  loop script c =
      let c' : IoContext = record c { m_is_stopped = false } in
      elim (assert_bind th c') [
        | threw e ↦ (threw e, c')
        | returned b ↦ (returned b, rounds script c')
      ]

-- `poll_submit` with its thread-local `empty_cnt`: the new count, and whether the thread yields.
abbrev pub poll_submit : ℕ → ℕ → ℕ × Bool
poll_submit cnt empty_cnt =
    if not (cnt == 0)
    then (0, false)
    else if empty_cnt + 1 == 64
    then (0, true)
    else (empty_cnt + 1, false)
