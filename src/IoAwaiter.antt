-- ===== src/IoAwaiter.antt =====
-- include/io_context.hpp, the way of an operation through io_uring: `io_awaiter`, its entry in the
-- submission queue, and the completion that comes back to it. An awaiter is named by its address.
pub mod Operations
pub mod Delivery
pub mod Room
mod Tests
use libcoio.Base.{
  put, ℕ, zero, suc, ◌+◌, ◌-◌, ◌*◌, ◌/◌, ◌%◌, ◌^◌, ◌≤◌, ◌<◌, min, max, ◌≡◌, refl, sym, ap, ◌∙◌, ◌≢◌,
  ◌↔◌, ◌⊎◌, inl, inr, Bool, true, false, not, ◌&&◌, ◌||◌, Option, none, some, List, [], ◌∷◌, ◌++◌,
  append-nil, append_assoc, arith, dec_lt, ltb, leb, ◌==◌, if◌then◌else◌, ltb_iff, leb_iff, ==_iff,
  Bool-cases, Option-cases, length, take, drop, replicate, length-append, length-take, length-drop,
  length-replicate, take-append-drop, take_all, drop_all, take-append_of_le, drop-append_of_le,
  take-append_add, drop-append_add, take-append_self, drop-append_self, drop-drop, drop-take,
  take-take, Bytes, codes, occurs, find, find_from, IsFirst, find-IsFirst, find_of_IsFirst,
  find-eq-none, find-none_at, find_from-eq-find, occurs-drop, occurs-append, length_of_occurs,
  find-le-length, find-append, find_splits, starts_with-append, starts_with,
}
use libcoio.Base.{ℤ, pos}
use libcoio.Outcome.{Outcome}
use libcoio.IoAwaiter.Operations.{Operation, prep_timeout, IoTask}

pub record AsyncResult : Type 0 where
  pub res : ℤ
  pub flag : ℕ
  pub continuation : Option ℕ

abbrev pub set_result : ℤ → ℕ → AsyncResult → AsyncResult
set_result r f a = record a { res = r; flag = f }

abbrev pub set_continuation : ℕ → AsyncResult → AsyncResult
set_continuation h a = record a { continuation = some h }

-- An entry with the awaiter in its user data, or null.
pub record Sqe : Type 0 where
  pub operation : Operation
  pub user_data : Option ℕ

-- The ring, and the awaiters in memory.
pub record Ring : Type 0 where
  pub entries : ℕ
  pub sq : List Sqe
  pub in_flight : List Sqe
  pub awaiters : ℕ → AsyncResult

-- `await_suspend`; `none` is the failed assertion on a full queue.
pub await_suspend : ℕ → Operation → ℕ → Ring → Option Ring
await_suspend a op h r =
    if ltb (length r.sq) r.entries
    then some (record r {
      sq = r.sq ++ (record { operation = op; user_data = some a } ∷ []);
      awaiters = put r.awaiters a (set_continuation h (r.awaiters a));
    })
    else none

-- `nonpoll_submit` without the wait: a timeout of 1 ms with null user data, then all is submitted.
pub nonpoll_submit : Ring → Option Ring
nonpoll_submit r =
    if ltb (length r.sq) r.entries
    then some (record r {
      sq = [];
      in_flight =
          r.in_flight
          ++ (r.sq
              ++ (record { operation = prep_timeout (pos 0) (pos 1000000); user_data = none }
                  ∷ []));
    })
    else none

-- One completion in `run_once`: the handle that is resumed.
pub complete : Option ℕ → ℤ → ℕ → Ring → Option ℕ × Ring
complete none res flags r = (none, r)
complete (some a) res flags r =
    let done = set_result res flags (r.awaiters a) in
    (done.continuation, record r { awaiters = put r.awaiters a done })

-- `await_resume`
abbrev pub await_resume : {R : Type 0} → IoTask R → ℕ → Ring → Outcome R
await_resume t a r = t.get_result (r.awaiters a).res

-- What happens on the thread of the ring.
pub data Action : Type 0 where
  suspends : ℕ → Operation → ℕ → Action
  submits : Action
  completes : Option ℕ → ℤ → ℕ → Action

pub act : Action → Ring → Option Ring
unfolding await_suspend nonpoll_submit complete
act (suspends a op h) r = await_suspend a op h r
act submits r = nonpoll_submit r
act (completes u res flags) r = some (complete u res flags r).1

pub act_all : List Action → Ring → Option Ring
unfolding act
act_all [] r = some r
act_all (x ∷ xs) r = elim (act x r) [ none ↦ none | some r' ↦ act_all xs r' ]
