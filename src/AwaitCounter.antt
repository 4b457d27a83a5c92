-- ===== src/AwaitCounter.antt =====
-- include/details/await_counter.hpp: `awaitable_counter`, the steps of one coroutine that awaits it and
-- of the threads that count it down.
pub mod Lost
mod Tests
use libcoio.Base.{
  ℕ, zero, suc, ◌+◌, ◌-◌, ◌*◌, ◌/◌, ◌%◌, ◌^◌, ◌≤◌, ◌<◌, min, max, ◌≡◌, refl, sym, ap, ◌∙◌, ◌≢◌, ◌↔◌,
  ◌⊎◌, inl, inr, Bool, true, false, not, ◌&&◌, ◌||◌, Option, none, some, List, [], ◌∷◌, ◌++◌,
  append-nil, append_assoc, arith, dec_lt, ltb, leb, ◌==◌, if◌then◌else◌, ltb_iff, leb_iff, ==_iff,
  Bool-cases, Option-cases, length, take, drop, replicate, length-append, length-take, length-drop,
  length-replicate, take-append-drop, take_all, drop_all, take-append_of_le, drop-append_of_le,
  take-append_add, drop-append_add, take-append_self, drop-append_self, drop-drop, drop-take,
  take-take, Bytes, codes, occurs, find, find_from, IsFirst, find-IsFirst, find_of_IsFirst,
  find-eq-none, find-none_at, find_from-eq-find, occurs-drop, occurs-append, length_of_occurs,
  find-le-length, find-append, find_splits, starts_with-append, starts_with,
}

pub record AwaitableCounter : Type 0 where
  pub continuation : Option ℕ
  pub cnt : ℕ

abbrev pub await_ready : AwaitableCounter → Bool
await_ready c = c.cnt == 0

abbrev pub await_suspend : ℕ → AwaitableCounter → AwaitableCounter
await_suspend k c = record c { continuation = some k }

-- `cnt.fetch_sub(1)` on a `uint64_t`: the old value.
abbrev pub fetch_sub : AwaitableCounter → ℕ × AwaitableCounter
fetch_sub c = (c.cnt, record c { cnt = (c.cnt + 2 ^ 64 - 1) % 2 ^ 64 })

-- `notify_complete_one`: the handle that is resumed, if one is.
unfoldable pub notify_complete_one : AwaitableCounter → Option ℕ × AwaitableCounter
notify_complete_one c =
    let (old, c') = fetch_sub c in if old == 1 then (c'.continuation, c') else (none, c')

-- Where the coroutine that awaits stands: before the load of `await_ready`, between the load and the
-- store of `await_suspend`, suspended, or going on.
pub data Waiter : Type 0 where
  arriving deciding asleep going_on : Waiter

pub record State : Type 0 where
  pub counter : AwaitableCounter
  pub waiter : Waiter
  -- The calls of `notify_complete_one` to come.
  pub calls : ℕ

abbrev pub started : ℕ → State
started n = record {
  counter = record { continuation = none; cnt = n };
  waiter = arriving;
  calls = n;
}

abbrev pub after_ready : Bool → Waiter
after_ready true = going_on
after_ready false = deciding

abbrev pub after_notify : Option ℕ → Waiter → Waiter
after_notify none w = w
after_notify (some k) w = going_on

-- The steps on two threads: the load and the store of the one who waits are two steps.
pub data Step (k : ℕ) : State → State → Type 0 where
  loads :
      (s : State)
      → s.waiter ≡ arriving
      → Step k s (record s { waiter = after_ready (await_ready s.counter) })
  stores :
      (s : State)
      → s.waiter ≡ deciding
      → Step k s (record s { counter = await_suspend k s.counter; waiter = asleep })
  notifies :
      (s : State) (n : ℕ)
      → s.calls ≡ suc n
      → Step k s (record s {
        counter = (notify_complete_one s.counter).1;
        waiter = after_notify (notify_complete_one s.counter).0 s.waiter;
        calls = n;
      })

pub data Steps (k : ℕ) : State → State → Type 0 where
  stay : (s : State) → Steps k s s
  more : (s t u : State) → Step k s t → Steps k t u → Steps k s u
