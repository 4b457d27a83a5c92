-- ===== src/Resolver.antt =====
-- include/http/resolver.hpp: the queries that wait for the poll thread, its turns, and the callbacks that
-- hand the answers to the contexts.
pub mod Weights
pub mod Once
pub mod Pending
pub mod Progress
pub mod Ended
pub mod Shutdown
pub mod AddressList
pub mod Listing
mod Tests
use libcoio.Base.{
  put, ℕ, zero, suc, ◌+◌, ◌-◌, ◌*◌, ◌/◌, ◌%◌, ◌^◌, ◌≤◌, ◌<◌, min, max, ◌≡◌, refl, sym, ap, ◌∙◌, ◌≢◌,
  ◌↔◌, ◌⊎◌, inl, inr, Bool, true, false, not, ◌&&◌, ◌||◌, Option, none, some, List, [], ◌∷◌, ◌++◌,
  append-nil, append_assoc, arith, dec_lt, ltb, leb, ◌==◌, if◌then◌else◌, ltb_iff, leb_iff, ==_iff,
  Bool-cases, Option-cases, length, take, drop, replicate, length-append, length-take, length-drop,
  length-replicate, take-append-drop, take_all, drop_all, take-append_of_le, drop-append_of_le,
  take-append_add, drop-append_add, take-append_self, drop-append_self, drop-drop, drop-take,
  take-take, Bytes, codes, occurs, find, find_from, IsFirst, find-IsFirst, find_of_IsFirst,
  find-eq-none, find-none_at, find_from-eq-find, occurs-drop, occurs-append, length_of_occurs,
  find-le-length, find-append, find_splits, starts_with-append, starts_with,
}

-- What c-ares answers to a query, for the awaiter whose address it was given.
pub record Answer : Type 0 where
  pub awaiter : ℕ
  pub status : ℕ
  pub res : Option ℕ

-- `async_query_awaiter`; pointers are numbers, null is `none`.
pub record AsyncQueryAwaiter : Type 0 where
  pub handle : Option ℕ
  pub result : Option ℕ
  pub status : ℕ

abbrev pub ares_success : ℕ
ares_success = 0

-- `submit_query`; the source leaves `status` unset.
abbrev pub submit_query : ℕ → AsyncQueryAwaiter
submit_query unset = record { handle = none; result = none; status = unset }

-- `await_resume`: the list whose head the result is.
pub await_resume : AsyncQueryAwaiter → Option ℕ
await_resume a = if a.status == ares_success then a.result else none

-- Where the poll thread stands: before the test of the stop token, before the swap of the lists, in the
-- loop over `qlist`, before `ares_fds`, in `select` and `ares_process`, before the load of the count,
-- in `atomic_wait`, and at its end.
pub data Poll : Type 0 where
  looping taking submitting polling processing deciding blocked ended : Poll

-- `channel` has the queries c-ares works on, `unwoken` counts the calls of `try_wakeup` that are still to
-- come, `posted` has the tasks that the contexts have not run. `asked` and `resumed` are histories.
pub record AsyncResolver : Type 0 where
  pub m_query_list : List ℕ
  pub m_pending_cnt : ℕ
  pub qlist : List ℕ
  pub channel : List ℕ
  pub poll : Poll
  pub stop_requested : Bool
  pub unwoken : ℕ
  pub posted : List Answer
  pub awaiters : ℕ → AsyncQueryAwaiter
  pub asked : List ℕ
  pub resumed : List ℕ

abbrev pub init : (ℕ → AsyncQueryAwaiter) → AsyncResolver
init as_made = record {
  m_query_list = [];
  m_pending_cnt = 0;
  qlist = [];
  channel = [];
  poll = looping;
  stop_requested = false;
  unwoken = 0;
  posted = [];
  awaiters = as_made;
  asked = [];
  resumed = [];
}

-- `await_suspend` up to the end of the lock; `try_wakeup` is still to come.
abbrev pub push_query : ℕ → ℕ → AsyncResolver → AsyncResolver
push_query a h r = record r {
  awaiters = put r.awaiters a (record (r.awaiters a) { handle = some h });
  m_query_list = r.m_query_list ++ (a ∷ []);
  unwoken = r.unwoken + 1;
  asked = a ∷ r.asked;
}

abbrev pub try_wakeup : AsyncResolver → AsyncResolver
try_wakeup r = record r { m_pending_cnt = (r.m_pending_cnt + 1) % 2 ^ 64 }

abbrev pub query_callback : Answer → AsyncResolver → AsyncResolver
query_callback x r = record r {
  posted = r.posted ++ (x ∷ []);
  m_pending_cnt = (r.m_pending_cnt + 2 ^ 64 - 1) % 2 ^ 64;
}

-- The task that the callback posts, run by the context.
abbrev pub store_answer : Answer → AsyncQueryAwaiter → AsyncQueryAwaiter
store_answer x a = record a { status = x.status; result = x.res }

abbrev pub resume_handle : Option ℕ → ℕ → List ℕ → List ℕ
resume_handle none a rs = rs
resume_handle (some h) a rs = a ∷ rs

abbrev pub run_posted : Answer → List Answer → AsyncResolver → AsyncResolver
run_posted x xs r = record r {
  posted = xs;
  awaiters = put r.awaiters x.awaiter (store_answer x (r.awaiters x.awaiter));
  resumed = resume_handle (r.awaiters x.awaiter).handle x.awaiter r.resumed;
}

-- The swap, where there are queries: `qlist` and `m_query_list` afterwards.
abbrev pub swapped : List ℕ → List ℕ → List ℕ × List ℕ
swapped q [] = (q, [])
swapped q (a ∷ l) = (a ∷ l, q)

-- The test of the loop.
abbrev pub after_stop_token : Bool → Poll
after_stop_token true = ended
after_stop_token false = taking

-- After `ares_fds`.
abbrev pub after_fds : ℕ → Poll
after_fds nfds = if nfds == 0 then ended else processing

-- After the load of the count.
abbrev pub after_load : ℕ → Poll
after_load cnt = if cnt == 0 then blocked else looping

-- c-ares: `ares_fds` gives zero exactly when no query is active.
pub record Ares : Type 0 where
  pub ares_fds : List ℕ → ℕ
  pub fds_idle : (c : List ℕ) → (ares_fds c ≡ 0) ↔ (c ≡ [])

-- The steps of the poll thread, of the threads that ask and of the contexts, in any order. c-ares may
-- answer a query within `ares_getaddrinfo` or from `ares_process`. The contexts run what is posted in any order.
pub data Step (A : Ares) : AsyncResolver → AsyncResolver → Type 0 where
  asks : (s : AsyncResolver) (a h : ℕ) → Step A s (push_query a h s)
  wakes :
      (s : AsyncResolver) (n : ℕ)
      → s.unwoken ≡ suc n
      → Step A s (try_wakeup (record s { unwoken = n }))
  stops :
      (s : AsyncResolver)
      → s.stop_requested ≡ false
      → Step A s (record s { stop_requested = true; unwoken = s.unwoken + 1 })
  runs :
      (s : AsyncResolver) (x : Answer) (xs ys : List Answer)
      → s.posted ≡ xs ++ (x ∷ ys)
      → Step A s (run_posted x (xs ++ ys) s)
  tests :
      (s : AsyncResolver)
      → s.poll ≡ looping
      → Step A s (record s { poll = after_stop_token s.stop_requested })
  swaps :
      (s : AsyncResolver)
      → s.poll ≡ taking
      → Step A s (record s {
        qlist = (swapped s.qlist s.m_query_list).0;
        m_query_list = (swapped s.qlist s.m_query_list).1;
        poll = submitting;
      })
  starts :
      (s : AsyncResolver) (a : ℕ) (q : List ℕ)
      → s.poll ≡ submitting
      → s.qlist ≡ a ∷ q
      → Step A s (record s { qlist = q; channel = s.channel ++ (a ∷ []) })
  answers_at_once :
      (s : AsyncResolver) (x : Answer) (q : List ℕ)
      → s.poll ≡ submitting
      → s.qlist ≡ x.awaiter ∷ q
      → Step A s (query_callback x (record s { qlist = q }))
  submitted :
      (s : AsyncResolver)
      → s.poll ≡ submitting
      → s.qlist ≡ []
      → Step A s (record s { poll = polling })
  gets_fds :
      (s : AsyncResolver)
      → s.poll ≡ polling
      → Step A s (record s { poll = after_fds (A.ares_fds s.channel) })
  answers :
      (s : AsyncResolver) (x : Answer) (c d : List ℕ)
      → s.poll ≡ processing
      → s.channel ≡ c ++ (x.awaiter ∷ d)
      → Step A s (query_callback x (record s { channel = c ++ d }))
  processed : (s : AsyncResolver) → s.poll ≡ processing → Step A s (record s { poll = deciding })
  loads :
      (s : AsyncResolver)
      → s.poll ≡ deciding
      → Step A s (record s { poll = after_load s.m_pending_cnt })
  awakens :
      (s : AsyncResolver)
      → s.poll ≡ blocked
      → s.m_pending_cnt ≢ 0
      → Step A s (record s { poll = looping })

pub data Steps (A : Ares) : AsyncResolver → AsyncResolver → Type 0 where
  stay : (s : AsyncResolver) → Steps A s s
  more : (s t u : AsyncResolver) → Step A s t → Steps A t u → Steps A s u
