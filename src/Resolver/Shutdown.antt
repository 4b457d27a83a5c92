-- ===== src/Resolver/Shutdown.antt =====
-- The destructor of `async_resolver` in include/http/resolver.hpp, while the poll thread may be anywhere.
use libcoio.Base.{◌^◌, ◌+◌, ◌<◌, ℕ, ◌≡◌, Bool, true, false, List, [], ◌∷◌}
use libcoio.Resolver.{
  try_wakeup, query_callback, AsyncResolver, Answer, Ares, Steps, Poll, taking, submitting, polling,
  processing, blocked, ended,
}

-- The calls of `query_callback` by `ares_destroy`.
unfoldable pub call_back : List Answer → AsyncResolver → AsyncResolver
call_back [] r = r
call_back (x ∷ xs) r = call_back xs (query_callback x r)

-- `m_thread.request_stop()`
abbrev pub request_stop : AsyncResolver → AsyncResolver
request_stop r = record r { stop_requested = true }

-- `ares_destroy` answers the queries that the channel still has.
unfoldable pub destroys : (List ℕ → List Answer) → AsyncResolver → AsyncResolver
unfolding call_back
destroys ares_destroy r = call_back (ares_destroy r.channel) (record r { channel = [] })

-- The body of the destructor, where nothing comes in between. The thread is joined when its member is
-- destroyed, after the body and after the mutex, the list and the count, which stand behind it.
unfoldable pub destructor : (List ℕ → List Answer) → AsyncResolver → AsyncResolver
unfolding destroys
destructor ares_destroy r = destroys ares_destroy (try_wakeup (request_stop r))

-- The body, where the poll thread and others make any steps between its calls.
pub data Destructs (A : Ares) (d : List ℕ → List Answer) (s : AsyncResolver)
    : AsyncResolver → Type 0 where
  destructs :
      (t u : AsyncResolver)
      → Steps A (request_stop s) t
      → Steps A (try_wakeup t) u
      → Destructs A d s (destroys d u)

-- Calls of c-ares with the channel, that of `ares_fds` and those behind it.
abbrev pub uses_channel : Poll → Bool
uses_channel polling = true
uses_channel processing = true
uses_channel p = false

-- Behind the test of the stop token, and before the load of the count.
abbrev pub in_round : Poll → Bool
in_round taking = true
in_round submitting = true
in_round polling = true
in_round processing = true
in_round p = false

abbrev IsStopped : AsyncResolver → Type 0
IsStopped s = s.stop_requested ≡ true

-- Out of a round and asked to stop.
abbrev IsOut : AsyncResolver → Type 0
IsOut s = (in_round s.poll ≡ false) × (s.stop_requested ≡ true)

-- Some steps lead to a use of the channel.
abbrev pub Uses : Ares → AsyncResolver → Type 0
Uses A s = (u : AsyncResolver) × Steps A s u × (uses_channel u.poll ≡ true)

-- Some steps lead to the end of the poll thread.
abbrev pub Ends : Ares → AsyncResolver → Type 0
Ends A s = (u : AsyncResolver) × Steps A s u × (u.poll ≡ ended)

-- A thread that sleeps, with nothing in the channel.
pub record Sleeps (d : List ℕ → List Answer) (s : AsyncResolver) : Type 0 where
  pub sleeping : s.poll ≡ blocked
  pub nothing_asked : s.channel ≡ []
  pub nothing_answered : d [] ≡ []
  pub small : s.m_pending_cnt + 1 < 2 ^ 64
