-- ===== src/IoContext/Token.antt =====
-- `io_context::run` with a `std::stop_token`, and the binding to a thread with its guard, of
-- include/io_context.hpp and include/common/scope_guard.hpp.
use libcoio.Base.{ℕ, Bool, false, not, ◌&&◌, ◌||◌, none, List, [], ◌∷◌, if◌then◌else◌}
use libcoio.Outcome.{Outcome, returned, threw}
use libcoio.IoContext.{
  Code, Thread, IoContext, Arrival, arrive_all, run_once, assert_bind, bind_this_thread,
}

module _ (code : ℕ → Code) (th : Thread) where
  -- `while (!m_is_stopped && !token.stop_requested()) f(run_once())`; each round is followed by what
  -- arrives, and by whether the token's source asks for a stop.
  unfoldable pub token_rounds : Bool → List (List Arrival × Bool) → IoContext → IoContext
  token_rounds token [] c = c
  token_rounds token ((arr, asks) ∷ script) c =
      let rest = token_rounds (token || asks) script (arrive_all arr (run_once code th c).1) in
      if not c.m_is_stopped && not token then rest else c

  unfoldable pub token_loop :
      Bool → List (List Arrival × Bool) → IoContext → Outcome {0} Unit × IoContext
  unfolding token_rounds
  token_loop token script c =
      let c' : IoContext = record c { m_is_stopped = false } in
      elim (assert_bind th c') [
        | threw e ↦ (threw e, c')
        | returned b ↦ (returned b, token_rounds token script c')
      ]

-- `scope_guard` round a body: its function runs at the end of the scope, whatever the body comes to.
unfoldable pub guarded : {A S : Type 0} → (S → S) → (S → Outcome A × S) → S → Outcome A × S
guarded f body s = let (answer, t) = body s in (answer, f t)

abbrev pub unbind : Thread × IoContext → Thread × IoContext
unbind (th, c) = (record th { this_thread_context = none }, c)

-- `auto _ = ctx.bind_this_thread()` and the rest of the scope.
unfoldable pub in_scope :
    {A : Type 0}
    → (Thread × IoContext → Outcome A × (Thread × IoContext))
    → Thread × IoContext
    → Outcome A × (Thread × IoContext)
unfolding guarded
in_scope body (th, c) = guarded unbind body (bind_this_thread th c)
