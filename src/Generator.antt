-- ===== src/Generator.antt =====
-- include/generator.hpp: a generator, its iterator, and the loop of a range-based `for` over it. The
-- body of the coroutine is a parameter: from a point of suspension, what it does next.
pub mod Iteration
mod Tests
use libcoio.Base.{
  ℕ, zero, suc, ◌+◌, ◌-◌, ◌*◌, ◌/◌, ◌%◌, ◌^◌, ◌≤◌, ◌<◌, min, max, ◌≡◌, refl, sym, ap, ◌∙◌, ◌≢◌, ◌↔◌,
  ◌⊎◌, inl, inr, Bool, true, false, not, ◌&&◌, ◌||◌, Option, none, some, List, [], ◌∷◌, ◌++◌,
  append-nil, append_assoc, arith, dec_lt, ltb, leb, ◌==◌, if◌then◌else◌, ltb_iff, leb_iff, ==_iff,
  Bool-cases, Option-cases, length, take, drop, replicate, length-append, length-take, length-drop,
  length-replicate, take-append-drop, take_all, drop_all, take-append_of_le, drop-append_of_le,
  take-append_add, drop-append_add, take-append_self, drop-append_self, drop-drop, drop-take,
  take-take, Bytes, codes, occurs, find, find_from, IsFirst, find-IsFirst, find_of_IsFirst,
  find-eq-none, find-none_at, find_from-eq-find, occurs-drop, occurs-append, length_of_occurs,
  find-le-length, find-append, find_splits, starts_with-append, starts_with,
}
use libcoio.Outcome.{Outcome, returned, threw, Exception}

-- What the body does when it is resumed: it yields and stands at a new point, returns, or throws.
pub data Next (S T : Type 0) : Type 0 where
  yields : T → S → Next S T
  returns : Next S T
  throws : Exception → Next S T

-- The coroutine behind a handle, with its promise; `none` is its end.
pub record Frame (S T : Type 0) : Type 0 where
  pub point : Option S
  pub m_value_ptr : Option T
  pub m_exception : Option Exception

-- A moved-from generator has no handle.
pub record Generator (S T : Type 0) : Type 0 where
  pub m_init_begin : Bool
  pub m_handle : Option (Frame S T)

module _ {S T : Type 0} (next : S → Next S T) where
  -- At `initial_suspend`.
  abbrev pub make : S → Generator S T
  make s = record {
    m_init_begin = false;
    m_handle = some (record { point = some s; m_value_ptr = none; m_exception = none });
  }

  abbrev pub yield_value : T → S → Frame S T → Frame S T
  yield_value v s f = record f { point = some s; m_value_ptr = some v }

  abbrev pub unhandled_exception : Exception → Frame S T → Frame S T
  unhandled_exception e f = record f { point = none; m_exception = some e }

  -- From one point to the next.
  abbrev pub proceed : Next S T → Frame S T → Frame S T
  proceed (yields v s) f = yield_value v s f
  proceed returns f = record f { point = none }
  proceed (throws e) f = unhandled_exception e f

  -- `m_handle.resume()`; `none` for a coroutine that has ended.
  pub resume : Frame S T → Option (Frame S T)
  resume f = elim f.point [ none ↦ none | some s ↦ some (proceed (next s) f) ]

  -- `try_rethrow`
  abbrev pub try_rethrow : Frame S T → Outcome {0} Unit
  try_rethrow f = elim f.m_exception [ some e ↦ threw e | none ↦ returned tt ]

  -- A call that resumes: `none` where it has no defined result.
  abbrev pub resumed : Bool → Option (Frame S T) → Option (Outcome {0} Unit × Generator S T)
  resumed b none = none
  resumed b (some f) = some (try_rethrow f, record { m_init_begin = b; m_handle = some f })

  -- `begin`; without a handle it ends the program.
  pub begin : Generator S T → Option (Outcome {0} Unit × Generator S T)
  unfolding resume
  begin g = elim g.m_handle [
    | none ↦ none
    | some f ↦ if not g.m_init_begin then resumed true (resume f) else some (returned tt, g)
  ]

  -- `operator==(sential)`
  abbrev pub at_end : Generator S T → Bool
  at_end g = elim g.m_handle [
    | none ↦ true
    | some f ↦ elim f.point [ none ↦ true | some s ↦ false ]
  ]

  -- `operator++`
  pub increment : Generator S T → Option (Outcome {0} Unit × Generator S T)
  unfolding resume
  increment g = elim g.m_handle [ none ↦ none | some f ↦ resumed g.m_init_begin (resume f) ]

  -- `operator*`
  abbrev pub deref : Generator S T → Option T
  deref g = elim g.m_handle [ none ↦ none | some f ↦ f.m_value_ptr ]

-- How a loop ends: at the end of the generator, with an exception, or by a `break`.
pub data Ending : Type 0 where
  finished broken : Ending
  thrown : Exception → Ending

module _ {S T : Type 0} (next : S → Next S T) where
  -- The values seen, how the loop ended, and the generator after it.
  abbrev pub Run : Type 0
  Run = Option (List T × Ending × Generator S T)

  abbrev pub see : T → Run → Run
  see v none = none
  see v (some (vs, e, g)) = some (v ∷ vs, e, g)

  -- The loop from the test on, which leaves by a `break` once it has seen `n` values and finds one more.
  unfoldable pub loop : ℕ → Generator S T → Run
  unfolding increment
  loop zero g = if at_end next g then some ([], finished, g) else some ([], broken, g)
  loop (suc n) g =
      let after : Run = elim (increment next g) [
        | none ↦ none
        | some (returned u, g') ↦ loop n g'
        | some (threw e, g') ↦ some ([], thrown e, g')
      ] in
      if at_end next g
      then some ([], finished, g)
      else elim (deref next g) [ none ↦ none | some v ↦ see v after ]

  -- `for (auto &v : g)`
  pub for_each : ℕ → Generator S T → Run
  unfolding begin loop
  for_each n g = elim (begin next g) [
    | none ↦ none
    | some (returned u, g') ↦ loop n g'
    | some (threw e, g') ↦ some ([], thrown e, g')
  ]
