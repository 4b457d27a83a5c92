-- ===== src/IoContext/Scope.antt =====
-- How `io_context::run` with a stop token ends, and what a binding leaves behind, of
-- include/io_context.hpp.
use libcoio.Base.{
  ℕ, ◌≡◌, refl, ap, ◌∙◌, ◌≢◌, inl, inr, Bool, true, false, not, ◌&&◌, none, List, [], ◌∷◌,
  if◌then◌else◌, Bool-cases,
}
use libcoio.Outcome.{Outcome, returned, threw}
use libcoio.IoContext.{
  Code, Thread, IoContext, Arrival, arrive_all, run_once, assert_bind, rounds, loop,
}
use libcoio.IoContext.Loop.{Bound, assert_bind_lem, loop_iff}
use libcoio.IoContext.Token.{token_rounds, token_loop, in_scope}

-- Nobody asks for a stop through the token.
pub quietly : List (List Arrival) → List (List Arrival × Bool)
quietly [] = []
quietly (arr ∷ script) = (arr, false) ∷ quietly script

same_test :
    (stopped : Bool) (c x y : IoContext)
    → x ≡ y
    → (if not stopped && not false then x else c) ≡ (if stopped then c else y)
same_test true c x y e = refl
same_test false c x y e = e

module _ (code : ℕ → Code) (th : Thread) where
  token_rounds-quietly :
      (script : List (List Arrival)) (c : IoContext)
      → token_rounds code th false (quietly script) c ≡ rounds code th script c
  unfolding token_rounds rounds quietly
  token_rounds-quietly [] c = refl
  token_rounds-quietly (arr ∷ script) c =
      let c1 = arrive_all arr (run_once code th c).1 in
      same_test c.m_is_stopped c (token_rounds code th false (quietly script) c1)
        (rounds code th script c1) (token_rounds-quietly script c1)

  token_rounds-stopped :
      (script : List (List Arrival × Bool)) (c : IoContext) → token_rounds code th true script c ≡ c
  unfolding token_rounds
  token_rounds-stopped [] c = refl
  token_rounds-stopped ((arr, asks) ∷ script) c = elim (Bool-cases c.m_is_stopped) [
    | inl e ↦ rw e refl
    | inr e ↦ rw e refl
  ]

  token_looped :
      (token : Bool) (script : List (List Arrival × Bool)) (c : IoContext) (o : Outcome {0} Unit)
      → assert_bind th (record c { m_is_stopped = false }) ≡ o
      → token_loop code th token script c ≡ (elim o [
        | threw e ↦ (threw e, record c { m_is_stopped = false })
        | returned b ↦
            (returned b, token_rounds code th token script (record c { m_is_stopped = false }))
      ])
  unfolding token_loop
  token_looped token script c o e = rw (e, token_loop) refl

  quiet_loop :
      (script : List (List Arrival)) (c : IoContext) (o : Outcome {0} Unit)
      → assert_bind th (record c { m_is_stopped = false }) ≡ o
      → token_loop code th false (quietly script) c ≡ loop code th script c
  unfolding loop
  quiet_loop script c (threw e) q =
      token_looped false (quietly script) c (threw e) q ∙ rw (q, loop) refl
  quiet_loop script c (returned b) q =
      token_looped false (quietly script) c (returned b) q
      ∙ rw (q, loop)
          (ap (λ x. (returned b, x))
            (token_rounds-quietly script (record c { m_is_stopped = false })))

  -- run with a stop token that is never used is run without one. On a context that is bound to the calling
  -- thread, a token whose stop was asked for before runs no round, and one whose stop is asked for during a
  -- round ends the loop after that round, whatever code the round ran.
  pub token_loop_lem :
      (script : List (List Arrival)) (rest : List (List Arrival × Bool)) (arr : List Arrival)
      (c : IoContext)
      → (token_loop code th false (quietly script) c ≡ loop code th script c)
        × (Bound code th c
            → (token_loop code th true rest c ≡ (returned tt, record c { m_is_stopped = false }))
              × (token_loop code th false ((arr, true) ∷ rest) c ≡ (
                returned tt,
                arrive_all arr (run_once code th (record c { m_is_stopped = false })).1,
              )))
  unfolding token_rounds
  token_loop_lem script rest arr c =
      let c' : IoContext = record c { m_is_stopped = false } in
      (
        quiet_loop script c (assert_bind th c') refl,
        λ bound.
            let may = (assert_bind_lem code th c' th.this_thread_context refl).1 bound in
            (
              token_looped true rest c (returned tt) may
                  ∙ ap (λ x. (returned tt, x)) (token_rounds-stopped rest c'),
              token_looped false ((arr, true) ∷ rest) c (returned tt) may
                  ∙ ap (λ x. (returned tt, x))
                      (token_rounds-stopped rest (arrive_all arr (run_once code th c').1)),
            ),
      )

-- After a scope that has bound the thread to a context, the thread is bound to none, whatever the scope came
-- to: the context it was bound to before cannot run on it, and runs no code.
pub in_scope-unbinds :
    {A : Type 0} (body : Thread × IoContext → Outcome A × (Thread × IoContext)) (th : Thread)
    (inner outer : IoContext) (code : ℕ → Code) (script : List (List Arrival))
    → ((in_scope body (th, inner)).1.0.this_thread_context ≡ none)
      × ((loop code (in_scope body (th, inner)).1.0 script outer).1
          ≡ record outer { m_is_stopped = false })
      × ((loop code (in_scope body (th, inner)).1.0 script outer).0 ≢ returned tt)
unfolding in_scope
in_scope-unbinds body th inner outer code script =
    let after = (in_scope body (th, inner)).1.0 in
    let unbound : ¬ Bound code after outer = λ b. cc (b.0) in
    let (iff, idle) = loop_iff code after script outer in
    (refl, idle unbound, λ r. unbound (iff.0 r))
