-- ===== src/IoContext/Loop.antt =====
-- The loop of include/io_context.hpp: when it may run, when it ends, and how `poll` yields.
use libcoio.Base.{
  ℕ, zero, suc, ◌+◌, ◌/◌, ◌%◌, ◌≡◌, refl, sym, ap, ◌∙◌, ◌↔◌, inl, inr, true, false, Option, none,
  some, List, [], ◌∷◌, arith, ◌==◌, if◌then◌else◌, ==_iff, Bool-cases,
}
use libcoio.Outcome.{Outcome, returned, threw}
use libcoio.IoContext.{
  Code, Thread, IoContext, Arrival, completion, remote_task, remote_spawn, remote_stop, arrive,
  arrive_all, is_this, is_in_local_thread, request_stop, assert_bind, run_once, rounds, loop,
  poll_submit,
}

==-refl : (n : ℕ) → (n == n) ≡ true
==-refl n = (==_iff n n).1 refl

arrive-stopped :
    (a : Arrival) (c : IoContext) → c.m_is_stopped ≡ true → (arrive a c).m_is_stopped ≡ true
arrive-stopped (completion e) c h = h
arrive-stopped (remote_task t) c h = h
arrive-stopped (remote_spawn t) c h = h
arrive-stopped remote_stop c h = refl

pub arrive_all-stopped :
    (arr : List Arrival) (c : IoContext)
    → c.m_is_stopped ≡ true
    → (arrive_all arr c).m_is_stopped ≡ true
unfolding arrive_all
arrive_all-stopped [] c h = h
arrive_all-stopped (a ∷ arr) c h = arrive_all-stopped arr (arrive a c) (arrive-stopped a c h)

module _ (code : ℕ → Code) (th : Thread) where
  pub rounds-stopped :
      (script : List (List Arrival)) (c : IoContext)
      → c.m_is_stopped ≡ true
      → rounds code th script c ≡ c
  unfolding rounds
  rounds-stopped [] c h = refl
  rounds-stopped (arr ∷ script) c h = rw h refl

  -- Bound to this thread, which is the thread that called `bind_this_thread`.
  abbrev pub Bound : IoContext → Type 0
  Bound c = (is_in_local_thread th c ≡ true) × (is_this c.m_thid th.id ≡ true)

  pub assert_bind_lem :
      (c : IoContext) (x : Option ℕ)
      → th.this_thread_context ≡ x
      → (assert_bind th c ≡ returned tt) ↔ Bound c
  assert_bind_lem c none e = rw e ((λ h. cc (h)), (λ h. cc (h.0)))
  assert_bind_lem c (some x) e = elim (Bool-cases (x == c.self)) [
    | inl here ↦ elim (Bool-cases (is_this c.m_thid th.id)) [
      | inl mine ↦ rw (e, here, mine) ((λ h. (refl, refl)), (λ h. refl))
      | inr other ↦ rw (e, here, other) ((λ h. cc (h)), (λ h. cc (h.1)))
    ]
    | inr away ↦ rw (e, away) ((λ h. cc (h)), (λ h. cc (h.0)))
  ]

  pub looped :
      (script : List (List Arrival)) (c : IoContext) (o : Outcome {0} Unit)
      → assert_bind th (record c { m_is_stopped = false }) ≡ o
      → loop code th script c ≡ (elim o [
        | threw e ↦ (threw e, record c { m_is_stopped = false })
        | returned b ↦ (returned b, rounds code th script (record c { m_is_stopped = false }))
      ])
  unfolding loop
  looped script c o e = rw (e, loop) refl

  loop_outcome :
      (script : List (List Arrival)) (c : IoContext) (o : Outcome {0} Unit)
      → assert_bind th (record c { m_is_stopped = false }) ≡ o
      → (assert_bind th (record c { m_is_stopped = false }) ≡ returned tt) ↔ Bound c
      → (((loop code th script c).0 ≡ returned tt) ↔ Bound c)
        × (¬ Bound c → (loop code th script c).1 ≡ record c { m_is_stopped = false })
  loop_outcome script c (threw e) q h =
      let ran = looped script c (threw e) q in
      (((λ r. cc (r, ran)), (λ b. cc (h.1 b, q))), (λ no_bind. ap (λ x. x.1) ran))
  loop_outcome script c (returned tt) q h =
      let ran = looped script c (returned tt) q in
      let first : (loop code th script c).0 ≡ returned tt = ap (λ x. x.0) ran in
      (
        ((λ r. h.0 (q ∙ sym first ∙ r)), (λ bound. first ∙ sym q ∙ h.1 bound)),
        (λ no_bind. absurd (no_bind (h.0 q))),
      )

  -- `run` and `poll` run exactly where they may: they return without an exception if and only if the
  -- context is bound to the calling thread and was bound by it. If not, no code is run.
  pub loop_iff :
      (script : List (List Arrival)) (c : IoContext)
      → (((loop code th script c).0 ≡ returned tt) ↔ Bound c)
        × (¬ Bound c → (loop code th script c).1 ≡ record c { m_is_stopped = false })
  loop_iff script c =
      loop_outcome script c (assert_bind th (record c { m_is_stopped = false })) refl
        (assert_bind_lem (record c { m_is_stopped = false }) th.this_thread_context refl)

  -- A stop that is asked for while a round runs ends the loop after that round, whose tasks all run; one
  -- that was asked for before `run` is lost: the loop runs a round first.
  pub loop_stop :
      (arr : List Arrival) (script : List (List Arrival)) (c : IoContext)
      → Bound c
      → (run_once code th (record c { m_is_stopped = false })).1.m_is_stopped ≡ true
      → loop code th (arr ∷ script) (request_stop c)
        ≡ (returned tt, arrive_all arr (run_once code th (record c { m_is_stopped = false })).1)
  unfolding rounds
  loop_stop arr script c b h =
      let c' = (run_once code th (record c { m_is_stopped = false })).1 in
      looped (arr ∷ script) (request_stop c) (returned tt)
        ((assert_bind_lem (record c { m_is_stopped = false }) th.this_thread_context refl).1 b)
      ∙ ap (λ x. (returned tt, x))
          (rounds-stopped script (arrive_all arr c') (arrive_all-stopped arr c' h))

-- `empty_cnt` and the number of yields after `n` empty rounds of `poll`.
pub idle_polls : ℕ → ℕ × ℕ
idle_polls zero = (0, 0)
idle_polls (suc n) =
    let (e, y) = idle_polls n in
    let (e', yields) = poll_submit 0 e in (e', if yields then y + 1 else y)

idle_step :
    (n : ℕ) (x : ℕ × ℕ)
    → x ≡ (n % 64, n / 64)
    → ((poll_submit 0 x.0).0 ≡ suc n % 64)
      × ((if (poll_submit 0 x.0).1 then x.1 + 1 else x.1) ≡ suc n / 64)
idle_step n x h = elim (Bool-cases (n % 64 + 1 == 64)) [
  | inl e ↦ rw h (rw e (ground arith, ground arith))
  | inr e ↦ rw h (rw e (ground arith, ground arith))
]

-- `poll` yields the thread once for every 64 rounds in a row that find nothing to do.
pub idle_polls_lem : (n : ℕ) → idle_polls n ≡ (n % 64, n / 64)
unfolding idle_polls
idle_polls_lem zero = refl
idle_polls_lem (suc n) =
    let (e, y) = idle_step n (idle_polls n) (idle_polls_lem n) in rw (e, y) refl
