-- ===== src/IoContext/Threads/Round.antt =====
-- A round of include/io_context.hpp step by step against `run_once`, and the rest of a round from any place.
use libcoio.Base.{ℕ, ◌+◌, ◌≡◌, refl, ap, ◌∙◌, ◌≢◌, true, false, List, [], ◌++◌, length}
use libcoio.IoContext.{Code, Thread, is_in_local_thread, for_each_cqe, run_all, run_once}
use libcoio.IoContext.Rounds.{round, run_once_lem}
use libcoio.IoContext.Threads.{
  Stage, coroutines, remote, local, Place, testing, completing, checking, swapping, running,
  submitting, ended, Running, queue, clear, next_place, note, advance_at, advance, test,
}
use libcoio.IoContext.Threads.Alone.{Reaches, stays, goes, then_goes}
use libcoio.IoContext.Threads.Stages.{batch, behind, stage}
use libcoio.IoContext.Threads.Completions.{completions}

module _ (code : ℕ → Code) (th : Thread) where
  -- From the start of a round, where the kernel and other threads are silent, the steps of the loop on the
  -- context's thread come to the point where the round submits, with the context and the number of
  -- `run_once`. Both are what a round should come to: the continuations of the completions, then the spawned
  -- coroutines, then the tasks of other threads, then the local tasks have been run, each in the order in
  -- which they came, and only what the local tasks posted is left.
  pub steps-run_once :
      (s : Running)
      → is_in_local_thread th s.context ≡ true
      → s.place ≡ testing
      → s.context.m_is_stopped ≡ false
      → (u : Running) × Reaches code th s u
        × (u.place ≡ submitting)
        × ((u.cnt, u.context) ≡ run_once code th s.context)
        × ((u.cnt, u.context) ≡ round code s.context)
  unfolding advance run_once
  steps-run_once s l p go =
      let s0 : Running = record s { place = completing; cnt = length s.context.cq } in
      let s1 : Running = record s0 {
        context = for_each_cqe code th s.context.cq (record s.context { cq = [] });
        resumed = s.resumed ++ s.context.cq;
      } in
      let s2 = behind code th coroutines s1 in
      let s3 = behind code th remote s2 in
      let s4 = behind code th local s3 in
      (
        s4,
        then_goes code th
            (goes code th (ap (λ q. advance_at code th q s) p ∙ ap (λ b. test b s) go))
            (then_goes code th (completions code th s.context.cq s0 l) (
              then_goes code th (stage code th coroutines s1)
                (then_goes code th (stage code th remote s2) (stage code th local s3)))),
        refl,
        refl,
        run_once_lem code th s.context l,
      )

  -- The rest of a round.
  abbrev pub Submits : Running → Type 0
  Submits s = (u : Running) × Reaches code th s u × (u.place ≡ submitting)

  from_local : (s : Running) → Submits (record s { place = checking local })
  from_local s = (behind code th local s, stage code th local s, refl)

  from_remote : (s : Running) → Submits (record s { place = checking remote })
  from_remote s =
      let (u, way, p) = from_local (behind code th remote s) in
      (u, then_goes code th (stage code th remote s) way, p)

  from_coroutines : (s : Running) → Submits (record s { place = checking coroutines })
  from_coroutines s =
      let (u, way, p) = from_remote (behind code th coroutines s) in
      (u, then_goes code th (stage code th coroutines s) way, p)

  from_check : (st : Stage) (s : Running) → Submits (record s { place = checking st })
  from_check coroutines s = from_coroutines s
  from_check remote s = from_remote s
  from_check local s = from_local s

  abbrev batched : Stage → List ℕ → Running → Running
  batched st ts s =
      note st ts (record s { place = next_place st; context = run_all code th ts s.context })

  from_batch :
      (st : Stage) (ts : List ℕ) (s : Running) → Submits (record s { place = running st ts })
  from_batch coroutines ts s =
      let (u, way, p) = from_remote (batched coroutines ts s) in
      (u, then_goes code th (batch code th coroutines ts s) way, p)
  from_batch remote ts s =
      let (u, way, p) = from_local (batched remote ts s) in
      (u, then_goes code th (batch code th remote ts s) way, p)
  from_batch local ts s = (batched local ts s, batch code th local ts s, refl)

  pub from_place :
      (p : Place) (s : Running)
      → is_in_local_thread th s.context ≡ true
      → p ≢ ended
      → p ≢ testing
      → Submits (record s { place = p })
  unfolding advance
  from_place testing s l n m = absurd (m refl)
  from_place completing s l n m =
      let (u, way, p) = from_coroutines (record s {
        context = for_each_cqe code th s.context.cq (record s.context { cq = [] });
        resumed = s.resumed ++ s.context.cq;
      }) in
      (u, then_goes code th (completions code th s.context.cq s l) way, p)
  from_place (checking st) s l n m = from_check st s
  from_place (swapping st) s l n m =
      let (u, way, p) =
        from_batch st (queue st s.context)
          (record s { cnt = s.cnt + length (queue st s.context); context = clear st s.context }) in
      (u, then_goes code th (goes code th refl) way, p)
  from_place (running st ts) s l n m = from_batch st ts s
  from_place submitting s l n m =
      (record s { place = submitting }, stays code th (record s { place = submitting }), refl)
  from_place ended s l n m = absurd (n refl)
