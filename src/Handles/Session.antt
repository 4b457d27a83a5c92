-- ===== src/Handles/Session.antt =====
-- Sessions of the objects that hold coroutine frames: no frame is destroyed twice, and none is lost.
use libcoio.Base.{
  put, put-here, put-there, ℕ, ◌≡◌, refl, sym, ap, ◌∙◌, ◌≢◌, inl, inr, true, false, Option, none,
  some, List, [], ◌∷◌, ◌==◌, ==_iff, Bool-cases,
}
use libcoio.Descriptor.{kernel_close}
use libcoio.Descriptor.Owners.{Holds, IsOwned}
use libcoio.Handles.{
  Frames, make, take_over, move_construct, same_handle, future_assign, task_assign, swap_handles,
  Call, makes, moves, assigns_future, assigns_task, destroys, destroys_generator, apply, run,
}
use libcoio.Handles.Owners.{view, number, destructor-Released, make-IsOwned, move_construct-IsOwned}
use libcoio.Handles.Calls.{
  GoesWell, future_assign-GoesWell, task_assign-GoesWell, destroys-GoesWell,
  destroys_generator-GoesWell,
}

-- What a program may do: an object is constructed once and used while it lives, each frame is made once,
-- and an object is not assigned to itself.
abbrev pub Allowed : Call → Frames → Type 0
Allowed (makes i n) s = (s.alive i ≡ false) × (s.live n ≡ false)
Allowed (moves i j) s = (s.alive i ≡ false) × (s.alive j ≡ true)
Allowed (assigns_future i j) s = (i ≢ j) × (s.alive i ≡ true) × (s.alive j ≡ true)
Allowed (assigns_task i j) s = (i ≢ j) × (s.alive i ≡ true) × (s.alive j ≡ true)
Allowed (destroys i) s = s.alive i ≡ true
Allowed (destroys_generator i) s = s.alive i ≡ true

-- Each call is allowed in the state that it finds.
pub data AllAllowed : List Call → Frames → Type 0 where
  done : (s : Frames) → AllAllowed [] s
  then_all :
      (c : Call) (cs : List Call) (s : Frames)
      → Allowed c s
      → ((t : Frames) → apply c s ≡ some t → AllAllowed cs t)
      → AllAllowed (c ∷ cs) s

apply-GoesWell : (c : Call) (s : Frames) → Allowed c s → IsOwned (view s) → GoesWell (apply c s)
apply-GoesWell (makes i n) s a h = (make i n s, refl, make-IsOwned i n s a.0 a.1 h)
apply-GoesWell (moves i j) s a h =
    (move_construct i j s, refl, move_construct-IsOwned i j s a.0 a.1 h)
apply-GoesWell (assigns_future i j) s a h = future_assign-GoesWell i j s a.0 a.1 a.2 h
apply-GoesWell (assigns_task i j) s a h = task_assign-GoesWell i j s a.0 a.1 a.2 h
apply-GoesWell (destroys i) s a h = destroys-GoesWell i s a h
apply-GoesWell (destroys_generator i) s a h = destroys_generator-GoesWell i s a h

run_cons :
    (c : Call) (cs : List Call) (s t : Frames) → apply c s ≡ some t → run (c ∷ cs) s ≡ run cs t
unfolding run
run_cons c cs s t e = rw (e, run) refl

-- In any session of allowed calls no frame is destroyed twice: the session comes to its end, and then each
-- frame that has not been destroyed is held by exactly one living object.
pub run-GoesWell :
    (cs : List Call) (s : Frames)
    → AllAllowed cs s
    → IsOwned (view s)
    → (t : Frames) × (run cs s ≡ some t) × IsOwned (view t)
unfolding run
run-GoesWell _ _ (done s) h = (s, refl, h)
run-GoesWell _ _ (then_all c cs s a later) h =
    let (t, e, v) = apply-GoesWell c s a h in
    let (u, f, w) = run-GoesWell cs t (later t e) v in (u, run_cons c cs s t e ∙ f, w)

same_handle_refl : (o : Option ℕ) → same_handle o o ≡ true
same_handle_refl none = refl
same_handle_refl (some n) = (==_iff n n).1 refl

future_assign_self : (i : ℕ) (s : Frames) → future_assign i i s ≡ some (take_over i i s)
unfolding future_assign
future_assign_self i s = rw (same_handle_refl (s.m_handle i), future_assign) refl

-- Assigned to itself, a future that holds a frame loses it: the frame is not destroyed and nobody holds it.
-- A task_with_callback destroys its frame and is left without one.
pub assign_self :
    (i n : ℕ) (s : Frames)
    → s.alive i ≡ true
    → s.m_handle i ≡ some n
    → IsOwned (view s)
    → ((t : Frames) × (future_assign i i s ≡ some t)
        × (t.live n ≡ true)
        × ((j : ℕ) → ¬ Holds (view t) j n))
      × ((t : Frames) × (task_assign i i s ≡ some t) × (t.live n ≡ false) × (t.m_handle i ≡ none))
unfolding task_assign
assign_self i n s live e h =
    let (t, d, (gone, same, lives, closed)) = destructor-Released i s live h in
    (
      (
        take_over i i s,
        future_assign_self i s,
        h.opens i n (live, ap number e),
        λ j x. elim (Bool-cases (j == i)) [
          | inl q ↦
              let z = ap (λ k. number ((take_over i i s).m_handle k)) ((==_iff j i).0 q) in
              cc (x.1, z, ap number (put-here (put s.m_handle i (s.m_handle i)) i none))
          | inr q ↦
              let away : j ≢ i = λ f. cc (q, (==_iff j i).1 f) in
              let y =
                put-there (put s.m_handle i (s.m_handle i)) i j none away
                ∙ put-there s.m_handle i j (s.m_handle i) away in
              away (h.unique j i n (x.0, sym (ap number y) ∙ x.1) (live, ap number e))
        ],
      ),
      (
        swap_handles i i t,
        rw (e, d, task_assign) refl,
        closed n ∙ ap (λ o. kernel_close (number o) s.live n) e ∙ put-here s.live n false,
        put-here (put t.m_handle i (t.m_handle i)) i (t.m_handle i) ∙ gone,
      ),
    )
