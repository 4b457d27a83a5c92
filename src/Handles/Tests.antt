-- ===== src/Handles/Tests.antt =====
-- Objects that hold coroutine frames, on concrete sessions.
use libcoio.Base.{
  ◌≡◌, refl, sym, ap, ◌∙◌, Bool, true, false, Option, none, some, List, [], ◌∷◌, ◌==◌, ==_iff, take,
  pos,
}
use libcoio.Descriptor.Owners.{IsOwned}
use libcoio.Handles.{
  Frames, Call, makes, assigns_future, destroys, destroys_generator, run, apply, future_assign,
  destructor, generator_destructor,
}
use libcoio.Handles.Owners.{view}
use libcoio.Handles.Session.{run-GoesWell, AllAllowed, done, then_all}

abbrev nothing : Frames
nothing = record { m_handle = λ i. none; alive = λ i. false; live = λ n. false }

nothing-IsOwned : IsOwned (view nothing)
nothing-IsOwned = record {
  opens = λ i n x. cc (x.0);
  unique = λ i j n x y. cc (x.0);
  owned = λ n x. cc (x);
}

-- Two futures with frames 7 and 8; the first takes over the frame of the second.
abbrev session : List Call
session = makes 0 7 ∷ makes 1 8 ∷ assigns_future 0 1 ∷ destroys 0 ∷ []

abbrev frames_left : Option Frames → Option (Bool × Bool)
frames_left none = none
frames_left (some s) = some (s.live 7, s.live 8)

none_left : frames_left (run session nothing) ≡ some (false, false)
unfolding run future_assign destructor
none_left = refl

one_left : frames_left (run (take 3 session) nothing) ≡ some (false, true)
unfolding run future_assign destructor
one_left = refl

-- Destroyed as a generator is, twice: the handle is left.
twice :
    frames_left (run (makes 0 7 ∷ destroys_generator 0 ∷ destroys_generator 0 ∷ []) nothing) ≡ none
unfolding run generator_destructor
twice = refl

first-AllAllowed : AllAllowed (makes 0 7 ∷ destroys 0 ∷ []) nothing
first-AllAllowed =
    then_all (makes 0 7) (destroys 0 ∷ []) nothing (refl, refl)
      (λ t e. then_all (destroys 0) [] t (live t e) (λ u f. done u))
  where
    is_alive : Option Frames → Bool
    is_alive none = true
    is_alive (some t) = t.alive 0

    live : (t : Frames) → apply (makes 0 7) nothing ≡ some t → t.alive 0 ≡ true
    live t e = ap is_alive (sym e)

run-GoesWell_example :
    (t : Frames) × (run (makes 0 7 ∷ destroys 0 ∷ []) nothing ≡ some t) × IsOwned (view t)
run-GoesWell_example =
    run-GoesWell (makes 0 7 ∷ destroys 0 ∷ []) nothing first-AllAllowed nothing-IsOwned

abbrev holding : Frames
holding = record { m_handle = λ i. some 7; alive = λ i. i == 0; live = λ n. n == 7 }

holding-IsOwned : IsOwned (view holding)
holding-IsOwned = record {
  opens = λ i n x. let z : 7 ≡ n = cc (x.1) in (==_iff n 7).1 (sym z);
  unique = λ i j n x y. (==_iff i 0).0 x.0 ∙ sym ((==_iff j 0).0 y.0);
  owned = λ n x. (0, (refl, ap pos (sym ((==_iff n 7).0 x))));
}
