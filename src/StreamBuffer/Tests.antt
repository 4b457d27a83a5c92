-- ===== src/StreamBuffer/Tests.antt =====
-- Calls on a fresh buffer of include/stream_buffer.hpp, and the theorems at them.
use libcoio.Base.{ℕ, ◌≢◌, none, ◌==◌, if◌then◌else◌, ◌≡◌, refl, some, List, [], ◌∷◌, arith}
use libcoio.StreamBuffer.{init, commit, fill, prepare, text, reserve, advance, resize}
use libcoio.StreamBuffer.Bounds.{init-IsValid}
use libcoio.StreamBuffer.Fifo.{Op, receives, consumes, puts, peeks, shows}
use libcoio.StreamBuffer.Refines.{run, run_refines}
use libcoio.StreamBuffer.Copies.{Memory, Object, shown, copy, move, destroy, copies_lem}
use libcoio.StreamBuffer.Fifo
use libcoio.StreamBuffer.Bounds.{IsValid, apply-IsValid}
use libcoio.StreamBuffer.{apply, prepares}

abbrev session : List Op
session =
    receives 512 (1 ∷ 2 ∷ 3 ∷ []) 3
    ∷ shows 2
    ∷ consumes 1
    ∷ peeks
    ∷ puts (some 9)
    ∷ shows 3
    ∷ shows 4
    ∷ []

-- 512 bytes do not fit behind the first 128: the vector grows, and the bytes survive.
grows : text (commit 3 (fill (1 ∷ 2 ∷ 3 ∷ []) (prepare 512 init))) ≡ 1 ∷ 2 ∷ 3 ∷ []
unfolding init text commit fill prepare reserve advance resize
grows = refl

init-text : text init ≡ []
unfolding init text
init-text = refl

run_refines_example : run session init ≡ Fifo.run session (text init)
unfolding init
run_refines_example = run_refines session {s = init} (omega arith) (omega arith) init-IsValid

-- A buffer at its start, with its vector at 1.
abbrev source : Object
source = record { m_buf = 1; area = 1; pointers = init }

abbrev memory : Memory
memory a = if a == 1 then some init.buf else none

elsewhere : ◌≢◌ {A = ℕ} 2 1
elsewhere e = absurd (omega (arith, e))

copies_lem_example :
    (shown memory (move 3 source).0 ≡ some (text init))
    × (shown (destroy (move 3 source).0 memory) (move 3 source).1 ≡ none)
    × (shown (copy 2 source memory).0 (copy 2 source memory).1 ≡ some (text init))
    × (shown (destroy source (copy 2 source memory).0) (copy 2 source memory).1 ≡ none)
    × ((destroy source (copy 2 source memory).0) (copy 2 source memory).1.m_buf ≡ some init.buf)
copies_lem_example = copies_lem source memory init.buf 2 3 refl refl elsewhere

apply-IsValid_example : IsValid (apply (prepares 512 (1 ∷ 2 ∷ 3 ∷ [])) init)
apply-IsValid_example =
    apply-IsValid (prepares 512 (1 ∷ 2 ∷ 3 ∷ [])) {s = init}
      (unfold init in (omega arith, omega arith)) init-IsValid
