-- ===== src/PingPong/Accepting.antt =====
-- The sockets that the server of example/pingpong accepts, from the kernel to the end of their session.
use libcoio.Base.{
  put, put-here, put-there, ℕ, ◌+◌, ◌≡◌, refl, sym, ◌∙◌, ◌≢◌, ◌⊎◌, inl, inr, true, false, ℤ, pos,
  negsuc,
}
use mathlib.Core.Path.{subst}
use libcoio.Outcome.{returned, threw, make_system_error}
use libcoio.Descriptor.{Process, invalid, construct_from, destroy, destructor, move_construct}
use libcoio.Descriptor.Owners.{Holds, IsOwned, destroy-IsOwned, move_construct-IsOwned}
use libcoio.Descriptor.Session.{construct_from-IsOwned}
use libcoio.PingPong.{accept_once, session_ends}

-- What is destroyed: the moved-from socket holds nothing.
moved_from :
    (i j n : ℕ) (p : Process)
    → i ≢ j
    → destroy i (move_construct j i (construct_from i n p))
      ≡ record (move_construct j i (construct_from i n p)) {
        alive = put (move_construct j i (construct_from i n p)).alive i false;
      }
moved_from i j n p apart =
    let q = construct_from i n p in
    let gone : (move_construct j i q).fd i ≡ invalid = put-here (put q.fd j (q.fd i)) i invalid in
    rw (gone, destructor) refl

accepted_calls :
    (i j n : ℕ) (p : Process)
    → i ≢ j
    → p.alive i ≡ false
    → p.alive j ≡ false
    → p.is_open n ≡ false
    → IsOwned p
    → IsOwned (destroy i (move_construct j i (construct_from i n p)))
      × Holds (destroy i (move_construct j i (construct_from i n p))) j n
accepted_calls i j n p apart di dj free h =
    let q = construct_from i n p in
    let r = move_construct j i q in
    let made = construct_from-IsOwned i n p (λ m x. cc (x.0, di)) free h in
    let live_i : q.alive i ≡ true = put-here p.alive i true in
    let still_dead : q.alive j ≡ false = put-there p.alive i j true (λ e. apart (sym e)) ∙ dj in
    let moved = move_construct-IsOwned j i q still_dead live_i made in
    let live_r : r.alive i ≡ true = put-there q.alive j i true apart ∙ live_i in
    let back : j ≢ i = λ e. apart (sym e) in
    (
      destroy-IsOwned i r live_r moved,
      subst (λ x. Holds x j n) (sym (moved_from i j n p apart))
          (
            put-there r.alive i j false back ∙ put-here q.alive j true,
            put-there (put q.fd j (q.fd i)) i j invalid back
                ∙ put-here q.fd j (q.fd i)
                ∙ put-here p.fd i (pos n),
          ),
    )

pub closed_at_end : (j n : ℕ) (p : Process) → p.fd j ≡ pos n → (session_ends j p).is_open n ≡ false
closed_at_end j n p e = rw (e, destructor) (put-here p.is_open n false)

-- A turn of the accept loop of the server, with objects that do not live and, if the kernel gives a
-- descriptor, one that was not open. Either the session's socket then holds the descriptor, with one owner
-- for every open descriptor, and the end of the session closes it and keeps the owners; or the kernel's
-- error is thrown and nothing has changed.
pub accept_once_lem :
    (res : ℤ) (i j : ℕ) (p : Process)
    → i ≢ j
    → p.alive i ≡ false
    → p.alive j ≡ false
    → ((n : ℕ) → res ≡ pos n → p.is_open n ≡ false)
    → IsOwned p
    → ((n : ℕ) × (res ≡ pos n)
        × ((accept_once res i j p).0 ≡ returned tt)
        × IsOwned (accept_once res i j p).1
        × Holds (accept_once res i j p).1 j n
        × IsOwned (session_ends j (accept_once res i j p).1)
        × ((session_ends j (accept_once res i j p).1).is_open n ≡ false))
      ⊎ ((e : ℕ) × (res ≡ negsuc e)
          × (accept_once res i j p ≡ (threw (make_system_error (e + 1)), p)))
accept_once_lem (negsuc e) i j p apart di dj fresh h = inr (e, refl, refl)
accept_once_lem (pos n) i j p apart di dj fresh h =
    let q = (accept_once (pos n) i j p).1 in
    let (owned, holds) = accepted_calls i j n p apart di dj (fresh n refl) h in
    inl
      (n, refl, refl, owned, holds, destroy-IsOwned j q holds.0 owned, closed_at_end j n q holds.1)
