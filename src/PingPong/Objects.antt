-- ===== src/PingPong/Objects.antt =====
-- What the end of an object and the acceptance of a socket do to the objects of example/pingpong/server.cpp.
use mathlib.Core.Bool.{Bool}
use libcoio.Base.{Bool-cases, ◌==◌, inl, inr, put, ℕ, ◌≡◌, refl, true, false, ℤ, pos, negsuc}
use libcoio.Descriptor.{
  Process, invalid, construct_from, destroy, destructor, kernel_close, move_construct,
}
use libcoio.PingPong.{accept_once}

pub by_fd :
    (i : ℕ) (p : Process) (x : ℤ)
    → p.fd i ≡ x
    → ((destroy i p).fd ≡ p.fd)
      × ((destroy i p).alive ≡ put p.alive i false)
      × ((destroy i p).is_open ≡ kernel_close x p.is_open)
by_fd i p (pos n) e = rw (e, destructor) (refl, refl, refl)
by_fd i p (negsuc n) e = rw (e, destructor) (refl, refl, refl)

pub kernel_close-false : (x : ℤ) (f : ℕ → Bool) (n : ℕ) → f n ≡ false → kernel_close x f n ≡ false
kernel_close-false (pos m) f n h = elim (Bool-cases (n == m)) [ inl e ↦ rw e refl | inr e ↦ rw e h ]
kernel_close-false (negsuc m) f n h = h

-- The accepted socket has been moved into the parameter `j` of its session, and is gone.
pub accepted_as :
    (i j m : ℕ) (p : Process)
    → ((accept_once (pos m) i j p).1.fd
        ≡ put (put (put p.fd i (pos m)) j (put p.fd i (pos m) i)) i invalid)
      × ((accept_once (pos m) i j p).1.alive ≡ put (put (put p.alive i true) j true) i false)
accepted_as i j m p =
    let r = move_construct j i (construct_from i m p) in
    let (fds, lives, tables) = by_fd i r (r.fd i) refl in (fds, lives)

pub pos-same : (k m : ℕ) → pos k ≡ pos m → k ≡ m
pos-same k m e = cc (e)
