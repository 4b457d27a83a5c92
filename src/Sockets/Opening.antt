-- ===== src/Sockets/Opening.antt =====
-- How the sockets of include/ioutils/socket_base.hpp open a descriptor, and that it has one owner.
use libcoio.Base.{
  put, put-here, put-there, ℕ, zero, suc, ◌≡◌, refl, sym, ap, ◌∙◌, ◌≢◌, inl, inr, Bool, true, false,
  arith, ◌==◌, ==_iff, Bool-cases, ℤ, pos, negsuc,
}
use mathlib.Core.Path.{subst}
use libcoio.Outcome.{Outcome, returned, threw, make_system_error}
use libcoio.Protocol.{Domain, Transport, domain, type}
use libcoio.Descriptor.{Process, invalid, construct, destructor}
use libcoio.Descriptor.Owners.{Holds, IsOwned, construct-IsOwned, destroy-IsOwned}
use libcoio.Descriptor.Session.{construct_from-IsOwned}
use libcoio.Sockets.{Kernel, keep_fd, positive, init, socket_base, after_init}

-- The kernel gives only descriptors that are not open.
abbrev pub IsFresh : Kernel → Domain → Transport → Process → Type 0
IsFresh k d t p = (n : ℕ) → k.socket (domain d) (type t) ≡ pos n → p.is_open n ≡ false

put_same : (f : ℕ → Bool) (i : ℕ) (b : Bool) → f i ≡ b → put f i b ≡ f
put_same f i b e = λ t k. at k t
  where
    at : (k : ℕ) → put f i b k ≡ f k
    at k = elim (Bool-cases (k == i)) [
      | inl q ↦ rw q (sym e ∙ ap f (sym ((==_iff k i).0 q)))
      | inr q ↦ rw q refl
    ]

keep_fd-IsOwned :
    (x : ℤ) (err i : ℕ) (p : Process)
    → p.alive i ≡ true
    → ((n : ℕ) → ¬ Holds p i n)
    → ((n : ℕ) → x ≡ pos n → p.is_open n ≡ false)
    → IsOwned p
    → IsOwned (keep_fd x err i p).1
keep_fd-IsOwned (negsuc m) err i p live empty fresh h = h
keep_fd-IsOwned (pos n) err i p live empty fresh h =
    subst
      (λ a.
        IsOwned (record p { fd = put p.fd i (pos n); alive = a; is_open = put p.is_open n true }))
      (put_same p.alive i true live) (construct_from-IsOwned i n p empty (fresh n refl) h)

pub init_of :
    (k : Kernel) (d : Domain) (t : Transport) (i : ℕ) (p : Process) (x : ℤ)
    → p.fd i ≡ x
    → positive x ≡ false
    → init k d t i p ≡ keep_fd (k.socket (domain d) (type t)) k.errno i p
unfolding init
init_of k d t i p x e h = rw (e, h) refl

init_held :
    (k : Kernel) (d : Domain) (t : Transport) (i : ℕ) (p : Process) (x : ℤ)
    → p.fd i ≡ x
    → positive x ≡ true
    → init k d t i p ≡ (returned tt, p)
unfolding init
init_held k d t i p x e h = rw (e, h) refl

init-cases :
    (k : Kernel) (d : Domain) (t : Transport) (i : ℕ) (p : Process) (x : ℤ)
    → p.fd i ≡ x
    → x ≢ pos 0
    → p.alive i ≡ true
    → IsFresh k d t p
    → IsOwned p
    → IsOwned (init k d t i p).1
init-cases k d t i p (negsuc m) e nz live fresh h =
    rw (init_of k d t i p (negsuc m) e refl)
      (keep_fd-IsOwned (k.socket (domain d) (type t)) k.errno i p live (λ n y. cc (y.1, e)) fresh h)
init-cases k d t i p (pos zero) e nz live fresh h = absurd (nz refl)
init-cases k d t i p (pos (suc m)) e nz live fresh h =
    let more : positive (pos (suc m)) ≡ true = ground arith in
    rw (init_held k d t i p (pos (suc m)) e more) h

-- Calling init on a living socket keeps one owner for every open descriptor, if the socket does not hold
-- descriptor 0 and the kernel gives a descriptor that was not open.
pub init-IsOwned :
    (k : Kernel) (d : Domain) (t : Transport) (i : ℕ) (p : Process)
    → p.fd i ≢ pos 0
    → p.alive i ≡ true
    → IsFresh k d t p
    → IsOwned p
    → IsOwned (init k d t i p).1
init-IsOwned k d t i p nz live fresh h = init-cases k d t i p (p.fd i) refl nz live fresh h

-- When a socket holds descriptor 0, init takes it for none: it opens another one, and descriptor 0 stays
-- open without an object that could close it.
pub init_zero :
    (k : Kernel) (d : Domain) (t : Transport) (i n : ℕ) (p : Process)
    → p.fd i ≡ pos 0
    → p.alive i ≡ true
    → k.socket (domain d) (type t) ≡ pos n
    → p.is_open n ≡ false
    → IsOwned p
    → ((init k d t i p).1.is_open 0 ≡ true) × ((j : ℕ) → ¬ Holds (init k d t i p).1 j 0)
init_zero k d t i n p e live opened fresh h =
    let zero_open : p.is_open 0 ≡ true = h.opens i 0 (live, e) in
    let apart : 0 ≢ n = λ q. cc (zero_open, ap p.is_open q, fresh) in
    let made = init_of k d t i p (pos 0) e refl ∙ ap (λ x. keep_fd x k.errno i p) opened in
    rw made (
      put-there p.is_open n 0 true apart ∙ zero_open,
      λ j x. elim (Bool-cases (j == i)) [
        | inl q ↦
            let y =
              sym (put-here p.fd i (pos n))
              ∙ ap (put p.fd i (pos n)) (sym ((==_iff j i).0 q))
              ∙ x.1 in
            apart (cc (y))
        | inr q ↦
            let away : j ≢ i = λ f. cc (q, (==_iff j i).1 f) in
            away (h.unique j i 0 (x.0, sym (put-there p.fd i j (pos n) away) ∙ x.1) (live, e))
      ],
    )

-- What a constructed socket comes to: it holds the descriptor that the kernel has given, or its lifetime
-- has ended with the error of the kernel.
abbrev pub Constructed : Kernel → ℕ → ℤ → Outcome {0} Unit × Process → Type 0
Constructed k i (pos n) (o, q) = (o ≡ returned tt) × Holds q i n
Constructed k i (negsuc m) (o, q) = (o ≡ threw (make_system_error k.errno)) × (q.alive i ≡ false)

after_init-cases :
    (k : Kernel) (i : ℕ) (p : Process) (x : ℤ)
    → p.alive i ≡ true
    → ((n : ℕ) → ¬ Holds p i n)
    → ((n : ℕ) → x ≡ pos n → p.is_open n ≡ false)
    → IsOwned p
    → IsOwned (after_init i (keep_fd x k.errno i p)).1
      × Constructed k i x (after_init i (keep_fd x k.errno i p))
after_init-cases k i p (pos n) live empty fresh h = (
  keep_fd-IsOwned (pos n) k.errno i p live empty fresh h,
  (refl, (live, put-here p.fd i (pos n))),
)
after_init-cases k i p (negsuc m) live empty fresh h =
    (destroy-IsOwned i p live h, (refl, put-here (destructor i p).alive i false))

-- The constructor of a socket keeps one owner for every open descriptor, if the kernel gives a descriptor
-- that was not open: the new object holds it, or, when the kernel refuses, the error is thrown and the
-- object does not live.
pub socket_base-IsOwned :
    (k : Kernel) (d : Domain) (t : Transport) (i : ℕ) (p : Process)
    → p.alive i ≡ false
    → IsFresh k d t p
    → IsOwned p
    → IsOwned (socket_base k d t i p).1
      × Constructed k i (k.socket (domain d) (type t)) (socket_base k d t i p)
unfolding socket_base
socket_base-IsOwned k d t i p dead fresh h =
    let q = construct i p in
    let unset = put-here p.fd i invalid in
    rw (init_of k d t i q invalid unset refl) (
      after_init-cases k i q (k.socket (domain d) (type t)) (put-here p.alive i true)
        (λ n x. cc (x.1, unset)) fresh (construct-IsOwned i p dead h))
