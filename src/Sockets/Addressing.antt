-- ===== src/Sockets/Addressing.antt =====
-- The answers and the addresses of the sockets of include/ioutils/socket_base.hpp.
use libcoio.Base.{
  ℕ, ◌≡◌, refl, sym, ap, ◌≢◌, ◌⊎◌, inl, inr, List, [], ◌∷◌, ◌++◌, ◌==◌, ==_iff, Bool-cases, ℤ, pos,
  negsuc,
}
use libcoio.Outcome.{returned, threw, make_system_error}
use libcoio.Protocol.{SockaddrIn}
use libcoio.Sockets.{Kernel, checked, bind, after_bind, bind_all, Socket, get_peer_address}

-- The call of `bind` that the kernel answers with zero.
abbrev pub Binds : ℤ → Kernel × SockaddrIn → Type 0
Binds fd (k, addr) = k.bind fd addr ≡ pos 0

pub data NoneBinds (fd : ℤ) : List (Kernel × SockaddrIn) → Type 0 where
  done : NoneBinds fd []
  fails :
      (c : Kernel × SockaddrIn) (cs : List (Kernel × SockaddrIn))
      → ¬ Binds fd c
      → NoneBinds fd cs
      → NoneBinds fd (c ∷ cs)

checked-cases :
    (r : ℤ) (err : ℕ)
    → ((r ≡ pos 0) × (checked r err ≡ returned tt))
      ⊎ ((r ≢ pos 0) × (checked r err ≡ threw (make_system_error err)))
unfolding checked
checked-cases (negsuc m) err = inr (λ e. cc (e), refl)
checked-cases (pos n) err = elim (Bool-cases (n == 0)) [
  | inl e ↦ inl (ap pos ((==_iff n 0).0 e), rw e refl)
  | inr e ↦ inr (λ q. let z : n ≡ 0 = cc (q) in cc (e, (==_iff n 0).1 z), rw e refl)
]

-- bind returns exactly when the kernel answers zero, and then the socket has the new address; otherwise it
-- throws the error number and the socket is as before. The descriptor stays in either case.
pub bind_lem :
    (k : Kernel) (addr : SockaddrIn) (s : Socket)
    → (Binds s.fd (k, addr) × (bind k addr s ≡ (returned tt, record s { m_addr = addr })))
      ⊎ ((¬ Binds s.fd (k, addr)) × (bind k addr s ≡ (threw (make_system_error k.errno), s)))
unfolding bind
bind_lem k addr s = elim (checked-cases (k.bind s.fd addr) k.errno) [
  | inl (z, e) ↦ inl (z, ap (λ o. (o, after_bind o addr s)) e)
  | inr (nz, e) ↦ inr (nz, ap (λ o. (o, after_bind o addr s)) e)
]

-- get_peer_address gives what the kernel writes exactly when it answers zero.
pub get_peer_address_lem :
    (k : Kernel) (fd : ℤ)
    → (((k.getpeername fd).0 ≡ pos 0) × (get_peer_address k fd ≡ returned (k.getpeername fd).1))
      ⊎ (((k.getpeername fd).0 ≢ pos 0)
          × (get_peer_address k fd ≡ threw (make_system_error k.errno)))
unfolding get_peer_address
get_peer_address_lem k fd = elim (checked-cases (k.getpeername fd).0 k.errno) [
  | inl (z, e) ↦ inl (z, rw (e, get_peer_address) refl)
  | inr (nz, e) ↦ inr (nz, rw (e, get_peer_address) refl)
]

-- Where a local address comes from, which was `old` before the calls.
pub data Source (fd : ℤ) (old : SockaddrIn) (cs : List (Kernel × SockaddrIn)) (a : SockaddrIn)
    : Type 0 where
  unchanged : NoneBinds fd cs → a ≡ old → Source fd old cs a
  bound_by :
      (xs : List (Kernel × SockaddrIn)) (k : Kernel) (ys : List (Kernel × SockaddrIn))
      → cs ≡ xs ++ ((k, a) ∷ ys)
      → Binds fd (k, a)
      → NoneBinds fd ys
      → Source fd old cs a

after_success :
    (fd : ℤ) (old addr a : SockaddrIn) (k : Kernel) (cs : List (Kernel × SockaddrIn))
    → Binds fd (k, addr)
    → Source fd addr cs a
    → Source fd old ((k, addr) ∷ cs) a
after_success fd old addr a k cs z (unchanged none_binds e) =
    bound_by [] k cs (ap (λ x. (k, x) ∷ cs) (sym e)) (rw e z) none_binds
after_success fd old addr a k cs z (bound_by xs l ys e b none_binds) =
    bound_by ((k, addr) ∷ xs) l ys (ap (λ zs. (k, addr) ∷ zs) e) b none_binds

after_failure :
    (fd : ℤ) (old addr a : SockaddrIn) (k : Kernel) (cs : List (Kernel × SockaddrIn))
    → ¬ Binds fd (k, addr)
    → Source fd old cs a
    → Source fd old ((k, addr) ∷ cs) a
after_failure fd old addr a k cs z (unchanged none_binds e) =
    unchanged (fails (k, addr) cs z none_binds) e
after_failure fd old addr a k cs z (bound_by xs l ys e b none_binds) =
    bound_by ((k, addr) ∷ xs) l ys (ap (λ zs. (k, addr) ∷ zs) e) b none_binds

bind_all_cons :
    (k : Kernel) (addr : SockaddrIn) (cs : List (Kernel × SockaddrIn)) (s t : Socket)
    → (bind k addr s).1 ≡ t
    → bind_all ((k, addr) ∷ cs) s ≡ bind_all cs t
unfolding bind_all
bind_all_cons k addr cs s t e = ap (bind_all cs) e

-- After any calls of bind, the local address is that of the last call that the kernel answered with zero;
-- without such a call it is the address from before.
pub bind_all-local_address :
    (cs : List (Kernel × SockaddrIn)) (s : Socket)
    → ((bind_all cs s).fd ≡ s.fd) × Source s.fd s.m_addr cs (bind_all cs s).m_addr
unfolding bind_all
bind_all-local_address [] s = (refl, unchanged done refl)
bind_all-local_address ((k, addr) ∷ cs) s = elim (bind_lem k addr s) [
  | inl (z, e) ↦
      let t = record s { m_addr = addr } in
      let (f, src) = bind_all-local_address cs t in
      rw (bind_all_cons k addr cs s t (ap (λ x. x.1) e))
        (f, after_success s.fd s.m_addr addr (bind_all cs t).m_addr k cs z src)
  | inr (nz, e) ↦
      let (f, src) = bind_all-local_address cs s in
      rw (bind_all_cons k addr cs s s (ap (λ x. x.1) e))
        (f, after_failure s.fd s.m_addr addr (bind_all cs s).m_addr k cs nz src)
]
