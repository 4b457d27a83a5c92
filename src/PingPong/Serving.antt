-- ===== src/PingPong/Serving.antt =====
-- Who owns the descriptors of the server of example/pingpong/server.cpp.
use libcoio.Base.{
  inl, inr, put, put-here, put-there, ℕ, ◌≤◌, ◌<◌, ◌≡◌, refl, sym, ap, ◌∙◌, ◌≢◌, true, false, arith,
  pos, negsuc,
}
use mathlib.Core.Path.{subst}
use libcoio.Outcome.{Outcome, returned, threw}
use libcoio.Protocol.{domain, type, ipv4, tcp, SockaddrIn, default_address}
use libcoio.Descriptor.{Process, invalid, construct}
use libcoio.Descriptor.Owners.{Holds, IsOwned, destroy-IsOwned}
use libcoio.Sockets.Opening.{IsFresh, init_of, socket_base-IsOwned}
use libcoio.Sockets.{after_init, keep_fd, Kernel, socket_base, bind, listen}
use libcoio.PingPong.{accept_once}
use libcoio.PingPong.Accepting.{accept_once_lem, closed_at_end}
use libcoio.PingPong.Server.{
  accepting, Server, leaves, opened_by, somaxconn, after_construction, open_server, accept_turn,
  session_turn, ServerStep, accepts, ends, ServerSteps, at_first, then_turn, IsServing,
}
use libcoio.PingPong.Objects.{by_fd, kernel_close-false, accepted_as, pos-same}

module _ (a i first n : ℕ) (apart : a ≢ i) (acceptor_below : a < first)
    (socket_below : i < first) where
  above : {k : ℕ} (j : ℕ) → k < first → first ≤ j → k ≢ j
  above j below le e = absurd (omega (arith, below, le, e))

  accepted-IsServing :
      (m : ℕ) (s : Server)
      → s.process.is_open m ≡ false
      → s.place ≡ accepting
      → IsServing a i first n s
      → IsServing a i first n (accept_turn a i (pos m) s)
  accepted-IsServing m s free here v =
      let j = s.next in
      let p = s.process in
      let q = (accept_once (pos m) i j p).1 in
      let (fds, lives) = accepted_as i j m p in
      let i_j : i ≢ j = above j socket_below v.counted in
      let a_j : a ≢ j = above j acceptor_below v.counted in
      let turn =
        accept_once_lem (pos m) i j p i_j v.between (v.unused j (omega arith))
          (λ k e. ap p.is_open (pos-same k m (sym e)) ∙ free) v.owned in
      record {
        owned = elim turn [ inl x ↦ x.3 | inr x ↦ cc (x.1) ];
        between = ap (λ f. f i) lives ∙ put-here (put (put p.alive i true) j true) i false;
        unused = λ k le.
            ap (λ f. f k) lives
            ∙ put-there (put (put p.alive i true) j true) i k false
                (λ e. above k socket_below (omega (arith, v.counted, le)) (sym e))
            ∙ put-there (put p.alive i true) j k true (λ e. absurd (omega (arith, le, e)))
            ∙ put-there p.alive i k true
                (λ e. above k socket_below (omega (arith, v.counted, le)) (sym e))
            ∙ v.unused k (omega (arith, le));
        counted = omega (arith, v.counted);
        listening = λ e. (
          ap (λ f. f a) lives
              ∙ put-there (put (put p.alive i true) j true) i a false apart
              ∙ put-there (put p.alive i true) j a true a_j
              ∙ put-there p.alive i a true apart
              ∙ (v.listening here).0,
          ap (λ f. f a) fds
              ∙ put-there (put (put p.fd i (pos m)) j (put p.fd i (pos m) i)) i a invalid apart
              ∙ put-there (put p.fd i (pos m)) j a (put p.fd i (pos m) i) a_j
              ∙ put-there p.fd i a (pos m) apart
              ∙ (v.listening here).1,
        );
        closed = λ e. cc (e, here);
      }

  -- The acceptor is destroyed, whatever the place before.
  leaves-IsServing :
      (next : ℕ) (p : Process)
      → IsOwned p
      → p.alive i ≡ false
      → ((j : ℕ) → next ≤ j → p.alive j ≡ false)
      → first ≤ next
      → Holds p a n
      → IsServing a i first n (leaves a next p)
  leaves-IsServing next p h dead unused counted held =
      let (fds, lives, tables) = by_fd a p (p.fd a) refl in
      record {
        owned = destroy-IsOwned a p held.0 h;
        between = ap (λ f. f i) lives ∙ kernel_close-false (pos a) p.alive i dead;
        unused = λ k le. ap (λ f. f k) lives ∙ kernel_close-false (pos a) p.alive k (unused k le);
        counted = counted;
        listening = λ e. cc (e);
        closed = λ e. closed_at_end a n p held.1;
      }

  session-IsServing :
      (j : ℕ) (s : Server)
      → first ≤ j
      → s.process.alive j ≡ true
      → IsServing a i first n s
      → IsServing a i first n (session_turn j s)
  session-IsServing j s le live v =
      let p = s.process in
      let (fds, lives, tables) = by_fd j p (p.fd j) refl in
      record {
        owned = destroy-IsOwned j p live v.owned;
        between = ap (λ f. f i) lives ∙ kernel_close-false (pos j) p.alive i v.between;
        unused = λ k ge. ap (λ f. f k) lives ∙ kernel_close-false (pos j) p.alive k (v.unused k ge);
        counted = v.counted;
        listening = λ e. (
          ap (λ f. f a) lives
              ∙ put-there p.alive j a false (above j acceptor_below le)
              ∙ (v.listening e).0,
          ap (λ f. f a) fds ∙ (v.listening e).1,
        );
        closed = λ e. ap (λ f. f n) tables ∙ kernel_close-false (p.fd j) p.is_open n (v.closed e);
      }

  ServerStep-IsServing :
      {s t : Server} → ServerStep a i first s t → IsServing a i first n s → IsServing a i first n t
  ServerStep-IsServing (accepts (pos m) s here fresh) v =
      accepted-IsServing m s (fresh m refl) here v
  ServerStep-IsServing (accepts (negsuc e) s here fresh) v =
      leaves-IsServing s.next s.process v.owned v.between v.unused v.counted (v.listening here)
  ServerStep-IsServing (ends j s le live) v = session-IsServing j s le live v

  opened_by-IsServing :
      (b l : Outcome {0} Unit) (p : Process)
      → IsOwned p
      → p.alive i ≡ false
      → ((j : ℕ) → first ≤ j → p.alive j ≡ false)
      → Holds p a n
      → IsServing a i first n (opened_by b l a first p)
  opened_by-IsServing (threw e) l p h dead unused held =
      leaves-IsServing first p h dead unused (omega arith) held
  opened_by-IsServing (returned x) (threw e) p h dead unused held =
      leaves-IsServing first p h dead unused (omega arith) held
  opened_by-IsServing (returned x) (returned y) p h dead unused held = record {
    owned = h;
    between = dead;
    unused = unused;
    counted = omega arith;
    listening = λ e. held;
    closed = λ e. cc (e);
  }

  -- The acceptor at its start, when the kernel gives it the descriptor `n`.
  abbrev constructed : Process → Process
  constructed p = record p {
    fd = put (put p.fd a invalid) a (pos n);
    alive = put p.alive a true;
    is_open = put p.is_open n true;
  }

  socket_base_of :
      (k : Kernel) (p : Process)
      → k.socket (domain ipv4) (type tcp) ≡ pos n
      → socket_base k ipv4 tcp a p ≡ (returned tt, constructed p)
  unfolding socket_base
  socket_base_of k p e =
      ap (after_init a)
        (init_of k ipv4 tcp a (construct a p) invalid (put-here p.fd a invalid) refl)
      ∙ ap (λ x. after_init a (keep_fd x k.errno a (construct a p))) e

  open_server-IsServing :
      (k : Kernel) (addr : SockaddrIn) (p : Process)
      → k.socket (domain ipv4) (type tcp) ≡ pos n
      → p.is_open n ≡ false
      → IsOwned p
      → p.alive a ≡ false
      → p.alive i ≡ false
      → ((j : ℕ) → first ≤ j → p.alive j ≡ false)
      → IsServing a i first n (open_server k addr a first p)
  unfolding open_server
  open_server-IsServing k addr p e free h da di unused =
      let q = constructed p in
      let made = socket_base_of k p e in
      let fresh : IsFresh k ipv4 tcp p = λ m g. ap p.is_open (pos-same m n (sym g ∙ e)) ∙ free in
      let owned : IsOwned q =
        subst (λ x. IsOwned x.1) made (socket_base-IsOwned k ipv4 tcp a p da fresh h).0 in
      subst (λ x. IsServing a i first n (after_construction k addr a first x)) (sym made)
        (opened_by-IsServing (bind k addr (record { fd = q.fd a; m_addr = default_address })).0
          (listen k (q.fd a) somaxconn) q owned
          (put-there p.alive a i true (λ x. apart (sym x)) ∙ di)
          (λ j le.
            put-there p.alive a j true (λ x. above j acceptor_below le (sym x)) ∙ unused j le)
          (put-here p.alive a true, put-here (put p.fd a invalid) a (pos n)))

  -- The server from its start, with objects that do not live yet and a kernel that gives the acceptor a new
  -- descriptor: however the connections come and their sessions end, every open descriptor has exactly one
  -- owner; while the server accepts, the acceptor holds its descriptor, and once an error of `bind`, `listen`
  -- or `accept` has taken it out of the loop, that descriptor is closed.
  pub ServerSteps-IsServing :
      (k : Kernel) (addr : SockaddrIn) (p : Process) (s : Server)
      → k.socket (domain ipv4) (type tcp) ≡ pos n
      → p.is_open n ≡ false
      → IsOwned p
      → p.alive a ≡ false
      → p.alive i ≡ false
      → ((j : ℕ) → first ≤ j → p.alive j ≡ false)
      → ServerSteps a i first (open_server k addr a first p) s
      → IsServing a i first n s
  ServerSteps-IsServing k addr p s e free h da di unused at_first =
      open_server-IsServing k addr p e free h da di unused
  ServerSteps-IsServing k addr p s e free h da di unused (then_turn {t} xs x) =
      ServerStep-IsServing x (ServerSteps-IsServing k addr p t e free h da di unused xs)
