-- ===== src/PingPong/Server.antt =====
-- `server` of example/pingpong/server.cpp: the acceptor, the loop that accepts, and the sessions that come to
-- their end between two turns.
use libcoio.Base.{ℕ, suc, ◌≤◌, ◌≡◌, true, false, ℤ, pos}
use libcoio.Outcome.{Outcome, returned, threw}
use libcoio.Protocol.{ipv4, tcp, SockaddrIn, default_address}
use libcoio.Descriptor.{Process, destroy}
use libcoio.Descriptor.Owners.{Holds, IsOwned}
use libcoio.Sockets.{Kernel, socket_base, bind, listen}
use libcoio.PingPong.{accept_once, session_ends}

-- Behind the `catch` the coroutine flows off its end, where a `future<uint32_t>` wants a `co_return`: that is
-- undefined behaviour.
pub data Place : Type 0 where
  accepting : Place
  off_end : Place

-- `next` is the object for the parameter of the next session.
pub record Server : Type 0 where
  pub process : Process
  pub next : ℕ
  pub place : Place

abbrev pub somaxconn : ℕ
somaxconn = 4096

-- An exception leaves the `try`, and the acceptor `a` is destroyed.
abbrev pub leaves : ℕ → ℕ → Process → Server
leaves a next p = record { process = destroy a p; next = next; place = off_end }

abbrev pub opened_by : Outcome {0} Unit → Outcome {0} Unit → ℕ → ℕ → Process → Server
opened_by (threw e) l a next p = leaves a next p
opened_by (returned x) (threw e) a next p = leaves a next p
opened_by (returned x) (returned y) a next p = record {
  process = p;
  next = next;
  place = accepting;
}

-- Up to the loop: the constructor of the acceptor, `bind` and `listen`.
abbrev pub after_construction : Kernel → SockaddrIn → ℕ → ℕ → Outcome {0} Unit × Process → Server
after_construction k addr a next (threw e, p) = record { process = p; next = next; place = off_end }
after_construction k addr a next (returned x, p) =
    opened_by (bind k addr (record { fd = p.fd a; m_addr = default_address })).0
      (listen k (p.fd a) somaxconn) a next p

unfoldable pub open_server : Kernel → SockaddrIn → ℕ → ℕ → Process → Server
open_server k addr a next p = after_construction k addr a next (socket_base k ipv4 tcp a p)

-- After the call of `accept` and `co_spawn`.
abbrev pub turned : ℕ → Server → Outcome {0} Unit × Process → Server
turned a s (returned x, p) = record s { process = p; next = suc s.next }
turned a s (threw e, p) = leaves a s.next p

-- A turn of the loop on the kernel's answer, the socket at `i`.
abbrev pub accept_turn : ℕ → ℕ → ℤ → Server → Server
accept_turn a i res s = turned a s (accept_once res i s.next s.process)

abbrev pub session_turn : ℕ → Server → Server
session_turn j s = record s { process = session_ends j s.process }

-- The kernel gives a descriptor that is not open; a session ends that has not ended.
pub data ServerStep (a i first : ℕ) : Server → Server → Type 0 where
  accepts :
      (res : ℤ) (s : Server)
      → s.place ≡ accepting
      → ((n : ℕ) → res ≡ pos n → s.process.is_open n ≡ false)
      → ServerStep a i first s (accept_turn a i res s)
  ends :
      (j : ℕ) (s : Server)
      → first ≤ j
      → s.process.alive j ≡ true
      → ServerStep a i first s (session_turn j s)

pub data ServerSteps (a i first : ℕ) (s : Server) : Server → Type 0 where
  at_first : ServerSteps a i first s s
  then_turn :
      {t u : Server}
      → ServerSteps a i first s t
      → ServerStep a i first t u
      → ServerSteps a i first s u

-- The acceptor is the object `a` with the descriptor `n`, the socket of a turn the object `i`.
pub record IsServing (a i first n : ℕ) (s : Server) : Type 0 where
  pub owned : IsOwned s.process
  pub between : s.process.alive i ≡ false
  pub unused : (j : ℕ) → s.next ≤ j → s.process.alive j ≡ false
  pub counted : first ≤ s.next
  pub listening : s.place ≡ accepting → Holds s.process a n
  pub closed : s.place ≡ off_end → s.process.is_open n ≡ false
