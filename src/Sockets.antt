-- ===== src/Sockets.antt =====
-- include/ioutils/socket_base.hpp and the calls of include/ioutils/tcp.hpp that do not wait: each object is
-- a number of Descriptor, with the local address beside it.
pub mod Opening
pub mod Addressing
mod Tests
use libcoio.Base.{
  put, ℕ, zero, suc, ◌+◌, ◌-◌, ◌*◌, ◌/◌, ◌%◌, ◌^◌, ◌≤◌, ◌<◌, min, max, ◌≡◌, refl, sym, ap, ◌∙◌, ◌≢◌,
  ◌↔◌, ◌⊎◌, inl, inr, Bool, true, false, not, ◌&&◌, ◌||◌, Option, none, some, List, [], ◌∷◌, ◌++◌,
  append-nil, append_assoc, arith, dec_lt, ltb, leb, ◌==◌, if◌then◌else◌, ltb_iff, leb_iff, ==_iff,
  Bool-cases, Option-cases, length, take, drop, replicate, length-append, length-take, length-drop,
  length-replicate, take-append-drop, take_all, drop_all, take-append_of_le, drop-append_of_le,
  take-append_add, drop-append_add, take-append_self, drop-append_self, drop-drop, drop-take,
  take-take, Bytes, codes, occurs, find, find_from, IsFirst, find-IsFirst, find_of_IsFirst,
  find-eq-none, find-none_at, find_from-eq-find, occurs-drop, occurs-append, length_of_occurs,
  find-le-length, find-append, find_splits, starts_with-append, starts_with,
}
use libcoio.Base.{ℤ, pos, negsuc}
use libcoio.Outcome.{Outcome, returned, threw, make_system_error}
use libcoio.Protocol.{Domain, Transport, domain, type, SockaddrIn, default_address}
use libcoio.Descriptor.{Process, construct, construct_from, destroy}

-- The answers of the kernel to the next call; `getpeername` also writes an address.
pub record Kernel : Type 0 where
  pub socket : ℕ → ℕ → ℤ
  pub setsockopt : ℤ → ℕ → ℕ → ℕ → ℤ
  pub bind : ℤ → SockaddrIn → ℤ
  pub listen : ℤ → ℕ → ℤ
  pub getpeername : ℤ → ℤ × SockaddrIn
  pub errno : ℕ

-- `if (ret != 0) throw make_system_error(errno)`
unfoldable pub checked : ℤ → ℕ → Outcome {0} Unit
checked (pos n) err = if n == 0 then returned tt else threw (make_system_error err)
checked (negsuc n) err = threw (make_system_error err)

abbrev pub positive : ℤ → Bool
positive (pos n) = ltb 0 n
positive (negsuc n) = false

-- After `::socket`, whose descriptor the kernel has opened.
abbrev pub keep_fd : ℤ → ℕ → ℕ → Process → Outcome {0} Unit × Process
keep_fd (pos n) err i p =
    (returned tt, record p { fd = put p.fd i (pos n); is_open = put p.is_open n true })
keep_fd (negsuc n) err i p = (threw (make_system_error err), p)

unfoldable pub init : Kernel → Domain → Transport → ℕ → Process → Outcome {0} Unit × Process
init k d t i p =
    if positive (p.fd i)
    then (returned tt, p)
    else keep_fd (k.socket (domain d) (type t)) k.errno i p

-- `socket_base()`: when `init` throws, the base class is destroyed.
abbrev pub after_init : ℕ → Outcome {0} Unit × Process → Outcome {0} Unit × Process
after_init i (returned x, p) = (returned x, p)
after_init i (threw e, p) = (threw e, destroy i p)

unfoldable pub socket_base : Kernel → Domain → Transport → ℕ → Process → Outcome {0} Unit × Process
socket_base k d t i p = after_init i (init k d t i (construct i p))

abbrev pub sol_socket : ℕ
sol_socket = 1

abbrev pub sol_tcp : ℕ
sol_tcp = 6

abbrev pub so_reuseaddr : ℕ
so_reuseaddr = 2

abbrev pub so_reuseport : ℕ
so_reuseport = 15

abbrev pub so_keepalive : ℕ
so_keepalive = 9

abbrev pub tcp_nodelay : ℕ
tcp_nodelay = 1

abbrev pub set_reuse_address : Kernel → ℤ → Outcome {0} Unit
set_reuse_address k fd = checked (k.setsockopt fd sol_socket so_reuseaddr 1) k.errno

abbrev pub set_reuse_port : Kernel → ℤ → Outcome {0} Unit
set_reuse_port k fd = checked (k.setsockopt fd sol_socket so_reuseport 1) k.errno

abbrev pub set_no_delay : Kernel → ℤ → Outcome {0} Unit
set_no_delay k fd = checked (k.setsockopt fd sol_tcp tcp_nodelay 1) k.errno

abbrev pub set_keep_alive : Kernel → ℤ → Outcome {0} Unit
set_keep_alive k fd = checked (k.setsockopt fd sol_socket so_keepalive 1) k.errno

-- `acceptor::listen`
abbrev pub listen : Kernel → ℤ → ℕ → Outcome {0} Unit
listen k fd max_queue = checked (k.listen fd max_queue) k.errno

unfoldable pub get_peer_address : Kernel → ℤ → Outcome SockaddrIn
get_peer_address k fd = elim (checked (k.getpeername fd).0 k.errno) [
  | returned x ↦ returned (k.getpeername fd).1
  | threw e ↦ threw e
]

-- A socket with its `m_addr`.
pub record Socket : Type 0 where
  pub fd : ℤ
  pub m_addr : SockaddrIn

abbrev pub after_bind : Outcome {0} Unit → SockaddrIn → Socket → Socket
after_bind (returned x) addr s = record s { m_addr = addr }
after_bind (threw e) addr s = s

unfoldable pub bind : Kernel → SockaddrIn → Socket → Outcome {0} Unit × Socket
bind k addr s =
    let answer = checked (k.bind s.fd addr) k.errno in (answer, after_bind answer addr s)

abbrev pub local_address : Socket → SockaddrIn
local_address s = s.m_addr

-- `tcp_sock(int, address_t)`, with the address that `accept` leaves out.
abbrev pub tcp_sock : ℕ → Socket
tcp_sock fd = record { fd = pos fd; m_addr = default_address }

-- `acceptor::accept` from its result: the socket is the object `i`.
abbrev pub accepted : ℤ → ℕ → Process → Outcome Socket × Process
accepted (pos n) i p = (returned (tcp_sock n), construct_from i n p)
accepted (negsuc n) i p = (threw (make_system_error (n + 1)), p)

-- A sequence of calls of `bind`.
unfoldable pub bind_all : List (Kernel × SockaddrIn) → Socket → Socket
unfolding bind
bind_all [] s = s
bind_all ((k, addr) ∷ cs) s = bind_all cs (bind k addr s).1
