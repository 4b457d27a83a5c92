-- ===== src/PingPong/Tests.antt =====
-- The programs of example/pingpong against a peer that hands out five bytes at a time.
use libcoio.Base.{
  true, ◌+◌, ◌%◌, ◌^◌, ◌≡◌, refl, false, some, [], ◌∷◌, arith, length, Bytes, codes, pos, negsuc,
}
use libcoio.Descriptor.{Process}
use libcoio.Descriptor.Owners.{IsOwned}
use libcoio.PingPong.Server.{
  Server, open_server, accept_turn, session_turn, accepts, ends, ServerSteps, at_first, then_turn,
  IsServing, accepting, off_end,
}
use libcoio.PingPong.Serving.{ServerSteps-IsServing}
use libcoio.Protocol.{default_address}
use libcoio.Sockets.{Kernel, socket_base, init, bind, checked}
use mathlib.Core.Path.{subst}
use libcoio.Outcome.{returned, threw, system_error}
use libcoio.HttpClient.Peer.{peer}
use libcoio.PingPong.{
  Sent, took, ended, failed_assertion, session_loop, start_session, client_loop, client,
  add_results, accumulate,
}
use libcoio.PingPong.Echo.{start_session_lem}

abbrev takes_all : Bytes → Bytes → Sent Bytes
takes_all bs s = took (length bs) s

abbrev takes_two : Bytes → Bytes → Sent Bytes
takes_two bs s = took 2 s

abbrev greeting : Bytes
greeting = codes "hello world"

echoed : start_session peer takes_all (returned tt) 12 100 greeting ≡ some (ended 111 greeting)
unfolding start_session session_loop
echoed = refl

-- A peer that takes less ends the session by its assertion.
short_write : start_session peer takes_two (returned tt) 12 100 greeting ≡ some failed_assertion
unfolding start_session session_loop
short_write = refl

two_rounds : client_loop peer takes_all 2 (codes "abcdefg") 0 greeting ≡ 10
unfolding client_loop
two_rounds = refl

start_session_lem_example :
    start_session peer takes_all (returned tt) 12 100 greeting
    ≡ some (ended ((100 + 11) % 2 ^ 32) greeting)
start_session_lem_example =
    start_session_lem peer takes_all (λ bs s. (s, refl, refl)) 12 100 greeting (omega arith)

-- A connection that is refused counts nothing, and the others go on.
two_connections :
    add_results 5 (
      some (
        returned (
          10 ∷ 0 ∷ client peer takes_all (threw (system_error 111)) (returned tt) 2 greeting ∷ [])))
    ≡ some (returned 15)
unfolding add_results accumulate client
two_connections = refl

-- No object lives and no descriptor is open.
abbrev at_start : Process
at_start = record { fd = λ i. negsuc 0; alive = λ i. false; is_open = λ n. false }

at_start-IsOwned : IsOwned at_start
at_start-IsOwned = record {
  opens = λ i n x. cc (x.0);
  unique = λ i j n x y. cc (x.0);
  owned = λ n x. cc (x);
}

-- The kernel gives the acceptor the descriptor 3, and binds it.
abbrev kernel : Kernel
kernel = record {
  socket = λ d t. pos 3;
  setsockopt = λ fd l o v. pos 0;
  bind = λ fd addr. pos 0;
  listen = λ fd q. pos 0;
  getpeername = λ fd. (pos 0, default_address);
  errno = 0;
}

abbrev opened : Server
opened = open_server kernel default_address 0 2 at_start

abbrev one_session : Server
one_session = accept_turn 0 1 (pos 5) opened

abbrev no_more : Server
no_more = accept_turn 0 1 (negsuc 23) one_session

is_accepting :
    (opened.place ≡ accepting) × (one_session.place ≡ accepting) × (no_more.place ≡ off_end)
unfolding open_server socket_base init bind checked
is_accepting = (refl, refl, refl)

five_free : opened.process.is_open 5 ≡ false
unfolding open_server socket_base init bind checked
five_free = refl

session_lives : no_more.process.alive 2 ≡ true
unfolding open_server socket_base init bind checked
session_lives = refl

-- A session is accepted, the next `accept` fails, and the session ends.
all_turns : ServerSteps 0 1 2 opened (session_turn 2 no_more)
all_turns =
    then_turn
      (then_turn
        (then_turn at_first (
          accepts (pos 5) opened is_accepting.0 (λ m e.
            subst (λ k. opened.process.is_open k ≡ false) (let q : 5 ≡ m = cc (e) in q) five_free)))
        (accepts (negsuc 23) one_session is_accepting.1 (λ m e. cc (e))))
      (ends 2 no_more (omega arith) session_lives)

ServerSteps-IsServing_example : IsServing 0 1 2 3 (session_turn 2 no_more)
ServerSteps-IsServing_example =
    ServerSteps-IsServing 0 1 2 3 (λ e. absurd (omega (arith, e))) (omega arith) (omega arith)
      kernel default_address at_start (session_turn 2 no_more) refl refl at_start-IsOwned refl refl
      (λ j le. refl) all_turns
