-- ===== src/PingPong.antt =====
-- The programs of example/pingpong: the session of the server, which sends back what it receives, and the
-- client, over the connected socket of HttpClient.Socket.
pub mod Echo
pub mod Client
pub mod Total
pub mod Accepting
pub mod Server
pub mod Objects
pub mod Serving
mod Tests
use libcoio.Base.{
  ℕ, zero, suc, ◌+◌, ◌-◌, ◌*◌, ◌/◌, ◌%◌, ◌^◌, ◌≤◌, ◌<◌, min, max, ◌≡◌, refl, sym, ap, ◌∙◌, ◌≢◌, ◌↔◌,
  ◌⊎◌, inl, inr, Bool, true, false, not, ◌&&◌, ◌||◌, Option, none, some, List, [], ◌∷◌, ◌++◌,
  append-nil, append_assoc, arith, dec_lt, ltb, leb, ◌==◌, if◌then◌else◌, ltb_iff, leb_iff, ==_iff,
  Bool-cases, Option-cases, length, take, drop, replicate, length-append, length-take, length-drop,
  length-replicate, take-append-drop, take_all, drop_all, take-append_of_le, drop-append_of_le,
  take-append_add, drop-append_add, take-append_self, drop-append_self, drop-drop, drop-take,
  take-take, Bytes, codes, occurs, find, find_from, IsFirst, find-IsFirst, find_of_IsFirst,
  find-eq-none, find-none_at, find_from-eq-find, occurs-drop, occurs-append, length_of_occurs,
  find-le-length, find-append, find_splits, starts_with-append, starts_with,
}
use mathlib.Core.Option
use libcoio.Outcome.{Outcome, returned, threw, Exception}
use mathlib.Core.List.{map}
use libcoio.Task.{new_task, set_callback, finish}
use libcoio.WhenAll.{gather}
use libcoio.Base.{ℤ}
use libcoio.Descriptor.{Process, destroy, move_construct}
use libcoio.Sockets.{accepted, Socket}
use libcoio.HttpClient.Socket.{Transport, Received, got, failed}

-- What `send` comes to: the number of bytes taken, or the error number.
pub data Sent (Sock : Type 0) : Type 0 where
  took : ℕ → Sock → Sent Sock
  refused : ℕ → Sock → Sent Sock

-- The end of a session: with its count and what was sent back, by the failed assertion `m == n`, or by an
-- exception that leaves the coroutine.
pub data SessionEnd : Type 0 where
  ended : ℕ → Bytes → SessionEnd
  failed_assertion : SessionEnd
  escaped : Exception → SessionEnd

-- `bytes_read += read_cnt` on a `std::atomic<uint32_t>`.
abbrev pub add_up : ℕ → SessionEnd → SessionEnd
add_up bytes_read (ended read_cnt echoed) = ended ((bytes_read + read_cnt) % 2 ^ 32) echoed
add_up bytes_read failed_assertion = failed_assertion
add_up bytes_read (escaped e) = escaped e

abbrev pub session_buffer : ℕ
session_buffer = 1024

abbrev pub kb : ℕ
kb = 1024

module _ (T : Transport) (send : Bytes → T.Sock → Sent T.Sock) where
  open T use {Sock, recv}

  -- `while (true)` of the server; `none` means that the fuel ran out. Exceptions end the loop.
  unfoldable pub session_loop : ℕ → ℕ → Bytes → Sock → Option SessionEnd
  session_loop zero read_cnt echoed s = none
  session_loop (suc fuel) read_cnt echoed s = elim (recv session_buffer s) [
    | failed e s' ↦ some (ended read_cnt echoed)
    | got [] s' ↦ some (ended read_cnt echoed)
    | got (x ∷ xs) s' ↦ elim (send (x ∷ xs) s') [
      | refused e t ↦ some (ended read_cnt echoed)
      | took m t ↦
          let rest =
            session_loop fuel ((read_cnt + length (x ∷ xs)) % 2 ^ 32) (echoed ++ take m (x ∷ xs))
              t in
          if m == length (x ∷ xs) then rest else some failed_assertion
    ]
  ]

  -- `set_no_delay` stands before the `try`.
  unfoldable pub start_session : Outcome {0} Unit → ℕ → ℕ → Sock → Option SessionEnd
  unfolding session_loop
  start_session (threw e) fuel bytes_read s = some (escaped e)
  start_session (returned x) fuel bytes_read s =
      Option.map (add_up bytes_read) (session_loop fuel 0 [] s)

  -- `while (times--)` of the client. What is received stands at the front of the buffer.
  unfoldable pub client_loop : ℕ → Bytes → ℕ → Sock → ℕ
  client_loop zero buff bytes_read s = bytes_read
  client_loop (suc times) buff bytes_read s = elim (send buff s) [
    | refused e t ↦ bytes_read
    | took n t ↦ elim (recv (length buff) t) [
      | failed e u ↦ bytes_read
      | got [] u ↦ bytes_read
      | got (x ∷ xs) u ↦
          client_loop times ((x ∷ xs) ++ drop (length (x ∷ xs)) buff)
            ((bytes_read + length (x ∷ xs)) % 2 ^ 64) u
    ]
  ]

  -- From what the constructor with `set_no_delay` comes to, and `connect`; exceptions are caught.
  unfoldable pub client : Outcome {0} Unit → Outcome {0} Unit → ℕ → Sock → ℕ
  unfolding client_loop
  client (threw e) connected times s = 0
  client (returned x) (threw e) times s = 0
  client (returned x) (returned y) times s = client_loop times (replicate kb 0) 0 s

  -- The results of `when_all` over the connections of one thread, each task at its end.
  unfoldable pub results :
      Outcome {0} Unit → Outcome {0} Unit → ℕ → List Sock → Option (Outcome (List ℕ))
  unfolding client
  results delay connected times conns = gather (
      map (λ s. (finish (returned (client delay connected times s)) (set_callback new_task)).1)
        conns)

-- `std::accumulate(results.begin(), results.end(), 0ull)`
unfoldable pub accumulate : ℕ → List ℕ → ℕ
accumulate sum [] = sum
accumulate sum (n ∷ ns) = accumulate ((sum + n) % 2 ^ 64) ns

-- What `start_all_conn` does with the results: `bytes += this_bytes`.
unfoldable pub add_results : ℕ → Option (Outcome (List ℕ)) → Option (Outcome ℕ)
unfolding accumulate
add_results bytes none = none
add_results bytes (some (threw e)) = some (threw e)
add_results bytes (some (returned ns)) = some (returned ((bytes + accumulate 0 ns) % 2 ^ 64))

-- `ctx.co_spawn(start_session(std::move(sock), bytes_read))`, and the end of `sock`.
abbrev pub spawn : ℕ → ℕ → Outcome Socket × Process → Outcome {0} Unit × Process
spawn i j (returned sock, p) = (returned tt, destroy i (move_construct j i p))
spawn i j (threw e, p) = (threw e, p)

-- One turn of the accept loop of `server`, from the result of the kernel: the socket is the object `i`,
-- the parameter of the session that is spawned the object `j`. An error leaves the loop.
abbrev pub accept_once : ℤ → ℕ → ℕ → Process → Outcome {0} Unit × Process
accept_once res i j p = spawn i j (accepted res i p)

-- The end of the session destroys its parameter.
abbrev pub session_ends : ℕ → Process → Process
session_ends j p = destroy j p
