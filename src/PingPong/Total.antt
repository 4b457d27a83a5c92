-- ===== src/PingPong/Total.antt =====
-- All connections of one thread of example/pingpong.
use libcoio.Base.{
  ℕ, suc, ◌+◌, ◌*◌, ◌%◌, ◌^◌, ◌≤◌, ◌<◌, ◌≡◌, refl, ap, ◌∙◌, some, List, [], ◌∷◌, arith, length,
  Bytes,
}
use mathlib.Core.List.{map}
use libcoio.Outcome.{Outcome, returned, logic_error}
use libcoio.Task.{new_task, set_callback, finish}
use libcoio.WhenAll.{gather}
use libcoio.WhenAll.Gather.{ended, gather_lem}
use libcoio.HttpClient.Socket.{Transport}
use libcoio.PingPong.{Sent, kb, client, results, accumulate, add_results}
use libcoio.PingPong.Client.{KeepsStream, client_lem}

module _ (T : Transport) (send : Bytes → T.Sock → Sent T.Sock) where
  open T use {Sock}

  abbrev counts : Outcome {0} Unit → Outcome {0} Unit → ℕ → List Sock → List ℕ
  counts delay connected times conns = map (client T send delay connected times) conns

  tasks_ended :
      (delay connected : Outcome {0} Unit) (times : ℕ) (conns : List Sock)
      → map
          (λ s.
            (finish (returned (client T send delay connected times s)) (set_callback new_task)).1)
          conns
        ≡ ended (map returned (counts delay connected times conns))
  tasks_ended delay connected times [] = refl
  tasks_ended delay connected times (s ∷ ss) =
      ap
        (λ ts.
          (finish (returned (client T send delay connected times s)) (set_callback new_task)).1
          ∷ ts)
        (tasks_ended delay connected times ss)

  -- No exception of a client gets out, and the results are the counts in order.
  results-counts :
      (delay connected : Outcome {0} Unit) (times : ℕ) (conns : List Sock)
      → results T send delay connected times conns
        ≡ some (returned (counts delay connected times conns))
  unfolding results
  results-counts delay connected times conns =
      ap gather (tasks_ended delay connected times conns)
      ∙ (gather_lem (counts delay connected times conns) logic_error []).0

  accumulate-bound :
      KeepsStream T send
      → (delay connected : Outcome {0} Unit) (times sum : ℕ) (conns : List Sock) → times < 2 ^ 32
      → sum + kb * times * length conns < 2 ^ 64
      → accumulate sum (counts delay connected times conns) ≤ sum + kb * times * length conns
  unfolding accumulate
  accumulate-bound keeps delay connected times sum [] small whole = omega arith
  accumulate-bound keeps delay connected times sum (s ∷ ss) small whole =
      let share = (client_lem T send keeps delay connected times s small).0 in
      let one = client T send delay connected times s in
      let more : kb * times * suc (length ss) ≡ kb * times * length ss + kb * times = omega arith in
      let exact : (sum + one) % 2 ^ 64 ≡ sum + one = omega (arith, share, more, whole) in
      let later =
        accumulate-bound keeps delay connected times (sum + one) ss small
          (omega (arith, share, more, whole)) in
      let same = ap (λ n. accumulate n (counts delay connected times ss)) exact in
      omega (arith, later, share, more, same)

  -- when_all over the connections of one thread gives no exception: the total that start_all_conn adds is
  -- at most 1024 bytes for each round of each connection, as long as that and the total before stay below
  -- 2^64. Sending leaves what is still to be received, and times is a 32-bit number.
  pub start_all_conn_lem :
      KeepsStream T send
      → (delay connected : Outcome {0} Unit) (times bytes : ℕ) (conns : List Sock) → times < 2 ^ 32
      → bytes + kb * times * length conns < 2 ^ 64
      → (total : ℕ) × (add_results bytes (results T send delay connected times conns)
          ≡ some (returned (bytes + total)))
        × (total ≤ kb * times * length conns)
  unfolding add_results
  start_all_conn_lem keeps delay connected times bytes conns small whole =
      let total = accumulate 0 (counts delay connected times conns) in
      let below =
        accumulate-bound keeps delay connected times 0 conns small (omega (arith, whole)) in
      let exact : (bytes + total) % 2 ^ 64 ≡ bytes + total = omega (arith, below, whole) in
      (
        total,
        ap (add_results bytes) (results-counts delay connected times conns)
            ∙ ap (λ n. some (returned n)) exact,
        omega (arith, below),
      )
