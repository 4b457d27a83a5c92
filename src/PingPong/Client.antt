-- ===== src/PingPong/Client.antt =====
-- The count of the client of example/pingpong.
use libcoio.Base.{
  ℕ, zero, suc, ◌+◌, ◌*◌, ◌%◌, ◌^◌, ◌≤◌, ◌<◌, ◌≡◌, refl, sym, ap, ◌∙◌, ◌⊎◌, inl, inr, [], ◌∷◌, ◌++◌,
  arith, length, drop, replicate, length-append, length-drop, length-replicate, Bytes,
}
use libcoio.Outcome.{Outcome, returned, threw}
use libcoio.HttpClient.Socket.{Transport, Received, got, failed}
use libcoio.PingPong.{Sent, took, refused, kb, client_loop, client}

module _ (T : Transport) (send : Bytes → T.Sock → Sent T.Sock) where
  open T use {Sock, recv, stream, recv_some}

  -- Sending leaves what is still to be received.
  abbrev pub KeepsStream : Type 0
  KeepsStream = (bs : Bytes) (s t : Sock) (n : ℕ) → send bs s ≡ took n t → stream t ≡ stream s

  abbrev Counts : ℕ → Bytes → ℕ → Sock → Type 0
  Counts times buff sum s =
      (client_loop T send times buff sum s ≤ sum + kb * times)
      × (client_loop T send times buff sum s ≤ sum + length (stream s))

  stops_here :
      (times : ℕ) (buff : Bytes) (sum : ℕ) (s : Sock)
      → client_loop T send (suc times) buff sum s ≡ sum
      → Counts (suc times) buff sum s
  stops_here times buff sum s e = (omega (arith, e), omega (arith, e))

  after_recv :
      KeepsStream
      → (times : ℕ)
      → ((buff : Bytes) (sum : ℕ) (s : Sock)
          → length buff ≡ kb
          → sum + kb * times < 2 ^ 64
          → Counts times buff sum s)
      → (buff : Bytes) (sum n : ℕ) (s t : Sock) (x : Received Sock) → length buff ≡ kb
      → sum + kb * suc times < 2 ^ 64
      → send buff s ≡ took n t
      → recv (length buff) t ≡ x
      → Counts (suc times) buff sum s
  unfolding client_loop
  after_recv keeps times later buff sum n s t (failed e u) full small w q =
      stops_here times buff sum s (rw (w, q, client_loop) refl)
  after_recv keeps times later buff sum n s t (got [] u) full small w q =
      stops_here times buff sum s (rw (w, q, client_loop) refl)
  after_recv keeps times later buff sum n s t (got (b ∷ bs) u) full small w q =
      let (fits, front) = recv_some (length buff) t b bs u q in
      let parts =
        ap length (sym (keeps buff s t n w) ∙ front) ∙ length-append (b ∷ bs) (stream u) in
      let buff' = (b ∷ bs) ++ drop (length (b ∷ bs)) buff in
      let full' : length buff' ≡ kb = omega (
        arith,
        length-append (b ∷ bs) (drop (length (b ∷ bs)) buff),
        length-drop (length (b ∷ bs)) buff,
        fits,
        full,
      ) in
      let exact : (sum + length (b ∷ bs)) % 2 ^ 64 ≡ sum + length (b ∷ bs) =
        omega (arith, fits, full, small) in
      let turn : client_loop T send (suc times) buff sum s
          ≡ client_loop T send times buff' (sum + length (b ∷ bs)) u =
        rw (w, q, client_loop) (ap (λ m. client_loop T send times buff' m u) exact) in
      let (below, received) =
        later buff' (sum + length (b ∷ bs)) u full' (omega (arith, fits, full, small)) in
      (omega (arith, turn, below, fits, full), omega (arith, turn, received, parts))

  client_loop_lem :
      KeepsStream
      → (times : ℕ) (buff : Bytes) (sum : ℕ) (s : Sock) → length buff ≡ kb
      → sum + kb * times < 2 ^ 64
      → Counts times buff sum s
  unfolding client_loop
  client_loop_lem keeps zero buff sum s full small = (omega arith, omega arith)
  client_loop_lem keeps (suc times) buff sum s full small = elim (Sent-cases (send buff s)) [
    | inl (e, t, w) ↦ stops_here times buff sum s (rw (w, client_loop) refl)
    | inr (n, t, w) ↦
        after_recv keeps times (client_loop_lem keeps times) buff sum n s t (recv (length buff) t)
          full small w refl
  ]
    where
      Sent-cases :
          (x : Sent Sock)
          → ((e : ℕ) × (t : Sock) × (x ≡ refused e t)) ⊎ ((n : ℕ) × (t : Sock) × (x ≡ took n t))
      Sent-cases (refused e t) = inl (e, t, refl)
      Sent-cases (took n t) = inr (n, t, refl)

  -- Whatever set_no_delay, connect, send and recv answer, the count of the client does not wrap around: it
  -- is at most 1024 bytes for each round, and at most what the peer has sent. Sending leaves what is still
  -- to be received, and times is a 32-bit number.
  pub client_lem :
      KeepsStream
      → (delay connected : Outcome {0} Unit) (times : ℕ) (s : Sock) → times < 2 ^ 32
      → (client T send delay connected times s ≤ kb * times)
        × (client T send delay connected times s ≤ length (stream s))
  unfolding client
  client_lem keeps (threw e) connected times s small = (omega arith, omega arith)
  client_lem keeps (returned x) (threw e) times s small = (omega arith, omega arith)
  client_lem keeps (returned x) (returned y) times s small =
      let (below, received) =
        client_loop_lem keeps times (replicate kb 0) 0 s (length-replicate {A = ℕ} kb 0)
          (omega (arith, small)) in
      (omega (arith, below), omega (arith, received))
