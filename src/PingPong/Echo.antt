-- ===== src/PingPong/Echo.antt =====
-- The server of example/pingpong sends back what it receives.
use libcoio.Base.{
  ℕ, zero, suc, ◌+◌, ◌%◌, ◌^◌, ◌<◌, ◌≡◌, refl, sym, ap, ◌∙◌, ◌⊎◌, inl, inr, some, [], ◌∷◌, ◌++◌,
  append-nil, append_assoc, arith, ==_iff, length, length-append, take_all, Bytes,
}
use libcoio.Outcome.{returned}
use libcoio.HttpClient.Socket.{Transport, Received, got, failed}
use libcoio.PingPong.{Sent, took, ended, add_up, session_buffer, session_loop, start_session}
use mathlib.Core.Option

module _ (T : Transport) (send : Bytes → T.Sock → Sent T.Sock) where
  open T use {Sock, recv, stream, recv_some, recv_closed, recv_failed}

  -- The peer takes all that is sent, and sending leaves what is still to be received.
  abbrev pub TakesAll : Type 0
  TakesAll =
      (bs : Bytes) (s : Sock)
      → (t : Sock) × (send bs s ≡ took (length bs) t) × (stream t ≡ stream s)

  -- The three things that a round can come to.
  round_ends :
      (fuel r : ℕ) (e : Bytes) (s : Sock)
      → ((err : ℕ) × (s' : Sock) × (recv session_buffer s ≡ failed err s'))
        ⊎ ((s' : Sock) × (recv session_buffer s ≡ got [] s'))
      → session_loop T send (suc fuel) r e s ≡ some (ended r e)
  unfolding session_loop
  round_ends fuel r e s (inl (err, s', q)) = rw (q, session_loop) refl
  round_ends fuel r e s (inr (s', q)) = rw (q, session_loop) refl

  round_echoes :
      (fuel r : ℕ) (e : Bytes) (s s' t : Sock) (b : ℕ) (bs : Bytes)
      → recv session_buffer s ≡ got (b ∷ bs) s'
      → send (b ∷ bs) s' ≡ took (length (b ∷ bs)) t
      → session_loop T send (suc fuel) r e s
        ≡ session_loop T send fuel ((r + length (b ∷ bs)) % 2 ^ 32) (e ++ (b ∷ bs)) t
  unfolding session_loop
  round_echoes fuel r e s s' t b bs q w =
      rw (q, w, session_loop)
        (rw ((==_iff (length (b ∷ bs)) (length (b ∷ bs))).1 refl) (
          ap (λ x. session_loop T send fuel ((r + length (b ∷ bs)) % 2 ^ 32) (e ++ x) t)
            (take_all (length (b ∷ bs)) (b ∷ bs) (omega arith))))

  -- Nothing left to receive: the count and the text are those of the stream.
  at_end :
      (fuel r : ℕ) (e : Bytes) (s : Sock)
      → r < 2 ^ 32
      → stream s ≡ []
      → session_loop T send (suc fuel) r e s ≡ some (ended r e)
      → session_loop T send (suc fuel) r e s
        ≡ some (ended ((r + length (stream s)) % 2 ^ 32) (e ++ stream s))
  at_end fuel r e s small over q =
      let sum : (r + length {A = ℕ} []) % 2 ^ 32 ≡ r = omega (arith, small) in
      q ∙ rw over (rw (sum, append-nil e) refl)

  abbrev Echoes : ℕ → Type 0
  Echoes fuel =
      (r : ℕ) (e : Bytes) (s : Sock)
      → r < 2 ^ 32
      → length (stream s) < fuel
      → session_loop T send fuel r e s
        ≡ some (ended ((r + length (stream s)) % 2 ^ 32) (e ++ stream s))

  by_round :
      TakesAll
      → (fuel : ℕ) → Echoes fuel
      → (r : ℕ) (e : Bytes) (s : Sock) (x : Received Sock) → r < 2 ^ 32
      → length (stream s) < suc fuel
      → recv session_buffer s ≡ x
      → session_loop T send (suc fuel) r e s
        ≡ some (ended ((r + length (stream s)) % 2 ^ 32) (e ++ stream s))
  by_round all fuel later r e s (failed err s') small enough q =
      at_end fuel r e s small (recv_failed session_buffer s err s' q)
        (round_ends fuel r e s (inl (err, s', q)))
  by_round all fuel later r e s (got [] s') small enough q =
      at_end fuel r e s small (recv_closed session_buffer s s' (omega arith) q).0
        (round_ends fuel r e s (inr (s', q)))
  by_round all fuel later r e s (got (b ∷ bs) s') small enough q =
      let (t, w, same) = all (b ∷ bs) s' in
      let front = (recv_some session_buffer s b bs s' q).1 in
      let whole = front ∙ ap (λ z. (b ∷ bs) ++ z) (sym same) in
      let sum = ap length whole ∙ length-append (b ∷ bs) (stream t) in
      let r' = (r + length (b ∷ bs)) % 2 ^ 32 in
      let count : (r' + length (stream t)) % 2 ^ 32 ≡ (r + length (stream s)) % 2 ^ 32 =
        omega (arith, sum) in
      let text : (e ++ (b ∷ bs)) ++ stream t ≡ e ++ stream s =
        append_assoc e (b ∷ bs) (stream t) ∙ ap (λ z. e ++ z) (sym whole) in
      round_echoes fuel r e s s' t b bs q w
      ∙ later r' (e ++ (b ∷ bs)) t (omega arith) (omega (arith, sum, enough))
      ∙ ap some (ap (λ n. ended n ((e ++ (b ∷ bs)) ++ stream t)) count)
      ∙ ap (λ z. some (ended ((r + length (stream s)) % 2 ^ 32) z)) text

  session_loop_lem : TakesAll → (fuel : ℕ) → Echoes fuel
  session_loop_lem all zero r e s small enough = absurd (omega arith)
  session_loop_lem all (suc fuel) r e s small enough =
      by_round all fuel (session_loop_lem all fuel) r e s (recv session_buffer s) small enough refl

  -- Where the peer takes all that is sent, a session of the server ends, with more fuel than the peer sends
  -- bytes: what it has sent is all that the peer has sent, and the shared count has grown by its length, in
  -- 32 bits. An error of recv ends it like the end of the connection.
  pub start_session_lem :
      TakesAll
      → (fuel bytes_read : ℕ) (s : Sock) → length (stream s) < fuel
      → start_session T send (returned tt) fuel bytes_read s
        ≡ some (ended ((bytes_read + length (stream s)) % 2 ^ 32) (stream s))
  unfolding start_session
  start_session_lem all fuel bytes_read s enough =
      let count : (bytes_read + (0 + length (stream s)) % 2 ^ 32) % 2 ^ 32
          ≡ (bytes_read + length (stream s)) % 2 ^ 32 =
        omega arith in
      ap (Option.map (add_up bytes_read)) (session_loop_lem all fuel 0 [] s (omega arith) enough)
      ∙ ap (λ n. some (ended n (stream s))) count
