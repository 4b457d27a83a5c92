-- ===== src/HttpClient/Peer.antt =====
-- A peer that hands out its text five bytes at a time, and closes.
use libcoio.Base.{
  ℕ, ◌≤◌, ◌<◌, min, ◌≡◌, refl, sym, ap, ◌∙◌, [], ◌∷◌, ◌++◌, arith, length, take, drop, length-take,
  take-append-drop, drop_all, Bytes,
}
use libcoio.HttpClient.Socket.{Transport, Received, got, failed}

abbrev pub five_at_a_time : ℕ → Bytes → Received Bytes
five_at_a_time n s = got (take (min n 5) s) (drop (min n 5) s)

pub five_some :
    (n : ℕ) (s : Bytes) (b : ℕ) (bs : Bytes) (s' : Bytes)
    → five_at_a_time n s ≡ got (b ∷ bs) s'
    → (length (b ∷ bs) ≤ n) × (s ≡ (b ∷ bs) ++ s')
five_some n s b bs s' h =
    let front : take (min n 5) s ≡ b ∷ bs = cc (h) in
    let back : drop (min n 5) s ≡ s' = cc (h) in
    (
      omega (arith, length-take (min n 5) s, ap length front),
      sym (take-append-drop (min n 5) s)
          ∙ ap (λ t. t ++ drop (min n 5) s) front
          ∙ ap (λ t. (b ∷ bs) ++ t) back,
    )

pub five_closed :
    (n : ℕ) (s s' : Bytes) → 0 < n → five_at_a_time n s ≡ got [] s' → (s ≡ []) × (s' ≡ [])
five_closed n [] s' some_room h =
    let back : drop (min n 5) [] ≡ s' = cc (h) in
    (refl, sym back ∙ drop_all (min n 5) [] (omega arith))
five_closed n (b ∷ bs) s' some_room h =
    let front : take (min n 5) (b ∷ bs) ≡ [] = cc (h) in
    absurd (omega (arith, length-take (min n 5) (b ∷ bs), ap length front))

pub five_failed :
    (n : ℕ) (s : Bytes) (e : ℕ) (s' : Bytes) → five_at_a_time n s ≡ failed e s' → s ≡ []
five_failed n s e s' h = cc (h)

abbrev pub peer : Transport
peer = record {
  Sock = Bytes;
  recv = five_at_a_time;
  stream = λ s. s;
  recv_some = five_some;
  recv_closed = five_closed;
  recv_failed = five_failed;
}
