-- ===== src/HttpClient/Body.antt =====
-- `read_body` gives the bytes asked for, from the buffer first and then from the socket.
use libcoio.Base.{
  ℕ, zero, suc, ◌+◌, ◌-◌, ◌≤◌, ◌<◌, max, ◌≡◌, refl, sym, ap, ◌∙◌, inl, inr, none, some, [], ◌∷◌,
  ◌++◌, append-nil, append_assoc, arith, dec_lt, leb, if◌then◌else◌, Bool-cases, length, take, drop,
  length-append, length-take, take_all, drop_all, take-append_of_le, take-append_add, Bytes,
}
use libcoio.StreamBuffer.{StreamBuffer, prepare, fill, commit, consume, text, try_get_data}
use libcoio.StreamBuffer.Bounds.{IsValid, Room, consume-IsValid}
use libcoio.StreamBuffer.Contents.{consume-text, consume_lem, prepare_lem, receive_lem}
use libcoio.StreamBuffer.Characters.{try_get_data_lem}
use libcoio.HttpClient.Socket.{Transport, Received, got, failed}
use libcoio.HttpClient.Reading.{body_loop, read_body}

module _ (T : Transport) where
  open T use {Sock, recv, stream, recv_some, recv_closed, recv_failed}

  -- What a loop leaves behind, begun at `b` and `s` with `need` bytes to read.
  record Reads (need : ℕ) (b : StreamBuffer) (s : Sock) (r : StreamBuffer × Sock) : Type 0 where
    valid : IsValid r.0
    held : text r.0 ≡ text b ++ take need (stream s)

  -- The bytes of one `recv` that count: all, or those still needed.
  abbrev used : ℕ → Bytes → ℕ
  used need bs = if leb need (length bs) then need else length bs

  stays :
      (need : ℕ) (b : StreamBuffer) (s s' : Sock)
      → stream s ≡ []
      → Room (need + 64) b
      → IsValid b
      → Reads need b s (prepare (max need 64) b, s')
  stays need b s s' e r v =
      let (w, held, p, room) = prepare_lem (max need 64) {s = b} (omega arith) v in
      record {
        valid = w;
        held =
            held
            ∙ sym (append-nil (text b))
            ∙ ap (λ t. text b ++ t) (sym (ap (take need) e ∙ take_all need [] (omega arith)));
      }

  take-used :
      (need : ℕ) (bs rest : Bytes)
      → take need (bs ++ rest) ≡ take (used need bs) bs ++ take (need - used need bs) rest
  take-used need bs rest = elim (Bool-cases (leb need (length bs))) [
    | inl e ↦ rw e (
        take-append_of_le need bs rest (ground arith)
        ∙ sym (append-nil (take need bs))
        ∙ ap (λ k. take need bs ++ take k rest) (let z : 0 ≡ need - need = omega arith in z))
    | inr e ↦ rw e (
        ap (λ k. take k (bs ++ rest))
          (let z : need ≡ length bs + (need - length bs) = ground arith in z)
        ∙ take-append_add bs rest (need - length bs)
        ∙ ap (λ t. t ++ take (need - length bs) rest) (sym (take_all (length bs) bs (omega arith))))
  ]

  -- A round that gets bytes, then the rounds for what is still needed.
  round-Reads :
      (need : ℕ) (b : StreamBuffer) (s s' : Sock) (bs : Bytes) (r : StreamBuffer × Sock)
      → length bs ≤ max need 64
      → stream s ≡ bs ++ stream s'
      → Room (need + 64) b
      → IsValid b
      → Reads (need - used need bs) (commit (used need bs) (fill bs (prepare (max need 64) b))) s' r
      → Reads need b s r
  round-Reads need b s s' bs r le e room v rest =
      let (w, held, p) =
        receive_lem (max need 64) bs (used need bs) {s = b} le (ground arith) (omega arith) v in
      record {
        valid = rest.valid;
        held =
            rest.held
            ∙ ap (λ t. t ++ take (need - used need bs) (stream s')) held
            ∙ append_assoc (text b) (take (used need bs) bs)
                (take (need - used need bs) (stream s'))
            ∙ ap (λ t. text b ++ t) (sym (ap (take need) e ∙ take-used need bs (stream s')));
      }

  step-Reads :
      (fuel k : ℕ) (b : StreamBuffer) (s : Sock) (x : Received Sock)
      → recv (max (suc k) 64) s ≡ x
      → suc k ≤ suc fuel
      → Room (suc k + 64) b
      → IsValid b
      → ((need : ℕ) (b' : StreamBuffer) (s' : Sock)
          → need ≤ fuel
          → Room (need + 64) b'
          → IsValid b'
          → Reads need b' s' (body_loop T fuel need b' s'))
      → Reads (suc k) b s (body_loop T (suc fuel) (suc k) b s)
  unfolding body_loop
  step-Reads fuel k b s (failed e s') q le r v ih =
      rw (q, body_loop) (stays (suc k) b s s' (recv_failed _ s e s' q) r v)
  step-Reads fuel k b s (got [] s') q le r v ih =
      rw (q, body_loop) (stays (suc k) b s s' (recv_closed _ s s' (omega arith) q).0 r v)
  step-Reads fuel k b s (got (x ∷ xs) s') q le r v ih =
      let (fits, e) = recv_some (max (suc k) 64) s x xs s' q in
      let bs : Bytes = x ∷ xs in
      let n = used (suc k) bs in
      let (w, held, p) =
        receive_lem (max (suc k) 64) bs n {s = b} fits (ground arith) (omega arith) v in
      let pos : (0 < n) × (n ≤ suc k) = (ground arith, ground arith) in
      rw (q, body_loop)
        (round-Reads (suc k) b s s' bs _ fits e r v (
          ih (suc k - n) (commit n (fill bs (prepare (max (suc k) 64) b))) s' (omega (arith, pos.0))
            (omega (arith, p, pos.1)) w))

  -- `need` rounds are enough for `need` bytes.
  body_loop-Reads :
      (fuel need : ℕ) (b : StreamBuffer) (s : Sock)
      → need ≤ fuel
      → Room (need + 64) b
      → IsValid b
      → Reads need b s (body_loop T fuel need b s)
  unfolding body_loop
  body_loop-Reads zero zero b s le r v = record { valid = v; held = sym (append-nil (text b)) }
  body_loop-Reads zero (suc k) b s le r v = absurd (omega arith)
  body_loop-Reads (suc fuel) zero b s le r v = record {
    valid = v;
    held = sym (append-nil (text b));
  }
  body_loop-Reads (suc fuel) (suc k) b s le r v =
      step-Reads fuel k b s (recv (max (suc k) 64) s) refl le r v (body_loop-Reads fuel)

  -- What a call of `read_body` gives.
  abbrev pub GivesBody : ℕ → StreamBuffer → Sock → Bytes × StreamBuffer × Sock → Type 0
  GivesBody need b s out =
      (out.0 ≡ take need (text b ++ stream s)) × (text out.1 ≡ drop need (text b)) × IsValid out.1

  -- The buffer holds too little: it is emptied, then the loop runs.
  drained :
      (k : ℕ) (b : StreamBuffer) (s : Sock) (r : StreamBuffer × Sock)
      → length (text b) < suc k
      → Reads (suc k - length (text b)) (consume (length (text b)) b) s r
      → IsValid b
      → GivesBody (suc k) b s (text b ++ text r.0, consume (length (text b ++ text r.0)) r.0, r.1)
  drained k b s r few reads v =
      let need = suc k - length (text b) in
      let emptied : text (consume (length (text b)) b) ≡ [] =
        consume-text (length (text b)) v ∙ drop_all (length (text b)) (text b) (omega arith) in
      let new : text r.0 ≡ take need (stream s) =
        reads.held ∙ ap (λ t. t ++ take need (stream s)) emptied in
      (
        ap (λ t. text b ++ t) new
            ∙ sym (take-append_add (text b) (stream s) need)
            ∙ ap (λ n. take n (text b ++ stream s))
                (let e : length (text b) + need ≡ suc k = omega arith in e),
        consume-text (length (text b ++ text r.0)) reads.valid
            ∙ drop_all _ (text r.0) (omega (arith, length-append (text b) (text r.0)))
            ∙ sym (drop_all (suc k) (text b) (omega arith)),
        consume-IsValid _ reads.valid,
      )

  -- The buffer holds enough.
  held_already :
      (need : ℕ) (b : StreamBuffer) (s : Sock)
      → need ≤ length (text b)
      → IsValid b
      → GivesBody need b s (take need (text b), consume (length (take need (text b))) b, s)
  held_already need b s le v = (
    sym (take-append_of_le need (text b) (stream s) le),
    consume-text (length (take need (text b))) v
        ∙ ap (λ n. drop n (text b)) (omega (arith, length-take need (text b))),
    consume-IsValid _ v,
  )

  -- `read_body need` gives the first `need` bytes of what is held followed by what the peer sends,
  -- all of them if they are fewer; the buffer then holds what it held beyond `need`, and is valid.
  -- The buffer must be valid and leave room for `need + 64` bytes below 2 ^ 31.
  pub read_body_lem :
      (need : ℕ) (b : StreamBuffer) (s : Sock)
      → Room (need + 64) b
      → IsValid b
      → GivesBody need b s (read_body T need b s)
  unfolding read_body
  read_body_lem zero b s r v = (refl, refl, v)
  read_body_lem (suc k) b s r v = elim (dec_lt (length (text b)) (suc k)) [
    | yes few ↦
        let none_now : try_get_data (suc k) b ≡ none = ground (arith, try_get_data_lem (suc k) v) in
        let n = length (text b) in
        let moved = consume_lem n v in
        rw (none_now, read_body)
          (drained k b s _ few
            (body_loop-Reads (suc k - n) (suc k - n) (consume n b) s (omega arith)
              (omega (arith, moved.1)) (consume-IsValid n v))
            v)
    | no enough ↦
        let now : try_get_data (suc k) b ≡ some (take (suc k) (text b)) =
          ground (arith, try_get_data_lem (suc k) v) in
        rw (now, read_body) (held_already (suc k) b s (omega arith) v)
  ]
