-- ===== src/HttpClient/Socket.antt =====
-- What http/httpclient.hpp reads from: a connected socket, through `connector::recv`. The kernel
-- and the peer are parameters; `stream` is what the peer sends until it closes or the connection fails.
use libcoio.Base.{ℕ, ◌≤◌, ◌<◌, ◌≡◌, [], ◌∷◌, ◌++◌, length, Bytes}

pub data Received (Sock : Type 0) : Type 0 where
  got : Bytes → Sock → Received Sock
  failed : ℕ → Sock → Received Sock

pub record Transport : Type 1 where
  pub Sock : Type 0
  pub recv : ℕ → Sock → Received Sock
  pub stream : Sock → Bytes
  -- A call takes bytes from the front of the stream, as many as its buffer holds at most.
  pub recv_some :
      (n : ℕ) (s : Sock) (b : ℕ) (bs : Bytes) (s' : Sock)
      → recv n s ≡ got (b ∷ bs) s'
      → (length (b ∷ bs) ≤ n) × (stream s ≡ (b ∷ bs) ++ stream s')
  -- No byte means that the peer has closed.
  pub recv_closed :
      (n : ℕ) (s s' : Sock) → 0 < n → recv n s ≡ got [] s' → (stream s ≡ []) × (stream s' ≡ [])
  pub recv_failed : (n : ℕ) (s : Sock) (e : ℕ) (s' : Sock) → recv n s ≡ failed e s' → stream s ≡ []
