-- ===== src/HttpClient/Reading.antt =====
-- include/http/httpclient.hpp, the reading loops of `http_client`: `read_until` and `read_body`.
use libcoio.Base.{
  ℕ, zero, suc, ◌+◌, ◌-◌, max, Option, none, some, [], ◌∷◌, ◌++◌, ltb, leb, if◌then◌else◌, length,
  take, Bytes, find_from,
}
use libcoio.Outcome.{Outcome, returned, threw, make_system_error}
use libcoio.StreamBuffer.{StreamBuffer, prepare, fill, commit, consume, text, try_get_data}
use libcoio.HttpClient.Socket.{Transport, got, failed}

abbrev pub min_buf_sz : ℕ
min_buf_sz = 64

module _ (T : Transport) where
  open T use {Sock, recv}

  -- `while (need_read > 0)`. Each round takes a byte at least, so `need_read` rounds are enough.
  unfoldable pub body_loop : ℕ → ℕ → StreamBuffer → Sock → StreamBuffer × Sock
  body_loop zero need b s = (b, s)
  body_loop (suc fuel) zero b s = (b, s)
  body_loop (suc fuel) (suc k) b s =
      let room = max (suc k) min_buf_sz in
      let b' = prepare room b in
      elim (recv room s) [
        | failed e s' ↦ (b', s')
        | got [] s' ↦ (b', s')
        | got (x ∷ xs) s' ↦
            let n = if leb (suc k) (length (x ∷ xs)) then suc k else length (x ∷ xs) in
            body_loop fuel (suc k - n) (commit n (fill (x ∷ xs) b')) s'
      ]

  -- The body, and what is left of the buffer and of the socket. `recv`'s exceptions are caught.
  unfoldable pub read_body : ℕ → StreamBuffer → Sock → Bytes × StreamBuffer × Sock
  unfolding body_loop
  read_body zero b s = ([], b, s)
  read_body (suc k) b s = elim (try_get_data (suc k) b) [
    | some t ↦ (t, consume (length t) b, s)
    | none ↦
        let rsp = text b in
        let need = suc k - length rsp in
        let (b', s') = body_loop need need (consume (length rsp) b) s in
        let rsp' = rsp ++ text b' in (rsp', consume (length rsp') b', s')
  ]

  -- After the loop of `read_until`: without a result, all that is held.
  unfoldable pub finish : Bytes → StreamBuffer → Sock → Outcome Bytes × StreamBuffer × Sock
  finish [] b s = (returned (text b), consume (length (text b)) b, s)
  finish (c ∷ r) b s = (returned (c ∷ r), b, s)

  -- `while (n = co_await recv(buf), n != 0)`; `none` means that the fuel ran out.
  unfoldable pub until_loop :
      Bytes → ℕ → ℕ → ℕ → StreamBuffer → Sock → Option (Outcome Bytes × StreamBuffer × Sock)
  unfolding finish
  until_loop delim zero room beg b s = none
  until_loop delim (suc fuel) room beg b s = elim (recv room s) [
    | failed e s' ↦ some (threw (make_system_error e), b, s')
    | got [] s' ↦ some (finish [] b s')
    | got (x ∷ xs) s' ↦
        let b' = commit (length (x ∷ xs)) (fill (x ∷ xs) b) in
        let str = text b' in
        elim (find_from delim str beg) [
          | some pos ↦
              let end = pos + length delim in some (finish (take end str) (consume end b') s')
          | none ↦
              until_loop delim fuel 256
                (if ltb (length delim) (length str) then length str - length delim else 0)
                (prepare 256 b') s'
        ]
  ]

  unfoldable pub read_until :
      ℕ → Bytes → StreamBuffer → Sock → Option (Outcome Bytes × StreamBuffer × Sock)
  unfolding until_loop
  read_until fuel delim b s = until_loop delim fuel 512 0 (prepare 512 b) s
