-- ===== src/HttpClient/Until.antt =====
-- `read_until` gives the text up to the first delimiter, and loses no byte behind it.
use libcoio.Base.{
  ℕ, ◌+◌, ◌<◌, ◌≡◌, refl, ap, ◌∙◌, inl, none, some, [], ◌++◌, arith, length, Bytes, find,
}
use mathlib.Core.Path.{subst}
use libcoio.StreamBuffer.{StreamBuffer, prepare, text}
use libcoio.StreamBuffer.Bounds.{IsValid, Room}
use libcoio.StreamBuffer.Contents.{prepare_lem}
use libcoio.HttpClient.Socket.{Transport}
use libcoio.HttpClient.Reading.{read_until}
use libcoio.HttpClient.UntilRounds.{GivesUntil, Out, carry, loop-Result}

module _ (T : Transport) where
  open T use {Sock, stream}

  -- With a delimiter that is not in the buffer yet, and fuel for every byte that the peer sends,
  -- `read_until` ends. If the delimiter stands in the text held followed by the text sent, the result
  -- is that text through the first delimiter, and buffer and socket still hold all that follows.
  -- If not, the result is the whole text, or `recv` has thrown. The buffer must be valid and stay below
  -- 2 ^ 31 bytes.
  pub read_until_lem :
      (d : Bytes) (fuel : ℕ) (b : StreamBuffer) (s : Sock)
      → 0 < length d
      → length (stream s) < fuel
      → Room (length (stream s) + 512) b
      → IsValid b
      → find d (text b) ≡ none
      → (out : Out T) × (read_until T fuel d b s ≡ some out)
        × GivesUntil T
            (b.pptr + length (stream s))
            d
            (text b ++ stream s)
            (find d (text b ++ stream s))
            out
  unfolding read_until
  read_until_lem d fuel b s pos enough room v none_yet =
      let (w, held, p, prep) = prepare_lem 512 {s = b} (omega arith) v in
      let (out, ran, gives) = loop-Result T d fuel 512 0 (prepare 512 b) s pos enough (record {
        valid = w;
        some_room = omega arith;
        prepared = prep;
        small = omega (arith, p);
        not_yet = ap (find d) held ∙ none_yet;
        start = inl refl;
      }) in
      (
        out,
        ran,
        carry T d out (text (prepare 512 b) ++ stream s) (text b ++ stream s)
            ((prepare 512 b).pptr + length (stream s)) (b.pptr + length (stream s))
            (ap (λ t. t ++ stream s) held) (omega (arith, p)) gives,
      )

  -- The same with an empty buffer, where the delimiter is at `p` in what the peer sends.
  pub read_until_empty :
      (d : Bytes) (fuel p : ℕ) (b : StreamBuffer) (s : Sock)
      → 0 < length d
      → length (stream s) < fuel
      → Room (length (stream s) + 512) b
      → IsValid b
      → text b ≡ []
      → find d [] ≡ none
      → find d (stream s) ≡ some p
      → (out : Out T) × (read_until T fuel d b s ≡ some out)
        × GivesUntil T (b.pptr + length (stream s)) d (stream s) (some p) out
  read_until_empty d fuel p b s pos enough room v e absent hit =
      let (out, ran, gives) =
        read_until_lem d fuel b s pos enough room v (ap (find d) e ∙ absent) in
      let l = b.pptr + length (stream s) in
      (
        out,
        ran,
        subst (λ o. GivesUntil T l d (stream s) o out) hit
            (carry T d out (text b ++ stream s) (stream s) l l (ap (λ t. t ++ stream s) e) refl
              gives),
      )
