-- ===== src/HttpClient/UntilRounds.antt =====
-- The rounds of `read_until` of include/http/httpclient.hpp.
use libcoio.Base.{
  ℕ, zero, suc, ◌+◌, ◌-◌, ◌≤◌, ◌<◌, ◌≡◌, refl, sym, ap, ◌∙◌, ◌⊎◌, inl, inr, Option, none, some, [],
  ◌∷◌, ◌++◌, append-nil, append_assoc, arith, ltb, if◌then◌else◌, Bool-cases, Option-cases, length,
  take, drop, length-append, length-take, take_all, drop_all, take-append_of_le, drop-append_of_le,
  Bytes, find, find_from, find-IsFirst, find-none_at, find_from-eq-find, occurs-append,
  length_of_occurs, find-le-length, find-append,
}
use mathlib.Core.Path.{subst}
use libcoio.Outcome.{Outcome, returned, threw, make_system_error}
use libcoio.StreamBuffer.{StreamBuffer, prepare, fill, commit, consume, text}
use libcoio.StreamBuffer.Bounds.{IsValid, Room, consume-IsValid}
use libcoio.StreamBuffer.Contents.{consume-text, consume_lem, prepare_lem, written_lem}
use libcoio.HttpClient.Socket.{Transport, Received, got, failed}
use libcoio.HttpClient.Reading.{finish, until_loop}

-- Where the search of a round starts, after `n` bytes without the delimiter.
abbrev next_beg : Bytes → Bytes → ℕ
next_beg d str = if ltb (length d) (length str) then length str - length d else 0

next_start : (d str : Bytes) → (next_beg d str ≡ 0) ⊎ (next_beg d str + length d ≤ length str)
next_start d str = elim (Bool-cases (ltb (length d) (length str))) [
  | inl e ↦ rw e (inr (ground arith))
  | inr e ↦ rw e (inl refl)
]

find_from_late :
    (d t bs : Bytes) (beg : ℕ)
    → find d t ≡ none
    → (beg ≡ 0) ⊎ (beg + length d ≤ length t)
    → find_from d (t ++ bs) beg ≡ find d (t ++ bs)
find_from_late d t bs beg e (inl z) =
    find_from-eq-find d (t ++ bs) beg (omega arith) (λ q l. absurd (omega arith))
find_from_late d t bs beg e (inr le) =
    find_from-eq-find d (t ++ bs) beg (omega (arith, length-append t bs))
      (λ q l. occurs-append d t bs q (omega arith) ∙ find-none_at d t q e)

module _ (T : Transport) where
  open T use {Sock, recv, stream, recv_some, recv_closed, recv_failed}

  abbrev pub Out : Type 0
  Out = Outcome Bytes × StreamBuffer × Sock

  -- With the delimiter first at `p` in the text `t` the result is the text through the delimiter, and
  -- the rest of `t` is still there to be read. With none, all of `t` is the result, or `recv` has thrown.
  -- The put pointer and the bytes to come stay at `limit` together.
  abbrev pub GivesUntil : ℕ → Bytes → Bytes → Option ℕ → Out → Type 0
  GivesUntil limit d t (some p) out =
      (out.0 ≡ returned (take (p + length d) t))
      × (text out.1 ++ stream out.2 ≡ drop (p + length d) t)
      × IsValid out.1
      × (out.1.pptr + length (stream out.2) ≡ limit)
  GivesUntil limit d t none out =
      ((out.0 ≡ returned t) × (text out.1 ≡ [])) ⊎ ((e : ℕ) × (out.0 ≡ threw (make_system_error e)))

  pub carry :
      (d : Bytes) (out : Out) (t t' : Bytes) (l l' : ℕ)
      → t ≡ t'
      → l ≡ l'
      → GivesUntil l d t (find d t) out
      → GivesUntil l' d t' (find d t') out
  carry d out t t' l l' et el g =
      subst (λ n. GivesUntil n d t' (find d t') out) el
        (subst (λ u. GivesUntil l d u (find d u) out) et g)

  -- The state at the head of the loop.
  pub record Ready (d : Bytes) (room beg : ℕ) (b : StreamBuffer) (s : Sock) : Type 0 where
    pub valid : IsValid b
    pub some_room : 0 < room
    pub prepared : b.pptr + room ≤ b.epptr
    pub small : Room (length (stream s) + 256) b
    pub not_yet : find d (text b) ≡ none
    pub start : (beg ≡ 0) ⊎ (beg + length d ≤ length (text b))

  finish_nonempty :
      (t : Bytes) (b : StreamBuffer) (s : Sock) → 0 < length t → finish T t b s ≡ (returned t, b, s)
  unfolding finish
  finish_nonempty [] b s h = absurd (omega arith)
  finish_nonempty (c ∷ t) b s h = refl

  ended :
      (limit : ℕ) (d : Bytes) (b : StreamBuffer) (s : Sock) (out : Out)
      → stream s ≡ []
      → find d (text b) ≡ none
      → GivesUntil limit d (text b) none out
      → GivesUntil limit d (text b ++ stream s) (find d (text b ++ stream s)) out
  ended limit d b s out e none_yet g =
      let same : text b ++ stream s ≡ text b = ap (λ t. text b ++ t) e ∙ append-nil (text b) in
      rw same (rw none_yet g)

  found :
      (d : Bytes) (b : StreamBuffer) (s : Sock) (p : ℕ)
      → 0 < length d
      → find d (text b) ≡ some p
      → IsValid b
      → GivesUntil
          (b.pptr + length (stream s))
          d
          (text b ++ stream s)
          (find d (text b ++ stream s))
          (finish T (take (p + length d) (text b)) (consume (p + length d) b) s)
  found d b s p pos e v =
      let fits =
        length_of_occurs d (text b) p (find-le-length d (text b) p e)
          (find-IsFirst d (text b) p e).here in
      let end = p + length d in
      rw (find-append d (text b) (stream s) p e) (
        rw
          (finish_nonempty (take end (text b)) (consume end b) s
            (omega (arith, length-take end (text b))))
          (
            ap returned (sym (take-append_of_le end (text b) (stream s) fits)),
            ap (λ t. t ++ stream s) (consume-text end v)
                ∙ sym (drop-append_of_le end (text b) (stream s) fits),
            consume-IsValid end v,
            ap (λ n. n + length (stream s)) (consume_lem end v).1,
          ))

  abbrev pub Result : Bytes → ℕ → ℕ → ℕ → StreamBuffer → Sock → Type 0
  Result d fuel room beg b s =
      (out : Out) × (until_loop T d fuel room beg b s ≡ some out)
      × GivesUntil (b.pptr + length (stream s)) d (text b ++ stream s) (find d (text b ++ stream s))
          out

  -- After a round with the bytes `bs`, the loop is ready for the next.
  next_Ready :
      (d bs : Bytes) (room : ℕ) (b : StreamBuffer) (s s' : Sock)
      → 0 < length d
      → length bs ≤ room
      → stream s ≡ bs ++ stream s'
      → b.pptr + room ≤ b.epptr
      → Room (length (stream s) + 256) b
      → IsValid b
      → let b' = commit (length bs) (fill bs b) in
        find d (text b') ≡ none
        → Ready d 256 (next_beg d (text b')) (prepare 256 b') s'
          × (text (prepare 256 b') ≡ text b')
          × ((prepare 256 b').pptr ≡ b.pptr + length bs)
  next_Ready d bs room b s s' pos le e prep small v miss =
      let (w, held, p) = written_lem bs (length bs) {s = b} (omega arith) (omega arith) v in
      let b' = commit (length bs) (fill bs b) in
      let len : length (stream s) ≡ length bs + length (stream s') =
        ap length e ∙ length-append bs (stream s') in
      let (w', held', p', room') = prepare_lem 256 {s = b'} (omega (arith, p, len)) w in
      (
        record {
          valid = w';
          some_room = omega arith;
          prepared = room';
          small = omega (arith, p, p', len);
          not_yet = ap (find d) held' ∙ miss;
          start = rw held' (next_start d (text b'));
        },
        held',
        p' ∙ p,
      )

  -- The loop, given what the rounds after this one give.
  step-Result :
      (d : Bytes) (fuel room beg : ℕ) (b : StreamBuffer) (s : Sock) (x : Received Sock)
      → recv room s ≡ x
      → 0 < length d
      → length (stream s) < suc fuel
      → Ready d room beg b s
      → ((beg' : ℕ) (b' : StreamBuffer) (s' : Sock)
          → length (stream s') < fuel
          → Ready d 256 beg' b' s'
          → Result d fuel 256 beg' b' s')
      → Result d (suc fuel) room beg b s
  unfolding until_loop
  step-Result d fuel room beg b s (failed e s') q pos enough r ih = (
    (threw (make_system_error e), b, s'),
    rw (q, until_loop) refl,
    ended (b.pptr + length (stream s)) d b s _ (recv_failed room s e s' q) r.not_yet
        (inr (e, refl)),
  )
  step-Result d fuel room beg b s (got [] s') q pos enough r ih = (
    finish T [] b s',
    rw (q, until_loop) refl,
    ended (b.pptr + length (stream s)) d b s _ (recv_closed room s s' r.some_room q).0 r.not_yet (
        unfold finish in
        inl (refl, consume-text (length (text b)) r.valid ∙ drop_all _ (text b) (omega arith))),
  )
  step-Result d fuel room beg b s (got (x ∷ xs) s') q pos enough r ih =
      let bs : Bytes = x ∷ xs in
      let (fits, e) = recv_some room s x xs s' q in
      let prep = r.prepared in
      let (w, held, p) = written_lem bs (length bs) {s = b} (omega arith) (omega arith) r.valid in
      let b' = commit (length bs) (fill bs b) in
      let len : length (stream s) ≡ length bs + length (stream s') =
        ap length e ∙ length-append bs (stream s') in
      let whole : text b' ≡ text b ++ bs =
        held ∙ ap (λ t. text b ++ t) (take_all (length bs) bs (omega arith)) in
      let all : text b' ++ stream s' ≡ text b ++ stream s =
        ap (λ t. t ++ stream s') whole
        ∙ append_assoc (text b) bs (stream s')
        ∙ ap (λ t. text b ++ t) (sym e) in
      let search : find_from d (text b') beg ≡ find d (text b') =
        rw whole (find_from_late d (text b) bs beg r.not_yet r.start) in
      elim (Option-cases (find d (text b'))) [
        | inl miss ↦
            let (ready, same, moved) =
              next_Ready d bs room b s s' pos fits e prep r.small r.valid miss in
            let (out, ran, gives) =
              ih (next_beg d (text b')) (prepare 256 b') s' (omega (arith, len)) ready in
            (
              out,
              rw (q, until_loop) (rw (search ∙ miss) ran),
              carry d out (text (prepare 256 b') ++ stream s') (text b ++ stream s)
                  ((prepare 256 b').pptr + length (stream s')) (b.pptr + length (stream s))
                  (ap (λ t. t ++ stream s') same ∙ all) (omega (arith, moved, len)) gives,
            )
        | inr (at, hit) ↦
            let out = finish T (take (at + length d) (text b')) (consume (at + length d) b') s' in
            (
              out,
              rw (q, until_loop) (rw (search ∙ hit) refl),
              carry d out (text b' ++ stream s') (text b ++ stream s) (b'.pptr + length (stream s'))
                  (b.pptr + length (stream s)) all (omega (arith, p, len))
                  (found d b' s' at pos hit w),
            )
      ]

  pub loop-Result :
      (d : Bytes) (fuel room beg : ℕ) (b : StreamBuffer) (s : Sock)
      → 0 < length d
      → length (stream s) < fuel
      → Ready d room beg b s
      → Result d fuel room beg b s
  loop-Result d zero room beg b s pos enough r = absurd (omega arith)
  loop-Result d (suc fuel) room beg b s pos enough r =
      step-Result d fuel room beg b s (recv room s) refl pos enough r
        (λ beg' b' s'. loop-Result d fuel 256 beg' b' s' pos)
