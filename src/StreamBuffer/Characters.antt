-- ===== src/StreamBuffer/Characters.antt =====
-- What the calls on characters of include/stream_buffer.hpp do to the text held.
use libcoio.Base.{
  ℕ, zero, suc, ◌+◌, ◌-◌, ◌≤◌, ◌<◌, ◌≡◌, refl, sym, ap, ◌∙◌, inl, inr, Option, none, some, [], ◌∷◌,
  ◌++◌, arith, dec_lt, ltb, leb, if◌then◌else◌, Bool-cases, length, take, drop, take-take, Bytes,
}
use mathlib.Core.List.{head?}
use libcoio.StreamBuffer.{
  StreamBuffer, commit, reserve, fill, text, try_get_data, overflow, underflow,
}
use libcoio.StreamBuffer.Bounds.{
  IsValid, Room, advance_small, reserve_lem, fill-IsValid, reserve-IsValid,
}
use libcoio.StreamBuffer.Contents.{text_lem, length-text, reserve-text, commit_lem, commit-text}

text_same :
    (s t : StreamBuffer) → s.buf ≡ t.buf → s.gptr ≡ t.gptr → s.pptr ≡ t.pptr → text s ≡ text t
unfolding text
text_same s t b g p = cc

-- A character that is put goes to the end.
pub overflow-text :
    (ch : ℕ) {s : StreamBuffer}
    → Room 64 s
    → IsValid s
    → text (overflow (some ch) s).0 ≡ text s ++ ch ∷ []
unfolding overflow
overflow-text ch {s} r v =
    let (room, p, g) = reserve_lem 64 r v in
    let t = reserve 64 s in
    let w = reserve-IsValid 64 r v in
    let filled = fill-IsValid (ch ∷ []) {s = t} (omega arith) w in
    let (p', g', b') = commit_lem 1 {s = fill (ch ∷ []) t} (omega arith) filled in
    text_same _ (commit 1 (fill (ch ∷ []) t)) (sym b') (sym g')
      (advance_small t.pptr 1 (omega arith) ∙ sym p')
    ∙ commit-text (ch ∷ []) 1 {s = t} (omega arith) (omega arith) w
    ∙ ap (λ x. x ++ ch ∷ []) (reserve-text 64 r v)

head-take : (n : ℕ) (xs : Bytes) → 0 < n → head? (take n xs) ≡ head? xs
head-take zero xs h = absurd (omega arith)
head-take (suc n) [] h = refl
head-take (suc n) (x ∷ xs) h = refl

nothing_held : {s : StreamBuffer} → IsValid s → s.pptr ≤ s.gptr → text s ≡ []
nothing_held {s} v h =
    text_lem v
    ∙ ap (λ k. take k (drop s.gptr s.buf)) (let e : s.pptr - s.gptr ≡ 0 = omega arith in e)

-- `underflow` keeps the text and answers its first byte, or `eof` where none is held.
pub underflow_lem :
    {s : StreamBuffer}
    → IsValid s
    → (text (underflow s).0 ≡ text s) × ((underflow s).1 ≡ head? (text s))
unfolding underflow
underflow_lem {s} v = elim (Bool-cases (ltb s.gptr s.pptr)) [
  | inl e ↦
      rw (e, underflow)
        (
          text_same _ s refl refl refl,
          sym (
              ap head? (text_lem v)
              ∙ head-take (s.pptr - s.gptr) (drop s.gptr s.buf) (ground arith)),
        )
  | inr e ↦ rw (e, underflow) (refl, sym (ap head? (nothing_held v (ground arith))))
]

-- `try_get_data n` shows the first `n` bytes where so many are held, and nothing otherwise.
pub try_get_data_lem :
    (n : ℕ) {s : StreamBuffer}
    → IsValid s
    → try_get_data n s ≡ (if leb n (length (text s)) then some (take n (text s)) else none)
unfolding try_get_data
try_get_data_lem n {s} v = elim (dec_lt (s.pptr - s.gptr) n) [
  | yes few ↦ ground (arith, length-text v)
  | no enough ↦
      let cut : take n (text s) ≡ take n (drop s.gptr s.buf) =
        ap (take n) (text_lem v)
        ∙ take-take n (s.pptr - s.gptr) (drop s.gptr s.buf) (omega arith) in
      ground (arith, length-text v, cut)
]

-- `overflow` moves the put pointer by one at most, `underflow` not at all.
pub overflow_near :
    (c : Option ℕ) {s : StreamBuffer} → Room 64 s → IsValid s → (overflow c s).0.pptr ≤ s.pptr + 1
unfolding overflow
overflow_near none r v = omega arith
overflow_near (some ch) {s} r v =
    let (room, p, g) = reserve_lem 64 r v in
    omega (arith, advance_small (reserve 64 s).pptr 1 (omega arith), p)

pub underflow_stays : (s : StreamBuffer) → (underflow s).0.pptr ≡ s.pptr
unfolding underflow
underflow_stays s = ground arith
