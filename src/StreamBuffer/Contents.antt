-- ===== src/StreamBuffer/Contents.antt =====
-- What the buffer holds between its get pointer and its put pointer, call by call.
use libcoio.Base.{
  ℕ, ◌+◌, ◌-◌, ◌%◌, ◌^◌, ◌≤◌, ◌<◌, min, ◌≡◌, refl, sym, ap, ◌∙◌, inl, inr, ◌++◌, append-nil, arith,
  dec_lt, leb, Bool-cases, length, take, drop, replicate, length-take, length-drop, take_all,
  drop_all, take-append_of_le, drop-append_of_le, take-append_add, drop-drop, drop-take, Bytes,
}
use libcoio.StreamBuffer.{
  StreamBuffer, ptr_diff, commit, consume, reserve, prepare, fill, resize, size, text,
}
use libcoio.StreamBuffer.Bounds.{
  IsValid, Room, commit-IsValid, consume-IsValid, advance_small, reserve_lem, fill-IsValid,
  reserve-IsValid,
}

-- The bytes from `gptr` to `pptr` of a valid buffer, without the conversions.
pub text_lem : {s : StreamBuffer} → IsValid s → text s ≡ take (s.pptr - s.gptr) (drop s.gptr s.buf)
unfolding text
text_lem {s} v = ap (λ n. take n (drop s.gptr s.buf)) (omega arith)

pub length-text : {s : StreamBuffer} → IsValid s → length (text s) ≡ s.pptr - s.gptr
length-text {s} v = omega (
  arith,
  ap length (text_lem v),
  length-take (s.pptr - s.gptr) (drop s.gptr s.buf),
  length-drop s.gptr s.buf,
)

-- `size` is the number of bytes held.
pub size-length : {s : StreamBuffer} → IsValid s → size s ≡ length (text s)
unfolding size
size-length {s} v = omega (arith, length-text v)

-- The bytes before `pptr` are those before `gptr`, then the text.
window : (b : Bytes) (g p : ℕ) → g ≤ p → drop g (take p b) ≡ take (p - g) (drop g b)
window b g p h =
    ap (λ k. drop g (take k b)) (let e : p ≡ g + (p - g) = omega arith in e) ∙ drop-take g (p - g) b

-- What is written from `pptr` on comes behind the text.
behind :
    {s : StreamBuffer} (rest : Bytes) (n : ℕ)
    → IsValid s
    → take (s.pptr - s.gptr + n) (drop s.gptr (take s.pptr s.buf ++ rest)) ≡ text s ++ take n rest
behind {s} rest n v =
    rw (drop-append_of_le s.gptr (take s.pptr s.buf) rest (omega (arith, length-take s.pptr s.buf)))
      (rw (window s.buf s.gptr s.pptr (omega arith), ← text_lem v)
        (ap (λ k. take (k + n) (text s ++ rest)) (sym (length-text v))
          ∙ take-append_add (text s) rest n))

fill-text :
    (bs : Bytes) {s : StreamBuffer} → IsValid s → IsValid (fill bs s) → text (fill bs s) ≡ text s
unfolding fill
fill-text bs {s} v w =
    text_lem w
    ∙ ap (λ k. take k (drop s.gptr (fill bs s).buf))
        (sym (let e : s.pptr - s.gptr + 0 ≡ s.pptr - s.gptr = omega arith in e))
    ∙ behind (bs ++ drop (s.pptr + length bs) s.buf) 0 v
    ∙ append-nil (text s)

resize_grown : (b : Bytes) (n : ℕ) → length b ≤ n → resize b n ≡ b ++ replicate (n - length b) 0
unfolding resize
resize_grown b n h = rw (take_all n b h)

reserve_grows :
    (n : ℕ) {s : StreamBuffer}
    → Room n s
    → IsValid s
    → s.epptr < s.pptr + n
    → take (s.pptr - s.gptr) (drop s.gptr (resize s.buf ((s.pptr + n) % 2 ^ 64)))
      ≡ take (s.pptr - s.gptr) (drop s.gptr s.buf)
reserve_grows n {s} r v more =
    let zeros : Bytes = replicate ((s.pptr + n) % 2 ^ 64 - length s.buf) 0 in
    rw (resize_grown s.buf ((s.pptr + n) % 2 ^ 64) (omega arith)) (
      rw (drop-append_of_le s.gptr s.buf zeros (omega arith)) (
        take-append_of_le (s.pptr - s.gptr) (drop s.gptr s.buf) zeros
          (omega (arith, length-drop s.gptr s.buf))))

-- Making room keeps what is held.
pub reserve-text : (n : ℕ) {s : StreamBuffer} → Room n s → IsValid s → text (reserve n s) ≡ text s
unfolding reserve
reserve-text n {s} r v = text_lem (reserve-IsValid n r v) ∙ same ∙ sym (text_lem v)
  where
    same :
        take ((reserve n s).pptr - (reserve n s).gptr) (drop (reserve n s).gptr (reserve n s).buf)
        ≡ take (s.pptr - s.gptr) (drop s.gptr s.buf)
    same = elim (Bool-cases (leb n (ptr_diff s.epptr s.pptr))) [
      | inl e ↦ rw (e, reserve) refl
      | inr e ↦ rw (e, reserve) (reserve_grows n r v (ground arith))
    ]

-- Where `n` bytes fit, `commit` moves the put pointer by `n` and nothing else that is read.
pub commit_lem :
    (n : ℕ) {s : StreamBuffer}
    → s.pptr + n ≤ s.epptr
    → IsValid s
    → ((commit n s).pptr ≡ s.pptr + n) × ((commit n s).gptr ≡ s.gptr) × ((commit n s).buf ≡ s.buf)
unfolding commit
commit_lem n {s} h v =
    (advance_small s.pptr (min n (ptr_diff s.epptr s.pptr)) (omega arith) ∙ omega arith, refl, refl)

pub consume_lem :
    (n : ℕ) {s : StreamBuffer}
    → IsValid s
    → ((consume n s).gptr ≡ s.gptr + min n (s.pptr - s.gptr))
      × ((consume n s).pptr ≡ s.pptr)
      × ((consume n s).buf ≡ s.buf)
unfolding consume
consume_lem n {s} v =
    let a = advance_small s.gptr (min n (ptr_diff s.pptr s.gptr)) (omega arith) in
    let b = advance_small s.gptr (min n (ptr_diff s.egptr s.gptr)) (omega arith) in
    (ground (arith, a, b), ground arith, ground arith)

-- Committing `n` of the bytes that were written behind the text appends them.
pub commit-text :
    (bs : Bytes) (n : ℕ) {s : StreamBuffer}
    → s.pptr + length bs ≤ s.epptr
    → n ≤ length bs
    → IsValid s
    → text (commit n (fill bs s)) ≡ text s ++ take n bs
unfolding fill
commit-text bs n {s} fits le v =
    let w = fill-IsValid bs fits v in
    let (p, g, b) = commit_lem n {s = fill bs s} (omega arith) w in
    text_lem (commit-IsValid n w)
    ∙ rw (p, g, b)
        (ap (λ k. take k (drop s.gptr (fill bs s).buf))
            (let e : s.pptr + n - s.gptr ≡ s.pptr - s.gptr + n = omega arith in e)
          ∙ behind (bs ++ drop (s.pptr + length bs) s.buf) n v
          ∙ ap (λ t. text s ++ t) (take-append_of_le n bs _ le))

drop-min : (n : ℕ) (xs : Bytes) → drop n xs ≡ drop (min n (length xs)) xs
drop-min n xs = elim (dec_lt (length xs) n) [
  | yes a ↦ drop_all n xs (omega arith) ∙ sym (drop_all (min n (length xs)) xs (omega arith))
  | no b ↦ ap (λ k. drop k xs) (omega arith)
]

-- Consuming drops from the front, and everything if less is held.
pub consume-text : (n : ℕ) {s : StreamBuffer} → IsValid s → text (consume n s) ≡ drop n (text s)
consume-text n {s} v =
    let (g, p, b) = consume_lem n v in
    let m = min n (s.pptr - s.gptr) in
    let part : min n (length (text s)) ≡ m = omega (arith, length-text v) in
    text_lem (consume-IsValid n v)
    ∙ rw (g, p, b)
        (ap (take (s.pptr - (s.gptr + m))) (sym (drop-drop m s.gptr s.buf))
          ∙ sym (drop-take m (s.pptr - (s.gptr + m)) (drop s.gptr s.buf))
          ∙ ap (λ k. drop m (take k (drop s.gptr s.buf)))
              (let e : m + (s.pptr - (s.gptr + m)) ≡ s.pptr - s.gptr = omega arith in e)
          ∙ ap (drop m) (sym (text_lem v))
          ∙ ap (λ k. drop k (text s)) (sym part)
          ∙ sym (drop-min n (text s)))

-- Making room through `prepare` keeps a valid buffer's text and pointers, and gives the room.
pub prepare_lem :
    (n : ℕ) {s : StreamBuffer}
    → Room n s
    → IsValid s
    → IsValid (prepare n s)
      × (text (prepare n s) ≡ text s)
      × ((prepare n s).pptr ≡ s.pptr)
      × ((prepare n s).pptr + n ≤ (prepare n s).epptr)
unfolding prepare
prepare_lem n {s} r v =
    let (room, p, g) = reserve_lem n r v in (reserve-IsValid n r v, reserve-text n r v, p, room)

-- Bytes written behind the text and committed in part: the part comes behind the text, and the put
-- pointer moves by it.
pub written_lem :
    (bs : Bytes) (k : ℕ) {s : StreamBuffer}
    → s.pptr + length bs ≤ s.epptr
    → k ≤ length bs
    → IsValid s
    → IsValid (commit k (fill bs s))
      × (text (commit k (fill bs s)) ≡ text s ++ take k bs)
      × ((commit k (fill bs s)).pptr ≡ s.pptr + k)
written_lem bs k {s} fits le v =
    let f = fill-IsValid bs fits v in
    (
      commit-IsValid k f,
      commit-text bs k fits le v,
      unfold fill in (commit_lem k {s = fill bs s} (omega arith) f).0,
    )

pub receive_lem :
    (n : ℕ) (bs : Bytes) (k : ℕ) {s : StreamBuffer}
    → length bs ≤ n
    → k ≤ length bs
    → Room n s
    → IsValid s
    → IsValid (commit k (fill bs (prepare n s)))
      × (text (commit k (fill bs (prepare n s))) ≡ text s ++ take k bs)
      × ((commit k (fill bs (prepare n s))).pptr ≡ s.pptr + k)
receive_lem n bs k {s} fits le r v =
    let (w, held, p, room) = prepare_lem n r v in
    let (w', held', p') = written_lem bs k {s = prepare n s} (omega arith) le w in
    (w', held' ∙ ap (λ t. t ++ take k bs) held, omega arith)
