-- ===== src/StreamBuffer/Bounds.antt =====
-- The pointers stay in order and inside the vector, and no conversion loses a bit.
use libcoio.Base.{
  ℕ, ◌+◌, ◌-◌, ◌%◌, ◌^◌, ◌≤◌, ◌<◌, min, ◌≡◌, sym, ◌∙◌, Option, none, some, [], ◌∷◌, ◌++◌, arith,
  length, take, drop, replicate, length-append, length-take, length-drop, length-replicate, Bytes,
}
use libcoio.StreamBuffer.{
  StreamBuffer, ptr_diff, advance, init, commit, consume, reserve, prepare, fill, resize, overflow,
  underflow, Call, prepares, commits, consumes, puts, gets, apply,
}

pub record IsValid (s : StreamBuffer) : Type 0 where
  pub get_start : s.eback ≡ 0
  pub get_le : s.gptr ≤ s.egptr
  pub get_end_le : s.egptr ≤ s.pptr
  pub put_start_le : s.pbase ≤ s.pptr
  pub put_le : s.pptr ≤ s.epptr
  pub put_end : s.epptr ≡ length s.buf
  pub small : length s.buf < 2 ^ 31

-- The put pointer leaves room for `n` more bytes below 2 ^ 31.
abbrev pub Room : ℕ → StreamBuffer → Type 0
Room n s = s.pptr + n < 2 ^ 31

pub advance_small : (p n : ℕ) → n < 2 ^ 31 → advance p n ≡ p + n
unfolding advance
advance_small p n h = ground arith

pub length-resize : (b : Bytes) (n : ℕ) → length (resize b n) ≡ n
unfolding resize
length-resize b n = omega (
  arith,
  length-append (take n b) (replicate (n - length b) 0),
  length-take n b,
  length-replicate {A = ℕ} (n - length b) 0,
)

pub init-IsValid : IsValid init
unfolding init
init-IsValid = omega arith

pub commit-IsValid : (n : ℕ) {s : StreamBuffer} → IsValid s → IsValid (commit n s)
unfolding commit
commit-IsValid n {s} v = ground (arith, advance_small s.pptr (min n (ptr_diff s.epptr s.pptr)))

pub consume-IsValid : (n : ℕ) {s : StreamBuffer} → IsValid s → IsValid (consume n s)
unfolding consume
consume-IsValid n {s} v = ground (
  arith,
  advance_small s.gptr (min n (ptr_diff s.pptr s.gptr)),
  advance_small s.gptr (min n (ptr_diff s.egptr s.gptr)),
)

pub reserve-IsValid : (n : ℕ) {s : StreamBuffer} → Room n s → IsValid s → IsValid (reserve n s)
unfolding reserve
reserve-IsValid n {s} r v = ground (arith, length-resize s.buf ((s.pptr + n) % 2 ^ 64))

pub length-fill :
    (bs : Bytes) (s : StreamBuffer)
    → s.pptr + length bs ≤ length s.buf
    → length (fill bs s).buf ≡ length s.buf
unfolding fill
length-fill bs s h = omega (
  arith,
  length-append (take s.pptr s.buf) (bs ++ drop (s.pptr + length bs) s.buf),
  length-append bs (drop (s.pptr + length bs) s.buf),
  length-take s.pptr s.buf,
  length-drop (s.pptr + length bs) s.buf,
)

pub fill-IsValid :
    (bs : Bytes) {s : StreamBuffer} → s.pptr + length bs ≤ s.epptr → IsValid s → IsValid (fill bs s)
fill-IsValid bs {s} h v = with_length (length-fill bs s (omega arith))
  where
    with_length : length (fill bs s).buf ≡ length s.buf → IsValid (fill bs s)
    with_length e =
        unfold fill in
        record {
          get_start = v.get_start;
          get_le = v.get_le;
          get_end_le = v.get_end_le;
          put_start_le = v.put_start_le;
          put_le = v.put_le;
          put_end = v.put_end ∙ sym e;
          small = omega (arith, e, v.small);
        }

-- After `prepare n` the put area holds `n` bytes; the get pointer and the put pointer stay.
pub reserve_lem :
    (n : ℕ) {s : StreamBuffer}
    → Room n s
    → IsValid s
    → ((reserve n s).pptr + n ≤ (reserve n s).epptr)
      × ((reserve n s).pptr ≡ s.pptr)
      × ((reserve n s).gptr ≡ s.gptr)
unfolding reserve
reserve_lem n {s} r v = ground arith

pbump_one-IsValid :
    {s : StreamBuffer}
    → s.pptr + 1 ≤ s.epptr
    → IsValid s
    → IsValid (record s { pptr = advance s.pptr 1 })
pbump_one-IsValid {s} h v = omega (arith, advance_small s.pptr 1 (omega arith))

pub overflow-IsValid :
    (c : Option ℕ) {s : StreamBuffer} → Room 64 s → IsValid s → IsValid (overflow c s).0
unfolding overflow
overflow-IsValid none r v = v
overflow-IsValid (some ch) {s} r v =
    let (room, p, g) = reserve_lem 64 r v in
    let filled = fill-IsValid (ch ∷ []) {s = reserve 64 s} (omega arith) (reserve-IsValid 64 r v) in
    pbump_one-IsValid {s = fill (ch ∷ []) (reserve 64 s)} (omega arith) filled

pub underflow-IsValid : {s : StreamBuffer} → IsValid s → IsValid (underflow s).0
unfolding underflow
underflow-IsValid v = ground arith

-- A call is in order: a write fits its span, and the buffer stays below 2 ^ 31 bytes.
abbrev pub IsProper : Call → StreamBuffer → Type 0
IsProper (prepares n bs) s = Room n s × (length bs ≤ n)
IsProper (puts c) s = Room 64 s
IsProper _ s = Unit

-- From a buffer whose pointers are in order and inside its vector, every call keeps them so: `prepare` and
-- writing up to its size, `commit` and `consume` of any count, and the characters that are put and got, as
-- long as the offsets stay in the 31 bits that `gbump` and `pbump` take.
pub apply-IsValid : (c : Call) {s : StreamBuffer} → IsProper c s → IsValid s → IsValid (apply c s)
unfolding apply prepare
apply-IsValid (prepares n bs) {s} (r, h) v =
    let (room, p, g) = reserve_lem n r v in
    fill-IsValid bs {s = reserve n s} (omega arith) (reserve-IsValid n r v)
apply-IsValid (commits n) h v = commit-IsValid n v
apply-IsValid (consumes n) h v = consume-IsValid n v
apply-IsValid (puts c) h v = overflow-IsValid c h v
apply-IsValid gets h v = underflow-IsValid v
