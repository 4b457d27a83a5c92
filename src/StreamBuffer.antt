-- ===== src/StreamBuffer.antt =====
-- include/stream_buffer.hpp: a `std::streambuf` over a growing vector. A pointer into the vector is
-- its offset from `m_buf.data()`; the bytes of a span that `prepare` returns are written by `fill`.
pub mod Bounds
pub mod Contents
pub mod Characters
pub mod Fifo
pub mod Refines
pub mod Copies
mod Tests
use mathlib.Core.List
use libcoio.Base.{
  ℕ, ◌+◌, ◌-◌, ◌%◌, ◌^◌, min, Bool, Option, none, some, List, [], ◌∷◌, ◌++◌, Bytes, length, take,
  drop, replicate, ltb, leb, if◌then◌else◌,
}

pub record StreamBuffer : Type 0 where
  pub buf : Bytes
  pub eback : ℕ
  pub gptr : ℕ
  pub egptr : ℕ
  pub pbase : ℕ
  pub pptr : ℕ
  pub epptr : ℕ

-- `static_cast<std::size_t>(a - b)` of two pointers.
abbrev pub ptr_diff : ℕ → ℕ → ℕ
ptr_diff a b = (a + 2 ^ 64 - b) % 2 ^ 64

-- A pointer moved by `n`, which `gbump` and `pbump` take as an `int`.
unfoldable pub advance : ℕ → ℕ → ℕ
advance p n = let w = n % 2 ^ 32 in if ltb w (2 ^ 31) then p + w else p - (2 ^ 32 - w)

abbrev setg : ℕ → ℕ → ℕ → StreamBuffer → StreamBuffer
setg b g e s = record s { eback = b; gptr = g; egptr = e }

-- `setp` also puts `pptr` at the start of the put area.
abbrev setp : ℕ → ℕ → StreamBuffer → StreamBuffer
setp b e s = record s { pbase = b; pptr = b; epptr = e }

abbrev pbump : ℕ → StreamBuffer → StreamBuffer
pbump n s = record s { pptr = advance s.pptr n }

abbrev gbump : ℕ → StreamBuffer → StreamBuffer
gbump n s = record s { gptr = advance s.gptr n }

-- `std::vector<char>::resize`
unfoldable pub resize : Bytes → ℕ → Bytes
resize b n = take n b ++ replicate (n - length b) 0

-- The default constructor.
unfoldable pub init : StreamBuffer
init = record {
  buf = replicate 128 0;
  eback = 0;
  gptr = 0;
  egptr = 0;
  pbase = 0;
  pptr = 0;
  epptr = 128;
}

unfoldable pub commit : ℕ → StreamBuffer → StreamBuffer
commit n s = let s' = pbump (min n (ptr_diff s.epptr s.pptr)) s in setg s'.eback s'.gptr s'.pptr s'

-- The first half of `consume`: the get area catches up with the put pointer.
catch_up : StreamBuffer → StreamBuffer
catch_up s = if ltb s.egptr s.pptr then setg s.eback s.gptr s.pptr s else s

unfoldable pub consume : ℕ → StreamBuffer → StreamBuffer
unfolding catch_up
consume n s = let s' = catch_up s in gbump (min n (ptr_diff s'.egptr s'.gptr)) s'

unfoldable pub reserve : ℕ → StreamBuffer → StreamBuffer
reserve n s =
    if leb n (ptr_diff s.epptr s.pptr)
    then s
    else let put_end_pos = (s.pptr + n) % 2 ^ 64 in
      setp s.pptr put_end_pos (setg 0 s.gptr s.pptr (record s { buf = resize s.buf put_end_pos }))

-- The state after `prepare`; the span that it returns is the `n` bytes from `pptr` on.
unfoldable pub prepare : ℕ → StreamBuffer → StreamBuffer
prepare n s = reserve n s

-- Bytes are written through a span that starts at `pptr`.
unfoldable pub fill : Bytes → StreamBuffer → StreamBuffer
fill bs s = record s { buf = take s.pptr s.buf ++ (bs ++ drop (s.pptr + length bs) s.buf) }

pub size : StreamBuffer → ℕ
size s = ptr_diff s.pptr s.gptr

-- The text shown by `data`.
unfoldable pub text : StreamBuffer → Bytes
text s = take (ptr_diff s.pptr s.gptr) (drop s.gptr s.buf)

unfoldable pub try_get_data : ℕ → StreamBuffer → Option Bytes
unfolding size
try_get_data n s = if ltb (size s) n then none else some (take n (drop s.gptr s.buf))

-- The answer is a byte, or `none` for `eof`.
pub underflow : StreamBuffer → StreamBuffer × Option ℕ
underflow s =
    if ltb s.gptr s.pptr
    then (setg s.eback s.gptr s.pptr s, List.head? (drop s.gptr s.buf))
    else (s, none)

-- A character to write, or `none` for `eof`; so for the answer, where `not_eof` is libstdc++'s 0.
pub overflow : Option ℕ → StreamBuffer → StreamBuffer × Option ℕ
unfolding fill
overflow none s = (s, some 0)
overflow (some ch) s = (pbump 1 (fill (ch ∷ []) (reserve 64 s)), some ch)

-- One call on the buffer; `prepares n bs` is `prepare n`, then a write of `bs` into the span.
pub data Call : Type 0 where
  prepares : ℕ → Bytes → Call
  commits consumes : ℕ → Call
  puts : Option ℕ → Call
  gets : Call

pub apply : Call → StreamBuffer → StreamBuffer
apply (prepares n bs) s = fill bs (prepare n s)
apply (commits n) s = commit n s
apply (consumes n) s = consume n s
apply (puts c) s = (overflow c s).0
apply gets s = (underflow s).0
