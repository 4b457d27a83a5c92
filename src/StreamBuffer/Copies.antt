-- ===== src/StreamBuffer/Copies.antt =====
-- The copy, move and destruction of include/stream_buffer.hpp that the compiler gives: the vector goes its own
-- way, and the pointers of `std::streambuf` are copied as they are.
use libcoio.Base.{put, put-here, put-there, ℕ, ◌≡◌, ◌≢◌, sym, ap, ◌∙◌, Option, none, some, Bytes}
use libcoio.StreamBuffer.{StreamBuffer, text}
use mathlib.Core.Option

-- Allocations by address; a freed one is `none`.
abbrev pub Memory : Type 0
Memory = ℕ → Option Bytes

-- A `stream_buffer`: the allocation of `m_buf`, the one that the pointers point into, and their offsets there.
pub record Object : Type 0 where
  pub m_buf : ℕ
  pub area : ℕ
  pub pointers : StreamBuffer

-- `data()`; `none` is a view of freed memory.
unfoldable pub shown : Memory → Object → Option Bytes
shown memory o = Option.map (λ b. text (record o.pointers { buf = b })) (memory o.area)

-- The copy constructor, with the allocation `fresh` for its vector: the memory and the new object.
abbrev pub copy : ℕ → Object → Memory → Memory × Object
copy fresh o memory = (put memory fresh (memory o.m_buf), record o { m_buf = fresh })

-- The move constructor: the new object and what the source becomes, whose empty vector is at `empty`.
abbrev pub move : ℕ → Object → Object × Object
move empty o = (o, record o { m_buf = empty })

abbrev pub destroy : Object → Memory → Memory
destroy o memory = put memory o.m_buf none

at_area :
    (o : Object) (memory : Memory) (x : Option Bytes)
    → memory o.area ≡ x
    → shown memory o ≡ Option.map (λ b. text (record o.pointers { buf = b })) x
unfolding shown
at_area o memory x e = ap (Option.map (λ b. text (record o.pointers { buf = b }))) e

-- For a buffer whose pointers point into its own vector, with the bytes `b`. Moved, it shows the same text from
-- its own vector, but the source points into that vector too: once the new buffer has been destroyed, the source
-- shows freed memory. Copied, it shows the text of the source's vector, not of its own: once the source has been
-- destroyed, the copy shows freed memory, though its own vector holds `b`.
pub copies_lem :
    (o : Object) (memory : Memory) (b : Bytes) (fresh empty : ℕ)
    → o.area ≡ o.m_buf
    → memory o.m_buf ≡ some b
    → fresh ≢ o.m_buf
    → (shown memory (move empty o).0 ≡ some (text (record o.pointers { buf = b })))
      × (shown (destroy (move empty o).0 memory) (move empty o).1 ≡ none)
      × (shown (copy fresh o memory).0 (copy fresh o memory).1
          ≡ some (text (record o.pointers { buf = b })))
      × (shown (destroy o (copy fresh o memory).0) (copy fresh o memory).1 ≡ none)
      × ((destroy o (copy fresh o memory).0) (copy fresh o memory).1.m_buf ≡ some b)
copies_lem o memory b fresh empty own held apart =
    let m = (copy fresh o memory).0 in
    let c = (copy fresh o memory).1 in
    (
      at_area o memory (some b) (ap memory own ∙ held),
      at_area (move empty o).1 (destroy o memory) none
          (ap (destroy o memory) own ∙ put-here memory o.m_buf none),
      at_area c m (some b)
          (ap m own ∙ put-there memory fresh o.m_buf (memory o.m_buf) (λ e. apart (sym e)) ∙ held),
      at_area c (destroy o m) none (ap (destroy o m) own ∙ put-here m o.m_buf none),
      put-there m o.m_buf fresh none apart ∙ put-here memory fresh (memory o.m_buf) ∙ held,
    )
