-- ===== src/Handles.antt =====
-- The owners of coroutine frames: `future` of include/future.hpp, `task_with_callback` of
-- include/details/task_with_callback.hpp and `generator` of include/generator.hpp. Objects and frames are
-- numbers.
pub mod Oneway
pub mod Owners
pub mod Calls
pub mod Session
mod Tests
use libcoio.Base.{
  put, ℕ, zero, suc, ◌+◌, ◌-◌, ◌*◌, ◌/◌, ◌%◌, ◌^◌, ◌≤◌, ◌<◌, min, max, ◌≡◌, refl, sym, ap, ◌∙◌, ◌≢◌,
  ◌↔◌, ◌⊎◌, inl, inr, Bool, true, false, not, ◌&&◌, ◌||◌, Option, none, some, List, [], ◌∷◌, ◌++◌,
  append-nil, append_assoc, arith, dec_lt, ltb, leb, ◌==◌, if◌then◌else◌, ltb_iff, leb_iff, ==_iff,
  Bool-cases, Option-cases, length, take, drop, replicate, length-append, length-take, length-drop,
  length-replicate, take-append-drop, take_all, drop_all, take-append_of_le, drop-append_of_le,
  take-append_add, drop-append_add, take-append_self, drop-append_self, drop-drop, drop-take,
  take-take, Bytes, codes, occurs, find, find_from, IsFirst, find-IsFirst, find_of_IsFirst,
  find-eq-none, find-none_at, find_from-eq-find, occurs-drop, occurs-append, length_of_occurs,
  find-le-length, find-append, find_splits, starts_with-append, starts_with,
}

-- `m_handle` of each object, the objects whose lifetime has begun and not ended, and the frames that have
-- not been destroyed.
pub record Frames : Type 0 where
  pub m_handle : ℕ → Option ℕ
  pub alive : ℕ → Bool
  pub live : ℕ → Bool

-- `m_handle.destroy()`; `none` destroys a frame a second time.
abbrev pub destroy_frame : ℕ → Frames → Option Frames
destroy_frame n s = if s.live n then some (record s { live = put s.live n false }) else none

-- `future(std::coroutine_handle<promise_type>)` and the like, of a frame that has just been made.
abbrev pub make : ℕ → ℕ → Frames → Frames
make i n s = record {
  m_handle = put s.m_handle i (some n);
  alive = put s.alive i true;
  live = put s.live n true;
}

abbrev pub forget : ℕ → Option Frames → Option Frames
forget i none = none
forget i (some s) = some (record s { m_handle = put s.m_handle i none })

-- `~future()` and `~task_with_callback()`
unfoldable pub destructor : ℕ → Frames → Option Frames
destructor i s = elim (s.m_handle i) [
  | none ↦ some (record s { m_handle = put s.m_handle i none })
  | some n ↦ forget i (destroy_frame n s)
]

-- `~generator()`, which leaves the handle.
unfoldable pub generator_destructor : ℕ → Frames → Option Frames
generator_destructor i s = elim (s.m_handle i) [ none ↦ some s | some n ↦ destroy_frame n s ]

-- The end of the object.
abbrev pub end_life : ℕ → Option Frames → Option Frames
end_life i none = none
end_life i (some s) = some (record s { alive = put s.alive i false })

-- `m_handle = other.m_handle; other.m_handle = nullptr`
abbrev pub take_over : ℕ → ℕ → Frames → Frames
take_over i j s = record s { m_handle = put (put s.m_handle i (s.m_handle j)) j none }

abbrev pub take_over_from : ℕ → ℕ → Option Frames → Option Frames
take_over_from i j none = none
take_over_from i j (some s) = some (take_over i j s)

-- The move constructors.
abbrev pub move_construct : ℕ → ℕ → Frames → Frames
move_construct i j s = take_over i j (record s { alive = put s.alive i true })

abbrev pub same_handle : Option ℕ → Option ℕ → Bool
same_handle none none = true
same_handle none (some n) = false
same_handle (some m) none = false
same_handle (some m) (some n) = m == n

-- `future::operator=`
unfoldable pub future_assign : ℕ → ℕ → Frames → Option Frames
unfolding destructor
future_assign i j s =
    take_over_from i j
      (if not (same_handle (s.m_handle j) (s.m_handle i)) then destructor i s else some s)

-- `std::swap(othr.m_handle, m_handle)`
abbrev pub swap_handles : ℕ → ℕ → Frames → Frames
swap_handles i j s = record s { m_handle = put (put s.m_handle j (s.m_handle i)) i (s.m_handle j) }

abbrev pub swap_from : ℕ → ℕ → Option Frames → Option Frames
swap_from i j none = none
swap_from i j (some s) = some (swap_handles i j s)

-- `task_with_callback::operator=`
unfoldable pub task_assign : ℕ → ℕ → Frames → Option Frames
unfolding destructor
task_assign i j s = swap_from i j (elim (s.m_handle i) [ none ↦ some s | some n ↦ destructor i s ])

-- What a program does with its objects.
pub data Call : Type 0 where
  makes : ℕ → ℕ → Call
  moves : ℕ → ℕ → Call
  assigns_future : ℕ → ℕ → Call
  assigns_task : ℕ → ℕ → Call
  destroys : ℕ → Call
  destroys_generator : ℕ → Call

abbrev pub apply : Call → Frames → Option Frames
apply (makes i n) s = some (make i n s)
apply (moves i j) s = some (move_construct i j s)
apply (assigns_future i j) s = future_assign i j s
apply (assigns_task i j) s = task_assign i j s
apply (destroys i) s = end_life i (destructor i s)
apply (destroys_generator i) s = end_life i (generator_destructor i s)

-- `none` once a frame has been destroyed a second time.
unfoldable pub run : List Call → Frames → Option Frames
run [] s = some s
run (c ∷ cs) s = elim (apply c s) [ none ↦ none | some t ↦ run cs t ]
