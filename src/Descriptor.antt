-- ===== src/Descriptor.antt =====
-- include/ioutils/file_descriptor_base.hpp: the objects that hold descriptors, by number, and the
-- kernel's table of open ones.
pub mod Owners
pub mod Session
mod Tests
use libcoio.Outcome.{Outcome, returned, threw, make_system_error}
use libcoio.Base.{put, ◌+◌}
use libcoio.Base.{
  ℕ, zero, suc, ◌+◌, ◌-◌, ◌*◌, ◌/◌, ◌%◌, ◌^◌, ◌≤◌, ◌<◌, min, max, ◌≡◌, refl, sym, ap, ◌∙◌, ◌≢◌, ◌↔◌,
  ◌⊎◌, inl, inr, Bool, true, false, not, ◌&&◌, ◌||◌, Option, none, some, List, [], ◌∷◌, ◌++◌,
  append-nil, append_assoc, arith, dec_lt, ltb, leb, ◌==◌, if◌then◌else◌, ltb_iff, leb_iff, ==_iff,
  Bool-cases, Option-cases, length, take, drop, replicate, length-append, length-take, length-drop,
  length-replicate, take-append-drop, take_all, drop_all, take-append_of_le, drop-append_of_le,
  take-append_add, drop-append_add, take-append_self, drop-append_self, drop-drop, drop-take,
  take-take, Bytes, codes, occurs, find, find_from, IsFirst, find-IsFirst, find_of_IsFirst,
  find-eq-none, find-none_at, find_from-eq-find, occurs-drop, occurs-append, length_of_occurs,
  find-le-length, find-append, find_splits, starts_with-append, starts_with,
}
use libcoio.Base.{ℤ, pos, negsuc}
use libcoio.Outcome.{Outcome, returned, threw, make_system_error}

-- `alive` tells the objects whose lifetime has begun and not ended.
pub record Process : Type 0 where
  pub fd : ℕ → ℤ
  pub alive : ℕ → Bool
  pub is_open : ℕ → Bool

abbrev pub invalid : ℤ
invalid = negsuc 0

-- `::close`, which refuses a negative descriptor.
abbrev pub kernel_close : ℤ → (ℕ → Bool) → ℕ → Bool
kernel_close (pos n) f = put f n false
kernel_close (negsuc n) f = f

abbrev pub same_fd : ℤ → ℤ → Bool
same_fd (pos m) (pos n) = m == n
same_fd (negsuc m) (negsuc n) = m == n
same_fd _ _ = false

-- The body of the destructor.
abbrev pub destructor : ℕ → Process → Process
destructor i p = elim (p.fd i) [
  | pos n ↦ record p { is_open = kernel_close (pos n) p.is_open }
  | negsuc n ↦ p
]

-- `file_descriptor_base()`
abbrev pub construct : ℕ → Process → Process
construct i p = record p { fd = put p.fd i invalid; alive = put p.alive i true }

-- `file_descriptor_base(int)`, of a descriptor that the kernel has just opened.
abbrev pub construct_from : ℕ → ℕ → Process → Process
construct_from i n p = record p {
  fd = put p.fd i (pos n);
  alive = put p.alive i true;
  is_open = put p.is_open n true;
}

-- `fd = other.fd; other.fd = -1`
abbrev pub take_over : ℕ → ℕ → Process → Process
take_over i j p = record p { fd = put (put p.fd i (p.fd j)) j invalid }

abbrev pub move_construct : ℕ → ℕ → Process → Process
move_construct i j p = take_over i j (record p { alive = put p.alive i true })

-- `operator=(file_descriptor_base &&)`
abbrev pub move_assign : ℕ → ℕ → Process → Process
move_assign i j p = take_over i j (if not (same_fd (p.fd j) (p.fd i)) then destructor i p else p)

abbrev pub close : ℕ → Process → Process
close i p = record p { fd = put p.fd i invalid; is_open = kernel_close (p.fd i) p.is_open }

-- After `async_close` has come to its result: the kernel has closed the descriptor, or it has not.
abbrev pub async_closed : ℤ → ℕ → Process → Outcome {0} Unit × Process
async_closed (pos n) i p = (returned tt, close i p)
async_closed (negsuc n) i p = (threw (make_system_error (n + 1)), p)

-- The end of an object.
abbrev pub destroy : ℕ → Process → Process
destroy i p = let p' = destructor i p in record p' { alive = put p'.alive i false }

abbrev pub valid : ℕ → Process → Bool
valid i p = elim (p.fd i) [ pos n ↦ false | negsuc n ↦ true ]

-- What a program does with its objects.
pub data Call : Type 0 where
  constructs : ℕ → Call
  constructs_from : ℕ → ℕ → Call
  moves : ℕ → ℕ → Call
  assigns : ℕ → ℕ → Call
  closes : ℕ → Call
  destroys : ℕ → Call
  async_closes : ℤ → ℕ → Call

abbrev pub apply : Call → Process → Process
apply (constructs i) p = construct i p
apply (constructs_from i n) p = construct_from i n p
apply (moves i j) p = move_construct i j p
apply (assigns i j) p = move_assign i j p
apply (closes i) p = close i p
apply (destroys i) p = destroy i p
apply (async_closes res i) p = (async_closed res i p).1

unfoldable pub run : List Call → Process → Process
run [] p = p
run (c ∷ cs) p = run cs (apply c p)
