-- ===== src/IoContext/Rings.antt =====
-- The constructor and the destructor of include/io_context.hpp: which contexts have a ring of the kernel.
use libcoio.Base.{
  put, ℕ, ◌+◌, ◌≡◌, refl, sym, ap, ◌∙◌, inl, inr, Bool, true, false, ◌==◌, ==_iff, Bool-cases, ℤ,
  pos, negsuc,
}
use libcoio.Outcome.{Outcome, returned, threw, make_system_error}
use libcoio.IoContext.Options.{CtxOpt, Params, make_params}

-- The contexts with an open ring, by address.
abbrev pub Rings : Type 0
Rings = ℕ → Bool

-- After `io_uring_queue_init_params`, which gives a negative error number or zero.
abbrev pub after_init : ℤ → ℕ → Rings → Outcome {0} Unit × Rings
after_init (pos n) c rings = (returned tt, put rings c true)
after_init (negsuc e) c rings = (threw (make_system_error (e + 1)), rings)

-- `io_context(ctx_opt)` at the address `c`.
unfoldable pub construct : ℕ → (ℕ → Params → ℤ) → CtxOpt → ℕ → Rings → Outcome {0} Unit × Rings
construct hardware queue_init option c rings =
    after_init (queue_init option.ring_size (make_params hardware option)) c rings

-- `~io_context`, which is run for a context whose constructor has returned.
abbrev pub destroy : ℕ → Rings → Rings
destroy c rings = put rings c false

-- A lifetime in full.
abbrev pub lived : ℕ → Outcome {0} Unit × Rings → Rings
lived c (returned x, rings) = destroy c rings
lived c (threw e, rings) = rings

after_init-lived :
    (x : ℤ) (c : ℕ) (rings : Rings) (k : ℕ)
    → rings c ≡ false
    → lived c (after_init x c rings) k ≡ rings k
after_init-lived (negsuc e) c rings k h = refl
after_init-lived (pos n) c rings k h = elim (Bool-cases (k == c)) [
  | inl e ↦ rw e (sym h ∙ ap rings (sym ((==_iff k c).0 e)))
  | inr e ↦ rw e refl
]

-- A context leaves no ring open, whether the kernel gives it one or the constructor throws.
pub lived-construct :
    (hardware : ℕ) (queue_init : ℕ → Params → ℤ) (option : CtxOpt) (c : ℕ) (rings : Rings) (k : ℕ)
    → rings c ≡ false
    → lived c (construct hardware queue_init option c rings) k ≡ rings k
unfolding construct
lived-construct hardware queue_init option c rings k h =
    after_init-lived (queue_init option.ring_size (make_params hardware option)) c rings k h
