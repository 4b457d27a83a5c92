-- ===== src/IoContext/Options.antt =====
-- The parameters of the ring of include/io_context.hpp, and what is asked of them.
use libcoio.Base.{
  ℕ, ◌-◌, ◌^◌, ◌<◌, ◌≡◌, refl, inl, inr, Bool, true, false, not, ◌&&◌, arith, ltb, ◌==◌,
  if◌then◌else◌, Bool-cases,
}
use Prim.Native.Nat.{bit_and}

-- `ctx_opt`
pub record CtxOpt : Type 0 where
  pub ring_size : ℕ
  pub sq_cpu_affinity : ℕ
  pub sq_poll_idle : ℕ
  pub sq_polling : Bool
  pub io_polling : Bool

-- `io_uring_params`, with a field for each bit of `flags` that is used.
pub record Params : Type 0 where
  pub setup_iopoll : Bool
  pub setup_sqpoll : Bool
  pub setup_sq_aff : Bool
  pub sq_thread_cpu : ℕ
  pub sq_thread_idle : ℕ

abbrev pub invalid_cpuno : ℕ
invalid_cpuno = 2 ^ 32 - 1

-- `make_params` on a machine with `hardware` processors.
pub make_params : ℕ → CtxOpt → Params
make_params hardware option =
    if option.sq_polling
    then record {
      setup_iopoll = option.io_polling;
      setup_sqpoll = true;
      setup_sq_aff =
          not (option.sq_cpu_affinity == invalid_cpuno) && ltb option.sq_cpu_affinity hardware;
      sq_thread_cpu = option.sq_cpu_affinity;
      sq_thread_idle = option.sq_poll_idle;
    }
    else record {
      setup_iopoll = option.io_polling;
      setup_sqpoll = false;
      setup_sq_aff = false;
      sq_thread_cpu = 0;
      sq_thread_idle = 0;
    }

-- `m_ring.flags & IORING_SETUP_SQPOLL`, and the same for `IORING_SETUP_IOPOLL`.
abbrev pub is_enable_sqpoll : Params → Bool
is_enable_sqpoll p = p.setup_sqpoll

abbrev pub is_enable_iopoll : Params → Bool
is_enable_iopoll p = p.setup_iopoll

-- `m_ring.features & fea`
abbrev pub test_feature : ℕ → ℕ → Bool
test_feature features fea = not (bit_and features fea == 0)

-- The polling thread of the kernel is bound to a processor only if there is such a thread and such a
-- processor; it is then the one that the option names. Each kind of polling is set as the option says.
pub make_params_lem :
    (hardware : ℕ) (option : CtxOpt)
    → ((make_params hardware option).setup_iopoll ≡ option.io_polling)
      × ((make_params hardware option).setup_sqpoll ≡ option.sq_polling)
      × ((make_params hardware option).setup_sq_aff ≡ true
          → (option.sq_polling ≡ true)
            × ((make_params hardware option).sq_thread_cpu ≡ option.sq_cpu_affinity)
            × (option.sq_cpu_affinity < hardware))
unfolding make_params
make_params_lem hardware option = elim (Bool-cases option.sq_polling) [
  | inl e ↦ rw e (refl, refl, (λ h. (refl, refl, ground (arith, h))))
  | inr e ↦ rw e (refl, refl, (λ h. cc (h)))
]
