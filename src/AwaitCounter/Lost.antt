-- ===== src/AwaitCounter/Lost.antt =====
-- The wakeup that include/details/await_counter.hpp loses when the last call comes between the load and
-- the store of the one who waits.
use libcoio.Base.{
  ℕ, zero, suc, ◌+◌, ◌-◌, ◌%◌, ◌^◌, ◌<◌, ◌≡◌, refl, ap, inl, inr, false, none, some, arith, ◌==◌,
  Bool-cases,
}
use mathlib.Core.Path.{subst}
use libcoio.AwaitCounter.{
  notify_complete_one, deciding, asleep, State, started, after_ready, after_notify, Step, loads,
  stores, notifies, Steps, stay, more,
}

-- A call without a continuation wakes nobody.
unheard :
    (n : ℕ)
    → suc n < 2 ^ 64
    → notify_complete_one (record { continuation = none; cnt = suc n })
      ≡ (none, record { continuation = none; cnt = n })
unfolding notify_complete_one
unheard n small =
    let less : (suc n + 2 ^ 64 - 1) % 2 ^ 64 ≡ n = omega (arith, small) in
    elim (Bool-cases (suc n == 1)) [ inl e ↦ rw (e, less) refl | inr e ↦ rw (e, less) refl ]

-- The waiter has read a count that was not zero.
abbrev undecided : ℕ → State
undecided n = record {
  counter = record { continuation = none; cnt = n };
  waiter = deciding;
  calls = n;
}

-- The waiter sleeps, the count is zero, and no call is left.
abbrev pub forgotten : ℕ → State
forgotten k = record {
  counter = record { continuation = some k; cnt = 0 };
  waiter = asleep;
  calls = 0;
}

call_unheard : (k n : ℕ) → suc n < 2 ^ 64 → Step k (undecided (suc n)) (undecided n)
call_unheard k n small =
    subst
      (λ x.
        Step k (undecided (suc n))
          (record { counter = x.1; waiter = after_notify x.0 deciding; calls = n }))
      (unheard n small) (notifies (undecided (suc n)) n refl)

all_unheard : (k n : ℕ) → n < 2 ^ 64 → Steps k (undecided n) (forgotten k)
all_unheard k zero small =
    more (undecided 0) (forgotten k) (forgotten k) (stores (undecided 0) refl) (stay (forgotten k))
all_unheard k (suc n) small =
    more (undecided (suc n)) (undecided n) (forgotten k) (call_unheard k n small)
      (all_unheard k n (omega arith))

forgotten_stuck : (k : ℕ) (s t : State) → s ≡ forgotten k → Step k s t → ⊥
forgotten_stuck k _ _ e (loads s h) = cc (h, ap (λ x. x.waiter) e)
forgotten_stuck k _ _ e (stores s h) = cc (h, ap (λ x. x.waiter) e)
forgotten_stuck k _ _ e (notifies s n h) = absurd (omega (arith, h, ap (λ x. x.calls) e))

loads_positive : (k n : ℕ) → Step k (started (suc n)) (undecided (suc n))
loads_positive k n =
    subst (λ b. Step k (started (suc n)) (record (started (suc n)) { waiter = after_ready b }))
      (let e : (suc n == 0) ≡ false = ground arith in e) (loads (started (suc n)) refl)

-- However many tasks are counted, a run can end with the waiting coroutine asleep for good: the count is
-- zero, every call has been made, and no step is possible.
pub started-forgotten :
    (k n : ℕ)
    → suc n < 2 ^ 64
    → Steps k (started (suc n)) (forgotten k) × ((t : State) → ¬ Step k (forgotten k) t)
started-forgotten k n small = (
  more (started (suc n)) (undecided (suc n)) (forgotten k) (loads_positive k n)
      (all_unheard k (suc n) small),
  (λ t. forgotten_stuck k (forgotten k) t refl),
)
