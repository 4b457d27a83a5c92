-- ===== src/Handles/Oneway.antt =====
-- include/details/oneway_task.hpp: a task that is started once and then owns itself.
use libcoio.Base.{ℕ, zero, suc, ◌≡◌, refl, ap, Option, none, some, List, [], ◌∷◌}

-- `m_handle`, which is null after `start`.
pub record OnewayTask : Type 0 where
  pub m_handle : Option ℕ

-- `start`: the coroutine that is resumed.
unfoldable pub start : OnewayTask → Option ℕ × OnewayTask
start t = (t.m_handle, record { m_handle = none })

-- The coroutines resumed by `n` calls of `start`.
unfoldable pub starts : ℕ → OnewayTask → List ℕ
unfolding start
starts zero t = []
starts (suc n) t = elim (start t).0 [
  | none ↦ starts n (start t).1
  | some h ↦ h ∷ starts n (start t).1
]

started_before : (n : ℕ) → starts n (record { m_handle = none }) ≡ []
unfolding starts
started_before zero = refl
started_before (suc n) = started_before n

-- However often start is called, the coroutine is resumed by the first call only.
pub starts_once : (n h : ℕ) → starts (suc n) (record { m_handle = some h }) ≡ h ∷ []
unfolding starts
starts_once n h = ap (λ hs. h ∷ hs) (started_before n)
