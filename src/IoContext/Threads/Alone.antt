-- ===== src/IoContext/Threads/Alone.antt =====
-- The loop of an include/io_context.hpp context on its own.
use libcoio.Base.{ℕ, zero, suc, ◌+◌, ◌≡◌, refl, ap, ◌∙◌, arith}
use libcoio.IoContext.{Code, Thread}
use libcoio.IoContext.Threads.{Running, advance}

module _ (code : ℕ → Code) (th : Thread) where
  -- `n` steps of the loop with nothing from outside.
  unfoldable pub alone : ℕ → Running → Running
  alone zero s = s
  alone (suc n) s = alone n (advance code th s)

  alone_add : (n m : ℕ) (s : Running) → alone (n + m) s ≡ alone m (alone n s)
  unfolding alone
  alone_add zero m s = ap (λ k. alone k s) (let e : 0 + m ≡ m = omega arith in e)
  alone_add (suc n) m s =
      ap (λ k. alone k s) (let e : suc n + m ≡ suc (n + m) = omega arith in e)
      ∙ alone_add n m (advance code th s)

  -- The loop comes from one state to another by its own steps.
  pub record Reaches (s u : Running) : Type 0 where
    pub count : ℕ
    pub reached : alone count s ≡ u

  pub stays : (s : Running) → Reaches s s
  unfolding alone
  stays s = record { count = 0; reached = refl }

  pub goes : {s u : Running} → advance code th s ≡ u → Reaches s u
  unfolding alone
  goes h = record { count = 1; reached = h }

  pub then_goes : {s t u : Running} → Reaches s t → Reaches t u → Reaches s u
  then_goes {s} x y = record {
    count = x.count + y.count;
    reached = alone_add x.count y.count s ∙ ap (alone y.count) x.reached ∙ y.reached;
  }

  pub ends_as : {s t u : Running} → Reaches s t → t ≡ u → Reaches s u
  ends_as x g = record { count = x.count; reached = x.reached ∙ g }
