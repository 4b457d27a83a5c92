-- ===== src/AwaitCounter/Tests.antt =====
-- A counter of include/details/await_counter.hpp for three tasks.
use libcoio.Base.{arith}
use libcoio.AwaitCounter.{started, Step, Steps}
use libcoio.AwaitCounter.Lost.{forgotten, started-forgotten}

started-forgotten_example : Steps 7 (started 3) (forgotten 7) × ((t : _) → ¬ Step 7 (forgotten 7) t)
started-forgotten_example = started-forgotten 7 2 (omega arith)
