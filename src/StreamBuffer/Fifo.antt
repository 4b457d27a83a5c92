-- ===== src/StreamBuffer/Fifo.antt =====
-- What a user of include/stream_buffer.hpp can ask of a buffer, and a queue of bytes that answers.
use libcoio.Base.{
  ℕ, ◌+◌, ◌≤◌, Option, none, some, List, [], ◌∷◌, ◌++◌, leb, if◌then◌else◌, length, take, drop,
  Bytes,
}
use mathlib.Core.List.{head?}
use mathlib.Core.Option

-- `receives n bs k`: `prepare(n)`, `bs` is written into the span, `commit(k)`.
pub data Op : Type 0 where
  receives : ℕ → Bytes → ℕ → Op
  consumes : ℕ → Op
  puts : Option ℕ → Op
  peeks : Op
  shows : ℕ → Op

abbrev pub byte : Option ℕ → Option Bytes
byte = Option.map (λ c. c ∷ [])

unfoldable pub step : Op → Bytes → Bytes × Option Bytes
step (receives n bs k) q = (q ++ take k bs, none)
step (consumes n) q = (drop n q, none)
step (puts none) q = (q, none)
step (puts (some c)) q = (q ++ c ∷ [], none)
step peeks q = (q, byte (head? q))
step (shows n) q = (q, if leb n (length q) then some (take n q) else none)

unfoldable pub run : List Op → Bytes → List (Option Bytes)
run [] q = []
run (o ∷ os) q = (step o q).1 ∷ run os (step o q).0

-- How far a call can move the put pointer, at most.
abbrev pub cost : Op → ℕ
cost (receives n bs k) = n
cost (puts c) = 64
cost _ = 0

abbrev pub costs : List Op → ℕ
costs [] = 0
costs (o ∷ os) = cost o + costs os

-- A write fits its span, and no more is committed than was written.
abbrev pub Fits : Op → Type 0
Fits (receives n bs k) = (length bs ≤ n) × (k ≤ length bs)
Fits _ = Unit

abbrev pub AllFit : List Op → Type 0
AllFit [] = Unit
AllFit (o ∷ os) = Fits o × AllFit os
