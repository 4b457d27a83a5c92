-- ===== src/StreamBuffer/Refines.antt =====
-- A stream buffer behaves as the queue of the bytes that it holds.
use libcoio.Base.{
  ℕ, ◌+◌, ◌^◌, ◌≤◌, ◌<◌, ◌≡◌, refl, ap, Option, none, some, List, [], ◌∷◌, arith, length, Bytes,
}
use libcoio.StreamBuffer.{
  StreamBuffer, commit, consume, prepare, fill, text, try_get_data, overflow, underflow,
}
use libcoio.StreamBuffer.Bounds.{
  IsValid, Room, consume-IsValid, overflow-IsValid, underflow-IsValid,
}
use libcoio.StreamBuffer.Contents.{consume_lem, receive_lem, consume-text}
use libcoio.StreamBuffer.Characters.{
  overflow-text, underflow_lem, try_get_data_lem, overflow_near, underflow_stays,
}
use libcoio.StreamBuffer.Fifo.{
  Op, receives, consumes, puts, peeks, shows, byte, cost, costs, Fits, AllFit,
}
use libcoio.StreamBuffer.Fifo

pub step : Op → StreamBuffer → StreamBuffer × Option Bytes
step (receives n bs k) s = (commit k (fill bs (prepare n s)), none)
step (consumes n) s = (consume n s, none)
step (puts c) s = ((overflow c s).0, none)
step peeks s = ((underflow s).0, byte (underflow s).1)
step (shows n) s = (s, try_get_data n s)

pub run : List Op → StreamBuffer → List (Option Bytes)
run [] s = []
run (o ∷ os) s = (step o s).1 ∷ run os (step o s).0

-- What a step leaves: a valid buffer, with the queue's bytes and answer, not much further on.
pub record Refines (o : Op) (s : StreamBuffer) : Type 0 where
  pub valid : IsValid (step o s).0
  pub held : text (step o s).0 ≡ (Fifo.step o (text s)).0
  pub answer : (step o s).1 ≡ (Fifo.step o (text s)).1
  pub near : (step o s).0.pptr ≤ s.pptr + cost o

receive_Refines :
    (n : ℕ) (bs : Bytes) (k : ℕ) {s : StreamBuffer}
    → length bs ≤ n
    → k ≤ length bs
    → Room n s
    → IsValid s
    → Refines (receives n bs k) s
unfolding step Fifo.step
receive_Refines n bs k {s} fits le r v =
    let (w, held, moved) = receive_lem n bs k fits le r v in
    record { valid = w; held = held; answer = refl; near = omega (arith, moved) }

step_Refines :
    (o : Op) {s : StreamBuffer} → Fits o → s.pptr + cost o < 2 ^ 31 → IsValid s → Refines o s
unfolding step Fifo.step
step_Refines (receives n bs k) (fits, le) r v = receive_Refines n bs k fits le r v
step_Refines (consumes n) {s} h r v = record {
  valid = consume-IsValid n v;
  held = consume-text n v;
  answer = refl;
  near = omega (arith, (consume_lem n v).1);
}
step_Refines (puts none) {s} h r v = record {
  valid = overflow-IsValid none r v;
  held = unfold overflow in refl;
  answer = refl;
  near = omega (arith, overflow_near none r v);
}
step_Refines (puts (some c)) {s} h r v = record {
  valid = overflow-IsValid (some c) r v;
  held = overflow-text c r v;
  answer = refl;
  near = omega (arith, overflow_near (some c) r v);
}
step_Refines peeks {s} h r v = record {
  valid = underflow-IsValid v;
  held = (underflow_lem v).0;
  answer = ap byte (underflow_lem v).1;
  near = omega (arith, underflow_stays s);
}
step_Refines (shows n) h r v = record {
  valid = v;
  held = refl;
  answer = try_get_data_lem n v;
  near = omega arith;
}

-- Any sequence of calls whose writes fit, on a valid buffer that stays below 2 ^ 31 bytes, gives the
-- answers of the queue that starts with the bytes held.
pub run_refines :
    (os : List Op) {s : StreamBuffer}
    → AllFit os
    → s.pptr + costs os < 2 ^ 31
    → IsValid s
    → run os s ≡ Fifo.run os (text s)
unfolding run Fifo.run
run_refines [] h r v = refl
run_refines (o ∷ os) {s} (h, hs) r v =
    let f = step_Refines o {s = s} h (omega arith) v in
    rw (run_refines os {s = (step o s).0} hs (omega (arith, f.near)) f.valid, f.held, f.answer)
