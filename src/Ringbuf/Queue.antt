-- ===== src/Ringbuf/Queue.antt =====
-- What include/tt_ringbuf.h promises: a first-in first-out queue of at most `cap` bytes. The calls
-- of a client and the replies that it sees, and the queue's answers to them.
use tinytools.Prelude.{ℕ, ◌==◌, Bool, Option, some, List, [], ◌∷◌, ◌++◌, length, if◌then◌else◌}
use tinytools.Types.{TtError, success, buffer_full, buffer_empty}

-- `get old` passes a `data` that points to `old`.
pub data Call : Type 0 where
  put : (byte : ℕ) → Call
  get : (old : ℕ) → Call
  ask_count ask_empty ask_full : Call

pub data Reply : Type 0 where
  status : TtError → Reply
  got : TtError → (out : Option ℕ) → Reply
  number : ℕ → Reply
  answer : Bool → Reply

abbrev pub Queue : Type 0
Queue = List ℕ

unfoldable pub pop : ℕ → Queue → Reply × Queue
pop old [] = (got buffer_empty (some old), [])
pop old (x ∷ q) = (got success (some x), q)

module _ (cap : ℕ) where
  unfoldable pub push : Queue → ℕ → Reply × Queue
  push q x = if length q == cap then (status buffer_full, q) else (status success, q ++ (x ∷ []))

  unfoldable pub step : Queue → Call → Reply × Queue
  step q (put byte) = push q byte
  step q (get old) = pop old q
  step q ask_count = (number (length q), q)
  step q ask_empty = (answer (length q == 0), q)
  step q ask_full = (answer (length q == cap), q)

  unfoldable pub run : Queue → List Call → List Reply
  run q [] = []
  run q (c ∷ calls) = let (reply, q') = step q c in reply ∷ run q' calls
