-- ===== src/Thread/Stubs.antt =====
-- include/tt_thread.h, lines 124 to 189: the thread functions of a build without TT_CAP_THREADS. They keep
-- no state and read none of their arguments.
use tinytools.Prelude.{ℕ, Bool, Option}
use tinytools.Types.{TtError, not_implemented}
use tinytools.Thread.Data.{ThreadState, Attr}
use tinytools.Thread.Api.{
  Call, creates, joins, sets_priority, suspends, resumes, sleeps, asks_self, destroys,
}

-- What a call returns: a status, or a pointer to a thread.
pub data Answer : Type 0 where
  status : TtError → Answer
  pointer : ℕ → Answer

unfoldable pub init : TtError
init = not_implemented

unfoldable pub attr_init : Option Attr → TtError
attr_init attr = not_implemented

unfoldable pub create : Bool → Option Attr → ℕ → ℕ → TtError
create is_out attr func arg = not_implemented

unfoldable pub join : ℕ → TtError
join thread = not_implemented

unfoldable pub get_state : ℕ → Option ThreadState → TtError
get_state thread state = not_implemented

unfoldable pub set_priority : ℕ → ℕ → TtError
set_priority thread priority = not_implemented

unfoldable pub suspend : ℕ → TtError
suspend thread = not_implemented

unfoldable pub resume : ℕ → TtError
resume thread = not_implemented

unfoldable pub sleep : ℕ → TtError
sleep ms = not_implemented

unfoldable pub self : ℕ
self = 0

unfoldable pub destroy : ℕ → TtError
destroy thread = not_implemented

-- Every call: one of those of src/tt_thread.c, or one of the three that these leave out.
pub data StubCall : Type 0 where
  of_thread : Call → StubCall
  inits : StubCall
  inits_attr : Option Attr → StubCall
  asks_state : ℕ → Option ThreadState → StubCall

unfoldable pub answer : StubCall → Answer
answer (of_thread (creates is_out attr func arg)) = status (create is_out attr func arg)
answer (of_thread (joins thread)) = status (join thread)
answer (of_thread (sets_priority thread priority)) = status (set_priority thread priority)
answer (of_thread (suspends thread)) = status (suspend thread)
answer (of_thread (resumes thread)) = status (resume thread)
answer (of_thread (sleeps ms)) = status (sleep ms)
answer (of_thread asks_self) = pointer self
answer (of_thread (destroys thread)) = status (destroy thread)
answer inits = status init
answer (inits_attr attr) = status (attr_init attr)
answer (asks_state thread state) = status (get_state thread state)
