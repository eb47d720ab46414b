-- ===== src/Thread/Unused/Bare.antt =====
-- The branches of src/tt_thread.c, lines 136 to 457, for TT_PLATFORM_BARE: a platform without threads.
pub mod Calls
mod Examples
use tinytools.Prelude.{
  ℕ, zero, suc, ◌*◌, Bool, true, Option, none, some, List, [], ◌∷◌, ◌==◌, if◌then◌else◌, ◌>>=◌,
}
use tinytools.Types.{TtError, null_pointer, not_implemented}
use tinytools.Mutex.{MutexApi}
use tinytools.Thread.Data.{Thread, Attr}
use tinytools.Thread.Api.{
  Call, creates, joins, sets_priority, suspends, resumes, sleeps, asks_self, destroys,
}
use tinytools.Thread.Stubs.{Answer, status, pointer}
use tinytools.Thread.Unused.{Outcome, keeps, Port, State, create, destroy}

-- What is called of the C library.
pub record Heap : Type 1 where
  pub World : Type 0
  pub malloc : World → ℕ × World
  pub garbage : World → Thread
  pub free : ℕ → World → World
  pub tt_thread_name : ℕ

-- `tt_thread_create` returns without `free(new_thread)`.
unfoldable pub start : {World : Type 0} → ℕ → Thread → World → Outcome × World
start thread t w = (keeps not_implemented, w)

abbrev pub port : Heap → Port
port heap = record {
  World = heap.World;
  malloc = heap.malloc;
  garbage = heap.garbage;
  free = heap.free;
  tt_thread_name = heap.tt_thread_name;
  default_stack_size = 8 * 1024 * 1024;
  start = start;
  release = λ handle w. some w;
}

unfoldable pub join : ℕ → TtError
join thread = if thread == 0 then null_pointer else not_implemented

unfoldable pub set_priority : ℕ → ℕ → TtError
set_priority thread priority = if thread == 0 then null_pointer else not_implemented

unfoldable pub suspend : ℕ → TtError
suspend thread = if thread == 0 then null_pointer else not_implemented

unfoldable pub resume : ℕ → TtError
resume thread = if thread == 0 then null_pointer else not_implemented

unfoldable pub sleep : ℕ → TtError
sleep ms = not_implemented

unfoldable pub self : ℕ
self = 0

module _ (api : MutexApi) (heap : Heap) where
  abbrev pub Pool : Type 0
  Pool = State api (port heap)

  unfoldable pub step : Call → Pool → Option (Answer × Pool)
  step (creates is_out attr func arg) s = do
    ((result, _), s') ← create api (port heap) is_out attr func arg s
    some (status result, s')
  step (joins thread) s = some (status (join thread), s)
  step (sets_priority thread priority) s = some (status (set_priority thread priority), s)
  step (suspends thread) s = some (status (suspend thread), s)
  step (resumes thread) s = some (status (resume thread), s)
  step (sleeps ms) s = some (status (sleep ms), s)
  step asks_self s = some (pointer self, s)
  step (destroys thread) s = do
    (result, s') ← destroy api (port heap) thread s
    some (status result, s')

  unfoldable pub run : List Call → Pool → Option (List Answer × Pool)
  run [] s = some ([], s)
  run (c ∷ cs) s = do (a, s') ← step c s; (answers, s'') ← run cs s'; some (a ∷ answers, s'')
