-- ===== src/Thread/Unused/Freertos.antt =====
-- The branches of src/tt_thread.c, lines 136 to 457, for TT_PLATFORM_ARDUINO and TT_PLATFORM_FREERTOS:
-- threads as FreeRTOS tasks. The names that the source spells wrongly, `thread_handle` in suspend and
-- resume and TT_THREAD_PRIORITY_NORMALE, are read as `thread` and TT_THREAD_PRIORITY_NORMAL.
pub mod Join
pub mod Task
mod Examples
use tinytools.Prelude.{
  ℕ, zero, suc, ◌+◌, Bool, Option, none, some, ◌==◌, ◌||◌, not, if◌then◌else◌, ◌>>=◌,
}
use tinytools.Types.{TtError, success, null_pointer, thread_create}
use tinytools.Mutex.{MutexApi}
use tinytools.Thread.Data.{running, suspended, is_terminated, Thread}
use tinytools.Thread.Unused.{
  Outcome, starts, frees, Port, State, Returns, with_world, with_thread, find, begin_routine,
  end_routine,
}

-- What the code calls of FreeRTOS and the C library.
pub record Kernel : Type 1 where
  pub World : Type 0
  pub malloc : World → ℕ × World
  pub garbage : World → Thread
  pub free : ℕ → World → World
  pub tt_thread_name : ℕ
  pub default_stack_size : ℕ
  -- The function, the name, the stack, the argument and the priority; the result, and the handle, or
  -- NULL.
  pub task_create : ℕ → ℕ → ℕ → ℕ → ℕ → World → ℕ × ℕ × World
  -- With 0 for the task that calls.
  pub task_delete : ℕ → World → World
  pub task_delay : ℕ → World → World
  pub task_priority_set : ℕ → ℕ → World → World
  pub task_suspend : ℕ → World → World
  pub task_resume : ℕ → World → World
  pub current_task : World → ℕ
  pub ms_to_ticks : ℕ → ℕ

-- pdPASS
abbrev pub pd_pass : ℕ
pd_pass = 1

-- `routine` is the address of `thread_start_routine`.
module _ (kernel : Kernel) (routine : ℕ) where
  -- What `xTaskCreate` is given of the attributes or by default is what the thread was given.
  unfoldable pub start : ℕ → Thread → kernel.World → Outcome × kernel.World
  start thread t w =
      let (result, task_handle, w') =
        kernel.task_create routine t.name t.stack_size thread t.priority w in
      if not (result == pd_pass) || (task_handle == 0)
      then (frees thread_create, kernel.free thread w')
      else (starts task_handle, w')

  abbrev pub port : Port
  port = record {
    World = kernel.World;
    malloc = kernel.malloc;
    garbage = kernel.garbage;
    free = kernel.free;
    tt_thread_name = kernel.tt_thread_name;
    default_stack_size = kernel.default_stack_size;
    start = start;
    release = λ handle w. some (kernel.task_delete handle w);
  }

module _ (api : MutexApi) (kernel : Kernel) (routine : ℕ) where
  abbrev pub Pool : Type 0
  Pool = State api (port kernel routine)

  abbrev pub after : Pool → kernel.World → Pool
  after s w = with_world api (port kernel routine) s w

  abbrev pub write : Pool → ℕ → Thread → Pool
  write s a t = with_thread api (port kernel routine) s a t

  -- `vTaskDelete(NULL)`: the task deletes itself.
  unfoldable pub quit : Pool → Pool
  quit s = after s (kernel.task_delete 0 s.world)

  -- `thread_start_routine`, which a new task runs. `call func arg` is what calling the thread's function
  -- does and returns.
  unfoldable pub start_routine : (ℕ → ℕ → Pool → ℕ × Pool) → ℕ → Pool → Option Pool
  start_routine call thread s = do
    (is_thread, s1) ← begin_routine api (port kernel routine) thread s
    if not is_thread then some (quit s1) else do
      t ← s1.heap thread
      let (value, s2) = call t.func t.arg s1
      s3 ← end_routine api (port kernel routine) thread value s2
      some (quit s3)

  -- The loop of `tt_thread_join`, for at most so many rounds, from round `i`; then what `*retval` gets.
  -- `others i` is what the other tasks do during the delay of round `i`.
  unfoldable pub join_loop : (ℕ → Pool → Pool) → ℕ → ℕ → ℕ → Pool → Option (ℕ × Pool)
  join_loop others i zero thread s = none
  join_loop others i (suc fuel) thread s =
      let rest =
        join_loop others (i + 1) fuel thread (others i (after s (kernel.task_delay 1 s.world))) in
      (do t ← s.heap thread; if not (is_terminated t.state) then rest else some (t.retval, s))

  unfoldable pub join : (ℕ → Pool → Pool) → ℕ → ℕ → Pool → Option ((TtError × ℕ) × Pool)
  join others fuel thread s =
      if thread == 0
      then some ((null_pointer, 0), s)
      else do (retval, s') ← join_loop others 0 fuel thread s; some ((success, retval), s')

  unfoldable pub set_priority : ℕ → ℕ → Pool → Returns api (port kernel routine)
  set_priority thread priority s = if thread == 0 then some (null_pointer, s) else do
    t ← s.heap thread
    let s' = after s (kernel.task_priority_set t.handle priority s.world)
    some (success, write s' thread (record t { priority = priority }))

  unfoldable pub suspend : ℕ → Pool → Returns api (port kernel routine)
  suspend thread s = if thread == 0 then some (null_pointer, s) else do
    t ← s.heap thread
    let s' = after s (kernel.task_suspend t.handle s.world)
    some (success, write s' thread (record t { state = suspended }))

  unfoldable pub resume : ℕ → Pool → Returns api (port kernel routine)
  resume thread s = if thread == 0 then some (null_pointer, s) else do
    t ← s.heap thread
    let s' = after s (kernel.task_resume t.handle s.world)
    some (success, write s' thread (record t { state = running }))

  unfoldable pub sleep : ℕ → Pool → Returns api (port kernel routine)
  sleep ms s = some (success, after s (kernel.task_delay (kernel.ms_to_ticks ms) s.world))

  unfoldable pub self : Pool → Option (ℕ × Pool)
  self s = find api (port kernel routine) (kernel.current_task s.world) s
