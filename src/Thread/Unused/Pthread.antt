-- ===== src/Thread/Unused/Pthread.antt =====
-- The branches of src/tt_thread.c, lines 136 to 457, for TT_PLATFORM_LINUX. Unlike in
-- src/platform/linux/tt_platform_linux.c the handle of a thread is the address of a heap cell with its
-- `pthread_t`. The start routine is read without the stray `v` and with its brace closed.
pub mod Laws
pub mod Owned
pub mod Launch
pub mod Sound
pub mod Creation
pub mod Destruction
pub mod Kept
pub mod Steps
pub mod Invariant
pub mod Life
pub mod Shipped
pub mod Model
mod Samples
mod Examples
use tinytools.Prelude.{
  ℕ, ◌*◌, ◌/◌, ◌%◌, Bool, true, false, Option, none, some, List, [], ◌∷◌, ◌==◌, ltb, if◌then◌else◌,
  ◌>>=◌,
}
use tinytools.Prelude.Threads.{update}
use tinytools.Prelude.Int.{ℤ, pos, ◌+ℤ◌, ◌-ℤ◌, ◌*ℤ◌}
use tinytools.Types.{
  TtError, success, null_pointer, invalid_param, memory, not_implemented, thread_create,
  thread_join, thread_sleep,
}
use tinytools.Mutex.{MutexApi}
use tinytools.Thread.Data.{Priority, low, normal, high, realtime, of_code, Thread, Attr, System}
use tinytools.Thread.Linux.{quotient}
use tinytools.Thread.Unused.{
  Outcome, starts, frees, Port, State, Returns, with_world, with_thread, create, destroy, find,
  begin_routine, end_routine,
}

-- A call from outside, or a step of a thread's start routine.
pub data Event : Type 0 where
  creates : Bool → Option Attr → ℕ → ℕ → Event
  joins : ℕ → Event
  sets_priority : ℕ → ℕ → Event
  suspends : ℕ → Event
  resumes : ℕ → Event
  sleeps : ℕ → Event
  asks_self : Event
  destroys : ℕ → Event
  begins : ℕ → Event
  ends : ℕ → ℕ → Event
  returns : ℕ → Event

-- The `switch` of `tt_thread_set_priority`.
unfoldable pub system_priority : ℤ → ℤ → Priority → ℤ
system_priority min_prio max_prio low = min_prio
system_priority min_prio max_prio normal = min_prio +ℤ quotient (max_prio -ℤ min_prio) 3
system_priority min_prio max_prio high = min_prio +ℤ quotient (pos 2 *ℤ (max_prio -ℤ min_prio)) 3
system_priority min_prio max_prio realtime = max_prio

-- `ts`: the seconds, and the nanoseconds.
unfoldable pub timespec : ℕ → ℕ × ℕ
timespec ms = (ms / 1000, ms % 1000 / 1000000)

-- `routine` is the address of `thread_start_routine`.
module _ (sys : System) (routine : ℕ) where
  -- The system, and the cells that hold a `pthread_t`.
  pub record World : Type 0 where
    pub system : sys.World
    pub cells : ℕ → Option ℕ

  abbrev pub with_system : World → sys.World → World
  with_system w v = record w { system = v }

  -- `free(handle)`
  unfoldable pub free_handle : ℕ → World → World
  free_handle handle w = record {
    system = sys.free handle w.system;
    cells = update w.cells handle none;
  }

  -- `pthread_attr_init`, whose result is not looked at, and the stack size.
  unfoldable pub prepare : Thread → sys.World → sys.World
  prepare t w =
      let (_, w') = sys.pthread_attr_init w in
      if ltb 0 t.stack_size then (sys.pthread_attr_setstacksize t.stack_size w').1 else w'

  -- The call of `pthread_create`, once the cell for the handle is there, and what follows.
  unfoldable pub launch : ℕ → ℕ → World → Outcome × World
  launch thread handle w =
      let (result, pthread, v) = sys.pthread_create routine thread w.system in
      let w' : World = record {
        system = sys.pthread_attr_destroy v;
        cells = update w.cells handle (some pthread);
      } in
      if result == 0 then (starts handle, w') else (
        frees thread_create,
        (let w'' = free_handle handle w' in with_system w'' (sys.free thread w''.system)),
      )

  unfoldable pub start : ℕ → Thread → World → Outcome × World
  start thread t w =
      let (handle, v) = sys.malloc (prepare t w.system) in
      if handle == 0
      then (frees memory, with_system w (sys.pthread_attr_destroy (sys.free thread v)))
      else launch thread handle (with_system w v)

  -- `pthread_detach(*pthread_handle); free(pthread_handle);`
  unfoldable pub release : ℕ → World → Option World
  release handle w = do
    pthread ← w.cells handle
    some (free_handle handle (with_system w (sys.pthread_detach pthread w.system).1))

  abbrev pub port : Port
  port = record {
    World = World;
    malloc = λ w. let (a, v) = sys.malloc w.system in (a, with_system w v);
    garbage = λ w. sys.garbage w.system;
    free = λ a w. with_system w (sys.free a w.system);
    tt_thread_name = sys.tt_thread_name;
    default_stack_size = 8 * 1024 * 1024;
    start = start;
    release = release;
  }

module _ (api : MutexApi) (sys : System) (routine : ℕ) where
  abbrev pub Pool : Type 0
  Pool = State api (port sys routine)

  -- The call returned, and left the system in this state.
  abbrev pub after : Pool → sys.World → Pool
  after s v = with_world api (port sys routine) s (with_system sys routine s.world v)

  -- The status, and the value that the thread returned. The thread itself is not changed.
  unfoldable pub join : ℕ → Pool → Option ((TtError × ℕ) × Pool)
  join thread s = if thread == 0 then some ((null_pointer, 0), s) else do
    t ← s.heap thread
    pthread ← s.world.cells t.handle
    (result, retval, v) ← sys.pthread_join pthread s.world.system
    some ((if result == 0 then success else thread_join, retval), after s v)

  unfoldable pub set_priority : ℕ → ℕ → Pool → Returns api (port sys routine)
  set_priority thread priority s =
      if thread == 0 then some (null_pointer, s) else (elim (of_code priority) [
        | none ↦ some (invalid_param, s)
        | some p ↦ do
          t ← s.heap thread
          pthread ← s.world.cells t.handle
          let n =
              system_priority (sys.sched_get_priority_min s.world.system)
                (sys.sched_get_priority_max s.world.system) p
          let (_, v) = sys.pthread_setschedparam pthread n s.world.system
          some (
            success,
            with_thread api (port sys routine) (after s v) thread
                (record t { priority = priority }),
          )
      ])

  unfoldable pub suspend : ℕ → Pool → Returns api (port sys routine)
  suspend thread s = some (if thread == 0 then null_pointer else not_implemented, s)

  unfoldable pub resume : ℕ → Pool → Returns api (port sys routine)
  resume thread s = some (if thread == 0 then null_pointer else not_implemented, s)

  unfoldable pub sleep : ℕ → Pool → Returns api (port sys routine)
  sleep ms s =
      let (tv_sec, tv_nsec) = timespec ms in
      let (ret, v) = sys.nanosleep tv_sec tv_nsec s.world.system in
      some (if ret == 0 then success else thread_sleep, after s v)

  unfoldable pub self : Pool → Option (ℕ × Pool)
  self s = find api (port sys routine) (sys.pthread_self s.world.system) s

  -- The last statement of `thread_start_routine`, which reads the thread again.
  unfoldable pub routine_result : ℕ → Pool → Option ℕ
  routine_result thread s = do t ← s.heap thread; some t.retval

  -- One event, and a sequence: the state afterwards, unless something does not return or faults.
  unfoldable pub step : Event → Pool → Option Pool
  step (creates is_out attr func arg) s = do
    (_, s') ← create api (port sys routine) is_out attr func arg s
    some s'
  step (joins thread) s = do (_, s') ← join thread s; some s'
  step (sets_priority thread priority) s = do (_, s') ← set_priority thread priority s; some s'
  step (suspends thread) s = do (_, s') ← suspend thread s; some s'
  step (resumes thread) s = do (_, s') ← resume thread s; some s'
  step (sleeps ms) s = do (_, s') ← sleep ms s; some s'
  step asks_self s = do (_, s') ← self s; some s'
  step (destroys thread) s = do (_, s') ← destroy api (port sys routine) thread s; some s'
  step (begins thread) s = do (_, s') ← begin_routine api (port sys routine) thread s; some s'
  step (ends thread value) s = end_routine api (port sys routine) thread value s
  step (returns thread) s = do _ ← routine_result thread s; some s

  unfoldable pub run : List Event → Pool → Option Pool
  run [] s = some s
  run (e ∷ es) s = do s' ← step e s; run es s'
