-- ===== src/Thread/Api.antt =====
-- src/tt_thread.c, lines 49 to 134.
pub mod Heaps
pub mod Enrollment
pub mod Creation
pub mod Lifecycle
pub mod Self
pub mod Invariant
pub mod Destruction
mod Examples
use tinytools.Prelude.{
  ℕ, ◌*◌, ◌≡◌, Bool, true, false, Option, none, some, ◌==◌, ◌||◌, not, if◌then◌else◌, is_null,
  ◌>>=◌, List, [], ◌∷◌,
}
use tinytools.Types.{TtError, success, null_pointer, memory, is_success}
use tinytools.Mutex.{MutexApi}
use tinytools.ThreadTable.{table_init, register}
use tinytools.Thread.Data.{
  ThreadState, created, normal, priority_code, Thread, Attr, System, Threads, Returns, with_world,
  with_thread, without_thread,
}
use tinytools.Thread.Linux

-- TT_DEFAULT_STACK_SIZE, on Linux
abbrev pub default_stack_size : ℕ
default_stack_size = 8 * 1024 * 1024

-- `attr ? attr->… : …`, for every field.
abbrev pub attr_or : Attr → Option Attr → Attr
attr_or d none = d
attr_or d (some attr) = attr

-- A call from outside. `creates` has the arguments of `tt_thread_create`, with whether `thread` is not
-- NULL.
pub data Call : Type 0 where
  creates : Bool → Option Attr → ℕ → ℕ → Call
  joins : ℕ → Call
  sets_priority : ℕ → ℕ → Call
  suspends : ℕ → Call
  resumes : ℕ → Call
  sleeps : ℕ → Call
  asks_self : Call
  destroys : ℕ → Call

module _ (api : MutexApi) (sys : System) where
  pub init : Threads api sys → Returns api sys
  init s = do (result, g) ← table_init api s.globals; some (result, record s { globals = g })

  abbrev pub default_attrs : Attr
  default_attrs = record {
    priority = priority_code normal;
    stack_size = default_stack_size;
    name = sys.tt_thread_name;
  }

  -- The attributes under the pointer, or NULL.
  pub attr_init : Option Attr → TtError × Option Attr
  attr_init none = (null_pointer, none)
  attr_init (some attr) = (success, some default_attrs)

  -- The fields that `tt_thread_create` sets, from the attributes or by default.
  pub new_thread : Thread → Option Attr → ℕ → ℕ → Thread
  new_thread raw attr func arg =
      let a = attr_or default_attrs attr in
      record raw {
        func = func;
        arg = arg;
        state = created;
        is_active = true;
        stack_size = a.stack_size;
        priority = a.priority;
        name = a.name;
      }

  -- After `tt_platform_thread_create` has started the thread: it goes into the table.
  pub enroll : ℕ → Threads api sys → Option ((TtError × Option ℕ) × Threads api sys)
  enroll thread s = do
    (result, g) ← register api thread s.globals
    let s' : Threads api sys = record s { globals = g }
    if is_success result then some ((success, some thread), s') else do
      (_, s'') ← Linux.destroy api sys thread s'
      some ((result, none), without_thread api sys s'' thread)

  -- What `tt_thread_create` does with the result of `tt_platform_thread_create`.
  pub finish : ℕ → Returns api sys → Option ((TtError × Option ℕ) × Threads api sys)
  finish thread started = do
    (result, s) ← started
    if not (is_success result)
        then some ((result, none), without_thread api sys s thread)
        else enroll thread s

  -- `is_out` tells whether the caller's `thread` is not NULL; `*thread` is written on success only.
  pub create :
      Bool → Option Attr → ℕ → ℕ → Threads api sys → Option ((TtError × Option ℕ) × Threads api sys)
  create is_out attr func arg s =
      if not is_out || (func == 0)
      then some ((null_pointer, none), s)
      else let (a, w) = sys.malloc s.world in
        if a == 0
        then some ((memory, none), with_world api sys s w)
        else let t = new_thread (sys.garbage w) attr func arg in
          finish a (
            Linux.create api sys a attr func arg (with_thread api sys (with_world api sys s w) a t))

  pub join : ℕ → Threads api sys → Option ((TtError × ℕ) × Threads api sys)
  join thread s = Linux.join api sys thread s

  -- `state` is what the caller's pointer holds, or NULL.
  pub get_state : ℕ → Option ThreadState → Threads api sys → Option (TtError × Option ThreadState)
  get_state thread state s =
      if (thread == 0) || is_null state
      then some (null_pointer, state)
      else do t ← s.heap thread; some (success, some t.state)

  pub set_priority : ℕ → ℕ → Threads api sys → Returns api sys
  set_priority thread priority s = Linux.set_priority api sys thread priority s

  pub suspend : ℕ → Threads api sys → Returns api sys
  suspend thread s = Linux.suspend api sys thread s

  pub resume : ℕ → Threads api sys → Returns api sys
  resume thread s = Linux.resume api sys thread s

  pub sleep : ℕ → Threads api sys → Returns api sys
  sleep ms s = Linux.sleep api sys ms s

  pub self : Threads api sys → Option (ℕ × Threads api sys)
  self s = Linux.self api sys s

  pub destroy : ℕ → Threads api sys → Returns api sys
  destroy thread s = Linux.destroy api sys thread s

  -- One call, and a sequence: the state afterwards, if the calls return.
  pub step : Call → Threads api sys → Option (Threads api sys)
  step (creates is_out attr func arg) s = do (_, s') ← create is_out attr func arg s; some s'
  step (joins thread) s = do (_, s') ← join thread s; some s'
  step (sets_priority thread priority) s = do (_, s') ← set_priority thread priority s; some s'
  step (suspends thread) s = do (_, s') ← suspend thread s; some s'
  step (resumes thread) s = do (_, s') ← resume thread s; some s'
  step (sleeps ms) s = do (_, s') ← sleep ms s; some s'
  step asks_self s = do (_, s') ← self s; some s'
  step (destroys thread) s = do (_, s') ← destroy thread s; some s'

  pub run : List Call → Threads api sys → Option (Threads api sys)
  run [] s = some s
  run (c ∷ cs) s = do s' ← step c s; run cs s'
