-- ===== src/Thread/Unused.antt =====
-- src/tt_thread.c, lines 136 to 457: the thread module with the code of every platform in one file. It
-- stands under TT_UNUSED_CODE, which the Makefile does not define, and is read here with the types of
-- include/tt_thread.h and include/tt_thread_internal.h. What all platforms share is here; a `Port` has
-- the branches of the `#if` lines.
pub mod Settled
pub mod Pthread
pub mod Freertos
pub mod Bare
use tinytools.Prelude.{
  ℕ, Bool, true, false, Option, none, some, ◌==◌, ◌||◌, not, if◌then◌else◌, is_null, ◌>>=◌,
}
use tinytools.Prelude.Threads.{update}
use tinytools.Types.{TtError, success, null_pointer, memory, thread_active, is_success}
use tinytools.Mutex.{MutexApi}
use tinytools.ThreadTable.{Globals, table_init, register, unregister, find_by_handle}
use tinytools.Thread.Data.{
  ThreadState, created, running, terminated, is_terminated, normal, priority_code, Thread, Attr,
}

-- How the platform's part of `tt_thread_create` ends: with a handle; or with a `return`, after
-- `free(new_thread)` or without it.
pub data Outcome : Type 0 where
  starts : ℕ → Outcome
  frees : TtError → Outcome
  keeps : TtError → Outcome

-- The platform. Its world is all that it keeps outside of the threads.
pub record Port : Type 1 where
  pub World : Type 0
  pub malloc : World → ℕ × World
  pub garbage : World → Thread
  pub free : ℕ → World → World
  -- The address of the literal "tt_thread", and TT_DEFAULT_STACK_SIZE.
  pub tt_thread_name : ℕ
  pub default_stack_size : ℕ
  -- The branch in `tt_thread_create`, for the new thread at an address.
  pub start : ℕ → Thread → World → Outcome × World
  -- What is done with the handle before a thread is freed; `none` is a fault.
  pub release : ℕ → World → Option World

-- `attr ? attr->… : default_attrs.…`, for every field.
unfoldable pub attr_or : Attr → Option Attr → Attr
attr_or d none = d
attr_or d (some attr) = attr

module _ (api : MutexApi) (port : Port) where
  -- The threads on the heap, the table with its mutex, and the platform. An address that is not
  -- allocated, or was freed, holds nothing, and a read there is a fault.
  pub record State : Type 0 where
    pub heap : ℕ → Option Thread
    pub globals : Globals api
    pub world : port.World

  abbrev pub with_world : State → port.World → State
  with_world s w = record s { world = w }

  abbrev pub with_thread : State → ℕ → Thread → State
  with_thread s a t = record s { heap = update s.heap a (some t) }

  -- `free(thread)`
  abbrev pub without_thread : State → ℕ → State
  without_thread s a = record s { heap = update s.heap a none; world = port.free a s.world }

  abbrev pub Creates : Type 0
  Creates = Option ((TtError × Option ℕ) × State)

  abbrev pub Returns : Type 0
  Returns = Option (TtError × State)

  unfoldable pub init : State → Returns
  init s = do (result, g) ← table_init api s.globals; some (result, record s { globals = g })

  unfoldable pub default_attrs : Attr
  default_attrs = record {
    priority = priority_code normal;
    stack_size = port.default_stack_size;
    name = port.tt_thread_name;
  }

  -- The attributes under the pointer, or NULL.
  unfoldable pub attr_init : Option Attr → TtError × Option Attr
  attr_init none = (null_pointer, none)
  attr_init (some attr) = (success, some default_attrs)

  -- The fields that `tt_thread_create` sets.
  unfoldable pub new_thread : Thread → Option Attr → ℕ → ℕ → Thread
  new_thread raw attr func arg =
      let a = attr_or default_attrs attr in
      record raw {
        func = func;
        arg = arg;
        state = created;
        is_active = true;
        stack_size = a.stack_size;
        priority = a.priority;
        name = a.name;
      }

  -- The end of `tt_thread_create`: a thread `t` that has its handle goes into the table, or is given up.
  unfoldable pub enroll : ℕ → Thread → State → Creates
  enroll thread t s = do
    (reg_result, g) ← register api thread s.globals
    let s' : State = record s { globals = g }
    if is_success reg_result then some ((success, some thread), s') else do
      w ← port.release t.handle s'.world
      some ((reg_result, none), without_thread (with_world s' w) thread)

  -- What follows the platform's branch.
  unfoldable pub proceed : ℕ → Thread → Outcome → State → Creates
  proceed thread t (starts handle) s =
      let t' : Thread = record t { handle = handle } in enroll thread t' (with_thread s thread t')
  proceed thread t (frees error) s =
      some ((error, none), record s { heap = update s.heap thread none })
  proceed thread t (keeps error) s = some ((error, none), s)

  -- `is_out` tells whether the caller's `thread` is not NULL; `*thread` is written on success only.
  unfoldable pub create : Bool → Option Attr → ℕ → ℕ → State → Creates
  create is_out attr func arg s =
      if not is_out || (func == 0)
      then some ((null_pointer, none), s)
      else let (a, w) = port.malloc s.world in
        if a == 0
        then some ((memory, none), with_world s w)
        else let t = new_thread (port.garbage w) attr func arg in
          let (outcome, w') = port.start a t w in
          proceed a t outcome (with_thread (with_world s w') a t)

  -- `state` is what the caller's pointer holds, or NULL.
  unfoldable pub get_state : ℕ → Option ThreadState → State → Option (TtError × Option ThreadState)
  get_state thread state s =
      if (thread == 0) || is_null state
      then some (null_pointer, state)
      else do t ← s.heap thread; some (success, some t.state)

  -- The thread that the table finds for a handle, or NULL.
  unfoldable pub find : ℕ → State → Option (ℕ × State)
  find handle s = do
    (thread, g) ← find_by_handle api (λ a. do t ← s.heap a; some t.handle) handle s.globals
    some (thread, record s { globals = g })

  unfoldable pub destroy : ℕ → State → Returns
  destroy thread s = if thread == 0 then some (null_pointer, s) else do
    t ← s.heap thread
    if not (is_terminated t.state) then some (thread_active, s) else do
      (result, g) ← unregister api thread s.globals
      let s' : State = record s { globals = g }
      if not (is_success result) then some (result, s') else do
        w ← port.release t.handle s'.world
        some (success, without_thread (with_world s' w) thread)

  -- `thread_start_routine`, which the new thread runs, up to the call of its function, with whether it
  -- is called; and after the call, which returned `value`.
  unfoldable pub begin_routine : ℕ → State → Option (Bool × State)
  begin_routine thread s =
      if thread == 0
      then some (false, s)
      else do t ← s.heap thread; some (true, with_thread s thread (record t { state = running }))

  unfoldable pub end_routine : ℕ → ℕ → State → Option State
  end_routine thread value s = do
    t ← s.heap thread
    some (with_thread s thread (record t { retval = value; state = terminated }))
