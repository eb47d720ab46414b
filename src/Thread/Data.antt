-- ===== src/Thread/Data.antt =====
-- The types of include/tt_thread_enum.h, include/tt_thread.h and include/tt_thread_internal.h, the
-- system calls, and the state of the thread module as one caller sees it.
use tinytools.Prelude.{ℕ, Bool, true, false, Option, none, some, ◌==◌, if◌then◌else◌, ◌>>=◌}
use tinytools.Prelude.Int.{ℤ}
use tinytools.Prelude.Threads.{update}
use tinytools.Types.{TtError}
use tinytools.Mutex.{MutexApi}
use tinytools.ThreadTable.{Globals}

-- `tt_thread_state_t`
pub data ThreadState : Type 0 where
  created running suspended terminated : ThreadState

abbrev pub is_terminated : ThreadState → Bool
is_terminated terminated = true
is_terminated _ = false

-- `tt_thread_priority_t`: the enumerators, and the type as C has it, which holds other numbers too.
pub data Priority : Type 0 where
  low normal high realtime : Priority

abbrev pub priority_code : Priority → ℕ
priority_code low = 0
priority_code normal = 1
priority_code high = 2
priority_code realtime = 3

abbrev pub of_code : ℕ → Option Priority
of_code n =
    if n == 0
    then some low
    else if n == 1
    then some normal
    else if n == 2
    then some high
    else if n == 3
    then some realtime
    else none

-- `struct tt_thread_t`: pointers, handles and priorities are numbers.
pub record Thread : Type 0 where
  pub handle : ℕ
  pub state : ThreadState
  pub priority : ℕ
  pub func : ℕ
  pub arg : ℕ
  pub name : ℕ
  pub stack_size : ℕ
  pub retval : ℕ
  pub is_active : Bool

-- `struct tt_thread_attr_t`
pub record Attr : Type 0 where
  pub priority : ℕ
  pub stack_size : ℕ
  pub name : ℕ

-- What src/tt_thread.c and the Linux port call. A call returns its `int`, with what it writes through
-- a pointer, and the world after it; `none` is a call that does not return.
pub record System : Type 1 where
  pub World : Type 0
  -- The heap: an address, or NULL. What the cell holds at first is not known.
  pub malloc : World → ℕ × World
  pub garbage : World → Thread
  pub free : ℕ → World → World
  -- The address of the literal "tt_thread".
  pub tt_thread_name : ℕ
  pub pthread_attr_init : World → ℕ × World
  pub pthread_attr_setstacksize : ℕ → World → ℕ × World
  pub pthread_attr_destroy : World → World
  -- The function and its argument; the handle of the new thread.
  pub pthread_create : ℕ → ℕ → World → ℕ × ℕ × World
  pub pthread_join : ℕ → World → Option (ℕ × ℕ × World)
  pub pthread_detach : ℕ → World → ℕ × World
  pub pthread_self : World → ℕ
  pub pthread_setschedparam : ℕ → ℤ → World → ℕ × World
  pub pthread_exit : ℕ → World → Option World
  pub sched_get_priority_min : World → ℤ
  pub sched_get_priority_max : World → ℤ
  pub nanosleep : ℕ → ℕ → World → ℕ × World
  -- The word in memory at an address, if it can be read.
  pub read_word : ℕ → World → Option ℕ

module _ (api : MutexApi) (sys : System) where
  -- The threads on the heap, the table with its mutex, and the world. An address that is not
  -- allocated, or was freed, holds nothing, and a read there is a fault.
  pub record Threads : Type 0 where
    pub heap : ℕ → Option Thread
    pub globals : Globals api
    pub world : sys.World

  -- A result, or a fault or a call that does not return.
  abbrev pub Returns : Type 0
  Returns = Option (TtError × Threads)

  abbrev pub with_world : Threads → sys.World → Threads
  with_world s w = record s { world = w }

  abbrev pub with_thread : Threads → ℕ → Thread → Threads
  with_thread s a t = record s { heap = update s.heap a (some t) }

  -- `free(thread)`
  abbrev pub without_thread : Threads → ℕ → Threads
  without_thread s a = record s { heap = update s.heap a none; world = sys.free a s.world }

  -- `thread->handle` for a thread at an address, as the table reads it.
  abbrev pub handle_at : Threads → ℕ → Option ℕ
  handle_at s a = do t ← s.heap a; some t.handle
