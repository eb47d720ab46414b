-- ===== src/Thread/Linux.antt =====
-- src/platform/linux/tt_platform_linux.c, lines 83 to 232: threads as pthreads.
pub mod Priorities
pub mod SetPriority
pub mod Sleep
pub mod Steps
use tinytools.Prelude.{
  ℕ, suc, ◌+◌, ◌*◌, ◌/◌, ◌%◌, ◌^◌, ◌≡◌, Bool, true, false, Option, none, some, ◌==◌, ◌||◌, ltb, not,
  if◌then◌else◌, ◌>>=◌,
}
use tinytools.Prelude.Int.{ℤ, pos, negsuc, ◌+ℤ◌, ◌-ℤ◌, ◌*ℤ◌}
use tinytools.Types.{
  TtError, success, null_pointer, invalid_param, not_implemented, thread_create, thread_join,
  thread_active, thread_detach, thread_sleep, is_success,
}
use tinytools.Mutex.{MutexApi}
use tinytools.ThreadTable.{unregister, find_by_handle}
use tinytools.Thread.Data.{
  ThreadState, created, terminated, is_terminated, Priority, low, normal, high, realtime, of_code,
  Thread, Attr, System, Threads, Returns, with_world, with_thread, without_thread, handle_at,
}

-- Division in C: the quotient is cut towards 0.
unfoldable pub quotient : ℤ → ℕ → ℤ
quotient (pos n) d = pos (n / d)
quotient (negsuc n) d = pos 0 -ℤ pos (suc n / d)

-- The `switch` of `tt_platform_thread_set_priority`.
unfoldable pub system_priority : ℤ → ℤ → Priority → ℤ
system_priority min_prio max_prio low = min_prio
system_priority min_prio max_prio normal = min_prio +ℤ quotient (max_prio -ℤ min_prio) 3
system_priority min_prio max_prio high = min_prio +ℤ quotient (pos 2 *ℤ (max_prio -ℤ min_prio)) 3
system_priority min_prio max_prio realtime = max_prio

-- `ts`, from the milliseconds, a `uint32_t`: the seconds, and the nanoseconds computed in 32 bits.
unfoldable pub timespec : ℕ → ℕ × ℕ
timespec ms = (ms / 1000, ms % 1000 * 1000000 % 2 ^ 32)

module _ (api : MutexApi) (sys : System) where
  -- `pthread_attr_setstacksize`, where there are attributes with a size.
  unfoldable pub set_stack_size : Option Attr → sys.World → ℕ × sys.World
  set_stack_size none w = (0, w)
  set_stack_size (some attr) w =
      if ltb 0 attr.stack_size then sys.pthread_attr_setstacksize attr.stack_size w else (0, w)

  -- The end of `tt_platform_thread_create`: the thread that is created, and its handle.
  unfoldable pub start : ℕ → Thread → ℕ → ℕ → Threads api sys → TtError × Threads api sys
  start thread t func arg s =
      let (ret, handle, w) = sys.pthread_create func arg s.world in
      let t' : Thread = record t { state = created; handle = handle } in
      let s' = with_thread api sys (with_world api sys s (sys.pthread_attr_destroy w)) thread t' in
      (if ret == 0 then success else thread_create, s')

  unfoldable pub create : ℕ → Option Attr → ℕ → ℕ → Threads api sys → Returns api sys
  create thread attr func arg s =
      if (thread == 0) || (func == 0)
      then some (null_pointer, s)
      else let (ret, w) = sys.pthread_attr_init s.world in
        if not (ret == 0)
        then some (thread_create, with_world api sys s w)
        else let (ret', w') = set_stack_size attr w in
          if not (ret' == 0)
          then some (thread_create, with_world api sys s (sys.pthread_attr_destroy w'))
          else do t ← s.heap thread; some (start thread t func arg (with_world api sys s w'))

  -- The value that the thread returned, and the status.
  unfoldable pub join : ℕ → Threads api sys → Option ((TtError × ℕ) × Threads api sys)
  join thread s = if thread == 0 then some ((null_pointer, 0), s) else do
    t ← s.heap thread
    (result, retval, w) ← sys.pthread_join t.handle s.world
    let t' : Thread = record t { state = terminated; is_active = false }
    some (
        if result == 0
        then ((success, retval), with_thread api sys (with_world api sys s w) thread t')
        else ((thread_join, retval), with_world api sys s w))

  -- The handle is read as the address of a handle.
  unfoldable pub set_priority : ℕ → ℕ → Threads api sys → Returns api sys
  set_priority thread priority s =
      if thread == 0 then some (null_pointer, s) else (elim (of_code priority) [
        | none ↦ some (invalid_param, s)
        | some p ↦ do
          t ← s.heap thread
          handle ← sys.read_word t.handle s.world
          let n =
              system_priority (sys.sched_get_priority_min s.world)
                (sys.sched_get_priority_max s.world) p
          let (_, w) = sys.pthread_setschedparam handle n s.world
          some (
            success,
            with_thread api sys (with_world api sys s w) thread (record t { priority = priority }),
          )
      ])

  unfoldable pub suspend : ℕ → Threads api sys → Returns api sys
  suspend thread s = some (if thread == 0 then null_pointer else not_implemented, s)

  unfoldable pub resume : ℕ → Threads api sys → Returns api sys
  resume thread s = some (if thread == 0 then null_pointer else not_implemented, s)

  unfoldable pub sleep : ℕ → Threads api sys → Returns api sys
  sleep ms s =
      let (tv_sec, tv_nsec) = timespec ms in
      let (ret, w) = sys.nanosleep tv_sec tv_nsec s.world in
      some (if ret == 0 then success else thread_sleep, with_world api sys s w)

  -- The thread of the table that `tt_thread_table_find_by_handle` finds, or NULL.
  unfoldable pub self : Threads api sys → Option (ℕ × Threads api sys)
  self s = do
    (thread, g) ← find_by_handle api (handle_at api sys s) (sys.pthread_self s.world) s.globals
    some (thread, record s { globals = g })

  -- The end of `tt_platform_thread_destroy`, for a thread that is no longer in the table.
  unfoldable pub release : ℕ → Thread → Threads api sys → TtError × Threads api sys
  release thread t s =
      if t.is_active
      then (let (detach_result, w) = sys.pthread_detach t.handle s.world in
          if not (detach_result == 0)
          then (thread_detach, with_world api sys s w)
          else (success, without_thread api sys (with_world api sys s w) thread))
      else (success, without_thread api sys s thread)

  unfoldable pub destroy : ℕ → Threads api sys → Returns api sys
  destroy thread s = if thread == 0 then some (null_pointer, s) else do
    t ← s.heap thread
    if not (is_terminated t.state) then some (thread_active, s) else do
      (result, g) ← unregister api thread s.globals
      let s' : Threads api sys = record s { globals = g }
      some (if not (is_success result) then (result, s') else release thread t s')

  unfoldable pub exit : ℕ → Threads api sys → Returns api sys
  exit retval s = do w ← sys.pthread_exit retval s.world; some (success, with_world api sys s w)
