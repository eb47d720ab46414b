-- ===== src/Thread/Linux/SetPriority.antt =====
-- `tt_platform_thread_set_priority` of src/platform/linux/tt_platform_linux.c on every path.
use tinytools.Prelude.{ℕ, ◌≡◌, some}
use tinytools.Prelude.Int.{ℤ, ◌≤ℤ◌}
use tinytools.Types.{success}
use tinytools.Mutex.{MutexApi}
use tinytools.Thread.Data.{
  Priority, priority_code, Thread, System, Threads, Returns, with_world, with_thread,
}

module _ (api : MutexApi) (sys : System) where
  -- The call that is made for a valid level `p`, once the word at the handle is read: the system is
  -- asked for a priority in its range, and the thread remembers the level.
  pub record Asked (a : ℕ) (t : Thread) (p : Priority) (s : Threads api sys) (r : Returns api sys)
      : Type 0 where
    pub handle : ℕ
    pub asked : ℤ
    pub read : sys.read_word t.handle s.world ≡ some handle
    pub in_range :
        (sys.sched_get_priority_min s.world ≤ℤ asked)
        × (asked ≤ℤ sys.sched_get_priority_max s.world)
    pub returned :
        r
        ≡ some (
          success,
          with_thread api sys
              (with_world api sys s (sys.pthread_setschedparam handle asked s.world).1)
              a
              (record t { priority = priority_code p }),
        )
