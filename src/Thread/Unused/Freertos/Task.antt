-- ===== src/Thread/Unused/Freertos/Task.antt =====
-- Creation and destruction in src/tt_thread.c, lines 136 to 457, on FreeRTOS.
use tinytools.Prelude.{
  ℕ, suc, ◌<◌, ◌≡◌, ◌≢◌, inl, inr, refl, none, some, ◌==◌, ◌||◌, not, arith, Bool-cases,
}
use tinytools.Prelude.Threads.{update, update_self}
use tinytools.Types.{success, thread_create}
use tinytools.Mutex.{MutexApi}
use tinytools.ThreadTable.{unregister_loop}
use tinytools.ThreadTable.Loops.{copies, unregister-IsTable}
use tinytools.ThreadTable.Bag.{unregister-Unregistered}
use tinytools.ThreadTable.Calls.{IsReady, unregister-Ends, nonzero}
use tinytools.Thread.Data.{running, terminated, Thread}
use tinytools.Thread.Unused.{without_thread, destroy, begin_routine, end_routine}
use tinytools.Thread.Unused.Settled.{Settles}
use tinytools.Thread.Unused.Freertos.{
  Kernel, pd_pass, start, port, Pool, after, write, quit, start_routine, join, join_loop,
}

module _ (kernel : Kernel) (routine : ℕ) where
  -- A task that `xTaskCreate` does not make is freed, and one that it makes can be deleted.
  pub freertos-Settles : Settles (port kernel routine)
  unfolding start
  freertos-Settles = record {
    start_ends = λ a t w.
        let (result, h, w') = kernel.task_create routine t.name t.stack_size a t.priority w in
        elim (Bool-cases (not (result == pd_pass) || (h == 0))) [
          | inl failed ↦ inl (record {
            error = thread_create;
            world = kernel.free a w';
            result = rw failed refl;
            bad = λ e. absurd (ground arith);
          })
          | inr ok ↦ inr (record {
            handle = h;
            world = w';
            result = rw ok refl;
            released = kernel.task_delete h w';
            releases = refl;
          })
        ];
  }

module _ (api : MutexApi) (kernel : Kernel) (routine : ℕ) where
  -- A thread `a` is started in the state `s`, its function leaves the state `s2` and the thread as `u`,
  -- its start routine ends, and the thread is destroyed.
  pub record DeletedTwice (call : ℕ → ℕ → Pool api kernel routine → ℕ × Pool api kernel routine)
      (a value : ℕ) (u : Thread) (s s2 : Pool api kernel routine) : Type 0 where
    pub ended : Pool api kernel routine
    pub last : Pool api kernel routine
    pub ends : start_routine api kernel routine call a s ≡ some ended
    pub result : ended.heap a ≡ some (record u { retval = value; state = terminated })
    pub joins :
        (others : ℕ → Pool api kernel routine → Pool api kernel routine) (fuel : ℕ)
        → join api kernel routine others (suc fuel) a ended ≡ some ((success, value), ended)
    pub destroys : destroy api (port kernel routine) a ended ≡ some (success, last)
    pub ready : IsReady api last.globals
    pub table : last.globals.table ≡ (unregister_loop a s2.globals.table).1
    pub gone : last.heap a ≡ none
    pub world :
        last.world ≡ kernel.free a (kernel.task_delete u.handle (kernel.task_delete 0 s2.world))

  -- A thread runs `thread_start_routine` on FreeRTOS. When its function leaves it on the heap and in the
  -- table, and the table's mutex free, then its task deletes itself at the end; joining the thread
  -- afterwards returns the value of the function in the first round; and destroying it succeeds, takes
  -- it from the table and frees it, and gives `vTaskDelete` the handle of the task that has already
  -- deleted itself.
  pub deleted_twice :
      (call : ℕ → ℕ → Pool api kernel routine → ℕ × Pool api kernel routine) (a value : ℕ)
      (t u : Thread) (s s2 : Pool api kernel routine)
      → a ≢ 0
      → s.heap a ≡ some t
      → call t.func t.arg (write api kernel routine s a (record t { state = running }))
        ≡ (value, s2)
      → s2.heap a ≡ some u
      → 0 < copies a s2.globals.table
      → IsReady api s2.globals
      → DeletedTwice call a value u s s2
  unfolding start_routine begin_routine end_routine join join_loop destroy quit
  deleted_twice call a value t u s s2 n held called kept there ready =
      let t' : Thread = record t { state = running } in
      let u' : Thread = record u { retval = value; state = terminated } in
      let gone = unregister-Ends api a s2.globals n ready.free in
      let done = (unregister-Unregistered a a s2.globals.table there).result in
      let runs : update s.heap a (some t') a ≡ some t' = update_self s.heap a (some t') in
      let here : update s2.heap a (some u') a ≡ some u' = update_self s2.heap a (some u') in
      let ended = quit api kernel routine (write api kernel routine s2 a u') in
      let out : Pool api kernel routine = record ended { globals = gone.last } in
      record {
        ended = ended;
        last =
            without_thread api (port kernel routine)
              (after api kernel routine out (kernel.task_delete u.handle out.world)) a;
        ends = rw (nonzero a n, held, runs, called, kept) refl;
        result = here;
        joins = λ others fuel. rw (nonzero a n, here) refl;
        destroys = rw (nonzero a n, here, gone.returned, done) refl;
        ready = record {
          table = rw gone.left (unregister-IsTable a s2.globals.table ready.table);
          free = gone.free;
        };
        table = gone.left;
        gone = update_self (update s2.heap a (some u')) a none;
        world = refl;
      }
