-- ===== src/Thread/Unused/Pthread/Sound.antt =====
-- Lines 136 to 457 of src/tt_thread.c on Linux: the states between calls, and what a creation leaves.
use tinytools.Prelude.{ℕ, ◌<◌, ◌≡◌, ◌≢◌, none, some}
use tinytools.Prelude.Threads.{update}
use tinytools.Types.{TtError, success}
use tinytools.Mutex.{MutexApi}
use tinytools.ThreadTable.{max_threads, register_loop, unregister_loop}
use tinytools.ThreadTable.Loops.{used}
use tinytools.ThreadTable.Calls.{IsReady}
use tinytools.Thread.Data.{created, Thread, System}
use tinytools.Thread.Unused.{Creates, Returns}
use tinytools.Thread.Unused.Pthread.{port, Pool}
use tinytools.Thread.Unused.Pthread.Laws.{HeapLaws}
use tinytools.Thread.Unused.Pthread.Owned.{IsOwned}
use tinytools.Thread.Unused.Pthread.Launch.{live}

module _ (api : MutexApi) (sys : System) (routine : ℕ) (laws : HeapLaws sys) where
  -- Between calls: a table and a mutex that can be used, and memory of which every cell has its owner.
  pub record IsSound (s : Pool api sys routine) : Type 0 where
    pub ready : IsReady api s.globals
    pub owned : IsOwned s.heap s.world.cells (live sys routine laws s.world) s.globals.table

  -- A creation that failed: nothing is written, and heap, handles, allocated cells and table are as
  -- before.
  pub record Failed (s : Pool api sys routine) (r : Creates api (port sys routine)) : Type 0 where
    pub status : TtError
    pub last : Pool api sys routine
    pub returned : r ≡ some ((status, none), last)
    pub error : status ≢ success
    pub ready : IsReady api last.globals
    pub same_heap : (b : ℕ) → last.heap b ≡ s.heap b
    pub same_cells : (b : ℕ) → last.world.cells b ≡ s.world.cells b
    pub same_live : (b : ℕ) → live sys routine laws last.world b ≡ live sys routine laws s.world b
    pub same_table : last.globals.table ≡ s.globals.table

  -- A creation that succeeded: a new thread, with a handle of its own, where nothing was allocated.
  pub record Made (s : Pool api sys routine) (r : Creates api (port sys routine)) : Type 0 where
    pub thread : ℕ
    pub new : Thread
    pub pthread : ℕ
    pub last : Pool api sys routine
    pub returned : r ≡ some ((success, some thread), last)
    pub sound : IsSound last
    pub is_created : new.state ≡ created
    pub nonnull : thread ≢ 0
    pub vacant : s.heap thread ≡ none
    pub room : used s.globals.table < max_threads
    pub heap : (b : ℕ) → last.heap b ≡ update s.heap thread (some new) b
    pub no_cell : s.world.cells new.handle ≡ none
    pub cells : (b : ℕ) → last.world.cells b ≡ update s.world.cells new.handle (some pthread) b
    pub table : last.globals.table ≡ (register_loop thread s.globals.table).1

  -- A destruction that succeeded: the thread `t` at `a` left the table, the pthread of its handle was
  -- detached, and the cells of both are freed.
  pub record Destroyed (a : ℕ) (t : Thread) (s : Pool api sys routine)
      (r : Returns api (port sys routine)) : Type 0 where
    pub pthread : ℕ
    pub cell : s.world.cells t.handle ≡ some pthread
    pub last : Pool api sys routine
    pub returned : r ≡ some (success, last)
    pub sound : IsSound last
    pub heap : last.heap ≡ update s.heap a none
    pub cells : last.world.cells ≡ update s.world.cells t.handle none
    pub table : last.globals.table ≡ (unregister_loop a s.globals.table).1
    pub system :
        last.world.system
        ≡ sys.free a (sys.free t.handle (sys.pthread_detach pthread s.world.system).1)
