-- ===== src/Thread/Unused/Bare/Examples.antt =====
-- The theorem about lines 136 to 457 of src/tt_thread.c without a platform, at a concrete state.
use tinytools.Mutex.Spin.Samples.{free_mutex}
use tinytools.Prelude.{ℕ, ◌+◌, false, none}
use tinytools.Mutex.Spin.Api.{spin_api}
use tinytools.ThreadTable.{zeroed}
use tinytools.Thread.Data.{created}
use tinytools.Thread.Unused.Bare.{Heap, Pool}

-- The world is the number of cells that were handed out.
abbrev heap : Heap
heap = record {
  World = ℕ;
  malloc = λ w. (w + 1, w + 1);
  garbage = λ w. record {
    handle = 0;
    state = created;
    priority = 0;
    func = 0;
    arg = 0;
    name = 0;
    stack_size = 0;
    retval = 0;
    is_active = false;
  };
  free = λ a w. w;
  tt_thread_name = 5;
}

abbrev nothing : Pool (spin_api 0) heap
nothing = record {
  heap = λ a. none;
  globals = record { table = zeroed; mutex = free_mutex };
  world = 0;
}
