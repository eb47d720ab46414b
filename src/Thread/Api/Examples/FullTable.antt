-- ===== src/Thread/Api/Examples/FullTable.antt =====
-- A creation with a full table.
use tinytools.Mutex.Spin.Samples.{free_mutex}
use tinytools.Prelude.{inl, zero, suc, ℕ, ◌≡◌, refl, replicate, true, none, some, arith}
use tinytools.Types.{not_found}
use tinytools.Mutex.Spin.Api.{spin_api}
use tinytools.ThreadTable.Loops.{AllOk}
use tinytools.Thread.Linux
use tinytools.ThreadTable.{Entry}
use tinytools.ThreadTable.Calls.{IsReady}
use tinytools.Thread.Data.{Threads}
use tinytools.Thread.Linux.{system_priority, timespec}
use tinytools.Thread.Api.{create, new_thread}
use tinytools.Thread.Api.Creation.{create_full}
use tinytools.Thread.Api.Examples.{sys, start, after}

-- Every entry of the table holds thread 3.
abbrev busy_entry : Entry
busy_entry = record { thread = 3; in_use = true }

all_busy : (n : ℕ) → AllOk (replicate n busy_entry)
all_busy zero = tt
all_busy (suc n) = (inl (refl, λ e. ground arith), all_busy n)

abbrev crowded : Threads (spin_api 0) sys
crowded = record start { globals = record { table = replicate 32 busy_entry; mutex = free_mutex } }

crowded-IsReady : IsReady (spin_api 0) crowded.globals
crowded-IsReady = record {
  table = record { size = refl; entries = all_busy 32 };
  free = record { ready = refl; clear = refl };
}

-- The state in which the system has started the thread.
abbrev started : Threads (spin_api 0) sys
started = record crowded { heap = after.heap; world = 1 }

create_full_example :
    (last : Threads (spin_api 0) sys) × (create (spin_api 0) sys true none 9 7 crowded
      ≡ some ((not_found, none), last))
    × (last.heap 1 ≡ none)
    × (last.world ≡ 1)
unfolding Linux.create Linux.start Linux.set_stack_size new_thread
create_full_example =
    create_full (spin_api 0) sys none 9 7 crowded started (λ e. omega arith) (λ e. omega arith)
      crowded-IsReady refl refl
