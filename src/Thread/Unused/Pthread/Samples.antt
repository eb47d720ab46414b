-- ===== src/Thread/Unused/Pthread/Samples.antt =====
-- Concrete states of the unused code of src/tt_thread.c on Linux: no thread, and one thread.
use tinytools.Mutex.Spin.Samples.{free_mutex}
use tinytools.Prelude.{◌≡◌, refl, true, false, none, some, ◌∷◌, replicate, arith}
use tinytools.Prelude.Threads.{update}
use tinytools.Mutex.Spin.Api.{spin_api}
use tinytools.ThreadTable.{Table, no_entry, zeroed, register_loop}
use tinytools.ThreadTable.Loops.{register-IsTable}
use tinytools.ThreadTable.Calls.{zeroed-IsTable}
use tinytools.Thread.Data.{terminated, Thread}
use tinytools.Thread.Unused.Pthread.{Pool}
use tinytools.Thread.Unused.Pthread.Model.{system, system_laws, blank}
use tinytools.Thread.Unused.Pthread.Owned.{IsOwned, IsOwned-make, IsOwned-same}
use tinytools.Thread.Unused.Pthread.Sound.{IsSound}

-- The start routine is at address 3. No thread yet, and five cells of memory.
abbrev pub nothing : Pool (spin_api 0) system 3
nothing = record {
  heap = λ a. none;
  globals = record { table = zeroed; mutex = free_mutex };
  world = record { system = record { last = 0; room = 5; marks = λ b. false }; cells = λ b. none };
}

nothing-IsOwned : IsOwned (λ a. none) (λ b. none) (λ b. false) zeroed
nothing-IsOwned = record {
  owner = λ b. 0;
  memory = λ b. refl;
  apart = λ b e. absurd (ground arith);
  handle = λ a e. absurd (ground arith);
  owned = λ b e. absurd (ground arith);
  listed = λ a. refl;
  no_null = refl;
}

pub nothing-IsSound : IsSound (spin_api 0) system 3 system_laws nothing
unfolding system_laws
nothing-IsSound = record {
  ready = record { table = zeroed-IsTable; free = record { ready = refl; clear = refl } };
  owned =
      IsOwned-same _ _ _ _ nothing-IsOwned _ _ _ _ (λ b. refl) (λ b. refl) (λ b. ground arith) refl;
}

-- A thread at 1 with its handle in the cell 2, which has ended.
abbrev pub dead : Thread
dead = record blank { handle = 2; state = terminated; is_active = true }

-- And one that still runs.
abbrev pub alive : Thread
alive = record blank { handle = 2; is_active = true }

abbrev pub table : Table
table = record { thread = 1; in_use = true } ∷ replicate 31 no_entry

abbrev pub one : Thread → Pool (spin_api 0) system 3
one t = record {
  heap = update (λ a. none) 1 (some t);
  globals = record { table = table; mutex = free_mutex };
  world = record {
    system = record { last = 2; room = 3; marks = update (update (λ b. false) 1 true) 2 true };
    cells = update (λ b. none) 2 (some 10);
  };
}

pub one-IsSound : (t : Thread) → t.handle ≡ 2 → IsSound (spin_api 0) system 3 system_laws (one t)
unfolding system_laws register_loop
one-IsSound t e = record {
  ready = record {
    table = register-IsTable 1 zeroed (λ e. omega arith) zeroed-IsTable;
    free = record { ready = refl; clear = refl };
  };
  owned =
      IsOwned-same _ _ _ _
        (IsOwned-make (λ a. none) (λ b. none) (λ b. false) zeroed nothing-IsOwned 1 2 10 t
          (λ e. omega arith) refl refl e (omega arith))
        _ _ _ _ (λ b. refl) (λ b. refl) (λ b. ground arith) refl;
}
