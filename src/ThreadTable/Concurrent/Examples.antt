-- ===== src/ThreadTable/Concurrent/Examples.antt =====
-- The theorems about a shared table of src/tt_thread_internal.c, at a concrete run of two threads.
use tinytools.Prelude.{ℕ, suc, ◌<◌, ◌≡◌, refl, true, [], ◌∷◌, replicate, arith, zero}
use tinytools.Prelude.Threads.{update}
use tinytools.Types.{TtError, success}
use tinytools.Mutex.Spin.{test_and_set, init}
use tinytools.Mutex.Spin.Samples.{free_mutex, held_mutex}
use tinytools.Mutex.Spin.Shared.{
  Pc, idle, waiting, working, leaving, starts, round, stops, step, start, next,
}
use tinytools.Mutex.Spin.Shared.Logs.{calls, answers}
use tinytools.Mutex.Spin.Shared.Known.{IsWorking}
use tinytools.ThreadTable.{Table, no_entry, Call, registers}
use tinytools.ThreadTable.Loops.{IsTable}
use tinytools.ThreadTable.Refine.{Holds, spec_run}
use tinytools.ThreadTable.Concurrent.{System, Reach, pass, register_pass}
use tinytools.ThreadTable.Concurrent.Linear.{serializable}

abbrev outside : ℕ → Pc Call TtError
outside i = idle

abbrev table : Table
table = record { thread = 7; in_use = true } ∷ replicate 31 no_entry

-- Thread 0 registers the thread 7 while thread 1 waits to register the thread 8.
abbrev both_wait : ℕ → Pc Call TtError
both_wait = update (update outside 0 (waiting (registers 7))) 1 (waiting (registers 8))

abbrev one_loops : ℕ → Pc Call TtError
one_loops = update (update both_wait 0 (working (registers 7) 0)) 1 (waiting (registers 8))

abbrev one_leaves : System
one_leaves = record {
  shared = table;
  mutex = held_mutex;
  pc = update one_loops 0 (leaving success);
  log = (registers 7, success) ∷ [];
}

reached : Reach 2 one_leaves
unfolding init test_and_set pass register_pass
reached =
    next
      (next
        (next
          (next
            (next (start free_mutex refl)
              (step 0 (omega arith) (starts (registers 7) (λ e. omega arith) tt refl)))
            (step 1 (omega arith) (starts (registers 8) (λ e. omega arith) tt refl)))
          (step 0 (omega arith) (round (registers 7) refl)))
        (step 1 (omega arith) (round (registers 8) refl)))
      (step 0 (omega arith) (stops (registers 7) 0 success table refl))

nobody : (i : ℕ) → i < 2 → ¬ IsWorking (one_leaves.pc i)
nobody zero lt w = w
nobody (suc zero) lt w = w
nobody (suc (suc i)) lt w = omega arith

serializable_example :
    IsTable table
    × Holds table (spec_run (calls ((registers 7, success) ∷ [])) []).1
    × (answers ((registers 7, success) ∷ [])
        ≡ (spec_run (calls ((registers 7, success) ∷ [])) []).0)
serializable_example = serializable reached nobody
