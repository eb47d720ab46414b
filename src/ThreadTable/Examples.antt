-- ===== src/ThreadTable/Examples.antt =====
-- Runs of the thread table on the general mutex; and the theorems at concrete states.
use tinytools.Mutex.Spin.Samples.{free_mutex}
use tinytools.Prelude.{
  ℕ, ◌≡◌, refl, true, false, Option, none, some, List, [], ◌∷◌, ◌==◌, if◌then◌else◌,
}
use tinytools.Types.{success, null_pointer, not_found}
use tinytools.Mutex.Spin.Api.{spin_api}
use tinytools.ThreadTable.{
  Entry, Table, zeroed, no_entry, find_loop, Globals, Call, registers, unregisters, run,
}
use tinytools.ThreadTable.Calls.{IsReady, zeroed-IsTable}
use tinytools.ThreadTable.Refine.{run_refines_bag, Holds}

abbrev entry : ℕ → Entry
entry x = record { thread = x; in_use = true }

-- Threads 7 and 9 with a free entry between them.
abbrev three : Table
three = entry 7 ∷ no_entry ∷ entry 9 ∷ []

-- The handle of thread `x` is `10 * x`; nothing else can be read.
abbrev handle_at : ℕ → Option ℕ
handle_at x = if x == 7 then some 70 else if x == 9 then some 90 else none

abbrev ready : Globals (spin_api 0)
ready = record { table = zeroed; mutex = free_mutex }

ready-IsReady : IsReady (spin_api 0) ready
ready-IsReady = record { table = zeroed-IsTable; free = record { ready = refl; clear = refl } }

abbrev calls : List Call
calls = registers 7 ∷ registers 0 ∷ registers 9 ∷ unregisters 7 ∷ unregisters 7 ∷ []

-- The search for the handle of thread 7 returns thread 9, and the other way round.
finds_the_other : (find_loop handle_at 70 three ≡ some 9) × (find_loop handle_at 90 three ≡ some 7)
unfolding find_loop
finds_the_other = (refl, refl)

run_refines_bag_example :
    (g' : Globals (spin_api 0)) × (run (spin_api 0) calls ready
      ≡ some (success ∷ null_pointer ∷ success ∷ success ∷ not_found ∷ [], g'))
    × IsReady (spin_api 0) g'
    × Holds g'.table (9 ∷ [])
run_refines_bag_example =
    run_refines_bag (spin_api 0) calls ready [] ready-IsReady
      (record { size = refl; same = λ x. refl })

abbrev fresh : Globals (spin_api 0)
fresh = record { table = three; mutex = record { lock = 1; initialized = false } }
