-- ===== src/Thread/Api/Examples.antt =====
-- A system whose heap never runs out and whose threads end at once; and the theorems at concrete
-- states.
mod FullTable
use tinytools.Mutex.Spin.Samples.{free_mutex}
use tinytools.Prelude.{
  inl, zero, suc, ℕ, ◌+◌, ◌<◌, ◌*◌, ◌≡◌, ◌⊎◌, refl, sym, ◌∙◌, replicate, true, false, none, some,
  [], ◌∷◌, if◌then◌else◌, arith, ◌==◌,
}
use tinytools.Prelude.Int.{pos, ◌≤ℤ◌}
use tinytools.Types.{success, thread_active, not_found}
use tinytools.Mutex.Spin.{SpinMutex}
use tinytools.Mutex.Spin.Api.{spin_api}
use tinytools.Prelude.Threads.{update, update_ne}
use tinytools.ThreadTable.Loops.{AllOk, register-IsTable}
use tinytools.Mutex.Spin
use tinytools.Thread.Linux
use tinytools.ThreadTable.{Entry, Table, register, locked, register_loop, zeroed, no_entry}
use tinytools.ThreadTable.Find.{AllHave, IsOther}
use tinytools.ThreadTable.Calls.{IsReady, zeroed-IsTable}
use tinytools.Thread.Data.{
  of_code, low, normal, high, realtime, terminated, is_terminated, running, Thread, System, Threads,
  handle_at,
}
use tinytools.Thread.Linux.{system_priority, timespec}
use tinytools.Thread.Linux.Priorities.{system_priority_lem}
use tinytools.Thread.Api.{
  create, destroy, creates, suspends, suspend, run, step, finish, enroll, new_thread, self,
}
use tinytools.Thread.Api.Enrollment.{Failed, Made}
use tinytools.Thread.Api.Creation.{prepared, create_cases, create_full}
use tinytools.Thread.Api.Lifecycle.{Ended, lifecycle}
use tinytools.ThreadTable.Loops.{copies}
use tinytools.Thread.Linux.Steps.{Destroyed}
use tinytools.Thread.Api.Heaps.{Ok, put, IsConsistent}
use tinytools.Thread.Api.Invariant.{run-IsConsistent}
use tinytools.Thread.Api.Destruction.{Refused, destroy_cases}
use tinytools.Thread.Api.Self.{self_cases}

abbrev blank : Thread
blank = record {
  handle = 0;
  state = running;
  priority = 0;
  func = 0;
  arg = 0;
  name = 0;
  stack_size = 0;
  retval = 0;
  is_active = false;
}

-- The world is the last address that was handed out; the handle of a thread is ten times its
-- argument, and its value the handle.
abbrev sys : System
sys = record {
  World = ℕ;
  malloc = λ w. (w + 1, w + 1);
  garbage = λ w. blank;
  free = λ a w. w;
  tt_thread_name = 5;
  pthread_attr_init = λ w. (0, w);
  pthread_attr_setstacksize = λ n w. (0, w);
  pthread_attr_destroy = λ w. w;
  pthread_create = λ func arg w. (0, 10 * arg, w);
  pthread_join = λ handle w. some (0, handle, w);
  pthread_detach = λ handle w. (0, w);
  pthread_self = λ w. 70;
  pthread_setschedparam = λ handle n w. (0, w);
  pthread_exit = λ retval w. none;
  sched_get_priority_min = λ w. pos 0;
  sched_get_priority_max = λ w. pos 0;
  nanosleep = λ sec nsec w. (0, w);
  read_word = λ a w. some a;
}

abbrev start : Threads (spin_api 0) sys
start = record {
  heap = λ a. none;
  globals = record { table = zeroed; mutex = free_mutex };
  world = 0;
}

start-IsReady : IsReady (spin_api 0) start.globals
start-IsReady = record { table = zeroed-IsTable; free = record { ready = refl; clear = refl } }

create_cases_example :
    Failed (spin_api 0) sys start (create (spin_api 0) sys true none 9 7 start)
    ⊎ Made
        (spin_api 0)
        sys
        1
        (prepared (spin_api 0) sys none 9 7 start)
        start
        (create (spin_api 0) sys true none 9 7 start)
create_cases_example =
    create_cases (spin_api 0) sys none 9 7 start (λ e. omega arith) refl start-IsReady

-- The thread that this creation makes, at address 1.
abbrev thread : Thread
thread = prepared (spin_api 0) sys none 9 7 start

-- The table and the state after it.
abbrev table : Table
table = record { thread = 1; in_use = true } ∷ replicate 31 no_entry

abbrev after : Threads (spin_api 0) sys
after = record {
  heap = update (update (λ a. none) 1 (some thread)) 1 (some (record thread { handle = 70 }));
  globals = record { table = table; mutex = free_mutex };
  world = 1;
}

create-start : create (spin_api 0) sys true none 9 7 start ≡ some ((success, some 1), after)
unfolding create finish enroll new_thread Linux.create Linux.start Linux.set_stack_size register
    locked register_loop Spin.lock Spin.unlock Spin.spin Spin.test_and_set Spin.atomic_clear
create-start = refl

made : Made (spin_api 0) sys 1 thread start (create (spin_api 0) sys true none 9 7 start)
unfolding new_thread register_loop
made = record {
  last = after;
  handle = 70;
  returned = create-start;
  ready = record {
    table = register-IsTable 1 zeroed (λ e. omega arith) zeroed-IsTable;
    free = record { ready = refl; clear = refl };
  };
  heap = λ b. ground arith;
  room = omega arith;
  table = refl;
}

lifecycle_example : Ended (spin_api 0) sys 1 70 start after 1
unfolding made
lifecycle_example =
    lifecycle (spin_api 0) sys none 9 7 1 thread start 70 1 made (λ e. omega arith) refl refl
      start-IsReady refl

-- Threads 7 and 9 in the table, with the handles 70 and 90; the caller is thread 7.
abbrev pair : Threads (spin_api 0) sys
pair = record {
  heap = λ a.
      if a == 7
      then some (record blank { handle = 70 })
      else if a == 9
      then some (record blank { handle = 90 })
      else none;
  globals = record {
    table =
        record { thread = 7; in_use = true } ∷ no_entry ∷ record { thread = 9; in_use = true } ∷ [];
    mutex = free_mutex;
  };
  world = 9;
}

self_cases_example :
    (x : ℕ) × (last : Threads (spin_api 0) sys) × (self (spin_api 0) sys pair ≡ some (x, last))
    × (last.heap ≡ pair.heap)
    × (last.globals.table ≡ pair.globals.table)
    × (spin_api 0).IsFree last.globals.mutex
    × ((x ≡ 0) × AllHave (handle_at (spin_api 0) sys pair) 70 pair.globals.table
        ⊎ IsOther (handle_at (spin_api 0) sys pair) 70 pair.globals.table x)
self_cases_example =
    self_cases (spin_api 0) sys pair (record { ready = refl; clear = refl })
      ((λ u. (70, refl)), ((λ u. absurd (ground arith)), ((λ u. (90, refl)), tt)))

-- From the empty heap: one thread is created, joined and destroyed.
nothing : IsConsistent start.heap
nothing a = tt

run-start : run (spin_api 0) sys (creates true none 9 7 ∷ suspends 1 ∷ []) start ≡ some after
unfolding run step suspend Linux.suspend
run-start = rw create-start refl

run-IsConsistent_example : IsConsistent after.heap
run-IsConsistent_example =
    run-IsConsistent (spin_api 0) sys (creates true none 9 7 ∷ suspends 1 ∷ []) start after nothing
      run-start

-- A thread that was joined, in the table, and its destruction.
abbrev joined : Threads (spin_api 0) sys
joined = record {
  heap = update (λ a. none) 1 (some (record blank { state = terminated }));
  globals = record { table = table; mutex = free_mutex };
  world = 1;
}

destroy_cases_example :
    (is_terminated terminated ≡ false)
      × (destroy (spin_api 0) sys 1 joined ≡ some (thread_active, joined))
    ⊎ (is_terminated terminated ≡ true)
      × ((0 < copies 1 table)
            × Destroyed (spin_api 0) sys 1 joined (destroy (spin_api 0) sys 1 joined)
          ⊎ (copies 1 table ≡ 0)
            × Refused (spin_api 0) sys joined (destroy (spin_api 0) sys 1 joined))
unfolding made
destroy_cases_example =
    destroy_cases (spin_api 0) sys 1 (record blank { state = terminated }) joined (λ e. omega arith)
      refl (put (λ a. none) 1 (some (record blank { state = terminated })) nothing refl) made.ready

system_priority_lem_example :
    (pos 1 ≤ℤ system_priority (pos 1) (pos 99) normal)
    × (system_priority (pos 1) (pos 99) normal ≤ℤ system_priority (pos 1) (pos 99) high)
    × (system_priority (pos 1) (pos 99) high ≤ℤ pos 99)
    × (system_priority (pos 1) (pos 99) low ≡ pos 1)
    × (system_priority (pos 1) (pos 99) realtime ≡ pos 99)
system_priority_lem_example =
    system_priority_lem (pos 1) (pos 99) normal high (omega arith) (omega arith)
