-- ===== src/Thread/Unused/Freertos/Examples.antt =====
-- The theorems about lines 136 to 457 of src/tt_thread.c on FreeRTOS, at concrete states.
use tinytools.Mutex.Spin.Samples.{free_mutex}
use tinytools.Prelude.{
  ℕ, zero, suc, ◌+◌, ◌*◌, ◌<◌, ◌≤◌, ◌≡◌, ◌⊎◌, refl, true, none, some, ◌∷◌, if◌then◌else◌, replicate,
  ◌==◌, arith,
}
use tinytools.Prelude.Threads.{update}
use tinytools.Types.{success, thread_active}
use tinytools.Mutex.Spin.Api.{spin_api}
use tinytools.ThreadTable.{Table, no_entry, zeroed, register_loop}
use tinytools.ThreadTable.Loops.{register-IsTable}
use tinytools.ThreadTable.Calls.{zeroed-IsTable, IsReady}
use tinytools.Thread.Data.{running, terminated, Thread}
use tinytools.Thread.Unused.{create, destroy, new_thread}
use tinytools.Thread.Unused.Settled.{Undone, Done, create_settles}
use tinytools.Thread.Unused.Freertos.{Kernel, Pool, port, write, join, resume}
use tinytools.Thread.Unused.Freertos.Join.{IsAlive, found, join_cases, resume_revives}
use tinytools.Thread.Unused.Freertos.Task.{freertos-Settles, DeletedTwice, deleted_twice}

abbrev task : Thread
task = record {
  handle = 20;
  state = running;
  priority = 1;
  func = 9;
  arg = 7;
  name = 5;
  stack_size = 512;
  retval = 0;
  is_active = true;
}

-- The world is the last address that was handed out.
abbrev kernel : Kernel
kernel = record {
  World = ℕ;
  malloc = λ w. (w + 1, w + 1);
  garbage = λ w. task;
  free = λ a w. w;
  tt_thread_name = 5;
  default_stack_size = 512;
  task_create = λ func name stack arg prio w. (1, 20 * arg, w);
  task_delete = λ handle w. w;
  task_delay = λ ticks w. w;
  task_priority_set = λ handle prio w. w;
  task_suspend = λ handle w. w;
  task_resume = λ handle w. w;
  current_task = λ w. 20;
  ms_to_ticks = λ ms. ms;
}

abbrev table : Table
table = record { thread = 1; in_use = true } ∷ replicate 31 no_entry

-- The task at 1, in the table.
abbrev one : Pool (spin_api 0) kernel 3
one = record {
  heap = update (λ a. none) 1 (some task);
  globals = record { table = table; mutex = free_mutex };
  world = 1;
}

one-IsReady : IsReady (spin_api 0) one.globals
unfolding register_loop
one-IsReady = record {
  table = register-IsTable 1 zeroed (λ e. omega arith) zeroed-IsTable;
  free = record { ready = refl; clear = refl };
}

create_settles_example :
    Undone
      (spin_api 0)
      (port kernel 3)
      (freertos-Settles kernel 3)
      one
      (create (spin_api 0) (port kernel 3) true none 9 7 one)
    ⊎ Done
        (spin_api 0)
        (port kernel 3)
        (freertos-Settles kernel 3)
        2
        (new_thread (spin_api 0) (port kernel 3) task none 9 7)
        one
        (create (spin_api 0) (port kernel 3) true none 9 7 one)
create_settles_example =
    create_settles (spin_api 0) (port kernel 3) (freertos-Settles kernel 3) true none 9 7 one refl
      one-IsReady

-- A function that returns the sum of its own address and its argument.
abbrev sums : ℕ → ℕ → Pool (spin_api 0) kernel 3 → ℕ × Pool (spin_api 0) kernel 3
sums func arg s = (func + arg, s)

deleted_twice_example :
    DeletedTwice (spin_api 0) kernel 3 sums 1 16 task one (write (spin_api 0) kernel 3 one 1 task)
deleted_twice_example =
    deleted_twice (spin_api 0) kernel 3 sums 1 16 task task one
      (write (spin_api 0) kernel 3 one 1 task) (λ e. omega arith) refl refl refl (omega arith)
      one-IsReady

-- During the second delay the task ends, with the value 8.
abbrev ends_late : ℕ → Pool (spin_api 0) kernel 3 → Pool (spin_api 0) kernel 3
ends_late i s =
    if i == 1
    then write (spin_api 0) kernel 3 s 1 (record task { state = terminated; retval = 8 })
    else s

late :
    (m : ℕ)
    → m < 2
    → IsAlive (spin_api 0) kernel 3 ends_late 1 (found (spin_api 0) kernel 3 ends_late 0 m one)
unfolding found
late zero h = (task, refl, refl)
late (suc zero) h = (task, refl, refl)
late (suc (suc m)) h = absurd (omega arith)

join_cases_example :
    (2 < 5)
      × (join (spin_api 0) kernel 3 ends_late 5 1 one
          ≡ some ((success, 8), found (spin_api 0) kernel 3 ends_late 0 2 one))
    ⊎ (5 ≤ 2) × (join (spin_api 0) kernel 3 ends_late 5 1 one ≡ none)
unfolding found
join_cases_example =
    join_cases (spin_api 0) kernel 3 ends_late 1 2 5 one
      (record task { state = terminated; retval = 8 }) (λ e. omega arith) late refl refl

resume_revives_example :
    (s' : Pool (spin_api 0) kernel 3) × (resume (spin_api 0) kernel 3 1 one ≡ some (success, s'))
    × (destroy (spin_api 0) (port kernel 3) 1 s' ≡ some (thread_active, s'))
    × ((fuel : ℕ) → join (spin_api 0) kernel 3 (λ i s. s) fuel 1 s' ≡ none)
resume_revives_example =
    resume_revives (spin_api 0) kernel 3 (λ i s. s) 1 task one (λ e. omega arith) refl (λ i s. refl)
