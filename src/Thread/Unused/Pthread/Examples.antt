-- ===== src/Thread/Unused/Pthread/Examples.antt =====
-- The theorems about lines 136 to 457 of src/tt_thread.c on Linux, at concrete states.
use tinytools.Prelude.{◌≡◌, ◌⊎◌, ◌↔◌, ◌*◌, ◌+◌, ◌%◌, ◌>>=◌, refl, true, none, some, [], ◌∷◌, arith}
use tinytools.Prelude.Threads.{update}
use tinytools.Types.{success}
use tinytools.Mutex.Spin
use tinytools.Mutex.Spin.Api.{spin_api}
use tinytools.ThreadTable.{register, locked, register_loop}
use tinytools.Thread.Data.{Thread}
use tinytools.Thread.Linux
use tinytools.Thread.Unused
use tinytools.Thread.Unused.{create, destroy}
use tinytools.Thread.Unused.Pthread.{
  Pool, port, timespec, set_priority, start, prepare, launch, run, routine_result, ends, joins,
  destroys, returns, creates, sleeps,
}
use tinytools.Thread.Unused.Pthread.Model.{system, system_laws, blank}
use tinytools.Thread.Unused.Pthread.Owned.{IsOwned-same}
use tinytools.Thread.Unused.Pthread.Sound.{Failed, Made}
use tinytools.Thread.Unused.Pthread.Creation.{create_all_cases}
use tinytools.Thread.Unused.Pthread.Invariant.{Stops, run_cases}
use tinytools.Thread.Unused.Pthread.Life.{destroyed_too_soon, Completed, life}
use tinytools.Thread.Unused.Pthread.Shipped.{view, sleep_truncated, set_priority_same}
use tinytools.Thread.Unused.Pthread.Kept.{Kept}
use tinytools.Thread.Unused.Pthread.Samples.{nothing, nothing-IsSound, alive, one, one-IsSound}

create_all_cases_example :
    Failed
      (spin_api 0)
      system
      3
      system_laws
      nothing
      (create (spin_api 0) (port system 3) true none 9 7 nothing)
    ⊎ Made
        (spin_api 0)
        system
        3
        system_laws
        nothing
        (create (spin_api 0) (port system 3) true none 9 7 nothing)
create_all_cases_example =
    create_all_cases (spin_api 0) system 3 system_laws true none 9 7 nothing nothing-IsSound

run_cases_example :
    Kept
      (spin_api 0)
      system
      3
      system_laws
      (run (spin_api 0) system 3 (creates true none 9 7 ∷ sleeps 10 ∷ joins 4 ∷ []) nothing)
    ⊎ (run (spin_api 0) system 3 (creates true none 9 7 ∷ sleeps 10 ∷ joins 4 ∷ []) nothing ≡ none)
      × Stops
          (spin_api 0)
          system
          3
          system_laws
          (creates true none 9 7 ∷ sleeps 10 ∷ joins 4 ∷ [])
          nothing
run_cases_example =
    run_cases (spin_api 0) system 3 system_laws (creates true none 9 7 ∷ sleeps 10 ∷ joins 4 ∷ [])
      nothing nothing-IsSound

destroyed_too_soon_example :
    (s' : Pool (spin_api 0) system 3) × (run
        (spin_api 0)
        system
        3
        (ends 1 7 ∷ destroys 1 ∷ [])
        (one alive)
      ≡ some s')
    × (routine_result (spin_api 0) system 3 1 s' ≡ none)
    × (run (spin_api 0) system 3 (ends 1 7 ∷ destroys 1 ∷ returns 1 ∷ []) (one alive) ≡ none)
destroyed_too_soon_example =
    destroyed_too_soon (spin_api 0) system 3 system_laws 1 7 alive (one alive)
      (one-IsSound alive refl) refl (λ e. omega arith)

-- The thread that a creation makes of nothing.
abbrev new : Thread
new = Unused.new_thread (spin_api 0) (port system 3) blank none 9 7

abbrev created_one : Pool (spin_api 0) system 3
created_one = record (one new) {
  heap = update (update (λ a. none) 1 (some new)) 1 (some (record new { handle = 2 }));
}

create-nothing :
    create (spin_api 0) (port system 3) true none 9 7 nothing
    ≡ some ((success, some 1), created_one)
unfolding Unused.create Unused.new_thread Unused.proceed Unused.enroll start prepare launch register
    locked register_loop Spin.lock Spin.unlock Spin.spin Spin.test_and_set Spin.atomic_clear
    Unused.attr_or Unused.default_attrs
create-nothing = refl

made :
    Made
      (spin_api 0)
      system
      3
      system_laws
      nothing
      (create (spin_api 0) (port system 3) true none 9 7 nothing)
unfolding Unused.new_thread register_loop
made = record {
  thread = 1;
  new = record new { handle = 2 };
  pthread = 10;
  last = created_one;
  returned = create-nothing;
  sound = record {
    ready = (one-IsSound (record new { handle = 2 }) refl).ready;
    owned =
        IsOwned-same _ _ _ _ (one-IsSound (record new { handle = 2 }) refl).owned _ _ _ _
          (λ b. ground arith) (λ b. refl) (λ b. refl) refl;
  };
  is_created = refl;
  nonnull = λ e. omega arith;
  vacant = refl;
  room = omega arith;
  heap = λ b. ground arith;
  no_cell = refl;
  cells = λ b. refl;
  table = refl;
}

life_example :
    Completed
      (spin_api 0)
      system
      3
      system_laws
      1
      7
      2
      10
      created_one.world.system
      nothing
      created_one
unfolding made
life_example =
    life (spin_api 0) system 3 system_laws true none 9 7 7 10 nothing created_one.world.system
      nothing-IsSound made refl

-- A second and a half.
sleep_truncated_example :
    ((timespec 1500).1 ≡ 0)
    × ((timespec 1500).0 * 1000 + 1500 % 1000 ≡ 1500)
    × ((timespec 1500 ≡ Linux.timespec 1500) ↔ (1500 % 1000 ≡ 0))
sleep_truncated_example = sleep_truncated 1500

set_priority_same_example :
    (do
      (e, s') ← set_priority (spin_api 0) system 3 1 2 (one alive)
      some (e, view (spin_api 0) system 3 s'))
    ≡ Linux.set_priority (spin_api 0) system 1 2 (view (spin_api 0) system 3 (one alive))
set_priority_same_example =
    set_priority_same (spin_api 0) system 3 1 2 (one alive) (λ h. ground arith)
