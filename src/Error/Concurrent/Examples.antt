-- ===== src/Error/Concurrent/Examples.antt =====
-- The theorems about concurrent calls of src/tt_error.c, at a concrete run: thread 1 waits with a
-- `tt_error_get_last` while thread 0 sets an error. A callback is a number.
use tinytools.Prelude.{
  zero, suc, ◌<◌, false, length, ◌+◌, ℕ, ◌≡◌, refl, none, List, [], ◌∷◌, ◌++◌, arith,
}
use tinytools.Prelude.Threads.{update}
use tinytools.Types.{memory}
use tinytools.Mutex.Spin.{init, test_and_set, unlock, atomic_clear}
use tinytools.Mutex.Spin.Samples.{free_mutex, held_mutex}
use tinytools.Mutex.Spin.Shared.{
  Pc, idle, waiting, working, leaving, starts, round, passes, stops, leaves, step,
}
use tinytools.Mutex.Spin.Shared.Logs.{calls}
use tinytools.Mutex.Spin.Shared.Later.{pending, Later, now, then_step}
use tinytools.Mutex.Spin.Shared.Live.{AllEnded}
use tinytools.Error.Concurrent.Drain.{bounded, drained}
use tinytools.Error.Concurrent.{
  Fields, deinits, done, Op, sets, gets, Answer, value, told, pass, fresh, System, Reach, inits,
  acts, inits_again, initialised, Admits,
}
use tinytools.Error.Concurrent.Answers.{expected, concurrent_answers}

abbrev outside : ℕ → Pc (Op ℕ) (Answer ℕ)
outside i = idle

abbrev both_wait : ℕ → Pc (Op ℕ) (Answer ℕ)
both_wait = update (update outside 0 (waiting (sets memory))) 1 (waiting gets)

abbrev set_ends : ℕ → Pc (Op ℕ) (Answer ℕ)
set_ends =
    update
      (update (update (update both_wait 0 (working (sets memory) 0)) 0 (working (sets memory) 1)) 0
        (leaving (told none)))
      0 idle

abbrev got : System ℕ
got = record {
  shared = record fresh { last_error = memory };
  mutex = held_mutex;
  pc = update (update set_ends 1 (working gets 0)) 1 (leaving (value memory));
  log = (sets memory, told none) ∷ (gets, value memory) ∷ [];
}

reached : Reach 2 got
unfolding init test_and_set unlock atomic_clear pass
reached =
    acts
      (acts
        (acts
          (acts
            (acts
              (acts
                (acts
                  (acts (inits free_mutex refl)
                    (step 0 (omega arith) (starts (sets memory) tt refl refl)))
                  (step 1 (omega arith) (starts gets tt refl refl)))
                (step 0 (omega arith) (round (sets memory) refl)))
              (step 0 (omega arith)
                (passes (sets memory) 0 (record fresh { last_error = memory }) refl)))
            (step 0 (omega arith)
              (stops (sets memory) 1 (told none) (record fresh { last_error = memory }) refl)))
          (step 0 (omega arith) (leaves (told none) refl)))
        (step 1 (omega arith) (round gets refl)))
      (step 1 (omega arith)
        (stops gets 0 (value memory) (record fresh { last_error = memory }) refl))

concurrent_answers_example :
    (before : List (Op ℕ × Answer ℕ)) × (c : Op ℕ) × (got.log ≡ before ++ ((c, value memory) ∷ []))
    × (value memory ≡ expected (calls before) c)
concurrent_answers_example = concurrent_answers 1 (value memory) reached (omega arith) refl

-- Thread 0 has cleared `initialized` while thread 1 waits to set an error.
abbrev wait_to_set : ℕ → Pc (Op ℕ) (Answer ℕ)
wait_to_set = update (update outside 0 (waiting deinits)) 1 (waiting (sets memory))

abbrev off : Fields ℕ
off = record fresh { callback = none; initialized = false }

abbrev closed_pc : ℕ → Pc (Op ℕ) (Answer ℕ)
closed_pc =
    update (update (update wait_to_set 0 (working deinits 0)) 0 (working deinits 1)) 0
      (leaving done)

abbrev closed : System ℕ
closed = record { shared = off; mutex = held_mutex; pc = closed_pc; log = (deinits, done) ∷ [] }

closed-Reach : Reach 2 closed
unfolding init test_and_set pass
closed-Reach =
    acts
      (acts
        (acts
          (acts (acts (inits free_mutex refl) (step 0 (omega arith) (starts deinits tt refl refl)))
            (step 1 (omega arith) (starts (sets memory) tt refl refl)))
          (step 0 (omega arith) (round deinits refl)))
        (step 0 (omega arith) (passes deinits 0 (record fresh { callback = none }) refl)))
      (step 0 (omega arith) (stops deinits 1 done off refl))

-- And then it unlocks.
abbrev left_it : System ℕ
left_it = record closed { mutex = free_mutex; pc = update closed_pc 0 idle }

one-Later : Later pass (λ c. Unit) Admits 2 closed left_it
unfolding unlock atomic_clear
one-Later = then_step now (step 0 (omega arith) (leaves done refl))

drained_example :
    (false ≡ false)
    × (length left_it.log + pending 2 left_it ≡ length closed.log + pending 2 closed)
    × AllEnded pass (λ c. Unit) Admits bounded 2 left_it
drained_example = drained closed-Reach refl one-Later

-- A thread clears `initialized` while no other is in a call, and initialises the module again.
abbrev alone_pc : ℕ → Pc (Op ℕ) (Answer ℕ)
alone_pc =
    update
      (update
        (update (update (update outside 0 (waiting deinits)) 0 (working deinits 0)) 0
          (working deinits 1))
        0 (leaving done))
      0 idle

abbrev ended : System ℕ
ended = record { shared = off; mutex = free_mutex; pc = alone_pc; log = (deinits, done) ∷ [] }

ended-Reach : Reach 1 ended
unfolding init test_and_set unlock atomic_clear pass
ended-Reach =
    acts
      (acts
        (acts
          (acts (acts (inits free_mutex refl) (step 0 (omega arith) (starts deinits tt refl refl)))
            (step 0 (omega arith) (round deinits refl)))
          (step 0 (omega arith) (passes deinits 0 (record fresh { callback = none }) refl)))
        (step 0 (omega arith) (stops deinits 1 done off refl)))
      (step 0 (omega arith) (leaves done refl))

all_idle : (i : ℕ) → i < 1 → alone_pc i ≡ idle
all_idle zero lt = refl
all_idle (suc i) lt = absurd (omega (arith, lt))

used_again : Reach {Callback = ℕ} 1 (initialised free_mutex)
unfolding init
used_again = inits_again ended-Reach refl all_idle refl
