-- ===== src/Mutex/Spin/Examples.antt =====
-- Runs of the general mutex, after tests/test_mutex.c, and the theorems at concrete mutexes.
use tinytools.Mutex.Spin.Samples.{free_mutex, held_mutex}
use tinytools.Prelude.{ℕ, ◌<◌, ◌≡◌, ◌⊎◌, refl, true, false, some, none, arith, ◌==◌, if◌then◌else◌}
use tinytools.Prelude.Threads.{update}
use tinytools.Types.{success, null_pointer, busy}
use tinytools.Mutex.Spin.{SpinMutex, test_and_set, init, destroy, spin, unlock, trylock, is_locked}
use tinytools.Mutex.Spin.Loop.{Locked, spin_returns}
use tinytools.Mutex.Spin.Exclusion.{
  Pc, System, enter_lock, try, step, Reach, start, next, mutual_exclusion, progress, Shows,
}

abbrev garbage : SpinMutex
garbage = record { lock = 77; initialized = false }

null_refused :
    (init none ≡ (null_pointer, none))
    × (unlock none ≡ (null_pointer, none))
    × (trylock none ≡ (null_pointer, none))
    × (destroy none ≡ (null_pointer, none))
    × (is_locked none ≡ false)
unfolding init unlock trylock destroy is_locked
null_refused = (refl, refl, refl, refl, refl)

init_garbage : init (some garbage) ≡ (success, some free_mutex)
unfolding init
init_garbage = refl

-- Another thread holds the mutex, and unlocks it before the second round.
abbrev released_later : ℕ → SpinMutex → SpinMutex
released_later f m = if f == 3 then record m { lock = 0 } else m

spin_returns_example : Locked (spin released_later 5 held_mutex)
spin_returns_example = spin_returns released_later 5 3 held_mutex (omega arith) (λ x. refl)

-- Thread 0 locks by trylock, thread 1 reaches the loop.
abbrev pc1 : ℕ → Pc
pc1 = update (λ _. Pc.outside) 0 Pc.inside

abbrev contended : System
contended = record { mutex = held_mutex; pc = update pc1 1 Pc.waiting }

at_start : Reach 2 (record { mutex = free_mutex; pc = λ _. Pc.outside })
unfolding init
at_start = start garbage refl

locked_by_0 : Reach 2 (record { mutex = held_mutex; pc = pc1 })
unfolding trylock test_and_set
locked_by_0 = next at_start (step 0 (omega arith) (try {e = success} refl))

reach_contended : Reach 2 contended
reach_contended = next locked_by_0 (step 1 (omega arith) (enter_lock refl))

mutual_exclusion_example : ◌≡◌ {A = ℕ} 0 0
mutual_exclusion_example =
    mutual_exclusion reach_contended 0 0 (omega arith) (omega arith) refl refl

progress_example :
    ((i : ℕ) × (i < 2) × (contended.pc i ≡ Pc.inside) × Shows held_mutex true busy)
    ⊎ (¬ ((i : ℕ) × (i < 2) × (contended.pc i ≡ Pc.inside)) × Shows held_mutex false success)
progress_example = progress reach_contended
