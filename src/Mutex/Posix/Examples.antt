-- ===== src/Mutex/Posix/Examples.antt =====
-- The Linux mutex over the concrete C library, after tests/test_mutex.c, and the theorems there.
use tinytools.Prelude.{◌≡◌, ◌≢◌, ◌⊎◌, refl, true, false, some, arith}
use tinytools.Types.{success, memory, mutex_init, mutex_destroy}
use tinytools.Mutex.Posix.{PosixMutex, init, destroy}
use tinytools.Mutex.Posix.Calls.{IsFree, IsHeld, Ends, cell, made, mutex_init_cases}
use tinytools.Mutex.Posix.Model.{Cell, World, library, library_laws, destroy-destroy}

abbrev empty_heap : World
empty_heap = record { cells = λ _. Cell.unallocated; next = 0; room = 9; live = 0; fault = false }

abbrev garbage : PosixMutex
garbage = record { lock = 77; initialized = false }

abbrev mutex : PosixMutex
mutex = record { lock = 1; initialized = true }

-- The heap after `tt_mutex_init`, and after a lock.
abbrev one_free : World
one_free = record empty_heap { cells = λ _. Cell.unlocked; next = 1; room = 8; live = 1 }

abbrev one_held : World
one_held = record one_free { cells = λ _. Cell.locked }

mutex-IsFree : IsFree library library_laws (some mutex, one_free)
unfolding library_laws
mutex-IsFree = (refl, (refl, omega arith))

mutex-IsHeld : IsHeld library library_laws (some mutex, one_held)
unfolding library_laws
mutex-IsHeld = (refl, (refl, omega arith))

mutex_init_cases_example :
    (cell library library_laws garbage empty_heap ≢ 0)
      × ((made library library_laws garbage empty_heap).0 ≡ 0)
      × ((init library (some garbage, empty_heap)).0 ≡ success)
      × IsFree library library_laws (init library (some garbage, empty_heap)).1
      × ((init library (some garbage, empty_heap)).1.1.live ≡ 1)
    ⊎ (cell library library_laws garbage empty_heap ≡ 0)
      × Ends library library_laws (init library (some garbage, empty_heap)) memory garbage 0
    ⊎ (cell library library_laws garbage empty_heap ≢ 0)
      × ((made library library_laws garbage empty_heap).0 ≢ 0)
      × Ends library library_laws (init library (some garbage, empty_heap)) mutex_init garbage 0
unfolding library_laws
mutex_init_cases_example = mutex_init_cases library library_laws garbage empty_heap

destroy-destroy_example :
    let (e1, h1) = destroy library (some mutex, one_free) in
    let (e2, h2) = destroy library h1 in
    (e1 ≡ success)
    × (h1.1.cells 1 ≡ Cell.unallocated)
    × (h1.1.fault ≡ false)
    × (e2 ≡ mutex_destroy)
    × (h2.1 ≡ record h1.1 { fault = true })
destroy-destroy_example = destroy-destroy mutex one_free refl refl
