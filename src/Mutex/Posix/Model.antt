-- ===== src/Mutex/Posix/Model.antt =====
-- A concrete C library for the Linux mutex: a heap of `room` cells and error-checking pthread mutexes
-- that keeps `PthreadLaws` and records, in `fault`, a use of memory that is not what the call needs.
use tinytools.Prelude.{
  ℕ, ◌+◌, ◌-◌, ◌≡◌, ◌≢◌, refl, Bool, true, false, Option, none, some, ◌==◌, if◌then◌else◌, arith,
}
use tinytools.Prelude.Threads.{update, update_self}
use tinytools.Types.{success, mutex_destroy}
use tinytools.Mutex.Posix.{Pthreads, PosixMutex, destroy}
use tinytools.Mutex.Posix.Laws.{PthreadLaws}

pub data Cell : Type 0 where
  unallocated raw unlocked locked : Cell

pub record World : Type 0 where
  pub cells : ℕ → Cell
  pub next : ℕ
  pub room : ℕ
  pub live : ℕ
  pub fault : Bool

abbrev pub put_cell : ℕ → Cell → World → World
put_cell a c w = record w { cells = update w.cells a c }

abbrev pub faulted : World → World
faulted w = record w { fault = true }

abbrev malloc : World → ℕ × World
malloc w = if w.room == 0 then (0, w) else (
  w.next + 1,
  record w {
    cells = update w.cells (w.next + 1) raw;
    next = w.next + 1;
    room = w.room - 1;
    live = w.live + 1;
  },
)

-- What a call does to the state of its cell, with EBUSY as 16 and EINVAL as 22.
abbrev free_cell : ℕ → World → Cell → World
free_cell a w raw = record w { cells = update w.cells a unallocated; live = w.live - 1 }
free_cell a w _ = faulted w

abbrev init_cell : ℕ → World → Cell → ℕ × World
init_cell a w raw = (0, put_cell a unlocked w)
init_cell a w _ = (22, faulted w)

abbrev destroy_cell : ℕ → World → Cell → ℕ × World
destroy_cell a w unlocked = (0, put_cell a raw w)
destroy_cell a w locked = (16, w)
destroy_cell a w _ = (22, faulted w)

abbrev lock_cell : ℕ → World → Cell → Option (ℕ × World)
lock_cell a w unlocked = some (0, put_cell a locked w)
lock_cell a w locked = none
lock_cell a w _ = some (22, faulted w)

abbrev unlock_cell : ℕ → World → Cell → ℕ × World
unlock_cell a w locked = (0, put_cell a unlocked w)
unlock_cell a w _ = (22, faulted w)

abbrev trylock_cell : ℕ → World → Cell → ℕ × World
trylock_cell a w unlocked = (0, put_cell a locked w)
trylock_cell a w locked = (16, w)
trylock_cell a w _ = (22, faulted w)

abbrev pub library : Pthreads
library = record {
  World = World;
  malloc = malloc;
  free = λ a w. free_cell a w (w.cells a);
  pthread_mutex_init = λ a w. init_cell a w (w.cells a);
  pthread_mutex_destroy = λ a w. destroy_cell a w (w.cells a);
  pthread_mutex_lock = λ a w. lock_cell a w (w.cells a);
  pthread_mutex_unlock = λ a w. unlock_cell a w (w.cells a);
  pthread_mutex_trylock = λ a w. trylock_cell a w (w.cells a);
}

-- A cell in a given state, in a world that counts at least that cell.
abbrev Holds : Cell → ℕ → World → Type 0
Holds c a w = (w.cells a ≡ c) × (w.live ≢ 0)

open library use {
  malloc as alloc, free as release, pthread_mutex_init as p_init,
  pthread_mutex_destroy as p_destroy, pthread_mutex_unlock as p_unlock,
  pthread_mutex_trylock as p_trylock,
}

malloc-null : (w : World) → (alloc w).0 ≡ 0 → (alloc w).1.live ≡ w.live
malloc-null w e = ground arith

malloc-raw :
    (w : World)
    → (alloc w).0 ≢ 0
    → Holds raw (alloc w).0 (alloc w).1 × ((alloc w).1.live ≡ w.live + 1)
malloc-raw w n = ground arith

module _ (a : ℕ) (w : World) where
  free-live : Holds raw a w → (release a w).live + 1 ≡ w.live
  free-live h = ground arith

  init-unlocked : Holds raw a w → (p_init a w).0 ≡ 0 → Holds unlocked a (p_init a w).1
  init-unlocked h e = ground arith

  init-raw : Holds raw a w → (p_init a w).0 ≢ 0 → Holds raw a (p_init a w).1
  init-raw h n = ground arith

  init-live : (p_init a w).1.live ≡ w.live
  init-live = ground arith

  destroy-raw : Holds unlocked a w → ((p_destroy a w).0 ≡ 0) × Holds raw a (p_destroy a w).1
  destroy-raw h = ground arith

  destroy-live : (p_destroy a w).1.live ≡ w.live
  destroy-live = ground arith

  lock-locked :
      Holds unlocked a w
      → (w' : World) × (library.pthread_mutex_lock a w ≡ some (0, w')) × Holds locked a w'
  lock-locked h = (put_cell a locked w, ground arith, ground arith)

  lock-live :
      (r : ℕ) (w' : World) → library.pthread_mutex_lock a w ≡ some (r, w') → w'.live ≡ w.live
  lock-live r w' h = ground arith

  unlock-live : (p_unlock a w).1.live ≡ w.live
  unlock-live = ground arith

  unlock-unlocked : Holds locked a w → ((p_unlock a w).0 ≡ 0) × Holds unlocked a (p_unlock a w).1
  unlock-unlocked h = ground arith

  trylock-locked : Holds unlocked a w → ((p_trylock a w).0 ≡ 0) × Holds locked a (p_trylock a w).1
  trylock-locked h = ground arith

  trylock-busy : Holds locked a w → ((p_trylock a w).0 ≢ 0) × Holds locked a (p_trylock a w).1
  trylock-busy h = ground arith

unfoldable pub library_laws : PthreadLaws library
unfolding malloc-null malloc-raw free-live init-unlocked init-raw init-live destroy-raw destroy-live
    lock-locked lock-live unlock-live unlock-unlocked trylock-locked trylock-busy
library_laws = record {
  Raw = Holds raw;
  Unlocked = Holds unlocked;
  Locked = Holds locked;
  live = λ w. w.live;
  malloc_null = malloc-null;
  malloc_cell = malloc-raw;
  free_cell = free-live;
  init_done = init-unlocked;
  init_failed = init-raw;
  init_live = init-live;
  destroy_done = destroy-raw;
  destroy_live = destroy-live;
  lock_done = lock-locked;
  lock_live = lock-live;
  unlock_live = unlock-live;
  unlock_done = unlock-unlocked;
  trylock_done = trylock-locked;
  trylock_refused = trylock-busy;
}

-- The world after the cell at `a` is destroyed and freed.
abbrev pub without : ℕ → World → World
without a w = record w { cells = update (update w.cells a raw) a unallocated; live = w.live - 1 }

-- The first destroy of a mutex that nobody holds, and one of a mutex whose cell is not allocated.
destroy-unlocked :
    (m : PosixMutex) (w : World)
    → w.cells m.lock ≡ unlocked
    → destroy library (some m, w)
      ≡ (success, (some (record m { initialized = false }), without m.lock w))
unfolding destroy
destroy-unlocked m w h = rw (h, update_self) refl

destroy-unallocated :
    (m : PosixMutex) (w : World)
    → w.cells m.lock ≡ unallocated
    → destroy library (some m, w) ≡ (mutex_destroy, (some m, faulted w))
unfolding destroy
destroy-unallocated m w h = rw h refl

-- `tt_platform_mutex_destroy` does not ask whether the mutex is initialised: of two calls on one mutex
-- that nobody holds, the first succeeds and has freed the cell, with no fault; and the second hands the
-- address of the freed cell to `pthread_mutex_destroy`, a fault, and reports MUTEX_DESTROY.
pub destroy-destroy :
    (m : PosixMutex) (w : World)
    → w.cells m.lock ≡ unlocked
    → w.fault ≡ false
    → let (e1, h1) = destroy library (some m, w) in
      let (e2, h2) = destroy library h1 in
      (e1 ≡ success)
      × (h1.1.cells m.lock ≡ unallocated)
      × (h1.1.fault ≡ false)
      × (e2 ≡ mutex_destroy)
      × (h2.1 ≡ record h1.1 { fault = true })
destroy-destroy m w h f =
    rw
      (
        destroy-unlocked m w h,
        destroy-unallocated (record m { initialized = false }) (without m.lock w)
            (update_self (update w.cells m.lock raw) m.lock unallocated),
      )
      (refl, update_self (update w.cells m.lock raw) m.lock unallocated, f, refl, refl)
