-- ===== src/Mutex/Posix/Laws.antt =====
-- What src/platform/linux/tt_platform_linux.c relies on of the C library: the documented behaviour of
-- `malloc`, `free` and the default pthread mutex, as predicates on the world.
use tinytools.Prelude.{ℕ, ◌+◌, ◌≡◌, ◌≢◌, some}
use tinytools.Mutex.Posix.{Pthreads}

module _ (p : Pthreads) where
  open p use {
    World, malloc, free, pthread_mutex_init, pthread_mutex_destroy, pthread_mutex_lock,
    pthread_mutex_unlock, pthread_mutex_trylock,
  }

  pub record PthreadLaws : Type 1 where
    -- The state of the cell at an address: allocated, or a mutex, held or not.
    pub Raw : ℕ → World → Type 0
    pub Unlocked : ℕ → World → Type 0
    pub Locked : ℕ → World → Type 0
    -- How many cells are allocated.
    pub live : World → ℕ
    pub malloc_null : (w : World) → (malloc w).0 ≡ 0 → live (malloc w).1 ≡ live w
    pub malloc_cell :
        (w : World)
        → (malloc w).0 ≢ 0
        → Raw (malloc w).0 (malloc w).1 × (live (malloc w).1 ≡ live w + 1)
    pub free_cell : (a : ℕ) (w : World) → Raw a w → live (free a w) + 1 ≡ live w
    -- Initialisation makes a mutex that nobody holds, or fails and leaves the cell.
    pub init_done :
        (a : ℕ) (w : World)
        → Raw a w
        → (pthread_mutex_init a w).0 ≡ 0
        → Unlocked a (pthread_mutex_init a w).1
    pub init_failed :
        (a : ℕ) (w : World)
        → Raw a w
        → (pthread_mutex_init a w).0 ≢ 0
        → Raw a (pthread_mutex_init a w).1
    pub init_live : (a : ℕ) (w : World) → live (pthread_mutex_init a w).1 ≡ live w
    -- A mutex that nobody holds can be destroyed.
    pub destroy_done :
        (a : ℕ) (w : World)
        → Unlocked a w
        → ((pthread_mutex_destroy a w).0 ≡ 0) × Raw a (pthread_mutex_destroy a w).1
    pub destroy_live : (a : ℕ) (w : World) → live (pthread_mutex_destroy a w).1 ≡ live w
    -- Locking a mutex that nobody holds succeeds without waiting.
    pub lock_done :
        (a : ℕ) (w : World)
        → Unlocked a w
        → (w' : World) × (pthread_mutex_lock a w ≡ some (0, w')) × Locked a w'
    pub lock_live :
        (a : ℕ) (w : World) (r : ℕ) (w' : World)
        → pthread_mutex_lock a w ≡ some (r, w')
        → live w' ≡ live w
    pub unlock_live : (a : ℕ) (w : World) → live (pthread_mutex_unlock a w).1 ≡ live w
    pub unlock_done :
        (a : ℕ) (w : World)
        → Locked a w
        → ((pthread_mutex_unlock a w).0 ≡ 0) × Unlocked a (pthread_mutex_unlock a w).1
    pub trylock_done :
        (a : ℕ) (w : World)
        → Unlocked a w
        → ((pthread_mutex_trylock a w).0 ≡ 0) × Locked a (pthread_mutex_trylock a w).1
    pub trylock_refused :
        (a : ℕ) (w : World)
        → Locked a w
        → ((pthread_mutex_trylock a w).0 ≢ 0) × Locked a (pthread_mutex_trylock a w).1
