-- ===== src/Thread/Unused/Pthread/Laws.antt =====
-- What lines 136 to 457 of src/tt_thread.c rely on of the C library for their memory: `malloc` hands out a
-- cell that is not in use, or NULL; `free` gives one back; and no other call allocates or frees any.
use tinytools.Prelude.{ℕ, ◌≡◌, ◌≢◌, Bool, true, false, some}
use tinytools.Prelude.Threads.{update}
use tinytools.Prelude.Int.{ℤ}
use tinytools.Thread.Data.{System}

module _ (sys : System) where
  open sys use {
    World, malloc, free, pthread_attr_init, pthread_attr_setstacksize, pthread_attr_destroy,
    pthread_create, pthread_join, pthread_detach, pthread_setschedparam, nanosleep,
  }

  pub record HeapLaws : Type 1 where
    -- Which cells are allocated.
    pub live : World → ℕ → Bool
    pub malloc_null : (w : World) → (malloc w).0 ≡ 0 → (b : ℕ) → live (malloc w).1 b ≡ live w b
    pub malloc_cell :
        (w : World)
        → (malloc w).0 ≢ 0
        → (live w (malloc w).0 ≡ false)
          × ((b : ℕ) → live (malloc w).1 b ≡ update (live w) (malloc w).0 true b)
    pub free_cell :
        (a : ℕ) (w : World)
        → live w a ≡ true
        → (b : ℕ) → live (free a w) b ≡ update (live w) a false b
    pub attr_init_live : (w : World) (b : ℕ) → live (pthread_attr_init w).1 b ≡ live w b
    pub setstacksize_live :
        (n : ℕ) (w : World) (b : ℕ) → live (pthread_attr_setstacksize n w).1 b ≡ live w b
    pub attr_destroy_live : (w : World) (b : ℕ) → live (pthread_attr_destroy w) b ≡ live w b
    pub create_live :
        (func arg : ℕ) (w : World) (b : ℕ) → live (pthread_create func arg w).2 b ≡ live w b
    pub join_live :
        (h r v : ℕ) (w w' : World)
        → pthread_join h w ≡ some (r, v, w')
        → (b : ℕ) → live w' b ≡ live w b
    pub detach_live : (h : ℕ) (w : World) (b : ℕ) → live (pthread_detach h w).1 b ≡ live w b
    pub setschedparam_live :
        (h : ℕ) (n : ℤ) (w : World) (b : ℕ) → live (pthread_setschedparam h n w).1 b ≡ live w b
    pub nanosleep_live : (m n : ℕ) (w : World) (b : ℕ) → live (nanosleep m n w).1 b ≡ live w b
