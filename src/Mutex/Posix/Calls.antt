-- ===== src/Mutex/Posix/Calls.antt =====
-- The Linux mutex over a C library that keeps its laws: every call on every branch, no leak in
-- `tt_platform_mutex_init`, and that it is the mutex that its clients rely on.
use tinytools.Prelude.{
  ℕ, ◌+◌, ◌≡◌, ◌≢◌, ◌⊎◌, inl, inr, refl, ◌∙◌, true, false, none, some, arith, ℕ_discrete,
  Option-cases,
}
use tinytools.Types.{TtError, success, invalid_param, memory, busy, mutex_init}
use tinytools.Mutex.{MutexApi}
use tinytools.Mutex.Posix.{
  Pthreads, PosixMutex, Heap, init, destroy, lock, unlock, trylock, is_locked,
}
use tinytools.Mutex.Posix.Laws.{PthreadLaws}

module _ (p : Pthreads) (laws : PthreadLaws p) where
  open p use {World, malloc, free, pthread_mutex_init, pthread_mutex_destroy, pthread_mutex_trylock}
  open laws use {live, Raw, Unlocked, Locked}

  -- The pointer points to an initialised mutex whose cell nobody holds, or somebody does.
  abbrev pub IsFree : Heap p → Type 0
  IsFree (none, w) = ⊥
  IsFree (some m, w) = (m.initialized ≡ true) × Unlocked m.lock w

  abbrev pub IsHeld : Heap p → Type 0
  IsHeld (none, w) = ⊥
  IsHeld (some m, w) = (m.initialized ≡ true) × Locked m.lock w

  -- A result: the status, the mutex, and how many cells are allocated.
  abbrev pub Ends : TtError × Heap p → TtError → (m : PosixMutex) → (cells : ℕ) → Type 0
  Ends (e, (m', w')) e0 m cells = (e ≡ e0) × (m' ≡ some m) × (live w' ≡ cells)

  module _ (m : PosixMutex) (w : World) where
    -- The address that `malloc` returns, and the world in which `pthread_mutex_init` leaves it.
    abbrev pub cell : ℕ
    cell = (malloc w).0

    abbrev pub made : ℕ × World
    made = pthread_mutex_init cell (malloc w).1

    abbrev fresh : PosixMutex
    fresh = record { lock = cell; initialized = true }

    init-memory : cell ≡ 0 → init p (some m, w) ≡ (memory, (some m, (malloc w).1))
    unfolding init
    init-memory h = ground arith

    init-mutex_init :
        cell ≢ 0 → made.0 ≢ 0 → init p (some m, w) ≡ (mutex_init, (some m, free cell made.1))
    unfolding init
    init-mutex_init h k = ground arith

    init-success : cell ≢ 0 → made.0 ≡ 0 → init p (some m, w) ≡ (success, (some fresh, made.1))
    unfolding init
    init-success h k = ground arith

    -- `tt_platform_mutex_init` succeeds where `malloc` gives a cell and `pthread_mutex_init` of it
    -- returns 0, with one more cell allocated and a mutex that nobody holds. Where `malloc` gives NULL
    -- it reports MEMORY, and where `pthread_mutex_init` fails, MUTEX_INIT, each with the mutex as it
    -- was and no cell lost.
    pub mutex_init_cases :
        (cell ≢ 0)
          × (made.0 ≡ 0)
          × ((init p (some m, w)).0 ≡ success)
          × IsFree (init p (some m, w)).1
          × (live (init p (some m, w)).1.1 ≡ live w + 1)
        ⊎ (cell ≡ 0) × Ends (init p (some m, w)) memory m (live w)
        ⊎ (cell ≢ 0) × (made.0 ≢ 0) × Ends (init p (some m, w)) mutex_init m (live w)
    mutex_init_cases = elim (ℕ_discrete cell 0) [
      | yes null ↦ rw (init-memory null) (inr (inl (null, (refl, refl, laws.malloc_null w null))))
      | no some_cell ↦
          let (raw, more) = laws.malloc_cell w some_cell in
          let kept = laws.init_live cell (malloc w).1 in
          elim (ℕ_discrete made.0 0) [
            | yes done ↦ rw (init-success some_cell done) (
                inl (
                  some_cell,
                  done,
                  refl,
                  (refl, laws.init_done cell (malloc w).1 raw done),
                  kept ∙ more,
                ))
            | no failed ↦
                let back =
                  laws.free_cell cell made.1 (laws.init_failed cell (malloc w).1 raw failed) in
                rw (init-mutex_init some_cell failed)
                  (inr (inr (some_cell, failed, (refl, refl, omega (arith, back, kept, more)))))
          ]
    ]

    destroy-success :
        (pthread_mutex_destroy m.lock w).0 ≡ 0
        → destroy p (some m, w) ≡ (
          success,
          (some (record m { initialized = false }), free m.lock (pthread_mutex_destroy m.lock w).1),
        )
    unfolding destroy
    destroy-success h = ground arith

    -- `tt_platform_mutex_destroy` of a mutex that nobody holds succeeds, gives its cell back and
    -- leaves the mutex not initialised, so that the other calls refuse it.
    pub destroy-refused :
        IsFree (some m, w)
        → let (e, (m', w')) = destroy p (some m, w) in
          (e ≡ success)
          × (live w' + 1 ≡ live w)
          × (lock p (m', w') ≡ some (invalid_param, (m', w')))
          × (unlock p (m', w') ≡ (invalid_param, (m', w')))
          × (trylock p (m', w') ≡ (invalid_param, (m', w')))
          × (is_locked p (m', w') ≡ (false, (m', w')))
    unfolding lock unlock trylock is_locked
    destroy-refused h =
        let (done, raw) = laws.destroy_done m.lock w h.1 in
        let kept = laws.destroy_live m.lock w in
        let back = laws.free_cell m.lock (pthread_mutex_destroy m.lock w).1 raw in
        rw (destroy-success done) (refl, omega (arith, back, kept), refl, refl, refl, refl)

    -- A mutex that nobody holds is reported so and stays free; a trylock takes it.
    pub probe-IsFree :
        IsFree (some m, w)
        → ((is_locked p (some m, w)).0 ≡ false)
          × IsFree (is_locked p (some m, w)).1
          × ((trylock p (some m, w)).0 ≡ success)
          × IsHeld (trylock p (some m, w)).1
    unfolding is_locked trylock
    probe-IsFree h =
        let (taken, held) = laws.trylock_done m.lock w h.1 in
        let (undone, back) = laws.unlock_done m.lock (pthread_mutex_trylock m.lock w).1 held in
        rw (h.0, taken) (refl, (refl, back), refl, (refl, held))

    is_locked-true :
        m.initialized ≡ true
        → (pthread_mutex_trylock m.lock w).0 ≢ 0
        → is_locked p (some m, w) ≡ (true, (some m, (pthread_mutex_trylock m.lock w).1))
    unfolding is_locked
    is_locked-true h k = ground arith

    trylock-busy :
        m.initialized ≡ true
        → (pthread_mutex_trylock m.lock w).0 ≢ 0
        → trylock p (some m, w) ≡ (busy, (some m, (pthread_mutex_trylock m.lock w).1))
    unfolding trylock
    trylock-busy h k = ground arith

    -- A mutex that somebody holds is reported so, refuses a trylock as busy, and stays held.
    pub probe-IsHeld :
        IsHeld (some m, w)
        → ((is_locked p (some m, w)).0 ≡ true)
          × IsHeld (is_locked p (some m, w)).1
          × ((trylock p (some m, w)).0 ≡ busy)
          × IsHeld (trylock p (some m, w)).1
    probe-IsHeld h =
        let (refused, held) = laws.trylock_refused m.lock w h.1 in
        rw (is_locked-true h.0 refused, trylock-busy h.0 refused)
          (refl, (h.0, held), refl, (h.0, held))

    lock_free :
        IsFree (some m, w) → (h' : Heap p) × (lock p (some m, w) ≡ some (success, h')) × IsHeld h'
    unfolding lock
    lock_free h =
        let (w', done, held) = laws.lock_done m.lock w h.1 in
        ((some m, w'), rw (h.0, done) refl, (h.0, held))

    unlock_held :
        IsHeld (some m, w) → ((unlock p (some m, w)).0 ≡ success) × IsFree (unlock p (some m, w)).1
    unfolding unlock
    unlock_held h =
        let (done, undone) = laws.unlock_done m.lock w h.1 in rw (h.0, done) (refl, (refl, undone))

  init_null-ne : (w : World) → (init p (none, w)).0 ≢ success
  unfolding init
  init_null-ne w e = cc

  pub init_lem : (h : Heap p) → (init p h).0 ≡ success → IsFree (init p h).1
  init_lem (none, w) e = absurd (init_null-ne w e)
  init_lem (some m, w) e = elim (mutex_init_cases m w) [
    | inl (_, _, _, ready, _) ↦ ready
    | inr (inl (_, (failed, _, _))) ↦ cc
    | inr (inr (_, _, (failed, _, _))) ↦ cc
  ]

  pub lock_lem :
      (h : Heap p) → IsFree h → (h' : Heap p) × (lock p h ≡ some (success, h')) × IsHeld h'
  lock_lem (none, w) f = absurd f
  lock_lem (some m, w) f = lock_free m w f

  pub unlock_lem : (h : Heap p) → IsHeld h → ((unlock p h).0 ≡ success) × IsFree (unlock p h).1
  unlock_lem (none, w) f = absurd f
  unlock_lem (some m, w) f = unlock_held m w f

  pub init-live :
      (m : PosixMutex) (w : World)
      → (init p (some m, w)).0 ≡ success
      → live (init p (some m, w)).1.1 ≡ live w + 1
  init-live m w e = elim (mutex_init_cases m w) [
    | inl (_, _, _, _, more) ↦ more
    | inr (inl (_, (failed, _, _))) ↦ cc
    | inr (inr (_, _, (failed, _, _))) ↦ cc
  ]

  -- Locking and unlocking allocate and free nothing.
  pub lock-live :
      (h : Heap p) (e : TtError) (h' : Heap p) → lock p h ≡ some (e, h') → live h'.1 ≡ live h.1
  unfolding lock
  lock-live (none, w) e h' q = ground arith
  lock-live (some m, w) e h' q = elim (Option-cases (p.pthread_mutex_lock m.lock w)) [
    | inl blocked ↦ ground arith
    | inr (r, done) ↦ ground (arith, laws.lock_live m.lock w r.0 r.1 done)
  ]

  pub unlock-live : (h : Heap p) → live (unlock p h).1.1 ≡ live h.1
  unfolding unlock
  unlock-live (none, w) = refl
  unlock-live (some m, w) = ground (arith, laws.unlock_live m.lock w)

  -- The Linux mutex as `tt_error.c` and `tt_thread_internal.c` use it.
  abbrev pub posix_api : MutexApi
  posix_api = record {
    State = Heap p;
    init = init p;
    lock = lock p;
    unlock = unlock p;
    IsFree = IsFree;
    IsHeld = IsHeld;
    init_lem = init_lem;
    lock_lem = lock_lem;
    unlock_lem = unlock_lem;
  }
