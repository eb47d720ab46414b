-- ===== src/Mutex/Posix.antt =====
-- src/platform/linux/tt_platform_linux.c, lines 236 to 333, and the part of src/tt_mutex.c that calls
-- it: a mutex is a heap cell that holds a `pthread_mutex_t`. The C library's `malloc` and `free` and
-- the pthread calls are a parameter. An address is a number, 0 is NULL.
pub mod Laws
pub mod Calls
pub mod Model
mod Examples
use tinytools.Prelude.{
  ℕ, ◌≡◌, Bool, true, false, Option, none, some, ◌==◌, not, if◌then◌else◌, ◌>>=◌,
}
use tinytools.Types.{
  TtError, success, null_pointer, invalid_param, memory, busy, mutex_init, mutex_destroy,
  mutex_lock, mutex_unlock,
}

-- What the file calls: the heap, and the pthread mutex at an address. A call returns its `int`, and
-- the world after it; `pthread_mutex_lock` may not return.
pub record Pthreads : Type 1 where
  pub World : Type 0
  pub malloc : World → ℕ × World
  pub free : ℕ → World → World
  pub pthread_mutex_init : ℕ → World → ℕ × World
  pub pthread_mutex_destroy : ℕ → World → ℕ × World
  pub pthread_mutex_lock : ℕ → World → Option (ℕ × World)
  pub pthread_mutex_unlock : ℕ → World → ℕ × World
  pub pthread_mutex_trylock : ℕ → World → ℕ × World

-- `struct tt_mutex_t`: `lock` is the address of a `tt_linux_mutex_t`, which is its `pthread_mutex`.
pub record PosixMutex : Type 0 where
  pub lock : ℕ
  pub initialized : Bool

module _ (p : Pthreads) where
  open p use {
    World, malloc, free, pthread_mutex_init, pthread_mutex_destroy, pthread_mutex_lock,
    pthread_mutex_unlock, pthread_mutex_trylock,
  }

  -- The mutex under the pointer, and the world.
  abbrev pub Heap : Type 0
  Heap = Option PosixMutex × World

  unfoldable pub init : Heap → TtError × Heap
  init (none, w) = (null_pointer, (none, w))
  init (some m, w) =
      let (linux_mutex, w1) = malloc w in
      if linux_mutex == 0
      then (memory, (some m, w1))
      else let (res, w2) = pthread_mutex_init linux_mutex w1 in
        if not (res == 0)
        then (mutex_init, (some m, free linux_mutex w2))
        else (success, (some (record { lock = linux_mutex; initialized = true }), w2))

  -- There is no test of `initialized` here.
  pub destroy : Heap → TtError × Heap
  destroy (none, w) = (null_pointer, (none, w))
  destroy (some m, w) =
      let (res, w1) = pthread_mutex_destroy m.lock w in
      if not (res == 0)
      then (mutex_destroy, (some m, w1))
      else (success, (some (record m { initialized = false }), free m.lock w1))

  pub lock : Heap → Option (TtError × Heap)
  lock (none, w) = some (null_pointer, (none, w))
  lock (some m, w) = if not m.initialized then some (invalid_param, (some m, w)) else do
    (res, w1) ← pthread_mutex_lock m.lock w
    some (if res == 0 then success else mutex_lock, (some m, w1))

  pub unlock : Heap → TtError × Heap
  unlock (none, w) = (null_pointer, (none, w))
  unlock (some m, w) =
      if not m.initialized
      then (invalid_param, (some m, w))
      else let (res, w1) = pthread_mutex_unlock m.lock w in
        (if res == 0 then success else mutex_unlock, (some m, w1))

  pub trylock : Heap → TtError × Heap
  trylock (none, w) = (null_pointer, (none, w))
  trylock (some m, w) =
      if not m.initialized
      then (invalid_param, (some m, w))
      else let (res, w1) = pthread_mutex_trylock m.lock w in
        (if res == 0 then success else busy, (some m, w1))

  -- A probe by trylock, undone where it succeeds.
  pub is_locked : Heap → Bool × Heap
  is_locked (none, w) = (false, (none, w))
  is_locked (some m, w) =
      if not m.initialized
      then (false, (some m, w))
      else let (res, w1) = pthread_mutex_trylock m.lock w in
        if res == 0
        then (false, (some m, (pthread_mutex_unlock m.lock w1).1))
        else (true, (some m, w1))
