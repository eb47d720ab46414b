-- ===== src/Error/Concurrent.antt =====
-- Threads that call src/tt_error.c at the same time, with the general mutex of src/tt_mutex.c. A
-- `tt_error_init` initialises the mutex without taking it; it is modelled where it finds no other call on
-- its way. The test of `initialized`, a round of `tt_mutex_lock`, each
-- access to the fields, and `tt_mutex_unlock` are one step each. What a callback does is not part of it:
-- it runs after the unlock, and its own calls are calls of its thread.
pub mod Answers
pub mod Drain
pub mod Alone
mod Examples
use tinytools.Prelude.{some, [], ◌<◌, ℕ, zero, suc, ◌≡◌, Bool, true, false, Option, none}
use tinytools.Types.{TtError, success}
use tinytools.Mutex.Spin
use tinytools.Mutex.Spin.{SpinMutex}
use tinytools.Mutex.Spin.Shared
use tinytools.Mutex.Spin.Shared.{Pass, goes_on, ends, idle, Step, start, next}

-- The fields of `error_ctx` that the mutex guards.
pub record Fields (Callback : Type 0) : Type 0 where
  pub last_error : TtError
  pub callback : Option Callback
  pub initialized : Bool

-- The calls that lock: all of the module that change the fields but `tt_error_init`.
pub data Op (Callback : Type 0) : Type 0 where
  sets : TtError → Op Callback
  gets : Op Callback
  registers : Option Callback → Op Callback
  deinits : Op Callback

-- What a call has read when it unlocks: `tt_error_get_last` the error that it returns,
-- `tt_error_set_last` the callback that it calls, the others nothing.
pub data Answer (Callback : Type 0) : Type 0 where
  value : TtError → Answer Callback
  told : Option Callback → Answer Callback
  done : Answer Callback

module _ {Callback : Type 0} where
  -- The accesses between lock and unlock, one after another.
  unfoldable pub pass : Op Callback → ℕ → Fields Callback → Pass (Answer Callback) (Fields Callback)
  pass (sets error) zero d = goes_on (record d { last_error = error })
  pass (sets error) (suc k) d = ends (told d.callback) d
  pass gets k d = ends (value d.last_error) d
  pass (registers callback) k d = ends done (record d { callback = callback })
  pass deinits zero d = goes_on (record d { callback = none })
  pass deinits (suc k) d = ends done (record d { initialized = false })

  -- What `tt_error_init` leaves.
  abbrev pub fresh : Fields Callback
  fresh = record { last_error = success; callback = none; initialized = true }

abbrev pub System : Type 0 → Type 0
System Callback = Shared.System (Op Callback) (Answer Callback) (Fields Callback)

-- A call that finds the module not initialised returns before the lock.
abbrev pub Admits : {Callback : Type 0} → Op Callback → Fields Callback → Type 0
Admits c d = d.initialized ≡ true

-- What `tt_error_init` leaves, with every thread outside. Its calls are logged from here on.
abbrev pub initialised : {Callback : Type 0} → SpinMutex → System Callback
initialised m = record { shared = fresh; mutex = m; pc = λ _. idle; log = [] }

-- What `n` threads reach. `tt_error_init` initialises the module that is not yet initialised; it returns
-- at once from one that is, which is no step; and it initialises it again after a `tt_error_deinit` when
-- no thread is in another call.
pub data Reach {Callback : Type 0} (n : ℕ) : System Callback → Type 0 where
  inits :
      (memory : SpinMutex) {m : SpinMutex}
      → Spin.init (some memory) ≡ (success, some m)
      → Reach n (initialised m)
  acts : {s t : System Callback} → Reach n s → Step pass (λ c. Unit) Admits n s t → Reach n t
  inits_again :
      {s : System Callback} {m : SpinMutex}
      → Reach n s
      → s.shared.initialized ≡ false
      → ((i : ℕ) → i < n → s.pc i ≡ idle)
      → Spin.init (some s.mutex) ≡ (success, some m)
      → Reach n (initialised m)

-- A state is also what the steps since the last `tt_error_init` lead to.
pub since_init-Reach :
    {Callback : Type 0} {n : ℕ} {s : System Callback}
    → Reach n s
    → Shared.Reach pass (λ c. Unit) Admits n fresh s
since_init-Reach (inits memory e) = start memory e
since_init-Reach (acts r moved) = next (since_init-Reach r) moved
since_init-Reach (inits_again {s} r off all_idle e) = start s.mutex e
