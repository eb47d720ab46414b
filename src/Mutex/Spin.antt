-- ===== src/Mutex/Spin.antt =====
-- src/tt_mutex.c, the general implementation: a spin lock on the built-ins that test and set a byte.
pub mod Loop
pub mod Exclusion
pub mod Api
pub mod Shared
pub mod Samples
mod Examples
use tinytools.Prelude.{
  ℕ, zero, suc, ◌+◌, ◌*◌, ◌/◌, ◌%◌, ◌≡◌, refl, Bool, true, false, Option, none, some, ◌==◌, not,
  if◌then◌else◌, arith,
}
use tinytools.Types.{TtError, success, null_pointer, not_initialized, busy}

-- `struct tt_mutex_t`. The field `lock` is a pointer that the code uses as the lock itself: a number.
pub record SpinMutex : Type 0 where
  pub lock : ℕ
  pub initialized : Bool

-- `__atomic_test_and_set(&mutex->lock, …)`: the first byte of the field becomes 1, the result is
-- whether it was set. (The byte order is little-endian.)
unfoldable pub test_and_set : SpinMutex → Bool × SpinMutex
test_and_set m = (not (m.lock % 256 == 0), record m { lock = m.lock / 256 * 256 + 1 })

-- `__atomic_clear(&mutex->lock, …)`
unfoldable pub atomic_clear : SpinMutex → SpinMutex
atomic_clear m = record m { lock = m.lock / 256 * 256 }

unfoldable pub init : Option SpinMutex → TtError × Option SpinMutex
init none = (null_pointer, none)
init (some m) = (success, some (record m { lock = 0; initialized = true }))

pub destroy : Option SpinMutex → TtError × Option SpinMutex
destroy none = (null_pointer, none)
destroy (some m) =
    if not m.initialized
    then (not_initialized, some m)
    else (success, some (record m { initialized = false }))

-- The loop of `tt_mutex_lock`, for at most so many rounds. `env f` is what the other threads do to
-- the mutex before the round that leaves `f` more.
unfoldable pub spin :
    (ℕ → SpinMutex → SpinMutex) → ℕ → SpinMutex → Option (TtError × Option SpinMutex)
spin env zero m = none
spin env (suc f) m =
    let (set_before, m') = test_and_set (env f m) in
    let rest = spin env f m' in if set_before then rest else some (success, some m')

unfoldable pub lock :
    (ℕ → SpinMutex → SpinMutex) → ℕ → Option SpinMutex → Option (TtError × Option SpinMutex)
unfolding spin test_and_set
lock env fuel none = some (null_pointer, none)
lock env fuel (some m) =
    if not m.initialized then some (not_initialized, some m) else spin env fuel m

unfoldable pub unlock : Option SpinMutex → TtError × Option SpinMutex
unfolding atomic_clear
unlock none = (null_pointer, none)
unlock (some m) =
    if not m.initialized then (not_initialized, some m) else (success, some (atomic_clear m))

pub trylock : Option SpinMutex → TtError × Option SpinMutex
trylock none = (null_pointer, none)
trylock (some m) =
    if not m.initialized
    then (not_initialized, some m)
    else let (set_before, m') = test_and_set m in (if set_before then busy else success, some m')

-- `__atomic_load_n` reads the whole field.
pub is_locked : Option SpinMutex → Bool
is_locked none = false
is_locked (some m) = if not m.initialized then false else not (m.lock == 0)
