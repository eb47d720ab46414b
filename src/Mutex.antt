-- ===== src/Mutex.antt =====
-- include/tt_mutex.h as the other components see it: what `tt_error.c` and `tt_thread_internal.c`
-- call on their one global mutex, and what they rely on. `State` is all that the implementation
-- reads and writes: the mutex and, behind it, the operating system. The two implementations in
-- src/tt_mutex.c are `Mutex.Spin` and `Mutex.Posix`.
pub mod Spin
pub mod Posix
use tinytools.Prelude.{◌≡◌, Option, none, some}
use tinytools.Types.{TtError, success}

pub record MutexApi : Type 1 where
  pub State : Type 0
  pub init : State → TtError × State
  -- `none` is a call that does not return.
  pub lock : State → Option (TtError × State)
  pub unlock : State → TtError × State
  pub IsFree : State → Type 0
  pub IsHeld : State → Type 0
  -- What a successful `tt_mutex_init` leaves can be locked; a free mutex is locked without waiting;
  -- and the holder can unlock.
  pub init_lem : (s : State) → (init s).0 ≡ success → IsFree (init s).1
  pub lock_lem : (s : State) → IsFree s → (s' : State) × (lock s ≡ some (success, s')) × IsHeld s'
  pub unlock_lem : (s : State) → IsHeld s → ((unlock s).0 ≡ success) × IsFree (unlock s).1

-- What a pointer points to, or `s` where it is NULL.
abbrev pub pointee : {S : Type 0} → S → Option S → S
pointee s (some s') = s'
pointee s none = s

-- A function on a pointer, called with the address of a mutex: NULL does not arise.
abbrev pub at_address : {S : Type 0} → (Option S → TtError × Option S) → S → TtError × S
at_address f s = let (e, p) = f (some s) in (e, pointee s p)
