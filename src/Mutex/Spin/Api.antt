-- ===== src/Mutex/Spin/Api.antt =====
-- The general mutex is a mutex as its clients rely on, for any fuel but none.
use tinytools.Prelude.{ℕ, suc, ◌≡◌, refl, Option, some, arith, ◌>>=◌}
use tinytools.Types.{TtError, success}
use tinytools.Mutex.{MutexApi, at_address, pointee}
use tinytools.Mutex.Spin.{SpinMutex, init, lock, unlock, spin, test_and_set, atomic_clear}
use tinytools.Mutex.Spin.Loop.{IsFree, IsHeld, alone}

abbrev pub lock_at : ℕ → SpinMutex → Option (TtError × SpinMutex)
lock_at fuel m = do (e, p) ← lock alone (suc fuel) (some m); some (e, pointee m p)

pub init-IsFree : (m : SpinMutex) → (at_address init m).0 ≡ success → IsFree (at_address init m).1
unfolding init
init-IsFree m h = record { ready = refl; clear = refl }

pub lock-IsHeld :
    (fuel : ℕ) (m : SpinMutex)
    → IsFree m
    → (m' : SpinMutex) × (lock_at fuel m ≡ some (success, m')) × IsHeld m'
unfolding lock spin test_and_set
lock-IsHeld fuel m h = (record m { lock = 1 }, ground arith, ground arith)

pub unlock-IsFree :
    (m : SpinMutex)
    → IsHeld m
    → ((at_address unlock m).0 ≡ success) × IsFree (at_address unlock m).1
unfolding unlock atomic_clear
unlock-IsFree m h = ground arith

-- One thread's view of the general mutex, with `fuel + 1` rounds for the loop.
abbrev pub spin_api : ℕ → MutexApi
spin_api fuel = record {
  State = SpinMutex;
  init = at_address init;
  lock = lock_at fuel;
  unlock = at_address unlock;
  IsFree = IsFree;
  IsHeld = IsHeld;
  init_lem = init-IsFree;
  lock_lem = lock-IsHeld fuel;
  unlock_lem = unlock-IsFree;
}
