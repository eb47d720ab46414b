-- ===== src/Mutex/Spin/Loop.antt =====
-- When the loop of `tt_mutex_lock` ends, and that the general mutex is what the clients rely on.
use tinytools.Prelude.{
  ℕ, zero, suc, ◌%◌, ◌<◌, ◌≡◌, ◌≢◌, refl, true, false, Option, none, some, arith, ℕ_discrete,
}
use tinytools.Types.{TtError, success, not_initialized, busy}
use tinytools.Mutex.Spin.{
  SpinMutex, test_and_set, atomic_clear, destroy, spin, lock, unlock, trylock, is_locked,
}

-- The lock as the built-ins see it, in a mutex that is initialised.
pub record IsFree (m : SpinMutex) : Type 0 where
  pub ready : m.initialized ≡ true
  pub clear : m.lock ≡ 0

pub record IsHeld (m : SpinMutex) : Type 0 where
  pub ready : m.initialized ≡ true
  pub taken : m.lock ≡ 1

-- Nobody else touches the mutex.
abbrev pub alone : ℕ → SpinMutex → SpinMutex
alone f m = m

abbrev pub Locked : Option (TtError × Option SpinMutex) → Type 0
Locked r = (m : SpinMutex) × (r ≡ some (success, some m)) × (m.lock % 256 ≡ 1)

-- The loop ends: if the other threads leave the byte clear before some round that the fuel reaches,
-- whatever else they do, the call returns success, with the byte set.
pub spin_returns :
    (env : ℕ → SpinMutex → SpinMutex) (fuel k : ℕ) (m : SpinMutex)
    → k < fuel
    → ((x : SpinMutex) → (env k x).lock % 256 ≡ 0)
    → Locked (spin env fuel m)
unfolding spin test_and_set
spin_returns env zero k m h clear = absurd (omega arith)
spin_returns env (suc f) k m h clear = elim (ℕ_discrete ((env f m).lock % 256) 0) [
  | yes e ↦ (next, ground arith, ground arith)
  | no ne ↦
      let later : k ≢ f = λ e. ne (rw (← e) (clear m)) in
      let (x, returns, taken) = spin_returns env f k next (omega arith) clear in
      (x, ground arith, taken)
]
  where
    next : SpinMutex
    next = (test_and_set (env f m)).1

-- A thread that locks a mutex which it holds itself never returns, however long it spins.
pub spin_forever : (fuel : ℕ) (m : SpinMutex) → m.lock % 256 ≢ 0 → spin alone fuel m ≡ none
unfolding spin test_and_set
spin_forever zero m h = refl
spin_forever (suc f) m h = ground (arith, spin_forever f (test_and_set m).1)

-- A mutex that is not initialised, as before `tt_mutex_init` and after `tt_mutex_destroy`: every other
-- call is refused and changes nothing.
pub refused_unless_ready :
    (env : ℕ → SpinMutex → SpinMutex) (fuel : ℕ) (m : SpinMutex)
    → m.initialized ≡ false
    → (lock env fuel (some m) ≡ some (not_initialized, some m))
      × (unlock (some m) ≡ (not_initialized, some m))
      × (trylock (some m) ≡ (not_initialized, some m))
      × (destroy (some m) ≡ (not_initialized, some m))
      × (is_locked (some m) ≡ false)
unfolding lock unlock trylock destroy is_locked
refused_unless_ready env fuel m h = rw h (refl, refl, refl, refl, refl)

-- A free mutex is locked by either call at once, is then reported as locked and refused to others,
-- and is free again after the unlock.
pub lock-unlock :
    (fuel : ℕ) (m : SpinMutex)
    → IsFree m
    → let held : SpinMutex = record m { lock = 1 } in
      (lock alone (suc fuel) (some m) ≡ some (success, some held))
      × (trylock (some m) ≡ (success, some held))
      × (is_locked (some m) ≡ false)
      × (is_locked (some held) ≡ true)
      × (trylock (some held) ≡ (busy, some held))
      × (unlock (some held) ≡ (success, some m))
      × ((n : ℕ) → lock alone n (some held) ≡ none)
unfolding lock unlock trylock is_locked spin test_and_set atomic_clear
lock-unlock fuel m h = (
  ground arith,
  ground arith,
  ground arith,
  ground arith,
  ground arith,
  ground arith,
  (λ n. ground (arith, spin_forever n (record m { lock = 1 }))),
)
