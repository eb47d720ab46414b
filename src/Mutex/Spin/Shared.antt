-- ===== src/Mutex/Spin/Shared.antt =====
-- Threads that share data behind one general mutex of src/tt_mutex.c, interleaved in any order. A client
-- of the mutex says how the work of a call between lock and unlock is cut into passes; a round of the
-- loop of `tt_mutex_lock`, a pass, and `tt_mutex_unlock` are one step each.
pub mod Locks
pub mod Logs
pub mod Known
pub mod Serial
pub mod Later
pub mod Ending
pub mod Live
pub mod Choice
use tinytools.Prelude.{
  ℕ, suc, ◌<◌, ◌≡◌, Bool, true, false, some, List, [], ◌∷◌, ◌++◌, if◌then◌else◌,
}
use tinytools.Prelude.Threads.{update}
use tinytools.Types.{success}
use tinytools.Mutex.Spin.{SpinMutex, test_and_set, init, unlock}

-- What a pass leaves: it goes on with the next pass, or ends with a result; or it reads memory that is
-- not there, where the program stops. A thread before such a pass has no step, and keeps the mutex.
pub data Pass (Result Data : Type 0) : Type 0 where
  goes_on : Data → Pass Result Data
  ends : Result → Data → Pass Result Data
  faults : Pass Result Data

-- Where a thread stands: outside of a call, in the loop of `tt_mutex_lock`, before the pass with a number,
-- or before the unlock, with its result.
pub data Pc (Op Result : Type 0) : Type 0 where
  idle : Pc Op Result
  waiting : Op → Pc Op Result
  working : Op → ℕ → Pc Op Result
  leaving : Result → Pc Op Result

-- The log has the calls in the order in which they ended their passes, with their results.
pub record System (Op Result Data : Type 0) : Type 0 where
  pub shared : Data
  pub mutex : SpinMutex
  pub pc : ℕ → Pc Op Result
  pub log : List (Op × Result)

module _ {Op Result Data : Type 0} (pass : Op → ℕ → Data → Pass Result Data)
    (IsProper : Op → Type 0) (Admits : Op → Data → Type 0) where
  -- One step of one thread: from the mutex, the data and where it stands, to these and what is logged.
  -- A call that is not proper, or that the data does not admit when it is made, returns before the lock.
  pub data Turn (m : SpinMutex) (d : Data)
      : Pc Op Result → SpinMutex → Data → Pc Op Result → List (Op × Result) → Type 0 where
    starts :
        (c : Op) → IsProper c → Admits c d → m.initialized ≡ true → Turn m d idle m d (waiting c) []
    round :
        (c : Op) {set_before : Bool} {m' : SpinMutex}
        → test_and_set m ≡ (set_before, m')
        → Turn m d (waiting c) m' d (if set_before then waiting c else working c 0) []
    passes :
        (c : Op) (k : ℕ) (d' : Data)
        → pass c k d ≡ goes_on d'
        → Turn m d (working c k) m d' (working c (suc k)) []
    stops :
        (c : Op) (k : ℕ) (result : Result) (d' : Data)
        → pass c k d ≡ ends result d'
        → Turn m d (working c k) m d' (leaving result) ((c, result) ∷ [])
    leaves :
        (result : Result) {m' : SpinMutex}
        → unlock (some m) ≡ (success, some m')
        → Turn m d (leaving result) m' d idle []

  pub data Step (n : ℕ) (s : System Op Result Data) : System Op Result Data → Type 0 where
    step :
        (i : ℕ) {m : SpinMutex} {d : Data} {p : Pc Op Result} {l : List (Op × Result)}
        → i < n
        → Turn s.mutex s.shared (s.pc i) m d p l
        → Step n s (record { shared = d; mutex = m; pc = update s.pc i p; log = s.log ++ l })

  -- From the first data, after `tt_mutex_init`, with every thread outside.
  pub data Reach (n : ℕ) (first : Data) : System Op Result Data → Type 0 where
    start :
        (memory : SpinMutex) {m : SpinMutex}
        → init (some memory) ≡ (success, some m)
        → Reach n first (record { shared = first; mutex = m; pc = λ _. idle; log = [] })
    next : {s t : System Op Result Data} → Reach n first s → Step n s t → Reach n first t
