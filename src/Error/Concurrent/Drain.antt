-- ===== src/Error/Concurrent/Drain.antt =====
-- What concurrent calls of src/tt_error.c do between a `tt_error_deinit` that has cleared `initialized`
-- and the next `tt_error_init`.
use tinytools.Prelude.{
  ◌≢◌, ℕ, ◌+◌, ◌≡◌, refl, false, List, length, length-append, arith, zero, suc, ◌<◌,
}
use tinytools.Prelude.Threads.{sum_below-update}
use tinytools.Mutex.Spin.{SpinMutex}
use tinytools.Mutex.Spin.Shared.{
  Pc, waiting, working, goes_on, ends, faults, Turn, starts, round, passes, stops, leaves, step,
}
use tinytools.Mutex.Spin.Shared.Later.{
  unlogged, unlogged-if, pending, Later, now, then_step, Reach-Later,
}
use tinytools.Mutex.Spin.Shared.Ending.{Bounded}
use tinytools.Mutex.Spin.Shared.Live.{AllEnded, calls_end}
use tinytools.Error.Concurrent.{
  Fields, Op, sets, gets, registers, deinits, Answer, pass, System, Reach, Admits, since_init-Reach,
}

module _ {Callback : Type 0} where
  abbrev pub left : Op Callback → ℕ → Fields Callback → ℕ
  left c zero d = 1
  left c (suc k) d = 0

  pub left-shrinks :
      (c : Op Callback) (k : ℕ) (d d' : Fields Callback)
      → pass c k d ≡ goes_on d'
      → left c (suc k) d' < left c k d
  unfolding pass
  left-shrinks c zero d d' h = omega arith
  left-shrinks (sets e) (suc k) d d' h = absurd (ground arith)
  left-shrinks gets (suc k) d d' h = absurd (ground arith)
  left-shrinks (registers f) (suc k) d d' h = absurd (ground arith)
  left-shrinks deinits (suc k) d d' h = absurd (ground arith)

  pub pass-safe : (c : Op Callback) (k : ℕ) (d : Fields Callback) → pass c k d ≢ faults
  unfolding pass
  pass-safe (sets e) zero d h = ground arith
  pass-safe (sets e) (suc k) d h = ground arith
  pass-safe gets k d h = ground arith
  pass-safe (registers f) k d h = ground arith
  pass-safe deinits zero d h = ground arith
  pass-safe deinits (suc k) d h = ground arith

  -- No call makes more than two passes.
  abbrev pub bounded : Bounded (pass {Callback = Callback})
  bounded = record { left = left; shrinks = left-shrinks; safe = pass-safe }

  pass-off :
      (c : Op Callback) (k : ℕ) (d d' : Fields Callback)
      → pass c k d ≡ goes_on d'
      → d.initialized ≡ false
      → d'.initialized ≡ false
  unfolding pass
  pass-off (sets e) zero d d' h off = ground arith
  pass-off (sets e) (suc k) d d' h off = absurd (ground arith)
  pass-off gets k d d' h off = absurd (ground arith)
  pass-off (registers f) k d d' h off = absurd (ground arith)
  pass-off deinits zero d d' h off = ground arith
  pass-off deinits (suc k) d d' h off = absurd (ground arith)

  ends-off :
      (c : Op Callback) (k : ℕ) (d d' : Fields Callback) (a : Answer Callback)
      → pass c k d ≡ ends a d'
      → d.initialized ≡ false
      → d'.initialized ≡ false
  unfolding pass
  ends-off (sets e) zero d d' a h off = absurd (ground arith)
  ends-off (sets e) (suc k) d d' a h off = ground arith
  ends-off gets k d d' a h off = ground arith
  ends-off (registers f) k d d' a h off = ground arith
  ends-off deinits zero d d' a h off = absurd (ground arith)
  ends-off deinits (suc k) d d' a h off = ground arith

  -- A step logs a call as its thread stops being pending, and begins none.
  Turn-off :
      {m m' : SpinMutex} {d d' : Fields Callback} {p p' : Pc (Op Callback) (Answer Callback)}
      {l : List (Op Callback × Answer Callback)}
      → d.initialized ≡ false
      → Turn pass (λ c. Unit) Admits m d p m' d' p' l
      → (d'.initialized ≡ false) × (length l + unlogged p' ≡ unlogged p)
  Turn-off off (starts c proper admitted ready) = absurd (ground (arith, off, admitted))
  Turn-off off (round c {set_before} e) = (
    off,
    omega (
      arith,
      unlogged-if {Result = Answer Callback} set_before (waiting c) (working c 0) refl refl,
    ),
  )
  Turn-off {d = d} off (passes c k d' e) = (pass-off c k d d' e off, refl)
  Turn-off {d = d} off (stops c k a d' e) = (ends-off c k d d' a e off, refl)
  Turn-off off (leaves a e) = (off, refl)

  drained_yet :
      {n : ℕ} {s t : System Callback}
      → s.shared.initialized ≡ false
      → Later pass (λ c. Unit) Admits n s t
      → (t.shared.initialized ≡ false) × (length t.log + pending n t ≡ length s.log + pending n s)
  drained_yet off now = (off, refl)
  drained_yet {n} {s} off (then_step {t} l (step i {p = p} {l = log} lt turn)) =
      let (off', same) = drained_yet off l in
      let (off'', moved) = Turn-off off' turn in
      (
        off'',
        omega
            (arith, same, moved, sum_below-update unlogged n t.pc i p lt, length-append t.log log),
      )

  -- From a state in which a `tt_error_deinit` has cleared `initialized`, by steps of the calls of the
  -- other functions, thus as long as no `tt_error_init` is called: no call begins that locks, since the
  -- calls that have ended and those that had passed the test before and have not ended stay as many as
  -- they were. And all of these can still be ended: from every such later state there are steps after
  -- which no thread is in a call, and each of them is in the log.
  pub drained :
      {n : ℕ} {s t : System Callback}
      → Reach n s
      → s.shared.initialized ≡ false
      → Later pass (λ c. Unit) Admits n s t
      → (t.shared.initialized ≡ false)
        × (length t.log + pending n t ≡ length s.log + pending n s)
        × AllEnded pass (λ c. Unit) Admits bounded n t
  drained r off l =
      let (off', same) = drained_yet off l in
      (
        off',
        same,
        calls_end pass (λ c. Unit) Admits bounded
            (Reach-Later pass (λ c. Unit) Admits (since_init-Reach r) l),
      )
