-- ===== src/Mutex/Spin/Shared/Ending.antt =====
-- Threads that share data behind a general mutex: how a thread ends its call while the others stand still.
use mathlib.Core.Path.{subst}
use tinytools.Prelude.{
  ℕ, zero, suc, ◌+◌, ◌<◌, ◌≡◌, ◌≢◌, inl, inr, refl, sym, ap, ◌∙◌, true, false, List, [], ◌∷◌, ◌++◌,
  length, length-append, if◌then◌else◌, arith,
}
use tinytools.Prelude.Threads.{update, update_self, update_ne, sum_below, sum_below-pos}
use tinytools.Mutex.Spin.{SpinMutex, test_and_set, unlock, atomic_clear}
use tinytools.Mutex.Spin.Exclusion
use tinytools.Mutex.Spin.Shared.{
  Pass, goes_on, faults, Pc, idle, waiting, working, leaving, System, Turn, round, passes, stops,
  leaves, step, Reach,
}
use tinytools.Mutex.Spin.Shared.Locks.{phase, Reach-locks}
use tinytools.Mutex.Spin.Shared.Logs.{Pass-cases}
use tinytools.Mutex.Spin.Shared.Later.{
  busy, unlogged, busy-cases, inside-cases, inside-busy, Later, now, then_step, Later-trans,
}

-- The passes of a call are no more than a number that its first pass can tell, and none faults.
pub record Bounded {Op Result Data : Type 0} (pass : Op → ℕ → Data → Pass Result Data)
    : Type 0 where
  pub left : Op → ℕ → Data → ℕ
  pub shrinks :
      (c : Op) (k : ℕ) (d d' : Data) → pass c k d ≡ goes_on d' → left c (suc k) d' < left c k d
  pub safe : (c : Op) (k : ℕ) (d : Data) → pass c k d ≢ faults

module _ {Op Result Data : Type 0} (pass : Op → ℕ → Data → Pass Result Data)
    (IsProper : Op → Type 0) (Admits : Op → Data → Type 0) where
  -- The state after a step of the thread `i`.
  abbrev after :
      System Op Result Data
      → ℕ
      → SpinMutex
      → Data
      → Pc Op Result
      → List (Op × Result)
      → System Op Result Data
  after s i m d p l = record { shared = d; mutex = m; pc = update s.pc i p; log = s.log ++ l }

  one_step :
      {n : ℕ} (s : System Op Result Data) (i : ℕ) {q : Pc Op Result} {m : SpinMutex} {d : Data}
      {p : Pc Op Result} {l : List (Op × Result)}
      → i < n
      → s.pc i ≡ q
      → Turn pass IsProper Admits s.mutex s.shared q m d p l
      → Later pass IsProper Admits n s (after s i m d p l)
  one_step s i {m = m} {d = d} {p = p} {l = l} lt e turn =
      then_step now
        (step i lt (subst (λ q. Turn pass IsProper Admits s.mutex s.shared q m d p l) (sym e) turn))

  -- Steps that end the call of the thread `i`, the others standing still.
  pub record Ended (n : ℕ) (s : System Op Result Data) (i : ℕ) : Type 0 where
    pub last : System Op Result Data
    pub later : Later pass IsProper Admits n s last
    pub is_idle : last.pc i ≡ idle
    pub others : (j : ℕ) → i ≢ j → last.pc j ≡ s.pc j
    pub logged : length last.log ≡ length s.log + unlogged (s.pc i)

  Ended-now : {n : ℕ} (s : System Op Result Data) (i : ℕ) → s.pc i ≡ idle → Ended n s i
  Ended-now s i e = record {
    last = s;
    later = now;
    is_idle = e;
    others = λ j other. refl;
    logged = omega (arith, ap unlogged e);
  }

  -- One step of the thread, and then steps that end its call.
  via :
      {n : ℕ} (s : System Op Result Data) (i : ℕ) {q : Pc Op Result} {m : SpinMutex} {d : Data}
      {p : Pc Op Result} {l : List (Op × Result)}
      → i < n
      → s.pc i ≡ q
      → Turn pass IsProper Admits s.mutex s.shared q m d p l
      → length l + unlogged p ≡ unlogged q
      → Ended n (after s i m d p l) i
      → Ended n s i
  via s i {p = p} {l = l} lt e turn moved x = record {
    last = x.last;
    later = Later-trans pass IsProper Admits (one_step s i lt e turn) x.later;
    is_idle = x.is_idle;
    others = λ j other. x.others j other ∙ update_ne s.pc i p j other;
    logged = omega (
      arith,
      x.logged,
      ap unlogged (update_self s.pc i p),
      length-append s.log l,
      moved,
      ap unlogged e,
    );
  }

  end_leaving :
      {n : ℕ} (s : System Op Result Data) (i : ℕ) (a : Result)
      → i < n
      → s.pc i ≡ leaving a
      → s.mutex.initialized ≡ true
      → Ended n s i
  unfolding unlock
  end_leaving s i a lt e ready =
      via s i {m = atomic_clear s.mutex} lt e (leaves a (rw ready refl)) refl
        (Ended-now (after s i (atomic_clear s.mutex) s.shared idle []) i (update_self s.pc i idle))

  module _ (bounded : Bounded pass) where
    end_working :
        {n : ℕ} (fuel : ℕ) (s : System Op Result Data) (i : ℕ) (c : Op) (k : ℕ)
        → bounded.left c k s.shared < fuel
        → i < n
        → s.pc i ≡ working c k
        → s.mutex.initialized ≡ true
        → Ended n s i
    end_working zero s i c k h lt e ready = absurd (omega arith)
    end_working (suc fuel) s i c k h lt e ready = elim (Pass-cases (pass c k s.shared)) [
      | inl (d, more) ↦ via s i lt e (passes c k d more) refl (
          end_working fuel (after s i s.mutex d (working c (suc k)) []) i c (suc k)
            (omega (arith, bounded.shrinks c k s.shared d more)) lt
            (update_self s.pc i (working c (suc k))) ready)
      | inr (inr fault) ↦ absurd (bounded.safe c k s.shared fault)
      | inr (inl (a, d, last)) ↦ via s i lt e (stops c k a d last) refl (
          end_leaving (after s i s.mutex d (leaving a) ((c, a) ∷ [])) i a lt
            (update_self s.pc i (leaving a)) ready)
    ]

    -- A thread that is inside can end its call by itself, and while none is inside, so can each that
    -- waits.
    end_inside :
        {n : ℕ} (s : System Op Result Data) (i : ℕ)
        → i < n
        → phase (s.pc i) ≡ Exclusion.inside
        → s.mutex.initialized ≡ true
        → Ended n s i
    end_inside s i lt e ready = elim (inside-cases (s.pc i) e) [
      | inl (c, k, works) ↦
          end_working (suc (bounded.left c k s.shared)) s i c k (omega arith) lt works ready
      | inr (a, leaves_now) ↦ end_leaving s i a lt leaves_now ready
    ]

    end_waiting :
        {n : ℕ} (s : System Op Result Data) (i : ℕ) (c : Op)
        → i < n
        → s.pc i ≡ waiting c
        → (test_and_set s.mutex).0 ≡ false
        → s.mutex.initialized ≡ true
        → Ended n s i
    unfolding test_and_set
    end_waiting s i c lt e clear ready =
        let m = (test_and_set s.mutex).1 in
        via s i {m = m} {d = s.shared} {p = working c 0} {l = []} lt e
          (subst
            (λ b.
              Turn pass IsProper Admits s.mutex s.shared (waiting c) m s.shared
                (if b then waiting c else working c 0) [])
            clear (round c refl))
          refl
          (end_inside (after s i m s.shared (working c 0) []) i lt
            (ap phase (update_self s.pc i (working c 0))) ready)

    -- One call of some thread can be ended.
    pub end_one :
        {n : ℕ} {first : Data} (s : System Op Result Data)
        → Reach pass IsProper Admits n first s
        → 0 < sum_below busy n s.pc
        → (i : ℕ) × (i < n) × (0 < busy (s.pc i)) × Ended n s i
    end_one {n} s r some_busy =
        let locked = Reach-locks pass IsProper Admits r in
        let ready = (Exclusion.Reach-Inv locked).ready in
        elim (Exclusion.progress locked) [
          | inl (i, lt, inside, shows) ↦
              (i, lt, inside-busy (s.pc i) inside, end_inside s i lt inside ready)
          | inr (none_in, shows) ↦
              let (i, lt, b) = sum_below-pos busy n s.pc some_busy in
              let (c, waits) = busy-cases (s.pc i) b (λ e. none_in (i, lt, e)) in
              (i, lt, b, end_waiting s i c lt waits shows.1 ready)
        ]
