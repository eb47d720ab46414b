-- ===== src/Mutex/Spin/Shared/Later.antt =====
-- Threads that share data behind a general mutex: which calls are on their way, and the states that come
-- after a state.

use tinytools.Prelude.{
  Bool, true, false, if◌then◌else◌, ℕ, ◌<◌, ◌≡◌, ◌≢◌, ◌⊎◌, inl, inr, refl, ap, arith,
}
use tinytools.Prelude.Threads.{sum_below}
use tinytools.Mutex.Spin.Exclusion
use tinytools.Mutex.Spin.Shared.{
  Pass, Pc, idle, waiting, working, leaving, System, Step, Reach, next,
}
use tinytools.Mutex.Spin.Shared.Locks.{phase}

module _ {Op Result : Type 0} where
  -- Whether a thread is in a call that will lock, and whether its call is not in the log yet.
  abbrev pub busy : Pc Op Result → ℕ
  busy idle = 0
  busy _ = 1

  abbrev pub unlogged : Pc Op Result → ℕ
  unlogged (waiting c) = 1
  unlogged (working c k) = 1
  unlogged _ = 0

  pub unlogged-if :
      (b : Bool) (p q : Pc Op Result)
      → unlogged p ≡ 1
      → unlogged q ≡ 1
      → unlogged (if b then p else q) ≡ 1
  unlogged-if true p q e f = e
  unlogged-if false p q e f = f

  -- The calls that are not in the log yet.
  abbrev pub pending : {Data : Type 0} → ℕ → System Op Result Data → ℕ
  pending n s = sum_below unlogged n s.pc

  pub busy-cases :
      (p : Pc Op Result) → 0 < busy p → phase p ≢ Exclusion.inside → (c : Op) × (p ≡ waiting c)
  busy-cases idle b out = absurd (omega arith)
  busy-cases (waiting c) b out = (c, refl)
  busy-cases (working c k) b out = absurd (out refl)
  busy-cases (leaving a) b out = absurd (out refl)

  pub inside-cases :
      (p : Pc Op Result)
      → phase p ≡ Exclusion.inside
      → ((c : Op) × (k : ℕ) × (p ≡ working c k)) ⊎ ((a : Result) × (p ≡ leaving a))
  inside-cases idle e = absurd (omega (arith, ap Exclusion.owns e))
  inside-cases (waiting c) e = absurd (omega (arith, ap Exclusion.owns e))
  inside-cases (working c k) e = inl (c, k, refl)
  inside-cases (leaving a) e = inr (a, refl)

  pub inside-busy : (p : Pc Op Result) → phase p ≡ Exclusion.inside → 0 < busy p
  inside-busy p e = elim (inside-cases p e) [
    | inl (c, k, works) ↦ omega (arith, ap busy works)
    | inr (a, leaves_now) ↦ omega (arith, ap busy leaves_now)
  ]

  pub idle-when : (p : Pc Op Result) → busy p ≡ 0 → p ≡ idle
  idle-when idle e = refl
  idle-when (waiting c) e = absurd (omega arith)
  idle-when (working c k) e = absurd (omega arith)
  idle-when (leaving a) e = absurd (omega arith)

module _ {Op Result Data : Type 0} (pass : Op → ℕ → Data → Pass Result Data)
    (IsProper : Op → Type 0) (Admits : Op → Data → Type 0) where
  -- The states after any number of steps.
  pub data Later (n : ℕ) (s : System Op Result Data) : System Op Result Data → Type 0 where
    now : Later n s s
    then_step :
        {t u : System Op Result Data} → Later n s t → Step pass IsProper Admits n t u → Later n s u

  pub Reach-Later :
      {n : ℕ} {first : Data} {s t : System Op Result Data}
      → Reach pass IsProper Admits n first s
      → Later n s t
      → Reach pass IsProper Admits n first t
  Reach-Later r now = r
  Reach-Later r (then_step l st) = next (Reach-Later r l) st

  pub Later-trans :
      {n : ℕ} {s t u : System Op Result Data} → Later n s t → Later n t u → Later n s u
  Later-trans l now = l
  Later-trans l (then_step m st) = then_step (Later-trans l m) st
