-- ===== src/Mutex/Spin/Shared/Locks.antt =====
-- Threads that share data behind a general mutex as threads of that mutex: in their passes over the data
-- they exclude each other.
use mathlib.Core.Path.{fun_ext, subst}
use tinytools.Prelude.{
  ℕ, ◌<◌, ◌≡◌, ◌⊎◌, inl, inr, refl, sym, ap, ◌∙◌, Bool, true, false, List, if◌then◌else◌,
  ℕ_discrete, arith,
}
use tinytools.Prelude.Threads.{update, update_self, update_ne}
use tinytools.Mutex.Spin.{SpinMutex}
use tinytools.Mutex.Spin.Exclusion
use tinytools.Mutex.Spin.Shared.{
  Pass, Pc, idle, waiting, working, leaving, System, Turn, starts, round, passes, stops, leaves,
  step, Reach, start, next,
}

module _ {Op Result : Type 0} where
  -- Where a thread stands with respect to the mutex.
  abbrev pub phase : Pc Op Result → Exclusion.Pc
  phase idle = Exclusion.outside
  phase (waiting c) = Exclusion.waiting
  phase (working c k) = Exclusion.inside
  phase (leaving result) = Exclusion.inside

  abbrev pub phases : (ℕ → Pc Op Result) → ℕ → Exclusion.Pc
  phases pc i = phase (pc i)

  abbrev pub locks : {Data : Type 0} → System Op Result Data → Exclusion.System
  locks s = record { mutex = s.mutex; pc = phases s.pc }

  phase-if :
      (b : Bool) (p q : Pc Op Result)
      → phase (if b then p else q) ≡ (if b then phase p else phase q)
  phase-if true p q = refl
  phase-if false p q = refl

  phase-update :
      (pc : ℕ → Pc Op Result) (i : ℕ) (p : Pc Op Result) (q : Exclusion.Pc)
      → phase p ≡ q
      → phases (update pc i p) ≡ update (phases pc) i q
  phase-update pc i p q e = fun_ext (λ j. ground arith)

  unmoved :
      (pc : ℕ → Pc Op Result) (i : ℕ) (p : Pc Op Result)
      → phase p ≡ phase (pc i)
      → phases (update pc i p) ≡ phases pc
  unmoved pc i p e = fun_ext (λ j. elim (ℕ_discrete i j) [
    | yes same ↦ rw (sym same) (ap phase (update_self pc i p) ∙ e)
    | no other ↦ ap phase (update_ne pc i p j other)
  ])

module _ {Op Result Data : Type 0} (pass : Op → ℕ → Data → Pass Result Data)
    (IsProper : Op → Type 0) (Admits : Op → Data → Type 0) where
  -- The step of a thread is a step of the mutex, or leaves it alone.
  Turn-Move :
      {m m' : SpinMutex} {d d' : Data} {p p' : Pc Op Result} {l : List (Op × Result)}
      → Turn pass IsProper Admits m d p m' d' p' l
      → Exclusion.Move m (phase p) m' (phase p') ⊎ (m' ≡ m) × (phase p' ≡ phase p)
  Turn-Move (starts c proper admitted ready) = inl (Exclusion.enter_lock ready)
  Turn-Move {m} {m'} (round c {set_before} e) = inl (
      subst (Exclusion.Move m Exclusion.waiting m')
        (sym (phase-if set_before (waiting c) (working c 0))) (Exclusion.round e))
  Turn-Move (passes c k d' e) = inr (refl, refl)
  Turn-Move (stops c k result d' e) = inr (refl, refl)
  Turn-Move (leaves result e) = inl (Exclusion.leave e)

  -- Every reachable state is one that the mutex can reach.
  pub Reach-locks :
      {n : ℕ} {first : Data} {s : System Op Result Data}
      → Reach pass IsProper Admits n first s
      → Exclusion.Reach n (locks s)
  Reach-locks (start memory e) = Exclusion.start memory e
  Reach-locks {n} (next {s} r (step i {m} {d} {p} lt turn)) = elim (Turn-Move turn) [
    | inl move ↦
        subst (λ pc. Exclusion.Reach n (record { mutex = m; pc = pc }))
          (sym (phase-update s.pc i p (phase p) refl))
          (Exclusion.next (Reach-locks r) (Exclusion.step i lt move))
    | inr (same, stays) ↦
        subst (λ pc. Exclusion.Reach n (record { mutex = m; pc = pc }))
          (sym (unmoved s.pc i p stays))
          (subst (λ m. Exclusion.Reach n (record { mutex = m; pc = phases s.pc })) (sym same)
            (Reach-locks r))
  ]

  -- Two threads that are in their loops, or before the unlock, are one.
  pub alone :
      {n : ℕ} {first : Data} {s : System Op Result Data}
      → Reach pass IsProper Admits n first s
      → (i j : ℕ) → i < n
      → j < n
      → phase (s.pc i) ≡ Exclusion.inside
      → phase (s.pc j) ≡ Exclusion.inside
      → i ≡ j
  alone r = Exclusion.mutual_exclusion (Reach-locks r)
