-- ===== src/Mutex/Spin/Shared/Serial.antt =====
-- Threads that share data behind a general mutex: their calls are answered as if each were one step, in
-- the order in which they ended their passes.
use mathlib.Core.Path.{subst}
use tinytools.Prelude.{
  ℕ, ◌<◌, ◌≡◌, refl, sym, ap, ◌∙◌, Bool, true, false, List, [], ◌∷◌, ◌++◌, if◌then◌else◌,
  ℕ_discrete,
}
use tinytools.Prelude.Threads.{update, update_self, update_ne}
use tinytools.Mutex.Spin.{SpinMutex}
use tinytools.Mutex.Spin.Shared.{
  Pass, Pc, idle, waiting, working, leaving, System, Turn, starts, round, passes, stops, leaves,
  step, Reach, start, next,
}
use tinytools.Mutex.Spin.Shared.Locks.{phase, alone}
use tinytools.Mutex.Spin.Shared.Logs.{
  Divides, calls, answers, run_all, answers-snoc, last-snoc, committed, run_all-snoc,
}
use tinytools.Mutex.Spin.Shared.Known.{
  IsWorking, working-inside, At, Inv, quiet, begun, passed, stopped,
}

module _ {Op Result Data : Type 0} (pass : Op → ℕ → Data → Pass Result Data)
    (IsProper : Op → Type 0) (Admits : Op → Data → Type 0) (law : Divides pass) where
  -- The thread that begins its work is the only one inside.
  none_works :
      {n : ℕ} {first : Data} (s : System Op Result Data) (i : ℕ) (m : SpinMutex) (c : Op)
      (log : List (Op × Result))
      → Reach pass IsProper Admits n first
          (record { shared = s.shared; mutex = m; pc = update s.pc i (working c 0); log = log })
      → i < n
      → s.pc i ≡ waiting c
      → (j : ℕ) → j < n
      → ¬ IsWorking (s.pc j)
  none_works s i m c log r lt e j jt w = elim (ℕ_discrete i j) [
    | yes same ↦ subst IsWorking (ap s.pc (sym same) ∙ e) w
    | no other ↦ other (
        alone pass IsProper Admits r i j lt jt (ap phase (update_self s.pc i (working c 0)))
          (ap phase (update_ne s.pc i (working c 0) j other) ∙ working-inside (s.pc j) w))
  ]

  -- A round of the lock that ends it, or not.
  rounds :
      {n : ℕ} {first : Data} (s : System Op Result Data)
      (inv : Inv pass IsProper Admits law n first s) (i : ℕ) (m : SpinMutex) (c : Op)
      (set_before : Bool)
      → i < n
      → s.pc i ≡ waiting c
      → Reach pass IsProper Admits n first (record {
        shared = s.shared;
        mutex = m;
        pc = update s.pc i (if set_before then waiting c else working c 0);
        log = s.log ++ [];
      })
      → Inv pass IsProper Admits law n first (record {
        shared = s.shared;
        mutex = m;
        pc = update s.pc i (if set_before then waiting c else working c 0);
        log = s.log ++ [];
      })
  rounds {first = first} s inv i m c true lt e r =
      quiet pass IsProper Admits law s inv i m (waiting c) (λ w. subst IsWorking e w)
        (subst
          (At pass IsProper Admits law (committed pass IsProper law s.log first) s.shared s.log) e
          (inv.at i lt))
  rounds {first = first} s inv i m c false lt e r =
      begun pass IsProper Admits law s inv i m c lt
        (subst
          (At pass IsProper Admits law (committed pass IsProper law s.log first) s.shared s.log) e
          (inv.at i lt))
        (none_works s i m c (s.log ++ []) r lt e)

  Turn-Inv :
      {n : ℕ} {first : Data} (s : System Op Result Data) (r : Reach pass IsProper Admits n first s)
      (inv : Inv pass IsProper Admits law n first s) (i : ℕ) {q : Pc Op Result} {m : SpinMutex}
      {d : Data} {p : Pc Op Result} {l : List (Op × Result)}
      → i < n
      → s.pc i ≡ q
      → Turn pass IsProper Admits s.mutex s.shared q m d p l
      → Reach pass IsProper Admits n first
          (record { shared = d; mutex = m; pc = update s.pc i p; log = s.log ++ l })
      → Inv pass IsProper Admits law n first
          (record { shared = d; mutex = m; pc = update s.pc i p; log = s.log ++ l })
  Turn-Inv s r inv i lt e (starts c proper admitted ready) r' =
      quiet pass IsProper Admits law s inv i s.mutex (waiting c) (λ w. subst IsWorking e w) proper
  Turn-Inv s r inv i {m = m} lt e (round c {set_before} moved) r' =
      rounds s inv i m c set_before lt e r'
  Turn-Inv s r inv i lt e (passes c k d' more) r' =
      passed pass IsProper Admits law s r inv i c k d' lt e more
  Turn-Inv s r inv i lt e (stops c k result d' done) r' =
      stopped pass IsProper Admits law s r inv i c k result d' lt e done
  Turn-Inv s r inv i {m = m} lt e (leaves result unlocked) r' =
      quiet pass IsProper Admits law s inv i m idle (λ w. subst IsWorking e w) tt

  pub Reach-Inv :
      {n : ℕ} {first : Data} {s : System Op Result Data}
      → Reach pass IsProper Admits n first s
      → Inv pass IsProper Admits law n first s
  Reach-Inv (start memory e) = record {
    results = refl;
    proper = tt;
    at = λ i lt. tt;
    settled = λ none. refl;
  }
  Reach-Inv (next {s} r (step i lt turn)) =
      Turn-Inv s r (Reach-Inv r) i lt refl turn (next r (step i lt turn))

  -- A thread that is about to unlock has made the last call of the log, and has the result that the call
  -- gives after all the calls before it.
  pub last_result :
      {n : ℕ} {first : Data} {s : System Op Result Data} (i : ℕ) (result : Result)
      → Reach pass IsProper Admits n first s
      → i < n
      → s.pc i ≡ leaving result
      → (before : List (Op × Result)) × (c : Op) × (s.log ≡ before ++ ((c, result) ∷ []))
        × (result ≡ (law.body c (committed pass IsProper law before first)).0)
  last_result {first = first} {s = s} i result r lt e =
      let inv = Reach-Inv r in
      let (before, c, split) =
        subst (At pass IsProper Admits law (committed pass IsProper law s.log first) s.shared s.log)
          e (inv.at i lt) in
      let same =
        sym (answers-snoc before c result)
        ∙ ap answers (sym split)
        ∙ inv.results
        ∙ ap (λ log. (run_all law.body (calls log) first).0) split
        ∙ ap (λ x. x.0) (run_all-snoc pass IsProper law before c result first) in
      (
        before,
        c,
        split,
        last-snoc (answers before) (run_all law.body (calls before) first).0 result _ same,
      )
