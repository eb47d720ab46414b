-- ===== src/Mutex/Spin/Shared/Known.antt =====
-- What is known of threads that share data, by where they stand, and how the steps keep it.
use mathlib.Core.Path.{subst}
use mathlib.Core.List.{append-nil}
use tinytools.Prelude.{ℕ, suc, ◌<◌, ◌≡◌, ◌≢◌, refl, sym, ap, ◌∙◌, List, [], ◌∷◌, ◌++◌, ℕ_discrete}
use tinytools.Prelude.Threads.{update, update_self, update_ne}
use tinytools.Mutex.Spin.{SpinMutex}
use tinytools.Mutex.Spin.Exclusion
use tinytools.Mutex.Spin.Shared.{
  Pass, goes_on, ends, Pc, idle, waiting, working, leaving, System, Reach,
}
use tinytools.Mutex.Spin.Shared.Locks.{phase, alone}
use tinytools.Mutex.Spin.Shared.Logs.{
  Divides, calls, answers, run_all, answers-snoc, AllProper, committed, run_all-snoc,
  AllProper-snoc,
}

-- What is known of every thread after a step of one.
pub at-update :
    {Op Result : Type 0} {n : ℕ} (P : Pc Op Result → Type 0) (pc : ℕ → Pc Op Result) (i : ℕ)
    (p : Pc Op Result)
    → P p
    → ((j : ℕ) → j < n → i ≢ j → P (pc j))
    → (j : ℕ) → j < n
    → P (update pc i p j)
at-update P pc i p here others j lt = elim (ℕ_discrete i j) [
  | yes same ↦ subst (λ j. P (update pc i p j)) same (subst P (sym (update_self pc i p)) here)
  | no other ↦ subst P (sym (update_ne pc i p j other)) (others j lt other)
]

abbrev pub IsWorking : {Op Result : Type 0} → Pc Op Result → Type 0
IsWorking (working c k) = Unit
IsWorking _ = ⊥

pub working-inside :
    {Op Result : Type 0} (p : Pc Op Result) → IsWorking p → phase p ≡ Exclusion.inside
working-inside idle w = absurd w
working-inside (waiting c) w = absurd w
working-inside (working c k) w = refl
working-inside (leaving result) w = absurd w

-- If no thread works after a step of a thread that did not, none did before.
pub none_worked :
    {Op Result : Type 0} {n : ℕ} (pc : ℕ → Pc Op Result) (i : ℕ) (p : Pc Op Result)
    → ¬ IsWorking (pc i)
    → ((j : ℕ) → j < n → ¬ IsWorking (update pc i p j))
    → (j : ℕ) → j < n
    → ¬ IsWorking (pc j)
none_worked pc i p not_here none j lt w = elim (ℕ_discrete i j) [
  | yes same ↦ not_here (subst (λ j. IsWorking (pc j)) (sym same) w)
  | no other ↦ none j lt (subst IsWorking (sym (update_ne pc i p j other)) w)
]

module _ {Op Result Data : Type 0} (pass : Op → ℕ → Data → Pass Result Data)
    (IsProper : Op → Type 0) (Admits : Op → Data → Type 0) (law : Divides pass) where
  -- What is known of a thread by where it stands: what is left of its call gives what the whole call
  -- gives on the data of the log, or its result is the last of the log.
  abbrev pub At : Data → Data → List (Op × Result) → Pc Op Result → Type 0
  At base d log idle = Unit
  At base d log (waiting c) = IsProper c
  At base d log (working c k) = IsProper c × (law.from c k d ≡ law.body c base)
  At base d log (leaving result) =
      (before : List (Op × Result)) × (c : Op) × (log ≡ before ++ ((c, result) ∷ []))

  pub outside-At :
      (base base' d d' : Data) (log log' : List (Op × Result)) (p : Pc Op Result)
      → phase p ≢ Exclusion.inside
      → At base d log p
      → At base' d' log' p
  outside-At base base' d d' log log' idle n known = tt
  outside-At base base' d d' log log' (waiting c) n known = known
  outside-At base base' d d' log log' (working c k) n known = absurd (n refl)
  outside-At base base' d d' log log' (leaving result) n known = absurd (n refl)

  -- The calls of the log, one after another, have its results; and while no thread works they lead to
  -- the data.
  pub record Inv (n : ℕ) (first : Data) (s : System Op Result Data) : Type 0 where
    pub results : answers s.log ≡ (run_all law.body (calls s.log) first).0
    pub proper : AllProper pass IsProper law s.log
    pub at : (i : ℕ) → i < n → At (committed pass IsProper law s.log first) s.shared s.log (s.pc i)
    pub settled :
        ((i : ℕ) → i < n → ¬ IsWorking (s.pc i))
        → s.shared ≡ committed pass IsProper law s.log first

  -- A step that changes neither data nor log, of a thread that neither worked nor works.
  pub quiet :
      {n : ℕ} {first : Data} (s : System Op Result Data) (inv : Inv n first s) (i : ℕ)
      (m : SpinMutex) (p : Pc Op Result)
      → ¬ IsWorking (s.pc i)
      → At (committed pass IsProper law s.log first) s.shared s.log p
      → Inv n first
          (record { shared = s.shared; mutex = m; pc = update s.pc i p; log = s.log ++ [] })
  quiet {n} {first} s inv i m p idle_before known =
      subst
        (λ log.
          Inv n first (record { shared = s.shared; mutex = m; pc = update s.pc i p; log = log }))
        (sym (append-nil s.log))
        (record {
          results = inv.results;
          proper = inv.proper;
          at =
              at-update (At (committed pass IsProper law s.log first) s.shared s.log) s.pc i p known
                (λ j lt n. inv.at j lt);
          settled = λ none. inv.settled (none_worked s.pc i p idle_before none);
        })

  -- The step that begins the work of a thread, while no other works.
  pub begun :
      {n : ℕ} {first : Data} (s : System Op Result Data) (inv : Inv n first s) (i : ℕ)
      (m : SpinMutex) (c : Op)
      → i < n
      → IsProper c
      → ((j : ℕ) → j < n → ¬ IsWorking (s.pc j))
      → Inv n first (record {
        shared = s.shared;
        mutex = m;
        pc = update s.pc i (working c 0);
        log = s.log ++ [];
      })
  begun {n} {first} s inv i m c lt proper none =
      subst
        (λ log.
          Inv n first
            (record { shared = s.shared; mutex = m; pc = update s.pc i (working c 0); log = log }))
        (sym (append-nil s.log))
        (record {
          results = inv.results;
          proper = inv.proper;
          at =
              at-update (At (committed pass IsProper law s.log first) s.shared s.log) s.pc i
                (working c 0) (proper, law.all c s.shared ∙ ap (law.body c) (inv.settled none))
                (λ j lt n. inv.at j lt);
          settled = λ idle_now.
              absurd (idle_now i lt (subst IsWorking (sym (update_self s.pc i (working c 0))) tt));
        })

  -- A pass that goes on.
  pub passed :
      {n : ℕ} {first : Data} (s : System Op Result Data) (r : Reach pass IsProper Admits n first s)
      (inv : Inv n first s) (i : ℕ) (c : Op) (k : ℕ) (d' : Data)
      → i < n
      → s.pc i ≡ working c k
      → pass c k s.shared ≡ goes_on d'
      → Inv n first (record {
        shared = d';
        mutex = s.mutex;
        pc = update s.pc i (working c (suc k));
        log = s.log ++ [];
      })
  passed {n} {first} s r inv i c k d' lt e more =
      let base = committed pass IsProper law s.log first in
      let (proper, todo) = subst (At base s.shared s.log) e (inv.at i lt) in
      subst
        (λ log. Inv n first (record {
          shared = d';
          mutex = s.mutex;
          pc = update s.pc i (working c (suc k));
          log = log;
        }))
        (sym (append-nil s.log))
        (record {
          results = inv.results;
          proper = inv.proper;
          at =
              at-update (At base d' s.log) s.pc i (working c (suc k))
                (proper, law.rest c k s.shared d' more ∙ todo)
                (λ j jt other.
                  outside-At base base s.shared d' s.log s.log (s.pc j)
                    (λ inside. other (alone pass IsProper Admits r i j lt jt (ap phase e) inside))
                    (inv.at j jt));
          settled = λ idle_now.
              absurd
                (idle_now i lt (subst IsWorking (sym (update_self s.pc i (working c (suc k)))) tt));
        })

  -- The pass that ends a call.
  pub stopped :
      {n : ℕ} {first : Data} (s : System Op Result Data) (r : Reach pass IsProper Admits n first s)
      (inv : Inv n first s) (i : ℕ) (c : Op) (k : ℕ) (result : Result) (d' : Data)
      → i < n
      → s.pc i ≡ working c k
      → pass c k s.shared ≡ ends result d'
      → Inv n first (record {
        shared = d';
        mutex = s.mutex;
        pc = update s.pc i (leaving result);
        log = s.log ++ ((c, result) ∷ []);
      })
  stopped {n} {first} s r inv i c k result d' lt e done =
      let base = committed pass IsProper law s.log first in
      let log = s.log ++ ((c, result) ∷ []) in
      let (proper, todo) = subst (At base s.shared s.log) e (inv.at i lt) in
      let whole : law.body c base ≡ (result, d') =
        sym todo ∙ law.last c k s.shared result d' done in
      let run = run_all-snoc pass IsProper law s.log c result first in
      let base' : committed pass IsProper law log first ≡ d' =
        ap (λ r. r.1) run ∙ ap (λ r. r.1) whole in
      record {
        results =
            answers-snoc s.log c result
            ∙ ap (λ es. es ++ (result ∷ [])) inv.results
            ∙ ap (λ x. (run_all law.body (calls s.log) first).0 ++ (x.0 ∷ [])) (sym whole)
            ∙ sym (ap (λ r. r.0) run);
        proper = AllProper-snoc pass IsProper law s.log c result inv.proper proper;
        at =
            at-update (At (committed pass IsProper law log first) d' log) s.pc i (leaving result)
              (s.log, c, refl)
              (λ j jt other.
                outside-At base (committed pass IsProper law log first) s.shared d' s.log log
                  (s.pc j)
                  (λ inside. other (alone pass IsProper Admits r i j lt jt (ap phase e) inside))
                  (inv.at j jt));
        settled = λ none. sym base';
      }
