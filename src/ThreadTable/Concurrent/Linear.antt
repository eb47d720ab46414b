-- ===== src/ThreadTable/Concurrent/Linear.antt =====
-- Concurrent calls of src/tt_thread_internal.c are answered as if each were one step, in the order in which
-- they ended their loops.
use mathlib.Core.Path.{subst}
use tinytools.Prelude.{ℕ, ◌<◌, ◌≡◌, refl, sym, ap, ◌∙◌, List, [], ◌∷◌, ◌++◌}
use tinytools.Types.{TtError}
use tinytools.Mutex.Spin.Shared.{leaving}
use tinytools.Mutex.Spin.Shared.Logs.{calls, answers, run_all, AllProper, AllProper-split}
use tinytools.Mutex.Spin.Shared.Known.{IsWorking}
use tinytools.Mutex.Spin.Shared.Serial.{Reach-Inv, last_result}
use tinytools.ThreadTable.{Table, zeroed, Call, registers, unregisters, cleans_up}
use tinytools.ThreadTable.Loops.{IsTable, register-IsTable, unregister-IsTable}
use tinytools.ThreadTable.Calls.{zeroed-IsTable}
use tinytools.ThreadTable.Refine.{
  spec, spec_run, Holds, Agrees, register-Agrees, unregister-Agrees, zeroed-Holds,
}
use tinytools.ThreadTable.Concurrent.{pass, IsProper, System, Reach}
use tinytools.ThreadTable.Concurrent.Scan.{body, pass-Divides}

abbrev pub Log : Type 0
Log = List (Call × TtError)

-- The whole of a call on a table against the specification.
pub body-Agrees :
    (c : Call) (t : Table) (ts : List ℕ)
    → IsProper c
    → IsTable t
    → Holds t ts
    → Agrees (body c t) (spec c ts) × IsTable (body c t).1
unfolding body
body-Agrees (registers x) t ts n table holds =
    (register-Agrees x t ts n table.size holds, register-IsTable x t n table)
body-Agrees (unregisters x) t ts n table holds =
    (unregister-Agrees x t ts n holds, unregister-IsTable x t table)
body-Agrees cleans_up t ts n table holds =
    (record { result = refl; holds = zeroed-Holds }, zeroed-IsTable)

-- The calls of a log, one after another, against the specification.
record Follows (log : Log) (t : Table) (ts : List ℕ) : Type 0 where
  table : IsTable (run_all body (calls log) t).1
  holds : Holds (run_all body (calls log) t).1 (spec_run (calls log) ts).1
  results : (run_all body (calls log) t).0 ≡ (spec_run (calls log) ts).0

log-Follows :
    (log : Log) (t : Table) (ts : List ℕ)
    → AllProper pass IsProper pass-Divides log
    → IsTable t
    → Holds t ts
    → Follows log t ts
log-Follows [] t ts proper table holds = record { table = table; holds = holds; results = refl }
log-Follows ((c, e) ∷ log) t ts (proper, all) table holds =
    let (agrees, table') = body-Agrees c t ts proper table holds in
    let x = log-Follows log (body c t).1 (spec c ts).1 all table' agrees.holds in
    record {
      table = x.table;
      holds = x.holds;
      results =
          ap (λ e. e ∷ (run_all body (calls log) (body c t).1).0) agrees.result
          ∙ ap (λ es. (spec c ts).0 ∷ es) x.results;
    }

-- However the calls of any number of threads on the table interleave, each pass of a loop being a step:
-- there is an order of the calls that have ended their loops, the log, in which a bag of at most 32
-- threads gives each call the result that it got; and whenever no thread is in its loop, the table is
-- well-formed and holds the threads of that bag.
pub serializable :
    {n : ℕ} {s : System}
    → Reach n s
    → ((i : ℕ) → i < n → ¬ IsWorking (s.pc i))
    → IsTable s.shared
      × Holds s.shared (spec_run (calls s.log) []).1
      × (answers s.log ≡ (spec_run (calls s.log) []).0)
unfolding pass-Divides
serializable {s = s} r none =
    let inv = Reach-Inv pass IsProper (λ c t. Unit) pass-Divides r in
    let x = log-Follows s.log zeroed [] inv.proper zeroed-IsTable zeroed-Holds in
    let same = sym (inv.settled none) in
    (
      subst IsTable same x.table,
      subst (λ t. Holds t (spec_run (calls s.log) []).1) same x.holds,
      inv.results ∙ x.results,
    )

-- A thread that is about to unlock and to return a result has made the last call of the log, and its
-- result is what a bag of at most 32 threads answers to that call after all the calls before it.
pub last_answer :
    {n : ℕ} {s : System} (i : ℕ) (result : TtError)
    → Reach n s
    → i < n
    → s.pc i ≡ leaving result
    → (before : Log) × (c : Call) × (s.log ≡ before ++ ((c, result) ∷ []))
      × (result ≡ (spec c (spec_run (calls before) []).1).0)
unfolding pass-Divides
last_answer i result r lt e =
    let inv = Reach-Inv pass IsProper (λ c t. Unit) pass-Divides r in
    let (before, c, split, answer) =
      last_result pass IsProper (λ c t. Unit) pass-Divides i result r lt e in
    let (all, proper) =
      AllProper-split pass IsProper pass-Divides before c result
        (subst (AllProper pass IsProper pass-Divides) split inv.proper) in
    let x = log-Follows before zeroed [] all zeroed-IsTable zeroed-Holds in
    let (agrees, table) =
      body-Agrees c (run_all body (calls before) zeroed).1 (spec_run (calls before) []).1 proper
        x.table x.holds in
    (before, c, split, answer ∙ agrees.result)
