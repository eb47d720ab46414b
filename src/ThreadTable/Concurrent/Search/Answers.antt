-- ===== src/ThreadTable/Concurrent/Search/Answers.antt =====
-- What concurrent calls of src/tt_thread_internal.c return, searches among them.
use mathlib.Core.Path.{subst}
use tinytools.Prelude.{
  some, none, ◌≢◌, ℕ, ◌<◌, ◌≡◌, inl, inr, refl, sym, Option, List, [], ◌∷◌, ◌++◌,
}
use tinytools.Mutex.Spin.Shared.{leaving}
use tinytools.Mutex.Spin.Shared.Choice.{choice, relabel-ends}
use tinytools.Mutex.Spin.Shared.Choice
use tinytools.Mutex.Spin.Shared.Live.{AllEnded, calls_end}
use tinytools.Mutex.Spin.Shared.Logs.{calls, committed, AllProper, AllProper-split}
use tinytools.Mutex.Spin.Shared.Serial.{Reach-Inv, last_result}
use tinytools.ThreadTable.{Table, zeroed, find_loop}
use tinytools.ThreadTable.Loops.{IsTable}
use tinytools.ThreadTable.Calls.{zeroed-IsTable}
use tinytools.ThreadTable.Refine.{spec, Holds, zeroed-Holds}
use tinytools.ThreadTable.Concurrent.Linear.{body-Agrees}
use tinytools.ThreadTable.Concurrent.Search.{Op, Answer, IsProperOp, passes_of, System, Reach}
use tinytools.ThreadTable.Concurrent.Search.Found.{FoundIn, find_loop-FoundAt, found-in}
use tinytools.ThreadTable.Concurrent.Search.Returned.{leaving-fault}
use tinytools.ThreadTable.Concurrent.Search.Passes.{all-Divides, all-Bounded}

-- The bag of threads after calls, of which the searches change nothing.
abbrev pub bag_after : List Op → List ℕ → List ℕ
bag_after [] ts = ts
bag_after (inl c ∷ ops) ts = bag_after ops (spec c ts).1
bag_after (inr handle ∷ ops) ts = bag_after ops ts

module _ (handle_at : ℕ → Option ℕ) where
  -- What a call returns for a bag of threads.
  abbrev pub Fits : Op → List ℕ → Answer → Type 0
  Fits (inl c) ts (inl e) = e ≡ (spec c ts).0
  Fits (inr handle) ts (inr r) = FoundIn handle_at handle ts r
  Fits op ts a = ⊥

  record Follows (op : Op) (ts : List ℕ) (out : Answer × Table) : Type 0 where
    fits : Fits op ts out.0
    table : IsTable out.1
    holds : Holds out.1 (bag_after (op ∷ []) ts)

  op-Follows :
      (op : Op) (t : Table) (ts : List ℕ)
      → IsProperOp op
      → IsTable t
      → Holds t ts
      → Follows op ts ((all-Divides handle_at).body op t)
  unfolding all-Divides Choice.body
  op-Follows (inl c) t ts proper table holds =
      let (agrees, table') = body-Agrees c t ts proper table holds in
      record { fits = agrees.result; table = table'; holds = agrees.holds }
  op-Follows (inr handle) t ts proper table holds = record {
    fits =
        found-in handle_at handle t ts (find_loop handle_at handle t) holds
          (find_loop-FoundAt handle_at handle t);
    table = table;
    holds = holds;
  }

  bag_after-cons :
      (op : Op) (ops : List Op) (ts : List ℕ)
      → bag_after ops (bag_after (op ∷ []) ts) ≡ bag_after (op ∷ ops) ts
  bag_after-cons (inl c) ops ts = refl
  bag_after-cons (inr handle) ops ts = refl

  -- The table after the calls of a log holds the bag after them.
  log-Holds :
      (log : List (Op × Answer)) (t : Table) (ts : List ℕ)
      → AllProper (passes_of handle_at) IsProperOp (all-Divides handle_at) log
      → IsTable t
      → Holds t ts
      → IsTable (committed (passes_of handle_at) IsProperOp (all-Divides handle_at) log t)
        × Holds
            (committed (passes_of handle_at) IsProperOp (all-Divides handle_at) log t)
            (bag_after (calls log) ts)
  log-Holds [] t ts proper table holds = (table, holds)
  log-Holds ((op, a) ∷ log) t ts (proper, all) table holds =
      let x = op-Follows op t ts proper table holds in
      let (table', holds') =
        log-Holds log ((all-Divides handle_at).body op t).1 (bag_after (op ∷ []) ts) all x.table
          x.holds in
      let u =
        committed (passes_of handle_at) IsProperOp (all-Divides handle_at) log
          ((all-Divides handle_at).body op t).1 in
      (table', subst (λ bag. Holds u bag) (bag_after-cons op (calls log) ts) holds')

  -- However registrations, unregistrations, cleanups and searches of any number of threads interleave,
  -- each pass of a loop being a step: a thread that is about to unlock has made the last call of the
  -- log, and its result fits the bag of at most 32 threads after all the calls before it. A search
  -- returns NULL if all threads of that bag have the handle, and otherwise a thread of it with a
  -- different handle; it does not come to its unlock by way of a thread that cannot be read.
  pub any_answer :
      {n : ℕ} {s : System} (i : ℕ) (a : Answer)
      → Reach handle_at n s
      → i < n
      → s.pc i ≡ leaving a
      → (before : List (Op × Answer)) × (op : Op) × (s.log ≡ before ++ ((op, a) ∷ []))
        × Fits op (bag_after (calls before) []) a
        × (a ≢ inr none)
  any_answer {s = s} i a r lt e =
      let law = all-Divides handle_at in
      let inv = Reach-Inv (passes_of handle_at) IsProperOp (λ c t. Unit) law r in
      let (before, op, split, answer) =
        last_result (passes_of handle_at) IsProperOp (λ c t. Unit) law i a r lt e in
      let (all, proper) =
        AllProper-split (passes_of handle_at) IsProperOp law before op a
          (subst (AllProper (passes_of handle_at) IsProperOp law) split inv.proper) in
      let (table, holds) = log-Holds before zeroed [] all zeroed-IsTable zeroed-Holds in
      let x =
        op-Follows op (committed (passes_of handle_at) IsProperOp law before zeroed)
          (bag_after (calls before) []) proper table holds in
      (
        before,
        op,
        split,
        subst (Fits op (bag_after (calls before) [])) (sym answer) x.fits,
        leaving-fault handle_at i a r lt e,
      )

  -- If the threads can be read, they do not wait for each other for ever either: from every state that
  -- they reach there are steps after which no thread is in a call, and each call that was on its way is
  -- in the log.
  pub table_calls_end :
      {n : ℕ} {s : System} (readable : (x : ℕ) → (h : ℕ) × (handle_at x ≡ some h))
      → Reach handle_at n s
      → AllEnded (passes_of handle_at) IsProperOp (λ c t. Unit) (all-Bounded handle_at readable) n s
  table_calls_end readable =
      calls_end (passes_of handle_at) IsProperOp (λ c t. Unit) (all-Bounded handle_at readable)
