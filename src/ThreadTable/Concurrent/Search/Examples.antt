-- ===== src/ThreadTable/Concurrent/Search/Examples.antt =====
-- The theorems about searches of a shared table of src/tt_thread_internal.c, at a concrete run of two
-- threads: thread 0 registers the thread 7, and then thread 1 searches for the handle 5.
use tinytools.Prelude.{
  ℕ, ◌*◌, ◌≡◌, ◌≢◌, refl, none, inl, inr, true, Option, some, List, [], ◌∷◌, ◌++◌, replicate, arith,
}
use tinytools.Prelude.Threads.{update}
use tinytools.Types.{success}
use tinytools.Mutex.Spin.{test_and_set, init, unlock, atomic_clear}
use tinytools.Mutex.Spin.Samples.{free_mutex, held_mutex}
use tinytools.Mutex.Spin.Shared.{
  Pc, idle, waiting, working, leaving, starts, round, stops, leaves, step, start, next,
}
use tinytools.Mutex.Spin.Shared.Choice.{choice}
use tinytools.Mutex.Spin.Shared.Logs.{calls}
use tinytools.Mutex.Spin.Shared.Live.{AllEnded}
use tinytools.ThreadTable.{Table, no_entry, registers}
use tinytools.ThreadTable.Concurrent.{pass, register_pass}
use tinytools.ThreadTable.Concurrent.Search.{
  Answer, Op, Answer, IsProperOp, passes_of, find_pass, System, Reach,
}
use tinytools.ThreadTable.Concurrent.Search.Passes.{all-Bounded}
use tinytools.ThreadTable.Concurrent.Search.Answers.{bag_after, Fits, any_answer, table_calls_end}

-- The handle of the thread `x` is `10 * x`.
abbrev handle_at : ℕ → Option ℕ
handle_at x = some (10 * x)

readable : (x : ℕ) → (h : ℕ) × (handle_at x ≡ some h)
readable x = (10 * x, refl)

abbrev table : Table
table = record { thread = 7; in_use = true } ∷ replicate 31 no_entry

abbrev outside : ℕ → Pc Op Answer
outside i = idle

abbrev both_wait : ℕ → Pc Op Answer
both_wait = update (update outside 0 (waiting (inl (registers 7)))) 1 (waiting (inr 5))

abbrev registered : ℕ → Pc Op Answer
registered =
    update (update (update both_wait 0 (working (inl (registers 7)) 0)) 0 (leaving (inl success))) 0
      idle

abbrev found : System
found = record {
  shared = table;
  mutex = held_mutex;
  pc = update (update registered 1 (working (inr 5) 0)) 1 (leaving (inr (some 7)));
  log = (inl (registers 7), inl success) ∷ (inr 5, inr (some 7)) ∷ [];
}

found-Reach : Reach handle_at 2 found
unfolding init test_and_set unlock atomic_clear choice pass register_pass find_pass
found-Reach =
    next
      (next
        (next
          (next
            (next
              (next
                (next (start free_mutex refl)
                  (step 0 (omega arith) (starts (inl (registers 7)) (λ e. omega arith) tt refl)))
                (step 1 (omega arith) (starts (inr 5) tt tt refl)))
              (step 0 (omega arith) (round (inl (registers 7)) refl)))
            (step 0 (omega arith) (stops (inl (registers 7)) 0 (inl success) table refl)))
          (step 0 (omega arith) (leaves (inl success) refl)))
        (step 1 (omega arith) (round (inr 5) refl)))
      (step 1 (omega arith) (stops (inr 5) 0 (inr (some 7)) table refl))

abbrev seven : Answer
seven = inr (some 7)

any_answer_example :
    (before : List (Op × Answer)) × (op : Op) × (found.log ≡ before ++ ((op, inr (some 7)) ∷ []))
    × Fits handle_at op (bag_after (calls before) []) (inr (some 7))
    × (seven ≢ inr none)
any_answer_example = any_answer handle_at 1 (inr (some 7)) found-Reach (omega arith) refl

table_calls_end_example :
    AllEnded (passes_of handle_at) IsProperOp (λ c t. Unit) (all-Bounded handle_at readable) 2 found
table_calls_end_example = table_calls_end handle_at readable found-Reach
