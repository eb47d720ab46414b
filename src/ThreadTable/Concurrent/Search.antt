-- ===== src/ThreadTable/Concurrent/Search.antt =====
-- Threads that also search the shared table of src/tt_thread_internal.c, interleaved with the calls that
-- change it. A thread's `handle` is set before the thread is registered and not changed after that. A
-- search that reads a thread that cannot be read stops the program: it keeps the mutex, does not end and
-- is not logged, so that nobody changes the table after it.
pub mod Passes
pub mod Found
pub mod Returned
pub mod Answers
mod Examples
use tinytools.Prelude.{
  ℕ, zero, suc, ◌⊎◌, inl, inr, Option, none, some, [], ◌∷◌, ◌==◌, not, if◌then◌else◌,
}
use tinytools.Types.{TtError}
use tinytools.Mutex.Spin.Shared
use tinytools.Mutex.Spin.Shared.{Pass, goes_on, ends, faults}
use tinytools.Mutex.Spin.Shared.Choice.{choice}
use tinytools.ThreadTable.{Entry, Table, zeroed, Call}
use tinytools.ThreadTable.Concurrent.{under, pass, IsProper}

-- What the test in the loop of `tt_thread_table_find_by_handle` makes of the handle of a thread in use;
-- a thread that cannot be read is a fault.
abbrev pub compare_handle : ℕ → Entry → Table → Option ℕ → Pass (Option ℕ) Table
compare_handle handle e es none = faults
compare_handle handle e es (some h) =
    if not (h == handle) then ends (some e.thread) (e ∷ es) else goes_on (e ∷ es)

-- The pass of the loop over the entry with a number, or its end.
unfoldable pub find_pass : (ℕ → Option ℕ) → ℕ → ℕ → Table → Pass (Option ℕ) Table
find_pass handle_at handle k [] = ends (some 0) []
find_pass handle_at handle zero (e ∷ es) =
    if not e.in_use then goes_on (e ∷ es) else compare_handle handle e es (handle_at e.thread)
find_pass handle_at handle (suc k) (e ∷ es) = under e (find_pass handle_at handle k es)

-- A call that changes the table, or a search for a handle.
abbrev pub Op : Type 0
Op = Call ⊎ ℕ

abbrev pub Answer : Type 0
Answer = TtError ⊎ Option ℕ

abbrev pub IsProperOp : Op → Type 0
IsProperOp (inl c) = IsProper c
IsProperOp (inr handle) = Unit

abbrev pub passes_of : (ℕ → Option ℕ) → Op → ℕ → Table → Pass Answer Table
passes_of handle_at = choice pass (find_pass handle_at)

abbrev pub System : Type 0
System = Shared.System Op Answer Table

-- What `n` threads reach after `tt_thread_table_init`.
abbrev pub Reach : (ℕ → Option ℕ) → ℕ → System → Type 0
Reach handle_at n s = Shared.Reach (passes_of handle_at) IsProperOp (λ c t. Unit) n zeroed s
