-- ===== src/ThreadTable/Concurrent.antt =====
-- Threads that share the table of src/tt_thread_internal.c behind one general mutex of src/tt_mutex.c,
-- interleaved in any order. A round of the loop of `tt_mutex_lock`, a pass of a loop over the table, and
-- `tt_mutex_unlock` are one step each.
pub mod Scan
pub mod Linear
pub mod Search
mod Examples
use tinytools.Prelude.{ℕ, zero, suc, ◌≢◌, true, false, [], ◌∷◌, ◌==◌, ◌&&◌, not, if◌then◌else◌}
use tinytools.Types.{TtError, success, not_found}
use tinytools.Mutex.Spin.Shared
use tinytools.Mutex.Spin.Shared.{Pass, goes_on, ends, faults}
use tinytools.ThreadTable.{Entry, Table, zeroed, no_entry, Call, registers, unregisters, cleans_up}

abbrev pub under : {Result : Type 0} → Entry → Pass Result Table → Pass Result Table
under e (goes_on t) = goes_on (e ∷ t)
under e (ends result t) = ends result (e ∷ t)
under e faults = faults

-- The pass of the loop of `tt_thread_table_register` over the entry with a number, or its end.
unfoldable pub register_pass : ℕ → ℕ → Table → Pass TtError Table
register_pass thread k [] = ends not_found []
register_pass thread zero (e ∷ es) =
    if not e.in_use
    then ends success (record { thread = thread; in_use = true } ∷ es)
    else goes_on (e ∷ es)
register_pass thread (suc k) (e ∷ es) = under e (register_pass thread k es)

-- The same for `tt_thread_table_unregister`.
unfoldable pub unregister_pass : ℕ → ℕ → Table → Pass TtError Table
unregister_pass thread k [] = ends not_found []
unregister_pass thread zero (e ∷ es) =
    if e.in_use && e.thread == thread then ends success (no_entry ∷ es) else goes_on (e ∷ es)
unregister_pass thread (suc k) (e ∷ es) = under e (unregister_pass thread k es)

-- What a call does to the table between lock and unlock, in one pass after another.
unfoldable pub pass : Call → ℕ → Table → Pass TtError Table
pass (registers thread) k t = register_pass thread k t
pass (unregisters thread) k t = unregister_pass thread k t
pass cleans_up k t = ends success zeroed

-- A call that does not return before the lock.
abbrev pub IsProper : Call → Type 0
IsProper (registers thread) = thread ≢ 0
IsProper (unregisters thread) = thread ≢ 0
IsProper cleans_up = Unit

abbrev pub System : Type 0
System = Shared.System Call TtError Table

-- What `n` threads reach after `tt_thread_table_init`.
abbrev pub Reach : ℕ → System → Type 0
Reach n s = Shared.Reach pass IsProper (λ c t. Unit) n zeroed s
