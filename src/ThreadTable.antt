-- ===== src/ThreadTable.antt =====
-- src/tt_thread_internal.c and include/tt_thread_internal.h: the global table of threads, behind a
-- mutex. A thread is known by its address, and 0 is NULL. The results of lock and unlock are not
-- looked at, as in the source; `none` is a call that does not return, or a read through a dangling
-- pointer.
pub mod Loops
pub mod Bag
pub mod Find
pub mod Calls
pub mod Refine
pub mod Concurrent
mod Examples
use tinytools.Prelude.{
  ℕ, Bool, true, false, Option, none, some, List, [], ◌∷◌, ◌==◌, ◌&&◌, not, if◌then◌else◌,
  replicate, ◌>>=◌,
}
use tinytools.Types.{TtError, success, null_pointer, not_found, is_success}
use tinytools.Mutex.{MutexApi}

-- A call on the table from outside.
pub data Call : Type 0 where
  registers : ℕ → Call
  unregisters : ℕ → Call
  cleans_up : Call

-- `tt_thread_table_entry_t`
pub record Entry : Type 0 where
  pub thread : ℕ
  pub in_use : Bool

-- TT_MAX_THREADS
abbrev pub max_threads : ℕ
max_threads = 32

abbrev pub Table : Type 0
Table = List Entry

-- What `memset(…, 0, …)` leaves of an entry, and of the table.
abbrev pub no_entry : Entry
no_entry = record { thread = 0; in_use = false }

abbrev pub zeroed : Table
zeroed = replicate max_threads no_entry

-- The loop of `tt_thread_table_register`: the first entry that is free takes the thread.
unfoldable pub register_loop : ℕ → Table → TtError × Table
register_loop thread [] = (not_found, [])
register_loop thread (e ∷ es) =
    let (result, es') = register_loop thread es in
    if not e.in_use
    then (success, record { thread = thread; in_use = true } ∷ es)
    else (result, e ∷ es')

-- The loop of `tt_thread_table_unregister`: the first entry that holds the thread is cleared.
pub unregister_loop : ℕ → Table → TtError × Table
unregister_loop thread [] = (not_found, [])
unregister_loop thread (e ∷ es) =
    let (result, es') = unregister_loop thread es in
    if e.in_use && e.thread == thread then (success, no_entry ∷ es) else (result, e ∷ es')

-- The loop of `tt_thread_table_find_by_handle`. `handle_at` reads the `handle` of the thread at an
-- address. `memcmp` is not 0, and so the test passes, where the two handles differ.
pub find_loop : (ℕ → Option ℕ) → ℕ → Table → Option ℕ
find_loop handle_at handle [] = some 0
find_loop handle_at handle (e ∷ es) =
    let rest = find_loop handle_at handle es in
    if not e.in_use
    then rest
    else do h ← handle_at e.thread; if not (h == handle) then some e.thread else rest

module _ (api : MutexApi) where
  -- `g_thread_table` and `g_thread_table_mutex`
  pub record Globals : Type 0 where
    pub table : Table
    pub mutex : api.State

  -- The lock, a loop over the table, the unlock.
  unfoldable pub locked : {A : Type 0} → (Table → A × Table) → Globals → Option (A × Globals)
  locked body g = do
    (_, m) ← api.lock g.mutex
    let (result, table) = body g.table
    let (_, m') = api.unlock m
    some (result, record { table = table; mutex = m' })

  pub table_init : Globals → Option (TtError × Globals)
  table_init g =
      let (result, m) = api.init g.mutex in
      if not (is_success result)
      then some (result, record g { mutex = m })
      else locked (λ _. (success, zeroed)) (record g { mutex = m })

  pub table_cleanup : Globals → Option (TtError × Globals)
  table_cleanup = locked (λ _. (success, zeroed))

  unfoldable pub register : ℕ → Globals → Option (TtError × Globals)
  register thread g =
      if thread == 0 then some (null_pointer, g) else locked (register_loop thread) g

  pub unregister : ℕ → Globals → Option (TtError × Globals)
  unregister thread g =
      if thread == 0 then some (null_pointer, g) else locked (unregister_loop thread) g

  -- The result is NULL unless the loop finds a thread.
  pub find_by_handle : (ℕ → Option ℕ) → ℕ → Globals → Option (ℕ × Globals)
  find_by_handle handle_at handle g = do
    (found, g') ← locked (λ table. (find_loop handle_at handle table, table)) g
    thread ← found
    some (thread, g')

  pub step : Call → Globals → Option (TtError × Globals)
  step (registers x) g = register x g
  step (unregisters x) g = unregister x g
  step cleans_up g = table_cleanup g

  -- A sequence of calls: what each returns, and the state after all.
  pub run : List Call → Globals → Option (List TtError × Globals)
  run [] g = some ([], g)
  run (c ∷ cs) g = do (e, g') ← step c g; (es, g'') ← run cs g'; some (e ∷ es, g'')
