-- ===== src/ThreadTable/Calls.antt =====
-- The functions of src/tt_thread_internal.c over any mutex that keeps its laws: they return, do what
-- their loop does to the table, and leave the mutex to be locked again.
use tinytools.Prelude.{
  true, ℕ, ◌≡◌, ◌≢◌, ◌⊎◌, inl, inr, refl, false, Option, some, ◌==◌, arith, Bool-cases,
}
use tinytools.Types.{TtError, success, is_success, is_success-true}
use tinytools.Mutex.{MutexApi}
use tinytools.ThreadTable.{
  Table, zeroed, register_loop, unregister_loop, find_loop, Globals, locked, table_init,
  table_cleanup, register, unregister, find_by_handle,
}
use tinytools.ThreadTable.Loops.{IsTable}

pub zeroed-IsTable : IsTable zeroed
zeroed-IsTable = record { size = refl; entries = ground arith }

pub is_zero : (a : ℕ) → a ≡ 0 → (a == 0) ≡ true
is_zero a e = ground arith

pub nonzero : (x : ℕ) → x ≢ 0 → (x == 0) ≡ false
nonzero x n = ground arith

pub failed : (e : TtError) → is_success e ≡ false → e ≢ success
failed e bad ok = ground arith

module _ (api : MutexApi) where
  -- Between calls: a well-formed table, and a mutex that nobody holds.
  pub record IsReady (g : Globals api) : Type 0 where
    pub table : IsTable g.table
    pub free : api.IsFree g.mutex

  -- The call returns `result`, and leaves `table` and a free mutex.
  pub record Ends {A : Type 0} (result : A) (table : Table) (r : Option (A × Globals api))
      : Type 0 where
    pub last : Globals api
    pub returned : r ≡ some (result, last)
    pub left : last.table ≡ table
    pub free : api.IsFree last.mutex

  locked-Ends :
      {A : Type 0} (body : Table → A × Table) (g : Globals api)
      → api.IsFree g.mutex
      → Ends (body g.table).0 (body g.table).1 (locked api body g)
  unfolding locked
  locked-Ends body g h =
      let (m, ok, held) = api.lock_lem g.mutex h in
      let (_, back) = api.unlock_lem m held in
      record {
        last = record { table = (body g.table).1; mutex = (api.unlock m).1 };
        returned = rw ok refl;
        left = refl;
        free = back;
      }

  -- A thread that is not NULL is registered and unregistered as the loop over the table does it,
  -- the call returns, and the mutex is free again.
  pub register-Ends :
      (x : ℕ) (g : Globals api)
      → x ≢ 0
      → api.IsFree g.mutex
      → Ends (register_loop x g.table).0 (register_loop x g.table).1 (register api x g)
  unfolding register
  register-Ends x g n h = rw (nonzero x n) (locked-Ends (register_loop x) g h)

  pub unregister-Ends :
      (x : ℕ) (g : Globals api)
      → x ≢ 0
      → api.IsFree g.mutex
      → Ends (unregister_loop x g.table).0 (unregister_loop x g.table).1 (unregister api x g)
  unfolding unregister
  unregister-Ends x g n h = rw (nonzero x n) (locked-Ends (unregister_loop x) g h)

  pub cleanup-Ends :
      (g : Globals api) → api.IsFree g.mutex → Ends success zeroed (table_cleanup api g)
  unfolding table_cleanup
  cleanup-Ends g h = locked-Ends (λ t. (success, zeroed)) g h

  -- `tt_thread_table_init` returns. If the mutex is initialised, it succeeds and leaves an empty table
  -- behind a mutex that can be locked; otherwise it passes the error on and leaves the table.
  pub table_init_cases :
      (g : Globals api)
      → Ends success zeroed (table_init api g)
        ⊎ ((e : TtError) × (e ≢ success)
            × (table_init api g ≡ some (e, record g { mutex = (api.init g.mutex).1 })))
  unfolding table_init
  table_init_cases g = elim (Bool-cases (is_success (api.init g.mutex).0)) [
    | inl ok ↦ inl (
        rw ok (
          locked-Ends (λ t. (success, zeroed)) (record g { mutex = (api.init g.mutex).1 })
            (api.init_lem g.mutex (is_success-true (api.init g.mutex).0 ok))))
    | inr bad ↦ inr ((api.init g.mutex).0, failed (api.init g.mutex).0 bad, rw bad refl)
  ]

  pub find-Ends :
      (handle_at : ℕ → Option ℕ) (handle x : ℕ) (g : Globals api)
      → api.IsFree g.mutex
      → find_loop handle_at handle g.table ≡ some x
      → Ends x g.table (find_by_handle api handle_at handle g)
  unfolding find_by_handle
  find-Ends handle_at handle x g h found =
      let e = locked-Ends (λ table. (find_loop handle_at handle table, table)) g h in
      record { last = e.last; returned = rw (e.returned, found) refl; left = e.left; free = e.free }
