-- ===== src/Thread/Api/Self.antt =====
-- What `tt_thread_self` of src/tt_thread.c returns on Linux.
use tinytools.Prelude.{ℕ, ◌≡◌, ◌⊎◌, inl, inr, refl, some}
use tinytools.Mutex.{MutexApi}
use tinytools.ThreadTable.Find.{Readable, AllHave, IsOther, find_loop_lem}
use tinytools.ThreadTable.Calls.{find-Ends}
use tinytools.Thread.Data.{System, Threads, handle_at}
use tinytools.Thread.Linux
use tinytools.Thread.Api.{self}

module _ (api : MutexApi) (sys : System) where
  -- `tt_thread_self`, when every thread of the table can be read, over a mutex that nobody holds: it
  -- returns, and leaves heap and table, and a mutex that nobody holds. It never returns the thread of
  -- the caller: the result is NULL, and then every thread of the table has the caller's handle, or a
  -- thread of the table with a different handle.
  pub self_cases :
      (s : Threads api sys)
      → api.IsFree s.globals.mutex
      → Readable (handle_at api sys s) s.globals.table
      → (x : ℕ) × (last : Threads api sys) × (self api sys s ≡ some (x, last))
        × (last.heap ≡ s.heap)
        × (last.globals.table ≡ s.globals.table)
        × api.IsFree last.globals.mutex
        × ((x ≡ 0) × AllHave (handle_at api sys s) (sys.pthread_self s.world) s.globals.table
            ⊎ IsOther (handle_at api sys s) (sys.pthread_self s.world) s.globals.table x)
  unfolding self Linux.self
  self_cases s free readable =
      elim (find_loop_lem (handle_at api sys s) (sys.pthread_self s.world) s.globals.table
        readable) [
          | inl (null, all) ↦
              let e =
                find-Ends api (handle_at api sys s) (sys.pthread_self s.world) 0 s.globals free
                  null in
              (
                0,
                record s { globals = e.last },
                rw e.returned refl,
                refl,
                e.left,
                e.free,
                inl (refl, all),
              )
          | inr (x, found, other) ↦
              let e =
                find-Ends api (handle_at api sys s) (sys.pthread_self s.world) x s.globals free
                  found in
              (
                x,
                record s { globals = e.last },
                rw e.returned refl,
                refl,
                e.left,
                e.free,
                inr other,
              )
        ]
