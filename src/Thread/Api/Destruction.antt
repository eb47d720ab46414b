-- ===== src/Thread/Api/Destruction.antt =====
-- `tt_thread_destroy` of src/tt_thread.c on Linux, on every path.
use tinytools.Prelude.{
  ℕ, ◌<◌, ◌≡◌, ◌≢◌, ◌⊎◌, inl, inr, refl, ap, ◌∙◌, true, false, some, arith, Bool-cases, dec_lt,
}
use tinytools.Types.{thread_active, not_found}
use tinytools.Mutex.{MutexApi}
use tinytools.ThreadTable.Loops.{copies}
use tinytools.ThreadTable.Bag.{unregister-absent}
use tinytools.ThreadTable.Calls.{IsReady, unregister-Ends, nonzero}
use tinytools.Thread.Data.{is_terminated, Thread, System, Threads, Returns}
use tinytools.Thread.Linux
use tinytools.Thread.Linux.Steps.{destroy_active, Destroyed, destroy-Destroyed}
use tinytools.Thread.Api.{destroy}
use tinytools.Thread.Api.Heaps.{at, Ok, IsConsistent}

idle_of : (t : Thread) → is_terminated t.state ≡ true → Ok t → t.is_active ≡ false
idle_of t dead ok = ground arith

module _ (api : MutexApi) (sys : System) where
  -- A call that changes nothing but the mutex.
  pub record Refused (s : Threads api sys) (r : Returns api sys) : Type 0 where
    pub last : Threads api sys
    pub returned : r ≡ some (not_found, last)
    pub ready : IsReady api last.globals
    pub same_heap : last.heap ≡ s.heap
    pub same_table : last.globals.table ≡ s.globals.table

  refused :
      (a : ℕ) (t : Thread) (s : Threads api sys)
      → a ≢ 0
      → s.heap a ≡ some t
      → is_terminated t.state ≡ true
      → IsReady api s.globals
      → copies a s.globals.table ≡ 0
      → Refused s (destroy api sys a s)
  unfolding destroy Linux.destroy
  refused a t s n held dead ready none_there =
      let gone = unregister-Ends api a s.globals n ready.free in
      let loop = unregister-absent a s.globals.table none_there in
      let same : gone.last.table ≡ s.globals.table = gone.left ∙ ap (λ r. r.1) loop in
      record {
        last = record s { globals = gone.last };
        returned = rw (nonzero a n, held, dead, gone.returned, loop) refl;
        ready = record { table = rw same ready.table; free = gone.free };
        same_heap = refl;
        same_table = same;
      }

  -- `tt_thread_destroy` of a thread on a consistent heap, over a mutex that nobody holds and a
  -- well-formed table, returns. A thread that is not terminated is refused as active, and nothing
  -- changes. A terminated one that is in the table leaves the table and is freed, and the system does
  -- nothing else: it is never detached. A terminated one that is not in the table is not found, and
  -- heap and table stay.
  pub destroy_cases :
      (a : ℕ) (t : Thread) (s : Threads api sys)
      → a ≢ 0
      → s.heap a ≡ some t
      → IsConsistent s.heap
      → IsReady api s.globals
      → (is_terminated t.state ≡ false) × (destroy api sys a s ≡ some (thread_active, s))
        ⊎ (is_terminated t.state ≡ true)
          × ((0 < copies a s.globals.table) × Destroyed api sys a s (destroy api sys a s)
              ⊎ (copies a s.globals.table ≡ 0) × Refused s (destroy api sys a s))
  unfolding destroy
  destroy_cases a t s n held ok ready = elim (Bool-cases (is_terminated t.state)) [
    | inr alive ↦ inl (alive, destroy_active api sys a t s n held alive)
    | inl dead ↦ inr (
      dead,
      elim (dec_lt 0 (copies a s.globals.table)) [
        | yes there ↦
            let idle : t.is_active ≡ false = idle_of t dead (at s.heap a t ok held) in
            inl (there, destroy-Destroyed api sys a t s n held dead idle ready there)
        | no absent ↦
            let e : copies a s.globals.table ≡ 0 = omega arith in
            inr (e, refused a t s n held dead ready e)
      ],
    )
  ]
