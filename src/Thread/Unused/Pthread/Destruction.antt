-- ===== src/Thread/Unused/Pthread/Destruction.antt =====
-- `tt_thread_destroy` of src/tt_thread.c, lines 428 to 455, on Linux: on every path.
use tinytools.Prelude.{
  ℕ, ◌<◌, ◌≡◌, ◌≢◌, ◌⊎◌, inl, inr, refl, true, false, none, some, arith, ℕ_discrete, Bool-cases,
  Option-cases,
}
use tinytools.Types.{null_pointer, thread_active}
use tinytools.Mutex.{MutexApi}
use tinytools.ThreadTable.Loops.{copies, unregister-IsTable}
use tinytools.ThreadTable.Bag.{unregister-Unregistered}
use tinytools.ThreadTable.Calls.{unregister-Ends, nonzero}
use tinytools.Thread.Data.{is_terminated, Thread, System}
use tinytools.Thread.Unused.{destroy}
use tinytools.Thread.Unused.Pthread.{port, release, free_handle, Pool}
use tinytools.Thread.Unused.Pthread.Laws.{HeapLaws}
use tinytools.Thread.Unused.Pthread.Owned.{IsOwned-same, IsOwned-drop}
use tinytools.Thread.Unused.Pthread.Sound.{IsSound, Destroyed}
use tinytools.Thread.Unused.Pthread.Launch.{live, released_live}

module _ (api : MutexApi) (sys : System) (routine : ℕ) (laws : HeapLaws sys) where
  -- The cell with the handle of a thread that is on the heap.
  pub pthread_of :
      (a : ℕ) (t : Thread) (s : Pool api sys routine)
      → IsSound api sys routine laws s
      → s.heap a ≡ some t
      → (p : ℕ) × (s.world.cells t.handle ≡ some p)
  pthread_of a t s sound held =
      let o = sound.owned in
      let (there, _) = o.handle a (ground arith) in
      elim (Option-cases (s.world.cells t.handle)) [
        | inl null ↦ absurd (ground arith)
        | inr there ↦ there
      ]

  pub destroyed :
      (a : ℕ) (t : Thread) (s : Pool api sys routine)
      → IsSound api sys routine laws s
      → a ≢ 0
      → s.heap a ≡ some t
      → is_terminated t.state ≡ true
      → Destroyed api sys routine laws a t s (destroy api (port sys routine) a s)
  unfolding destroy release free_handle
  destroyed a t s sound n held dead =
      let o = sound.owned in
      let (p, cell) = pthread_of a t s sound held in
      let listed : 0 < copies a s.globals.table = ground (arith, o.listed a) in
      let gone = unregister-Ends api a s.globals n sound.ready.free in
      let done = (unregister-Unregistered a a s.globals.table listed).result in
      let here : live sys routine laws s.world a ≡ true = ground (arith, o.memory a) in
      let handle_here : live sys routine laws s.world t.handle ≡ true =
        ground (arith, o.memory t.handle) in
      let ne : t.handle ≢ a = λ e. absurd (ground (arith, o.apart a)) in
      rw (nonzero a n, held, dead, gone.returned, done, cell)
        (record {
          pthread = p;
          cell = cell;
          last = _;
          returned = refl;
          sound = record {
            ready = record {
              table = rw gone.left (unregister-IsTable a s.globals.table sound.ready.table);
              free = gone.free;
            };
            owned =
                IsOwned-same _ _ _ _
                  (IsOwned-drop s.heap s.world.cells _ s.globals.table o a t held) _ _ _ _
                  (λ b. refl) (λ b. refl)
                  (released_live sys routine laws a t.handle p s.world.system handle_here here ne)
                  gone.left;
          };
          heap = refl;
          cells = refl;
          table = gone.left;
          system = refl;
        })

  -- `tt_thread_destroy`, in a state in which every allocated cell has its owner. NULL and a thread
  -- that is not terminated are refused, and nothing changes; an address that holds no thread is a fault.
  -- A terminated thread is always destroyed: it leaves the table, its pthread is detached, its own cell
  -- and that of its handle are freed, and every cell has its owner again.
  pub destroy_all_cases :
      (a : ℕ) (s : Pool api sys routine)
      → IsSound api sys routine laws s
      → (a ≡ 0) × (destroy api (port sys routine) a s ≡ some (null_pointer, s))
        ⊎ (a ≢ 0) × (s.heap a ≡ none) × (destroy api (port sys routine) a s ≡ none)
        ⊎ ((t : Thread) × (s.heap a ≡ some t)
            × ((is_terminated t.state ≡ false)
                  × (destroy api (port sys routine) a s ≡ some (thread_active, s))
                ⊎ (is_terminated t.state ≡ true)
                  × Destroyed api sys routine laws a t s (destroy api (port sys routine) a s)))
  unfolding destroy
  destroy_all_cases a s sound = elim (ℕ_discrete a 0) [
    | yes null ↦ inl (null, rw null refl)
    | no n ↦ elim (Option-cases (s.heap a)) [
      | inl nothing ↦ inr (inl (n, nothing, rw (nonzero a n, nothing) refl))
      | inr (t, held) ↦ inr (
          inr (
            t,
            held,
            elim (Bool-cases (is_terminated t.state)) [
              | inl dead ↦ inr (dead, destroyed a t s sound n held dead)
              | inr alive ↦ inl (alive, rw (nonzero a n, held, alive) refl)
            ],
          ))
    ]
  ]
