-- ===== src/Thread/Unused/Pthread/Creation.antt =====
-- `tt_thread_create` of src/tt_thread.c, lines 207 to 286, on Linux: on every path.
use tinytools.Prelude.{
  ℕ, ◌<◌, ◌≡◌, ◌≢◌, ◌⊎◌, inl, inr, refl, sym, ap, ◌∙◌, Bool, true, false, Option, none, some, ◌==◌,
  ◌||◌, not, arith, ℕ_discrete, Bool-cases, dec_lt, length,
}
use tinytools.Prelude.Threads.{update, update_self}
use tinytools.Types.{TtError, success, null_pointer, memory, not_found}
use tinytools.Mutex.{MutexApi}
use tinytools.ThreadTable.{max_threads}
use tinytools.ThreadTable.Loops.{used, used-le-length, register-IsTable}
use tinytools.ThreadTable.Bag.{register-full, register-Registered}
use tinytools.ThreadTable.Calls.{IsReady, register-Ends, nonzero, is_zero}
use tinytools.Thread.Data.{created, Thread, Attr, System}
use tinytools.Thread.Unused.{Creates, with_world, new_thread, enroll, proceed, create}
use tinytools.Thread.Unused.Pthread.{World, port, start, release, free_handle, with_system, Pool}
use tinytools.Thread.Unused.Pthread.Laws.{HeapLaws}
use tinytools.Thread.Unused.Pthread.Owned.{vacant, IsOwned-same, IsOwned-make}
use tinytools.Thread.Unused.Pthread.Sound.{IsSound, Failed, Made}
use tinytools.Thread.Unused.Pthread.Launch.{
  taken_back, released_live, live, GivenUp, Launched, start_cases,
}

module _ (api : MutexApi) (sys : System) (routine : ℕ) (laws : HeapLaws sys) where
  unchanged :
      (s : Pool api sys routine) (e : TtError) (v : sys.World)
      → IsReady api s.globals
      → e ≢ success
      → ((b : ℕ) → laws.live v b ≡ laws.live s.world.system b)
      → Failed api sys routine laws s (
          some ((e, none), with_world api (port sys routine) s (with_system sys routine s.world v)))
  unchanged s e v ready bad same = record {
    status = e;
    last = with_world api (port sys routine) s (with_system sys routine s.world v);
    returned = refl;
    error = bad;
    ready = ready;
    same_heap = λ b. refl;
    same_cells = λ b. refl;
    same_live = same;
    same_table = refl;
  }

  -- From here on: a new thread `t` at `a`, in the world that `malloc` left.
  module _ (a : ℕ) (t : Thread) (s : Pool api sys routine) (v : sys.World) (n : a ≢ 0)
      (sound : IsSound api sys routine laws s) (free : live sys routine laws s.world a ≡ false)
      (taken : (b : ℕ) → laws.live v b ≡ update (live sys routine laws s.world) a true b) where
    -- That world, and the state that the pthread part leaves with its own.
    abbrev allocated : World sys routine
    allocated = with_system sys routine s.world v

    abbrev prepared : World sys routine → Pool api sys routine
    prepared w = record { heap = update s.heap a (some t); globals = s.globals; world = w }

    -- What `tt_thread_create` makes of it.
    abbrev proceeded : Creates api (port sys routine)
    proceeded =
        let (o, w) = start sys routine a t allocated in
        proceed api (port sys routine) a t o (prepared w)

    no_thread : s.heap a ≡ none
    no_thread = (vacant s.heap s.world.cells _ s.globals.table a sound.owned free).0

    no_handle :
        (x : Launched sys routine laws allocated (start sys routine a t allocated))
        → (s.heap x.handle ≡ none) × (s.world.cells x.handle ≡ none)
    no_handle x =
        vacant s.heap s.world.cells _ s.globals.table x.handle sound.owned
          (ground (arith, x.fresh, taken x.handle))

    given_up :
        GivenUp sys routine laws a allocated (start sys routine a t allocated)
        → Failed api sys routine laws s proceeded
    unfolding proceed
    given_up x = rw x.result (record {
      status = x.error;
      last = record (prepared x.last) { heap = update (update s.heap a (some t)) a none };
      returned = refl;
      error = x.bad;
      ready = sound.ready;
      same_heap = λ b. taken_back s.heap a (some t) none b no_thread;
      same_cells = x.same_cells;
      same_live = λ b. ground (arith, x.freed b, taken b);
      same_table = refl;
    })

    module _ (x : Launched sys routine laws allocated (start sys routine a t allocated)) where
      abbrev with_handle : Thread
      with_handle = record t { handle = x.handle }

      abbrev started : Pool api sys routine
      started = record (prepared x.last) {
        heap = update (update s.heap a (some t)) a (some with_handle);
      }

      listed :
          used s.globals.table < max_threads
          → t.state ≡ created
          → Made api sys routine laws s (enroll api (port sys routine) a with_handle started)
      unfolding enroll
      listed room new =
          let e = register-Ends api a s.globals n sound.ready.free in
          let room' : used s.globals.table < length s.globals.table =
            omega (arith, sound.ready.table.size) in
          let done = (register-Registered a a s.globals.table room').result in
          rw (e.returned, done)
            (record {
              thread = a;
              new = with_handle;
              pthread = x.pthread;
              last = record started { globals = e.last };
              returned = refl;
              sound = record {
                ready = record {
                  table = rw e.left (register-IsTable a s.globals.table n sound.ready.table);
                  free = e.free;
                };
                owned =
                    IsOwned-same _ _ _ _
                      (IsOwned-make s.heap s.world.cells (live sys routine laws s.world)
                        s.globals.table sound.owned a x.handle x.pthread with_handle n free
                        (sym (taken x.handle) ∙ x.fresh) refl room')
                      _ _ _ _ (λ b. ground arith) x.cells (λ b. ground (arith, x.taken b, taken b))
                      e.left;
              };
              is_created = new;
              nonnull = n;
              vacant = no_thread;
              room = room;
              no_cell = (no_handle x).1;
              heap = λ b. ground arith;
              cells = x.cells;
              table = e.left;
            })

      -- The table is full: the thread is detached, and both cells are freed.
      turned_away :
          used s.globals.table ≡ max_threads
          → Failed api sys routine laws s (enroll api (port sys routine) a with_handle started)
      unfolding enroll release free_handle
      turned_away full =
          let e = register-Ends api a s.globals n sound.ready.free in
          let loop = register-full a s.globals.table (full ∙ sym sound.ready.table.size) in
          let same : e.last.table ≡ s.globals.table = e.left ∙ ap (λ r. r.1) loop in
          let cell : x.last.cells x.handle ≡ some x.pthread =
            x.cells x.handle ∙ update_self s.world.cells x.handle (some x.pthread) in
          let (_, no_cell) = no_handle x in
          let there : laws.live x.last.system a ≡ true = ground (arith, x.taken a, taken a) in
          let handle_there : laws.live x.last.system x.handle ≡ true =
            ground (arith, x.taken x.handle) in
          let ne : x.handle ≢ a = λ e. absurd (ground (arith, x.fresh, taken a)) in
          rw (e.returned, loop, cell)
            (record {
              status = not_found;
              last = _;
              returned = refl;
              error = λ e. absurd (ground arith);
              ready = record { table = rw same sound.ready.table; free = e.free };
              same_heap = λ b. ground (arith, no_thread);
              same_cells = λ b. ground (arith, x.cells b, no_cell);
              same_live = λ b. ground (
                arith,
                released_live sys routine laws a x.handle x.pthread x.last.system handle_there there
                    ne b,
                x.taken b,
                taken b,
                x.fresh,
              );
              same_table = same;
            })

    launched :
        Launched sys routine laws allocated (start sys routine a t allocated)
        → t.state ≡ created
        → Failed api sys routine laws s proceeded ⊎ Made api sys routine laws s proceeded
    unfolding proceed
    launched x new = rw x.result (elim (dec_lt (used s.globals.table) max_threads) [
      | yes room ↦ inr (listed x room new)
      | no full ↦
          inl
            (turned_away x (omega (arith, used-le-length s.globals.table, sound.ready.table.size)))
    ])

    decided :
        t.state ≡ created
        → Failed api sys routine laws s proceeded ⊎ Made api sys routine laws s proceeded
    decided new =
        let here : laws.live v a ≡ true =
          taken a ∙ update_self (live sys routine laws s.world) a true in
        elim (start_cases sys routine laws a t allocated here (λ b e.
          (vacant s.heap s.world.cells _ s.globals.table b sound.owned
            (ground (arith, taken b))).1)) [ inl x ↦ inl (given_up x) | inr x ↦ launched x new ]

  -- In a state in which every allocated cell has its owner, `tt_thread_create` returns, whatever it is
  -- given and whatever the system answers. Either it fails, and heap, handles, allocated cells and table
  -- are as before, also when the table is full; or it succeeds with a new thread in the state CREATED,
  -- with a handle of its own, in the table, and every cell has its owner again.
  pub create_all_cases :
      (is_out : Bool) (attr : Option Attr) (func arg : ℕ) (s : Pool api sys routine)
      → IsSound api sys routine laws s
      → Failed api sys routine laws s (create api (port sys routine) is_out attr func arg s)
        ⊎ Made api sys routine laws s (create api (port sys routine) is_out attr func arg s)
  unfolding create new_thread
  create_all_cases is_out attr func arg s sound =
      let (a, v) = sys.malloc s.world.system in
      elim (Bool-cases (not is_out || (func == 0))) [
        | inl null ↦ rw null (
            inl (
              unchanged s null_pointer s.world.system sound.ready (λ e. absurd (ground arith))
                (λ b. refl)))
        | inr called ↦ elim (ℕ_discrete a 0) [
          | yes null ↦
              rw (called, is_zero a null)
                (inl (
                  unchanged s memory v sound.ready (λ e. absurd (ground arith))
                    (laws.malloc_null s.world.system null)))
          | no n ↦
              let (free, taken) = laws.malloc_cell s.world.system n in
              rw (called, nonzero a n)
                (decided a (new_thread api (port sys routine) (sys.garbage v) attr func arg) s v n
                  sound free taken refl)
        ]
      ]
