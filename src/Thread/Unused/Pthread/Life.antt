-- ===== src/Thread/Unused/Pthread/Life.antt =====
-- The life of a thread of src/tt_thread.c, lines 136 to 457, on Linux, with the steps of its start
-- routine, and what goes wrong when it is destroyed before the last of them.
use tinytools.Prelude.{
  ℕ, ◌<◌, ◌≡◌, ◌≢◌, refl, ap, ◌∙◌, Bool, Option, none, some, [], ◌∷◌, length, arith,
}
use tinytools.Prelude.Threads.{update_self}
use tinytools.Mutex.{MutexApi}
use tinytools.ThreadTable.{unregister_loop}
use tinytools.ThreadTable.Loops.{copies, used}
use tinytools.ThreadTable.Bag.{unregister-register}
use tinytools.ThreadTable.Calls.{nonzero}
use tinytools.Thread.Data.{running, terminated, Thread, Attr, System}
use tinytools.Thread.Unused.{Creates, Returns, create, begin_routine, end_routine, with_thread}
use tinytools.Thread.Unused.Pthread.{
  Pool, port, after, join, routine_result, begins, ends, joins, destroys, returns, step, run,
}
use tinytools.Thread.Unused.Pthread.Laws.{HeapLaws}
use tinytools.Thread.Unused.Pthread.Launch.{live}
use tinytools.Thread.Unused.Pthread.Sound.{IsSound, Made, Destroyed}
use tinytools.Thread.Unused.Pthread.Destruction.{destroyed}
use tinytools.Thread.Unused.Pthread.Kept.{after-IsSound, changed-IsSound}

module _ (api : MutexApi) (sys : System) (routine : ℕ) (laws : HeapLaws sys) where
  -- The thread `t` at `a` once its start routine has ended with a value.
  abbrev pub ended : ℕ → Thread → ℕ → Pool api sys routine → Pool api sys routine
  ended a t value s =
      with_thread api (port sys routine) s a (record t { retval = value; state = terminated })

  ended-IsSound :
      (a : ℕ) (t : Thread) (value : ℕ) (s : Pool api sys routine)
      → s.heap a ≡ some t
      → IsSound api sys routine laws s
      → IsSound api sys routine laws (ended a t value s)
  ended-IsSound a t value s held sound =
      changed-IsSound api sys routine laws s sound a t
        (record t { retval = value; state = terminated }) s.world.system held refl (λ b. refl)

  -- A thread whose start routine has set the state TERMINATED, in a state in which every allocated cell
  -- has its owner, can be destroyed at once, and then the last statement of the routine, which reads
  -- the thread again, reads freed memory.
  pub destroyed_too_soon :
      (a value : ℕ) (t : Thread) (s : Pool api sys routine)
      → IsSound api sys routine laws s
      → s.heap a ≡ some t
      → a ≢ 0
      → (s' : Pool api sys routine) × (run api sys routine (ends a value ∷ destroys a ∷ []) s
          ≡ some s')
        × (routine_result api sys routine a s' ≡ none)
        × (run api sys routine (ends a value ∷ destroys a ∷ returns a ∷ []) s ≡ none)
  unfolding run step end_routine routine_result
  destroyed_too_soon a value t s sound held n =
      let t' : Thread = record t { retval = value; state = terminated } in
      let s1 = ended a t value s in
      let d =
        destroyed api sys routine laws a t' s1 (ended-IsSound a t value s held sound) n
          (update_self s.heap a (some t')) refl in
      let gone : d.last.heap a ≡ none = ap (λ h. h a) d.heap ∙ update_self s1.heap a none in
      (d.last, rw (held, d.returned) refl, rw gone refl, rw (held, d.returned, gone) refl)

  -- Heap, handles, allocated cells and table are as before.
  pub record Restored (s last : Pool api sys routine) : Type 0 where
    pub same_heap : (b : ℕ) → last.heap b ≡ s.heap b
    pub same_cells : (b : ℕ) → last.world.cells b ≡ s.world.cells b
    pub same_live : (b : ℕ) → live sys routine laws last.world b ≡ live sys routine laws s.world b
    pub same_table : last.globals.table ≡ s.globals.table

  -- What is left of a thread that ran, was joined and was destroyed: `s` is the state before it was
  -- created, `s1` that after, and `w` the system after the join.
  pub record Completed (a value h p : ℕ) (w : sys.World) (s s1 : Pool api sys routine)
      : Type 0 where
    pub last : Pool api sys routine
    pub ran :
        run api sys routine (begins a ∷ ends a value ∷ joins a ∷ destroys a ∷ []) s1 ≡ some last
    pub sound : IsSound api sys routine laws last
    pub restored : Restored s last
    pub system : last.world.system ≡ sys.free a (sys.free h (sys.pthread_detach p w).1)

  module _ (s : Pool api sys routine) (before : IsSound api sys routine laws s)
      {r : Creates api (port sys routine)} (x : Made api sys routine laws s r) where
    -- The destruction of a new thread, in a state that differs from that after its creation in the thread
    -- itself and in the system.
    Destroyed-Restored :
        (t : Thread) (s' : Pool api sys routine) {r' : Returns api (port sys routine)}
        → ((b : ℕ) → b ≢ x.thread → s'.heap b ≡ x.last.heap b)
        → s'.world.cells ≡ x.last.world.cells
        → s'.globals ≡ x.last.globals
        → t.handle ≡ x.new.handle
        → (d : Destroyed api sys routine laws x.thread t s' r') → Restored s d.last
    Destroyed-Restored t s' others cells globals handle d =
        let same_heap : (b : ℕ) → d.last.heap b ≡ s.heap b =
          λ b. ground (arith, ap (λ h. h b) d.heap, x.heap b, x.vacant, others b) in
        let same_cells : (b : ℕ) → d.last.world.cells b ≡ s.world.cells b =
          λ b. ground (arith, ap (λ c. c b) d.cells, ap (λ c. c b) cells, x.cells b, x.no_cell) in
        let absent : copies x.thread s.globals.table ≡ 0 =
          ground (arith, before.owned.listed x.thread) in
        let room : used s.globals.table < length s.globals.table =
          omega (arith, x.room, before.ready.table.size) in
        let back =
          unregister-register x.thread s.globals.table before.ready.table.entries absent room in
        record {
          same_heap = same_heap;
          same_cells = same_cells;
          same_live = λ b.
              ground
                (arith, d.sound.owned.memory b, before.owned.memory b, same_heap b, same_cells b);
          same_table =
              d.table
              ∙ ap (λ g. (unregister_loop x.thread g.table).1) globals
              ∙ ap (λ t. (unregister_loop x.thread t).1) x.table
              ∙ ap (λ r. r.1) back;
        }

  -- A thread that was created runs its start routine to the end, is joined, once the system's join
  -- succeeds, and is destroyed: every call returns, and heap, handles, allocated cells and table are as
  -- before the creation. The destruction detaches the pthread, although it was joined.
  pub life :
      (is_out : Bool) (attr : Option Attr) (func arg value retval : ℕ) (s : Pool api sys routine)
      (w : sys.World)
      → IsSound api sys routine laws s
      → (x : Made api sys routine laws s (create api (port sys routine) is_out attr func arg s))
      → sys.pthread_join x.pthread x.last.world.system ≡ some (0, retval, w)
      → Completed x.thread value x.new.handle x.pthread w s x.last
  unfolding run step begin_routine end_routine join
  life is_out attr func arg value retval s w before x joined =
      let a = x.thread in
      let t1 : Thread = record x.new { state = running } in
      let t2 : Thread = record t1 { retval = value; state = terminated } in
      let s1 = with_thread api (port sys routine) x.last a t1 in
      let s2 = with_thread api (port sys routine) s1 a t2 in
      let s3 = after api sys routine s2 w in
      let held : x.last.heap a ≡ some x.new = x.heap a ∙ update_self s.heap a (some x.new) in
      let held1 = update_self x.last.heap a (some t1) in
      let held2 = update_self s1.heap a (some t2) in
      let cell : x.last.world.cells x.new.handle ≡ some x.pthread =
        x.cells x.new.handle ∙ update_self s.world.cells x.new.handle (some x.pthread) in
      let sound1 =
        changed-IsSound api sys routine laws x.last x.sound a x.new t1 x.last.world.system held refl
          (λ b. refl) in
      let sound3 =
        after-IsSound api sys routine laws s2 (ended-IsSound a t1 value s1 held1 sound1) w
          (laws.join_live x.pthread 0 retval x.last.world.system w joined) in
      let d = destroyed api sys routine laws a t2 s3 sound3 x.nonnull held2 refl in
      let p : d.pthread ≡ x.pthread = ground (arith, d.cell, cell) in
      record {
        last = d.last;
        ran = rw (nonzero a x.nonnull, held, held1, held2, cell, joined, d.returned) refl;
        sound = d.sound;
        restored = Destroyed-Restored s before x t2 s3 (λ b n. ground arith) refl refl refl d;
        system = rw (← p) d.system;
      }
