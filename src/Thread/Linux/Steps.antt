-- ===== src/Thread/Linux/Steps.antt =====
-- What the pthread functions of src/platform/linux/tt_platform_linux.c return and leave, over a mutex
-- that keeps its laws.
use tinytools.Prelude.{
  ℕ, ◌<◌, ◌≡◌, ◌≢◌, inl, inr, refl, sym, true, false, Option, none, some, ◌==◌, arith, Bool-cases,
}
use tinytools.Prelude.Threads.{update, update_self, update_ne}
use tinytools.Types.{TtError, success, thread_create, thread_active}
use tinytools.Mutex.{MutexApi}
use tinytools.ThreadTable.{unregister_loop}
use tinytools.ThreadTable.Loops.{copies, unregister-IsTable}
use tinytools.ThreadTable.Bag.{unregister-Unregistered}
use tinytools.ThreadTable.Calls.{IsReady, unregister-Ends, nonzero}
use tinytools.Thread.Data.{
  created, terminated, is_terminated, Thread, Attr, System, Threads, Returns, with_world,
  with_thread, without_thread,
}
use tinytools.Thread.Linux.{set_stack_size, start, create, join, release, destroy}

module _ (api : MutexApi) (sys : System) where
  -- After `tt_platform_thread_create` on the thread `t` at `a`: nothing but that thread, the system and
  -- the status is new, and after success the thread has a handle and is still in the state CREATED.
  pub record Started (a : ℕ) (t : Thread) (s : Threads api sys) (r : Returns api sys) : Type 0 where
    pub status : TtError
    pub last : Threads api sys
    pub returned : r ≡ some (status, last)
    pub same_globals : last.globals ≡ s.globals
    pub others : (b : ℕ) → b ≢ a → last.heap b ≡ s.heap b
    pub started :
        status ≡ success → (h : ℕ) × (last.heap a ≡ some (record t { state = created; handle = h }))

  start-Started :
      (a : ℕ) (t : Thread) (func arg : ℕ) (s : Threads api sys) (w : sys.World)
      → Started a t s (some (start api sys a t func arg (with_world api sys s w)))
  unfolding start
  start-Started a t func arg s w =
      let t' : Thread = record t { state = created; handle = (sys.pthread_create func arg w).1 } in
      record {
        status = (start api sys a t func arg (with_world api sys s w)).0;
        last = (start api sys a t func arg (with_world api sys s w)).1;
        returned = refl;
        same_globals = refl;
        others = λ b n. update_ne s.heap a (some t') b (λ e. n (sym e));
        started = λ e. (t'.handle, update_self s.heap a (some t'));
      }

  refused-Started :
      (a : ℕ) (t : Thread) (s : Threads api sys) (w : sys.World)
      → Started a t s (some (thread_create, with_world api sys s w))
  refused-Started a t s w = record {
    status = thread_create;
    last = with_world api sys s w;
    returned = refl;
    same_globals = refl;
    others = λ b n. refl;
    started = λ e. absurd (ground arith);
  }

  pub create-Started :
      (a : ℕ) (t : Thread) (attr : Option Attr) (func arg : ℕ) (s : Threads api sys)
      → a ≢ 0
      → func ≢ 0
      → s.heap a ≡ some t
      → Started a t s (create api sys a attr func arg s)
  unfolding create
  create-Started a t attr func arg s na nf held =
      let (ret, w) = sys.pthread_attr_init s.world in
      let (ret', w') = set_stack_size api sys attr w in
      rw (nonzero a na, nonzero func nf)
        (elim (Bool-cases (ret == 0)) [
          | inr bad ↦ rw bad (refused-Started a t s w)
          | inl ok ↦ rw ok (elim (Bool-cases (ret' == 0)) [
            | inr bad ↦ rw bad (refused-Started a t s (sys.pthread_attr_destroy w'))
            | inl ok' ↦ rw (ok', held) (start-Started a t func arg s w')
          ])
        ])

  -- A join that succeeds leaves a thread that is terminated and no longer active.
  pub join_done :
      (a : ℕ) (t : Thread) (s : Threads api sys) (retval : ℕ) (w : sys.World)
      → a ≢ 0
      → s.heap a ≡ some t
      → sys.pthread_join t.handle s.world ≡ some (0, retval, w)
      → join api sys a s
        ≡ some (
          (success, retval),
          with_thread api sys
              (with_world api sys s w)
              a
              (record t { state = terminated; is_active = false }),
        )
  unfolding join
  join_done a t s retval w n held joined = rw (nonzero a n, held, joined) refl

  -- A thread that has not been joined cannot be destroyed.
  pub destroy_active :
      (a : ℕ) (t : Thread) (s : Threads api sys)
      → a ≢ 0
      → s.heap a ≡ some t
      → is_terminated t.state ≡ false
      → destroy api sys a s ≡ some (thread_active, s)
  unfolding destroy
  destroy_active a t s n held alive = rw (nonzero a n, held, alive) refl

  -- A joined thread that is in the table: it leaves the table and is freed, and nothing else is done.
  pub record Destroyed (a : ℕ) (s : Threads api sys) (r : Returns api sys) : Type 0 where
    pub last : Threads api sys
    pub returned : r ≡ some (success, last)
    pub ready : IsReady api last.globals
    pub table : last.globals.table ≡ (unregister_loop a s.globals.table).1
    pub freed : (last.heap ≡ update s.heap a none) × (last.world ≡ sys.free a s.world)

  pub destroy-Destroyed :
      (a : ℕ) (t : Thread) (s : Threads api sys)
      → a ≢ 0
      → s.heap a ≡ some t
      → is_terminated t.state ≡ true
      → t.is_active ≡ false
      → IsReady api s.globals
      → 0 < copies a s.globals.table
      → Destroyed a s (destroy api sys a s)
  unfolding destroy release
  destroy-Destroyed a t s n held dead idle ready there =
      let gone = unregister-Ends api a s.globals n ready.free in
      let done = (unregister-Unregistered a a s.globals.table there).result in
      record {
        last = without_thread api sys (record s { globals = gone.last }) a;
        returned = rw (nonzero a n, held, dead, gone.returned, done, idle) refl;
        ready = record {
          table = rw gone.left (unregister-IsTable a s.globals.table ready.table);
          free = gone.free;
        };
        table = gone.left;
        freed = (refl, refl);
      }
