-- ===== src/Thread/Api/Lifecycle.antt =====
-- The life of a thread of src/tt_thread.c on Linux: creation, join and destruction together.
use tinytools.Prelude.{ℕ, ◌<◌, ◌≡◌, ◌≢◌, refl, sym, ap, ◌∙◌, true, false, Option, none, some, arith}
use tinytools.Prelude.Threads.{update_self, update_ne}
use tinytools.Types.{success}
use tinytools.Mutex.{MutexApi}
use tinytools.ThreadTable.{unregister_loop}
use tinytools.ThreadTable.Loops.{copies}
use tinytools.ThreadTable.Bag.{unregister-register, register-Registered}
use tinytools.ThreadTable.Calls.{IsReady}
use tinytools.Thread.Data.{
  created, terminated, Thread, Attr, System, Threads, with_world, with_thread,
}
use tinytools.Thread.Linux.Steps.{join_done, destroy-Destroyed}
use tinytools.Thread.Api.{create, join, destroy}
use tinytools.Thread.Api.Enrollment.{Made, restored}

module _ (api : MutexApi) (sys : System) where
  -- What joining and destroying a new thread leaves, from the state `s` before it was created.
  pub record Ended (a retval : ℕ) (s s1 : Threads api sys) (w : sys.World) : Type 0 where
    pub joined : Threads api sys
    pub last : Threads api sys
    pub joins : join api sys a s1 ≡ some ((success, retval), joined)
    pub destroys : destroy api sys a joined ≡ some (success, last)
    pub ready : IsReady api last.globals
    pub same_heap : (b : ℕ) → last.heap b ≡ s.heap b
    pub same_table : last.globals.table ≡ s.globals.table
    pub freed : last.world ≡ sys.free a w

  -- A thread that was created at an address that was not in use can be joined, once the system's
  -- join succeeds, and then destroyed: both succeed, the caller gets the value that the thread returned,
  -- and heap and table are as before the creation, entry for entry. The memory is freed, and the
  -- thread is not detached.
  pub lifecycle :
      (attr : Option Attr) (func arg a : ℕ) (t : Thread) (s : Threads api sys) (retval : ℕ)
      (w : sys.World)
      → (x : Made api sys a t s (create api sys true attr func arg s)) → a ≢ 0
      → s.heap a ≡ none
      → copies a s.globals.table ≡ 0
      → IsReady api s.globals
      → sys.pthread_join x.handle x.last.world ≡ some (0, retval, w)
      → Ended a retval s x.last w
  unfolding join destroy
  lifecycle attr func arg a t s retval w x n fresh absent ready ended =
      let t1 : Thread = record t { state = created; handle = x.handle } in
      let t2 : Thread = record t1 { state = terminated; is_active = false } in
      let s2 = with_thread api sys (with_world api sys x.last w) a t2 in
      let size = ready.table.size in
      let one = (register-Registered a a s.globals.table (omega (arith, x.room))).count in
      let there : 0 < copies a s2.globals.table = rw x.table (ground (arith, one)) in
      let d =
        destroy-Destroyed api sys a t2 s2 n (update_self x.last.heap a (some t2)) refl refl x.ready
          there in
      let back =
        unregister-register a s.globals.table ready.table.entries absent (omega (arith, x.room)) in
      record {
        joined = s2;
        last = d.last;
        joins =
            join_done api sys a t1 x.last retval w n (x.heap a ∙ update_self s.heap a (some t1))
              ended;
        destroys = d.returned;
        ready = d.ready;
        same_heap = λ b.
            ap (λ h. h b) d.freed.0
            ∙ restored api sys s2.heap s.heap a fresh
                (λ c m.
                  update_ne x.last.heap a (some t2) c (λ e. m (sym e))
                  ∙ x.heap c
                  ∙ update_ne s.heap a (some t1) c (λ e. m (sym e)))
                b;
        same_table = d.table ∙ ap (λ tab. (unregister_loop a tab).1) x.table ∙ ap (λ u. u.1) back;
        freed = d.freed.1;
      }
