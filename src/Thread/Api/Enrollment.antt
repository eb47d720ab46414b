-- ===== src/Thread/Api/Enrollment.antt =====
-- The end of `tt_thread_create` of src/tt_thread.c: a started thread is entered into the table, or given
-- up.
use tinytools.Prelude.{
  ℕ, ◌<◌, ◌≡◌, ◌≢◌, ◌⊎◌, inl, inr, refl, sym, ap, ◌∙◌, false, Option, none, some, arith, ℕ_discrete,
  dec_lt,
}
use tinytools.Prelude.Threads.{update, update_self, update_ne}
use mathlib.Core.Path.{subst}
use tinytools.Types.{TtError, success, not_found}
use tinytools.Mutex.{MutexApi}
use tinytools.ThreadTable.{register_loop, Globals, max_threads}
use tinytools.ThreadTable.Loops.{used, used-le-length, register-IsTable}
use tinytools.ThreadTable.Bag.{register-full, register-Registered}
use tinytools.ThreadTable.Calls.{IsReady, register-Ends}
use tinytools.Thread.Data.{created, is_terminated, Thread, System, Threads, without_thread}
use tinytools.Thread.Linux.Steps.{destroy_active}
use tinytools.Thread.Api.{enroll}

module _ (api : MutexApi) (sys : System) where
  -- What `tt_thread_create` returns: the status, and what it writes through `thread`.
  abbrev pub Creates : Type 0
  Creates = Option ((TtError × Option ℕ) × Threads api sys)

  -- A creation that failed: nothing is written, and heap and table are as before.
  pub record Failed (s : Threads api sys) (r : Creates) : Type 0 where
    pub status : TtError
    pub last : Threads api sys
    pub returned : r ≡ some ((status, none), last)
    pub error : status ≢ success
    pub ready : IsReady api last.globals
    pub same_heap : (b : ℕ) → last.heap b ≡ s.heap b
    pub same_table : last.globals.table ≡ s.globals.table

  -- A creation that succeeded: the new thread `t`, with the handle that it was given, is on the heap
  -- and in the table, which had a free entry, and every other thread is as before.
  pub record Made (a : ℕ) (t : Thread) (s : Threads api sys) (r : Creates) : Type 0 where
    pub last : Threads api sys
    pub handle : ℕ
    pub returned : r ≡ some ((success, some a), last)
    pub ready : IsReady api last.globals
    pub heap :
        (b : ℕ)
        → last.heap b ≡ update s.heap a (some (record t { state = created; handle = handle })) b
    pub room : used s.globals.table < max_threads
    pub table : last.globals.table ≡ (register_loop a s.globals.table).1

  -- The two ends of `enroll`.
  pub enroll-full :
      (a : ℕ) (t : Thread) (s : Threads api sys)
      → a ≢ 0
      → s.heap a ≡ some t
      → is_terminated t.state ≡ false
      → IsReady api s.globals
      → used s.globals.table ≡ max_threads
      → (g : Globals api) × (enroll api sys a s
          ≡ some ((not_found, none), without_thread api sys (record s { globals = g }) a))
        × IsReady api g
        × (g.table ≡ s.globals.table)
  unfolding enroll
  enroll-full a t s n held alive ready full =
      let e = register-Ends api a s.globals n ready.free in
      let loop = register-full a s.globals.table (full ∙ sym ready.table.size) in
      let same : e.last.table ≡ s.globals.table = e.left ∙ ap (λ r. r.1) loop in
      let active = destroy_active api sys a t (record s { globals = e.last }) n held alive in
      (
        e.last,
        rw (e.returned, loop, active) refl,
        record { table = rw same ready.table; free = e.free },
        same,
      )

  enroll-room :
      (a : ℕ) (s : Threads api sys)
      → a ≢ 0
      → IsReady api s.globals
      → used s.globals.table < max_threads
      → (g : Globals api) × (enroll api sys a s
          ≡ some ((success, some a), record s { globals = g }))
        × IsReady api g
        × (g.table ≡ (register_loop a s.globals.table).1)
  unfolding enroll
  enroll-room a s n ready room =
      let e = register-Ends api a s.globals n ready.free in
      let done =
        (register-Registered a a s.globals.table (omega (arith, ready.table.size))).result in
      (
        e.last,
        rw (e.returned, done) refl,
        record {
          table = rw e.left (register-IsTable a s.globals.table n ready.table);
          free = e.free;
        },
        e.left,
      )

  pub restored :
      (h h0 : ℕ → Option Thread) (a : ℕ)
      → h0 a ≡ none
      → ((b : ℕ) → b ≢ a → h b ≡ h0 b)
      → (b : ℕ) → update h a none b ≡ h0 b
  restored h h0 a fresh same b = elim (ℕ_discrete b a) [
    | yes e ↦ rw e (update_self h a none ∙ sym fresh)
    | no n ↦ update_ne h a none b (λ e. n (sym e)) ∙ same b n
  ]

  replaced :
      (h h0 : ℕ → Option Thread) (a : ℕ) (c : Option Thread)
      → h a ≡ c
      → ((b : ℕ) → b ≢ a → h b ≡ h0 b)
      → (b : ℕ) → h b ≡ update h0 a c b
  replaced h h0 a c here same b = elim (ℕ_discrete b a) [
    | yes e ↦ rw e (here ∙ sym (update_self h0 a c))
    | no n ↦ same b n ∙ sym (update_ne h0 a c b (λ e. n (sym e)))
  ]

  -- A started thread that is handed to the table: `s` is the state before it was allocated.
  pub enroll_cases :
      (a h : ℕ) (t : Thread) (s s2 : Threads api sys)
      → a ≢ 0
      → s.heap a ≡ none
      → s2.heap a ≡ some (record t { state = created; handle = h })
      → ((b : ℕ) → b ≢ a → s2.heap b ≡ s.heap b)
      → s2.globals ≡ s.globals
      → IsReady api s2.globals
      → Failed s (enroll api sys a s2) ⊎ Made a t s (enroll api sys a s2)
  enroll_cases a h t s s2 n fresh held others same ready =
      let same_table : s2.globals.table ≡ s.globals.table = ap (λ g. g.table) same in
      elim (dec_lt (used s2.globals.table) max_threads) [
        | yes room ↦
            let (g, done, ready', loop) = enroll-room a s2 n ready room in
            inr (record {
              last = record s2 { globals = g };
              handle = h;
              returned = done;
              ready = ready';
              heap =
                  replaced s2.heap s.heap a (some (record t { state = created; handle = h })) held
                    others;
              room = subst (λ tab. used tab < max_threads) same_table room;
              table = loop ∙ ap (λ tab. (register_loop a tab).1) same_table;
            })
        | no full ↦
            let size = ready.table.size in
            let all : used s2.globals.table ≡ max_threads =
              omega (arith, used-le-length s2.globals.table, size) in
            let (g, done, ready', loop) =
              enroll-full a (record t { state = created; handle = h }) s2 n held refl ready all in
            inl (record {
              status = not_found;
              last = without_thread api sys (record s2 { globals = g }) a;
              returned = done;
              error = λ e. absurd (ground arith);
              ready = ready';
              same_heap = restored s2.heap s.heap a fresh others;
              same_table = loop ∙ same_table;
            })
      ]
