-- ===== src/Thread/Api/Creation.antt =====
-- What `tt_thread_create` of src/tt_thread.c leaves on Linux, on every path.
use mathlib.Core.Path.{subst}
use tinytools.Prelude.{
  ℕ, ◌≡◌, ◌≢◌, ◌⊎◌, inl, inr, refl, sym, ap, ◌∙◌, true, Option, none, some, arith, ℕ_discrete,
  Bool-cases,
}
use tinytools.Prelude.Threads.{update_self, update_ne}
use tinytools.Types.{success, not_found, memory, is_success, is_success-true}
use tinytools.Mutex.{MutexApi, pointee}
use tinytools.ThreadTable.Calls.{IsReady, nonzero, is_zero, failed}
use tinytools.Thread.Data.{
  created, Thread, Attr, System, Threads, Returns, with_world, with_thread, without_thread,
}
use tinytools.ThreadTable.{max_threads}
use tinytools.ThreadTable.Loops.{used}
use tinytools.Thread.Linux
use tinytools.Thread.Linux.Steps.{Started, create-Started}
use tinytools.Thread.Api.{new_thread, finish, create}
use tinytools.Thread.Api.Enrollment.{enroll-full, Failed, Made, restored, enroll_cases}

module _ (api : MutexApi) (sys : System) where
  -- The thread that is handed to the Linux part, in the state that it finds.
  abbrev pub prepared : Option Attr → ℕ → ℕ → Threads api sys → Thread
  prepared attr func arg s = new_thread api sys (sys.garbage (sys.malloc s.world).1) attr func arg

  abbrev pub before : Option Attr → ℕ → ℕ → Threads api sys → Threads api sys
  before attr func arg s =
      let (a, w) = sys.malloc s.world in
      with_thread api sys (with_world api sys s w) a (prepared attr func arg s)

  -- Once the thread is allocated, in `s1`: what `tt_platform_thread_create` did decides.
  finish_cases :
      (a : ℕ) (t : Thread) (s s1 : Threads api sys) (c : Returns api sys)
      → a ≢ 0
      → s.heap a ≡ none
      → ((b : ℕ) → b ≢ a → s1.heap b ≡ s.heap b)
      → s1.globals ≡ s.globals
      → IsReady api s.globals
      → Started api sys a t s1 c
      → Failed api sys s (finish api sys a c) ⊎ Made api sys a t s (finish api sys a c)
  unfolding finish
  finish_cases a t s s1 c n fresh same glob ready x =
      let others : (b : ℕ) → b ≢ a → x.last.heap b ≡ s.heap b = λ b m. x.others b m ∙ same b m in
      let globals : x.last.globals ≡ s.globals = x.same_globals ∙ glob in
      let ready' : IsReady api x.last.globals = rw globals ready in
      elim (Bool-cases (is_success x.status)) [
        | inr e ↦
            rw (x.returned, e)
              (inl (record {
                status = x.status;
                last = without_thread api sys x.last a;
                returned = refl;
                error = failed x.status e;
                ready = ready';
                same_heap = restored api sys x.last.heap s.heap a fresh others;
                same_table = ap (λ g. g.table) globals;
              }))
        | inl e ↦
            let (h, held) = x.started (is_success-true x.status e) in
            rw (x.returned, e)
              (enroll_cases api sys a h t s x.last n fresh held others globals ready')
      ]

  -- With a function to run, over a mutex that nobody holds and a well-formed table, `tt_thread_create`
  -- returns. Either it fails and leaves the heap and the table as they were, or it succeeds with a
  -- new thread in the state CREATED that is on the heap and in the table, and leaves every other
  -- thread alone. The heap is assumed to hand out cells that are not in use.
  pub create_cases :
      (attr : Option Attr) (func arg : ℕ) (s : Threads api sys)
      → func ≢ 0
      → s.heap (sys.malloc s.world).0 ≡ none
      → IsReady api s.globals
      → Failed api sys s (create api sys true attr func arg s)
        ⊎ Made api sys
            (sys.malloc s.world).0
            (prepared attr func arg s)
            s
            (create api sys true attr func arg s)
  unfolding create
  create_cases attr func arg s nf fresh ready =
      let (a, w) = sys.malloc s.world in
      let t = prepared attr func arg s in
      let s1 = before attr func arg s in
      rw (nonzero func nf) (elim (ℕ_discrete a 0) [
        | yes null ↦ rw (is_zero a null) (
            inl (record {
              status = memory;
              last = with_world api sys s w;
              returned = refl;
              error = λ e. absurd (ground arith);
              ready = ready;
              same_heap = λ b. refl;
              same_table = refl;
            }))
        | no n ↦ rw (nonzero a n) (
            finish_cases a t s s1 (Linux.create api sys a attr func arg s1) n fresh
              (λ b m. update_ne s.heap a (some t) b (λ e. m (sym e))) refl ready
              (create-Started api sys a t attr func arg s1 n nf (update_self s.heap a (some t))))
      ])

  -- When the table is full, a creation whose thread the system has started fails with NOT_FOUND: the
  -- thread's cell is freed and nothing else is done, so that the thread is neither joined nor
  -- detached, and the caller has no handle of it.
  pub create_full :
      (attr : Option Attr) (func arg : ℕ) (s s2 : Threads api sys)
      → func ≢ 0
      → (sys.malloc s.world).0 ≢ 0
      → IsReady api s.globals
      → used s.globals.table ≡ max_threads
      → Linux.create api sys (sys.malloc s.world).0 attr func arg (before attr func arg s)
        ≡ some (success, s2)
      → (last : Threads api sys) × (create api sys true attr func arg s
          ≡ some ((not_found, none), last))
        × (last.heap (sys.malloc s.world).0 ≡ none)
        × (last.world ≡ sys.free (sys.malloc s.world).0 s2.world)
  unfolding create finish
  create_full attr func arg s s2 nf n ready full done =
      let a = (sys.malloc s.world).0 in
      let t = prepared attr func arg s in
      let x =
        create-Started api sys a t attr func arg (before attr func arg s) n nf
          (update_self s.heap a (some t)) in
      let same = ap (pointee (success, s2)) (sym x.returned ∙ done) in
      let (h, held) = x.started (ap (λ r. r.0) same) in
      let globals : s2.globals ≡ s.globals = sym (ap (λ r. r.1.globals) same) ∙ x.same_globals in
      let (g, ended, ready', loop) =
        enroll-full api sys a (record t { state = created; handle = h }) s2 n
          (sym (ap (λ r. r.1.heap a) same) ∙ held) refl (subst (IsReady api) (sym globals) ready)
          (ap (λ g. used g.table) globals ∙ full) in
      (
        without_thread api sys (record s2 { globals = g }) a,
        rw (nonzero func nf, nonzero a n, done) ended,
        update_self s2.heap a none,
        refl,
      )
