-- ===== src/Thread/Api/Invariant.antt =====
-- What every sequence of calls of src/tt_thread.c keeps on Linux: a thread on the heap is terminated
-- exactly when it is no longer active.
use tinytools.Prelude.{
  ℕ, ◌≡◌, inl, inr, refl, sym, ap, ◌∙◌, Bool, true, false, Option, none, some, List, [], ◌∷◌, ◌==◌,
  not, if◌then◌else◌, ◌>>=◌, ℕ_discrete, Bool-cases, Option-cases,
}
use tinytools.Prelude.Threads.{update, update_self, update_ne}
use tinytools.Types.{success, null_pointer, thread_active, is_success, is_success-true}
use mathlib.Core.Path.{subst}
use tinytools.Mutex.{MutexApi}
use tinytools.ThreadTable.{register, unregister, find_by_handle}
use tinytools.ThreadTable.Calls.{nonzero, is_zero}
use tinytools.Thread.Data.{
  terminated, is_terminated, Thread, Attr, System, Threads, Returns, with_world, with_thread,
  handle_at, of_code,
}
use tinytools.Thread.Linux
use tinytools.Thread.Linux.Steps.{Started, create-Started}
use tinytools.Thread.Api.{
  new_thread, enroll, finish, create, join, set_priority, suspend, resume, sleep, self, destroy,
  Call, creates, joins, sets_priority, suspends, resumes, sleeps, asks_self, destroys, step, run,
}
use tinytools.Thread.Api.Heaps.{IsConsistent, OkAt, at, except, put, drop}

module _ (api : MutexApi) (sys : System) where
  -- If the call returns, it leaves a consistent heap.
  abbrev pub Good : {A : Type 0} → Option (A × Threads api sys) → Type 0
  Good none = Unit
  Good (some (a, s)) = IsConsistent s.heap

  Good-bind :
      {A B : Type 0} (m : Option A) (f : A → Option (B × Threads api sys))
      → ((x : A) → m ≡ some x → Good (f x))
      → Good (m >>= f)
  Good-bind none f h = tt
  Good-bind (some x) f h = h x refl

  Good-if :
      {A : Type 0} (b : Bool) (x y : Option (A × Threads api sys))
      → Good x
      → Good y
      → Good (if b then x else y)
  Good-if true x y h k = h
  Good-if false x y h k = k

  -- The same for two results that are there.
  Good-pair :
      {A : Type 0} (b : Bool) (x y : A × Threads api sys)
      → IsConsistent x.1.heap
      → IsConsistent y.1.heap
      → IsConsistent (if b then x else y).1.heap
  Good-pair true x y h k = h
  Good-pair false x y h k = k

  -- What a call that returned left.
  Good-result :
      {A : Type 0} (m : Option (A × Threads api sys)) (x : A × Threads api sys)
      → m ≡ some x
      → Good m
      → IsConsistent x.1.heap
  Good-result m x e h = subst Good e h

  join-Good : (a : ℕ) (s : Threads api sys) → IsConsistent s.heap → Good (Linux.join api sys a s)
  unfolding Linux.join
  join-Good a s ok = Good-if (a == 0) (some ((null_pointer, 0), s)) _ ok (
      Good-bind (s.heap a) _ (λ t held. Good-bind (sys.pthread_join t.handle s.world) _ (λ x joined.
        Good-pair (x.0 == 0) _ _
          (put s.heap a (some (record t { state = terminated; is_active = false })) ok refl) ok)))

  set_priority-Good :
      (a priority : ℕ) (s : Threads api sys)
      → IsConsistent s.heap
      → Good (Linux.set_priority api sys a priority s)
  unfolding Linux.set_priority
  set_priority-Good a priority s ok =
      Good-if (a == 0) (some (null_pointer, s)) _ ok (elim (Option-cases (of_code priority)) [
        | inl bad ↦ rw bad ok
        | inr (p, known) ↦ rw known (
            Good-bind (s.heap a) _ (λ t held.
              Good-bind (sys.read_word t.handle s.world) _ (λ handle e.
                put s.heap a (some (record t { priority = priority })) ok (at s.heap a t ok held))))
      ])

  release-IsConsistent :
      (a : ℕ) (t : Thread) (s : Threads api sys)
      → IsConsistent s.heap
      → IsConsistent (Linux.release api sys a t s).1.heap
  unfolding Linux.release
  release-IsConsistent a t s ok =
      Good-pair t.is_active _ _
        (Good-pair (not ((sys.pthread_detach t.handle s.world).0 == 0)) _ _ ok (drop s.heap a ok))
        (drop s.heap a ok)

  destroy-Good :
      (a : ℕ) (s : Threads api sys) → IsConsistent s.heap → Good (Linux.destroy api sys a s)
  unfolding Linux.destroy
  destroy-Good a s ok = Good-if (a == 0) (some (null_pointer, s)) _ ok (
      Good-bind (s.heap a) _ (λ t held.
        Good-if (not (is_terminated t.state)) (some (thread_active, s)) _ ok (
          Good-bind (unregister api a s.globals) _ (λ x gone.
            Good-pair (not (is_success x.0)) _ _ ok
              (release-IsConsistent a t (record s { globals = x.1 }) ok)))))

  -- A thread that was started, or that was not.
  enroll-Good : (a : ℕ) (s : Threads api sys) → IsConsistent s.heap → Good (enroll api sys a s)
  unfolding enroll
  enroll-Good a s ok = Good-bind (register api a s.globals) _ (λ x in_table.
      Good-if (is_success x.0) (some ((success, some a), record s { globals = x.1 })) _ ok (
        Good-bind (Linux.destroy api sys a (record s { globals = x.1 })) _ (λ y e.
          drop y.1.heap a (Good-result _ y e (destroy-Good a (record s { globals = x.1 }) ok)))))

  finish-Good :
      (a : ℕ) (t : Thread) (s : Threads api sys) (r : Returns api sys)
      → IsConsistent s.heap
      → t.is_active ≡ true
      → Started api sys a t s r
      → Good (finish api sys a r)
  unfolding finish
  finish-Good a t s r ok active x = rw x.returned (elim (Bool-cases (is_success x.status)) [
    | inr e ↦ rw e (
        except (update x.last.heap a none) s.heap a ok
          (λ b n. update_ne x.last.heap a none b (λ e. n (sym e)) ∙ x.others b n)
          (subst OkAt (sym (update_self x.last.heap a none)) tt))
    | inl e ↦
        let (h, held) = x.started (is_success-true x.status e) in
        rw e (
          enroll-Good a x.last
            (except x.last.heap s.heap a ok x.others (subst OkAt (sym held) (ap not (sym active)))))
  ])

  create-Good :
      (is_out : Bool) (attr : Option Attr) (func arg : ℕ) (s : Threads api sys)
      → IsConsistent s.heap
      → Good (create api sys is_out attr func arg s)
  unfolding create new_thread
  create-Good false attr func arg s ok = ok
  create-Good true attr func arg s ok =
      let (a, w) = sys.malloc s.world in
      let t = new_thread api sys (sys.garbage w) attr func arg in
      let s1 = with_thread api sys (with_world api sys s w) a t in
      elim (ℕ_discrete func 0) [
        | yes e ↦ rw (is_zero func e) ok
        | no nf ↦ rw (nonzero func nf) (elim (ℕ_discrete a 0) [
          | yes e ↦ rw (is_zero a e) ok
          | no na ↦ rw (nonzero a na) (
              finish-Good a t s1 (Linux.create api sys a attr func arg s1)
                (put s.heap a (some t) ok refl) refl
                (create-Started api sys a t attr func arg s1 na nf (update_self s.heap a (some t))))
        ])
      ]

  -- The same for a state alone.
  abbrev Kept : Option (Threads api sys) → Type 0
  Kept none = Unit
  Kept (some s) = IsConsistent s.heap

  kept : {A : Type 0} (m : Option (A × Threads api sys)) → Good m → Kept (do (_, s) ← m; some s)
  kept none h = tt
  kept (some x) h = h

  Kept-bind :
      (m : Option (Threads api sys)) (f : Threads api sys → Option (Threads api sys))
      → Kept m
      → ((s : Threads api sys) → IsConsistent s.heap → Kept (f s))
      → Kept (m >>= f)
  Kept-bind none f h k = tt
  Kept-bind (some s) f h k = k s h

  self-Good : (s : Threads api sys) → IsConsistent s.heap → Good (Linux.self api sys s)
  unfolding Linux.self
  self-Good s ok =
      Good-bind (find_by_handle api (handle_at api sys s) (sys.pthread_self s.world) s.globals) _
        (λ x e. ok)

  step-Kept : (c : Call) (s : Threads api sys) → IsConsistent s.heap → Kept (step api sys c s)
  unfolding step join set_priority suspend resume sleep self destroy Linux.suspend Linux.resume
      Linux.sleep
  step-Kept (creates is_out attr func arg) s ok =
      kept (create api sys is_out attr func arg s) (create-Good is_out attr func arg s ok)
  step-Kept (joins a) s ok = kept (Linux.join api sys a s) (join-Good a s ok)
  step-Kept (sets_priority a priority) s ok =
      kept (Linux.set_priority api sys a priority s) (set_priority-Good a priority s ok)
  step-Kept (suspends a) s ok = ok
  step-Kept (resumes a) s ok = ok
  step-Kept (sleeps ms) s ok = ok
  step-Kept asks_self s ok = kept (Linux.self api sys s) (self-Good s ok)
  step-Kept (destroys a) s ok = kept (Linux.destroy api sys a s) (destroy-Good a s ok)

  run-Kept : (cs : List Call) (s : Threads api sys) → IsConsistent s.heap → Kept (run api sys cs s)
  unfolding run
  run-Kept [] s ok = ok
  run-Kept (c ∷ cs) s ok =
      Kept-bind (step api sys c s) (λ s'. run api sys cs s') (step-Kept c s ok)
        (λ s' ok'. run-Kept cs s' ok')

  -- However the calls of one caller follow each other, with any arguments, on any system: if in the
  -- state before them every thread on the heap is terminated exactly when it is not active, so it is
  -- in the state that they leave, if they return.
  pub run-IsConsistent :
      (cs : List Call) (s last : Threads api sys)
      → IsConsistent s.heap
      → run api sys cs s ≡ some last
      → IsConsistent last.heap
  run-IsConsistent cs s last ok e = subst Kept e (run-Kept cs s ok)
