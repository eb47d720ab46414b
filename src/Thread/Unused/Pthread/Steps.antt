-- ===== src/Thread/Unused/Pthread/Steps.antt =====
-- One call or thread step of src/tt_thread.c, lines 136 to 457, on Linux: it ends and keeps the owners of
-- all cells, or it is stuck.
use tinytools.Prelude.{ℕ, inl, inr, refl, ℕ_discrete, Option-cases}
use tinytools.Mutex.{MutexApi}
use tinytools.ThreadTable.Calls.{find-Ends, nonzero}
use tinytools.Thread.Data.{of_code, running, terminated, Thread, System}
use tinytools.Thread.Unused.{find, begin_routine, end_routine, with_thread}
use tinytools.Thread.Unused.Pthread.{
  port, Pool, after, join, set_priority, suspend, resume, sleep, self, routine_result, timespec,
  system_priority, Event, creates, joins, sets_priority, suspends, resumes, sleeps, asks_self,
  destroys, begins, ends, returns, step,
}
use tinytools.Thread.Unused.Pthread.Laws.{HeapLaws}
use tinytools.Thread.Unused.Pthread.Owned.{IsOwned-same}
use tinytools.Thread.Unused.Pthread.Sound.{IsSound}
use tinytools.Thread.Unused.Pthread.Kept.{
  dangling, blocks, Ends, handle_at, after-IsSound, changed-IsSound, found_thread,
}
use tinytools.Thread.Unused.Pthread.Creation.{create_all_cases}
use tinytools.Thread.Unused.Pthread.Destruction.{pthread_of, destroy_all_cases}

module _ (api : MutexApi) (sys : System) (routine : ℕ) (laws : HeapLaws sys) where
  module _ (s : Pool api sys routine) (sound : IsSound api sys routine laws s) where
    creates-Ends :
        (is_out : _) (attr : _) (func arg : ℕ)
        → Ends api sys routine laws (creates is_out attr func arg) s
    unfolding step
    creates-Ends is_out attr func arg =
        elim (create_all_cases api sys routine laws is_out attr func arg s sound) [
          | inl x ↦ inl (
            x.last,
            rw x.returned refl,
            record {
              ready = x.ready;
              owned =
                  IsOwned-same _ _ _ _ sound.owned _ _ _ _ x.same_heap x.same_cells x.same_live
                    x.same_table;
            },
          )
          | inr x ↦ inl (x.last, rw x.returned refl, x.sound)
        ]

    destroys-Ends : (a : ℕ) → Ends api sys routine laws (destroys a) s
    unfolding step
    destroys-Ends a = elim (destroy_all_cases api sys routine laws a s sound) [
      | inl (null, done) ↦ inl (s, rw done refl, sound)
      | inr (inl (n, nothing, fault)) ↦ inr (rw fault refl, dangling (destroys a) a refl nothing)
      | inr (inr (t, held, inl (alive, refused))) ↦ inl (s, rw refused refl, sound)
      | inr (inr (t, held, inr (dead, x))) ↦ inl (x.last, rw x.returned refl, x.sound)
    ]

    joins-Ends : (a : ℕ) → Ends api sys routine laws (joins a) s
    unfolding step join
    joins-Ends a = elim (ℕ_discrete a 0) [
      | yes null ↦ inl (s, rw null refl, sound)
      | no n ↦ elim (Option-cases (s.heap a)) [
        | inl nothing ↦ inr (rw (nonzero a n, nothing) refl, dangling (joins a) a refl nothing)
        | inr (t, held) ↦
            let (p, cell) = pthread_of api sys routine laws a t s sound held in
            elim (Option-cases (sys.pthread_join p s.world.system)) [
              | inl blocked ↦
                  inr (rw (nonzero a n, held, cell, blocked) refl, blocks a p t held cell blocked)
              | inr ((r, value, v), joined) ↦ inl (
                after api sys routine s v,
                rw (nonzero a n, held, cell, joined) refl,
                after-IsSound api sys routine laws s sound v
                    (laws.join_live p r value s.world.system v joined),
              )
            ]
      ]
    ]

    sets_priority-Ends : (a priority : ℕ) → Ends api sys routine laws (sets_priority a priority) s
    unfolding step set_priority
    sets_priority-Ends a priority = elim (ℕ_discrete a 0) [
      | yes null ↦ inl (s, rw null refl, sound)
      | no n ↦ elim (Option-cases (of_code priority)) [
        | inl unknown ↦ inl (s, rw (nonzero a n, unknown) refl, sound)
        | inr (l, known) ↦ elim (Option-cases (s.heap a)) [
          | inl nothing ↦ inr (
            rw (nonzero a n, known, nothing) refl,
            dangling (sets_priority a priority) a refl nothing,
          )
          | inr (t, held) ↦
              let (p, cell) = pthread_of api sys routine laws a t s sound held in
              let w = s.world.system in
              let level =
                system_priority (sys.sched_get_priority_min w) (sys.sched_get_priority_max w) l in
              let (_, v) = sys.pthread_setschedparam p level w in
              inl (
                with_thread api (port sys routine) (after api sys routine s v) a
                    (record t { priority = priority }),
                rw (nonzero a n, known, held, cell) refl,
                changed-IsSound api sys routine laws s sound a t (record t { priority = priority })
                    v held refl (laws.setschedparam_live p level w),
              )
        ]
      ]
    ]

    asks_self-Ends : Ends api sys routine laws asks_self s
    unfolding step self find
    asks_self-Ends =
        let (x, found) =
          found_thread api sys routine laws s sound (sys.pthread_self s.world.system) in
        let e =
          find-Ends api (handle_at api sys routine laws s) (sys.pthread_self s.world.system) x
            s.globals sound.ready.free found in
        inl (
          record s { globals = e.last },
          rw e.returned refl,
          record {
            ready = record { table = rw e.left sound.ready.table; free = e.free };
            owned =
                IsOwned-same _ _ _ _ sound.owned _ _ _ _ (λ b. refl) (λ b. refl) (λ b. refl) e.left;
          },
        )

    begins-Ends : (a : ℕ) → Ends api sys routine laws (begins a) s
    unfolding step begin_routine
    begins-Ends a = elim (ℕ_discrete a 0) [
      | yes null ↦ inl (s, rw null refl, sound)
      | no n ↦ elim (Option-cases (s.heap a)) [
        | inl nothing ↦ inr (rw (nonzero a n, nothing) refl, dangling (begins a) a refl nothing)
        | inr (t, held) ↦ inl (
          with_thread api (port sys routine) s a (record t { state = running }),
          rw (nonzero a n, held) refl,
          changed-IsSound api sys routine laws s sound a t (record t { state = running })
              s.world.system held refl (λ b. refl),
        )
      ]
    ]

    ends-Ends : (a value : ℕ) → Ends api sys routine laws (ends a value) s
    unfolding step end_routine
    ends-Ends a value = elim (Option-cases (s.heap a)) [
      | inl nothing ↦ inr (rw nothing refl, dangling (ends a value) a refl nothing)
      | inr (t, held) ↦
          let t' : Thread = record t { retval = value; state = terminated } in
          inl (
            with_thread api (port sys routine) s a t',
            rw held refl,
            changed-IsSound api sys routine laws s sound a t t' s.world.system held refl
                (λ b. refl),
          )
    ]

    returns-Ends : (a : ℕ) → Ends api sys routine laws (returns a) s
    unfolding step routine_result
    returns-Ends a = elim (Option-cases (s.heap a)) [
      | inl nothing ↦ inr (rw nothing refl, dangling (returns a) a refl nothing)
      | inr (t, held) ↦ inl (s, rw held refl, sound)
    ]

  -- In a state in which every allocated cell has its owner, each call and each step of a thread's start
  -- routine returns and leaves such a state, or it is stuck.
  pub step_cases :
      (e : Event) (s : Pool api sys routine)
      → IsSound api sys routine laws s
      → Ends api sys routine laws e s
  unfolding step suspend resume sleep
  step_cases (creates is_out attr func arg) s sound = creates-Ends s sound is_out attr func arg
  step_cases (joins a) s sound = joins-Ends s sound a
  step_cases (sets_priority a priority) s sound = sets_priority-Ends s sound a priority
  step_cases (suspends a) s sound = inl (s, refl, sound)
  step_cases (resumes a) s sound = inl (s, refl, sound)
  step_cases (sleeps ms) s sound =
      let (sec, nsec) = timespec ms in
      inl (
        after api sys routine s (sys.nanosleep sec nsec s.world.system).1,
        refl,
        after-IsSound api sys routine laws s sound (sys.nanosleep sec nsec s.world.system).1
            (laws.nanosleep_live sec nsec s.world.system),
      )
  step_cases asks_self s sound = asks_self-Ends s sound
  step_cases (destroys a) s sound = destroys-Ends s sound a
  step_cases (begins a) s sound = begins-Ends s sound a
  step_cases (ends a value) s sound = ends-Ends s sound a value
  step_cases (returns a) s sound = returns-Ends s sound a
