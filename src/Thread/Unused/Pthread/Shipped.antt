-- ===== src/Thread/Unused/Pthread/Shipped.antt =====
-- Lines 136 to 457 of src/tt_thread.c on Linux against the code that took their place,
-- src/platform/linux/tt_platform_linux.c.
use tinytools.Prelude.{
  ℕ, ◌+◌, ◌*◌, ◌%◌, ◌≡◌, ◌↔◌, inl, inr, refl, some, arith, ◌>>=◌, ℕ_discrete, Option-cases, ap,
}
use tinytools.Prelude.Int.{ℤ}
use tinytools.Mutex.{MutexApi}
use tinytools.ThreadTable.Calls.{nonzero}
use tinytools.Thread.Data.{Priority, low, normal, high, realtime, of_code, System, Threads}
use tinytools.Thread.Linux
use tinytools.Thread.Unused.Pthread.{Pool, system_priority, timespec, set_priority}

levels_lem :
    (min_prio max_prio : ℤ) (p : Priority)
    → system_priority min_prio max_prio p ≡ Linux.system_priority min_prio max_prio p
unfolding system_priority Linux.system_priority
levels_lem min_prio max_prio low = refl
levels_lem min_prio max_prio normal = refl
levels_lem min_prio max_prio high = refl
levels_lem min_prio max_prio realtime = refl

-- `tt_thread_sleep` of the unused code asks for whole seconds only: the part of the time below a second
-- is dropped, so that less than a second is no sleep at all. It asks for the same time as the Linux
-- port exactly when whole seconds were asked for.
pub sleep_truncated :
    (ms : ℕ)
    → ((timespec ms).1 ≡ 0)
      × ((timespec ms).0 * 1000 + ms % 1000 ≡ ms)
      × ((timespec ms ≡ Linux.timespec ms) ↔ (ms % 1000 ≡ 0))
unfolding timespec Linux.timespec
sleep_truncated ms = (
  omega arith,
  omega arith,
  ((λ e. let nsec = ap (λ t. t.1) e in omega (arith, nsec)), (λ e. ground (arith, e))),
)

module _ (api : MutexApi) (sys : System) (routine : ℕ) where
  -- What the Linux port sees of a state.
  abbrev pub view : Pool api sys routine → Threads api sys
  view s = record { heap = s.heap; globals = s.globals; world = s.world.system }

  -- `tt_thread_set_priority` of the unused code and of the Linux port do the same, in all that the port
  -- sees, results and faults included, where the words in memory are the cells with the handles: the
  -- port still reads a handle as the address of such a cell.
  pub set_priority_same :
      (a n : ℕ) (s : Pool api sys routine)
      → ((h : ℕ) → sys.read_word h s.world.system ≡ s.world.cells h)
      → (do (e, s') ← set_priority api sys routine a n s; some (e, view s'))
        ≡ Linux.set_priority api sys a n (view s)
  unfolding set_priority Linux.set_priority
  set_priority_same a n s words = elim (ℕ_discrete a 0) [
    | yes null ↦ rw null refl
    | no m ↦ elim (Option-cases (of_code n)) [
      | inl unknown ↦ rw (nonzero a m, unknown) refl
      | inr (p, known) ↦ elim (Option-cases (s.heap a)) [
        | inl nothing ↦ rw (nonzero a m, known, nothing) refl
        | inr (t, held) ↦ elim (Option-cases (s.world.cells t.handle)) [
          | inl no_cell ↦ rw (nonzero a m, known, held, words t.handle, no_cell) refl
          | inr (h, cell) ↦
              rw
                (
                  nonzero a m,
                  known,
                  held,
                  words t.handle,
                  cell,
                  levels_lem (sys.sched_get_priority_min s.world.system)
                      (sys.sched_get_priority_max s.world.system) p,
                )
                refl
        ]
      ]
    ]
  ]
