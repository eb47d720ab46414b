-- ===== src/Thread/Unused/Pthread/Model.antt =====
-- A concrete system for lines 136 to 457 of src/tt_thread.c on Linux: a heap of `room` cells that keeps
-- `HeapLaws`. The handle of a thread is ten times its address, and a join gives back the handle.
use tinytools.Prelude.{
  ℕ, ◌+◌, ◌-◌, ◌*◌, ◌≡◌, ◌≢◌, refl, Bool, true, false, none, some, ◌==◌, ◌&&◌, leb, if◌then◌else◌,
  arith,
}
use tinytools.Prelude.Threads.{update}
use tinytools.Prelude.Int.{pos}
use tinytools.Thread.Data.{running, Thread, System}
use tinytools.Thread.Unused.Pthread.Laws.{HeapLaws}

-- Addresses are handed out in order, up to `last`; the marks tell which are in use.
pub record Memory : Type 0 where
  pub last : ℕ
  pub room : ℕ
  pub marks : ℕ → Bool

abbrev pub is_live : Memory → ℕ → Bool
is_live w b = leb b w.last && w.marks b

abbrev pub blank : Thread
blank = record {
  handle = 0;
  state = running;
  priority = 0;
  func = 0;
  arg = 0;
  name = 0;
  stack_size = 0;
  retval = 0;
  is_active = false;
}

abbrev pub alloc : Memory → ℕ × Memory
alloc w = if w.room == 0 then (0, w) else (
  w.last + 1,
  record { last = w.last + 1; room = w.room - 1; marks = update w.marks (w.last + 1) true },
)

abbrev pub system : System
system = record {
  World = Memory;
  malloc = alloc;
  garbage = λ w. blank;
  free = λ a w. record w { marks = update w.marks a false };
  tt_thread_name = 5;
  pthread_attr_init = λ w. (0, w);
  pthread_attr_setstacksize = λ n w. (0, w);
  pthread_attr_destroy = λ w. w;
  pthread_create = λ func arg w. (0, 10 * arg, w);
  pthread_join = λ handle w. some (0, handle, w);
  pthread_detach = λ handle w. (0, w);
  pthread_self = λ w. 70;
  pthread_setschedparam = λ handle n w. (0, w);
  pthread_exit = λ retval w. none;
  sched_get_priority_min = λ w. pos 0;
  sched_get_priority_max = λ w. pos 0;
  nanosleep = λ sec nsec w. (0, w);
  read_word = λ a w. if a == 2 then some 10 else none;
}

alloc-null : (w : Memory) → (alloc w).0 ≡ 0 → (b : ℕ) → is_live (alloc w).1 b ≡ is_live w b
alloc-null w e b = ground arith

alloc-cell :
    (w : Memory)
    → (alloc w).0 ≢ 0
    → (is_live w (alloc w).0 ≡ false)
      × ((b : ℕ) → is_live (alloc w).1 b ≡ update (is_live w) (alloc w).0 true b)
alloc-cell w n = (ground arith, (λ b. ground arith))

free-cell :
    (a : ℕ) (w : Memory)
    → is_live w a ≡ true
    → (b : ℕ)
    → is_live (record w { marks = update w.marks a false }) b ≡ update (is_live w) a false b
free-cell a w here b = ground arith

join-cell :
    (h r v : ℕ) (w w' : Memory)
    → system.pthread_join h w ≡ some (r, v, w')
    → (b : ℕ) → is_live w' b ≡ is_live w b
join-cell h r v w w' e b = ground arith

unfoldable pub system_laws : HeapLaws system
unfolding alloc-null alloc-cell free-cell join-cell
system_laws = record {
  live = is_live;
  malloc_null = alloc-null;
  malloc_cell = alloc-cell;
  free_cell = free-cell;
  attr_init_live = λ w b. refl;
  setstacksize_live = λ n w b. refl;
  attr_destroy_live = λ w b. refl;
  create_live = λ func arg w b. refl;
  join_live = join-cell;
  detach_live = λ h w b. refl;
  setschedparam_live = λ h n w b. refl;
  nanosleep_live = λ m n w b. refl;
}
