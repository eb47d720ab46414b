-- ===== src/Thread/Unused/Bare/Calls.antt =====
-- Lines 136 to 457 of src/tt_thread.c without a platform: what calls return, against the functions that
-- include/tt_thread.h has for a build without threads, and what they leave allocated.
use tinytools.Prelude.{ℕ, ◌+◌, ◌≡◌, ◌≢◌, true, some, List, [], ◌∷◌, map}
use tinytools.Mutex.{MutexApi}
use tinytools.Thread.Api.{
  Call, creates, joins, sets_priority, suspends, resumes, sleeps, asks_self, destroys,
}
use tinytools.Thread.Stubs
use tinytools.Thread.Stubs.{answer, of_thread, attr_init, get_state, init}
use tinytools.Thread.Unused.Bare.{Heap, Pool, run}

-- A call with a function and pointers that are not NULL, other than a destruction.
abbrev pub IsUsual : Call → Type 0
IsUsual (creates is_out attr func arg) = (is_out ≡ true) × (func ≢ 0)
IsUsual (joins thread) = thread ≢ 0
IsUsual (sets_priority thread priority) = thread ≢ 0
IsUsual (suspends thread) = thread ≢ 0
IsUsual (resumes thread) = thread ≢ 0
IsUsual (sleeps ms) = Unit
IsUsual asks_self = Unit
IsUsual (destroys thread) = ⊥

abbrev pub AllUsual : List Call → Type 0
AllUsual [] = Unit
AllUsual (c ∷ cs) = IsUsual c × AllUsual cs

-- How many creations there are.
abbrev pub creations : List Call → ℕ
creations [] = 0
creations (creates is_out attr func arg ∷ cs) = 1 + creations cs
creations (c ∷ cs) = creations cs

module _ (api : MutexApi) (heap : Heap) (live : heap.World → ℕ)
    (never_null : (w : heap.World) → (heap.malloc w).0 ≢ 0)
    (one_more : (w : heap.World) → live (heap.malloc w).1 ≡ live w + 1) where
  -- A call that answers as without threads, and leaves so many more cells allocated.
  pub record Leaves (cs : List Call) (s : Pool api heap) : Type 0 where
    pub last : Pool api heap
    pub returned : run api heap cs s ≡ some (map (λ c. answer (of_thread c)) cs, last)
    pub same_globals : last.globals ≡ s.globals
    pub leaked : live last.world ≡ live s.world + creations cs
