-- ===== src/Thread/Unused/Pthread/Kept.antt =====
-- Lines 136 to 457 of src/tt_thread.c on Linux: when a call or thread step ends, and changes after which
-- every allocated cell still has its owner.
use tinytools.Prelude.{ℕ, ◌≡◌, ◌⊎◌, inl, inr, refl, Option, none, some, arith, ◌>>=◌, Option-cases}
use tinytools.Mutex.{MutexApi}
use tinytools.ThreadTable.{find_loop}
use tinytools.ThreadTable.Find.{find_loop_lem, copies-Readable}
use tinytools.Thread.Data.{Thread, System}
use tinytools.Thread.Unused.{with_thread}
use tinytools.Thread.Unused.Pthread.{
  port, Pool, after, Event, joins, sets_priority, destroys, begins, ends, returns, step,
}
use tinytools.Thread.Unused.Pthread.Laws.{HeapLaws}
use tinytools.Thread.Unused.Pthread.Owned.{IsOwned-same, IsOwned-change}
use tinytools.Thread.Unused.Pthread.Launch.{live}
use tinytools.Thread.Unused.Pthread.Sound.{IsSound}

-- The thread that an event reads.
abbrev pub reads : Event → Option ℕ
reads (joins a) = some a
reads (sets_priority a priority) = some a
reads (destroys a) = some a
reads (begins a) = some a
reads (ends a value) = some a
reads (returns a) = some a
reads _ = none

module _ (api : MutexApi) (sys : System) (routine : ℕ) (laws : HeapLaws sys) where
  -- Why an event does not end: it reads a thread where there is none, or the system's join blocks.
  pub data Stuck (s : Pool api sys routine) : Event → Type 0 where
    dangling : (e : Event) (a : ℕ) → reads e ≡ some a → s.heap a ≡ none → Stuck s e
    blocks :
        (a p : ℕ) (t : Thread)
        → s.heap a ≡ some t
        → s.world.cells t.handle ≡ some p
        → sys.pthread_join p s.world.system ≡ none
        → Stuck s (joins a)

  abbrev pub Kept : Option (Pool api sys routine) → Type 0
  Kept r = (s' : Pool api sys routine) × (r ≡ some s') × IsSound api sys routine laws s'

  abbrev pub Ends : Event → Pool api sys routine → Type 0
  Ends e s = Kept (step api sys routine e s) ⊎ (step api sys routine e s ≡ none) × Stuck s e

  abbrev pub handle_at : Pool api sys routine → ℕ → Option ℕ
  handle_at s a = do t ← s.heap a; some t.handle

  module _ (s : Pool api sys routine) (sound : IsSound api sys routine laws s) where
    -- Nothing changed but the system, which allocated and freed nothing.
    pub after-IsSound :
        (v : sys.World)
        → ((b : ℕ) → laws.live v b ≡ laws.live s.world.system b)
        → IsSound api sys routine laws (after api sys routine s v)
    after-IsSound v same = record {
      ready = sound.ready;
      owned = IsOwned-same _ _ _ _ sound.owned _ _ _ _ (λ b. refl) (λ b. refl) same refl;
    }

    -- A thread changed, but not its handle, and perhaps the system.
    pub changed-IsSound :
        (a : ℕ) (t t' : Thread) (v : sys.World)
        → s.heap a ≡ some t
        → t'.handle ≡ t.handle
        → ((b : ℕ) → laws.live v b ≡ laws.live s.world.system b)
        → IsSound api sys routine laws
            (with_thread api (port sys routine) (after api sys routine s v) a t')
    changed-IsSound a t t' v held same live_same = record {
      ready = sound.ready;
      owned =
          IsOwned-same _ _ _ _
            (IsOwned-change s.heap s.world.cells (live sys routine laws s.world) s.globals.table
              sound.owned a t t' held same)
            _ _ _ _ (λ b. refl) (λ b. refl) live_same refl;
    }

    -- The search of the table reads only threads that are on the heap.
    pub found_thread :
        (handle : ℕ) → (x : ℕ) × (find_loop (handle_at s) handle s.globals.table ≡ some x)
    found_thread handle =
        let readable = copies-Readable (handle_at s) s.globals.table (λ x there.
          elim (Option-cases (s.heap x)) [
            | inl nothing ↦ absurd (ground (arith, sound.owned.listed x))
            | inr (t, held) ↦ (t.handle, rw held refl)
          ]) in
        elim (find_loop_lem (handle_at s) handle s.globals.table readable) [
          | inl (null, all) ↦ (0, null)
          | inr (x, found, other) ↦ (x, found)
        ]
