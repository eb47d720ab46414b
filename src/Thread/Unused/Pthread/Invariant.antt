-- ===== src/Thread/Unused/Pthread/Invariant.antt =====
-- Sequences of calls and thread steps of src/tt_thread.c, lines 136 to 457, on Linux.
use tinytools.Prelude.{ℕ, ◌≡◌, ◌⊎◌, inl, inr, refl, none, some, List, [], ◌∷◌, ◌++◌}
use tinytools.Mutex.{MutexApi}
use tinytools.Thread.Data.{System}
use tinytools.Thread.Unused.Pthread.{Pool, Event, run}
use tinytools.Thread.Unused.Pthread.Laws.{HeapLaws}
use tinytools.Thread.Unused.Pthread.Sound.{IsSound}
use tinytools.Thread.Unused.Pthread.Kept.{Stuck, Kept}
use tinytools.Thread.Unused.Pthread.Steps.{step_cases}

module _ (api : MutexApi) (sys : System) (routine : ℕ) (laws : HeapLaws sys) where
  -- A sequence that stops at one event, after the events `done`.
  pub record Stops (es : List Event) (s : Pool api sys routine) : Type 0 where
    pub done : List Event
    pub event : Event
    pub rest : List Event
    pub split : es ≡ done ++ (event ∷ rest)
    pub at : Pool api sys routine
    pub reached : run api sys routine done s ≡ some at
    pub sound : IsSound api sys routine laws at
    pub stuck : Stuck api sys routine laws at event

  -- From a state in which every allocated cell has its owner, every sequence of calls and thread steps
  -- either returns, and leaves such a state: no cell is leaked, none is freed twice, and each thread
  -- has a handle of its own and is in the table once. Or it stops, having left such a state, at an event
  -- that reads a thread where there is none or at a join on which the system blocks.
  pub run_cases :
      (es : List Event) (s : Pool api sys routine)
      → IsSound api sys routine laws s
      → Kept api sys routine laws (run api sys routine es s)
        ⊎ (run api sys routine es s ≡ none) × Stops es s
  unfolding run
  run_cases [] s sound = inl (s, refl, sound)
  run_cases (e ∷ es) s sound = elim (step_cases api sys routine laws e s sound) [
    | inr (fault, stuck) ↦ inr (
      rw fault refl,
      record {
        done = [];
        event = e;
        rest = es;
        split = refl;
        at = s;
        reached = refl;
        sound = sound;
        stuck = stuck;
      },
    )
    | inl (s', stepped, sound') ↦ elim (run_cases es s' sound') [
      | inl (last, ran, ok) ↦ inl (last, rw (stepped, ran) refl, ok)
      | inr (fault, x) ↦ inr (
        rw (stepped, fault) refl,
        record {
          done = e ∷ x.done;
          event = x.event;
          rest = x.rest;
          split = rw (← x.split) refl;
          at = x.at;
          reached = rw (stepped, x.reached) refl;
          sound = x.sound;
          stuck = x.stuck;
        },
      )
    ]
  ]
