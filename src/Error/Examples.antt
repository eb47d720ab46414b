-- ===== src/Error/Examples.antt =====
-- Runs of the error module on the general mutex, after tests/test_error.c, with a callback that calls
-- the module again; and the theorems at concrete states.
use tinytools.Mutex.Spin.Samples.{free_mutex}
use tinytools.Prelude.{
  ◌+◌, ◌≡◌, ◌↔◌, refl, Bool, true, false, Option, none, some, List, [], ◌∷◌, ◌>>=◌,
}
use tinytools.Types.{TtError, success, buffer_full, not_initialized, mutex_unlock, unknown}
use tinytools.Mutex.Spin
use tinytools.Mutex.Spin.{SpinMutex}
use tinytools.Mutex.Spin.Api.{spin_api}
use tinytools.Mutex.Posix
use tinytools.Mutex.Posix.{PosixMutex}
use tinytools.Mutex.Posix.Model.{Cell, library, library_laws}
use tinytools.Mutex.Posix.Model
use tinytools.Error.{
  Setup, Env, with_mutex, locked_section, unlock_after, init, deinit, get_last, set_last,
}
use tinytools.Error.Strings.{to_string, to_string_int, shown_as, to_string-injective}
use tinytools.Error.Calls.{IsReady}
use tinytools.Error.Concurrent.{sets}
use tinytools.Error.Concurrent.Alone.{DoesAlone, call-DoesAlone}
use tinytools.Error.Posix.{on_linux, live_cells, live-deinit-init}

-- One callback; the client's data is what the callback has seen.
abbrev setup : Setup
setup = record { api = spin_api 0; Callback = Unit {0}; Client = List TtError }

-- The callback asks for the last error itself.
abbrev report : Unit {0} → TtError → Env setup → Option (Env setup)
report callback e w = do
  (seen, w') ← get_last setup w
  some (record w' { client = seen ∷ w'.client })

abbrev state : TtError → Option (Unit {0}) → Bool → List TtError → Env setup
state e callback up seen = record {
  ctx = record { last_error = e; callback = callback; mutex = free_mutex; initialized = up };
  client = seen;
}

abbrev up : Env setup
up = state success (some tt) true []

abbrev down : Env setup
down = state success none false []

up-IsReady : IsReady setup up
up-IsReady = record { up = refl; free = record { ready = refl; clear = refl } }

-- A callback that locks the same mutex does not wait for ever, and sees the error that was set.
reentrant_callback :
    set_last setup report buffer_full up
    ≡ some (success, state buffer_full (some tt) true (buffer_full ∷ []))
unfolding set_last get_last locked_section unlock_after Spin.lock Spin.unlock
reentrant_callback = refl

unknown_for_unlock : to_string_int 14 ≡ "Unknown error"
unfolding to_string_int
unknown_for_unlock = refl

to_string-injective_example :
    (to_string mutex_unlock ≡ to_string unknown) ↔ (shown_as mutex_unlock ≡ shown_as unknown)
to_string-injective_example = to_string-injective mutex_unlock unknown

call-DoesAlone_example : DoesAlone setup report (sets buffer_full) up
call-DoesAlone_example = call-DoesAlone setup report (sets buffer_full) up up-IsReady

-- A mutex that was destroyed behind the module's back cannot be locked.
abbrev broken : Env setup
broken = with_mutex setup up (record { lock = 0; initialized = false })

lock_broken : (spin_api 0).lock broken.ctx.mutex ≡ some (not_initialized, broken.ctx.mutex)
unfolding Spin.lock
lock_broken = refl

-- On Linux, from an empty heap.
abbrev linux : Setup
linux = on_linux library library_laws (Unit {0}) (Unit {0})

abbrev heap : Model.World
heap = record { cells = λ _. Cell.unallocated; next = 0; room = 9; live = 0; fault = false }

abbrev raw_mutex : PosixMutex
raw_mutex = record { lock = 0; initialized = false }

abbrev linux_down : Env linux
linux_down = record {
  ctx = record {
    last_error = success;
    callback = none;
    mutex = (some raw_mutex, heap);
    initialized = false;
  };
  client = tt;
}

init_linux : (init linux linux_down).0 ≡ success
unfolding init Posix.init
init_linux = refl

live-deinit-init_example :
    (w' : Env linux) × (deinit linux (init linux linux_down).1 ≡ some (success, w'))
    × (w'.ctx.initialized ≡ false)
    × (live_cells library library_laws (Unit {0}) (Unit {0}) w'
        ≡ live_cells library library_laws (Unit {0}) (Unit {0}) linux_down + 1)
live-deinit-init_example =
    live-deinit-init library library_laws (Unit {0}) (Unit {0}) linux_down raw_mutex refl refl
      init_linux
