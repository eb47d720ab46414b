-- ===== src/Error.antt =====
-- src/tt_error.c and include/tt_error.h: the last error that occurred, and a callback, behind a mutex.
-- The mutex is any that keeps the laws of `MutexApi`. A callback is a value of a type that the client
-- chooses, and `invoke` is what calling it does, to the client's own data and to the error context,
-- for a callback may call these functions again. `none` is a run that does not return.
pub mod Strings
pub mod Calls
pub mod Uninitialized
pub mod Posix
pub mod Concurrent
mod Examples
use tinytools.Prelude.{Bool, true, false, Option, none, some, not, if◌then◌else◌, ◌>>=◌}
use tinytools.Types.{TtError, success, not_initialized, is_success}
use tinytools.Mutex.{MutexApi}

-- `tt_error_context_t`
pub record ErrorContext (M Callback : Type 0) : Type 0 where
  pub last_error : TtError
  pub callback : Option Callback
  pub mutex : M
  pub initialized : Bool

-- The variable `error_ctx`, and what belongs to the client.
pub record World (M Callback Client : Type 0) : Type 0 where
  pub ctx : ErrorContext M Callback
  pub client : Client

-- What the file is used with: a mutex, callbacks, and the client's own data.
pub record Setup : Type 1 where
  pub api : MutexApi
  pub Callback : Type 0
  pub Client : Type 0

module _ (setup : Setup) where
  open setup use {api, Callback, Client}

  abbrev pub Env : Type 0
  Env = World api.State Callback Client

  abbrev pub Ctx : Type 0
  Ctx = ErrorContext api.State Callback

  -- A call that returns an error code.
  abbrev pub Returns : Type 0
  Returns = Option (TtError × Env)

  abbrev pub with_ctx : Env → Ctx → Env
  with_ctx w c = record w { ctx = c }

  abbrev pub with_mutex : Env → api.State → Env
  with_mutex w m = with_ctx w (record (w.ctx) { mutex = m })

  -- The end of that frame: the unlock, whose result is the result of the call.
  pub unlock_after : Ctx → Env → TtError × Env
  unlock_after c w =
      let (result, m) = api.unlock c.mutex in (result, with_ctx w (record c { mutex = m }))

  -- The frame that deinit, get_last, set_last and register_callback share: the test of `initialized`,
  -- the lock, `body` on the fields, the unlock. The result is the first error, or success.
  pub locked_section : (Ctx → Ctx) → Env → Returns
  unfolding unlock_after
  locked_section body w = if not w.ctx.initialized then some (not_initialized, w) else do
    (result, m) ← api.lock w.ctx.mutex
    if not (is_success result)
        then some (result, with_mutex w m)
        else some (unlock_after (body (record (w.ctx) { mutex = m })) w)

  pub init : Env → TtError × Env
  init w =
      if w.ctx.initialized
      then (success, w)
      else let (result, m) = api.init w.ctx.mutex in
        if not (is_success result) then (result, with_mutex w m) else (
          success,
          with_ctx w
              (record { last_error = success; callback = none; mutex = m; initialized = true }),
        )

  pub deinit : Env → Returns
  deinit = locked_section (λ c. record c { callback = none; initialized = false })

  -- The error code is the value that was read, or that of a call that failed.
  pub get_last : Env → Returns
  get_last w = do
    (result, w') ← locked_section (λ c. c) w
    some (if not (is_success result) then result else w'.ctx.last_error, w')

  pub register_callback : Option Callback → Env → Returns
  register_callback callback = locked_section (λ c. record c { callback = callback })

  module _ (invoke : Callback → TtError → Env → Option Env) where
    -- `if (callback != NULL && error != TT_SUCCESS) { callback(error); }`, then success
    abbrev pub notify : Option Callback → TtError → Env → Returns
    notify none error w = some (success, w)
    notify (some callback) error w =
        if is_success error
        then some (success, w)
        else do w' ← invoke callback error w; some (success, w')

    -- The callback is the one that stood in the context inside the lock; the call comes after the
    -- unlock.
    pub set_last : TtError → Env → Returns
    set_last error w = do
      (result, w') ← locked_section (λ c. record c { last_error = error }) w
      if not (is_success result) then some (result, w') else notify w'.ctx.callback error w'

    pub clear : Env → Returns
    clear = set_last success

  -- `tt_error_get_last() == TT_SUCCESS`
  pub last_is_success : Env → Option (Bool × Env)
  last_is_success w = do (error, w') ← get_last w; some (is_success error, w')
