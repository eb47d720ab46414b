-- ===== src/Error/Posix.antt =====
-- src/tt_error.c on the Linux mutex: what its life cycle leaves on the heap.
use tinytools.Prelude.{ℕ, ◌+◌, ◌≡◌, sym, ◌∙◌, ap, false, some}
use mathlib.Core.Path.{subst}
use tinytools.Types.{TtError, success}
use tinytools.Mutex.Posix
use tinytools.Mutex.Posix.{Pthreads, PosixMutex, Heap}
use tinytools.Mutex.Posix.Laws.{PthreadLaws}
use tinytools.Mutex.Posix.Calls.{posix_api, init-live, lock-live, unlock-live}
use tinytools.Error.{Setup, Env, init, deinit}
use tinytools.Error.Calls.{deinit_lem}
use tinytools.Error.Uninitialized.{init-mutex, init-IsReady}

module _ (p : Pthreads) (laws : PthreadLaws p) (Callback Client : Type 0) where
  abbrev pub on_linux : Setup
  on_linux = record { api = posix_api p laws; Callback = Callback; Client = Client }

  abbrev posix_init : Heap p → TtError × Heap p
  posix_init = Posix.init p

  -- The allocated heap cells, in a state of the error module.
  abbrev pub live_cells : Env on_linux → ℕ
  live_cells w = laws.live w.ctx.mutex.1

  -- `tt_error_deinit` gives back nothing: after `tt_error_init` and `tt_error_deinit`, both with
  -- success, the module is not initialised again and one more heap cell is allocated than before.
  pub live-deinit-init :
      (w : Env on_linux) (m : PosixMutex)
      → w.ctx.initialized ≡ false
      → w.ctx.mutex.0 ≡ some m
      → (init on_linux w).0 ≡ success
      → (w' : Env on_linux) × (deinit on_linux (init on_linux w).1 ≡ some (success, w'))
        × (w'.ctx.initialized ≡ false)
        × (live_cells w' ≡ live_cells w + 1)
  live-deinit-init w m down there made =
      let x = deinit_lem on_linux (init on_linux w).1 (init-IsReady on_linux w down made) in
      let (held, locked, unlocked) = x.calls in
      let (status, mutex) = init-mutex on_linux w down in
      (
        x.last,
        x.returned,
        ap (λ v. v.ctx.initialized) x.fields,
        ap (λ h. laws.live h.1) unlocked
            ∙ unlock-live p laws held
            ∙ lock-live p laws (init on_linux w).1.ctx.mutex success held locked
            ∙ ap (λ h. laws.live h.1) mutex
            ∙ made_live (sym status ∙ made),
      )
    where
      made_live :
          (posix_init w.ctx.mutex).0 ≡ success
          → laws.live (posix_init w.ctx.mutex).1.1 ≡ live_cells w + 1
      made_live =
          subst (λ h. (posix_init h).0 ≡ success → laws.live (posix_init h).1.1 ≡ laws.live h.1 + 1)
            (λ i. (sym there i, w.ctx.mutex.1)) (init-live p laws m w.ctx.mutex.1)
