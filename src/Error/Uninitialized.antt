-- ===== src/Error/Uninitialized.antt =====
-- The error module before `tt_error_init` and after `tt_error_deinit`, and what becomes of an error of
-- its mutex.
use tinytools.Prelude.{
  ◌≡◌, ◌≢◌, ◌⊎◌, inl, inr, refl, sym, ◌∙◌, ap, true, false, Option, none, some, Bool-cases,
}
use tinytools.Types.{
  TtError, success, not_initialized, is_success, is_success-false, is_success-true,
}
use tinytools.Error.{
  Setup, Env, Ctx, with_ctx, with_mutex, locked_section, init, deinit, get_last, register_callback,
  set_last, clear, last_is_success,
}
use tinytools.Error.Calls.{IsReady}

module _ (setup : Setup) where
  open setup use {api, Callback, Client}

  section-refused :
      (body : Ctx setup → Ctx setup) (w : Env setup)
      → w.ctx.initialized ≡ false
      → locked_section setup body w ≡ some (not_initialized, w)
  unfolding locked_section
  section-refused body w h = rw h refl

  section-failed :
      (body : Ctx setup → Ctx setup) (w : Env setup) (failure : TtError) (m : api.State)
      → w.ctx.initialized ≡ true
      → api.lock w.ctx.mutex ≡ some (failure, m)
      → failure ≢ success
      → locked_section setup body w ≡ some (failure, with_mutex setup w m)
  unfolding locked_section
  section-failed body w failure m h l f = rw (h, l, is_success-false failure f) refl

  module _ (invoke : Callback → TtError → Env setup → Option (Env setup))
      (callback : Option Callback) (e : TtError) (w : Env setup) where
    -- A module that is not initialised refuses every call with NOT_INITIALIZED, touches nothing, not
    -- even its mutex, and calls no callback.
    pub refused :
        w.ctx.initialized ≡ false
        → (deinit setup w ≡ some (not_initialized, w))
          × (get_last setup w ≡ some (not_initialized, w))
          × (set_last setup invoke e w ≡ some (not_initialized, w))
          × (clear setup invoke w ≡ some (not_initialized, w))
          × (register_callback setup callback w ≡ some (not_initialized, w))
          × (last_is_success setup w ≡ some (false, w))
    unfolding deinit get_last set_last clear register_callback last_is_success
    refused h = (
      section-refused (λ c. record c { callback = none; initialized = false }) w h,
      rw (section-refused (λ c. c) w h) refl,
      rw (section-refused (λ c. record c { last_error = e }) w h) refl,
      rw (section-refused (λ c. record c { last_error = success }) w h) refl,
      section-refused (λ c. record c { callback = callback }) w h,
      rw (section-refused (λ c. c) w h) refl,
    )

    -- If the mutex cannot be locked, every call reports that error, and neither the stored error nor
    -- the callback changes, and no callback is called.
    pub lock_failed :
        (failure : TtError) (m : api.State)
        → w.ctx.initialized ≡ true
        → api.lock w.ctx.mutex ≡ some (failure, m)
        → failure ≢ success
        → (deinit setup w ≡ some (failure, with_mutex setup w m))
          × (get_last setup w ≡ some (failure, with_mutex setup w m))
          × (set_last setup invoke e w ≡ some (failure, with_mutex setup w m))
          × (clear setup invoke w ≡ some (failure, with_mutex setup w m))
          × (register_callback setup callback w ≡ some (failure, with_mutex setup w m))
          × (last_is_success setup w ≡ some (false, with_mutex setup w m))
    unfolding deinit get_last set_last clear register_callback last_is_success
    lock_failed failure m h l f =
        let bad = is_success-false failure f in
        (
          section-failed (λ c. record c { callback = none; initialized = false }) w failure m h l f,
          rw (section-failed (λ c. c) w failure m h l f, bad) refl,
          rw (section-failed (λ c. record c { last_error = e }) w failure m h l f, bad) refl,
          rw (section-failed (λ c. record c { last_error = success }) w failure m h l f, bad) refl,
          section-failed (λ c. record c { callback = callback }) w failure m h l f,
          rw (section-failed (λ c. c) w failure m h l f, bad, bad) refl,
        )

  init-up : (w : Env setup) → w.ctx.initialized ≡ true → init setup w ≡ (success, w)
  unfolding init
  init-up w h = rw h refl

  init-failed :
      (w : Env setup)
      → w.ctx.initialized ≡ false
      → (api.init w.ctx.mutex).0 ≢ success
      → init setup w ≡ ((api.init w.ctx.mutex).0, with_mutex setup w (api.init w.ctx.mutex).1)
  unfolding init
  init-failed w h f = rw (h, is_success-false _ f) refl

  init-made :
      (w : Env setup)
      → w.ctx.initialized ≡ false
      → (api.init w.ctx.mutex).0 ≡ success
      → init setup w ≡ (
        success,
        with_ctx setup w (record {
          last_error = success;
          callback = none;
          mutex = (api.init w.ctx.mutex).1;
          initialized = true;
        }),
      )
  unfolding init
  init-made w h f = rw (h, f) refl

  -- The result and the mutex are those of `tt_mutex_init`.
  pub init-mutex :
      (w : Env setup)
      → w.ctx.initialized ≡ false
      → ((init setup w).0 ≡ (api.init w.ctx.mutex).0)
        × ((init setup w).1.ctx.mutex ≡ (api.init w.ctx.mutex).1)
  init-mutex w down = elim (Bool-cases (is_success (api.init w.ctx.mutex).0)) [
    | inl yes_made ↦
        let made = is_success-true (api.init w.ctx.mutex).0 yes_made in
        rw (init-made w down made) (sym made, refl)
    | inr not_made ↦
        let failed : (api.init w.ctx.mutex).0 ≢ success = λ e. cc (ap is_success e) in
        rw (init-failed w down failed) (refl, refl)
  ]

  pub init-IsReady :
      (w : Env setup)
      → w.ctx.initialized ≡ false
      → (init setup w).0 ≡ success
      → IsReady setup (init setup w).1
  init-IsReady w down e =
      let made = sym (init-mutex w down).0 ∙ e in
      rw (init-made w down made) (record { up = refl; free = api.init_lem w.ctx.mutex made })

  -- `tt_error_init` on a module that is not initialised: either it succeeds, and the module is ready,
  -- with no error and no callback, or it reports why the mutex cannot be made, and the module stays as
  -- it was, but for the mutex. On an initialised module it succeeds and changes nothing.
  pub error_init_cases :
      (w : Env setup)
      → let (e, w') = init setup w in
        ((w.ctx.initialized ≡ true) × (e ≡ success) × (w' ≡ w))
        ⊎ ((w.ctx.initialized ≡ false)
            × (e ≡ success)
            × IsReady setup w'
            × (w'.ctx.last_error ≡ success)
            × (w'.ctx.callback ≡ none))
        ⊎ ((w.ctx.initialized ≡ false) × (e ≢ success) × (w' ≡ with_mutex setup w w'.ctx.mutex))
  error_init_cases w = elim (Bool-cases w.ctx.initialized) [
    | inl up ↦ rw (init-up w up) (inl (up, refl, refl))
    | inr down ↦ elim (Bool-cases (is_success (api.init w.ctx.mutex).0)) [
      | inl yes_made ↦
          let made = is_success-true (api.init w.ctx.mutex).0 yes_made in
          rw (init-made w down made) (
            inr (
              inl (
                down,
                refl,
                record { up = refl; free = api.init_lem w.ctx.mutex made },
                refl,
                refl,
              )))
      | inr not_made ↦
          let failed : (api.init w.ctx.mutex).0 ≢ success = λ e. cc (ap is_success e) in
          rw (init-failed w down failed) (inr (inr (down, failed, refl)))
    ]
  ]
