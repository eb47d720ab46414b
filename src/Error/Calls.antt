-- ===== src/Error/Calls.antt =====
-- The error module once it is initialised, over any mutex that keeps its laws: every call returns,
-- and what it returns and leaves.
use tinytools.Prelude.{◌≡◌, refl, ◌∙◌, ap, true, false, Option, none, some}
use tinytools.Types.{TtError, success}
use tinytools.Error.{
  Setup, Env, Ctx, Returns, with_ctx, locked_section, unlock_after, deinit, get_last,
  register_callback, notify, set_last, clear, last_is_success,
}

module _ (setup : Setup) where
  open setup use {api, Callback, Client}

  -- Initialised, with a mutex that nobody holds: what every call finds and leaves.
  pub record IsReady (w : Env setup) : Type 0 where
    pub up : w.ctx.initialized ≡ true
    pub free : api.IsFree w.ctx.mutex

  -- A call that returns `e` and leaves `body` of the fields, the client's data as they were, and a
  -- mutex that nobody holds, after one lock and one unlock.
  pub record Ends (e : TtError) (body : Ctx setup → Ctx setup) (w : Env setup) (r : Returns setup)
      : Type 0 where
    pub last : Env setup
    pub returned : r ≡ some (e, last)
    pub free : api.IsFree last.ctx.mutex
    pub calls :
        (m : api.State) × (api.lock w.ctx.mutex ≡ some (success, m))
        × (last.ctx.mutex ≡ (api.unlock m).1)
    pub fields : last ≡ with_ctx setup w (record (body (w.ctx)) { mutex = last.ctx.mutex })

  -- The body of a locked section leaves the mutex alone, and does not look at it.
  abbrev pub IsFieldwise : (Ctx setup → Ctx setup) → Type 0
  IsFieldwise body =
      (c : Ctx setup) (m : api.State)
      → body (record c { mutex = m }) ≡ record (body c) { mutex = m }

  -- The context under a mutex `m`.
  abbrev under : Ctx setup → api.State → Ctx setup
  under c m = record c { mutex = m }

  section-unlock_after :
      (body : Ctx setup → Ctx setup) (w : Env setup) (m : api.State)
      → w.ctx.initialized ≡ true
      → api.lock w.ctx.mutex ≡ some (success, m)
      → locked_section setup body w ≡ some (unlock_after setup (body (under w.ctx m)) w)
  unfolding locked_section
  section-unlock_after body w m up locked = rw (up, locked) refl

  unlock_after-eq :
      (c : Ctx setup) (w : Env setup)
      → (api.unlock c.mutex).0 ≡ success
      → unlock_after setup c w ≡ (success, with_ctx setup w (under c (api.unlock c.mutex).1))
  unfolding unlock_after
  unlock_after-eq c w unlocked = rw unlocked refl

  section-Ends :
      (body : Ctx setup → Ctx setup) (w : Env setup)
      → IsFieldwise body
      → IsReady w
      → Ends success body w (locked_section setup body w)
  section-Ends body w h ready =
      let (m, locked, held) = api.lock_lem w.ctx.mutex ready.free in
      let (unlocked, back) = api.unlock_lem m held in
      record {
        last = with_ctx setup w (under (body (w.ctx)) (api.unlock m).1);
        returned =
            section-unlock_after body w m ready.up locked
            ∙ ap (λ c. some (unlock_after setup c w)) (h w.ctx m)
            ∙ ap some (unlock_after-eq (under (body (w.ctx)) m) w unlocked);
        free = back;
        calls = (m, locked, refl);
        fields = refl;
      }

  -- What a caller can rely on after a call that succeeded: the module is as ready as before.
  Ends-IsReady :
      {body : Ctx setup → Ctx setup} {w : Env setup} {e : TtError} {r : Returns setup}
      → (x : Ends e body w r) → (body w.ctx).initialized ≡ true
      → IsReady x.last
  Ends-IsReady x h = record { up = ap (λ v. v.ctx.initialized) x.fields ∙ h; free = x.free }

  -- `tt_error_get_last` returns the stored error and leaves the module ready and unchanged.
  pub get_last_lem :
      (w : Env setup) → IsReady w → Ends w.ctx.last_error (λ c. c) w (get_last setup w)
  unfolding get_last
  get_last_lem w ready =
      let x = section-Ends (λ c. c) w (λ c m. refl) ready in
      record {
        last = x.last;
        returned = rw x.returned (ap (λ e. some (e, x.last)) (ap (λ v. v.ctx.last_error) x.fields));
        free = x.free;
        calls = x.calls;
        fields = x.fields;
      }

  module _ (invoke : Callback → TtError → Env setup → Option (Env setup)) where
    -- The state in which `tt_error_set_last` calls the callback, or returns.
    pub record Stored (e : TtError) (w w' : Env setup) : Type 0 where
      pub ready : IsReady w'
      pub stored : w'.ctx.last_error ≡ e
      pub same_callback : w'.ctx.callback ≡ w.ctx.callback
      pub same_client : w'.client ≡ w.client

    -- `tt_error_set_last` on a ready module stores the error. Then, in a state that is ready again, so
    -- that the callback may itself call this module, it calls the callback if there is one and the
    -- error is not success, and returns success if the callback returns; otherwise it returns success
    -- at once.
    pub set_last_lem :
        (e : TtError) (w : Env setup)
        → IsReady w
        → (w' : Env setup) × Stored e w w'
          × (set_last setup invoke e w ≡ notify setup invoke w.ctx.callback e w')
    unfolding set_last
    set_last_lem e w ready =
        let x = section-Ends (λ c. record c { last_error = e }) w (λ c m. refl) ready in
        let same = ap (λ v. v.ctx.callback) x.fields in
        (
          x.last,
          record {
            ready = Ends-IsReady x ready.up;
            stored = ap (λ v. v.ctx.last_error) x.fields;
            same_callback = same;
            same_client = ap (λ v. v.client) x.fields;
          },
          rw x.returned (ap (λ c. notify setup invoke c e x.last) same),
        )

    notify-success :
        (c : Option Callback) (w : Env setup) → notify setup invoke c success w ≡ some (success, w)
    notify-success none w = refl
    notify-success (some c) w = refl

    -- `tt_error_clear` returns success without a call of the callback, whatever callback there is,
    -- and `tt_error_is_success` then says yes.
    pub last_is_success-clear :
        (w : Env setup)
        → IsReady w
        → (w1 : Env setup) × (w2 : Env setup) × (clear setup invoke w ≡ some (success, w1))
          × (w1.client ≡ w.client)
          × (last_is_success setup w1 ≡ some (true, w2))
          × IsReady w2
    unfolding clear last_is_success
    last_is_success-clear w ready =
        let (w', s, calls) = set_last_lem success w ready in
        let g = get_last_lem w' s.ready in
        (
          w',
          g.last,
          calls ∙ notify-success w.ctx.callback w',
          s.same_client,
          rw g.returned (rw s.stored refl),
          Ends-IsReady g s.ready.up,
        )

  -- `tt_error_register_callback` on a ready module succeeds and stores the callback, NULL too; the
  -- last error stays.
  pub register_callback_lem :
      (callback : Option Callback) (w : Env setup)
      → IsReady w
      → Ends success (λ c. record c { callback = callback }) w (register_callback setup callback w)
  unfolding register_callback
  register_callback_lem callback w ready =
      section-Ends (λ c. record c { callback = callback }) w (λ c m. refl) ready

  -- `tt_error_deinit` on a ready module succeeds, forgets the callback, and leaves the module not
  -- initialised, with the last error in place.
  pub deinit_lem :
      (w : Env setup)
      → IsReady w
      → Ends success (λ c. record c { callback = none; initialized = false }) w (deinit setup w)
  unfolding deinit
  deinit_lem w ready =
      section-Ends (λ c. record c { callback = none; initialized = false }) w (λ c m. refl) ready
