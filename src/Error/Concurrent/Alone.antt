-- ===== src/Error/Concurrent/Alone.antt =====
-- The accesses of src/tt_error.c that the model of concurrent calls makes, one after another and with no
-- other thread in between, against the functions of src/tt_error.c as a whole.
use tinytools.Prelude.{ℕ, zero, suc, none, ◌≡◌, refl, sym, ap, ◌∙◌, Option, some}
use tinytools.Types.{TtError, success}
use tinytools.Error.{
  Setup, Env, Ctx, Returns, deinit, get_last, register_callback, notify, set_last,
}
use tinytools.Error.Calls.{
  IsReady, Ends, get_last_lem, set_last_lem, register_callback_lem, deinit_lem,
}
use tinytools.Error.Concurrent.{
  Fields, Op, sets, gets, registers, deinits, Answer, value, told, done, pass,
}
use tinytools.Mutex.Spin.Shared.{Pass, goes_on, ends, faults}

-- What follows a pass, unless it ends the call.
abbrev pub go_on : {R D : Type 0} → Pass R D → (D → Option (R × D)) → Option (R × D)
go_on (goes_on d) rest = rest d
go_on (ends answer d) rest = some (answer, d)
go_on faults rest = none

-- The accesses of a call from the one with a number on, at most so many: what has been read, and the
-- fields afterwards.
unfoldable pub accesses :
    {Callback : Type 0}
    → ℕ
    → Op Callback
    → ℕ
    → Fields Callback
    → Option (Answer Callback × Fields Callback)
accesses zero op k d = none
accesses (suc fuel) op k d = go_on (pass op k d) (accesses fuel op (suc k))

module _ (setup : Setup) where
  open setup use {api, Callback, Client}

  -- What the mutex guards.
  abbrev pub fields : Ctx setup → Fields Callback
  fields c = record {
    last_error = c.last_error;
    callback = c.callback;
    initialized = c.initialized;
  }

  module _ (invoke : Callback → TtError → Env setup → Option (Env setup)) where
    -- The function.
    abbrev pub call : Op Callback → Env setup → Returns setup
    call (sets error) w = set_last setup invoke error w
    call gets w = get_last setup w
    call (registers callback) w = register_callback setup callback w
    call deinits w = deinit setup w

    -- What it does after the unlock with what it has read before.
    abbrev pub after_unlock : Op Callback → Answer Callback → Env setup → Returns setup
    after_unlock (sets error) (told callback) w = notify setup invoke callback error w
    after_unlock gets (value error) w = some (error, w)
    after_unlock op a w = some (success, w)

    -- The state at the unlock has the fields that the accesses leave, and what follows goes by what
    -- they have read.
    pub record DoesAlone (op : Op Callback) (w : Env setup) : Type 0 where
      pub unlocked : Env setup
      pub answer : Answer Callback
      pub made : accesses 2 op 0 (fields w.ctx) ≡ some (answer, fields unlocked.ctx)
      pub same_client : unlocked.client ≡ w.client
      pub rest : call op w ≡ after_unlock op answer unlocked
      pub free : api.IsFree unlocked.ctx.mutex

    from-Ends :
        {e : TtError} {b : Ctx setup → Ctx setup} (op : Op Callback) (answer : Answer Callback)
        (w : Env setup) (x : Ends setup e b w (call op w))
        → accesses 2 op 0 (fields w.ctx) ≡ some (answer, fields (b w.ctx))
        → some (e, x.last) ≡ after_unlock op answer x.last
        → DoesAlone op w
    from-Ends op answer w x made reads = record {
      unlocked = x.last;
      answer = answer;
      made = made ∙ ap (λ v. some (answer, fields v.ctx)) (sym x.fields);
      same_client = ap (λ v. v.client) x.fields;
      rest = x.returned ∙ reads;
      free = x.free;
    }

    -- On a module that is initialised, with a mutex that nobody holds, each function does what its
    -- accesses do one after another, of which there are at most two: it returns what they have read, or
    -- calls the callback that they have read, and it leaves what they have written, the client's data
    -- as they were until then, and a mutex that nobody holds.
    pub call-DoesAlone : (op : Op Callback) (w : Env setup) → IsReady setup w → DoesAlone op w
    unfolding accesses pass
    call-DoesAlone (sets error) w ready =
        let (w', s, calls) = set_last_lem setup invoke error w ready in
        record {
          unlocked = w';
          answer = told w.ctx.callback;
          made = λ i. some (
            told w.ctx.callback,
            record {
              last_error = (sym s.stored) i;
              callback = (sym s.same_callback) i;
              initialized = (ready.up ∙ sym s.ready.up) i;
            },
          );
          same_client = s.same_client;
          rest = calls;
          free = s.ready.free;
        }
    call-DoesAlone gets w ready =
        from-Ends gets (value w.ctx.last_error) w (get_last_lem setup w ready) refl refl
    call-DoesAlone (registers callback) w ready =
        from-Ends (registers callback) done w (register_callback_lem setup callback w ready) refl
          refl
    call-DoesAlone deinits w ready = from-Ends deinits done w (deinit_lem setup w ready) refl refl
